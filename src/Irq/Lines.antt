-- ===== src/Irq/Lines.antt =====
-- The table of interrupt lines: what a request enters is what an interrupt finds.
use etaos.Prelude.{
  ℕ, ◌<◌, ◌≡◌, ◌≢◌, refl, sym, ap, ◌∙◌, subst, Bool, true, false, Option, none, some, if◌then◌else◌,
  lt→ltb,
}
use etaos.Sched.Kernel.{Config}
use etaos.Drivers.{Rc}
use etaos.Irq.{
  IrqReturn, irq_none, irq_handled, irq_wake_owner, Irqs, Allocated, Flags, Handlers, irq_to_data,
  new_data, irq_request, handled, call_handler, dispatch, irq_handle_hard_irq, irq_exit, irq_handle,
}
use etaos.Irq.Request.{registered_lem, Entered, register-Entered, irq_request_plain}

module _ {H : Type 0} where
  -- An interrupt finds the data of its line.
  pub irq_to_data_lem :
      (vectors n : ℕ) (s : Irqs H) → n < vectors → irq_to_data vectors n s ≡ s.arch_irqs n
  unfolding irq_to_data
  irq_to_data_lem vectors n s lt = ap (λ b. if b then s.arch_irqs n else none) (lt→ltb n vectors lt)

  pub irq_handle_at :
      (c : Config) (vectors : ℕ) (run : Handlers H) (n d : ℕ) (s : Irqs H)
      → n < vectors
      → s.arch_irqs n ≡ some d
      → (s.irq_data d).enable ≡ true
      → irq_handle c vectors run n s
        ≡ irq_exit (irq_handle_hard_irq c run d (record s { executing = true }))
  unfolding irq_handle dispatch
  irq_handle_at c vectors run n d s lt e en =
      let s' = record s { executing = true } in
      ap (λ o. irq_exit (dispatch c run s' o)) (irq_to_data_lem vectors n s' lt ∙ e)
      ∙ ap (λ b. irq_exit (if b then irq_handle_hard_irq c run d s' else some s')) en

  handled_none :
      (c : Config) (d : ℕ) (v : IrqReturn) (s : Irqs H)
      → v ≢ irq_wake_owner
      → handled c d v s ≡ some s
  unfolding handled
  handled_none c d irq_none s ne = refl
  handled_none c d irq_handled s ne = refl
  handled_none c d irq_wake_owner s ne = elim (ne refl) [ ]

  hard_plain :
      (c : Config) (run : Handlers H) (d h priv : ℕ) (s : Irqs H)
      → (s.irq_data d).threaded ≡ false
      → (s.irq_data d).handler ≡ some h
      → (s.irq_data d).private_data ≡ priv
      → (run h d priv s).0 ≢ irq_wake_owner
      → irq_handle_hard_irq c run d s ≡ some (run h d priv s).1
  unfolding irq_handle_hard_irq
  hard_plain c run d h priv s t g p ne =
      let x = s.irq_data d in
      let out = λ (o : Option ℕ). call_handler run d x.private_data s o in
      ap
        (λ b.
          if b
          then handled c d irq_wake_owner s
          else handled c d (out x.handler).0 (out x.handler).1)
        t
      ∙ ap (λ o. handled c d (out o).0 (out o).1) g
      ∙ ap (λ q. handled c d (run h d q s).0 (run h d q s).1) p
      ∙ handled_none c d (run h d priv s).0 (run h d priv s).1 ne

  -- After a request for a line that no thread handles, with memory for it, an interrupt of the line
  -- calls the requested handler with the data and the private data, in the context of an interrupt,
  -- and leaves the context; the other lines and their data are as before. The line is in range, and
  -- the handler does not ask for a thread.
  pub irq_handle-irq_request :
      (c : Config) (vectors : ℕ) (chip : Bool) (m : Allocated) (n vector : ℕ) (f : Flags)
      (priv d : ℕ) (run : Handlers H) (s : Irqs H)
      → n < vectors
      → m.data_address ≡ some d
      → f.threaded ≡ false
      → (let s' = (irq_request c vectors chip m n vector f priv s).1 in
          (run vector d priv (record s' { executing = true })).0 ≢ irq_wake_owner)
      → let s' = (irq_request c vectors chip m n vector f priv s).1 in
        (irq_handle c vectors run n s'
          ≡ some
              (record (run vector d priv (record s' { executing = true })).1 { executing = false }))
        × ((i : ℕ) → i ≢ n → s'.arch_irqs i ≡ s.arch_irqs i)
        × ((e : ℕ) → e ≢ d → s'.irq_data e ≡ s.irq_data e)
  irq_handle-irq_request c vectors chip m n vector f priv d run s lt mem t ne =
      let x = new_data n vector f priv none in
      let s' = (irq_request c vectors chip m n vector f priv s).1 in
      let e : Entered vectors chip n d x s s' =
        subst (λ (r : Rc × Irqs H). Entered vectors chip n d x s r.1)
          (sym (irq_request_plain c vectors chip m n vector f priv d s mem t))
          (register-Entered vectors chip n d x s) in
      let r = registered_lem x in
      let entered = record s' { executing = true } in
      (
        irq_handle_at c vectors run n d s' lt (e.line lt) (ap (λ y. y.enable) e.at ∙ r.0)
            ∙ ap irq_exit (
                hard_plain c run d vector priv entered (ap (λ y. y.threaded) e.at ∙ r.1 ∙ t)
                  (ap (λ y. y.handler) e.at ∙ r.2) (ap (λ y. y.private_data) e.at ∙ r.3) ne),
        e.lines,
        e.others,
      )
