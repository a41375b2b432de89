-- ===== src/Irq/Table.antt =====
-- The invariant of the table of interrupt lines.
use etaos.Prelude.{
  ℕ, ◌<◌, ◌≡◌, ◌≢◌, inl, inr, refl, sym, ap, ◌∙◌, subst, Bool, true, Option, none, some,
  if◌then◌else◌, ℕ_discrete, dec_lt, some_inj, Option-cases, Bool-cases,
}
use etaos.Sched.Kernel.{Config, Kernel}
use etaos.Sched.Control.{thread_initialise}
use etaos.Sched.Core.RunQueue.{In}
use etaos.Drivers.{Rc, enomem, succeeded}
use etaos.Irq.{
  IrqData, Irqs, Allocated, Flags, new_data, or_enomem, register, irq_request_threaded_irq,
  owner_for, irq_thread_prio, request_threaded, irq_request,
}
use etaos.Irq.Request.{registered_lem, Entered, register-Entered}

-- Every entry of the table stands at its own line, which is in range, is enabled, and is in the list of
-- the chip.
abbrev pub Registered : {H : Type 0} → ℕ → Irqs H → Type 0
Registered vectors s =
    (i d : ℕ)
    → s.arch_irqs i ≡ some d
    → (i < vectors) × ((s.irq_data d).irq ≡ i) × ((s.irq_data d).enable ≡ true) × In d s.irqs

abbrev pub Fresh : {H : Type 0} → ℕ → Irqs H → Type 0
Fresh d s = (i : ℕ) → s.arch_irqs i ≢ some d

module _ {H : Type 0} where
  enters :
      (vectors n d i : ℕ) (x : IrqData) (s s' : Irqs H)
      → Entered vectors true n d x s s'
      → x.irq ≡ n
      → n < vectors
      → i ≡ n
      → (i < vectors) × ((s'.irq_data d).irq ≡ i) × ((s'.irq_data d).enable ≡ true) × In d s'.irqs
  enters vectors n d i x s s' e xn lt h =
      let r = registered_lem x in
      (
        subst (λ k. k < vectors) (sym h) lt,
        ap (λ y. y.irq) e.at ∙ r.4 ∙ xn ∙ sym h,
        ap (λ y. y.enable) e.at ∙ r.0,
        subst (In d) (sym e.listed) (inl refl),
      )

  keeps :
      (vectors n d i e : ℕ) (x : IrqData) (s s' : Irqs H)
      → Entered vectors true n d x s s'
      → Fresh d s
      → Registered vectors s
      → s.arch_irqs i ≡ some e
      → (i < vectors) × ((s'.irq_data e).irq ≡ i) × ((s'.irq_data e).enable ≡ true) × In e s'.irqs
  keeps vectors n d i e x s s' en fresh reg h =
      let ne : e ≢ d = λ eq. fresh i (h ∙ ap some eq) in
      let same = en.others e ne in
      let r = reg i e h in
      (
        r.0,
        ap (λ y. y.irq) same ∙ r.1,
        ap (λ y. y.enable) same ∙ r.2,
        subst (In e) (sym en.listed) (inr r.3),
      )

  register-Registered :
      (vectors n d : ℕ) (x : IrqData) (s : Irqs H)
      → x.irq ≡ n
      → Fresh d s
      → Registered vectors s
      → Registered vectors (register vectors true n d x s).1
  register-Registered vectors n d x s xn fresh reg i e h =
      let s' = (register vectors true n d x s).1 in
      let en = register-Entered vectors true n d x s in
      elim (ℕ_discrete i n) [
        | yes eq ↦ elim (dec_lt n vectors) [
          | yes lt ↦
              let here : e ≡ d = some_inj e d (sym h ∙ ap (λ k. s'.arch_irqs k) eq ∙ en.line lt) in
              subst
                (λ e.
                  (i < vectors)
                  × ((s'.irq_data e).irq ≡ i)
                  × ((s'.irq_data e).enable ≡ true)
                  × In e s'.irqs)
                (sym here) (enters vectors n d i x s s' en xn lt eq)
          | no ge ↦ keeps vectors n d i e x s s' en fresh reg (sym (en.out_of_range ge i) ∙ h)
        ]
        | no ne ↦ keeps vectors n d i e x s s' en fresh reg (sym (en.lines i ne) ∙ h)
      ]

  -- A request for a thread touches the scheduler alone.
  owned_lem :
      (P : Irqs H → Type 0) (c : Config) (o : Option ℕ) (s : Irqs H)
      → P s
      → ((k : Kernel) → P (record s { kernel = k }))
      → P (owner_for c o s).2
  unfolding owner_for
  owned_lem P c none s p f = p
  owned_lem P c (some tp) s p f = f (thread_initialise c tp irq_thread_prio s.kernel)

  threaded_lem :
      (P : Irqs H → Type 0) (c : Config) (m : Allocated) (s : Irqs H)
      → P s
      → ((k : Kernel) → P (record s { kernel = k }))
      → P (irq_request_threaded_irq c m s).2
  unfolding irq_request_threaded_irq
  threaded_lem P c m s p f =
      let owned = owner_for c m.owner_address s in
      let pick =
        λ (b : Bool). P (if◌then◌else◌ {A = Rc × Option ℕ × Irqs H} b owned (enomem, none, s)).2 in
      elim (Bool-cases m.stack) [
        | inl e ↦ subst pick (sym e) (owned_lem P c m.owner_address s p f)
        | inr e ↦ subst pick (sym e) p
      ]

  request_at :
      (c : Config) (vectors : ℕ) (m : Allocated) (n vector : ℕ) (f : Flags) (priv d : ℕ)
      (s : Irqs H)
      → Fresh d s
      → Registered vectors s
      → Registered vectors (request_threaded c vectors true m n vector f priv d s).1
  unfolding request_threaded
  request_at c vectors m n vector f priv d s fresh reg =
      let r = irq_request_threaded_irq c m s in
      let x = new_data n vector f priv r.1 in
      let both =
        threaded_lem (λ t. Fresh d t × Registered vectors t) c m s (fresh, reg)
          (λ k. (fresh, reg)) in
      let entered = register vectors true n d x r.2 in
      let pick =
        λ (b : Bool). Registered vectors (if◌then◌else◌ {A = Rc × Irqs H} b entered (r.0, r.2)).1 in
      elim (Bool-cases (succeeded r.0)) [
        | inl e ↦ subst pick (sym e) (register-Registered vectors n d x r.2 refl both.0 both.1)
        | inr e ↦ subst pick (sym e) both.1
      ]

  -- `irq_request` keeps the table of interrupt lines in order, whether it succeeds or not: every
  -- entry stands at its own line, which is in range, is enabled, and is in the list of the chip.
  -- The CPU has a chip, and what is allocated for a request stands in no entry.
  pub irq_request-Registered :
      (c : Config) (vectors : ℕ) (m : Allocated) (n vector : ℕ) (f : Flags) (priv : ℕ) (s : Irqs H)
      → ((d : ℕ) → m.data_address ≡ some d → Fresh d s)
      → Registered vectors s
      → Registered vectors (irq_request c vectors true m n vector f priv s).1
  unfolding irq_request
  irq_request-Registered c vectors m n vector f priv s fresh reg =
      let threaded = λ (d : ℕ). request_threaded c vectors true m n vector f priv d s in
      let plain = λ (d : ℕ). register vectors true n d (new_data n vector f priv none) s in
      let go = λ (o : Option ℕ).
        Registered vectors (or_enomem o (λ d. if f.threaded then threaded d else plain d) s).1 in
      elim (Option-cases m.data_address) [
        | inl e ↦ subst go (sym e) reg
        | inr (d, e) ↦
            let pick = λ (b : Bool). Registered vectors (if b then threaded d else plain d).1 in
            subst go (sym e) (elim (Bool-cases f.threaded) [
              | inl t ↦
                  subst pick (sym t) (request_at c vectors m n vector f priv d s (fresh d e) reg)
              | inr t ↦ subst pick (sym t) (
                  register-Registered vectors n d (new_data n vector f priv none) s refl (fresh d e)
                    reg)
            ])
      ]
