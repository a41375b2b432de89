-- ===== src/Irq/Threaded.antt =====
-- Interrupts that a thread handles: what an interrupt does to the thread, and what becomes of those that
-- come while it runs.
use mathlib.Core.List.{Perm}
use etaos.Prelude.{
  ℕ, zero, suc, ◌+◌, ◌<◌, ◌≡◌, refl, sym, ap, ◌∙◌, subst, true, false, Option, none, some, ◌∷◌,
  if◌then◌else◌, ==_iff, arith,
}
use etaos.Sched.Kernel.{Kernel, Config, thread, on_thread}
use etaos.Sched.Core.{raw_rq_add_thread}
use etaos.Event.Laws.{raw_rq_add_lem}
use etaos.Irq.{
  irq_wake_owner, IrqData, Irqs, Handlers, on_data, wake_owner, handled, call_handler,
  irq_handle_hard_irq, irq_exit, irq_handle, irq_thread_signal, irq_thread_wait, thread_handler,
  irq_handle_fn,
}
use etaos.Sched.Control.{kill}
use etaos.Irq.Lines.{irq_handle_at}

-- A line that thread `tp` handles.
pub record Owned {H : Type 0} (vectors n d tp : ℕ) (s : Irqs H) : Type 0 where
  pub in_range : n < vectors
  pub entry : s.arch_irqs n ≡ some d
  pub enabled : (s.irq_data d).enable ≡ true
  pub threaded : (s.irq_data d).threaded ≡ true
  pub owned : (s.irq_data d).owner ≡ some tp

signal_off :
    (c : Config) (tp : ℕ) (k : Kernel)
    → (thread k tp).on_rq ≡ false
    → let woken = on_thread tp (λ t. record t { running = true; waiting = false }) k in
      let added = raw_rq_add_thread c tp woken in
      irq_thread_signal c tp k
      ≡ on_thread added.current (λ t. record t { preempt_resched = true }) added
unfolding irq_thread_signal
signal_off c tp k off =
    let woken = on_thread tp (λ t. record t { running = true; waiting = false }) k in
    let added = raw_rq_add_thread c tp woken in
    ap
      (λ b.
        if b then k else on_thread added.current (λ t. record t { preempt_resched = true }) added)
      off

-- The thread has been put on the run queue, and the current thread is to be preempted.
abbrev pub Signaled : ℕ → Kernel → Kernel → Type 0
Signaled tp k k' =
    Perm (tp ∷ k.run_queue) k'.run_queue
    × ((thread k' tp).running ≡ true)
    × ((thread k' tp).on_rq ≡ true)
    × ((thread k' k.current).preempt_resched ≡ true)
    × (k'.current ≡ k.current)

pub signal_Signaled :
    (c : Config) (tp : ℕ) (k : Kernel)
    → (thread k tp).on_rq ≡ false
    → Signaled tp k (irq_thread_signal c tp k)
signal_Signaled c tp k off =
    let woken = on_thread tp (λ t. record t { running = true; waiting = false }) k in
    let added = raw_rq_add_thread c tp woken in
    let (same, p, run, on, _) = raw_rq_add_lem c tp woken in
    let cur : added.current ≡ k.current = same.2 in
    subst (Signaled tp k) (sym (signal_off c tp k off))
      (p, ground (arith, run), ground (arith, on), ground (arith, cur), cur)

signal_on :
    (c : Config) (tp : ℕ) (k : Kernel) → (thread k tp).on_rq ≡ true → irq_thread_signal c tp k ≡ k
unfolding irq_thread_signal
signal_on c tp k on =
    let woken = on_thread tp (λ t. record t { running = true; waiting = false }) k in
    let added = raw_rq_add_thread c tp woken in
    ap
      (λ b.
        if b then k else on_thread added.current (λ t. record t { preempt_resched = true }) added)
      on

module _ {H : Type 0} where
  -- An interrupt of such a line counts, and signals the thread.
  abbrev pub counted : Config → ℕ → ℕ → Irqs H → Irqs H
  unfolding irq_thread_signal
  counted c d tp s = record (on_data d (λ x. record x { num = x.num + 1 }) s) {
    kernel = irq_thread_signal c tp s.kernel;
  }

  handled_owned :
      (c : Config) (d tp : ℕ) (s : Irqs H)
      → (s.irq_data d).owner ≡ some tp
      → handled c d irq_wake_owner s ≡ some (counted c d tp s)
  unfolding handled wake_owner
  handled_owned c d tp s e = ap (wake_owner c d s) e

  handle_owned :
      (c : Config) (vectors : ℕ) (run : Handlers H) (n d tp : ℕ) (s : Irqs H)
      → Owned vectors n d tp s
      → irq_handle c vectors run n s ≡ some (record (counted c d tp s) { executing = false })
  unfolding irq_handle_hard_irq
  handle_owned c vectors run n d tp s o =
      let s' = record s { executing = true } in
      let x = s.irq_data d in
      let r = call_handler run d x.private_data s' x.handler in
      irq_handle_at c vectors run n d s o.in_range o.entry o.enabled
      ∙ ap (λ b. irq_exit (if b then handled c d irq_wake_owner s' else handled c d r.0 r.1))
          o.threaded
      ∙ ap irq_exit (handled_owned c d tp s' o.owned)

  count_one :
      (c : Config) (d tp : ℕ) (s : Irqs H)
      → (counted c d tp s).irq_data d ≡ record (s.irq_data d) { num = (s.irq_data d).num + 1 }
  unfolding counted
  count_one c d tp s = rw ((==_iff d d).1 refl) refl

  -- An interrupt of a line that a thread handles, which is off the run queue, calls no handler: it
  -- counts, and puts the thread on the run queue, able to run, and the current thread is to be
  -- preempted.
  pub irq_handle-Signaled :
      (c : Config) (vectors : ℕ) (run : Handlers H) (n d tp : ℕ) (s : Irqs H)
      → Owned vectors n d tp s
      → (thread s.kernel tp).on_rq ≡ false
      → (s' : Irqs H) × (irq_handle c vectors run n s ≡ some s')
        × (s'.irq_data d ≡ record (s.irq_data d) { num = (s.irq_data d).num + 1 })
        × Signaled tp s.kernel s'.kernel
        × (s'.executing ≡ false)
  unfolding counted irq_thread_signal
  irq_handle-Signaled c vectors run n d tp s o off = (
    record (counted c d tp s) { executing = false },
    handle_owned c vectors run n d tp s o,
    count_one c d tp s,
    signal_Signaled c tp s.kernel off,
    refl,
  )

  -- So many interrupts of a line, one after the other.
  abbrev pub interrupts : Config → ℕ → Handlers H → ℕ → ℕ → Irqs H → Option (Irqs H)
  unfolding irq_handle
  interrupts c vectors run n zero s = some s
  interrupts c vectors run n (suc k) s = elim (irq_handle c vectors run n s) [
    | none ↦ none
    | some s' ↦ interrupts c vectors run n k s'
  ]

  -- What so many interrupts have done that found the thread on the run queue.
  pub record Counted (d k : ℕ) (s s' : Irqs H) : Type 0 where
    pub kernel_kept : s'.kernel ≡ s.kernel
    pub count : s'.irq_data d ≡ record (s.irq_data d) { num = (s.irq_data d).num + k }
    pub table : s'.arch_irqs ≡ s.arch_irqs

  kernel_counted :
      (c : Config) (d tp : ℕ) (s : Irqs H)
      → (thread s.kernel tp).on_rq ≡ true
      → (counted c d tp s).kernel ≡ s.kernel
  unfolding counted
  kernel_counted c d tp s on = signal_on c tp s.kernel on

  table_counted : (c : Config) (d tp : ℕ) (s : Irqs H) → (counted c d tp s).arch_irqs ≡ s.arch_irqs
  unfolding counted
  table_counted c d tp s = refl

  Owned_counted :
      (c : Config) (vectors n d tp : ℕ) (s : Irqs H)
      → Owned vectors n d tp s
      → Owned vectors n d tp (record (counted c d tp s) { executing = false })
  Owned_counted c vectors n d tp s o =
      let e = count_one c d tp s in
      record {
        in_range = o.in_range;
        entry = ap (λ (f : ℕ → Option ℕ). f n) (table_counted c d tp s) ∙ o.entry;
        enabled = ap (λ x. x.enable) e ∙ o.enabled;
        threaded = ap (λ x. x.threaded) e ∙ o.threaded;
        owned = ap (λ x. x.owner) e ∙ o.owned;
      }

  Counted-more :
      (c : Config) (d tp k : ℕ) (s s' : Irqs H)
      → (thread s.kernel tp).on_rq ≡ true
      → Counted d k (record (counted c d tp s) { executing = false }) s'
      → Counted d (suc k) s s'
  Counted-more c d tp k s s' on r =
      let num : (counted c d tp s).irq_data d
          ≡ record (s.irq_data d) { num = (s.irq_data d).num + 1 } =
        count_one c d tp s in
      let n = (s.irq_data d).num in
      let e : n + 1 + k ≡ n + suc k = omega arith in
      record {
        kernel_kept = r.kernel_kept ∙ kernel_counted c d tp s on;
        count =
            r.count
            ∙ ap (λ (x : IrqData). record x { num = x.num + k }) num
            ∙ ap (λ m. record (s.irq_data d) { num = m }) e;
        table = r.table ∙ table_counted c d tp s;
      }

  count_while_on :
      (c : Config) (vectors : ℕ) (run : Handlers H) (n d tp k : ℕ) (s : Irqs H)
      → Owned vectors n d tp s
      → (thread s.kernel tp).on_rq ≡ true
      → (s' : Irqs H) × (interrupts c vectors run n k s ≡ some s') × Counted d k s s'
  unfolding interrupts
  count_while_on c vectors run n d tp zero s o on =
      let e : (s.irq_data d).num ≡ (s.irq_data d).num + 0 = omega arith in
      (
        s,
        refl,
        record {
          kernel_kept = refl;
          count = ap (λ m. record (s.irq_data d) { num = m }) e;
          table = refl;
        },
      )
  count_while_on c vectors run n d tp (suc k) s o on =
      let s₁ = record (counted c d tp s) { executing = false } in
      let on₁ = ap (λ (q : Kernel). (thread q tp).on_rq) (kernel_counted c d tp s on) ∙ on in
      let (s', e, r) =
        count_while_on c vectors run n d tp k s₁ (Owned_counted c vectors n d tp s o) on₁ in
      let first = handle_owned c vectors run n d tp s o in
      let go : Option (Irqs H) → Option (Irqs H) =
        λ o. elim o [ none ↦ none | some t ↦ interrupts c vectors run n k t ] in
      (s', ap go first ∙ e, Counted-more c d tp k s s' on r)

  round_runs :
      (run : Handlers H) (d h priv : ℕ) (s : Irqs H)
      → (thread s.kernel s.kernel.current).exiting ≡ false
      → (s.irq_data d).handler ≡ some h
      → (s.irq_data d).private_data ≡ priv
      → irq_handle_fn run d s
        ≡ some
            (irq_thread_wait (on_data d (λ y. record y { triggered = false }) (run h d priv s).1))
  unfolding irq_handle_fn thread_handler
  round_runs run d h priv s ex g p =
      let x = s.irq_data d in
      let ran = thread_handler run d x.private_data s x.handler in
      ap (λ b. if b then some (record s { kernel = kill s.kernel }) else ran) ex
      ∙ ap (thread_handler run d x.private_data s) g
      ∙ ap (λ q. thread_handler run d q s (some h)) p

  -- Interrupts of a line that a thread handles, which come while it is on the run queue or runs,
  -- are counted and nothing else: they change no thread, and when the thread's round is over it has
  -- called its handler once and waits, however many they were. The current thread is not to exit.
  pub interrupts-irq_handle_fn :
      (c : Config) (vectors : ℕ) (run : Handlers H) (n d tp k h : ℕ) (s : Irqs H)
      → Owned vectors n d tp s
      → (thread s.kernel tp).on_rq ≡ true
      → (thread s.kernel s.kernel.current).exiting ≡ false
      → (s.irq_data d).handler ≡ some h
      → (s' : Irqs H) × (interrupts c vectors run n k s ≡ some s')
        × Counted d k s s'
        × (irq_handle_fn run d s'
            ≡ some (
                irq_thread_wait (
                  on_data d
                    (λ y. record y { triggered = false })
                    (run h d (s.irq_data d).private_data s').1)))
  interrupts-irq_handle_fn c vectors run n d tp k h s o on ex g =
      let (s', e, r) = count_while_on c vectors run n d tp k s o on in
      let not_exiting = ap (λ (q : Kernel). (thread q q.current).exiting) r.kernel_kept ∙ ex in
      (
        s',
        e,
        r,
        round_runs run d h (s.irq_data d).private_data s' not_exiting
            (ap (λ x. x.handler) r.count ∙ g) (ap (λ x. x.private_data) r.count),
      )
