-- ===== src/Sync/Semaphore.antt =====
-- kernel/sched/semaphore.c: counting semaphores. The value is a `short` in two's complement, and the
-- thread that calls is the current one.
use etaos.Prelude.{
  ℕ, ◌+◌, ◌-◌, ◌%◌, ◌<◌, ◌≤◌, ◌≡◌, ◌≢◌, ◌⊎◌, refl, sym, ap, subst, ◌∙◌, Bool, true, false, Option,
  none, some, List, [], ◌∷◌, if◌then◌else◌, ◌==◌, ◌||◌, leb, arith,
}
use etaos.Sched.Queue.{chain}
use etaos.Sched.Kernel.{Kernel, Config, thread}
use etaos.Event.{event_notify, Wait, returned, waiting, raw_event_wait, set_queue}
use etaos.Event.Laws.{Woken, event_notify_lem}
use etaos.Event.Waiting.{Blocked, wait_blocks, wait_Blocked}

-- `sem_t`; `queue` is its thread queue.
pub record Semaphore : Type 0 where
  pub value : ℕ
  pub queue : ℕ

abbrev pub is_negative : ℕ → Bool
is_negative v = leb 32768 v

-- `sem_init`, which empties the thread queue. The queue's class is no part of the model: it is that of
-- the other event queues, which `sem_init` does not set.
unfoldable pub sem_init : ℕ → Semaphore → Kernel → Semaphore × Kernel
sem_init value s k = (record s { value = value }, set_queue s.queue (chain []) k)

-- `sem_wait` up to the end of its wait.
unfoldable pub sem_wait : Config → Semaphore → Kernel → Wait × Semaphore × Kernel
unfolding raw_event_wait
sem_wait c s k =
    let v = (s.value + 65535) % 65536 in
    let r = raw_event_wait c s.queue 0 k in
    if is_negative v
    then (r.0, record s { value = v }, r.1)
    else (returned, record s { value = v }, k)

-- `sem_signal`; `in_irq` is CPU_IRQ_EXEC_FLAG.
unfoldable pub sem_signal : Config → Bool → Semaphore → Kernel → Semaphore × Kernel
unfolding event_notify
sem_signal c in_irq s k =
    let v = (s.value + 1) % 65536 in
    let notified = event_notify c in_irq s.queue k in
    (record s { value = v }, if is_negative v || (v == 0) then notified else k)

-- `sem_try_wait`; `none` is -1.
unfoldable pub sem_try_wait : Config → Semaphore → Kernel → Option (Wait × Semaphore × Kernel)
unfolding sem_wait
sem_try_wait c s k =
    let r = sem_wait c s k in if is_negative s.value || (s.value == 0) then none else some r

sem_wait_down :
    (c : Config) (s : Semaphore) (k : Kernel)
    → is_negative ((s.value + 65535) % 65536) ≡ true
    → sem_wait c s k ≡ (
      (raw_event_wait c s.queue 0 k).0,
      record s { value = (s.value + 65535) % 65536 },
      (raw_event_wait c s.queue 0 k).1,
    )
unfolding sem_wait
sem_wait_down c s k e =
    let v = (s.value + 65535) % 65536 in
    let r = raw_event_wait c s.queue 0 k in
    ap
      (λ b. if b then (r.0, record s { value = v }, r.1) else (returned, record s { value = v }, k))
      e

sem_wait_up :
    (c : Config) (s : Semaphore) (k : Kernel)
    → 0 < s.value
    → s.value < 32768
    → sem_wait c s k ≡ (returned, record s { value = s.value - 1 }, k)
unfolding sem_wait
sem_wait_up c s k p m =
    let v = (s.value + 65535) % 65536 in
    let r = raw_event_wait c s.queue 0 k in
    let one_less : v ≡ s.value - 1 = omega arith in
    let e : is_negative v ≡ false = ground arith in
    ap
      (λ b. if b then (r.0, record s { value = v }, r.1) else (returned, record s { value = v }, k))
      e
    ∙ ap (λ n. (returned, record s { value = n }, k)) one_less

-- In a queue without the mark SIGNALED: a positive value lets `sem_wait` return at once, one less,
-- and changes nothing else; with any other value but the least one the thread waits in the queue.
pub sem_wait_lem :
    (c : Config) (s : Semaphore) (k : Kernel) (xs : List ℕ)
    → s.value < 65536
    → k.queues s.queue ≡ chain xs
    → (0 < s.value
        → s.value < 32768
        → (v : ℕ) × (v + 1 ≡ s.value) × (sem_wait c s k ≡ (returned, record s { value = v }, k)))
      × ((s.value ≡ 0) ⊎ (32768 < s.value)
          → ((sem_wait c s k).0 ≡ waiting) × Blocked s.queue xs k ((sem_wait c s k).2))
sem_wait_lem c s k xs b q =
    let v = (s.value + 65535) % 65536 in
    (
      λ p m. (s.value - 1, omega arith, sem_wait_up c s k p m),
      λ h.
          let e : is_negative v ≡ true = ground (arith, h) in
          let w = sem_wait_down c s k e in
          let r = wait_blocks c s.queue 0 xs k q in
          (
            ap (λ (x : Wait × Semaphore × Kernel). x.0) w ∙ ap (λ (x : Wait × Kernel). x.0) r,
            subst (Blocked s.queue xs k)
                (sym (
                  ap (λ (x : Wait × Semaphore × Kernel). x.2) w
                  ∙ ap (λ (x : Wait × Kernel). x.1) r))
                (wait_Blocked c s.queue 0 xs k q),
          ),
    )

sem_signal_down :
    (c : Config) (s : Semaphore) (k : Kernel)
    → 32768 ≤ s.value
    → s.value < 65536
    → sem_signal c false s k
      ≡ (record s { value = (s.value + 1) % 65536 }, event_notify c false s.queue k)
unfolding sem_signal
sem_signal_down c s k h b =
    let v = (s.value + 1) % 65536 in
    let e : (is_negative v || (v == 0)) ≡ true = ground (arith, h) in
    ap (λ t. (record s { value = v }, if t then event_notify c false s.queue k else k)) e

-- While threads wait in its queue, of which the first is not the current thread and is off the run queue, and
-- the value is negative, `sem_signal` adds one to the value and wakes the first of them alone; with a
-- value from 0 to 32766 it adds one and changes nothing else.
pub sem_signal_lem :
    (c : Config) (s : Semaphore) (k : Kernel)
    → ((w : ℕ) (ws : List ℕ)
        → 32768 ≤ s.value
        → s.value < 65536
        → k.queues s.queue ≡ chain (w ∷ ws)
        → k.current ≢ w
        → (thread k w).on_rq ≡ false
        → ((sem_signal c false s k).0.value ≡ (s.value + 1) % 65536)
          × Woken s.queue w ws k (sem_signal c false s k).1)
      × (s.value < 32767
          → (in_irq : Bool) → sem_signal c in_irq s k ≡ (record s { value = s.value + 1 }, k))
unfolding sem_signal
sem_signal_lem c s k = (
  λ w ws h b q ne off.
      let e = sem_signal_down c s k h b in
      (
        refl,
        subst (Woken s.queue w ws k) (sym (ap (λ (x : Semaphore × Kernel). x.1) e))
            (event_notify_lem c s.queue w ws k q ne off),
      ),
  λ h in_irq.
      let v = (s.value + 1) % 65536 in
      let one_more : v ≡ s.value + 1 = omega arith in
      let e : (is_negative v || (v == 0)) ≡ false = ground arith in
      ap (λ t. (record s { value = v }, if t then event_notify c in_irq s.queue k else k)) e
      ∙ ap (λ n. (record s { value = n }, k)) one_more,
)
