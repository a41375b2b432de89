-- ===== src/Sync/Condition.antt =====
-- kernel/sched/condition.c: condition variables, up to the wait and from the wake up on. The thread
-- that calls is the current one.
use etaos.Prelude.{
  ◌+◌, ◌%◌, ℕ, ◌≡◌, ap, ◌∙◌, Bool, true, false, Option, none, some, if◌then◌else◌, ◌==◌, arith,
}
use etaos.Sched.Queue.{signaled}
use etaos.Sched.Kernel.{Kernel, Config, members}
use etaos.Event.{event_notify, event_notify_broadcast, Wait, waiting, event_wait, set_queue}
use etaos.Event.Waiting.{Blocked, event_wait_lem}
use etaos.Sync.Mutex.{Mutex, Locking, is_owner, try_unlock, unlock_end, mutex_lock, mutex_unlock}

-- `struct condition`; `queue` is its thread queue.
pub record Condition : Type 0 where
  pub lock : Mutex
  pub queue : ℕ

-- `condition_init`: `thread_queue_init` leaves the mark SIGNALED in both queues.
unfoldable pub condition_init : Condition → Kernel → Condition × Kernel
condition_init d k = (
  record d { lock = record (d.lock) { owner = none; count = 0 } },
  set_queue d.lock.queue signaled (set_queue d.queue signaled k),
)

-- `__condition_wait_for` up to its wait: the lock is released and the thread waits. `none` is the
-- panic of `mutex_unlock`.
abbrev pub wait_unlocked :
    Config → Condition → ℕ → Option (Mutex × Kernel) → Option (Wait × Condition × Kernel)
wait_unlocked c d ms none = none
wait_unlocked c d ms (some (m, k)) =
    let r = event_wait c d.queue ms k in some (r.0, record d { lock = m }, r.1)

unfoldable pub condition_wait_for :
    Config → Condition → ℕ → Kernel → Option (Wait × Condition × Kernel)
unfolding mutex_unlock
condition_wait_for c d ms k = wait_unlocked c d ms (mutex_unlock c d.lock k)

-- `condition_wait`
unfoldable pub condition_wait : Config → Condition → Kernel → Option (Wait × Condition × Kernel)
unfolding condition_wait_for
condition_wait c d k = condition_wait_for c d 0 k

-- `condition_lock`, which is also the rest of `__condition_wait_for`, when the waiting thread runs again.
abbrev pub relocked :
    Condition → Option (Locking × Mutex × Kernel) → Option (Locking × Condition × Kernel)
relocked d none = none
relocked d (some (l, m, k)) = some (l, record d { lock = m }, k)

unfoldable pub condition_lock : Config → Condition → Kernel → Option (Locking × Condition × Kernel)
unfolding mutex_lock
condition_lock c d k = relocked d (mutex_lock c d.lock k)

-- `condition_unlock`
abbrev pub unlocked : Condition → Option (Mutex × Kernel) → Option (Condition × Kernel)
unlocked d none = none
unlocked d (some (m, k)) = some (record d { lock = m }, k)

unfoldable pub condition_unlock : Config → Condition → Kernel → Option (Condition × Kernel)
unfolding mutex_unlock
condition_unlock c d k = unlocked d (mutex_unlock c d.lock k)

-- `condition_signal` and `condition_bcast`
unfoldable pub condition_signal : Config → Bool → Condition → Kernel → Kernel
unfolding event_notify
condition_signal c in_irq d k = event_notify c in_irq d.queue k

unfoldable pub condition_bcast : Config → Condition → Kernel → Kernel
unfolding event_notify_broadcast
condition_bcast c d k = event_notify_broadcast c d.queue k

-- A thread that holds the lock once releases it in `condition_wait_for`, notifies the threads that
-- wait for the lock, and waits behind the threads of the condition, whatever notification came
-- before.
pub condition_wait_for_lem :
    (c : Config) (d : Condition) (ms : ℕ) (k : Kernel)
    → is_owner k.current d.lock ≡ true
    → d.lock.count ≡ 1
    → let free = record (d.lock) { owner = none; count = 0 } in
      let k₁ = event_notify c false d.lock.queue k in
      let r = event_wait c d.queue ms k₁ in
      (condition_wait_for c d ms k ≡ some (waiting, record d { lock = free }, r.1))
      × Blocked d.queue (members (k₁.queues d.queue)) k₁ r.1
unfolding condition_wait_for mutex_unlock try_unlock unlock_end
condition_wait_for_lem c d ms k o n =
    let free = record (d.lock) { owner = none; count = 0 } in
    let k₁ = event_notify c false d.lock.queue k in
    let (w, b) = event_wait_lem c d.queue ms k₁ in
    let one : (d.lock.count == 1) ≡ true = ground (arith, n) in
    let pick : Bool → Mutex =
      λ t. if t then free else record (d.lock) { count = (d.lock.count + 65535) % 65536 } in
    let t : try_unlock k.current d.lock ≡ some free =
      ap (λ t. if t then some (pick (d.lock.count == 1)) else none) o
      ∙ ap (λ t. some (pick t)) one in
    (
      ap (λ x. wait_unlocked c d ms (unlock_end c d.lock.queue k x)) t
          ∙ ap (λ x. some (x, record d { lock = free }, (event_wait c d.queue ms k₁).1)) w,
      b,
    )
