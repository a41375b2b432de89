-- ===== src/Event/Laws.antt =====
-- What a notification does to a waiting thread, its queue and the other threads.
use mathlib.Core.List.{Perm}
use etaos.Prelude.{
  ℕ, ◌≡◌, ◌≢◌, refl, sym, ap, subst, ◌∙◌, true, false, none, List, ◌∷◌, if◌then◌else◌, ◌==◌, arith,
}
use etaos.Sched.Queue.{chain, take_out, bequeath, queue_remove}
use etaos.Sched.Kernel.{Kernel, Config, thread, on_thread, add_thread}
use etaos.Sched.Core.{
  unlink, raw_rq_add_thread, rq_add_thread, queue_remove_thread, remove_wake_thread, mark_empty,
}
use etaos.Sched.Core.RunQueue.{add_thread_lem}
use etaos.Event.{
  stop_timer, ask_resched, make_runnable, raw_event_notify, notify_head, event_notify,
}

-- What no step of a wake up of `tp` touches in the kernel but the run queue and the threads.
abbrev pub SameQueues : Kernel → Kernel → Type 0
SameQueues k k' = (k'.queues ≡ k.queues) × (k'.wake_queue ≡ k.wake_queue) × (k'.current ≡ k.current)

pub stop_timer_lem :
    (tp : ℕ) (k : Kernel)
    → let k' = stop_timer tp k in
      SameQueues k k'
      × (k'.run_queue ≡ k.run_queue)
      × ((u : ℕ)
          → ((thread k' u).running ≡ (thread k u).running)
            × ((thread k' u).on_rq ≡ (thread k u).on_rq))
unfolding stop_timer
stop_timer_lem tp k = (ground arith, ground arith, λ u. ground arith)

pub ask_resched_lem :
    (tp : ℕ) (k : Kernel)
    → let k' = ask_resched tp k in
      SameQueues k k'
      × (k'.run_queue ≡ k.run_queue)
      × ((u : ℕ)
          → ((thread k' u).running ≡ (thread k u).running)
            × ((thread k' u).on_rq ≡ (thread k u).on_rq))
ask_resched_lem tp k = (ground arith, ground arith, λ u. ground arith)

-- A wake up of a thread that is off the run queue.
pub raw_rq_add_lem :
    (c : Config) (tp : ℕ) (k : Kernel)
    → let k' = raw_rq_add_thread c tp k in
      SameQueues k k'
      × Perm (tp ∷ k.run_queue) k'.run_queue
      × ((thread k' tp).running ≡ true)
      × ((thread k' tp).on_rq ≡ true)
      × ((u : ℕ) → (thread k u).running ≡ true → (thread k' u).running ≡ true)
unfolding raw_rq_add_thread add_thread
raw_rq_add_lem c tp k =
    let (p, n, i, same) = add_thread_lem c tp k in
    ((refl, refl, refl), p, ground arith, ground arith, λ u r. runs u r (same u).0)
  where
    runs :
        (u : ℕ)
        → (thread k u).running ≡ true
        → (thread (add_thread c tp k) u).running ≡ (thread k u).running
        → (thread (raw_rq_add_thread c tp k) u).running ≡ true
    runs u r s = ground arith

pub queue_remove_thread_lem :
    (q tp : ℕ) (ws : List ℕ) (k : Kernel)
    → k.queues q ≡ chain (tp ∷ ws)
    → let k' = queue_remove_thread q tp k in
      (k'.queues q ≡ mark_empty (chain ws))
      × ((p : ℕ) → p ≢ q → k'.queues p ≡ k.queues p)
      × ((thread k' tp).queue ≡ none)
      × ((u : ℕ)
          → ((thread k' u).running ≡ (thread k u).running)
            × ((thread k' u).on_rq ≡ (thread k u).on_rq))
unfolding queue_remove_thread queue_remove take_out bequeath
queue_remove_thread_lem q tp ws k e = ground arith

rq_add_off :
    (c : Config) (tp : ℕ) (k : Kernel)
    → (thread k tp).on_rq ≡ false
    → rq_add_thread c tp k ≡ raw_rq_add_thread c tp k
unfolding rq_add_thread
rq_add_off c tp k e = rw (e, rq_add_thread) refl

make_runnable_off :
    (c : Config) (tp : ℕ) (k : Kernel)
    → k.current ≢ tp
    → (thread k tp).on_rq ≡ false
    → make_runnable c tp k ≡ ask_resched tp (raw_rq_add_thread c tp k)
unfolding make_runnable
make_runnable_off c tp k ne e =
    let other : (k.current == tp) ≡ false = ground arith in
    let woken = on_thread tp (λ t. record t { running = true; on_rq = true }) k in
    ap (λ b. if b then woken else ask_resched tp (rq_add_thread c tp k)) other
    ∙ ap (ask_resched tp) (rq_add_off c tp k e)

pub event_notify_head :
    (c : Config) (q w : ℕ) (ws : List ℕ) (k : Kernel)
    → k.queues q ≡ chain (w ∷ ws)
    → event_notify c false q k ≡ raw_event_notify c q w k
unfolding event_notify notify_head
event_notify_head c q w ws k e = ap (notify_head c q k) e

-- The state after a wake up of `w`, the first of the threads `w ∷ ws` of queue `q`.
abbrev pub Woken : ℕ → ℕ → List ℕ → Kernel → Kernel → Type 0
Woken q w ws k k' =
    (k'.queues q ≡ mark_empty (chain ws))
    × ((p : ℕ) → p ≢ q → k'.queues p ≡ k.queues p)
    × (k'.wake_queue ≡ unlink w k.wake_queue)
    × Perm (w ∷ k.run_queue) k'.run_queue
    × ((thread k' w).running ≡ true)
    × ((thread k' w).on_rq ≡ true)
    × (k'.current ≡ k.current)

-- A notification of a queue where threads wait, of which the first is not the current thread and is
-- off the run queue: it alone leaves the queue, which is marked SIGNALED if it was the last, it can
-- run and is on the run queue and off the wake queue, and no other queue changes.
pub event_notify_lem :
    (c : Config) (q w : ℕ) (ws : List ℕ) (k : Kernel)
    → k.queues q ≡ chain (w ∷ ws)
    → k.current ≢ w
    → (thread k w).on_rq ≡ false
    → Woken q w ws k (event_notify c false q k)
unfolding raw_event_notify remove_wake_thread queue_remove_thread
event_notify_lem c q w ws k e ne off =
    let k₁ = remove_wake_thread w k in
    let k₂ = queue_remove_thread q w k₁ in
    let k₃ = stop_timer w k₂ in
    let k₄ = raw_rq_add_thread c w k₃ in
    let (mine, others, _, keep₂) = queue_remove_thread_lem q w ws k₁ e in
    let ((q₃, w₃, c₃), r₃, keep₃) = stop_timer_lem w k₂ in
    let ((q₄, w₄, c₄), p₄, run₄, on₄, _) = raw_rq_add_lem c w k₃ in
    let ((q₅, w₅, c₅), r₅, keep₅) = ask_resched_lem w k₄ in
    let off₃ : (thread k₃ w).on_rq ≡ false = (keep₃ w).1 ∙ (keep₂ w).1 ∙ off in
    let step =
      event_notify_head c q w ws k e ∙ make_runnable_off c w k₃ (λ h. ne (sym c₃ ∙ h)) off₃ in
    subst (Woken q w ws k) (sym step) (
      ap (λ f. f q) (q₅ ∙ q₄ ∙ q₃) ∙ mine,
      λ p n. ap (λ f. f p) (q₅ ∙ q₄ ∙ q₃) ∙ others p n,
      w₅ ∙ w₄ ∙ w₃,
      subst (Perm (w ∷ k.run_queue)) (sym r₅) (subst (λ xs. Perm (w ∷ xs) k₄.run_queue) r₃ p₄),
      (keep₅ w).0 ∙ run₄,
      (keep₅ w).1 ∙ on₄,
      c₅ ∙ c₄ ∙ c₃,
    )
