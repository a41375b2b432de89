-- ===== src/Event/Timeout.antt =====
-- Time outs: `event_tmo`, and what the waiting thread is told.
use mathlib.Core.List.{Perm}
use etaos.Prelude.{
  ℕ, ◌≡◌, ◌≢◌, refl, sym, ap, subst, ◌∙◌, inl, inr, true, Option, some, List, [], ◌∷◌, arith,
  Bool-cases, some_inj,
}
use etaos.Sched.Thread.{Threads, timed_out}
use etaos.Sched.Queue.{chain, ok, einval, queue_remove}
use etaos.Sched.Kernel.{Kernel, Config, thread, on_thread, add_thread}
use etaos.Sched.Core.{raw_rq_add_thread, queue_remove_thread, remove_wake_thread, mark_empty}
use etaos.Sched.Core.RunQueue.{class_insert_lem, In, take_out-In, queue_remove_found}
use etaos.Event.Laws.{raw_rq_add_lem, ask_resched_lem}
use etaos.Event.{ask_resched, has_timer, find_waiter, expire, tmo_head, event_tmo, wait_result}

-- The thread that `event_tmo` finds waits in the queue, and the timer is its own.
find_waiter_lem :
    (th : Threads) (id : ℕ) (xs : List ℕ) (w : ℕ)
    → find_waiter th id xs ≡ some w
    → In w xs × (has_timer id (th w).timer_ref ≡ true)
unfolding find_waiter
find_waiter_lem th id [] w e = ground arith
find_waiter_lem th id (x ∷ xs) w e = elim (Bool-cases (has_timer id (th x).timer_ref)) [
  | inl h ↦
      let eq : x ≡ w = some_inj x w (rw (h, find_waiter) at e) in
      (inl eq, subst (λ y. has_timer id (th y).timer_ref ≡ true) eq h)
  | inr h ↦ let (i, t) = find_waiter_lem th id xs w (rw (h, find_waiter) at e) in (inr i, t)
]

-- The queue without the thread whose wait is over.
abbrev Without : ℕ → ℕ → List ℕ → Kernel → Kernel → Type 0
Without q w ys k k' =
    (k'.queues q ≡ mark_empty (chain ys))
    × ((p : ℕ) → p ≢ q → k'.queues p ≡ k.queues p)
    × (k'.run_queue ≡ k.run_queue)
    × (k'.wake_queue ≡ k.wake_queue)

queue_remove_waiter :
    (q w : ℕ) (xs : List ℕ) (k : Kernel)
    → k.queues q ≡ chain xs
    → In w xs
    → (ys : List ℕ) × Perm (w ∷ ys) xs × Without q w ys k (queue_remove_thread q w k)
unfolding queue_remove_thread
queue_remove_waiter q w xs k e i =
    let (ys, n, h, p) = take_out-In w xs i in
    let r = ap (λ hd. queue_remove w hd k.threads) e ∙ queue_remove_found w xs ys n k.threads h in
    let hd : (queue_remove w (k.queues q) k.threads).1 ≡ chain ys = ap (λ s. s.1) r in
    (ys, p, (ground (arith, hd), λ m ne. ground arith, refl, refl))

event_tmo_found :
    (c : Config) (id q w : ℕ) (xs : List ℕ) (k : Kernel)
    → k.queues q ≡ chain xs
    → find_waiter k.threads id xs ≡ some w
    → let k₁ = queue_remove_thread q w (remove_wake_thread w k) in
      let k₂ = on_thread w (λ t. record t { timer_ref = timed_out }) k₁ in
      event_tmo c id q k ≡ some (ask_resched w (raw_rq_add_thread c w k₂))
unfolding event_tmo tmo_head expire
event_tmo_found c id q w xs k e f = ap (tmo_head c id q k) e ∙ ap (expire c q k) f

late_lem :
    (w : ℕ) (k : Kernel)
    → (thread (on_thread w (λ t. record t { timer_ref = timed_out }) k) w).timer_ref ≡ timed_out
late_lem w k = ground arith

add_timer_ref :
    (c : Config) (w : ℕ) (k : Kernel)
    → (thread (raw_rq_add_thread c w k) w).timer_ref ≡ (thread k w).timer_ref
unfolding raw_rq_add_thread add_thread
add_timer_ref c w k =
    let (stays, _, same) = class_insert_lem c w k in let (_, _, m, _) = same w in ground (arith, m)

ask_timer_ref :
    (w : ℕ) (k : Kernel) → (thread (ask_resched w k) w).timer_ref ≡ (thread k w).timer_ref
ask_timer_ref w k = ground arith

wait_result_late :
    (w : ℕ) (k : Kernel)
    → (thread k w).timer_ref ≡ timed_out
    → let r = wait_result (record k { current = w }) in (r.0 ≡ einval) × ((wait_result r.1).0 ≡ ok)
unfolding wait_result
wait_result_late w k e = ground arith

-- The state after a time out of `w`, one of the threads `xs` of queue `q`.
abbrev pub TimedOut : ℕ → ℕ → List ℕ → Kernel → Option Kernel → Type 0
TimedOut q w xs k r =
    (k' : Kernel) × (r ≡ some k')
    × ((ys : List ℕ) × Perm (w ∷ ys) xs × (k'.queues q ≡ mark_empty (chain ys)))
    × Perm (w ∷ k.run_queue) k'.run_queue
    × ((thread k' w).running ≡ true)
    × ((wait_result (record k' { current = w })).0 ≡ einval)
    × ((wait_result (wait_result (record k' { current = w })).1).0 ≡ ok)

-- A time out whose timer a thread of the queue has succeeds: that thread alone leaves the queue, it
-- can run and is on the run queue, and when it runs again its wait answers -EINVAL, and only once.
pub event_tmo_lem :
    (c : Config) (id q w : ℕ) (xs : List ℕ) (k : Kernel)
    → k.queues q ≡ chain xs
    → find_waiter k.threads id xs ≡ some w
    → TimedOut q w xs k (event_tmo c id q k)
unfolding remove_wake_thread
event_tmo_lem c id q w xs k e f =
    let k₀ = remove_wake_thread w k in
    let k₁ = queue_remove_thread q w k₀ in
    let k₂ = on_thread w (λ t. record t { timer_ref = timed_out }) k₁ in
    let k₃ = raw_rq_add_thread c w k₂ in
    let (i, _) = find_waiter_lem k.threads id xs w f in
    let (ys, p, (mine, _, rq₁, _)) = queue_remove_waiter q w xs k₀ e i in
    let ((q₃, _, _), p₃, run₃, _, _) = raw_rq_add_lem c w k₂ in
    let ((q₄, _, _), r₄, keep₄) = ask_resched_lem w k₃ in
    let late = ask_timer_ref w k₃ ∙ add_timer_ref c w k₂ ∙ late_lem w k₁ in
    let (told, once) = wait_result_late w (ask_resched w k₃) late in
    (
      ask_resched w k₃,
      event_tmo_found c id q w xs k e f,
      (ys, p, ap (λ g. g q) (q₄ ∙ q₃) ∙ mine),
      subst (Perm (w ∷ k.run_queue)) (sym r₄) (subst (λ zs. Perm (w ∷ zs) k₃.run_queue) rq₁ p₃),
      (keep₄ w).0 ∙ run₃,
      told,
      once,
    )
