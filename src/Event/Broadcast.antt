-- ===== src/Event/Broadcast.antt =====
-- Notifying every thread of a queue: `raw_event_notify_broadcast`.
use etaos.Prelude.{
  ℕ, suc, ◌≡◌, ◌≢◌, refl, sym, ap, subst, ◌∙◌, inl, inr, Bool, true, false, List, [], ◌∷◌, All,
  if◌then◌else◌, ◌==◌, ◌&&◌, arith, length, Bool-cases,
}
use etaos.Sched.Thread.{Threads}
use etaos.Sched.Queue.{Head, signaled, chain, bequeath, queue_remove}
use etaos.Sched.Kernel.{Kernel, Config, thread, on_thread, rm_thread}
use etaos.Sched.Core.{
  raw_rq_add_thread, rq_remove_noresched, rq_add_thread, queue_remove_thread, remove_wake_thread,
  mark_empty,
}
use etaos.Event.Laws.{
  raw_rq_add_lem, ask_resched_lem, stop_timer_lem, queue_remove_thread_lem, event_notify_head,
}
use etaos.Event.{
  ask_resched, stop_timer, make_runnable, raw_event_notify, event_notify, notify_all, go_on,
  broadcast_head, event_notify_broadcast, set_queue,
}

-- A wake up makes its thread able to run, and stops no thread that can run.
abbrev KeepsRunning : ℕ → Kernel → Kernel → Type 0
KeepsRunning w k k' =
    ((thread k' w).running ≡ true)
    × ((u : ℕ) → (thread k u).running ≡ true → (thread k' u).running ≡ true)

queue_remove_running :
    (w : ℕ) (h : Head) (th : Threads) (u : ℕ) → ((queue_remove w h th).2 u).running ≡ (th u).running
unfolding queue_remove bequeath
queue_remove_running w signaled th u = refl
queue_remove_running w (chain xs) th u = ground arith

rm_thread_running :
    (w : ℕ) (k : Kernel)
    → let k' = (rm_thread w k).1 in
      (k'.queues ≡ k.queues) × ((u : ℕ) → (thread k' u).running ≡ (thread k u).running)
unfolding rm_thread
rm_thread_running w k =
    (ground arith, λ u. ground (arith, queue_remove_running w (chain k.run_queue) k.threads u))

rq_remove_other :
    (w : ℕ) (k : Kernel)
    → let k' = (rq_remove_noresched w k).1 in
      (k'.queues ≡ k.queues) × ((u : ℕ) → u ≢ w → (thread k' u).running ≡ (thread k u).running)
unfolding rq_remove_noresched
rq_remove_other w k =
    let off = on_thread w (λ t. record t { running = false }) k in
    (ground (arith, rm_thread_running w off), λ u n. ground (arith, (rm_thread_running w off).1 u))

-- `rq_add_thread` ends with `raw_rq_add_thread`, of the state or of the state without the thread.
rq_add_cases :
    (c : Config) (w : ℕ) (k : Kernel)
    → (k' : Kernel) × (rq_add_thread c w k ≡ raw_rq_add_thread c w k')
      × (k'.queues ≡ k.queues)
      × ((u : ℕ) → u ≢ w → (thread k' u).running ≡ (thread k u).running)
unfolding rq_add_thread
rq_add_cases c w k =
    let gone = (rq_remove_noresched w k).1 in
    let step : Bool → Kernel =
      λ b. if b then raw_rq_add_thread c w gone else raw_rq_add_thread c w k in
    elim (Bool-cases ((thread k w).on_rq && (thread k w).running)) [
      | inl e ↦ let (qs, same) = rq_remove_other w k in (gone, ap step e, qs, same)
      | inr e ↦ (k, ap step e, refl, λ u n. refl)
    ]

rq_add_keeps :
    (c : Config) (w : ℕ) (k : Kernel)
    → let k' = rq_add_thread c w k in (k'.queues ≡ k.queues) × KeepsRunning w k k'
rq_add_keeps c w k =
    let (k', e, qs, same) = rq_add_cases c w k in
    let ((q, _, _), _, own, _, keep) = raw_rq_add_lem c w k' in
    subst (λ x. (x.queues ≡ k.queues) × KeepsRunning w k x) (sym e)
      (
        q ∙ qs,
        (
          own,
          λ u r. elim (Bool-cases (u == w)) [
            | inl h ↦
                let eq : w ≡ u = ground arith in
                subst (λ x. (thread (raw_rq_add_thread c w k') x).running ≡ true) eq own
            | inr h ↦ keep u (same u (ground arith) ∙ r)
          ],
        ),
      )

ask_keeps :
    (w : ℕ) (k k' : Kernel)
    → KeepsRunning w k k'
    → ((ask_resched w k').queues ≡ k'.queues) × KeepsRunning w k (ask_resched w k')
ask_keeps w k k' (own, keep) =
    let ((q, _, _), _, same) = ask_resched_lem w k' in
    (q, ((same w).0 ∙ own, λ u r. (same u).0 ∙ keep u r))

make_runnable_keeps :
    (c : Config) (w : ℕ) (k : Kernel)
    → let k' = make_runnable c w k in (k'.queues ≡ k.queues) × KeepsRunning w k k'
unfolding make_runnable
make_runnable_keeps c w k =
    let woken = on_thread w (λ t. record t { running = true; on_rq = true }) k in
    let added = ask_resched w (rq_add_thread c w k) in
    let step : Bool → Kernel = λ b. if b then woken else added in
    let (q, keeps) = rq_add_keeps c w k in
    let (q', keeps') = ask_keeps w k (rq_add_thread c w k) keeps in
    elim (Bool-cases (k.current == w)) [
      | inl e ↦
          subst (λ x. (x.queues ≡ k.queues) × KeepsRunning w k x) (sym (ap step e))
            (refl, (ground arith, λ u r. ground arith))
      | inr e ↦
          subst (λ x. (x.queues ≡ k.queues) × KeepsRunning w k x) (sym (ap step e)) (q' ∙ q, keeps')
    ]

-- One round of the loop.
event_notify_round :
    (c : Config) (q w : ℕ) (ws : List ℕ) (k : Kernel)
    → k.queues q ≡ chain (w ∷ ws)
    → let k' = event_notify c false q k in
      (k'.queues q ≡ mark_empty (chain ws)) × KeepsRunning w k k'
unfolding raw_event_notify remove_wake_thread
event_notify_round c q w ws k e =
    let k₁ = remove_wake_thread w k in
    let k₂ = queue_remove_thread q w k₁ in
    let k₃ = stop_timer w k₂ in
    let (mine, _, _, keep₂) = queue_remove_thread_lem q w ws k₁ e in
    let ((q₃, _, _), _, keep₃) = stop_timer_lem w k₂ in
    let (q₄, (own, keep₄)) = make_runnable_keeps c w k₃ in
    subst (λ x. (x.queues q ≡ mark_empty (chain ws)) × KeepsRunning w k x)
      (sym (event_notify_head c q w ws k e))
      (ap (λ f. f q) (q₄ ∙ q₃) ∙ mine, (own, λ u r. keep₄ u ((keep₃ u).0 ∙ (keep₂ u).0 ∙ r)))

-- What the loop leaves: the mark SIGNALED, each of the threads able to run, and no other stopped.
abbrev pub AllWoken : ℕ → List ℕ → Kernel → Kernel → Type 0
AllWoken q xs k k' =
    (k'.queues q ≡ signaled)
    × All (λ x. (thread k' x).running ≡ true) xs
    × ((u : ℕ) → (thread k u).running ≡ true → (thread k' u).running ≡ true)

notify_all_step :
    (c : Config) (fuel q w : ℕ) (ws : List ℕ) (k : Kernel)
    → k.queues q ≡ chain (w ∷ ws)
    → notify_all c (suc fuel) q k ≡ notify_all c fuel q (event_notify c false q k)
unfolding notify_all
notify_all_step c fuel q w ws k e = ap (go_on k (notify_all c fuel q (event_notify c false q k))) e

notify_all_lem :
    (c : Config) (q w : ℕ) (ws : List ℕ) (k : Kernel)
    → k.queues q ≡ chain (w ∷ ws)
    → AllWoken q (w ∷ ws) k (notify_all c (length (w ∷ ws)) q k)
unfolding notify_all
notify_all_lem c q w [] k e =
    let (qs, (own, keep)) = event_notify_round c q w [] k e in
    subst (AllWoken q (w ∷ []) k) (sym (notify_all_step c 0 q w [] k e)) (qs, (own, tt), keep)
notify_all_lem c q w (x ∷ xs) k e =
    let k' = event_notify c false q k in
    let (qs, (own, keep)) = event_notify_round c q w (x ∷ xs) k e in
    let (done, all, keep') = notify_all_lem c q x xs k' qs in
    subst (AllWoken q (w ∷ x ∷ xs) k) (sym (notify_all_step c (length (x ∷ xs)) q w (x ∷ xs) k e))
      (done, (keep' w own, all), λ u r. keep' u (keep u r))

-- What a broadcast comes to, by the queue's head.
abbrev pub Broadcasted : ℕ → Head → Kernel → Kernel → Type 0
Broadcasted q signaled k k' = k' ≡ set_queue q (chain []) k
Broadcasted q (chain []) k k' = k' ≡ k
Broadcasted q (chain (w ∷ ws)) k k' = AllWoken q (w ∷ ws) k k'

-- A broadcast to a queue where threads wait ends with the queue marked SIGNALED, each of the
-- threads able to run, and no thread stopped; of a queue that is marked SIGNALED it takes the mark,
-- and of an empty one it does nothing.
pub event_notify_broadcast_lem :
    (c : Config) (q : ℕ) (k : Kernel) → Broadcasted q (k.queues q) k (event_notify_broadcast c q k)
unfolding event_notify_broadcast broadcast_head
event_notify_broadcast_lem c q k = go (k.queues q) refl
  where
    go : (h : Head) → k.queues q ≡ h → Broadcasted q h k (broadcast_head c q k h)
    go signaled e = refl
    go (chain []) e = refl
    go (chain (w ∷ ws)) e = notify_all_lem c q w ws k e
