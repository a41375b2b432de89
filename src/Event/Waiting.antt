-- ===== src/Event/Waiting.antt =====
-- Waiting for an event: no notification is lost, and a time out is reported once.
use etaos.Prelude.{
  ℕ, ◌≡◌, ◌≢◌, refl, sym, ap, subst, ◌∙◌, Bool, true, false, Option, none, some, List, [], ◌∷◌,
  ◌++◌, arith,
}
use etaos.Sched.Thread.{Threads, Root, event_root, modify}
use etaos.Sched.Queue.{Head, signaled, chain}
use etaos.Sched.Kernel.{Kernel, Config, members, thread}
use etaos.Sched.Core.{rq_remove_noresched, leave_rq, enter_queue, queue_add_thread, add_wake_thread}
use etaos.Sched.Core.RunQueue.{queue_insert-SameRun}
use etaos.Sched.Queue.{fifo_insert, queue_insert, inherit, successor}
use etaos.Sched.Queue.Order.{fifo_insert-append}
use etaos.Event.Laws.{SameQueues}
use etaos.Event.{
  set_queue, event_notify, event_notify_irq, notify_head, forget, limit_wait, wait_head, Wait,
  returned, waiting, raw_event_wait, event_wait,
}

notify_alone :
    (c : Config) (in_irq : Bool) (q : ℕ) (k : Kernel)
    → k.queues q ≡ chain []
    → event_notify c in_irq q k ≡ set_queue q signaled k
unfolding event_notify event_notify_irq notify_head
notify_alone c true q k e = rw (e, event_notify, event_notify_irq) refl
notify_alone c false q k e = ap (notify_head c q k) e

pub wait_signaled :
    (c : Config) (q ms : ℕ) (k : Kernel)
    → k.queues q ≡ signaled
    → raw_event_wait c q ms k ≡ (returned, set_queue q (chain []) k)
unfolding raw_event_wait wait_head
wait_signaled c q ms k e = ap (wait_head c q ms k) e

pub wait_blocks :
    (c : Config) (q ms : ℕ) (xs : List ℕ) (k : Kernel)
    → k.queues q ≡ chain xs
    → raw_event_wait c q ms k
      ≡ (waiting, queue_add_thread q k.current (add_wake_thread k.current (limit_wait c q ms k)))
unfolding raw_event_wait wait_head
wait_blocks c q ms xs k e = ap (wait_head c q ms k) e

-- A notification of a queue where nobody waits is kept, from an interrupt too: the next wait takes
-- it and returns at once, no thread and no other queue changes, and the wait after that one waits.
pub raw_event_wait-event_notify :
    (c : Config) (in_irq : Bool) (q ms : ℕ) (k : Kernel)
    → k.queues q ≡ chain []
    → let r = raw_event_wait c q ms (event_notify c in_irq q k) in
      (r.0 ≡ returned)
      × (r.1.queues q ≡ chain [])
      × ((p : ℕ) → p ≢ q → r.1.queues p ≡ k.queues p)
      × (r.1.threads ≡ k.threads)
      × ((raw_event_wait c q ms r.1).0 ≡ waiting)
raw_event_wait-event_notify c in_irq q ms k e =
    let k₁ = set_queue q signaled k in
    let k₂ = set_queue q (chain []) k₁ in
    let kept : k₁.queues q ≡ signaled = ground arith in
    let taken : k₂.queues q ≡ chain [] = ground arith in
    let step =
      ap (raw_event_wait c q ms) (notify_alone c in_irq q k e) ∙ wait_signaled c q ms k₁ kept in
    subst Taken (sym step)
      (refl, taken, λ p n. ground arith, refl, ap (λ r. r.0) (wait_blocks c q ms [] k₂ taken))
  where
    Taken : Wait × Kernel → Type 0
    Taken r =
        (r.0 ≡ returned)
        × (r.1.queues q ≡ chain [])
        × ((p : ℕ) → p ≢ q → r.1.queues p ≡ k.queues p)
        × (r.1.threads ≡ k.threads)
        × ((raw_event_wait c q ms r.1).0 ≡ waiting)

limit_wait_lem :
    (c : Config) (q ms : ℕ) (k : Kernel)
    → let k' = limit_wait c q ms k in
      SameQueues k k'
      × ((u : ℕ)
          → ((thread k' u).running ≡ (thread k u).running)
            × ((thread k' u).on_rq ≡ (thread k u).on_rq))
unfolding limit_wait
limit_wait_lem c q ms k = (ground arith, λ u. ground arith)

-- A thread at the end of a queue's chain, in the wake queue, and blocked if it was on the run queue.
abbrev pub Blocked : ℕ → List ℕ → Kernel → Kernel → Type 0
Blocked q xs k k' =
    (k'.queues q ≡ chain (xs ++ (k.current ∷ [])))
    × (k'.wake_queue ≡ k.current ∷ k.wake_queue)
    × ((thread k' k.current).queue ≡ some (event_root q))
    × ((thread k k.current).on_rq ≡ true → (thread k' k.current).running ≡ false)

leave_rq_lem :
    (tp : ℕ) (k : Kernel)
    → k.current ≡ tp
    → let k' = leave_rq tp k in
      SameQueues k k' × ((thread k tp).on_rq ≡ true → (thread k' tp).running ≡ false)
unfolding leave_rq rq_remove_noresched
leave_rq_lem tp k e = (ground arith, λ h. ground arith)

inherit_queue :
    (tp : ℕ) (n : Option ℕ) (th : Threads) (u : ℕ) → (inherit tp n th u).queue ≡ (th u).queue
unfolding inherit
inherit_queue tp none th u = refl
inherit_queue tp (some n) th u = ground arith

insert_queue :
    (root : Root) (tp : ℕ) (xs : List ℕ) (th : Threads)
    → ((fifo_insert root tp (chain xs) th).1 tp).queue ≡ some root
unfolding fifo_insert queue_insert
insert_queue root tp xs th =
    let set = modify tp (λ t. record t { ec = 0; queue = some root }) th in
    let own : (set tp).queue ≡ some root = ground arith in
    inherit_queue tp (successor (λ x. true) xs) set tp ∙ own

enter_queue_lem :
    (q tp : ℕ) (xs : List ℕ) (k : Kernel)
    → k.queues q ≡ chain xs
    → let k' = enter_queue q tp k in
      (k'.queues q ≡ chain (xs ++ (tp ∷ [])))
      × (k'.wake_queue ≡ k.wake_queue)
      × ((thread k' tp).queue ≡ some (event_root q))
      × ((thread k' tp).running ≡ (thread k tp).running)
unfolding enter_queue
enter_queue_lem q tp xs k e =
    let root = event_root q in
    let put = fifo_insert-append root tp xs k.threads in
    let head : (enter_queue q tp k).queues q ≡ (fifo_insert root tp (k.queues q) k.threads).0 =
      ground arith in
    (
      head ∙ ap (λ h. (fifo_insert root tp h k.threads).0) e ∙ put,
      refl,
      ap (λ h. ((fifo_insert root tp h k.threads).1 tp).queue) e
          ∙ insert_queue root tp xs k.threads,
      (queue_insert-SameRun root (λ x. true) tp (k.queues q) k.threads tp).0,
    )

pub wait_Blocked :
    (c : Config) (q ms : ℕ) (xs : List ℕ) (k : Kernel)
    → k.queues q ≡ chain xs
    → Blocked q xs k
        (queue_add_thread q k.current (add_wake_thread k.current (limit_wait c q ms k)))
unfolding queue_add_thread add_wake_thread
wait_Blocked c q ms xs k e =
    let k₁ = limit_wait c q ms k in
    let k₂ = add_wake_thread k.current k₁ in
    let k₃ = leave_rq k.current k₂ in
    let ((q₁, w₁, c₁), keep₁) = limit_wait_lem c q ms k in
    let ((q₃, w₃, _), off) = leave_rq_lem k.current k₂ c₁ in
    let (q₄, w₄, own, run) = enter_queue_lem q k.current xs k₃ (ap (λ f. f q) (q₃ ∙ q₁) ∙ e) in
    (q₄, w₄ ∙ w₃ ∙ ap (◌∷◌ k.current) w₁, own, λ h. run ∙ off ((keep₁ k.current).1 ∙ h))

event_wait_chain :
    (c : Config) (q ms : ℕ) (xs : List ℕ) (k : Kernel)
    → k.queues q ≡ chain xs
    → event_wait c q ms k
      ≡ (waiting, queue_add_thread q k.current (add_wake_thread k.current (limit_wait c q ms k)))
unfolding event_wait
event_wait_chain c q ms xs k e =
    ap (λ h. raw_event_wait c q ms (forget q k h)) e ∙ wait_blocks c q ms xs k e

event_wait_signaled :
    (c : Config) (q ms : ℕ) (k : Kernel)
    → k.queues q ≡ signaled
    → let k' = set_queue q (chain []) k in
      event_wait c q ms k
      ≡ (waiting, queue_add_thread q k.current (add_wake_thread k.current (limit_wait c q ms k')))
unfolding event_wait
event_wait_signaled c q ms k e =
    let k' = set_queue q (chain []) k in
    let empty : k'.queues q ≡ chain [] = ground arith in
    ap (λ h. raw_event_wait c q ms (forget q k h)) e ∙ wait_blocks c q ms [] k' empty

-- `event_wait` takes no notification that came before it: the current thread always waits, behind
-- the threads that wait in the queue, it is entered in the wake queue, and it cannot run if it was
-- on the run queue.
pub event_wait_lem :
    (c : Config) (q ms : ℕ) (k : Kernel)
    → ((event_wait c q ms k).0 ≡ waiting)
      × Blocked q (members (k.queues q)) k (event_wait c q ms k).1
event_wait_lem c q ms k = go (k.queues q) refl
  where
    Waits : Head → Wait × Kernel → Type 0
    Waits h r = (r.0 ≡ waiting) × Blocked q (members h) k r.1

    go : (h : Head) → k.queues q ≡ h → Waits h (event_wait c q ms k)
    go signaled e =
        let k' = set_queue q (chain []) k in
        let empty : k'.queues q ≡ chain [] = ground arith in
        subst (Waits signaled) (sym (event_wait_signaled c q ms k e))
          (refl, wait_Blocked c q ms [] k' empty)
    go (chain xs) e =
        subst (Waits (chain xs)) (sym (event_wait_chain c q ms xs k e))
          (refl, wait_Blocked c q ms xs k e)
