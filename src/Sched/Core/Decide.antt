-- ===== src/Sched/Core/Decide.antt =====
-- The choice of the next thread: `reschedule_decide`, `preempt_check` and the dynamic priorities.
use etaos.Prelude.{
  ℕ, ◌-◌, ◌≤◌, ◌<◌, ◌≡◌, ◌≢◌, ◌⊎◌, true, false, not, some, List, [], ◌∷◌, All, if◌then◌else◌, ◌==◌,
  ◌&&◌, ◌||◌, arith,
}
use etaos.Sched.Thread.{Thread, Threads, effective_prio}
use etaos.Sched.Queue.{prio_of, next_runnable}
use etaos.Sched.Queue.Order.{Sorted}
use etaos.Sched.Kernel.{Kernel, Config, edf, thread, age, preempt_chk}
use etaos.Sched.Core.{reschedule_decide}

-- The CPU changes hands exactly if the threads differ, and the current thread has asked for it or
-- it is preempted by a thread that is not the idle thread. Either way the current thread's requests
-- are cleared, and no other thread is touched.
pub reschedule_decide_lem :
    (c : Config) (cur next : ℕ) (k : Kernel)
    → let t = thread k cur in
      let r = reschedule_decide c cur next k in
      (r.0
        ≡ not (cur == next) && (t.need_resched || (t.preempt_resched && not (thread k next).idle)))
      × ((thread r.1 cur).need_resched ≡ false)
      × ((thread r.1 cur).preempt_resched ≡ false)
      × ((u : ℕ) → u ≢ cur → thread r.1 u ≡ thread k u)
unfolding reschedule_decide
reschedule_decide_lem c cur next k =
    (ground arith, ground arith, ground arith, λ u ne. ground arith)

-- The thread that a class picks from a queue sorted by priority can run, and none that can run is
-- more urgent.
pub next_runnable_lem :
    (th : Threads) (xs : List ℕ) (t : ℕ)
    → next_runnable th xs ≡ some t
    → Sorted (prio_of th) xs
    → ((th t).running ≡ true) × All (λ x. (th x).running ≡ true → prio_of th t ≤ prio_of th x) xs
unfolding next_runnable
next_runnable_lem th [] t e s = ground arith
next_runnable_lem th (x ∷ xs) t e s = ground (arith, all_le th x xs s.0, next_runnable_lem th xs t)
  where
    all_le :
        (th : Threads) (x : ℕ) (xs : List ℕ)
        → All (λ y. prio_of th x ≤ prio_of th y) xs
        → All (λ y. (th y).running ≡ true → prio_of th x ≤ prio_of th y) xs
    all_le th x [] a = tt
    all_le th x (y ∷ ys) a = (λ _. a.0, all_le th x ys a.1)

-- One round of aging makes a thread more urgent by one, down to zero, and never more than that. The
-- idle thread does not age.
pub age_lem :
    (t : Thread)
    → t.dprio ≤ t.prio
    → ((age 1 t).dprio ≤ (age 1 t).prio)
      × ((age 1 t).prio ≡ t.prio)
      × (effective_prio (age 1 t) ≡ (if t.idle then effective_prio t else effective_prio t - 1))
unfolding age effective_prio
age_lem t h = (ground arith, ground arith, ground arith)

-- The EDF class lets a thread preempt only if it is not the idle thread and its deadline is
-- earlier, or its deadline is the same and its priority more urgent.
pub preempt_chk-edf :
    (c : Config) (cur next : Thread)
    → c.class ≡ edf
    → preempt_chk c cur next ≡ true
    → (next.idle ≡ false)
      × ((next.deadline < cur.deadline)
          ⊎ ((next.deadline ≡ cur.deadline) × (effective_prio next < effective_prio cur)))
unfolding preempt_chk
preempt_chk-edf c cur next e h = ground arith
