-- ===== src/Sched/Core.antt =====
pub mod Decide
pub mod RunQueue
-- kernel/sched/core.c: the run queue, the wake and kill queues, and the choice of the next thread.
-- There is one CPU, and the code runs with interrupts off where the source holds a lock.
use etaos.Prelude.{
  ℕ, zero, suc, ◌+◌, ◌-◌, Bool, true, false, not, Option, none, some, List, [], ◌∷◌, if◌then◌else◌,
  ◌==◌, ltb, leb, ◌&&◌, ◌||◌,
}
use etaos.Time.{Timer, timer_process, timer_create, timer_stop}
use etaos.Sched.Thread.{
  Thread, Threads, Root, run_root, event_root, TimerRef, no_timer, timed_out, timer, modify,
  effective_prio,
}
use etaos.Sched.Queue.{
  Head, signaled, chain, Status, ok, einval, fifo_insert, queue_remove, next_runnable,
}
use etaos.Sched.Kernel.{
  Kernel, Config, Action, end_sleep, end_wait, thread, on_thread, members, add_thread, rm_thread,
  preempt_chk, update_dyn_prio,
}

-- `list_del`
unfoldable pub unlink : ℕ → List ℕ → List ℕ
unlink t [] = []
unlink t (x ∷ xs) = let rest = unlink t xs in if x == t then xs else x ∷ rest

-- `rq_add_wake_thread`, `rq_add_kill_thread`, `raw_rq_remove_wake_thread` and
-- `raw_rq_remove_kill_thread`.
unfoldable pub add_wake_thread : ℕ → Kernel → Kernel
add_wake_thread t k = record k { wake_queue = t ∷ k.wake_queue }

unfoldable pub add_kill_thread : ℕ → Kernel → Kernel
add_kill_thread t k = record k { kill_queue = t ∷ k.kill_queue }

unfoldable pub remove_wake_thread : ℕ → Kernel → Kernel
unfolding unlink
remove_wake_thread t k = record k { wake_queue = unlink t k.wake_queue }

-- `raw_rq_add_thread`, and `rq_add_thread_no_lock`.
unfoldable pub raw_rq_add_thread : Config → ℕ → Kernel → Kernel
unfolding add_thread
raw_rq_add_thread c tp k =
    on_thread tp (λ t. record t { running = true; on_rq = true }) (add_thread c tp k)

-- The result of `raw_rq_remove_thread_noresched`: -EINVAL, -EOK, or 1 if the current thread is meant.
pub data Removal : Type 0 where
  not_on_rq removed not_queued must_resched : Removal

unfoldable pub rq_remove_noresched : ℕ → Kernel → Removal × Kernel
unfolding rm_thread
rq_remove_noresched tp k =
    if not (thread k tp).on_rq
    then (not_on_rq, k)
    else if k.current == tp
    then (must_resched, on_thread tp (λ t. record t { running = false; need_resched = true }) k)
    else let r = rm_thread tp (on_thread tp (λ t. record t { running = false }) k) in
      (
        elim r.0 [ ok ↦ removed | einval ↦ not_queued ],
        on_thread tp (λ t. record t { on_rq = false }) r.1,
      )

-- `rq_add_thread` for a thread that is not the current one.
unfoldable pub rq_add_thread : Config → ℕ → Kernel → Kernel
unfolding raw_rq_add_thread rq_remove_noresched
rq_add_thread c tp k =
    if (thread k tp).on_rq && (thread k tp).running
    then raw_rq_add_thread c tp (rq_remove_noresched tp k).1
    else raw_rq_add_thread c tp k

-- `raw_queue_add_thread` and `raw_queue_remove_thread` on the event queue `q`, of the class
-- `fifo_class`: a thread that can run leaves the run queue first.
unfoldable pub leave_rq : ℕ → Kernel → Kernel
unfolding rq_remove_noresched
leave_rq tp k =
    if (thread k tp).on_rq && (thread k tp).running then (rq_remove_noresched tp k).1 else k

unfoldable pub enter_queue : ℕ → ℕ → Kernel → Kernel
unfolding fifo_insert
enter_queue q tp k =
    let r = fifo_insert (event_root q) tp (k.queues q) k.threads in
    record k { queues = λ p. if p == q then r.0 else k.queues p; threads = r.1 }

unfoldable pub queue_add_thread : ℕ → ℕ → Kernel → Kernel
unfolding leave_rq enter_queue
queue_add_thread q tp k = enter_queue q tp (leave_rq tp k)

-- With the last thread gone the queue is marked SIGNALED, as each caller in the event code does.
abbrev pub mark_empty : Head → Head
mark_empty signaled = signaled
mark_empty (chain []) = signaled
mark_empty (chain (x ∷ xs)) = chain (x ∷ xs)

unfoldable pub queue_remove_thread : ℕ → ℕ → Kernel → Kernel
unfolding queue_remove
queue_remove_thread q tp k =
    let r = queue_remove tp (k.queues q) k.threads in
    record k { queues = λ p. if p == q then mark_empty r.1 else k.queues p; threads = r.2 }

-- `sched_sleep_timeout`
unfoldable pub sched_sleep_timeout : Config → ℕ → Kernel → Kernel
unfolding raw_rq_add_thread
sched_sleep_timeout c tp k =
    raw_rq_add_thread c tp (on_thread tp (λ t. record t { sleeping = false; running = true }) k)

-- `sched_setup_sleep_thread`
unfoldable pub setup_sleep_thread : Config → ℕ → ℕ → Kernel → Kernel
unfolding timer_create
setup_sleep_thread c tp ms k =
    let r = timer_create c.freq k.tick k.next_timer ms (end_sleep tp) true k.timers in
    let k' = record k { timers = r.1; next_timer = k.next_timer + 1 } in
    on_thread tp
      (λ t. record t {
        sleeping = true;
        need_resched = true;
        running = false;
        timer_ref = timer r.0.id;
      })
      k'

-- `reschedule_decide`, with CONFIG_PREEMPT: the answer, and the flags that it clears.
unfoldable pub reschedule_decide : Config → ℕ → ℕ → Kernel → Bool × Kernel
reschedule_decide c cur next k =
    let t = thread k cur in
    let quiet = record t { need_resched = false; preempt_resched = false } in
    let rested = record quiet { slice = c.time_slice } in
    if cur == next
    then (false, on_thread cur (λ _. rested) k)
    else if (thread k next).idle && (t.preempt_resched && not t.need_resched)
    then (false, on_thread cur (λ _. rested) k)
    else (t.preempt_resched || t.need_resched, on_thread cur (λ _. quiet) k)

-- `should_resched_cputime`
unfoldable pub should_resched_cputime : Config → Thread → Thread → Bool
should_resched_cputime c tp next =
    if c.fair
    then if next.idle then false else if tp.idle then true else leb next.cputime tp.cputime
    else true

-- `preempt_check`
unfoldable pub preempt_check : Config → ℕ → ℕ → Kernel → Kernel
unfolding preempt_chk should_resched_cputime
preempt_check c cur next k =
    if preempt_chk c (thread k cur) (thread k next)
      || should_resched_cputime c (thread k cur) (thread k next)
    then on_thread cur (λ t. record t { preempt_resched = true }) k
    else k

-- `sched_get_next_runnable`
unfoldable pub get_next_runnable : Kernel → ℕ
unfolding next_runnable
get_next_runnable k = elim (next_runnable k.threads k.run_queue) [ none ↦ k.current | some t ↦ t ]

-- `__schedule_prepare`: the dynamic priorities and the time slices.
unfoldable pub schedule_prepare : Config → ℕ → ℕ → Kernel → Kernel
unfolding update_dyn_prio
schedule_prepare c prev next k =
    let aged = if c.dyn_prio then update_dyn_prio 1 k.run_queue k.threads else k.threads in
    let reset = λ (t : Thread). record t { dprio = 0; slice = c.time_slice } in
    record k { threads = modify prev reset (modify next reset aged) }

-- `rq_switch_context`, up to the switch of the CPU's context: the previous thread, then the next one.
unfoldable pub park : Config → ℕ → Kernel → Kernel
unfolding add_thread
park c prev k =
    if (thread k prev).running
    then add_thread c prev (on_thread prev (λ t. record t { on_rq = true }) k)
    else on_thread prev (λ t. record t { on_rq = false }) k

unfoldable pub switch_context : Config → ℕ → ℕ → Kernel → Kernel
unfolding park rm_thread
switch_context c prev next k = (rm_thread next (park c prev k)).1

-- `sched_remote_kill_if`
unfoldable pub remote_kill_if : Kernel → Kernel
unfolding add_kill_thread
remote_kill_if k =
    if (thread k k.current).remote_kill
    then add_kill_thread k.current (
        on_thread k.current (λ t. record t { need_resched = true; exiting = true; running = false })
          k)
    else k

-- `sched_mark_remote_kill`, for a thread of this CPU.
unfoldable pub mark_remote_kill : ℕ → Kernel → Kernel
unfolding add_kill_thread
mark_remote_kill tp k =
    if k.current == tp
    then add_kill_thread tp
        (on_thread tp (λ t. record t { exiting = true; need_resched = true; running = false }) k)
    else let k' = on_thread tp (λ t. record t { remote_kill = true }) k in
      if not (thread k' tp).sleeping && not (thread k' tp).waiting
      then on_thread k'.current (λ t. record t { need_resched = true }) k'
      else k'
