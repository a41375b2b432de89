-- ===== src/Schedule.antt =====
-- One pass of the scheduler, `__schedule` of kernel/sched/core.c, over the clock and the signals.
use etaos.Prelude.{ℕ, ◌+◌, ◌-◌, Bool, true, Option, none, some, List, [], ◌∷◌, if◌then◌else◌, ◌==◌}
use etaos.Time.{Timer, timer_process, timer_stop}
use etaos.Sched.Thread.{run_root, event_root, no_timer, timed_out, timer}
use etaos.Sched.Queue.{signaled, chain}
use etaos.Sched.Kernel.{Kernel, Config, Action, end_sleep, end_wait, thread, on_thread}
use etaos.Sched.Core.{
  remove_wake_thread, raw_rq_add_thread, queue_remove_thread, sched_sleep_timeout,
  get_next_runnable, preempt_check, reschedule_decide, schedule_prepare, switch_context,
  remote_kill_if,
}
use etaos.Event.{ask_resched, event_tmo}

-- The handles of the kernel's timers. A fault stays a fault.
unfoldable pub run_timer : Config → Timer Action → Option Kernel → Option Kernel
unfolding event_tmo sched_sleep_timeout
run_timer c t none = none
run_timer c t (some k) = elim t.call [
  | end_sleep tp ↦ some (sched_sleep_timeout c tp k)
  | end_wait q ↦ event_tmo c t.id q k
]

-- `rq_update_clock`. Each handle starts no timer, and those that are left are the clock's.
unfoldable pub update_clock : Config → Kernel → Option Kernel
unfolding run_timer
update_clock c k = elim (timer_process (run_timer c) k.tick k.timers (some k)) [
  | none ↦ none
  | some (ts, none) ↦ none
  | some (ts, some k') ↦ some (record k' { timers = ts })
]

-- `rq_signal_event_queue` for the first thread `tp` of queue `q`: the timer stops, and the thread's
-- `timer` is left as it is.
unfoldable pub signal_event_queue : Config → ℕ → ℕ → Kernel → Kernel
unfolding remove_wake_thread queue_remove_thread raw_rq_add_thread
signal_event_queue c q tp k =
    let k' = queue_remove_thread q tp (remove_wake_thread tp k) in
    let stopped : Kernel = elim (thread k' tp).timer_ref [
      | no_timer ↦ k'
      | timed_out ↦ k'
      | timer id ↦ record k' { timers = timer_stop id k'.timers }
    ] in
    if stopped.current == tp
    then on_thread tp (λ t. record t { running = true; on_rq = true }) stopped
    else ask_resched tp (raw_rq_add_thread c tp stopped)

-- `rq_signal_threads` for one thread of the wake queue: one of its events wakes the first thread of
-- the queue that it waits in.
unfoldable pub signal_thread : Config → ℕ → Kernel → Option Kernel
unfolding signal_event_queue
signal_thread c t k =
    if (thread k t).ec == 0
    then some k
    else let k' = on_thread t (λ x. record x { ec = x.ec - 1 }) k in
      elim (thread k t).queue [
        | some (event_root q) ↦ elim (k'.queues q) [
          | signaled ↦ some k'
          | chain (tp ∷ _) ↦ some (signal_event_queue c q tp k')
          | chain [] ↦ none
        ]
        | some run_root ↦ none
        | none ↦ none
      ]

-- `rq_signal_threads`, over the wake queue as it was.
unfoldable pub signal_threads : Config → List ℕ → Kernel → Option Kernel
unfolding signal_thread
signal_threads c [] k = some k
signal_threads c (t ∷ ts) k = elim (signal_thread c t k) [
  | none ↦ none
  | some k' ↦ signal_threads c ts k'
]

-- `__schedule`: whether the CPU has changed hands, and the state in which it goes on. The threads of
-- the kill queue are dropped; the stacks that they own are memory outside this model.
unfoldable pub schedule_once : Config → Kernel → Option (Bool × Kernel)
unfolding update_clock signal_threads
schedule_once c k = elim (update_clock c k) [
  | none ↦ none
  | some k₁ ↦ elim (signal_threads c k₁.wake_queue k₁) [
    | none ↦ none
    | some k₂ ↦
        let prev = k₂.current in
        let next = get_next_runnable k₂ in
        let d = reschedule_decide c prev next (preempt_check c prev next k₂) in
        let taken = record d.1 { current = next; switch_count = d.1.switch_count + 1 } in
        let k₃ =
          if d.0 then switch_context c prev next (schedule_prepare c prev next taken) else d.1 in
        some (d.0, remote_kill_if (record k₃ { kill_queue = [] }))
  ]
]
