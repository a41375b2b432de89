-- ===== src/Event.antt =====
-- kernel/sched/event.c: waiting for an event, its notification, and time outs.
pub mod Laws
pub mod Waiting
mod Timeout
mod Broadcast
mod Tests
use etaos.Prelude.{
  ℕ, zero, suc, ◌+◌, ◌%◌, ◌-◌, Bool, true, false, not, Option, none, some, List, [], ◌∷◌,
  if◌then◌else◌, ◌==◌, ltb, leb, length,
}
use etaos.Time.{Timer, timer_process, timer_create, timer_stop}
use etaos.Sched.Thread.{
  Thread, Threads, Root, run_root, event_root, TimerRef, no_timer, timed_out, timer, modify,
  effective_prio,
}
use etaos.Sched.Queue.{Head, signaled, chain, Status, ok, einval}
use etaos.Sched.Kernel.{Kernel, Config, Action, end_sleep, end_wait, thread, on_thread}
use etaos.Sched.Core.{
  add_wake_thread, remove_wake_thread, raw_rq_add_thread, rq_add_thread, queue_add_thread,
  queue_remove_thread, sched_sleep_timeout, get_next_runnable, preempt_check, reschedule_decide,
  schedule_prepare, switch_context, remote_kill_if,
}

abbrev pub set_queue : ℕ → Head → Kernel → Kernel
set_queue q h k = record k { queues = λ p. if p == q then h else k.queues p }

-- The timer of a thread that is woken stops, unless it has fired.
unfoldable pub stop_timer : ℕ → Kernel → Kernel
stop_timer tp k = elim (thread k tp).timer_ref [
  | no_timer ↦ k
  | timed_out ↦ k
  | timer id ↦
      on_thread tp (λ t. record t { timer_ref = no_timer })
        (record k { timers = timer_stop id k.timers })
]

-- A woken thread of no less urgent priority asks for a new schedule.
abbrev pub ask_resched : ℕ → Kernel → Kernel
ask_resched tp k =
    if leb (effective_prio (thread k tp)) (effective_prio (thread k k.current))
    then on_thread k.current (λ t. record t { need_resched = true }) k
    else k

-- The end of a wake up: a thread that is not the current one goes on the run queue.
unfoldable pub make_runnable : Config → ℕ → Kernel → Kernel
unfolding rq_add_thread
make_runnable c tp k =
    if k.current == tp
    then on_thread tp (λ t. record t { running = true; on_rq = true }) k
    else ask_resched tp (rq_add_thread c tp k)

-- `__raw_event_notify` for the first thread `tp` of queue `q`.
unfoldable pub raw_event_notify : Config → ℕ → ℕ → Kernel → Kernel
unfolding remove_wake_thread queue_remove_thread stop_timer make_runnable
raw_event_notify c q tp k =
    make_runnable c tp (stop_timer tp (queue_remove_thread q tp (remove_wake_thread tp k)))

-- `event_notify_irq`: the first thread's event counter, an `unsigned char`.
unfoldable pub event_notify_irq : ℕ → Kernel → Kernel
event_notify_irq q k = elim (k.queues q) [
  | signaled ↦ k
  | chain [] ↦ set_queue q signaled k
  | chain (tp ∷ _) ↦ on_thread tp (λ t. record t { ec = (t.ec + 1) % 256 }) k
]

-- `event_notify` by the queue's head; `in_irq` is CPU_IRQ_EXEC_FLAG.
unfoldable pub notify_head : Config → ℕ → Kernel → Head → Kernel
unfolding raw_event_notify
notify_head c q k signaled = k
notify_head c q k (chain []) = set_queue q signaled k
notify_head c q k (chain (tp ∷ _)) = raw_event_notify c q tp k

unfoldable pub event_notify : Config → Bool → ℕ → Kernel → Kernel
unfolding event_notify_irq notify_head
event_notify c in_irq q k = if in_irq then event_notify_irq q k else notify_head c q k (k.queues q)

-- What a wait comes to before the thread gives up the CPU: it returns at once, or it waits.
pub data Wait : Type 0 where
  returned waiting : Wait

-- The limit of a wait: `ms` is 0 for none.
unfoldable pub limit_wait : Config → ℕ → ℕ → Kernel → Kernel
unfolding timer_create
limit_wait c q ms k =
    let r = timer_create c.freq k.tick k.next_timer ms (end_wait q) true k.timers in
    if ms == 0
    then on_thread k.current (λ t. record t { timer_ref = no_timer }) k
    else on_thread k.current (λ t. record t { timer_ref = timer r.0.id })
        (record k { timers = r.1; next_timer = k.next_timer + 1 })

-- `raw_event_wait` up to its call of `schedule`, by the queue's head.
unfoldable pub wait_head : Config → ℕ → ℕ → Kernel → Head → Wait × Kernel
unfolding queue_add_thread add_wake_thread limit_wait
wait_head c q ms k signaled = (returned, set_queue q (chain []) k)
wait_head c q ms k (chain xs) =
    (waiting, queue_add_thread q k.current (add_wake_thread k.current (limit_wait c q ms k)))

unfoldable pub raw_event_wait : Config → ℕ → ℕ → Kernel → Wait × Kernel
unfolding wait_head
raw_event_wait c q ms k = wait_head c q ms k (k.queues q)

-- The rest of `raw_event_wait`, when the waiting thread runs again.
unfoldable pub wait_result : Kernel → Status × Kernel
wait_result k = elim (thread k k.current).timer_ref [
  | timed_out ↦ (einval, on_thread k.current (λ t. record t { timer_ref = no_timer }) k)
  | no_timer ↦ (ok, k)
  | timer id ↦ (ok, k)
]

-- `event_wait`: an earlier signal is forgotten.
abbrev pub forget : ℕ → Kernel → Head → Kernel
forget q k signaled = set_queue q (chain []) k
forget q k (chain xs) = k

unfoldable pub event_wait : Config → ℕ → ℕ → Kernel → Wait × Kernel
unfolding raw_event_wait
event_wait c q ms k = raw_event_wait c q ms (forget q k (k.queues q))

-- Whether the loop of a broadcast goes on: while a thread waits.
abbrev pub go_on : Kernel → Kernel → Head → Kernel
go_on k rest signaled = k
go_on k rest (chain []) = k
go_on k rest (chain (x ∷ xs)) = rest

-- The loop of `raw_event_notify_broadcast`. With enough fuel it ends at the mark SIGNALED.
unfoldable pub notify_all : Config → ℕ → ℕ → Kernel → Kernel
unfolding event_notify
notify_all c zero q k = k
notify_all c (suc fuel) q k =
    let rest = notify_all c fuel q (event_notify c false q k) in go_on k rest (k.queues q)

-- `raw_event_notify_broadcast`, by the queue's head.
unfoldable pub broadcast_head : Config → ℕ → Kernel → Head → Kernel
unfolding notify_all
broadcast_head c q k signaled = set_queue q (chain []) k
broadcast_head c q k (chain xs) = notify_all c (length xs) q k

unfoldable pub event_notify_broadcast : Config → ℕ → Kernel → Kernel
unfolding broadcast_head
event_notify_broadcast c q k = broadcast_head c q k (k.queues q)

abbrev pub has_timer : ℕ → TimerRef → Bool
has_timer id no_timer = false
has_timer id timed_out = false
has_timer id (timer i) = i == id

-- The thread of a queue whose wait a timer limits.
unfoldable pub find_waiter : Threads → ℕ → List ℕ → Option ℕ
find_waiter th id [] = none
find_waiter th id (x ∷ xs) = if has_timer id (th x).timer_ref then some x else find_waiter th id xs

-- `event_tmo` for the thread that it finds; `none` where no thread of the queue has the timer: the
-- source then reads through NULL.
unfoldable pub expire : Config → ℕ → Kernel → Option ℕ → Option Kernel
unfolding remove_wake_thread queue_remove_thread raw_rq_add_thread
expire c q k none = none
expire c q k (some w) =
    let k' = queue_remove_thread q w (remove_wake_thread w k) in
    some (
      ask_resched w
        (raw_rq_add_thread c w (on_thread w (λ t. record t { timer_ref = timed_out }) k')))

unfoldable pub tmo_head : Config → ℕ → ℕ → Kernel → Head → Option Kernel
unfolding find_waiter expire
tmo_head c id q k signaled = some k
tmo_head c id q k (chain xs) = expire c q k (find_waiter k.threads id xs)

unfoldable pub event_tmo : Config → ℕ → ℕ → Kernel → Option Kernel
unfolding tmo_head
event_tmo c id q k = tmo_head c id q k (k.queues q)
