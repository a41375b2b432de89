-- ===== src/Sched/Control.antt =====
-- kernel/sched/thread.c and kernel/sched/clock.c, with `sched_yield` of kernel/sched/core.c: what a thread does
-- to itself and to others. A function that ends in a call of `schedule` is modelled up to that call.
-- CONFIG_EXTENDED_THREAD is not set, so that no thread is joined.
pub mod Yield
pub mod Slice
use etaos.Prelude.{
  ℕ, zero, suc, ◌+◌, ◌-◌, ◌%◌, Bool, true, false, not, ◌&&◌, ◌||◌, if◌then◌else◌, ◌==◌, leb,
}
use etaos.Sched.Thread.{Thread, fresh_thread, effective_prio}
use etaos.Sched.Kernel.{Kernel, Config, thread, on_thread}
use etaos.Sched.Core.{
  add_kill_thread, rq_add_thread, setup_sleep_thread, get_next_runnable, mark_remote_kill,
}

-- The attributes of a new thread, of which a priority of zero stands for the default one.
abbrev pub default_prio : ℕ
default_prio = 120

unfoldable pub chosen_prio : ℕ → ℕ
chosen_prio prio = if prio == 0 then default_prio else prio

-- `thread_initialise` with the priority of `thread_init`, for a thread that is not the current one.
unfoldable pub thread_initialise : Config → ℕ → ℕ → Kernel → Kernel
unfolding chosen_prio rq_add_thread
thread_initialise c tp prio k =
    rq_add_thread c tp
      (on_thread tp (λ _. record (fresh_thread (chosen_prio prio)) { slice = c.time_slice }) k)

-- `thread_start`
unfoldable pub thread_start : Config → ℕ → Kernel → Kernel
unfolding rq_add_thread
thread_start c tp k = rq_add_thread c tp k

-- `sched_yield`
unfoldable pub sched_yield : Kernel → Kernel
unfolding get_next_runnable effective_prio
sched_yield k =
    let cur = thread k k.current in
    let next = thread k (get_next_runnable k) in
    if cur.preempt_resched || cur.need_resched || leb (effective_prio next) (effective_prio cur)
    then on_thread k.current (λ t. record t { need_resched = true }) k
    else k

-- `kill`
unfoldable pub kill : Kernel → Kernel
unfolding add_kill_thread
kill k =
    add_kill_thread k.current (
      on_thread k.current (λ t. record t { exiting = true; need_resched = true; running = false })
        k)

-- What `thread_destroy` answers: 1 for a thread that exits already, or -EOK.
pub data Destroyed : Type 0 where
  gone destroyed : Destroyed

unfoldable pub thread_destroy : ℕ → Kernel → Destroyed × Kernel
unfolding mark_remote_kill
thread_destroy tp k =
    let marked = mark_remote_kill tp k in
    if (thread k tp).exiting then (gone, k) else (destroyed, marked)

-- `wait`
unfoldable pub wait : Kernel → Kernel
wait k =
    on_thread k.current (λ t. record t { waiting = true; need_resched = true; running = false }) k

-- `signal`
unfoldable pub signal : Config → ℕ → Kernel → Kernel
unfolding rq_add_thread sched_yield
signal c tp k =
    let woken = on_thread tp (λ t. record t { waiting = false; running = true }) k in
    let yielded = sched_yield (rq_add_thread c tp woken) in
    if (thread k tp).waiting then yielded else k

-- `nice`: the old priority, and the state.
unfoldable pub nice : ℕ → Kernel → ℕ × Kernel
unfolding sched_yield
nice prio k =
    let new = if prio == 255 then 254 else prio in
    ((thread k k.current).prio, sched_yield (on_thread k.current (λ t. record t { prio = new }) k))

-- `sleep`
unfoldable pub sleep : Config → ℕ → Kernel → Kernel
unfolding setup_sleep_thread
sleep c ms k = setup_sleep_thread c k.current ms k

-- `sched_clock_tick`, up to its call of `preempt_schedule_irq`. The time slice is an `unsigned int`.
unfoldable pub clock_tick : Config → ℕ → Kernel → Kernel
clock_tick c ms k =
    let ran = λ (t : Thread). record t { cputime = if c.fair then t.cputime + ms else t.cputime } in
    let left = ((thread k k.current).slice + 65536 - ms % 65536) % 65536 in
    if left == 0
    then on_thread k.current (λ t. record (ran t) { slice = c.time_slice; preempt_resched = true })
        k
    else on_thread k.current (λ t. record (ran t) { slice = left }) k

-- So many ticks of a millisecond.
abbrev pub ticks : Config → ℕ → Kernel → Kernel
unfolding clock_tick
ticks c zero k = k
ticks c (suc n) k = ticks c n (clock_tick c 1 k)
