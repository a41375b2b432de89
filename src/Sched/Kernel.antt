-- ===== src/Sched/Kernel.antt =====
-- `struct rq` (include/etaos/sched.h), the event queues and the clock of one CPU, and the operations
-- of a scheduling class: kernel/sched/rr.c, kernel/sched/fifo.c and kernel/sched/edf.c.
use etaos.Prelude.{ℕ, ◌+◌, ◌-◌, Bool, true, false, List, [], ◌∷◌, if◌then◌else◌, ltb, leb}
use etaos.Time.{Timer}
use etaos.Sched.Thread.{Thread, Threads, run_root, modify, effective_prio}
use etaos.Sched.Queue.{
  Head, signaled, chain, Status, ok, einval, rr_insert, fifo_insert, edf_insert, queue_remove,
}

-- What a timer of the kernel does: `sched_sleep_timeout` for a thread, or `event_tmo` for a queue.
pub data Action : Type 0 where
  end_sleep : ℕ → Action
  end_wait : ℕ → Action

-- The run queue's fields; the event queues by number, each with the class `fifo_class`; the tick and
-- the timers of the clock source, and the number of the next timer.
pub record Kernel : Type 0 where
  pub threads : Threads
  pub run_queue : List ℕ
  pub num : ℕ
  pub current : ℕ
  pub wake_queue : List ℕ
  pub kill_queue : List ℕ
  pub switch_count : ℕ
  pub queues : ℕ → Head
  pub tick : ℕ
  pub timers : List (Timer Action)
  pub next_timer : ℕ

pub data Class : Type 0 where
  rr fifo edf : Class

-- What the configuration fixes: `sys_sched_class`, CONFIG_TIME_SLICE, CONFIG_SCHED_FAIR,
-- CONFIG_DYN_PRIO (with the round robin class) and the clock's frequency.
pub record Config : Type 0 where
  pub class : Class
  pub time_slice : ℕ
  pub fair : Bool
  pub dyn_prio : Bool
  pub freq : ℕ

abbrev pub thread : Kernel → ℕ → Thread
thread k t = k.threads t

abbrev pub on_thread : ℕ → (Thread → Thread) → Kernel → Kernel
on_thread t f k = record k { threads = modify t f k.threads }

-- The run queue's head is never SIGNALED.
abbrev pub members : Head → List ℕ
members signaled = []
members (chain xs) = xs

unfoldable pub class_insert : Config → ℕ → Kernel → Head × Threads
unfolding rr_insert fifo_insert edf_insert
class_insert c tp k = elim c.class [
  | rr ↦ rr_insert run_root tp (chain k.run_queue) k.threads
  | fifo ↦ fifo_insert run_root tp (chain k.run_queue) k.threads
  | edf ↦ edf_insert k.tick run_root tp (chain k.run_queue) k.threads
]

-- `rr_add_thread`, `fifo_add_thread` and `edf_add_thread`.
unfoldable pub add_thread : Config → ℕ → Kernel → Kernel
unfolding class_insert
add_thread c tp k =
    let r = class_insert c tp k in
    record k { run_queue = members r.0; threads = r.1; num = k.num + 1 }

-- `rr_rm_thread`, `fifo_rm_thread` and `edf_rm_thread`, with the class's queue removal done.
abbrev pub settle : Kernel → Status × Head × Threads → Status × Kernel
settle k r = elim r.0 [
  | einval ↦ (einval, k)
  | ok ↦ (ok, record k { run_queue = members r.1; threads = r.2; num = k.num - 1 })
]

unfoldable pub rm_thread : ℕ → Kernel → Status × Kernel
unfolding queue_remove
rm_thread tp k = settle k (queue_remove tp (chain k.run_queue) k.threads)

-- `rr_preempt_chk`, `fifo_preempt_chk` and `edf_preempt_check`.
unfoldable pub preempt_chk : Config → Thread → Thread → Bool
unfolding effective_prio
preempt_chk c cur next = elim c.class [
  | rr ↦ leb (effective_prio next) (effective_prio cur)
  | fifo ↦ leb (effective_prio next) (effective_prio cur)
  | edf ↦
      if next.idle
      then false
      else if ltb cur.deadline next.deadline
      then false
      else if ltb next.deadline cur.deadline
      then true
      else ltb (effective_prio next) (effective_prio cur)
]

-- `rr_update_dyn_prio` for one thread, and for the run queue.
unfoldable pub age : ℕ → Thread → Thread
age n t =
    if t.idle
    then t
    else if ltb t.prio (t.dprio + n)
    then record t { dprio = t.prio }
    else record t { dprio = t.dprio + n }

unfoldable pub update_dyn_prio : ℕ → List ℕ → Threads → Threads
unfolding age
update_dyn_prio n [] th = th
update_dyn_prio n (x ∷ xs) th = update_dyn_prio n xs (modify x (age n) th)
