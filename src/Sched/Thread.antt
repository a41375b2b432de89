-- ===== src/Sched/Thread.antt =====
-- `struct thread` (include/etaos/thread.h), the table of all threads, and `prio`
-- (kernel/sched/core.c). Threads are named by numbers: a number is a `struct thread *`.
use etaos.Prelude.{ℕ, ◌-◌, Bool, true, false, Option, none, if◌then◌else◌, ◌==◌, leb}

-- Where a thread's `queue` points: at the head of the run queue, or of an event queue.
pub data Root : Type 0 where
  run_root : Root
  event_root : ℕ → Root

-- The `timer` of a thread: NULL, SIGNALED after a time out, or a timer.
pub data TimerRef : Type 0 where
  no_timer timed_out : TimerRef
  timer : ℕ → TimerRef

-- The bits of `flags` are fields. `ec` is an `unsigned char`.
pub record Thread : Type 0 where
  pub prio : ℕ
  pub dprio : ℕ
  pub ec : ℕ
  pub queue : Option Root
  pub timer_ref : TimerRef
  pub on_rq : Bool
  pub slice : ℕ
  pub deadline : ℕ
  pub cputime : ℕ
  pub running : Bool
  pub sleeping : Bool
  pub waiting : Bool
  pub exiting : Bool
  pub need_resched : Bool
  pub preempt_resched : Bool
  pub idle : Bool
  pub remote_kill : Bool

abbrev pub Threads : Type 0
Threads = ℕ → Thread

-- A store into thread `t`.
abbrev pub modify : ℕ → (Thread → Thread) → Threads → Threads
modify t f th u = if u == t then f (th u) else th u

-- `prio` with CONFIG_DYN_PRIO: the priority less the dynamic one. Zero is the most urgent.
unfoldable pub effective_prio : Thread → ℕ
effective_prio t = if leb t.dprio t.prio then t.prio - t.dprio else 0

-- A thread as `raw_thread_init` leaves it.
abbrev pub fresh_thread : ℕ → Thread
fresh_thread p = record {
  prio = p;
  dprio = 0;
  ec = 0;
  queue = none;
  timer_ref = no_timer;
  on_rq = false;
  slice = 0;
  deadline = 0;
  cputime = 0;
  running = true;
  sleeping = false;
  waiting = false;
  exiting = false;
  need_resched = false;
  preempt_resched = false;
  idle = false;
  remote_kill = false;
}
