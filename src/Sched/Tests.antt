-- ===== src/Sched/Tests.antt =====
-- Runs of the thread queues and the scheduling core, and their theorems at concrete threads.
use etaos.Prelude.{ℕ, if◌then◌else◌, ◌≤◌, ◌≡◌, refl, inl, inr, true, false, [], ◌∷◌, ◌==◌, arith}
use etaos.Sched.Thread.{Threads, run_root, fresh_thread, effective_prio}
use etaos.Sched.Queue.{chain, rr_insert}
use etaos.Sched.Control.{ticks}
use etaos.Sched.Control.Slice.{ticks_lem}
use etaos.Sched.Kernel.{thread, Kernel, Config, rr}
use etaos.Sched.Core.{get_next_runnable, switch_context}
use etaos.Sched.Core.RunQueue.{Passed, switch_context_lem}

-- The priority of thread `t` is `10 * t`; the first holds two events.
abbrev threads : Threads
threads t =
    if t == 1
    then record (fresh_thread 10) { ec = 2; deadline = 40 }
    else record (fresh_thread 20) { deadline = 90 }

abbrev config : Config
config = record { class = rr; time_slice = 6; fair = true; dyn_prio = true; freq = 1000 }

abbrev kernel : Kernel
kernel = record {
  threads = threads;
  run_queue = 1 ∷ 2 ∷ [];
  num = 2;
  current = 3;
  wake_queue = [];
  kill_queue = [];
  switch_count = 0;
  queues = λ q. chain [];
  tick = 100;
  timers = [];
  next_timer = 0;
}

rr_insert_runs : (rr_insert run_root 1 (chain (4 ∷ 2 ∷ [])) threads).0 ≡ chain (1 ∷ 4 ∷ 2 ∷ [])
unfolding rr_insert effective_prio
rr_insert_runs = refl

switch_runs : (switch_context config 3 1 kernel).run_queue ≡ 2 ∷ 3 ∷ []
unfolding switch_context effective_prio
switch_runs = refl

switch_context_lem_example : Passed 3 2 kernel (switch_context config 3 2 kernel)
switch_context_lem_example = switch_context_lem config 3 2 kernel (inr (inl refl))

-- The current thread 3 has two milliseconds left.
abbrev sliced : Kernel
sliced = record kernel { threads = λ t. record (threads t) { slice = 2 } }

ticks_lem_example :
    ((m : ℕ) → m ≤ 1 → (thread (ticks config m sliced) 3).preempt_resched ≡ false)
    × ((thread (ticks config 2 sliced) 3).preempt_resched ≡ true)
    × ((thread (ticks config 2 sliced) 3).slice ≡ 6)
ticks_lem_example = ticks_lem config 1 sliced refl (omega arith)

next_runs : get_next_runnable kernel ≡ 1
unfolding get_next_runnable
next_runs = refl
