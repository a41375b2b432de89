-- ===== src/Event/Tests.antt =====
-- Runs of the events, and their theorems at a concrete kernel.
use etaos.Prelude.{ℕ, if◌then◌else◌, ◌≡◌, ◌≢◌, refl, true, false, some, [], ◌∷◌, ◌==◌, arith}
use etaos.Sched.Thread.{Threads, event_root, timer, fresh_thread, effective_prio}
use etaos.Sched.Queue.{chain}
use etaos.Sched.Kernel.{Kernel, Config, rr}
use etaos.Event.{
  event_notify, raw_event_wait, returned, waiting, event_wait, event_tmo, event_notify_broadcast,
  find_waiter,
}
use etaos.Event.Laws.{Woken, event_notify_lem}
use etaos.Event.Waiting.{Blocked, raw_event_wait-event_notify, event_wait_lem}
use etaos.Event.Timeout.{TimedOut, event_tmo_lem}
use etaos.Event.Broadcast.{AllWoken, event_notify_broadcast_lem}

-- Threads 1 and 2 wait in queue 7, thread 2 with the timer 5; thread 3 runs; queue 8 is empty.
abbrev threads : Threads
threads t =
    if t == 3
    then record (fresh_thread 30) { on_rq = true }
    else if t == 2
    then record (fresh_thread 20) {
      queue = some (event_root 7);
      timer_ref = timer 5;
      running = false;
    }
    else record (fresh_thread 10) { queue = some (event_root 7); running = false }

abbrev config : Config
config = record { class = rr; time_slice = 6; fair = true; dyn_prio = true; freq = 1000 }

abbrev kernel : Kernel
kernel = record {
  threads = threads;
  run_queue = [];
  num = 0;
  current = 3;
  wake_queue = 2 ∷ 1 ∷ [];
  kill_queue = [];
  switch_count = 0;
  queues = λ q. if q == 7 then chain (1 ∷ 2 ∷ []) else chain [];
  tick = 100;
  timers = [];
  next_timer = 6;
}

notify_runs : (event_notify config false 7 kernel).run_queue ≡ 1 ∷ []
unfolding event_notify effective_prio
notify_runs = refl

wait_runs : (event_wait config 8 0 kernel).1.queues 8 ≡ chain (3 ∷ [])
unfolding event_wait effective_prio
wait_runs = refl

broadcast_runs : (event_notify_broadcast config 7 kernel).run_queue ≡ 1 ∷ 2 ∷ []
unfolding event_notify_broadcast effective_prio
broadcast_runs = refl

event_notify_lem_example : Woken 7 1 (2 ∷ []) kernel (event_notify config false 7 kernel)
event_notify_lem_example = event_notify_lem config 7 1 (2 ∷ []) kernel refl (ground arith) refl

raw_event_wait-event_notify_example :
    let r = raw_event_wait config 8 0 (event_notify config true 8 kernel) in
    (r.0 ≡ returned)
    × (r.1.queues 8 ≡ chain [])
    × ((p : ℕ) → p ≢ 8 → r.1.queues p ≡ kernel.queues p)
    × (r.1.threads ≡ kernel.threads)
    × ((raw_event_wait config 8 0 r.1).0 ≡ waiting)
raw_event_wait-event_notify_example = raw_event_wait-event_notify config true 8 0 kernel refl

event_wait_lem_example :
    ((event_wait config 7 0 kernel).0 ≡ waiting)
    × Blocked 7 (1 ∷ 2 ∷ []) kernel (event_wait config 7 0 kernel).1
event_wait_lem_example = event_wait_lem config 7 0 kernel

event_tmo_lem_example : TimedOut 7 2 (1 ∷ 2 ∷ []) kernel (event_tmo config 5 7 kernel)
unfolding find_waiter
event_tmo_lem_example = event_tmo_lem config 5 7 2 (1 ∷ 2 ∷ []) kernel refl refl

event_notify_broadcast_lem_example :
    AllWoken 7 (1 ∷ 2 ∷ []) kernel (event_notify_broadcast config 7 kernel)
event_notify_broadcast_lem_example = event_notify_broadcast_lem config 7 kernel
