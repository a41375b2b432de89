-- ===== src/Sync/Tests.antt =====
-- Runs of the mutex and the message queue, and their theorems at concrete states.
use etaos.Prelude.{
  ℕ, ◌+◌, ◌*◌, ◌≡◌, refl, true, false, none, some, [], ◌∷◌, ◌++◌, if◌then◌else◌, ◌==◌, arith,
}
use etaos.Sched.Thread.{fresh_thread, event_root}
use etaos.Sched.Queue.{signaled, chain, ok}
use etaos.Sched.Kernel.{Kernel, Config, rr}
use etaos.Event.{event_notify, event_wait}
use etaos.Sync.Mutex.{
  Mutex, Holds, HeldBy, Reaches, start, then_step, locked, try_lock, mutex_lock, acquired, blocked,
  Reaches-HeldBy, mutex_lock-event_wait,
}
use etaos.Sync.Semaphore.{Semaphore}
use etaos.Sync.Ipm.{
  IpmQueue, got, contents, IsValid, ipm_post_msg, ipm_get_msg, ipm_post_msg_lem, ipm_get_msg_lem,
  range,
}

abbrev config : Config
config = record { class = rr; time_slice = 6; fair = true; dyn_prio = true; freq = 1000 }

-- Thread 3 runs, and a notification of queue 8 is left.
abbrev kernel : Kernel
kernel = record {
  threads = λ t. record (fresh_thread (10 * t)) { on_rq = true };
  run_queue = 1 ∷ 2 ∷ [];
  num = 2;
  current = 3;
  wake_queue = [];
  kill_queue = [];
  switch_count = 0;
  queues = λ q. if q == 8 then signaled else chain [];
  tick = 100;
  timers = [];
  next_timer = 0;
}

abbrev free : Mutex
free = record { owner = none; count = 0; queue = 8 }

abbrev held_by : ℕ → ℕ → Mutex
held_by t n = record free { owner = some t; count = n }

lock_runs : mutex_lock config free kernel ≡ some (acquired, held_by 3 1, kernel)
unfolding mutex_lock
lock_runs = refl

abbrev once : Holds
once u = if u == 3 then 0 + 1 else 0

locks_once : Reaches free (λ _. 0) (held_by 3 1) once
unfolding try_lock
locks_once =
    then_step free (held_by 3 1) (λ _. 0) once start
      (locked 3 free (held_by 3 1) (λ _. 0) (omega arith) refl)

Reaches-HeldBy_example : HeldBy (some 3) 1 once
Reaches-HeldBy_example = Reaches-HeldBy free (held_by 3 1) once refl refl locks_once

mutex_lock-event_wait_example :
    mutex_lock config (held_by 1 2) kernel
    ≡ some (blocked, held_by 1 2, (event_wait config 8 0 kernel).1)
unfolding try_lock
mutex_lock-event_wait_example = mutex_lock-event_wait config (held_by 1 2) kernel refl

-- Two messages are left of three, with room for four.
abbrev messages : IpmQueue ℕ
messages = record { msgs = λ i. 10 * i; num = 4; wr_idx = 3; rd_idx = 1; queue = 8 }

contents_runs : contents messages ≡ 10 ∷ 20 ∷ []
unfolding range
contents_runs = refl

ipm_post_msg_lem_example :
    let r = ipm_post_msg config 99 messages kernel in
    (r.0 ≡ ok)
    × (contents r.1 ≡ contents messages ++ (99 ∷ []))
    × IsValid r.1
    × (r.2 ≡ event_notify config false 8 kernel)
ipm_post_msg_lem_example =
    ipm_post_msg_lem config 99 messages kernel (omega arith, omega arith) (omega arith)

ipm_get_msg_lem_example :
    let r = ipm_get_msg config messages kernel in
    (r.0 ≡ got 10) × (contents r.1 ≡ 20 ∷ []) × IsValid r.1
ipm_get_msg_lem_example =
    ipm_get_msg_lem config 10 (20 ∷ []) messages kernel (omega arith, omega arith) contents_runs

-- Thread 1 waits in the queue 5 of a semaphore, which is below zero by it.
abbrev below : Semaphore
below = record { value = 65535; queue = 5 }

abbrev one_waits : Kernel
one_waits = record kernel {
  threads = λ t.
      if t == 1
      then record (fresh_thread 10) { queue = some (event_root 5); running = false }
      else record (fresh_thread 30) { on_rq = true };
  run_queue = 2 ∷ [];
  wake_queue = 1 ∷ [];
  queues = λ q. if q == 5 then chain (1 ∷ []) else chain [];
}
