-- ===== src/Sched/Lottery/Tests.antt =====
-- Runs of the lottery, and its theorems at concrete states.
use etaos.Prelude.{ℕ, ◌*◌, ◌≡◌, ◌≢◌, refl, some, [], ◌∷◌, inl, if◌then◌else◌, ◌==◌, arith}
use etaos.Sched.Thread.{fresh_thread}
use etaos.Sched.Queue.{chain}
use etaos.Sched.Kernel.{Kernel}
use etaos.Sched.Lottery.{
  Pool, lottery_add_thread, lottery_kill_thread, lottery_next_runnable, won, ticket_count,
}
use etaos.Sched.Lottery.Tickets.{OnePlace, lottery_add_thread-OnePlace}
use etaos.Sched.Lottery.Draw.{lottery_next_runnable-lottery_add_thread}

-- Threads 1 and 2 are on the run queue; thread 24 has a priority of 240.
abbrev kernel : Kernel
kernel = record {
  threads = λ t. fresh_thread (10 * t);
  run_queue = 1 ∷ 2 ∷ [];
  num = 2;
  current = 3;
  wake_queue = [];
  kill_queue = [];
  switch_count = 0;
  queues = λ q. chain [];
  tick = 0;
  timers = [];
  next_timer = 0;
}

-- No ticket was made yet, and there is memory for twelve.
abbrev none_made : Pool
none_made = record { tickets = []; num = 0; held = λ t. []; memory = 12 }

abbrev dealt : Pool
dealt = record none_made {
  num = 3;
  held = λ t. if t == 1 then 0 ∷ [] else if t == 2 then 1 ∷ 2 ∷ [] else [];
}

one_place : OnePlace (1 ∷ 2 ∷ []) none_made
one_place x = ground arith

lottery_add_thread-OnePlace_example :
    ((q : Pool) × ((lottery_add_thread 1 none_made kernel).0 ≡ some q) × OnePlace (1 ∷ 2 ∷ []) q)
    × OnePlace (1 ∷ 2 ∷ []) (lottery_kill_thread 1 none_made)
unfolding ticket_count
lottery_add_thread-OnePlace_example =
    lottery_add_thread-OnePlace (1 ∷ 2 ∷ []) 1 none_made kernel ((two_one, tt), (tt, tt)) (inl refl)
      one_place (omega arith)
  where
    two_one : ◌≢◌ {A = ℕ} 2 1
    two_one e = ground (arith, e)

drawn : lottery_next_runnable (7 ∷ 2 ∷ []) dealt kernel ≡ won 2
unfolding lottery_next_runnable
drawn = refl

lottery_next_runnable-lottery_add_thread_example :
    ((lottery_add_thread 24 dealt kernel).0 ≡ some dealt)
    × (lottery_next_runnable (7 ∷ 2 ∷ []) dealt (lottery_add_thread 24 dealt kernel).1 ≢ won 24)
unfolding lottery_add_thread etaos.Sched.Thread.effective_prio
lottery_next_runnable-lottery_add_thread_example =
    lottery_next_runnable-lottery_add_thread 24 dealt kernel (7 ∷ 2 ∷ []) (omega arith)
      (omega arith) refl refl
