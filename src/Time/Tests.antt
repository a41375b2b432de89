-- ===== src/Time/Tests.antt =====
-- Runs of the timer list, and its theorems at concrete lists.
use etaos.Prelude.{ℕ, ◌≡◌, refl, true, some, List, [], ◌∷◌, ◌++◌, arith, take}
use etaos.Time.{Timer, timer_process, timer_create}
use etaos.Time.Process.{handle_all, due_of, live_of, fired, timer_process-total, timer_process-once}

abbrev once : ℕ → ℕ → Timer ℕ
once id at = record { id = id; expire_at = at; interval = 0; call = id }

abbrev periodic : Timer ℕ
periodic = record { id = 9; expire_at = 10; interval = 5; call = 9 }

-- A handle that keeps a log of the timers that fired.
abbrev log : Timer ℕ → List ℕ → List ℕ
log t fired_ids = fired_ids ++ (t.call ∷ [])

abbrev three : List (Timer ℕ)
three = once 1 10 ∷ once 2 20 ∷ once 3 30 ∷ []

process_runs : timer_process log 20 three [] ≡ some (once 3 30 ∷ [], 1 ∷ 2 ∷ [])
unfolding timer_process
process_runs = refl

create_runs :
    timer_create 1000 7 4 8 4 true three
    ≡ (once 4 15, once 1 10 ∷ once 4 15 ∷ once 2 20 ∷ once 3 30 ∷ [])
unfolding timer_create
create_runs = refl

timer_process-total_example :
    (r : List (Timer ℕ) × List ℕ) × (n : ℕ) × (timer_process log 20 (periodic ∷ three) [] ≡ some r)
    × (r.1 ≡ handle_all log (take n (due_of 20 (periodic ∷ three))) [])
timer_process-total_example = timer_process-total log 20 (periodic ∷ three) []

timer_process-once_example :
    timer_process log 20 three [] ≡ some (live_of 20 three, fired log 20 three [])
timer_process-once_example = timer_process-once log 20 three [] (omega arith) (omega arith)
