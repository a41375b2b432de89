-- ===== src/Sched/Control/Slice.antt =====
-- The time slice of kernel/sched/clock.c.
use etaos.Prelude.{ℕ, zero, suc, ◌-◌, ◌≤◌, ◌<◌, ◌≡◌, refl, subst, ◌∙◌, true, arith}
use etaos.Sched.Kernel.{Kernel, Config, thread}
use etaos.Sched.Control.{clock_tick, ticks}

module _ (c : Config) (k : Kernel) where
  -- A tick within the time slice of a thread, and the tick at its end.
  abbrev Within : ℕ → Type 0
  Within u =
      1 < (thread k u).slice
      → (thread k u).slice < 65536
      → ((clock_tick c 1 k).current ≡ u)
        × ((thread (clock_tick c 1 k) u).slice ≡ (thread k u).slice - 1)
        × ((thread (clock_tick c 1 k) u).preempt_resched ≡ (thread k u).preempt_resched)

  abbrev Last : ℕ → Type 0
  Last u =
      (thread k u).slice ≡ 1
      → ((thread (clock_tick c 1 k) u).preempt_resched ≡ true)
        × ((thread (clock_tick c 1 k) u).slice ≡ c.time_slice)

  current-Within : Within k.current
  unfolding clock_tick
  current-Within h b = (ground arith, ground arith, ground arith)

  current-Last : Last k.current
  unfolding clock_tick
  current-Last h = (ground arith, ground arith)

ticks_from :
    (c : Config) (n u : ℕ) (k : Kernel)
    → k.current ≡ u
    → (thread k u).slice ≡ suc n
    → suc n < 65536
    → ((m : ℕ) → m ≤ n → (thread (ticks c m k) u).preempt_resched ≡ (thread k u).preempt_resched)
      × ((thread (ticks c (suc n) k) u).preempt_resched ≡ true)
      × ((thread (ticks c (suc n) k) u).slice ≡ c.time_slice)
unfolding ticks
ticks_from c zero u k p e b =
    let l = subst (Last c k) p (current-Last c k) e in (none_yet, l.0, l.1)
  where
    none_yet :
        (m : ℕ) → m ≤ 0 → (thread (ticks c m k) u).preempt_resched ≡ (thread k u).preempt_resched
    none_yet zero h = refl
    none_yet (suc m) h = absurd (omega (arith, h))
ticks_from c (suc n) u k p e b =
    let k' = clock_tick c 1 k in
    let (q, s, f) =
      subst (Within c k) p (current-Within c k) (omega (arith, e)) (omega (arith, e, b)) in
    let (yet, end, anew) = ticks_from c n u k' q (omega (arith, s, e)) (omega (arith, b)) in
    (λ m h. within m h f yet, end, anew)
  where
    within :
        (m : ℕ)
        → m ≤ suc n
        → (thread (clock_tick c 1 k) u).preempt_resched ≡ (thread k u).preempt_resched
        → ((m : ℕ)
            → m ≤ n
            → (thread (ticks c m (clock_tick c 1 k)) u).preempt_resched
              ≡ (thread (clock_tick c 1 k) u).preempt_resched)
        → (thread (ticks c m k) u).preempt_resched ≡ (thread k u).preempt_resched
    within zero h f yet = refl
    within (suc m) h f yet = yet m (omega (arith, h)) ∙ f

-- While ticks of a millisecond come, the current thread is marked for preemption by the tick that
-- ends its time slice, which then begins anew, and by none before. The time slice is not zero and
-- fits 16 bits.
pub ticks_lem :
    (c : Config) (n : ℕ) (k : Kernel)
    → (thread k k.current).slice ≡ suc n
    → suc n < 65536
    → ((m : ℕ)
        → m ≤ n
        → (thread (ticks c m k) k.current).preempt_resched ≡ (thread k k.current).preempt_resched)
      × ((thread (ticks c (suc n) k) k.current).preempt_resched ≡ true)
      × ((thread (ticks c (suc n) k) k.current).slice ≡ c.time_slice)
ticks_lem c n k e b = ticks_from c n k.current k refl e b
