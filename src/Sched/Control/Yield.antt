-- ===== src/Sched/Control/Yield.antt =====
-- Giving up the CPU, and `signal`: kernel/sched/thread.c and `sched_yield`.
use etaos.Prelude.{
  ℕ, ◌≤◌, ◌<◌, ◌≡◌, ◌≢◌, refl, sym, ap, subst, ◌∙◌, Bool, true, false, not, ◌&&◌, ◌||◌,
  if◌then◌else◌, ◌==◌, leb, arith,
}
use etaos.Sched.Thread.{effective_prio}
use etaos.Sched.Kernel.{Kernel, Config, thread, on_thread}
use etaos.Sched.Core.{get_next_runnable, reschedule_decide}
use etaos.Sched.Core.Decide.{reschedule_decide_lem}
use etaos.Sched.Control.{sched_yield}

or_true : (a b : Bool) → (a || b || true) ≡ true
or_true true b = refl
or_true false true = refl
or_true false false = refl

-- The decision for a current thread that is marked.
decided :
    (k : Kernel) (next : ℕ)
    → (k.current == next) ≡ false
    → let k' = on_thread k.current (λ t. record t { need_resched = true }) k in
      let t = thread k' k.current in
      (not (k.current == next)
        && (t.need_resched || (t.preempt_resched && not (thread k' next).idle)))
      ≡ true
decided k next e = ground (arith, e)

-- After `sched_yield` the CPU changes hands if the thread that would run next is another one and at
-- least as urgent as the current thread; if it is less urgent and nothing has marked the current
-- thread, that keeps the CPU, and `sched_yield` changes nothing.
pub reschedule_decide-sched_yield :
    (c : Config) (next : ℕ) (k : Kernel)
    → get_next_runnable k ≡ next
    → next ≢ k.current
    → let t = thread k k.current in
      (effective_prio (thread k next) ≤ effective_prio t
        → (reschedule_decide c k.current next (sched_yield k)).0 ≡ true)
      × (effective_prio t < effective_prio (thread k next)
          → t.need_resched ≡ false
          → t.preempt_resched ≡ false
          → (sched_yield k ≡ k) × ((reschedule_decide c k.current next k).0 ≡ false))
unfolding sched_yield
reschedule_decide-sched_yield c next k e ne =
    let cur = thread k k.current in
    let marked = on_thread k.current (λ t. record t { need_resched = true }) k in
    let urgent : ℕ → Bool = λ x. leb (effective_prio (thread k x)) (effective_prio cur) in
    let test : Bool → Bool = λ b. cur.preempt_resched || cur.need_resched || b in
    let yields : Bool → Kernel = λ b. if b then marked else k in
    let other : (k.current == next) ≡ false = ground arith in
    (
      λ h.
          let y : urgent next ≡ true = ground (arith, h) in
          let s =
            ap (λ x. yields (test (urgent x))) e
            ∙ ap (λ b. yields (test b)) y
            ∙ ap yields (or_true cur.preempt_resched cur.need_resched) in
          subst (λ (x : Kernel). (reschedule_decide c k.current next x).0 ≡ true) (sym s)
            ((reschedule_decide_lem c k.current next marked).0 ∙ decided k next other),
      λ h n q.
          let x : urgent next ≡ false = ground (arith, h) in
          (
            ap (λ x. yields (test (urgent x))) e
                ∙ ap (λ b. yields (test b)) x
                ∙ ap (λ b. yields (b || cur.need_resched || false)) q
                ∙ ap (λ b. yields (b || false)) n,
            (reschedule_decide_lem c k.current next k).0 ∙ ground (arith, n, q),
          ),
    )
