-- ===== src/Sched/Core/RunQueue.antt =====
-- The run queue's invariant, and what entering and leaving it does to the other threads.
use mathlib.Core.List.{Perm}
use mathlib.Core.List.Perm
use etaos.Prelude.{
  ℕ, ◌+◌, ◌-◌, ◌≡◌, refl, sym, ap, subst, ◌∙◌, inl, inr, Bool, true, false, not, Option, none, some,
  List, [], ◌∷◌, ◌==◌, leb, arith, Bool-cases, ◌⊎◌,
}
use etaos.Sched.Thread.{Threads, Root, run_root, modify}
use etaos.Sched.Queue.{
  Head, chain, signaled, prio_of, Status, ok, place, successor, inherit, queue_insert, queue_remove,
  edf_deadline, take_out, bequeath, first, rr_insert, fifo_insert, edf_insert,
}
use etaos.Sched.Kernel.{
  Kernel, Config, Class, rr, edf, fifo, thread, on_thread, members, class_insert, add_thread,
  settle, rm_thread,
}
use etaos.Sched.Core.{park, switch_context}

-- Of a thread an insertion or a removal touches only the event counter, the queue and the deadline.
abbrev pub SameRun : Threads → Threads → Type 0
SameRun th th' =
    (t : ℕ)
    → ((th' t).running ≡ (th t).running)
      × ((th' t).on_rq ≡ (th t).on_rq)
      × ((th' t).timer_ref ≡ (th t).timer_ref)
      × ((th' t).need_resched ≡ (th t).need_resched)

pub inherit-SameRun : (tp : ℕ) (n : Option ℕ) (th : Threads) → SameRun th (inherit tp n th)
unfolding inherit
inherit-SameRun tp none th t = (refl, refl, refl, refl)
inherit-SameRun tp (some n) th t = ground arith

pub queue_insert-SameRun :
    (root : Root) (stays : ℕ → Bool) (tp : ℕ) (h : Head) (th : Threads)
    → SameRun th (queue_insert root stays tp h th).1
unfolding queue_insert
queue_insert-SameRun root stays tp signaled th t = ground arith
queue_insert-SameRun root stays tp (chain xs) th t =
    let set = modify tp (λ u. record u { ec = 0; queue = some root }) th in
    ground (arith, inherit-SameRun tp (successor stays xs) set t)

SameRun-trans : (a b c : Threads) → SameRun a b → SameRun b c → SameRun a c
SameRun-trans a b c f g t =
    let (r, q, m, n) = f t in let (r', q', m', n') = g t in (r' ∙ r, q' ∙ q, m' ∙ m, n' ∙ n)

deadline-SameRun :
    (tp d : ℕ) (th : Threads) → SameRun th (modify tp (λ t. record t { deadline = d }) th)
deadline-SameRun tp d th t = ground arith

-- Where a class puts the thread that enters the run queue.
abbrev Inserted : ℕ → Kernel → Head × Threads → Type 0
Inserted tp k r =
    (stays : ℕ → Bool) × (r.0 ≡ chain (place stays tp k.run_queue)) × SameRun k.threads r.1

insert_rr :
    (tp : ℕ) (k : Kernel) → Inserted tp k (rr_insert run_root tp (chain k.run_queue) k.threads)
unfolding rr_insert queue_insert
insert_rr tp k =
    let stays = λ (x : ℕ). leb (prio_of k.threads x) (prio_of k.threads tp) in
    (stays, refl, queue_insert-SameRun run_root stays tp (chain k.run_queue) k.threads)

insert_fifo :
    (tp : ℕ) (k : Kernel) → Inserted tp k (fifo_insert run_root tp (chain k.run_queue) k.threads)
unfolding fifo_insert queue_insert
insert_fifo tp k =
    (λ x. true, refl, queue_insert-SameRun run_root (λ x. true) tp (chain k.run_queue) k.threads)

insert_edf :
    (tp : ℕ) (k : Kernel)
    → Inserted tp k (edf_insert k.tick run_root tp (chain k.run_queue) k.threads)
unfolding edf_insert queue_insert
insert_edf tp k =
    let d = edf_deadline k.tick (k.threads tp) in
    let th' = modify tp (λ t. record t { deadline = d }) k.threads in
    let stays = λ (x : ℕ). not (leb d (th' x).deadline) in
    let r = queue_insert run_root stays tp (chain k.run_queue) th' in
    (
      stays,
      refl,
      SameRun-trans k.threads th' r.1 (deadline-SameRun tp d k.threads)
          (queue_insert-SameRun run_root stays tp (chain k.run_queue) th'),
    )

insert_cases :
    (tp : ℕ) (k : Kernel) (cl : Class)
    → Inserted tp k (elim cl [
      | rr ↦ rr_insert run_root tp (chain k.run_queue) k.threads
      | fifo ↦ fifo_insert run_root tp (chain k.run_queue) k.threads
      | edf ↦ edf_insert k.tick run_root tp (chain k.run_queue) k.threads
    ])
insert_cases tp k rr = insert_rr tp k
insert_cases tp k fifo = insert_fifo tp k
insert_cases tp k edf = insert_edf tp k

pub class_insert_lem : (c : Config) (tp : ℕ) (k : Kernel) → Inserted tp k (class_insert c tp k)
unfolding class_insert
class_insert_lem c tp k = insert_cases tp k c.class

place-Perm : (stays : ℕ → Bool) (tp : ℕ) (xs : List ℕ) → Perm (tp ∷ xs) (place stays tp xs)
unfolding place
place-Perm stays tp [] = Perm.rfl
place-Perm stays tp (x ∷ xs) = elim (Bool-cases (stays x)) [
  | inl e ↦ rw (e, place) (Perm.trans (Perm.swap x tp xs) (Perm.cons x (place-Perm stays tp xs)))
  | inr e ↦ rw (e, place) Perm.rfl
]

-- Membership of a thread in a queue.
abbrev pub In : ℕ → List ℕ → Type 0
In t [] = ⊥
In t (x ∷ xs) = (x ≡ t) ⊎ In t xs

place-In : (stays : ℕ → Bool) (tp t : ℕ) (xs : List ℕ) → In t xs → In t (place stays tp xs)
unfolding place
place-In stays tp t [] i = elim i [ ]
place-In stays tp t (x ∷ xs) (inl e) = elim (Bool-cases (stays x)) [
  | inl s ↦ rw (s, place) (inl e)
  | inr s ↦ rw (s, place) (inr (inl e))
]
place-In stays tp t (x ∷ xs) (inr i) = elim (Bool-cases (stays x)) [
  | inl s ↦ rw (s, place) (inr (place-In stays tp t xs i))
  | inr s ↦ rw (s, place) (inr (inr i))
]

take_out_hit : (x t : ℕ) (xs : List ℕ) → x ≡ t → take_out t (x ∷ xs) ≡ some (xs, first xs)
unfolding take_out
take_out_hit x t xs e = ground arith

take_out_miss :
    (x t : ℕ) (xs ys : List ℕ) (n : Option ℕ)
    → (x == t) ≡ false
    → take_out t xs ≡ some (ys, n)
    → take_out t (x ∷ xs) ≡ some (x ∷ ys, n)
unfolding take_out
take_out_miss x t xs ys n ne e = ground arith

-- A member can be taken out, and what is left with it is the queue.
pub take_out-In :
    (t : ℕ) (xs : List ℕ)
    → In t xs
    → (ys : List ℕ) × (n : Option ℕ) × (take_out t xs ≡ some (ys, n)) × Perm (t ∷ ys) xs
take_out-In t [] i = elim i [ ]
take_out-In t (x ∷ xs) (inl e) =
    (xs, first xs, take_out_hit x t xs e, subst (λ y. Perm (y ∷ xs) (x ∷ xs)) e Perm.rfl)
take_out-In t (x ∷ xs) (inr i) = elim (Bool-cases (x == t)) [
  | inl e ↦
      let eq : x ≡ t = ground arith in
      (xs, first xs, take_out_hit x t xs eq, subst (λ y. Perm (y ∷ xs) (x ∷ xs)) eq Perm.rfl)
  | inr e ↦
      let (ys, n, h, p) = take_out-In t xs i in
      (x ∷ ys, n, take_out_miss x t xs ys n e h, Perm.trans (Perm.swap x t ys) (Perm.cons x p))
]

bequeath_on_rq :
    (t : ℕ) (n : Option ℕ) (th : Threads) (u : ℕ)
    → (modify t (λ x. record x { queue = none }) (bequeath t n th) u).on_rq ≡ (th u).on_rq
unfolding bequeath
bequeath_on_rq t none th u = ground arith
bequeath_on_rq t (some n) th u = ground arith

-- The run queue and its count once `t` is taken out, where each thread's `on_rq` stays.
abbrev Left : ℕ → Kernel → Status × Kernel → Type 0
Left t k r =
    Perm (t ∷ r.1.run_queue) k.run_queue
    × (r.1.num ≡ k.num - 1)
    × ((u : ℕ) → (thread r.1 u).on_rq ≡ (thread k u).on_rq)

pub queue_remove_found :
    (t : ℕ) (xs ys : List ℕ) (n : Option ℕ) (th : Threads)
    → take_out t xs ≡ some (ys, n)
    → queue_remove t (chain xs) th
      ≡ (ok, chain ys, modify t (λ x. record x { queue = none }) (bequeath t n th))
unfolding queue_remove
queue_remove_found t xs ys n th h = rw (h, queue_remove) refl

rm_thread_found :
    (t : ℕ) (k : Kernel) (ys : List ℕ) (th : Threads)
    → queue_remove t (chain k.run_queue) k.threads ≡ (ok, chain ys, th)
    → rm_thread t k ≡ (ok, record k { run_queue = ys; threads = th; num = k.num - 1 })
unfolding rm_thread
rm_thread_found t k ys th h = ap (settle k) h

rm_thread_lem : (t : ℕ) (k : Kernel) → In t k.run_queue → Left t k (rm_thread t k)
rm_thread_lem t k i =
    let (ys, n, h, p) = take_out-In t k.run_queue i in
    let th = modify t (λ x. record x { queue = none }) (bequeath t n k.threads) in
    let e = rm_thread_found t k ys th (queue_remove_found t k.run_queue ys n k.threads h) in
    subst (Left t k) (sym e) (p, refl, bequeath_on_rq t n k.threads)

pub add_thread_lem :
    (c : Config) (t : ℕ) (k : Kernel)
    → let k' = add_thread c t k in
      Perm (t ∷ k.run_queue) k'.run_queue
      × (k'.num ≡ k.num + 1)
      × ((u : ℕ) → In u k.run_queue → In u k'.run_queue)
      × SameRun k.threads k'.threads
unfolding add_thread
add_thread_lem c t k =
    let (stays, e, same) = class_insert_lem c t k in
    let eq : (add_thread c t k).run_queue ≡ place stays t k.run_queue = ap members e in
    (
      subst (Perm (t ∷ k.run_queue)) (sym eq) (place-Perm stays t k.run_queue),
      refl,
      λ u i. subst (In u) (sym eq) (place-In stays t u k.run_queue i),
      same,
    )

park_lem :
    (c : Config) (prev : ℕ) (k : Kernel)
    → ((thread k prev).running ≡ true
        → park c prev k ≡ add_thread c prev (on_thread prev (λ t. record t { on_rq = true }) k))
      × ((thread k prev).running ≡ false
          → park c prev k ≡ on_thread prev (λ t. record t { on_rq = false }) k)
unfolding park
park_lem c prev k = (λ e. rw (e, park) refl, λ e. rw (e, park) refl)

switch_context_runs :
    (c : Config) (prev next : ℕ) (k : Kernel)
    → ((thread k prev).running ≡ true
        → switch_context c prev next k
          ≡ (rm_thread next
              (add_thread c prev (on_thread prev (λ t. record t { on_rq = true }) k))).1)
      × ((thread k prev).running ≡ false
          → switch_context c prev next k
            ≡ (rm_thread next (on_thread prev (λ t. record t { on_rq = false }) k)).1)
unfolding switch_context
switch_context_runs c prev next k =
    let turn = λ (x : Kernel). (rm_thread next x).1 in
    (λ e. ap turn ((park_lem c prev k).0 e), λ e. ap turn ((park_lem c prev k).1 e))

-- The run queue after the CPU passed from `prev` to `next`: `prev` stays on it, or has left.
abbrev pub Passed : ℕ → ℕ → Kernel → Kernel → Type 0
Passed prev next k k' =
    Perm (next ∷ k'.run_queue) (prev ∷ k.run_queue)
    × (k'.num ≡ k.num)
    × ((thread k' prev).on_rq ≡ true)

abbrev pub Blocked : ℕ → ℕ → Kernel → Kernel → Type 0
Blocked prev next k k' =
    Perm (next ∷ k'.run_queue) k.run_queue × (k'.num ≡ k.num - 1) × ((thread k' prev).on_rq ≡ false)

-- By whether the previous thread can still run.
abbrev pub Switched : Bool → ℕ → ℕ → Kernel → Kernel → Type 0
Switched true prev next k k' = Passed prev next k k'
Switched false prev next k k' = Blocked prev next k k'

-- Where the next thread is in the run queue, a switch of the CPU takes it off; the previous thread
-- enters if it can still run and is off the run queue if it cannot. Every other thread stays, and
-- the count follows.
pub switch_context_lem :
    (c : Config) (prev next : ℕ) (k : Kernel)
    → In next k.run_queue
    → Switched (thread k prev).running prev next k (switch_context c prev next k)
switch_context_lem c prev next k i =
    let on = on_thread prev (λ t. record t { on_rq = true }) k in
    let off = on_thread prev (λ t. record t { on_rq = false }) k in
    let (pa, na, ia, sa) = add_thread_lem c prev on in
    let (p, n, q) = rm_thread_lem next (add_thread c prev on) (ia next i) in
    let (p', n', q') = rm_thread_lem next off i in
    let at_on : (thread on prev).on_rq ≡ true = ground arith in
    let at_off : (thread off prev).on_rq ≡ false = ground arith in
    let (runs, stops) = switch_context_runs c prev next k in
    let count : (rm_thread next (add_thread c prev on)).1.num ≡ k.num = omega (arith, n, na) in
    let result = switch_context c prev next k in
    elim (Bool-cases (thread k prev).running) [
      | inl e ↦
          subst (λ b. Switched b prev next k result) (sym e)
            (subst (Passed prev next k) (sym (runs e))
              (Perm.trans p (Perm.symm pa), count, q prev ∙ (sa prev).1 ∙ at_on))
      | inr e ↦
          subst (λ b. Switched b prev next k result) (sym e)
            (subst (Blocked prev next k) (sym (stops e)) (p', n', q' prev ∙ at_off))
    ]
