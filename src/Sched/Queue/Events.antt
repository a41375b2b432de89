-- ===== src/Sched/Queue/Events.antt =====
-- The events that a queue owes to its threads: an insertion or a removal moves them and loses none.
use etaos.Prelude.{
  ℕ, ◌+◌, ◌<◌, ◌≡◌, ◌≢◌, refl, subst, some_inj, inl, inr, sym, Bool, true, false, some, List, [],
  ◌∷◌, All, arith, Bool-cases, Option-cases,
}
use etaos.Sched.Thread.{Threads, Root, modify}
use etaos.Sched.Queue.{Head, signaled, chain, place, successor, inherit, queue_insert}

-- An event that nobody waits for is the mark SIGNALED; otherwise the threads' counters hold it.
abbrev pub event_sum : Threads → List ℕ → ℕ
event_sum th [] = 0
event_sum th (x ∷ xs) = (th x).ec + event_sum th xs

abbrev pub pending : Threads → Head → ℕ
pending th signaled = 1
pending th (chain xs) = event_sum th xs

abbrev pub NoEvents : Threads → List ℕ → Type 0
NoEvents th = All λ x. (th x).ec ≡ 0

-- Only the first thread of a queue holds events, and no more than its counter's byte can.
abbrev pub AtHead : Threads → Head → Type 0
AtHead th signaled = Unit {0}
AtHead th (chain []) = Unit {0}
AtHead th (chain (x ∷ xs)) = ((th x).ec < 256) × NoEvents th xs

abbrev pub NotIn : ℕ → List ℕ → Type 0
NotIn t = All λ x. x ≢ t

abbrev pub Absent : ℕ → Head → Type 0
Absent t signaled = Unit {0}
Absent t (chain xs) = NotIn t xs

pub event_sum_zero : (th : Threads) (xs : List ℕ) → NoEvents th xs → event_sum th xs ≡ 0
event_sum_zero th [] h = refl
event_sum_zero th (x ∷ xs) h = omega (arith, event_sum_zero th xs h.1)

module _ (root : Root) (tp : ℕ) (th : Threads) where
  abbrev arrived : Threads
  arrived = modify tp (λ t. record t { ec = 0; queue = some root }) th

  arrived-NoEvents : (xs : List ℕ) → NoEvents th xs → NoEvents arrived xs
  arrived-NoEvents [] h = tt
  arrived-NoEvents (x ∷ xs) h = (ground arith, arrived-NoEvents xs h.1)

  successor-ec :
      (stays : ℕ → Bool) (xs : List ℕ) (n : ℕ)
      → NoEvents arrived xs
      → successor stays xs ≡ some n
      → (arrived n).ec ≡ 0
  unfolding successor
  successor-ec stays [] n h e = ground arith
  successor-ec stays (x ∷ xs) n h e = elim (Bool-cases (stays x)) [
    | inl s ↦ successor-ec stays xs n h.1 (rw (s, successor) at e)
    | inr s ↦
        let eq : x ≡ n = some_inj x n (rw (s, successor) at e) in
        subst (λ m. (arrived m).ec ≡ 0) eq h.0
  ]

  inherit_none :
      (stays : ℕ → Bool) (xs : List ℕ)
      → NoEvents arrived xs
      → inherit tp (successor stays xs) arrived ≡ arrived
  unfolding inherit
  inherit_none stays xs h = elim (Option-cases (successor stays xs)) [
    | inl e ↦ rw e refl
    | inr (n, e) ↦ rw e (rw (successor-ec stays xs n h e, inherit) refl)
  ]

  place-NoEvents :
      (stays : ℕ → Bool) (xs : List ℕ) → NoEvents arrived xs → NoEvents arrived (place stays tp xs)
  unfolding place
  place-NoEvents stays [] h = (ground arith, tt)
  place-NoEvents stays (x ∷ xs) h = ground (arith, place-NoEvents stays xs)

  inherit-NoEvents :
      (x : ℕ) (xs : List ℕ)
      → NotIn tp xs
      → NoEvents th xs
      → NoEvents (inherit tp (some x) arrived) xs
  unfolding inherit
  inherit-NoEvents x [] n h = tt
  inherit-NoEvents x (y ∷ xs) n h = (ground arith, inherit-NoEvents x xs n.1 h.1)

  insert_front :
      (x : ℕ) (xs : List ℕ)
      → x ≢ tp
      → NotIn tp xs
      → (th x).ec < 256
      → NoEvents th xs
      → let th' = inherit tp (some x) arrived in
        (event_sum th' (tp ∷ x ∷ xs) ≡ event_sum th (x ∷ xs)) × AtHead th' (chain (tp ∷ x ∷ xs))
  unfolding inherit
  insert_front x xs ne n b h = ground (
    arith,
    event_sum_zero th xs h,
    inherit-NoEvents x xs n h,
    event_sum_zero (inherit tp (some x) arrived) xs (inherit-NoEvents x xs n h),
  )

  insert_behind :
      (stays : ℕ → Bool) (x : ℕ) (xs : List ℕ)
      → x ≢ tp
      → (th x).ec < 256
      → NoEvents th xs
      → (event_sum arrived (x ∷ place stays tp xs) ≡ event_sum th (x ∷ xs))
        × AtHead arrived (chain (x ∷ place stays tp xs))
  insert_behind stays x xs ne b h =
      let moved = place-NoEvents stays xs (arrived-NoEvents xs h) in
      ground
        (arith, event_sum_zero th xs h, event_sum_zero arrived (place stays tp xs) moved, moved)

  walk_stay :
      (stays : ℕ → Bool) (x : ℕ) (xs : List ℕ)
      → stays x ≡ true
      → (place stays tp (x ∷ xs) ≡ x ∷ place stays tp xs)
        × (successor stays (x ∷ xs) ≡ successor stays xs)
  unfolding place successor
  walk_stay stays x xs e = (rw (e, place) refl, rw (e, successor) refl)

  walk_stop :
      (stays : ℕ → Bool) (x : ℕ) (xs : List ℕ)
      → stays x ≡ false
      → (place stays tp (x ∷ xs) ≡ tp ∷ x ∷ xs) × (successor stays (x ∷ xs) ≡ some x)
  unfolding place successor
  walk_stop stays x xs e = (rw (e, place) refl, rw (e, successor) refl)

  insert_alone :
      (stays : ℕ → Bool)
      → let (h', th') = queue_insert root stays tp (chain []) th in
        (pending th' h' ≡ 0) × AtHead th' h'
  unfolding queue_insert place successor inherit
  insert_alone stays = ground arith

  insert_signaled :
      (stays : ℕ → Bool)
      → let r = queue_insert root stays tp signaled th in (pending r.1 r.0 ≡ 1) × AtHead r.1 r.0
  unfolding queue_insert
  insert_signaled stays = ground arith

  insert_stay :
      (stays : ℕ → Bool) (x : ℕ) (xs : List ℕ)
      → stays x ≡ true
      → NoEvents th xs
      → queue_insert root stays tp (chain (x ∷ xs)) th ≡ (chain (x ∷ place stays tp xs), arrived)
  unfolding queue_insert
  insert_stay stays x xs e h =
      let (p, q) = walk_stay stays x xs e in
      rw (p, q, inherit_none stays xs (arrived-NoEvents xs h)) refl

  insert_stop :
      (stays : ℕ → Bool) (x : ℕ) (xs : List ℕ)
      → stays x ≡ false
      → queue_insert root stays tp (chain (x ∷ xs)) th
        ≡ (chain (tp ∷ x ∷ xs), inherit tp (some x) arrived)
  unfolding queue_insert
  insert_stop stays x xs e = let (p, q) = walk_stop stays x xs e in rw (p, q) refl

  -- Inserting a thread into a queue that it is not in, and of which only the first thread holds
  -- events, keeps the number of the queue's events, the mark SIGNALED included, and again only the
  -- first thread holds events.
  pub queue_insert-pending :
      (stays : ℕ → Bool) (h : Head)
      → Absent tp h
      → AtHead th h
      → let r = queue_insert root stays tp h th in (pending r.1 r.0 ≡ pending th h) × AtHead r.1 r.0
  queue_insert-pending stays signaled n a = insert_signaled stays
  queue_insert-pending stays (chain []) n a = insert_alone stays
  queue_insert-pending stays (chain (x ∷ xs)) n a = elim (Bool-cases (stays x)) [
    | inl e ↦
        subst Keeps (sym (insert_stay stays x xs e a.1)) (insert_behind stays x xs n.0 a.0 a.1)
    | inr e ↦ subst Keeps (sym (insert_stop stays x xs e)) (insert_front x xs n.0 n.1 a.0 a.1)
  ]
    where
      Keeps : Head × Threads → Type 0
      Keeps r = (pending r.1 r.0 ≡ event_sum th (x ∷ xs)) × AtHead r.1 r.0
