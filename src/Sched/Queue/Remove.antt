-- ===== src/Sched/Queue/Remove.antt =====
-- `rr_shared_queue_remove`: which thread leaves, and that its events stay.
use etaos.Prelude.{
  ℕ, ◌≡◌, refl, ◌↔◌, sym, ◌∙◌, subst, Bool, Option, none, some, List, [], ◌∷◌, ◌++◌, arith,
}
use etaos.Sched.Thread.{Threads, Root, modify}
use etaos.Sched.Queue.{
  Head, chain, Status, ok, einval, place, successor, queue_insert, queue_remove, take_out, bequeath,
  first,
}
use etaos.Sched.Queue.Events.{event_sum, pending, NoEvents, AtHead, NotIn, event_sum_zero}

take_out_absent : (tp : ℕ) (xs : List ℕ) → NotIn tp xs → take_out tp xs ≡ none
unfolding take_out
take_out_absent tp [] n = refl
take_out_absent tp (x ∷ xs) n = ground (arith, take_out_absent tp xs n.1)

pub take_out_found :
    (tp : ℕ) (pre post : List ℕ)
    → NotIn tp pre
    → take_out tp (pre ++ (tp ∷ post)) ≡ some (pre ++ post, first post)
unfolding take_out
take_out_found tp [] post n = ground arith
take_out_found tp (x ∷ pre) post n = ground (arith, take_out_found tp pre post n.1)

take_out-place :
    (stays : ℕ → Bool) (tp : ℕ) (xs : List ℕ)
    → NotIn tp xs
    → take_out tp (place stays tp xs) ≡ some (xs, successor stays xs)
unfolding take_out place successor
take_out-place stays tp [] n = ground arith
take_out-place stays tp (x ∷ xs) n = ground (arith, take_out-place stays tp xs n.1)

-- A thread that is not among `pre` is refused by the queue `pre`, and nothing changes. From a queue
-- where it comes after `pre` it leaves, the others keep their order, and it belongs to no queue.
pub queue_remove_lem :
    (tp : ℕ) (th : Threads) (pre post : List ℕ)
    → NotIn tp pre
    → let r = queue_remove tp (chain (pre ++ (tp ∷ post))) th in
      (queue_remove tp (chain pre) th ≡ (einval, chain pre, th))
      × (r.0 ≡ ok)
      × (r.1 ≡ chain (pre ++ post))
      × ((r.2 tp).queue ≡ none)
unfolding queue_remove
queue_remove_lem tp th pre post n =
    ground (arith, take_out_absent tp pre n, take_out_found tp pre post n)

-- Removing a thread right after its insertion into a queue that it was not in succeeds and gives
-- back the queue.
pub queue_remove-queue_insert :
    (root : Root) (stays : ℕ → Bool) (tp : ℕ) (xs : List ℕ) (th : Threads)
    → NotIn tp xs
    → let r = queue_insert root stays tp (chain xs) th in
      let s = queue_remove tp r.0 r.1 in (s.0 ≡ ok) × (s.1 ≡ chain xs)
unfolding queue_remove queue_insert
queue_remove-queue_insert root stays tp xs th n = ground (arith, take_out-place stays tp xs n)

event_sum_same :
    (th th' : Threads) (xs : List ℕ)
    → ((u : ℕ) → (th' u).ec ≡ (th u).ec)
    → event_sum th' xs ≡ event_sum th xs
event_sum_same th th' [] e = refl
event_sum_same th th' (x ∷ xs) e = omega (arith, e x, event_sum_same th th' xs e)

NoEvents-same :
    (th th' : Threads) (xs : List ℕ)
    → ((u : ℕ) → (th' u).ec ≡ (th u).ec)
    → NoEvents th xs
    → NoEvents th' xs
NoEvents-same th th' [] e h = tt
NoEvents-same th th' (x ∷ xs) e h = (e x ∙ h.0, NoEvents-same th th' xs e h.1)

module _ (tp : ℕ) (th : Threads) where
  abbrev departed : Option ℕ → Threads
  departed n = modify tp (λ t. record t { queue = none }) (bequeath tp n th)

  remove_found :
      (pre post : List ℕ)
      → NotIn tp pre
      → queue_remove tp (chain (pre ++ (tp ∷ post))) th
        ≡ (ok, chain (pre ++ post), departed (first post))
  unfolding queue_remove
  remove_found pre post n = rw (take_out_found tp pre post n, queue_remove) refl

  departed_idle : (n : Option ℕ) → (th tp).ec ≡ 0 → (u : ℕ) → (departed n u).ec ≡ (th u).ec
  unfolding bequeath
  departed_idle none h u = ground arith
  departed_idle (some n) h u = ground arith

  departed_head :
      (y : ℕ) (ys : List ℕ)
      → NotIn tp (y ∷ ys)
      → NotIn y ys
      → NoEvents th (y ∷ ys)
      → ((departed (some y) y).ec ≡ (th tp).ec) × NoEvents (departed (some y)) ys
  unfolding bequeath
  departed_head y [] n m h = ground arith
  departed_head y (z ∷ ys) n m h = ground (arith, departed_head y ys (n.0, n.1.1) m.1 (h.0, h.1.1))

  abbrev Keeps : List ℕ → Status × Head × Threads → Type 0
  Keeps xs r = (pending r.2 r.1 ≡ event_sum th xs) × AtHead r.2 r.1

  -- The first thread of a queue of distinct threads, where it alone holds events, leaves them to
  -- the second when it is removed.
  pub queue_remove-pending_head :
      (y : ℕ) (ys : List ℕ)
      → NotIn tp (y ∷ ys)
      → NotIn y ys
      → AtHead th (chain (tp ∷ y ∷ ys))
      → Keeps (tp ∷ y ∷ ys) (queue_remove tp (chain (tp ∷ y ∷ ys)) th)
  queue_remove-pending_head y ys n m a =
      let (p, q) = departed_head y ys n m a.1 in
      subst (Keeps (tp ∷ y ∷ ys)) (sym (remove_found [] (y ∷ ys) tt)) (
        omega (arith, event_sum_zero th ys a.1.1, event_sum_zero (departed (some y)) ys q, p),
        (omega (arith, p), q),
      )

NoEvents-append :
    (th : Threads) (us vs : List ℕ) → NoEvents th (us ++ vs) ↔ (NoEvents th us × NoEvents th vs)
NoEvents-append th [] vs = (λ h. (tt, h), λ h. h.1)
NoEvents-append th (u ∷ us) vs = (
  λ h. let (p, q) = (NoEvents-append th us vs).0 h.1 in ((h.0, p), q),
  λ h. (h.0.0, (NoEvents-append th us vs).1 (h.0.1, h.1)),
)

-- Removing a thread that is not the first of a queue, where the first alone holds events, keeps the
-- events with the first.
pub queue_remove-pending_rest :
    (tp : ℕ) (th : Threads) (x : ℕ) (pre post : List ℕ)
    → NotIn tp (x ∷ pre)
    → AtHead th (chain (x ∷ pre ++ (tp ∷ post)))
    → Keeps tp th (x ∷ pre ++ (tp ∷ post)) (queue_remove tp (chain (x ∷ pre ++ (tp ∷ post))) th)
queue_remove-pending_rest tp th x pre post n a =
    let (p, q) = (NoEvents-append th pre (tp ∷ post)).0 a.1 in
    let same = departed_idle tp th (first post) q.0 in
    let none_left = (NoEvents-append th pre post).1 (p, q.1) in
    let after = NoEvents-same th (departed tp th (first post)) (pre ++ post) same none_left in
    subst (Keeps tp th (x ∷ pre ++ (tp ∷ post))) (sym (remove_found tp th (x ∷ pre) post n)) (
      omega (
        arith,
        same x,
        event_sum_zero (departed tp th (first post)) (pre ++ post) after,
        event_sum_zero th (pre ++ (tp ∷ post)) a.1,
      ),
      (omega (arith, same x), after),
    )
