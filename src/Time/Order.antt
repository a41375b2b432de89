-- ===== src/Time/Order.antt =====
-- Where `raw_clocksource_insert_timer` puts a timer.
use mathlib.Core.List.{Perm}
use mathlib.Core.List.Perm
use etaos.Prelude.{
  ℕ, zero, suc, ◌≤◌, ◌≡◌, ◌↔◌, refl, ◌⊎◌, inl, inr, true, false, List, [], ◌∷◌, All, leb, arith,
  Bool-cases,
}
use etaos.Time.{Timer, insert_index, insert_at, insert_timer}

module _ {ℓ} {A : Type ℓ} where
  abbrev pub Sorted : List (Timer A) → Type 0
  Sorted [] = Unit {0}
  Sorted (t ∷ ts) = All (λ u. t.expire_at ≤ u.expire_at) ts × Sorted ts

  -- The expiry `e` is not before the last timer's, or not behind that of one before the last.
  abbrev pub Fits : ℕ → List (Timer A) → Type 0
  Fits e [] = Unit {0}
  Fits e (t ∷ []) = t.expire_at ≤ e
  Fits e (t ∷ u ∷ ts) = (e ≤ t.expire_at) ⊎ Fits e (u ∷ ts)

  module _ (n : Timer A) where
    pub insert_behind :
        (t u : Timer A) (ts : List (Timer A))
        → leb n.expire_at t.expire_at ≡ false
        → insert_timer n (t ∷ u ∷ ts) ≡ t ∷ insert_timer n (u ∷ ts)
    unfolding insert_timer
    insert_behind t u ts e = rw (e, insert_index) refl

    pub insert_before :
        (t u : Timer A) (ts : List (Timer A))
        → leb n.expire_at t.expire_at ≡ true
        → insert_timer n (t ∷ u ∷ ts) ≡ n ∷ t ∷ u ∷ ts
    unfolding insert_timer
    insert_before t u ts e = rw (e, insert_index) refl

    insert_at-perm : (i : ℕ) (ts : List (Timer A)) → Perm (insert_at i n ts) (n ∷ ts)
    unfolding insert_at
    insert_at-perm zero ts = Perm.rfl
    insert_at-perm (suc i) [] = Perm.rfl
    insert_at-perm (suc i) (t ∷ ts) =
        Perm.trans (Perm.cons t (insert_at-perm i ts)) (Perm.swap n t ts)

    -- An insertion loses no timer and makes none up.
    pub insert_timer-perm : (ts : List (Timer A)) → Perm (insert_timer n ts) (n ∷ ts)
    unfolding insert_timer
    insert_timer-perm ts = insert_at-perm (insert_index n.expire_at ts) ts

    All-insert :
        (k : ℕ) (ts : List (Timer A))
        → k ≤ n.expire_at
        → All (λ u. k ≤ u.expire_at) ts
        → All (λ u. k ≤ u.expire_at) (insert_timer n ts)
    unfolding insert_timer insert_index insert_at
    All-insert k [] h a = (h, tt)
    All-insert k (t ∷ []) h a = (a.0, (h, tt))
    All-insert k (t ∷ u ∷ ts) h a = elim (Bool-cases (leb n.expire_at t.expire_at)) [
      | inl e ↦ rw (e, insert_timer, insert_index) (h, a)
      | inr e ↦ rw (e, insert_timer, insert_index) (a.0, All-insert k (u ∷ ts) h a.1)
    ]

    -- The key of a list's members stays above a bound that a sorted insertion shows.
    All-of-insert :
        (k : ℕ) (ts : List (Timer A))
        → All (λ u. k ≤ u.expire_at) (insert_timer n ts)
        → k ≤ n.expire_at
    unfolding insert_timer insert_index insert_at
    All-of-insert k [] a = a.0
    All-of-insert k (t ∷ []) a = a.1.0
    All-of-insert k (t ∷ u ∷ ts) a = elim (Bool-cases (leb n.expire_at t.expire_at)) [
      | inl e ↦ (rw (e, insert_timer, insert_index) at a).0
      | inr e ↦ All-of-insert k (u ∷ ts) (rw (e, insert_timer, insert_index) at a).1
    ]

    keeps_Sorted :
        (ts : List (Timer A)) → Sorted ts → Fits n.expire_at ts → Sorted (insert_timer n ts)
    unfolding insert_timer insert_index insert_at
    keeps_Sorted [] s f = (tt, tt)
    keeps_Sorted (t ∷ []) s f = ((f, tt), (tt, tt))
    keeps_Sorted (t ∷ u ∷ ts) s f = elim (Bool-cases (leb n.expire_at t.expire_at)) [
      | inl e ↦
          rw (insert_before t u ts e)
            ((ground arith, All-le t.expire_at (u ∷ ts) (ground arith) s.0), s)
      | inr e ↦ rw (insert_behind t u ts e) (
        All-insert t.expire_at (u ∷ ts) (ground arith) s.0,
        keeps_Sorted (u ∷ ts) s.1 (ground arith),
      )
    ]
      where
        All-le :
            (k : ℕ) (us : List (Timer A))
            → n.expire_at ≤ k
            → All (λ v. k ≤ v.expire_at) us
            → All (λ v. n.expire_at ≤ v.expire_at) us
        All-le k [] h a = tt
        All-le k (v ∷ us) h a = (omega arith, All-le k us h a.1)

    only_if_Fits : (ts : List (Timer A)) → Sorted (insert_timer n ts) → Fits n.expire_at ts
    unfolding insert_timer insert_index insert_at
    only_if_Fits [] s = tt
    only_if_Fits (t ∷ []) s = s.0.0
    only_if_Fits (t ∷ u ∷ ts) s = elim (Bool-cases (leb n.expire_at t.expire_at)) [
      | inl e ↦ inl (ground arith)
      | inr e ↦ inr (only_if_Fits (u ∷ ts) (rw (insert_behind t u ts e) at s).1)
    ]

    -- An insertion into a sorted list of timers keeps it sorted exactly if the new timer does not
    -- expire between the last but one and the last, or before the only one.
    pub insert_timer-Sorted :
        (ts : List (Timer A)) → Sorted ts → Sorted (insert_timer n ts) ↔ Fits n.expire_at ts
    insert_timer-Sorted ts s = (only_if_Fits ts, keeps_Sorted ts s)
