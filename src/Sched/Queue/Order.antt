-- ===== src/Sched/Queue/Order.antt =====
-- Where the insertions put a thread, and that the queues stay sorted.
use etaos.Prelude.{
  ℕ, ◌≤◌, ◌<◌, ◌≡◌, refl, ap, inl, inr, fun_ext, subst, sym, ◌∙◌, Bool, true, false, not, Option,
  none, some, List, [], ◌∷◌, ◌++◌, All, leb, arith, Bool-cases,
}
use etaos.Sched.Thread.{Threads, Root, modify, effective_prio}
use etaos.Sched.Queue.{
  chain, prio_of, place, successor, inherit, queue_insert, rr_insert, fifo_insert, edf_insert,
  edf_deadline,
}

-- Ascending by a key.
abbrev pub Sorted : (ℕ → ℕ) → List ℕ → Type 0
Sorted key [] = Unit {0}
Sorted key (x ∷ xs) = All (λ y. key x ≤ key y) xs × Sorted key xs

module _ {κ μ} {P : ℕ → Type κ} {Q : ℕ → Type μ} where
  pub All-map : (xs : List ℕ) → ((x : ℕ) → P x → Q x) → All P xs → All Q xs
  All-map [] f h = tt
  All-map (x ∷ xs) f h = (f x h.0, All-map xs f h.1)

-- A place in a list: what stays before it and what comes behind it.
pub record Placed (key : ℕ → ℕ) (before behind : ℕ → Type 0) (tp : ℕ) (xs ys : List ℕ)
    : Type 0 where
  pub pre : List ℕ
  pub post : List ℕ
  pub split : xs ≡ pre ++ post
  pub placed : ys ≡ pre ++ (tp ∷ post)
  pub all_before : All before pre
  pub all_behind : All behind post

module _ (key : ℕ → ℕ) (stays : ℕ → Bool) (tp : ℕ) (before behind : ℕ → Type 0)
    (stay : (x : ℕ) → stays x ≡ true → before x)
    (stop : (x y : ℕ) → stays x ≡ false → key x ≤ key y → behind y) where
  place-Placed : (xs : List ℕ) → Sorted key xs → Placed key before behind tp xs (place stays tp xs)
  unfolding place
  place-Placed [] s = record {
    pre = [];
    post = [];
    split = refl;
    placed = refl;
    all_before = tt;
    all_behind = tt;
  }
  place-Placed (x ∷ xs) s = elim (Bool-cases (stays x)) [
    | inl e ↦
        let r = place-Placed xs s.1 in
        record {
          pre = x ∷ r.pre;
          post = r.post;
          split = ap (◌∷◌ x) r.split;
          placed = rw (e, place) (ap (◌∷◌ x) r.placed);
          all_before = (stay x e, r.all_before);
          all_behind = r.all_behind;
        }
    | inr e ↦ record {
      pre = [];
      post = x ∷ xs;
      split = refl;
      placed = rw (e, place) refl;
      all_before = tt;
      all_behind = (stop x x e (omega arith), All-map xs (λ y h. stop x y e h) s.0);
    }
  ]

-- No part of an insertion changes a priority or a deadline.
inherit-prio :
    (tp : ℕ) (n : Option ℕ) (th : Threads) (t : ℕ) → prio_of (inherit tp n th) t ≡ prio_of th t
unfolding inherit effective_prio
inherit-prio tp none th t = refl
inherit-prio tp (some n) th t = ground arith

-- `rr_shared_queue_insert` into a queue sorted by priority puts the thread behind all of the same
-- or a more urgent priority, and before all that are less urgent.
pub rr_insert-Placed :
    (root : Root) (tp : ℕ) (xs : List ℕ) (th : Threads)
    → Sorted (prio_of th) xs
    → (ys : List ℕ) × ((rr_insert root tp (chain xs) th).0 ≡ chain ys)
      × Placed
          (prio_of th)
          (λ x. prio_of th x ≤ prio_of th tp)
          (λ x. prio_of th tp < prio_of th x)
          tp
          xs
          ys
unfolding rr_insert
rr_insert-Placed root tp xs th s = (
  place (λ x. leb (prio_of th x) (prio_of th tp)) tp xs,
  refl,
  place-Placed (prio_of th) _ tp _ _ (λ x e. ground arith) (λ x y e h. ground arith) xs s,
)

-- `fifo_queue_insert` appends.
place_all : (tp : ℕ) (xs : List ℕ) → place (λ x. true) tp xs ≡ xs ++ (tp ∷ [])
unfolding place
place_all tp [] = refl
place_all tp (x ∷ xs) = ap (◌∷◌ x) (place_all tp xs)

pub fifo_insert-append :
    (root : Root) (tp : ℕ) (xs : List ℕ) (th : Threads)
    → (fifo_insert root tp (chain xs) th).0 ≡ chain (xs ++ (tp ∷ []))
unfolding fifo_insert
fifo_insert-append root tp xs th = ap chain (place_all tp xs)

abbrev pub deadline_of : Threads → ℕ → ℕ
deadline_of th t = (th t).deadline

-- `raw_edf_insert` into a queue sorted by deadlines puts the thread, under its new deadline, behind
-- all with an earlier deadline, and before all others: it overtakes those of the same deadline.
pub edf_insert-Placed :
    (now : ℕ) (root : Root) (tp : ℕ) (xs : List ℕ) (th : Threads)
    → let d = edf_deadline now (th tp) in
      let set = modify tp (λ t. record t { deadline = d }) th in
      Sorted (deadline_of set) xs
      → (ys : List ℕ) × ((edf_insert now root tp (chain xs) th).0 ≡ chain ys)
        × Placed
            (deadline_of set)
            (λ x. deadline_of set x < d)
            (λ x. d ≤ deadline_of set x)
            tp
            xs
            ys
unfolding edf_insert
edf_insert-Placed now root tp xs th s =
    let d = edf_deadline now (th tp) in
    let set = modify tp (λ t. record t { deadline = d }) th in
    (
      place (λ x. not (leb d (deadline_of set x))) tp xs,
      refl,
      place-Placed (deadline_of set) _ tp _ _ (λ x e. ground arith) (λ x y e h. ground arith) xs s,
    )

module _ (key : ℕ → ℕ) (stays : ℕ → Bool) (tp : ℕ)
    (stay : (x : ℕ) → stays x ≡ true → key x ≤ key tp)
    (stop : (x : ℕ) → stays x ≡ false → key tp ≤ key x) where
  place-All :
      (k : ℕ) (xs : List ℕ)
      → k ≤ key tp
      → All (λ y. k ≤ key y) xs
      → All (λ y. k ≤ key y) (place stays tp xs)
  unfolding place
  place-All k [] h a = (h, tt)
  place-All k (x ∷ xs) h a = ground (arith, place-All k xs h)

  place-Sorted : (xs : List ℕ) → Sorted key xs → Sorted key (place stays tp xs)
  unfolding place
  place-Sorted [] s = (tt, tt)
  place-Sorted (x ∷ xs) s = elim (Bool-cases (stays x)) [
    | inl e ↦ rw (e, place) (place-All (key x) xs (stay x e) s.0, place-Sorted xs s.1)
    | inr e ↦ rw (e, place) ((stop x e, All-map xs (λ y h. omega (arith, stop x e)) s.0), s)
  ]

prio_of-insert :
    (root : Root) (stays : ℕ → Bool) (tp : ℕ) (xs : List ℕ) (th : Threads) (t : ℕ)
    → prio_of (queue_insert root stays tp (chain xs) th).1 t ≡ prio_of th t
unfolding queue_insert effective_prio
prio_of-insert root stays tp xs th t =
    inherit-prio tp (successor stays xs)
      (modify tp (λ t. record t { ec = 0; queue = some root }) th) t
    ∙ ground arith

-- `rr_shared_queue_insert` keeps a queue sorted by priority.
pub rr_insert-Sorted :
    (root : Root) (tp : ℕ) (xs : List ℕ) (th : Threads)
    → Sorted (prio_of th) xs
    → (ys : List ℕ) × ((rr_insert root tp (chain xs) th).0 ≡ chain ys)
      × Sorted (prio_of (rr_insert root tp (chain xs) th).1) ys
unfolding rr_insert
rr_insert-Sorted root tp xs th s =
    let stays : ℕ → Bool = λ x. leb (prio_of th x) (prio_of th tp) in
    (
      place stays tp xs,
      refl,
      subst (λ key. Sorted key (place stays tp xs))
          (fun_ext (λ t. sym (prio_of-insert root stays tp xs th t)))
          (place-Sorted (prio_of th) stays tp (λ x e. ground arith) (λ x e. ground arith) xs s),
    )
