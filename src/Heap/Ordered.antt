-- ===== src/Heap/Ordered.antt =====
-- The free list's invariant, and what the splicing of an allocation does to it.
use etaos.Prelude.{
  ℕ, zero, suc, ◌+◌, ◌≤◌, ◌<◌, ◌≡◌, refl, Bool, false, some, List, [], ◌∷◌, ◌++◌, ◌&&◌, ◌||◌, leb,
  ltb, get_elem?, arith,
}
use etaos.Heap.{Node, Layout, node_size, size_max, splice}

-- The nodes rise, none touches the next, each has room for its header and ends below the top of the
-- address space. All of it lies above `lo`.
abbrev pub Ordered : Layout → ℕ → List Node → Type 0
Ordered l lo [] = Unit {0}
Ordered l lo (n ∷ ns) =
    (lo < n.addr)
    × (node_size l ≤ n.size)
    × (n.addr + n.size < size_max)
    × Ordered l (n.addr + n.size) ns

-- The free bytes, as a set: what the heap means, with the nodes forgotten.
abbrev pub within : Node → ℕ → Bool
within n b = leb n.addr b && ltb b (n.addr + n.size)

unfoldable pub covers : List Node → ℕ → Bool
covers [] b = false
covers (n ∷ ns) b = within n b || covers ns b

unfoldable pub total : List Node → ℕ
total [] = 0
total (n ∷ ns) = n.size + total ns

pub Ordered-le :
    (l : Layout) (lo lo' : ℕ) (xs : List Node) → lo' ≤ lo → Ordered l lo xs → Ordered l lo' xs
Ordered-le l lo lo' [] h o = tt
Ordered-le l lo lo' (n ∷ ns) h o = (omega arith, o.1, o.2, o.3)

module _ (l : Layout) (n : Node) where
  -- A node of an ordered list is in range.
  pub Ordered-get :
      (xs : List Node) (i lo : ℕ)
      → get_elem? xs i ≡ some n
      → Ordered l lo xs
      → (lo < n.addr) × (node_size l ≤ n.size) × (n.addr + n.size < size_max)
  Ordered-get [] i lo e o = ground arith
  Ordered-get (x ∷ xs) zero lo e o = ground arith
  Ordered-get (x ∷ xs) (suc i) lo e o = ground (arith, Ordered-get xs i (x.addr + x.size) e o.3)

  pub splice_tail-Ordered :
      (n' : Node) (xs : List Node) (i lo : ℕ)
      → n.addr ≤ n'.addr
      → n'.addr + n'.size ≡ n.addr + n.size
      → node_size l ≤ n'.size
      → get_elem? xs i ≡ some n
      → Ordered l lo xs
      → Ordered l lo (splice i (n' ∷ []) xs)
  unfolding splice
  splice_tail-Ordered n' [] i lo p q r e o = tt
  splice_tail-Ordered n' (x ∷ xs) zero lo p q r e o =
      ground (arith, Ordered-le l (x.addr + x.size) (n'.addr + n'.size) xs)
  splice_tail-Ordered n' (x ∷ xs) (suc i) lo p q r e o =
      (o.0, o.1, o.2, splice_tail-Ordered n' xs i (x.addr + x.size) p q r e o.3)

  pub splice_whole-Ordered :
      (xs : List Node) (i lo : ℕ)
      → get_elem? xs i ≡ some n
      → Ordered l lo xs
      → Ordered l lo (splice i [] xs)
  unfolding splice
  splice_whole-Ordered [] i lo e o = tt
  splice_whole-Ordered (x ∷ xs) zero lo e o = Ordered-le l (x.addr + x.size) lo xs (omega arith) o.3
  splice_whole-Ordered (x ∷ xs) (suc i) lo e o =
      (o.0, o.1, o.2, splice_whole-Ordered xs i (x.addr + x.size) e o.3)

pub total-splice :
    (n : Node) (ys xs : List Node) (i : ℕ)
    → get_elem? xs i ≡ some n
    → total (splice i ys xs) + n.size ≡ total xs + total ys
unfolding splice total
total-splice n ys [] i e = ground arith
total-splice n ys (x ∷ xs) zero e = ground (arith, total-append ys xs)
  where
    total-append : (us vs : List Node) → total (us ++ vs) ≡ total us + total vs
    total-append [] vs = omega arith
    total-append (u ∷ us) vs = omega (arith, total-append us vs)
total-splice n ys (x ∷ xs) (suc i) e = omega (arith, total-splice n ys xs i e)

-- No byte below an ordered list's bound is covered.
pub covers_below :
    (l : Layout) (lo : ℕ) (xs : List Node) (b : ℕ) → b ≤ lo → Ordered l lo xs → covers xs b ≡ false
unfolding covers
covers_below l lo [] b h o = refl
covers_below l lo (n ∷ ns) b h o = ground (arith, covers_below l (n.addr + n.size) ns b)
