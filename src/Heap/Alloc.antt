-- ===== src/Heap/Alloc.antt =====
-- `raw_mm_heap_alloc`: what an allocation takes from the free list, and that its release gives it back.
use etaos.Prelude.{
  ℕ, zero, suc, ◌+◌, ◌-◌, ◌≤◌, ◌<◌, ◌≡◌, inl, inr, some, List, [], ◌∷◌, get_elem?, arith,
}
use etaos.Heap.{Node, Layout, merge_next, release, splice}
use etaos.Heap.Ordered.{Ordered, Ordered-get}
use etaos.Heap.Free.{Apart}

Ordered-Apart :
    (l : Layout) (f : Node) (lo : ℕ) (xs : List Node)
    → f.addr + f.size ≤ lo
    → Ordered l lo xs
    → Apart f xs
Ordered-Apart l f lo [] h o = tt
Ordered-Apart l f lo (n ∷ ns) h o =
    (inl (omega arith), Ordered-Apart l f (n.addr + n.size) ns (omega arith) o.3)

module _ (l : Layout) (n : Node) (need : ℕ) where
  abbrev pub front : Node
  front = record { addr = n.addr; size = need }

  abbrev pub rest : Node
  rest = record { addr = n.addr + need; size = n.size - need }

  pub splice_tail-Apart :
      (xs : List Node) (i lo : ℕ)
      → need ≤ n.size
      → get_elem? xs i ≡ some n
      → Ordered l lo xs
      → Apart front (splice i (rest ∷ []) xs)
  unfolding splice
  splice_tail-Apart [] i lo h e o = tt
  splice_tail-Apart (x ∷ xs) zero lo h e o =
      ground (arith, Ordered-Apart l front (x.addr + x.size) xs)
  splice_tail-Apart (x ∷ xs) (suc i) lo h e o = (
    inr (omega (arith, Ordered-get l n xs i (x.addr + x.size) e o.3)),
    splice_tail-Apart xs i (x.addr + x.size) h e o.3,
  )

  pub splice_whole-Apart :
      (xs : List Node) (i lo : ℕ)
      → get_elem? xs i ≡ some n
      → Ordered l lo xs
      → Apart n (splice i [] xs)
  unfolding splice
  splice_whole-Apart [] i lo e o = tt
  splice_whole-Apart (x ∷ xs) zero lo e o = ground (arith, Ordered-Apart l n (x.addr + x.size) xs)
  splice_whole-Apart (x ∷ xs) (suc i) lo e o = (
    inr (omega (arith, Ordered-get l n xs i (x.addr + x.size) e o.3)),
    splice_whole-Apart xs i (x.addr + x.size) e o.3,
  )

  -- The front of a split node goes back before the rest of it.
  pub release-splice_tail :
      (xs : List Node) (i lo : ℕ)
      → 0 < need
      → need < n.size
      → get_elem? xs i ≡ some n
      → Ordered l lo xs
      → release front (splice i (rest ∷ []) xs) ≡ some xs
  unfolding splice release merge_next
  release-splice_tail [] i lo z h e o = ground arith
  release-splice_tail (x ∷ xs) zero lo z h e o = ground arith
  release-splice_tail (x ∷ xs) (suc i) lo z h e o = ground (
    arith,
    Ordered-get l n xs i (x.addr + x.size) e o.3,
    release-splice_tail xs i (x.addr + x.size) z h e o.3,
  )

  pub release-splice_whole :
      (xs : List Node) (i lo : ℕ)
      → 0 < n.size
      → get_elem? xs i ≡ some n
      → Ordered l lo xs
      → release n (splice i [] xs) ≡ some xs
  unfolding splice release merge_next
  release-splice_whole [] i lo z e o = ground arith
  release-splice_whole (x ∷ []) zero lo z e o = ground arith
  release-splice_whole (x ∷ y ∷ xs) zero lo z e o = ground arith
  release-splice_whole (x ∷ xs) (suc i) lo z e o = ground (
    arith,
    Ordered-get l n xs i (x.addr + x.size) e o.3,
    release-splice_whole xs i (x.addr + x.size) z e o.3,
  )
