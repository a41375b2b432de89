-- ===== src/Heap/Free.antt =====
-- `raw_mm_heap_free`: a block that is not free joins the free list.
use etaos.Prelude.{
  ℕ, ◌+◌, ◌-◌, ◌≤◌, ◌<◌, ◌≡◌, refl, ◌⊎◌, inl, inr, none, some, List, [], ◌∷◌, All, true, arith, ltb,
  ◌==◌, ◌||◌, Bool-cases,
}
use etaos.Heap.{
  Node, Layout, Memory, ok, einval, node_size, size_max, add_size, merge_next, release,
  region_to_node, raw_heap_free, prep_user_area,
}
use etaos.Heap.Ordered.{Ordered, within, covers, total, covers_below}

-- The block meets no node of the list.
abbrev pub Apart : Node → List Node → Type 0
Apart f = All λ n. (f.addr + f.size ≤ n.addr) ⊎ (n.addr + n.size ≤ f.addr)

-- The list after a release: the invariant holds, and the block's bytes are added to the free ones.
pub record Released (l : Layout) (lo : ℕ) (f : Node) (xs ys : List Node) : Type 0 where
  pub ordered : Ordered l lo ys
  pub counted : total ys ≡ total xs + f.size
  pub covered : (b : ℕ) → covers ys b ≡ within f b || covers xs b

-- A node put in front of a list that begins at its end or behind it.
merge_next-Released :
    (l : Layout) (lo : ℕ) (f : Node) (xs : List Node)
    → lo < f.addr
    → node_size l ≤ f.size
    → f.addr + f.size < size_max
    → Apart f xs
    → Ordered l f.addr xs
    → Released l lo f xs (merge_next f xs)
unfolding merge_next total covers
merge_next-Released l lo f [] p q r a o = record {
  ordered = (p, q, r, tt);
  counted = omega arith;
  covered = λ b. refl;
}
merge_next-Released l lo f (n ∷ ns) p q r a o = record {
  ordered = ground arith;
  counted = ground arith;
  covered = λ b. ground arith;
}

-- The block behind the node `n`, which takes it in, and perhaps the next node too.
append-Released :
    (l : Layout) (lo : ℕ) (f n : Node) (ns : List Node)
    → n.addr + n.size ≡ f.addr
    → node_size l ≤ f.size
    → f.addr + f.size < size_max
    → Apart f (n ∷ ns)
    → Ordered l lo (n ∷ ns)
    → Released l lo f (n ∷ ns) (merge_next (record n { size = add_size n.size f.size }) ns)
unfolding merge_next total covers
append-Released l lo f n [] e q r a o = record {
  ordered = omega arith;
  counted = omega arith;
  covered = λ b. ground arith;
}
append-Released l lo f n (m ∷ ns) e q r a o = record {
  ordered = ground arith;
  counted = ground arith;
  covered = λ b. ground arith;
}

cons-Released :
    (l : Layout) (lo : ℕ) (f n : Node) (ns ys : List Node)
    → Ordered l lo (n ∷ ns)
    → Released l (n.addr + n.size) f ns ys
    → Released l lo f (n ∷ ns) (n ∷ ys)
unfolding total covers
cons-Released l lo f n ns ys o v = record {
  ordered = (o.0, o.1, o.2, v.ordered);
  counted = omega (arith, v.counted);
  covered = λ b. ground (arith, v.covered b);
}

singleton-Released :
    (l : Layout) (lo : ℕ) (f : Node)
    → lo < f.addr
    → node_size l ≤ f.size
    → f.addr + f.size < size_max
    → Released l lo f [] (f ∷ [])
unfolding total covers
singleton-Released l lo f p q r = record {
  ordered = (p, q, r, tt);
  counted = omega arith;
  covered = λ b. refl;
}

-- A block apart from the free list is taken into it.
pub release-Released :
    (l : Layout) (lo : ℕ) (f : Node) (xs : List Node)
    → lo < f.addr
    → node_size l ≤ f.size
    → f.addr + f.size < size_max
    → Apart f xs
    → Ordered l lo xs
    → (ys : List Node) × (release f xs ≡ some ys) × Released l lo f xs ys
unfolding release
release-Released l lo f [] p q r a o = (f ∷ [], refl, singleton-Released l lo f p q r)
release-Released l lo f (n ∷ ns) p q r a o = elim (Bool-cases (add_size n.addr n.size == f.addr)) [
  | inl e ↦ (
    merge_next (record n { size = add_size n.size f.size }) ns,
    ground arith,
    append-Released l lo f n ns (ground arith) q r a o,
  )
  | inr e ↦ elim (Bool-cases (ltb f.addr n.addr)) [
    | inl below ↦ (
      merge_next f (n ∷ ns),
      ground arith,
      merge_next-Released l lo f (n ∷ ns) p q r a (ground arith),
    )
    | inr above ↦
        let (ys, eq, v) = release-Released l (n.addr + n.size) f ns (ground arith) q r a.1 o.3 in
        (n ∷ ys, ground (arith, eq), cons-Released l lo f n ns ys o v)
  ]
]

-- A block that begins inside a free node is refused.
pub release_inside :
    (l : Layout) (lo : ℕ) (f : Node) (xs : List Node)
    → covers xs f.addr ≡ true
    → Ordered l lo xs
    → release f xs ≡ none
unfolding release covers
release_inside l lo f [] c o = ground arith
release_inside l lo f (n ∷ ns) c o =
    ground
      (arith, release_inside l (n.addr + n.size) f ns, covers_below l (n.addr + n.size) ns f.addr)

-- The pointer that a block's user holds leads back to the block, if there are no guards.
pub region-prep :
    (l : Layout) (f : ℕ)
    → l.guard_bytes ≡ 0
    → f + l.overhead < size_max
    → region_to_node l (prep_user_area l f) ≡ f
unfolding region_to_node prep_user_area
region-prep l f g h = ground arith

-- With guards it does not: the pointer skips one `int` of two bytes, and the way back four.
pub region-prep_guarded :
    (l : Layout) (f : ℕ)
    → l.guard_bytes ≡ 4
    → 2 ≤ f
    → f + l.overhead + 2 < size_max
    → region_to_node l (prep_user_area l f) ≡ f - 2
unfolding region_to_node prep_user_area
region-prep_guarded l f g h k = ground arith

abbrev pub block_at : Memory → ℕ → Node
block_at m f = record { addr = f; size = m.header f }

-- Without guard bytes, releasing a block with room for a node that lies apart from an ordered free
-- list succeeds. The list stays ordered, it covers the block's bytes and those it covered before
-- and no others, and no header changes.
pub raw_heap_free_ok :
    (l : Layout) (m : Memory) (f : ℕ)
    → l.guard_bytes ≡ 0
    → 0 < f
    → node_size l ≤ m.header f
    → f + m.header f < size_max
    → Apart (block_at m f) m.free_list
    → Ordered l 0 m.free_list
    → (ys : List Node) × (raw_heap_free l (prep_user_area l f) m
        ≡ (ok, record m { free_list = ys }))
      × Released l 0 (block_at m f) m.free_list ys
unfolding raw_heap_free prep_user_area
raw_heap_free_ok l m f g p q r a o =
    let (ys, e, v) = release-Released l 0 (block_at m f) m.free_list p q r a o in
    (ys, ground (arith, region-prep l f g), v)

-- A pointer to a block that begins inside a node of an ordered free list, as a second release has,
-- is refused, and so is the null pointer. Neither changes anything.
pub raw_heap_free-einval :
    (l : Layout) (m : Memory) (block : ℕ)
    → Ordered l 0 m.free_list
    → ((block ≡ 0) ⊎ (covers m.free_list (region_to_node l block) ≡ true))
    → raw_heap_free l block m ≡ (einval, m)
unfolding raw_heap_free
raw_heap_free-einval l m block o (inl e) = ground arith
raw_heap_free-einval l m block o (inr c) =
    ground (arith, release_inside l 0 (block_at m (region_to_node l block)) m.free_list c o)
