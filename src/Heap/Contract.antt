-- ===== src/Heap/Contract.antt =====
-- The contract of `raw_mm_heap_alloc` and `raw_mm_heap_free` together: the free bytes as a set.
use etaos.Prelude.{
  ℕ, ◌+◌, ◌*◌, some_inj, ◌≤◌, ◌<◌, ◌≡◌, ◌≢◌, ◌↔◌, refl, subst, length, ℕ_discrete, dec_lt, sym, ap,
  ◌∙◌, ◌⊎◌, inl, inr, Option, none, some, List, [], ◌∷◌, get_elem?, false, arith, leb, ◌==◌,
  Bool-cases,
}
use etaos.Heap.{
  Node, Layout, Memory, Fit, update, Comparator, ok, node_size, heap_min, size_max, sub_size,
  release, raw_heap_free, prep_user_area, splice, tail_node, is_split, take_fit, search_fit,
  raw_heap_alloc, needed, heap_available, heap_add_block, best_fit_compare, first_fit_compare,
  worst_fit_compare,
}
use etaos.Heap.Ordered.{Ordered, Ordered-get, total, splice_tail-Ordered, splice_whole-Ordered}
use etaos.Heap.Search.{
  IsFit, search_fit-IsFit, TakesFirst, TooSmall, search_fit-none, search_fit_small, IsLeast,
  IsLargest, take, best_fit-IsLeast, first_fit-TooSmall, worst_fit-IsLargest,
}
use etaos.Heap.Free.{raw_heap_free_ok, Apart, region-prep, block_at, Released, release-Released}
use etaos.Heap.Alloc.{
  rest, splice_tail-Apart, splice_whole-Apart, release-splice_tail, release-splice_whole,
}

-- What an allocation of `need` bytes leaves: the block at `f`, which was free and is no more.
pub record Allocated (l : Layout) (need f : ℕ) (m m' : Memory) : Type 0 where
  pub ordered : Ordered l 0 m'.free_list
  pub in_range : (0 < f) × (f + m'.header f < size_max)
  pub large : (need ≤ m'.header f) × (node_size l ≤ m'.header f)
  pub apart : Apart (block_at m' f) m'.free_list
  pub back : release (block_at m' f) m'.free_list ≡ some m.free_list
  pub others : (a : ℕ) → a ≢ f → m'.header a ≡ m.header a

update_self : (h : ℕ → ℕ) (a v : ℕ) → update h a v a ≡ v
update_self h a v = ground arith

tail_node-rest :
    (l : Layout) (need : ℕ) (n : Node)
    → need ≤ n.size
    → n.addr + n.size < size_max
    → tail_node need n ≡ rest l n need
tail_node-rest l need n h r = ground arith

module _ (l : Layout) (need : ℕ) (m : Memory) (fit : Fit) where
  open fit use {index, node}

  abbrev split_memory : Memory
  split_memory = record {
    free_list = splice index (rest l node need ∷ []) m.free_list;
    header = update m.header node.addr need;
  }

  abbrev whole_memory : Memory
  whole_memory = record {
    free_list = splice index [] m.free_list;
    header = update m.header node.addr node.size;
  }

  split-Allocated :
      node_size l ≤ need
      → get_elem? m.free_list index ≡ some node
      → need + heap_min l ≤ node.size
      → Ordered l 0 m.free_list
      → Allocated l need node.addr m split_memory
  split-Allocated nz e h o =
      let (p, q, r) = Ordered-get l node m.free_list index 0 e o in
      record {
        ordered =
            splice_tail-Ordered l node (rest l node need) m.free_list index 0 (omega arith)
              (omega arith) (omega arith) e o;
        in_range = (p, rw update_self (omega arith));
        large = (rw update_self (omega arith), rw update_self nz);
        apart =
            rw update_self (splice_tail-Apart l node need m.free_list index 0 (omega arith) e o);
        back =
            rw update_self
              (release-splice_tail l node need m.free_list index 0 (omega arith) (omega arith) e o);
        others = λ a ne. ground arith;
      }

  whole-Allocated :
      node_size l ≤ need
      → get_elem? m.free_list index ≡ some node
      → need ≤ node.size
      → Ordered l 0 m.free_list
      → Allocated l need node.addr m whole_memory
  whole-Allocated nz e h o =
      let (p, q, r) = Ordered-get l node m.free_list index 0 e o in
      record {
        ordered = splice_whole-Ordered l node m.free_list index 0 e o;
        in_range = (p, rw update_self (omega arith));
        large = (rw update_self (omega arith), rw update_self q);
        apart = rw update_self (splice_whole-Apart l node need m.free_list index 0 e o);
        back =
            rw update_self (release-splice_whole l node need m.free_list index 0 (omega arith) e o);
        others = λ a ne. ground arith;
      }

  take_fit-Allocated :
      node_size l ≤ need
      → get_elem? m.free_list index ≡ some node
      → need ≤ node.size
      → Ordered l 0 m.free_list
      → Allocated l need node.addr m (take_fit l need fit m)
  unfolding take_fit is_split
  take_fit-Allocated nz e h o =
      let (p, q, r) = Ordered-get l node m.free_list index 0 e o in
      elim (Bool-cases (leb (heap_min l) (sub_size node.size need))) [
        | inl split ↦
            rw (split, tail_node-rest l need node h r) (split-Allocated nz e (ground arith) o)
        | inr whole ↦ rw whole (whole-Allocated nz e h o)
      ]

needed-ge : (l : Layout) (size : ℕ) → node_size l ≤ needed l size
unfolding needed
needed-ge l size = ground arith

-- An allocation from an ordered free list that succeeds returns the user pointer of a block of the
-- free bytes that is at least as large as needed. The rest of the list stays ordered and lies apart
-- from the block, no other header changes, and releasing the block would give back the list of
-- before.
pub raw_heap_alloc-some :
    (l : Layout) (compare : Comparator) (size : ℕ) (m m' : Memory) (ptr : ℕ)
    → Ordered l 0 m.free_list
    → raw_heap_alloc l compare size m ≡ (some ptr, m')
    → (f : ℕ) × (ptr ≡ prep_user_area l f) × Allocated l (needed l size) f m m'
unfolding raw_heap_alloc
raw_heap_alloc-some l compare size m m' ptr o e =
    go (search_fit compare (needed l size) 0 none m.free_list)
      (search_fit-IsFit compare (needed l size) m.free_list m.free_list 0 none refl tt) e
  where
    go :
        (fit : Option Fit)
        → IsFit (needed l size) m.free_list fit
        → ◌≡◌ {A = Option ℕ × Memory}
            (elim fit [
              | none ↦ (none, m)
              | some fit ↦ (some (prep_user_area l fit.node.addr), take_fit l (needed l size) fit m)
            ])
            (some ptr, m')
        → (f : ℕ) × (ptr ≡ prep_user_area l f) × Allocated l (needed l size) f m m'
    go none h e = ground arith
    go (some fit) h e =
        let eq : take_fit l (needed l size) fit m ≡ m' = ap (λ r. r.1) e in
        (
          fit.node.addr,
          ground arith,
          rw (← eq) (take_fit-Allocated l (needed l size) m fit (needed-ge l size) h.0 h.1 o),
        )

-- The block of an allocation was free, and is free no more: the old list is the new one with the
-- block released into it.
pub Allocated-Released :
    (l : Layout) (need f : ℕ) (m m' : Memory)
    → Allocated l need f m m'
    → Released l 0 (block_at m' f) m'.free_list m.free_list
Allocated-Released l need f m m' v =
    let (ys, e, r) =
      release-Released l 0 (block_at m' f) m'.free_list v.in_range.0 v.large.1 v.in_range.1 v.apart
        v.ordered in
    subst (Released l 0 (block_at m' f) m'.free_list) (some_inj ys m.free_list (sym e ∙ v.back)) r

-- With a comparator that takes any node where it has none yet, an allocation fails exactly if every
-- node of the free list is smaller than what is needed.
pub raw_heap_alloc-none :
    (l : Layout) (compare : Comparator) (size : ℕ) (m : Memory)
    → TakesFirst compare
    → ((raw_heap_alloc l compare size m).0 ≡ none) ↔ TooSmall (needed l size) m.free_list
unfolding raw_heap_alloc
raw_heap_alloc-none l compare size m t = (fails, succeeds)
  where
    fails : (raw_heap_alloc l compare size m).0 ≡ none → TooSmall (needed l size) m.free_list
    fails e = search_fit-none compare (needed l size) 0 m.free_list t (ground arith)

    succeeds : TooSmall (needed l size) m.free_list → (raw_heap_alloc l compare size m).0 ≡ none
    succeeds h =
        rw (search_fit_small compare (needed l size) 0 none m.free_list h, raw_heap_alloc) refl

prep_user_area_ne :
    (l : Layout) (f : ℕ)
    → l.guard_bytes ≡ 0
    → 0 < f
    → f + l.overhead < size_max
    → (prep_user_area l f == 0) ≡ false
unfolding prep_user_area
prep_user_area_ne l f g z h = ground arith

free_back :
    (l : Layout) (need f : ℕ) (m m' : Memory)
    → l.guard_bytes ≡ 0
    → Allocated l need f m m'
    → raw_heap_free l (prep_user_area l f) m' ≡ (ok, record m' { free_list = m.free_list })
unfolding raw_heap_free
free_back l need f m m' g v =
    ground (arith, v.back, v.in_range, v.large, region-prep l f g, prep_user_area_ne l f g)

-- Without guard bytes, releasing the block of an allocation from an ordered free list succeeds and
-- gives back the free list of before.
pub raw_heap_free-raw_heap_alloc :
    (l : Layout) (compare : Comparator) (size : ℕ) (m m' : Memory) (ptr : ℕ)
    → l.guard_bytes ≡ 0
    → Ordered l 0 m.free_list
    → raw_heap_alloc l compare size m ≡ (some ptr, m')
    → raw_heap_free l ptr m' ≡ (ok, record m' { free_list = m.free_list })
raw_heap_free-raw_heap_alloc l compare size m m' ptr g o e =
    let (f, p, v) = raw_heap_alloc-some l compare size m m' ptr o e in
    rw p (free_back l (needed l size) f m m' g v)

-- The node that best fit takes is large enough, and no node that is large enough is smaller.
pub best_fit_lem :
    (need : ℕ) (xs : List Node) (f : Fit)
    → search_fit best_fit_compare need 0 none xs ≡ some f
    → (get_elem? xs f.index ≡ some f.node) × (need ≤ f.node.size) × IsLeast need f.node.size xs
best_fit_lem need xs f e =
    let (at, large) =
      subst (IsFit need xs) e (search_fit-IsFit best_fit_compare need xs xs 0 none refl tt) in
    (at, large, (best_fit-IsLeast need 0 none f xs large e).0)

-- The node that first fit takes is large enough, and every node before it is too small.
pub first_fit_lem :
    (need : ℕ) (xs : List Node) (f : Fit)
    → search_fit first_fit_compare need 0 none xs ≡ some f
    → (get_elem? xs f.index ≡ some f.node) × (need ≤ f.node.size) × TooSmall need (take f.index xs)
first_fit_lem need xs f e =
    let (at, large) =
      subst (IsFit need xs) e (search_fit-IsFit first_fit_compare need xs xs 0 none refl tt) in
    (at, large, first_fit-TooSmall need 0 f xs xs refl tt e)

-- The node that worst fit takes is large enough, and it is the largest of all, or of exactly the
-- size that is needed.
pub worst_fit_lem :
    (need : ℕ) (xs : List Node) (f : Fit)
    → search_fit worst_fit_compare need 0 none xs ≡ some f
    → (get_elem? xs f.index ≡ some f.node)
      × (need ≤ f.node.size)
      × ((f.node.size ≡ need) ⊎ IsLargest f.node.size xs)
worst_fit_lem need xs f e =
    let (at, large) =
      subst (IsFit need xs) e (search_fit-IsFit worst_fit_compare need xs xs 0 none refl tt) in
    (
      at,
      large,
      elim (ℕ_discrete f.node.size need) [
        | yes exact ↦ inl exact
        | no ne ↦ inr ((worst_fit-IsLargest need 0 none f xs large ne e).0)
      ],
    )

-- The bytes that a request takes, for an overhead and guards of at most four bytes: at least the
-- request with its overhead if that sum is a `size_t`; otherwise it wraps, and the request takes
-- fewer bytes than it asks for.
pub needed_lem :
    (l : Layout) (size : ℕ)
    → l.overhead ≤ 4
    → l.guard_bytes ≤ 4
    → size < size_max
    → let sum = size + l.overhead + 2 * l.guard_bytes in
      ((sum < size_max) × (sum ≤ needed l size)) ⊎ ((size_max ≤ sum) × (needed l size < size))
unfolding needed
needed_lem l size a b c = elim (dec_lt (size + l.overhead + 2 * l.guard_bytes) size_max) [
  | yes h ↦ inl (h, ground arith)
  | no h ↦ inr (omega arith, ground arith)
]

Ordered-total :
    (l : Layout) (lo : ℕ) (xs : List Node)
    → lo < size_max
    → Ordered l lo xs
    → lo + total xs < size_max
unfolding total
Ordered-total l lo [] h o = omega arith
Ordered-total l lo (n ∷ ns) h o = omega (arith, Ordered-total l (n.addr + n.size) ns o.2 o.3)

available_total :
    (l : Layout) (lo : ℕ) (xs : List Node)
    → lo < size_max
    → Ordered l lo xs
    → heap_available l xs + l.overhead * length xs ≡ total xs
unfolding heap_available total
available_total l lo [] h o = omega arith
available_total l lo (n ∷ ns) h o = grind (
  arith,
  Ordered-total l (n.addr + n.size) ns o.2 o.3,
  available_total l (n.addr + n.size) ns o.2 o.3,
)

-- `mm_heap_available` of an ordered free list is the number of free bytes, less the overhead of
-- each node.
pub heap_available_lem :
    (l : Layout) (xs : List Node)
    → Ordered l 0 xs
    → heap_available l xs + l.overhead * length xs ≡ total xs
heap_available_lem l xs o = available_total l 0 xs (omega arith) o

-- Without guard bytes, a memory region that lies apart from an ordered free list and has room for a
-- node joins the list, which stays ordered and covers those bytes too.
pub heap_add_block_lem :
    (l : Layout) (addr size : ℕ) (m : Memory)
    → l.guard_bytes ≡ 0
    → 0 < addr
    → node_size l ≤ size
    → addr + size < size_max
    → Apart (record { addr = addr; size = size }) m.free_list
    → Ordered l 0 m.free_list
    → Released l 0
        (record { addr = addr; size = size })
        m.free_list
        (heap_add_block l addr size m).free_list
unfolding heap_add_block
heap_add_block_lem l addr size m g p q r a o =
    let h = record m { header = update m.header addr size } in
    let (ys, e, v) =
      raw_heap_free_ok l h addr g p (rw update_self q) (rw update_self r) (rw update_self a) o in
    rw (e, heap_add_block) (rw update_self at v)
