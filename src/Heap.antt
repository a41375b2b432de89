-- ===== src/Heap.antt =====
-- mm/heap.c and the three fit policies of mm/: the free list, allocation and release.
-- `size_t` and a pointer have 16 bits, as on the AVR, and sums wrap.
pub mod Ordered
pub mod Search
pub mod Free
pub mod Alloc
pub mod Contract
mod Tests
use etaos.Prelude.{
  ℕ, zero, suc, ◌+◌, ◌-◌, ◌*◌, ◌/◌, ◌%◌, Bool, true, false, Option, none, some, List, [], ◌∷◌, ◌++◌,
  ltb, leb, ◌==◌, if◌then◌else◌, ◌&&◌, ◌||◌,
}

-- `struct heap_node` of a free node: where it stands, and its `size`. Its `next` is the list.
pub record Node : Type 0 where
  pub addr : ℕ
  pub size : ℕ

-- The sizes that the build's configuration fixes: HEAP_OVERHEAD (2, or 4 with an owner field), and
-- MM_GUARD_BYTES (0, or 4 with guards).
pub record Layout : Type 0 where
  pub overhead : ℕ
  pub guard_bytes : ℕ

-- `mm_free_list`, and the `size` fields of the nodes that are not on it.
pub record Memory : Type 0 where
  pub free_list : List Node
  pub header : ℕ → ℕ

abbrev pub size_max : ℕ
size_max = 65536

-- `size_t` addition and subtraction.
abbrev pub add_size : ℕ → ℕ → ℕ
add_size a b = (a + b) % size_max

abbrev pub sub_size : ℕ → ℕ → ℕ
sub_size a b = (a + size_max - b) % size_max

-- `sizeof(struct heap_node)`: the overhead and the `next` pointer.
abbrev pub node_size : Layout → ℕ
node_size l = l.overhead + 2

-- HEAP_MIN
abbrev pub heap_min : Layout → ℕ
heap_min l = node_size l + 2 * l.guard_bytes

-- What a comparator says of a node: MM_REJECT_NODE, MM_ACCEPT_NODE, MM_PREFER_NODE.
pub data Verdict : Type 0 where
  reject accept prefer : Verdict

abbrev pub Comparator : Type 0
Comparator = Option Node → Node → Verdict

unfoldable pub best_fit_compare : Comparator
best_fit_compare none current = prefer
best_fit_compare (some prev) current = if ltb current.size prev.size then prefer else reject

unfoldable pub first_fit_compare : Comparator
first_fit_compare prev current = accept

unfoldable pub worst_fit_compare : Comparator
worst_fit_compare none current = prefer
worst_fit_compare (some prev) current = if ltb prev.size current.size then prefer else reject

-- The number of bytes that a request for `size` bytes takes. MM_ALIGNMENT is 1, so that
-- MM_TOP_ALIGN changes nothing.
unfoldable pub needed : Layout → ℕ → ℕ
needed l size =
    let need = add_size (add_size size l.overhead) (2 * l.guard_bytes) in
    if ltb need (node_size l) then node_size l else need

-- `fit` with the number of links before `fpp`.
pub record Fit : Type 0 where
  pub index : ℕ
  pub node : Node

abbrev pub fit_node : Option Fit → Option Node
fit_node none = none
fit_node (some f) = some f.node

abbrev pub is_accept : Verdict → Bool
is_accept accept = true
is_accept prefer = false
is_accept reject = false

abbrev pub is_taken : Verdict → Bool
is_taken reject = false
is_taken accept = true
is_taken prefer = true

-- The search of `raw_mm_heap_alloc`: `i` links are behind `npp`.
unfoldable pub search_fit : Comparator → ℕ → ℕ → Option Fit → List Node → Option Fit
search_fit compare need i fit [] = fit
search_fit compare need i fit (n ∷ ns) =
    let state = compare (fit_node fit) n in
    let chosen = leb need n.size && is_taken state in
    let fit' = if chosen then some (record { index = i; node = n }) else fit in
    let rest = search_fit compare need (suc i) fit' ns in
    if chosen && (n.size == need || is_accept state) then fit' else rest

-- `*npp = ...` at the link behind `i` others: the node there gives way to the list `ys`.
unfoldable pub splice : ℕ → List Node → List Node → List Node
splice i ys [] = []
splice zero ys (x ∷ xs) = ys ++ xs
splice (suc i) ys (x ∷ xs) = x ∷ splice i ys xs

abbrev pub update : (ℕ → ℕ) → ℕ → ℕ → ℕ → ℕ
update h a v b = if b == a then v else h b

-- The end of `raw_mm_heap_alloc`: the block is the front of `fit`, or all of it.
unfoldable pub is_split : Layout → ℕ → Node → Bool
is_split l need fit = leb (heap_min l) (sub_size fit.size need)

abbrev pub tail_node : ℕ → Node → Node
tail_node need fit = record { addr = add_size fit.addr need; size = sub_size fit.size need }

unfoldable pub take_fit : Layout → ℕ → Fit → Memory → Memory
unfolding is_split splice
take_fit l need fit m =
    if is_split l need fit.node
    then record {
      free_list = splice fit.index (tail_node need fit.node ∷ []) m.free_list;
      header = update m.header fit.node.addr need;
    }
    else record {
      free_list = splice fit.index [] m.free_list;
      header = update m.header fit.node.addr fit.node.size;
    }

-- `mm_prep_user_area`. With guards the pointer moves by one `int`, of two bytes.
unfoldable pub prep_user_area : Layout → ℕ → ℕ
prep_user_area l node =
    let next = add_size node l.overhead in if l.guard_bytes == 0 then next else add_size next 2

unfoldable pub region_to_node : Layout → ℕ → ℕ
region_to_node l ptr = sub_size ptr (l.overhead + l.guard_bytes)

-- `raw_mm_heap_alloc`, with `none` for NULL. CONFIG_MM_DESTRUCTIVE_ALLOC is off.
unfoldable pub raw_heap_alloc : Layout → Comparator → ℕ → Memory → Option ℕ × Memory
unfolding search_fit needed take_fit prep_user_area
raw_heap_alloc l compare size m = elim (search_fit compare (needed l size) 0 none m.free_list) [
  | none ↦ (none, m)
  | some fit ↦ (some (prep_user_area l fit.node.addr), take_fit l (needed l size) fit m)
]

pub data Status : Type 0 where
  ok einval : Status

-- A node and the one behind it become one node, if they touch.
unfoldable pub merge_next : Node → List Node → List Node
merge_next n [] = n ∷ []
merge_next n (next ∷ ns) =
    if add_size n.addr n.size == next.addr
    then record n { size = add_size n.size next.size } ∷ ns
    else n ∷ next ∷ ns

-- The walk of `raw_mm_heap_free` over the list; `none` is its -EINVAL.
unfoldable pub release : Node → List Node → Option (List Node)
unfolding merge_next
release f [] = some (f ∷ [])
release f (n ∷ ns) =
    let rest = release f ns in
    if add_size n.addr n.size == f.addr
    then some (merge_next (record n { size = add_size n.size f.size }) ns)
    else if ltb f.addr n.addr
    then some (merge_next f (n ∷ ns))
    else if ltb f.addr (add_size n.addr n.size)
    then none
    else elim rest [ none ↦ none | some ys ↦ some (n ∷ ys) ]

-- `raw_mm_heap_free`; the pointer 0 is NULL.
unfoldable pub raw_heap_free : Layout → ℕ → Memory → Status × Memory
unfolding release region_to_node
raw_heap_free l block m =
    if block == 0
    then (einval, m)
    else let f = region_to_node l block in
      elim (release (record { addr = f; size = m.header f }) m.free_list) [
        | none ↦ (einval, m)
        | some ns ↦ (ok, record m { free_list = ns })
      ]

-- `mm_node_size`
unfoldable pub heap_node_size : Layout → ℕ → Memory → ℕ
unfolding region_to_node
heap_node_size l ptr m = m.header (region_to_node l ptr)

-- `raw_mm_heap_add_block`
unfoldable pub heap_add_block : Layout → ℕ → ℕ → Memory → Memory
unfolding raw_heap_free prep_user_area
heap_add_block l addr size m =
    (raw_heap_free l (prep_user_area l addr) (record m { header = update m.header addr size })).1

-- `raw_mm_heap_available`
unfoldable pub heap_available : Layout → List Node → ℕ
heap_available l [] = 0
heap_available l (n ∷ ns) = add_size (sub_size n.size l.overhead) (heap_available l ns)

-- `raw_mm_heap_alloc_aligned`: the size is rounded up; `a` is a power of two, so that masking with
-- `~(a - 1)` rounds down to a multiple.
unfoldable pub aligned_size : ℕ → ℕ → ℕ
aligned_size size a = add_size size (a - 1) / a * a

unfoldable pub alloc_aligned : Layout → Comparator → ℕ → ℕ → Memory → Option ℕ × Memory
unfolding aligned_size raw_heap_alloc
alloc_aligned l system size a m = raw_heap_alloc l system (aligned_size size a) m

-- `allocator_t`, the policies that the build includes, and `mm_heap_alloc`.
pub data Allocator : Type 0 where
  best_fit first_fit worst_fit system_allocator : Allocator

pub record Build : Type 0 where
  pub has_best_fit : Bool
  pub has_first_fit : Bool
  pub has_worst_fit : Bool
  pub system : Comparator

unfoldable pub heap_alloc : Layout → Build → ℕ → Allocator → Memory → Option ℕ × Memory
unfolding raw_heap_alloc
heap_alloc l b size best_fit m =
    if b.has_best_fit then raw_heap_alloc l best_fit_compare size m else (none, m)
heap_alloc l b size first_fit m =
    if b.has_first_fit then raw_heap_alloc l first_fit_compare size m else (none, m)
heap_alloc l b size worst_fit m =
    if b.has_worst_fit then raw_heap_alloc l worst_fit_compare size m else (none, m)
heap_alloc l b size system_allocator m = raw_heap_alloc l b.system size m
