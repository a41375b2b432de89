-- ===== src/Heap/Tests.antt =====
-- Runs of the heap, and its theorems at a concrete free list.
use etaos.Prelude.{ℕ, ◌≡◌, ◌↔◌, refl, some, none, List, [], ◌∷◌, arith}
use etaos.Heap.{
  Node, Layout, Memory, ok, best_fit_compare, raw_heap_alloc, raw_heap_free, prep_user_area, needed,
  update,
}
use etaos.Heap.Ordered.{Ordered}
use etaos.Heap.Search.{TooSmall, best_fit-TakesFirst}
use etaos.Heap.Free.{Released, block_at, raw_heap_free_ok}
use etaos.Heap.Contract.{
  Allocated, raw_heap_alloc-some, raw_heap_alloc-none, raw_heap_free-raw_heap_alloc,
}

abbrev plain : Layout
plain = record { overhead = 2; guard_bytes = 0 }

abbrev three : List Node
three =
    record { addr = 256; size = 100 }
    ∷ record { addr = 400; size = 20 }
    ∷ record { addr = 500; size = 64 }
    ∷ []

abbrev heap : Memory
heap = record { free_list = three; header = λ a. 0 }

-- A request for 16 bytes takes 18, the front of the node of 20, whose rest is too small for a node.
abbrev taken : Memory
taken = record {
  free_list = record { addr = 256; size = 100 } ∷ record { addr = 500; size = 64 } ∷ [];
  header = update (λ a. 0) 400 20;
}

alloc_runs : raw_heap_alloc plain best_fit_compare 16 heap ≡ (some 402, taken)
unfolding raw_heap_alloc best_fit_compare
alloc_runs = refl

three-Ordered : Ordered plain 0 three
three-Ordered = omega arith

raw_heap_alloc-some_example :
    (f : ℕ) × (402 ≡ prep_user_area plain f) × Allocated plain (needed plain 16) f heap taken
raw_heap_alloc-some_example =
    raw_heap_alloc-some plain best_fit_compare 16 heap taken 402 three-Ordered alloc_runs

raw_heap_alloc-none_example :
    ((raw_heap_alloc plain best_fit_compare 200 heap).0 ≡ none) ↔ TooSmall (needed plain 200) three
raw_heap_alloc-none_example =
    raw_heap_alloc-none plain best_fit_compare 200 heap best_fit-TakesFirst

raw_heap_free-raw_heap_alloc_example :
    raw_heap_free plain 402 taken ≡ (ok, record taken { free_list = three })
raw_heap_free-raw_heap_alloc_example =
    raw_heap_free-raw_heap_alloc plain best_fit_compare 16 heap taken 402 refl three-Ordered
      alloc_runs

raw_heap_free_ok_example :
    (ys : List Node) × (raw_heap_free plain (prep_user_area plain 400) taken
      ≡ (ok, record taken { free_list = ys }))
    × Released plain 0 (block_at taken 400) taken.free_list ys
raw_heap_free_ok_example =
    raw_heap_free_ok plain taken 400 refl (omega arith) (omega arith) (omega arith) (omega arith)
      (omega arith)
