-- ===== src/Heap/Search.antt =====
-- The search for a fit, under each of the three policies.
use etaos.Prelude.{
  ℕ, zero, suc, ◌≤◌, ◌<◌, ◌≡◌, ◌≢◌, refl, Option, none, some, List, [], ◌∷◌, get_elem?, All, true,
  arith,
}
use etaos.Heap.{
  Node, Fit, Comparator, is_taken, best_fit_compare, first_fit_compare, worst_fit_compare,
  search_fit,
}

-- The nodes of a list from the `i`th on.
abbrev pub drop : ℕ → List Node → List Node
drop zero xs = xs
drop (suc i) [] = []
drop (suc i) (x ∷ xs) = drop i xs

abbrev pub take : ℕ → List Node → List Node
take zero xs = []
take (suc i) [] = []
take (suc i) (x ∷ xs) = x ∷ take i xs

drop-head :
    (all : List Node) (i : ℕ) (x : Node) (xs : List Node)
    → drop i all ≡ x ∷ xs
    → (get_elem? all i ≡ some x) × (drop (suc i) all ≡ xs)
drop-head [] zero x xs e = ground arith
drop-head [] (suc i) x xs e = ground arith
drop-head (y ∷ all) zero x xs e = ground arith
drop-head (y ∷ all) (suc i) x xs e = drop-head all i x xs e

-- A fit is a node of the list, at its index, and is large enough.
abbrev pub IsFit : ℕ → List Node → Option Fit → Type 0
IsFit need all none = Unit {0}
IsFit need all (some f) = (get_elem? all f.index ≡ some f.node) × (need ≤ f.node.size)

pub search_fit-IsFit :
    (compare : Comparator) (need : ℕ) (all xs : List Node) (i : ℕ) (fit : Option Fit)
    → drop i all ≡ xs
    → IsFit need all fit
    → IsFit need all (search_fit compare need i fit xs)
unfolding search_fit
search_fit-IsFit compare need all [] i fit e h = h
search_fit-IsFit compare need all (x ∷ xs) i fit e h = ground (
  arith,
  drop-head all i x xs e,
  search_fit-IsFit compare need all xs (suc i) fit,
  search_fit-IsFit compare need all xs (suc i) (some (record { index = i; node = x })),
)

-- A comparator that takes any node when it has none yet.
abbrev pub TakesFirst : Comparator → Type 0
TakesFirst compare = (n : Node) → is_taken (compare none n) ≡ true

pub best_fit-TakesFirst : TakesFirst best_fit_compare
unfolding best_fit_compare
best_fit-TakesFirst n = refl

pub first_fit-TakesFirst : TakesFirst first_fit_compare
unfolding first_fit_compare
first_fit-TakesFirst n = refl

pub worst_fit-TakesFirst : TakesFirst worst_fit_compare
unfolding worst_fit_compare
worst_fit-TakesFirst n = refl

abbrev pub TooSmall : ℕ → List Node → Type 0
TooSmall need = All λ n. n.size < need

-- A fit that is found is not lost.
search_fit-some :
    (compare : Comparator) (need i : ℕ) (f : Fit) (xs : List Node)
    → search_fit compare need i (some f) xs ≢ none
unfolding search_fit
search_fit-some compare need i f [] = ground arith
search_fit-some compare need i f (x ∷ xs) = ground (
  arith,
  search_fit-some compare need (suc i) f xs,
  search_fit-some compare need (suc i) (record { index = i; node = x }) xs,
)

-- The search fails only if every node is too small.
pub search_fit-none :
    (compare : Comparator) (need i : ℕ) (xs : List Node)
    → TakesFirst compare
    → search_fit compare need i none xs ≡ none
    → TooSmall need xs
unfolding search_fit
search_fit-none compare need i [] t e = tt
search_fit-none compare need i (x ∷ xs) t e = ground (
  arith,
  t x,
  search_fit-none compare need (suc i) xs t,
  search_fit-some compare need (suc i) (record { index = i; node = x }) xs,
)

-- Where every node is too small, the search keeps what it has.
pub search_fit_small :
    (compare : Comparator) (need i : ℕ) (fit : Option Fit) (xs : List Node)
    → TooSmall need xs
    → search_fit compare need i fit xs ≡ fit
unfolding search_fit
search_fit_small compare need i fit [] h = refl
search_fit_small compare need i fit (x ∷ xs) h =
    ground (arith, search_fit_small compare need (suc i) fit xs)

-- No node that is large enough is smaller than `size`.
abbrev pub IsLeast : ℕ → ℕ → List Node → Type 0
IsLeast need size = All λ n. need ≤ n.size → size ≤ n.size

abbrev pub IsLargest : ℕ → List Node → Type 0
IsLargest size = All λ n. n.size ≤ size

IsLeast-le : (need a b : ℕ) (xs : List Node) → a ≤ b → IsLeast need b xs → IsLeast need a xs
IsLeast-le need a b [] h p = tt
IsLeast-le need a b (x ∷ xs) h p = (λ q. omega (arith, p.0 q), IsLeast-le need a b xs h p.1)

IsLeast-need : (need : ℕ) (xs : List Node) → IsLeast need need xs
IsLeast-need need [] = tt
IsLeast-need need (x ∷ xs) = (λ q. q, IsLeast-need need xs)

abbrev Beats : ℕ → Option Fit → Type 0
Beats size none = Unit {0}
Beats size (some f) = size ≤ f.node.size

-- The smallest node that is large enough wins.
pub best_fit-IsLeast :
    (need i : ℕ) (fit : Option Fit) (f : Fit) (xs : List Node)
    → need ≤ f.node.size
    → search_fit best_fit_compare need i fit xs ≡ some f
    → IsLeast need f.node.size xs × Beats f.node.size fit
unfolding search_fit best_fit_compare
best_fit-IsLeast need i fit f [] h e = ground arith
best_fit-IsLeast need i none f (x ∷ xs) h e = ground (
  arith,
  IsLeast-need need xs,
  best_fit-IsLeast need (suc i) none f xs,
  best_fit-IsLeast need (suc i) (some (record { index = i; node = x })) f xs,
)
best_fit-IsLeast need i (some g) f (x ∷ xs) h e = ground (
  arith,
  IsLeast-need need xs,
  best_fit-IsLeast need (suc i) (some g) f xs,
  best_fit-IsLeast need (suc i) (some (record { index = i; node = x })) f xs,
)

-- The largest node wins, unless an exact fit stops the search.
abbrev Larger : ℕ → Option Fit → Type 0
Larger size none = Unit {0}
Larger size (some f) = f.node.size ≤ size

pub worst_fit-IsLargest :
    (need i : ℕ) (fit : Option Fit) (f : Fit) (xs : List Node)
    → need ≤ f.node.size
    → f.node.size ≢ need
    → search_fit worst_fit_compare need i fit xs ≡ some f
    → IsLargest f.node.size xs × Larger f.node.size fit
unfolding search_fit worst_fit_compare
worst_fit-IsLargest need i fit f [] h ne e = ground arith
worst_fit-IsLargest need i none f (x ∷ xs) h ne e = ground (
  arith,
  worst_fit-IsLargest need (suc i) none f xs,
  worst_fit-IsLargest need (suc i) (some (record { index = i; node = x })) f xs,
)
worst_fit-IsLargest need i (some g) f (x ∷ xs) h ne e = ground (
  arith,
  worst_fit-IsLargest need (suc i) (some g) f xs,
  worst_fit-IsLargest need (suc i) (some (record { index = i; node = x })) f xs,
)

take_next :
    (need i : ℕ) (x : Node) (all : List Node)
    → get_elem? all i ≡ some x
    → x.size < need
    → TooSmall need (take i all)
    → TooSmall need (take (suc i) all)
take_next need i x [] e h p = tt
take_next need zero x (y ∷ all) e h p = ground arith
take_next need (suc i) x (y ∷ all) e h p = (p.0, take_next need i x all e h p.1)

-- First fit: every node before the one that is found is too small.
pub first_fit-TooSmall :
    (need i : ℕ) (f : Fit) (all xs : List Node)
    → drop i all ≡ xs
    → TooSmall need (take i all)
    → search_fit first_fit_compare need i none xs ≡ some f
    → TooSmall need (take f.index all)
unfolding search_fit first_fit_compare
first_fit-TooSmall need i f all [] d h e = ground arith
first_fit-TooSmall need i f all (x ∷ xs) d h e = ground (
  arith,
  drop-head all i x xs d,
  take_next need i x all,
  first_fit-TooSmall need (suc i) f all xs,
)
