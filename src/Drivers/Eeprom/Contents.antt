-- ===== src/Drivers/Eeprom/Contents.antt =====
-- What an EEPROM holds, as a function of the address, and pieces of a buffer in it.
use etaos.Prelude.{
  ℕ, zero, suc, ◌+◌, ◌≤◌, ◌<◌, ◌≡◌, refl, sym, ap, ◌∙◌, List, [], ◌∷◌, ◌++◌, if◌then◌else◌, ◌==◌,
  length, take, drop, arith,
}

-- Bytes that are written from an address on.
abbrev pub overlay : ℕ → List ℕ → (ℕ → ℕ) → ℕ → ℕ
overlay a [] f = f
overlay a (d ∷ ds) f = overlay (a + 1) ds (λ i. if i == a then d else f i)

-- So many bytes from an address on.
abbrev pub bytes_from : ℕ → ℕ → (ℕ → ℕ) → List ℕ
bytes_from a zero f = []
bytes_from a (suc n) f = f a ∷ bytes_from (a + 1) n f

pub overlay-append :
    (a : ℕ) (xs ys : List ℕ) (f : ℕ → ℕ)
    → overlay (a + length xs) ys (overlay a xs f) ≡ overlay a (xs ++ ys) f
overlay-append a [] ys f = ap (λ k. overlay k ys f) (omega arith)
overlay-append a (x ∷ xs) ys f =
    let g = λ (i : ℕ). if i == a then x else f i in
    let same : a + suc (length xs) ≡ a + 1 + length xs = omega arith in
    ap (λ k. overlay k ys (overlay (a + 1) xs g)) same ∙ overlay-append (a + 1) xs ys g

below_overlay : (a i : ℕ) (xs : List ℕ) (f : ℕ → ℕ) → i < a → overlay a xs f i ≡ f i
below_overlay a i [] f lt = refl
below_overlay a i (x ∷ xs) f lt =
    let g = λ (i : ℕ). if i == a then x else f i in
    let same : g i ≡ f i = ground (arith, lt) in
    below_overlay (a + 1) i xs g (omega (arith, lt)) ∙ same

-- What is written is what is read.
pub bytes_from-overlay :
    (a : ℕ) (xs : List ℕ) (f : ℕ → ℕ) → bytes_from a (length xs) (overlay a xs f) ≡ xs
bytes_from-overlay a [] f = refl
bytes_from-overlay a (x ∷ xs) f =
    let g = λ (i : ℕ). if i == a then x else f i in
    let here : g a ≡ x = ground arith in
    ap (λ y. y ∷ bytes_from (a + 1) (length xs) (overlay (a + 1) xs g))
      (below_overlay (a + 1) a xs g (omega arith) ∙ here)
    ∙ ap (λ ys. x ∷ ys) (bytes_from-overlay (a + 1) xs g)

-- Behind what is written stands what stood there.
pub bytes_from_behind :
    (a n : ℕ) (xs : List ℕ) (f : ℕ → ℕ)
    → bytes_from a (length xs + n) (overlay a xs f) ≡ xs ++ bytes_from (a + length xs) n f
bytes_from_behind a n [] f =
    let none_left : length {A = ℕ} [] + n ≡ n = omega arith in
    let here : a ≡ a + length {A = ℕ} [] = omega arith in
    ap (λ m. bytes_from a m f) none_left ∙ ap (λ k. bytes_from k n f) here
bytes_from_behind a n (x ∷ xs) f =
    let g = λ (i : ℕ). if i == a then x else f i in
    let here : g a ≡ x = ground arith in
    let same : a + 1 + length xs ≡ a + suc (length xs) = omega arith in
    let more : suc (length xs) + n ≡ suc (length xs + n) = omega arith in
    ap (λ m. bytes_from a m (overlay (a + 1) xs g)) more
    ∙ ap (λ y. y ∷ bytes_from (a + 1) (length xs + n) (overlay (a + 1) xs g))
        (below_overlay (a + 1) a xs g (omega arith) ∙ here)
    ∙ ap (λ ys. x ∷ ys)
        (bytes_from_behind (a + 1) n xs g
          ∙ ap (λ ys. xs ++ ys)
              (above a (a + 1 + length xs) n x f (omega arith) ∙ ap (λ k. bytes_from k n f) same))
  where
    above :
        (a k n x : ℕ) (f : ℕ → ℕ)
        → a < k
        → bytes_from k n (λ i. if i == a then x else f i) ≡ bytes_from k n f
    above a k zero x f lt = refl
    above a k (suc n) x f lt =
        let g = λ (i : ℕ). if i == a then x else f i in
        let same : g k ≡ f k = ground (arith, lt) in
        ap (λ y. y ∷ bytes_from (k + 1) n g) same
        ∙ ap (λ ys. f k ∷ ys) (above a (k + 1) n x f (omega arith))

pub take_more : (m n : ℕ) (xs : List ℕ) → take m xs ++ take n (drop m xs) ≡ take (m + n) xs
take_more zero n xs = ap (λ k. take k xs) (omega arith)
take_more (suc m) n [] =
    let same : suc m + n ≡ suc (m + n) = omega arith in nothing n ∙ sym (ap (λ k. take k []) same)
  where
    nothing : (n : ℕ) → ◌≡◌ {A = List ℕ} (take n []) []
    nothing zero = refl
    nothing (suc n) = refl
take_more (suc m) n (x ∷ xs) =
    let same : suc (m + n) ≡ suc m + n = omega arith in
    ap (λ ys. x ∷ ys) (take_more m n xs) ∙ ap (λ k. take k (x ∷ xs)) same

pub take_all : (n : ℕ) (xs : List ℕ) → length xs ≤ n → take n xs ≡ xs
take_all zero [] h = refl
take_all (suc n) [] h = refl
take_all zero (x ∷ xs) h = absurd (omega arith)
take_all (suc n) (x ∷ xs) h = ap (λ ys. x ∷ ys) (take_all n xs (omega arith))
