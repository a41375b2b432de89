-- ===== src/Fs/Ram/Bounds.antt =====
-- That the block of a file of fs/ramfs.c still holds its length after `ramfs_expand`.
use etaos.Prelude.{
  none-some, ℕ, zero, suc, ◌+◌, ◌-◌, ◌%◌, ◌≤◌, ◌<◌, ◌≡◌, refl, sym, ap, subst, ◌∙◌, inl, inr, Bool,
  true, Option, none, some, some_inj, List, [], ◌∷◌, ◌++◌, if◌then◌else◌, ◌==◌, leb, arith, length,
  Bool-cases, Option-cases,
}
use etaos.Fs.Ram.{Blocks, File, resize, krealloc, with_buff, ramfs_expand}

-- The block holds what the file says to be its length.
abbrev pub InBounds : File → Type 0
InBounds f = f.length ≤ length f.buff

pub length-resize : (n : ℕ) (xs : List ℕ) → length (resize n xs) ≡ n
length-resize zero xs = refl
length-resize (suc n) [] = ap suc (length-resize n [])
length-resize (suc n) (x ∷ xs) = ap suc (length-resize n xs)

-- A block that `krealloc` gives has room for what the old one had room for, if the new size has.
krealloc_room :
    (heap : Blocks) (old b : List ℕ) (n room : ℕ)
    → room ≤ length old
    → room ≤ n
    → krealloc heap old n ≡ some b
    → room ≤ length b
unfolding krealloc
krealloc_room heap old b n room p q e = elim (Bool-cases (heap.enough n)) [
  | inl y ↦
      let given = some_inj (chosen (length node == n)) b (sym (ap gives y) ∙ e) in
      subst (λ c. room ≤ length c) given
        (elim (Bool-cases (length node == n)) [
          | inl same ↦ subst (λ t. room ≤ length (chosen t)) (sym same) p
          | inr other ↦
              subst (λ t. room ≤ length (chosen t)) (sym other)
                (omega (arith, q, length-resize n node))
        ])
  | inr x ↦ absurd (none-some (sym (ap gives x) ∙ e))
]
  where
    node : List ℕ
    node = old ++ heap.behind old

    chosen : Bool → List ℕ
    chosen t = if t then old else resize n node

    gives : Bool → Option (List ℕ)
    gives t = if t then some (chosen (length node == n)) else none

-- What `ramfs_expand` gives: the same file but for its block.
pub record Expanded (f : File) (e : File) : Type 0 where
  pub bounds : InBounds e
  pub same_length : e.length ≡ f.length
  pub same_rd : e.rd_idx ≡ f.rd_idx
  pub same_wr : e.wr_idx ≡ f.wr_idx

with_buff-Expanded :
    (heap : Blocks) (f e : File) (n : ℕ)
    → InBounds f
    → f.length ≤ n
    → with_buff f (krealloc heap f.buff n) ≡ some e
    → Expanded f e
with_buff-Expanded heap f e n i h q = elim (Option-cases (krealloc heap f.buff n)) [
  | inl x ↦ absurd (none-some (sym (ap (with_buff f) x) ∙ q))
  | inr (b, y) ↦
      let s = some_inj (record f { buff = b }) e (sym (ap (with_buff f) y) ∙ q) in
      subst (Expanded f) s (record {
        bounds = krealloc_room heap f.buff b n f.length i h y;
        same_length = refl;
        same_rd = refl;
        same_wr = refl;
      })
]

-- The size that `ramfs_expand` asks for, where no sum wraps.
expand_size :
    (f : File) (required : ℕ)
    → f.wr_idx + required < 65535
    → f.length ≤ f.wr_idx + required
    → ((f.wr_idx + required) % 65536 ≡ f.wr_idx + required)
      × ((f.length + 1 + ((f.wr_idx + required) % 65536 + 65536 - f.length)) % 65536
          ≡ f.wr_idx + required + 1)
expand_size f required h le = (omega arith, omega arith)

pub ramfs_expand-Expanded :
    (heap : Blocks) (f e : File) (required : ℕ)
    → InBounds f
    → f.wr_idx + required < 65535
    → ramfs_expand heap f required ≡ some e
    → Expanded f e
unfolding ramfs_expand
ramfs_expand-Expanded heap f e required i h q =
    let needed = (f.wr_idx + required) % 65536 in
    let n = (f.length + 1 + (needed + 65536 - f.length)) % 65536 in
    let grown = with_buff f (krealloc heap f.buff n) in
    elim (Bool-cases (leb f.length needed)) [
      | inl y ↦
          let same : needed ≡ f.wr_idx + required = omega (arith, h) in
          let le : f.length ≤ f.wr_idx + required = ground (arith, y, same) in
          with_buff-Expanded heap f e n i (omega (arith, le, (expand_size f required h le).1))
            (sym (ap (λ t. if t then grown else some f) y) ∙ q)
      | inr x ↦
          let s = some_inj f e (sym (ap (λ t. if t then grown else some f) x) ∙ q) in
          subst (Expanded f) s
            (record { bounds = i; same_length = refl; same_rd = refl; same_wr = refl })
    ]

-- With memory for the size that it asks for, `ramfs_expand` has a result.
pub ramfs_expand-some :
    (heap : Blocks) (f : File) (required : ℕ)
    → f.wr_idx + required < 65535
    → heap.enough (f.wr_idx + required + 1) ≡ true
    → (e : File) × (ramfs_expand heap f required ≡ some e)
unfolding ramfs_expand krealloc
ramfs_expand-some heap f required h a =
    let needed = (f.wr_idx + required) % 65536 in
    let n = (f.length + 1 + (needed + 65536 - f.length)) % 65536 in
    let node = f.buff ++ heap.behind f.buff in
    let chosen = if length node == n then f.buff else resize n node in
    let grown = with_buff f (krealloc heap f.buff n) in
    elim (Bool-cases (leb f.length needed)) [
      | inl y ↦
          let same : needed ≡ f.wr_idx + required = omega (arith, h) in
          let le : f.length ≤ f.wr_idx + required = ground (arith, y, same) in
          let granted = ap heap.enough (expand_size f required h le).1 ∙ a in
          (
            record f { buff = chosen },
            ap (λ t. if t then grown else some f) y
                ∙ ap (λ t. with_buff f (if t then some chosen else none)) granted,
          )
      | inr x ↦ (f, ap (λ t. if t then grown else some f) x)
    ]
