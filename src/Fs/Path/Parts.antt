-- ===== src/Fs/Path/Parts.antt =====
-- A path is made of its base path and its base name, and its parts are those of the base path and the
-- base name.
use etaos.Prelude.{
  ℕ, zero, suc, ◌+◌, ◌≤◌, ◌<◌, ◌≡◌, ◌≢◌, refl, sym, ap, ◌∙◌, true, false, some, List, [], ◌∷◌, ◌++◌,
  All, ◌==◌, length, length-append, arith,
}
use etaos.Fs.Path.{slash, char_at, drop, take, basename_loop, basename, basepath_loop, basepath}

-- A name has no slash, and it is not empty.
abbrev pub NoSlash : List ℕ → Type 0
NoSlash = All λ c. c ≢ slash

char_at-append : (xs ys : List ℕ) (i : ℕ) → char_at (xs ++ ys) (length xs + i) ≡ char_at ys i
char_at-append [] ys i = ap (char_at ys) (omega arith)
char_at-append (x ∷ xs) ys i =
    let e : suc (length xs) + i ≡ suc (length xs + i) = omega arith in
    ap (char_at (x ∷ xs ++ ys)) e ∙ char_at-append xs ys i

drop-append : (xs ys : List ℕ) → drop (length xs) (xs ++ ys) ≡ ys
drop-append [] ys = refl
drop-append (x ∷ xs) ys = drop-append xs ys

take-append : (xs ys : List ℕ) → take (length xs) (xs ++ ys) ≡ xs
take-append [] ys = refl
take-append (x ∷ xs) ys = ap (◌∷◌ x) (take-append xs ys)

pub char_at-NoSlash :
    (name : List ℕ) (i : ℕ) → NoSlash name → i < length name → char_at name i ≢ slash
char_at-NoSlash [] i n h = absurd (omega arith)
char_at-NoSlash (c ∷ cs) zero n h = n.0
char_at-NoSlash (c ∷ cs) (suc i) n h = char_at-NoSlash cs i n.1 (omega arith)

basename_loop_skip :
    (path : List ℕ) (idx : ℕ)
    → 0 < idx
    → char_at path idx ≢ slash
    → basename_loop path (suc idx) ≡ basename_loop path idx
unfolding basename_loop
basename_loop_skip path idx p h =
    let c : (char_at path idx == slash) ≡ false = ground arith in
    let z : (idx == 0) ≡ false = ground arith in rw (c, basename_loop) (rw (z, basename_loop) refl)

basename_loop_found :
    (path : List ℕ) (idx : ℕ)
    → char_at path idx ≡ slash
    → basename_loop path (suc idx) ≡ some (drop (suc idx) path)
unfolding basename_loop
basename_loop_found path idx h =
    let c : (char_at path idx == slash) ≡ true = ground arith in rw (c, basename_loop) refl

basepath_loop_skip :
    (path : List ℕ) (idx : ℕ)
    → 0 < idx
    → char_at path idx ≢ slash
    → basepath_loop path (suc idx) ≡ basepath_loop path idx
unfolding basepath_loop
basepath_loop_skip path idx p h =
    let c : (char_at path idx == slash) ≡ false = ground arith in
    let z : (idx == 0) ≡ false = ground arith in rw (z, basepath_loop) (rw (c, basepath_loop) refl)

basepath_loop_found :
    (path : List ℕ) (idx : ℕ)
    → 0 < idx
    → char_at path idx ≡ slash
    → basepath_loop path (suc idx) ≡ some (take idx path)
unfolding basepath_loop
basepath_loop_found path idx p h =
    let c : (char_at path idx == slash) ≡ true = ground arith in
    let z : (idx == 0) ≡ false = ground arith in rw (z, basepath_loop) (rw (c, basepath_loop) refl)

-- A path whose last slash stands behind `pre`.
abbrev pub joined : List ℕ → List ℕ → List ℕ
joined pre name = pre ++ (slash ∷ name)

slash_at : (pre name : List ℕ) → char_at (joined pre name) (length pre) ≡ slash
slash_at [] name = refl
slash_at (c ∷ cs) name = slash_at cs name

name_at :
    (pre name : List ℕ) (k : ℕ) → char_at (joined pre name) (length pre + 1 + k) ≡ char_at name k
name_at [] name k = let e : 0 + 1 + k ≡ suc k = omega arith in ap (char_at (slash ∷ name)) e
name_at (c ∷ cs) name k =
    let e : suc (length cs) + 1 + k ≡ suc (length cs + 1 + k) = omega arith in
    ap (char_at (joined (c ∷ cs) name)) e ∙ name_at cs name k

drop-joined : (pre name : List ℕ) → drop (suc (length pre)) (joined pre name) ≡ name
drop-joined [] name = refl
drop-joined (c ∷ cs) name = drop-joined cs name

-- What `basepath` gives for what stands before the last slash.
abbrev pub or_root : List ℕ → List ℕ
or_root [] = slash ∷ []
or_root (c ∷ cs) = c ∷ cs

module _ (pre name : List ℕ) (n : NoSlash name) where
  name_from :
      (k : ℕ) → k ≤ length name → basename_loop (joined pre name) (length pre + 1 + k) ≡ some name
  name_from zero h =
      let e : length pre + 1 + 0 ≡ suc (length pre) = omega arith in
      ap (basename_loop (joined pre name)) e
      ∙ basename_loop_found (joined pre name) (length pre) (slash_at pre name)
      ∙ ap some (drop-joined pre name)
  name_from (suc k) h =
      let e : length pre + 1 + suc k ≡ suc (length pre + 1 + k) = omega arith in
      let other : char_at (joined pre name) (length pre + 1 + k) ≢ slash =
        λ s. char_at-NoSlash name k n (omega arith) (sym (name_at pre name k) ∙ s) in
      ap (basename_loop (joined pre name)) e
      ∙ basename_loop_skip (joined pre name) (length pre + 1 + k) (omega arith) other
      ∙ name_from k (omega arith)

  path_at : (p : List ℕ) → basepath_loop (joined p name) (suc (length p)) ≡ some (or_root p)
  unfolding basepath_loop
  path_at [] = refl
  path_at (c ∷ cs) =
      basepath_loop_found (joined (c ∷ cs) name) (suc (length cs)) (omega arith)
        (slash_at (c ∷ cs) name)
      ∙ ap some (take-append (c ∷ cs) (slash ∷ name))

  path_from :
      (k : ℕ)
      → k ≤ length name
      → basepath_loop (joined pre name) (length pre + 1 + k) ≡ some (or_root pre)
  path_from zero h =
      let e : length pre + 1 + 0 ≡ suc (length pre) = omega arith in
      ap (basepath_loop (joined pre name)) e ∙ path_at pre
  path_from (suc k) h =
      let e : length pre + 1 + suc k ≡ suc (length pre + 1 + k) = omega arith in
      let other : char_at (joined pre name) (length pre + 1 + k) ≢ slash =
        λ s. char_at-NoSlash name k n (omega arith) (sym (name_at pre name k) ∙ s) in
      ap (basepath_loop (joined pre name)) e
      ∙ basepath_loop_skip (joined pre name) (length pre + 1 + k) (omega arith) other
      ∙ path_from k (omega arith)

  length_joined : length (joined pre name) ≡ length pre + 1 + length name
  length_joined = omega (arith, length-append pre (slash ∷ name))

  -- The base name of a path is what stands behind its last slash, and the base path what stands before
  -- it, or the root.
  pub basename_lem :
      (basename (joined pre name) ≡ some name) × (basepath (joined pre name) ≡ some (or_root pre))
  unfolding basename basepath
  basename_lem = (
    ap (basename_loop (joined pre name)) length_joined ∙ name_from (length name) (omega arith),
    ap (basepath_loop (joined pre name)) length_joined ∙ path_from (length name) (omega arith),
  )
