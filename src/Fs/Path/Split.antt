-- ===== src/Fs/Path/Split.antt =====
-- `fs_split_path` finds the names that a path is made of.
use etaos.Prelude.{
  ℕ, zero, suc, ◌≤◌, ◌<◌, ◌≡◌, refl, ap, ◌∙◌, false, some, List, [], ◌∷◌, ◌++◌, All, ◌==◌, length,
  length-append, arith,
}
use etaos.Fs.Path.{slash, skip_slashes, take_token, strtok, add_token, tokens, split_path}
use etaos.Fs.Path.Parts.{NoSlash}

abbrev pub IsName : List ℕ → Type 0
IsName n = (0 < length n) × NoSlash n

-- The absolute path of some names, and the same without its first slash.
abbrev pub path_of : List (List ℕ) → List ℕ
path_of [] = []
path_of (n ∷ ns) = slash ∷ (n ++ path_of ns)

abbrev rest_of : List (List ℕ) → List ℕ
rest_of [] = []
rest_of (n ∷ ns) = n ++ path_of ns

take_token_end : (n : List ℕ) → NoSlash n → take_token (n ++ []) ≡ (n, [])
unfolding take_token
take_token_end [] h = refl
take_token_end (c ∷ cs) h =
    let e : (c == slash) ≡ false = ground arith in
    rw (e, take_token) (ap (λ (r : List ℕ × List ℕ). (c ∷ r.0, r.1)) (take_token_end cs h.1))

take_token-slash : (n rest : List ℕ) → NoSlash n → take_token (n ++ (slash ∷ rest)) ≡ (n, rest)
unfolding take_token
take_token-slash [] rest h = refl
take_token-slash (c ∷ cs) rest h =
    let e : (c == slash) ≡ false = ground arith in
    rw (e, take_token) (ap (λ (r : List ℕ × List ℕ). (c ∷ r.0, r.1)) (take_token-slash cs rest h.1))

take_token-rest_of :
    (n : List ℕ) (ns : List (List ℕ)) → NoSlash n → take_token (n ++ path_of ns) ≡ (n, rest_of ns)
take_token-rest_of n [] h = take_token_end n h
take_token-rest_of n (m ∷ ms) h = take_token-slash n (rest_of (m ∷ ms)) h

strtok-rest_of :
    (n : List ℕ) (ns : List (List ℕ)) → IsName n → strtok (n ++ path_of ns) ≡ some (n, rest_of ns)
unfolding strtok skip_slashes
strtok-rest_of [] ns h = absurd (omega arith)
strtok-rest_of (c ∷ cs) ns h =
    let e : (c == slash) ≡ false = ground arith in
    rw (e, skip_slashes) (ap some (take_token-rest_of (c ∷ cs) ns h.1))

tokens-rest_of :
    (fuel : ℕ) (ns : List (List ℕ))
    → length ns ≤ fuel
    → All IsName ns
    → tokens fuel (rest_of ns) ≡ ns
unfolding tokens
tokens-rest_of zero [] h a = refl
tokens-rest_of zero (n ∷ ns) h a = absurd (omega arith)
tokens-rest_of (suc fuel) [] h a = none_left
  where
    none_left : tokens (suc fuel) [] ≡ []
    none_left = refl
tokens-rest_of (suc fuel) (n ∷ ns) h a =
    ap (λ t. add_token t (λ rest. tokens fuel rest)) (strtok-rest_of n ns a.0)
    ∙ ap (◌∷◌ n) (tokens-rest_of fuel ns (omega arith) a.1)

path_of-length : (ns : List (List ℕ)) → length ns ≤ length (path_of ns)
path_of-length [] = omega arith
path_of-length (n ∷ ns) = omega (arith, path_of-length ns, length-append n (path_of ns))

strtok-slash : (s : List ℕ) → strtok (slash ∷ s) ≡ strtok s
unfolding strtok skip_slashes
strtok-slash s = refl

tokens-slash : (fuel : ℕ) (s : List ℕ) → tokens fuel (slash ∷ s) ≡ tokens fuel s
unfolding tokens
tokens-slash zero s = refl
tokens-slash (suc fuel) s = ap (λ t. add_token t (λ rest. tokens fuel rest)) (strtok-slash s)

-- `fs_split_path` of an absolute path gives the names that it is made of, where no name is empty or
-- has a slash.
pub split_path-path_of : (ns : List (List ℕ)) → All IsName ns → split_path (path_of ns) ≡ ns
unfolding split_path
split_path-path_of [] a = tokens-rest_of 0 [] (omega arith) a
split_path-path_of (n ∷ ns) a =
    let p = path_of (n ∷ ns) in
    tokens-slash (length p) (rest_of (n ∷ ns))
    ∙ tokens-rest_of (length p) (n ∷ ns) (path_of-length (n ∷ ns)) a
