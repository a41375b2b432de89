-- ===== src/Fs/Path.antt =====
-- fs/basename.c and fs/util.c, with `strtok_r` of lib/crt/strtok.c: paths and their parts. A path is the
-- list of its characters' codes, without the terminating zero.
pub mod Parts
pub mod Split
use etaos.Prelude.{
  ℕ, zero, suc, ◌+◌, ◌-◌, Bool, true, false, Option, none, some, List, [], ◌∷◌, ◌++◌, if◌then◌else◌,
  ◌==◌, length, take, drop,
}

abbrev pub slash : ℕ
slash = 47

-- `path[idx]`, which is the zero at the end.
abbrev pub char_at : List ℕ → ℕ → ℕ
char_at [] idx = 0
char_at (c ∷ cs) zero = c
char_at (c ∷ cs) (suc idx) = char_at cs idx

-- The loop of `basename`, at the index one less than the number.
unfoldable pub basename_loop : List ℕ → ℕ → Option (List ℕ)
basename_loop path zero = none
basename_loop path (suc idx) =
    let earlier = basename_loop path idx in
    if char_at path idx == slash
    then some (drop (suc idx) path)
    else if idx == 0
    then some path
    else earlier

-- `basename`; the empty path has none.
unfoldable pub basename : List ℕ → Option (List ℕ)
unfolding basename_loop
basename path = basename_loop path (length path)

-- The loop of `basepath`.
unfoldable pub basepath_loop : List ℕ → ℕ → Option (List ℕ)
basepath_loop path zero = none
basepath_loop path (suc idx) =
    let earlier = basepath_loop path idx in
    if idx == 0
    then some (slash ∷ [])
    else if char_at path idx == slash
    then some (take idx path)
    else earlier

-- `basepath`
unfoldable pub basepath : List ℕ → Option (List ℕ)
unfolding basepath_loop
basepath path = basepath_loop path (length path)

-- `strtok_r` with the delimiter '/': the slashes in front are skipped, and the token goes up to the
-- next one, which is taken too. `none` is the null pointer.
unfoldable pub skip_slashes : List ℕ → List ℕ
skip_slashes [] = []
skip_slashes (c ∷ cs) = let rest = skip_slashes cs in if c == slash then rest else c ∷ cs

unfoldable pub take_token : List ℕ → List ℕ × List ℕ
take_token [] = ([], [])
take_token (c ∷ cs) =
    let rest = take_token cs in if c == slash then ([], cs) else (c ∷ rest.0, rest.1)

abbrev pub token : List ℕ → Option (List ℕ × List ℕ)
token [] = none
token (c ∷ cs) = some (take_token (c ∷ cs))

unfoldable pub strtok : List ℕ → Option (List ℕ × List ℕ)
unfolding skip_slashes take_token
strtok s = token (skip_slashes s)

-- The loop of `path_split` over the tokens; the string's length is enough fuel.
abbrev pub add_token : Option (List ℕ × List ℕ) → (List ℕ → List (List ℕ)) → List (List ℕ)
add_token none more = []
add_token (some (t, rest)) more = t ∷ more rest

unfoldable pub tokens : ℕ → List ℕ → List (List ℕ)
unfolding strtok
tokens zero s = []
tokens (suc fuel) s = add_token (strtok s) (λ rest. tokens fuel rest)

-- `fs_split_path`
unfoldable pub split_path : List ℕ → List (List ℕ)
unfolding tokens
split_path s = tokens (length s) s
