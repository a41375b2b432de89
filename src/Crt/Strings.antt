-- ===== src/Crt/Strings.antt =====
-- The string functions of lib/crt: strcmp.c, strlen.c, strnlen.c, strchr.c, strcpy.c, strcat.c,
-- strncpy.c and stricmp.c. A string that is read is the list of its characters' codes without the
-- terminating zero. What is written to is a region, the list of its bytes: an access behind its last
-- byte has no result.
pub mod Compare
pub mod Append
use etaos.Prelude.{
  keep, ℕ, zero, suc, ◌+◌, ◌-◌, Bool, true, false, ◌&&◌, Option, none, some, List, [], ◌∷◌,
  if◌then◌else◌, ◌==◌, ltb, leb, length,
}
use etaos.Crt.{Long, plus, minus}

-- The difference of two characters.
abbrev pub difference : ℕ → ℕ → Long
difference c d = if ltb c d then minus (d - c) else plus (c - d)

-- `strcmp`. The end of a string compares as a zero.
unfoldable pub strcmp : List ℕ → List ℕ → Long
strcmp [] [] = plus 0
strcmp [] (d ∷ ds) = difference 0 d
strcmp (c ∷ cs) [] = difference c 0
strcmp (c ∷ cs) (d ∷ ds) = let rest = strcmp cs ds in if c == d then rest else difference c d

abbrev pub is_zero : Long → Bool
is_zero (plus n) = n == 0
is_zero (minus n) = n == 0

-- `!strcmp(s, t)`
unfoldable pub same : List ℕ → List ℕ → Bool
unfolding strcmp
same s t = is_zero (strcmp s t)

-- One more character, and at most so many.
abbrev pub plus_one : Option ℕ → Option ℕ
plus_one none = none
plus_one (some n) = some (suc n)

abbrev pub at_most : ℕ → Option ℕ → Option ℕ
at_most size none = none
at_most size (some n) = some (if ltb size n then size else n)

-- `strlen`, of a string that stands in a region: its first zero's place.
unfoldable pub strlen : List ℕ → Option ℕ
strlen [] = none
strlen (c ∷ cs) = let rest = strlen cs in if c == 0 then some 0 else plus_one rest

-- `strnlen`
unfoldable pub strnlen : List ℕ → ℕ → Option ℕ
unfolding strlen
strnlen s size = at_most size (strlen s)

-- `strchr`: the place of the character, or the null pointer.
unfoldable pub strchr : List ℕ → ℕ → Option ℕ
strchr [] c = if 0 == c then some 0 else none
strchr (d ∷ ds) c = let rest = strchr ds c in if d == c then some 0 else plus_one rest

-- `map[c]` of stricmp.c: the upper-case letters are mapped to the lower-case ones.
unfoldable pub charmap : ℕ → ℕ
charmap c = if leb 65 c && leb c 90 then c + 32 else c

-- `strnicmp`
unfoldable pub strnicmp : List ℕ → List ℕ → ℕ → Long
unfolding charmap
strnicmp s t zero = plus 0
strnicmp [] [] (suc n) = plus 0
strnicmp [] (d ∷ ds) (suc n) =
    if charmap 0 == charmap d then plus 0 else difference (charmap 0) (charmap d)
strnicmp (c ∷ cs) [] (suc n) =
    if charmap c == charmap 0 then plus 0 else difference (charmap c) (charmap 0)
strnicmp (c ∷ cs) (d ∷ ds) (suc n) =
    let rest = strnicmp cs ds n in
    if charmap c == charmap d then rest else difference (charmap c) (charmap d)

-- `strcpy`, which writes no terminating zero.
unfoldable pub strcpy : List ℕ → List ℕ → Option (List ℕ)
strcpy dst [] = some dst
strcpy [] (c ∷ cs) = none
strcpy (d ∷ ds) (c ∷ cs) = keep c (strcpy ds cs)

-- `strcat`: the loop to the terminating zero of the destination, and the copy.
unfoldable pub strcat : List ℕ → List ℕ → Option (List ℕ)
unfolding strcpy
strcat [] src = none
strcat (d ∷ ds) src =
    let rest = strcat ds src in
    let copied = strcpy (d ∷ ds) src in if d == 0 then copied else keep d rest

-- The copying loop of `strncat`, with the number of bytes left, and the zero behind it.
unfoldable pub append : ℕ → List ℕ → List ℕ → Option (List ℕ)
append n [] src = none
append zero (d ∷ ds) src = some (0 ∷ ds)
append (suc n) (d ∷ ds) [] = some (0 ∷ ds)
append (suc n) (d ∷ ds) (c ∷ cs) = keep c (append n ds cs)

-- `strncat` behind its test of the size: the loop to the terminating zero, and the copy.
unfoldable pub append_behind : ℕ → List ℕ → List ℕ → Option (List ℕ)
unfolding append
append_behind size [] src = none
append_behind size (d ∷ ds) src =
    let rest = append_behind size ds src in
    let copied = append size (d ∷ ds) src in if d == 0 then copied else keep d rest

unfoldable pub strncat : List ℕ → List ℕ → ℕ → Option (List ℕ)
unfolding append_behind
strncat dst src zero = some dst
strncat dst src (suc size) = append_behind (suc size) dst src

-- `strncpy`, which stops behind the terminating zero or when the number of bytes is written.
unfoldable pub strncpy : List ℕ → List ℕ → ℕ → Option (List ℕ)
strncpy dst src zero = some dst
strncpy [] src (suc num) = none
strncpy (d ∷ ds) [] (suc num) = some (0 ∷ ds)
strncpy (d ∷ ds) (c ∷ cs) (suc num) = keep c (strncpy ds cs num)
