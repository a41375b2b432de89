-- ===== src/Crt.antt =====
-- The C library's numbers as text: lib/crt/ctype.c, lib/crt/strtol.c, lib/crt/atoi.c, lib/crt/ltoa.c
-- and lib/crt/itoa.c. A string is the list of its characters' codes, without the terminating zero.
pub mod Strings
pub mod Memory
pub mod Printf
mod RoundTrip
mod Tests
use etaos.Prelude.{
  ℕ, zero, suc, ◌+◌, ◌-◌, ◌*◌, ◌/◌, ◌%◌, Bool, true, false, not, ◌&&◌, ◌||◌, List, [], ◌∷◌, ◌++◌,
  if◌then◌else◌, ◌==◌, ltb, leb,
}

-- A `long`, by its sign and its magnitude.
pub data Long : Type 0 where
  plus minus : ℕ → Long

abbrev pub long_max : ℕ
long_max = 2147483647

-- `isspace`, where the last two of the source's four codes are the same, `isdigit`, `isupper` and
-- `isalpha`.
unfoldable pub isspace : ℕ → Bool
isspace c = (c == 32) || (c == 9) || (c == 10)

unfoldable pub isdigit : ℕ → Bool
isdigit c = leb 48 c && leb c 57

unfoldable pub isupper : ℕ → Bool
isupper c = leb 65 c && leb c 90

unfoldable pub isalpha : ℕ → Bool
isalpha c = (leb 65 c && leb c 90) || (leb 97 c && leb c 122)

-- The character at a place of a string, and the string behind it: at its end the zero.
abbrev pub char_at : List ℕ → ℕ
char_at [] = 0
char_at (c ∷ cs) = c

abbrev pub behind : List ℕ → List ℕ
behind [] = []
behind (c ∷ cs) = cs

-- The digit that a character stands for: `base` or more for one that is none.
unfoldable pub digit_value : ℕ → ℕ → ℕ
unfolding isdigit isupper isalpha
digit_value base c =
    if isdigit c then c - 48 else if isalpha c then c - (if isupper c then 55 else 87) else base

-- The variable `any` of `strtol`: 0, 1 or -1.
pub data Any : Type 0 where
  nothing digits overflow : Any

abbrev pub is_overflow : Any → Bool
is_overflow nothing = false
is_overflow digits = false
is_overflow overflow = true

-- One step of the loop, and the loop: the number so far, `any`, and what is left of the string.
unfoldable pub take_digit : ℕ → ℕ → ℕ → ℕ → ℕ × Any → ℕ × Any
take_digit base cutoff cutlim c s =
    if is_overflow s.1 || ltb cutoff s.0 || ((s.0 == cutoff) && ltb cutlim c)
    then (s.0, overflow)
    else (s.0 * base + c, digits)

unfoldable pub scan : ℕ → ℕ → ℕ → List ℕ → ℕ × Any → (ℕ × Any) × List ℕ
unfolding digit_value take_digit
scan base cutoff cutlim [] s = (s, [])
scan base cutoff cutlim (c ∷ cs) s =
    let d = digit_value base c in
    let rest = scan base cutoff cutlim cs (take_digit base cutoff cutlim d s) in
    if leb base d then (s, c ∷ cs) else rest

unfoldable pub skip_spaces : List ℕ → List ℕ
unfolding isspace
skip_spaces [] = []
skip_spaces (c ∷ cs) = let rest = skip_spaces cs in if isspace c then rest else c ∷ cs

-- The sign: whether it is a minus, and the string behind it.
unfoldable pub take_sign : List ℕ → Bool × List ℕ
take_sign s =
    if char_at s == 45
    then (true, behind s)
    else if char_at s == 43
    then (false, behind s)
    else (false, s)

-- The prefixes 0x and 0b, and the base that they or a leading zero give.
unfoldable pub take_prefix : ℕ → List ℕ → ℕ × List ℕ
take_prefix base s =
    let next = char_at (behind s) in
    if ((base == 0) || (base == 16)) && (char_at s == 48) && ((next == 120) || (next == 88))
    then (16, behind (behind s))
    else if ((base == 0) || (base == 2)) && (char_at s == 48) && ((next == 98) || (next == 66))
    then (2, behind (behind s))
    else (if base == 0 then (if char_at s == 48 then 8 else 10) else base, s)

-- The end of `strtol`.
unfoldable pub finish : Bool → ℕ × Any → Long
finish neg s =
    if is_overflow s.1
    then (if neg then minus (long_max + 1) else plus long_max)
    else (if neg then minus s.0 else plus s.0)

-- What `strtol` reads: the number, and what `endptr` is left at.
unfoldable pub strtol : List ℕ → ℕ → Long × List ℕ
unfolding scan skip_spaces take_sign take_prefix finish
strtol s base =
    let sign = take_sign (skip_spaces s) in
    let prefix = take_prefix base sign.1 in
    let limit = if sign.0 then long_max + 1 else long_max in
    let r = scan prefix.0 (limit / prefix.0) (limit % prefix.0) prefix.1 (0, nothing) in
    (finish sign.0 r.0, elim r.0.1 [ nothing ↦ s | digits ↦ r.1 | overflow ↦ r.1 ])

-- `atol`, which `atoi` narrows to an `int`.
unfoldable pub atol : List ℕ → Long
unfolding strtol
atol s = (strtol s 10).0

-- The character that `ltoa` writes for a digit, and for the negative remainder of a number that it
-- does not negate.
abbrev pub digit_char : ℕ → ℕ
digit_char r = if ltb 9 r then r - 10 + 97 else r + 48

abbrev pub below_char : ℕ → ℕ
below_char r = 48 - r

-- The loop of `ltoa`, which writes the last digit first. The number itself is enough fuel.
unfoldable pub write_digits : (ℕ → ℕ) → ℕ → ℕ → ℕ → List ℕ
write_digits char zero base n = []
write_digits char (suc fuel) base n =
    let rest = write_digits char fuel base (n / base) in
    if n == 0 then [] else char (n % base) ∷ rest

-- `strrev`
unfoldable pub strrev : List ℕ → List ℕ
strrev [] = []
strrev (c ∷ cs) = strrev cs ++ (c ∷ [])

-- `ltoa`, for a base of at least 2.
unfoldable pub ltoa : Long → ℕ → List ℕ
unfolding write_digits strrev
ltoa (plus n) base = if n == 0 then 48 ∷ [] else strrev (write_digits digit_char n base n)
ltoa (minus n) base =
    if n == 0
    then 48 ∷ []
    else if base == 10
    then strrev (write_digits digit_char n base n ++ (45 ∷ []))
    else strrev (write_digits below_char n base n)
