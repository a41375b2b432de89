-- ===== src/Crt/Strings/Append.antt =====
-- What `strncat` and `strcpy` write, of lib/crt/strcat.c and strcpy.c.
use etaos.Prelude.{
  keep, ℕ, zero, suc, ◌≤◌, ◌≡◌, refl, ap, ◌∙◌, false, some, List, [], ◌∷◌, ◌++◌, if◌then◌else◌,
  ◌==◌, arith, length, take, drop,
}
use etaos.Crt.Strings.{append, append_behind, strncat, strcpy, strcat}
use etaos.Crt.Strings.Compare.{IsString}

pub append_lem :
    (n : ℕ) (d : ℕ) (room src : List ℕ)
    → length (take n src) ≤ length room
    → append n (d ∷ room) src ≡ some (take n src ++ 0 ∷ drop (length (take n src)) room)
unfolding append
append_lem zero d room src h = refl
append_lem (suc n) d room [] h = refl
append_lem (suc n) d [] (c ∷ cs) h = ground arith
append_lem (suc n) d (r ∷ room) (c ∷ cs) h = ap (keep c) (append_lem n r room cs (omega (arith, h)))

append_behind_lem :
    (n : ℕ) (old room src : List ℕ)
    → IsString old
    → length (take n src) ≤ length room
    → append_behind n (old ++ 0 ∷ room) src
      ≡ some (old ++ take n src ++ 0 ∷ drop (length (take n src)) room)
unfolding append_behind
append_behind_lem n [] room src p h = append_lem n 0 room src h
append_behind_lem n (c ∷ old) room src p h =
    let rest = append_behind n (old ++ 0 ∷ room) src in
    let copied = append n (c ∷ old ++ 0 ∷ room) src in
    let e : (c == 0) ≡ false = ground arith in
    ap (λ b. if b then copied else keep c rest) e
    ∙ ap (keep c) (append_behind_lem n old room src p.1 h)

-- Where the region has room for it, `strncat` puts at most `n` characters of the source behind the
-- string that the region holds, and a zero behind them; the bytes behind that zero are kept.
pub strncat_lem :
    (n : ℕ) (old room src : List ℕ)
    → IsString old
    → length (take n src) ≤ length room
    → strncat (old ++ 0 ∷ room) src n
      ≡ some (old ++ take n src ++ 0 ∷ drop (length (take n src)) room)
unfolding strncat
strncat_lem zero [] room src p h = refl
strncat_lem zero (c ∷ old) room src p h = ap (keep c) (strncat_lem zero old room src p.1 h)
strncat_lem (suc n) old room src p h = append_behind_lem (suc n) old room src p h

-- `strcpy` leaves what stood behind the copied characters, so that what it writes is terminated only by a
-- zero that was there before.
pub strcpy_lem :
    (src dst : List ℕ)
    → length src ≤ length dst
    → strcpy dst src ≡ some (src ++ drop (length src) dst)
unfolding strcpy
strcpy_lem [] [] h = refl
strcpy_lem [] (d ∷ dst) h = refl
strcpy_lem (c ∷ src) [] h = ground arith
strcpy_lem (c ∷ src) (d ∷ dst) h = ap (keep c) (strcpy_lem src dst (omega (arith, h)))

-- `strcat` behind the string that a region holds: the source's characters, and what stood there.
pub strcat_lem :
    (old room src : List ℕ)
    → IsString old
    → length src ≤ suc (length room)
    → strcat (old ++ 0 ∷ room) src ≡ some (old ++ src ++ drop (length src) (0 ∷ room))
unfolding strcat
strcat_lem [] room src p h = strcpy_lem src (0 ∷ room) h
strcat_lem (c ∷ old) room src p h =
    let rest = strcat (old ++ 0 ∷ room) src in
    let copied = strcpy (c ∷ old ++ 0 ∷ room) src in
    let e : (c == 0) ≡ false = ground arith in
    ap (λ b. if b then copied else keep c rest) e ∙ ap (keep c) (strcat_lem old room src p.1 h)
