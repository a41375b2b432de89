-- ===== src/Crt/Tests.antt =====
-- Runs of the conversions, and their round trips at concrete numbers.
use etaos.Prelude.{ℕ, ◌≡◌, refl, some, List, [], ◌∷◌, arith}
use etaos.Crt.{plus, minus, strtol, ltoa}
use etaos.Crt.Strings.{strcmp, strcpy, strnicmp}
use etaos.Crt.Memory.{memcpy}
use etaos.Crt.RoundTrip.{strtol-ltoa}

-- " 0x1fg" reads as 31, up to the g.
strtol_runs : strtol (32 ∷ 48 ∷ 120 ∷ 49 ∷ 102 ∷ 103 ∷ []) 0 ≡ (plus 31, 103 ∷ [])
unfolding strtol
strtol_runs = refl

-- "3000000000" is too large, and all of it is read.
strtol_overflows :
    strtol (51 ∷ 48 ∷ 48 ∷ 48 ∷ 48 ∷ 48 ∷ 48 ∷ 48 ∷ 48 ∷ 48 ∷ []) 10 ≡ (plus 2147483647, [])
unfolding strtol
strtol_overflows = refl

ltoa_runs : ltoa (plus 255) 16 ≡ 102 ∷ 102 ∷ []
unfolding ltoa
ltoa_runs = refl

strtol-ltoa_example : strtol (ltoa (plus 90210) 10) 10 ≡ (plus 90210, [])
strtol-ltoa_example = strtol-ltoa 90210 (omega arith)

-- "no" and "now"
abbrev no_text : List ℕ
no_text = 110 ∷ 111 ∷ []

abbrev now_text : List ℕ
now_text = 110 ∷ 111 ∷ 119 ∷ []

strcmp_runs : strcmp no_text now_text ≡ minus 119
unfolding strcmp
strcmp_runs = refl

-- A string that is copied into a region of nines has no zero behind it.
strcpy_runs : strcpy (9 ∷ 9 ∷ 9 ∷ []) no_text ≡ some (110 ∷ 111 ∷ 9 ∷ [])
unfolding strcpy
strcpy_runs = refl

strnicmp_runs : strnicmp (78 ∷ 111 ∷ []) now_text 2 ≡ plus 0
unfolding strnicmp
strnicmp_runs = refl

-- Eleven bytes are moved up by three, in a memory where each byte is its address.
memcpy_runs : memcpy 13 10 11 (λ a. a) 20 ≡ 17
unfolding memcpy
memcpy_runs = refl
