-- ===== src/Crt/Printf/Tests.antt =====
-- Runs of formatted output, and its theorems at concrete formats.
use etaos.Prelude.{
  ℕ, ◌^◌, ◌≤◌, ◌<◌, ◌≡◌, refl, true, false, Option, some, none, List, [], ◌∷◌, ◌++◌, length,
  get_elem?, arith,
}
use etaos.Crt.{Long, plus, ltoa}
use etaos.Crt.Printf.{Stream, int, string, text, vfprintf, convert_to_num, snprintf}
use etaos.Crt.Printf.Digits.{convert_to_num-ltoa}
use etaos.Crt.Printf.Text.{snprintf_text}

abbrev console : Stream
console = record {
  is_writable = true;
  is_buffered = false;
  buff = λ i. 0;
  index = 0;
  length = 0;
  has_put = true;
  sent = [];
}

abbrev frame : Stream
frame = record console { is_writable = false; has_put = false }

abbrev sent_of : Option Stream → List ℕ
sent_of none = []
sent_of (some s) = s.sent

-- "n=%d %s" with 42 and "ok".
vfprintf_runs :
    sent_of (
      vfprintf text
        (110 ∷ 61 ∷ 37 ∷ 100 ∷ 32 ∷ 37 ∷ 115 ∷ [])
        (int 42 ∷ string (111 ∷ 107 ∷ []) ∷ [])
        console)
    ≡ 110 ∷ 61 ∷ 52 ∷ 50 ∷ 32 ∷ 111 ∷ 107 ∷ []
unfolding vfprintf
vfprintf_runs = refl

-- "%d" of the `int` -1 writes 65535.
negative_runs :
    sent_of (vfprintf text (37 ∷ 100 ∷ []) (int 65535 ∷ []) console) ≡ 54 ∷ 53 ∷ 53 ∷ 51 ∷ 53 ∷ []
unfolding vfprintf
negative_runs = refl

convert_to_num-ltoa_example :
    (1234 < 2 ^ 31
      → convert_to_num 1234 10 true false console
        ≡ some (record console { sent = [] ++ ltoa (plus 1234) 10 }))
    × (10 ^ 15 ≤ 1234 → convert_to_num 1234 10 true false console ≡ none)
    × (1234 < 2 ^ 31
        → convert_to_num 1234 16 true false console
          ≡ some (record console { sent = [] ++ ltoa (plus 1234) 16 }))
    × (16 ^ 15 ≤ 1234 → convert_to_num 1234 16 true false console ≡ none)
convert_to_num-ltoa_example = convert_to_num-ltoa 1234 true console (refl, refl, refl) (omega arith)

-- "%s" of "abcd" into 3 bytes.
abbrev cut : Long × (ℕ → ℕ)
unfolding snprintf
cut = elim (snprintf (λ i. 7) 3 (37 ∷ 115 ∷ []) (string (97 ∷ 98 ∷ 99 ∷ 100 ∷ []) ∷ []) frame) [
  | none ↦ (plus 0, λ i. 0)
  | some r ↦ r
]

abbrev hi : List ℕ
hi = 104 ∷ 105 ∷ []

snprintf_text_example :
    (length hi < 3
      → (r : Long × (ℕ → ℕ)) × (snprintf (λ i. 7) 3 hi [] frame ≡ some r)
        × ((i c : ℕ) → get_elem? hi i ≡ some c → r.1 i ≡ c)
        × (r.1 (length hi) ≡ 0))
    × (3 ≤ length hi → snprintf (λ i. 7) 3 hi [] frame ≡ none)
snprintf_text_example =
    snprintf_text (λ i. 7) 3 hi [] frame (omega arith) (omega arith) (refl, (refl, tt)) refl
