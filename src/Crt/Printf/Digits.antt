-- ===== src/Crt/Printf/Digits.antt =====
-- The digits that `convert_to_num` writes are those of `ltoa`, as long as they fit its buffer.
use mathlib.Core.List.{append_assoc, append-nil}
use etaos.Prelude.{
  ℕ, zero, suc, ◌*◌, ◌/◌, ◌%◌, ◌^◌, ◌≤◌, ◌<◌, ◌≡◌, refl, sym, ap, ◌∙◌, Bool, true, false, Option,
  none, some, List, [], ◌∷◌, ◌++◌, if◌then◌else◌, ◌==◌, leb, ◌&&◌, arith, ℕ_discrete,
}
use etaos.Crt.{plus, digit_char, write_digits, strrev, ltoa}
use etaos.Crt.Printf.{Stream, digx, fill_digits, room, fputs, fputc, convert_to_num, and_then}

abbrev pow : ℕ → ℕ → ℕ
pow b zero = 1
pow b (suc r) = pow b r * b

-- What the proof needs of a base, which `omega` gives for a numeral.
record Base (b : ℕ) : Type 0 where
  less : (n : ℕ) → 0 < n → n / b < n
  below : (n p : ℕ) → n < p * b → n / b < p
  above : (n p : ℕ) → p * b ≤ n → p ≤ n / b

ten-Base : Base 10
ten-Base = record {
  less = λ n h. omega arith;
  below = λ n p h. omega arith;
  above = λ n p h. omega arith;
}

sixteen-Base : Base 16
sixteen-Base = record {
  less = λ n h. omega arith;
  below = λ n p h. omega arith;
  above = λ n p h. omega arith;
}

digx_char : (d : ℕ) → digx false d ≡ digit_char d
digx_char d = ground arith

fill_step :
    (b r n : ℕ) (cp : List ℕ)
    → let cp' = digx false (n % b) ∷ cp in
      (n / b ≡ 0 → fill_digits b false (suc r) n cp ≡ some cp')
      × (0 < n / b → fill_digits b false (suc r) n cp ≡ fill_digits b false r (n / b) cp')
unfolding fill_digits
fill_step b r n cp =
    let cp' = digx false (n % b) ∷ cp in
    let rest = fill_digits b false r (n / b) cp' in
    (
      λ z.
          let e : (n / b == 0) ≡ true = ground (arith, z) in
          ap (λ t. if t then some cp' else rest) e,
      λ p.
          let e : (n / b == 0) ≡ false = ground (arith, p) in
          ap (λ t. if t then some cp' else rest) e,
    )

written_step :
    (fuel b n : ℕ)
    → 0 < n
    → strrev (write_digits digit_char (suc fuel) b n)
      ≡ strrev (write_digits digit_char fuel b (n / b)) ++ (digit_char (n % b) ∷ [])
unfolding write_digits strrev
written_step fuel b n p =
    let e : (n == 0) ≡ false = ground arith in
    let rest = write_digits digit_char fuel b (n / b) in
    ap (λ t. strrev (if t then [] else digit_char (n % b) ∷ rest)) e

written_zero : (fuel b : ℕ) → strrev (write_digits digit_char fuel b 0) ≡ []
unfolding write_digits strrev
written_zero zero b = refl
written_zero (suc fuel) b = refl

fill_digits-some :
    (b : ℕ)
    → Base b
    → (r n fuel : ℕ) (cp : List ℕ) → 0 < n
    → n < pow b r
    → n ≤ fuel
    → fill_digits b false r n cp ≡ some (strrev (write_digits digit_char fuel b n) ++ cp)
fill_digits-some b base zero n fuel cp p h f = absurd (omega arith)
fill_digits-some b base (suc r) n zero cp p h f = absurd (omega arith)
fill_digits-some b base (suc r) n (suc fuel) cp p h f =
    let q = n / b in
    let less = base.less n p in
    let written = written_step fuel b n p in
    let same = ap (λ c. c ∷ cp) (digx_char (n % b)) in
    elim (ℕ_discrete q 0) [
      | yes z ↦
          let one = ap (λ m. strrev (write_digits digit_char fuel b m)) z ∙ written_zero fuel b in
          (fill_step b r n cp).0 z
          ∙ ap some same
          ∙ sym (
              ap (λ xs. some (xs ++ cp)) (written ∙ ap (λ xs. xs ++ (digit_char (n % b) ∷ [])) one))
      | no nz ↦
          (fill_step b r n cp).1 (omega (arith, nz))
          ∙ ap (fill_digits b false r q) same
          ∙ fill_digits-some b base r q fuel (digit_char (n % b) ∷ cp) (omega (arith, nz))
              (base.below n (pow b r) h) (omega (arith, less))
          ∙ ap some (
              sym (
                append_assoc (strrev (write_digits digit_char fuel b q)) (digit_char (n % b) ∷ [])
                  cp))
          ∙ sym (ap (λ xs. some (xs ++ cp)) written)
    ]

pow_pos : (b : ℕ) → Base b → (r : ℕ) → 0 < b → 0 < pow b r
pow_pos b base zero h = omega arith
pow_pos b base (suc r) h = grind (arith, pow_pos b base r h)

fill_digits-none :
    (b : ℕ)
    → Base b
    → 0 < b
    → (r n : ℕ) (cp : List ℕ) → pow b r ≤ n
    → fill_digits b false r n cp ≡ none
unfolding fill_digits
fill_digits-none b base pos zero n cp h = refl
fill_digits-none b base pos (suc r) n cp h =
    let high = base.above n (pow b r) h in
    let p = pow_pos b base r pos in
    (fill_step b r n cp).1 (omega (arith, high, p))
    ∙ fill_digits-none b base pos r (n / b) (digx false (n % b) ∷ cp) high

-- A stream that hands every character to its driver.
abbrev pub Plain : Stream → Type 0
Plain s = (s.is_writable ≡ true) × (s.is_buffered ≡ false) × (s.has_put ≡ true)

fputs-Plain : (cs : List ℕ) (s : Stream) → Plain s → fputs cs s ≡ record s { sent = s.sent ++ cs }
unfolding fputs
fputs-Plain cs s (w, b, p) = ground (arith, w, b)

fputc-Plain :
    (c : ℕ) (s : Stream) → Plain s → fputc c s ≡ some (record s { sent = s.sent ++ (c ∷ []) })
unfolding fputc
fputc-Plain c s (w, b, p) = ground (arith, w, b, p)

ltoa_zero : (b : ℕ) → ltoa (plus 0) b ≡ 48 ∷ []
unfolding ltoa
ltoa_zero b = refl

ltoa_pos : (b n : ℕ) → 0 < n → ltoa (plus n) b ≡ strrev (write_digits digit_char n b n)
unfolding ltoa
ltoa_pos b n p =
    let e : (n == 0) ≡ false = ground arith in
    ap (λ t. if t then 48 ∷ [] else strrev (write_digits digit_char n b n)) e

-- What `convert_to_num` does with a number that is not zero and below 2 ^ 63.
convert_pos :
    (b n : ℕ) (sign caps : Bool) (s : Stream)
    → 0 < n
    → n < 2 ^ 63
    → convert_to_num n b sign caps s
      ≡ and_then (fill_digits b caps room n []) (λ cs. some (fputs cs s))
unfolding convert_to_num
convert_pos b n sign caps s p small =
    let go = λ (t : Stream). and_then (fill_digits b caps room n []) (λ cs. some (fputs cs t)) in
    let nonzero : (n == 0) ≡ false = ground arith in
    let positive : (leb (2 ^ 63) n && sign) ≡ false = ground arith in
    let signed = λ (t : Bool). if◌then◌else◌ {A = Option Stream} t (fputc 45 s) (some s) in
    ap (λ t. if t then fputc 48 s else and_then (signed (leb (2 ^ 63) n && sign)) go) nonzero
    ∙ ap (λ t. and_then (signed t) go) positive

convert_zero : (b : ℕ) (sign caps : Bool) (s : Stream) → convert_to_num 0 b sign caps s ≡ fputc 48 s
unfolding convert_to_num
convert_zero b sign caps s = refl

-- A number that has the digits for it is written as `ltoa` has it, and no other.
convert-Base :
    (b n : ℕ) (sign : Bool) (s : Stream)
    → Base b
    → 0 < b
    → Plain s
    → n < 2 ^ 63
    → (n < pow b room
        → convert_to_num n b sign false s ≡ some (record s { sent = s.sent ++ ltoa (plus n) b }))
      × (0 < n → pow b room ≤ n → convert_to_num n b sign false s ≡ none)
convert-Base b n sign s base pos plain small = (
  λ h. elim (ℕ_discrete n 0) [
    | yes z ↦
        ap (λ m. convert_to_num m b sign false s) z
        ∙ convert_zero b sign false s
        ∙ fputc-Plain 48 s plain
        ∙ ap (λ cs. some (record s { sent = s.sent ++ cs }))
            (sym (ap (λ m. ltoa (plus m) b) z ∙ ltoa_zero b))
    | no nz ↦
        let p : 0 < n = omega (arith, nz) in
        let ds = strrev (write_digits digit_char n b n) in
        convert_pos b n sign false s p small
        ∙ ap (λ o. and_then o (λ cs. some (fputs cs s)))
            (fill_digits-some b base room n n [] p h (omega arith))
        ∙ ap some (fputs-Plain (ds ++ []) s plain)
        ∙ ap (λ cs. some (record s { sent = s.sent ++ cs })) (append-nil ds ∙ sym (ltoa_pos b n p))
  ],
  λ p h.
      convert_pos b n sign false s p small
      ∙ ap (λ o. and_then o (λ cs. some (fputs cs s))) (fill_digits-none b base pos room n [] h),
)

-- On a stream that hands every character to its driver, `convert_to_num` of a number below 2 ^ 31,
-- which is a `long`, writes what `ltoa` writes of it, in base 10 and in base 16 with small letters.
-- A number below 2 ^ 63 that has more than 15 digits in the base is stored in front of the buffer.
pub convert_to_num-ltoa :
    (n : ℕ) (sign : Bool) (s : Stream)
    → Plain s
    → n < 2 ^ 63
    → (n < 2 ^ 31
        → convert_to_num n 10 sign false s ≡ some (record s { sent = s.sent ++ ltoa (plus n) 10 }))
      × (10 ^ 15 ≤ n → convert_to_num n 10 sign false s ≡ none)
      × (n < 2 ^ 31
          → convert_to_num n 16 sign false s
            ≡ some (record s { sent = s.sent ++ ltoa (plus n) 16 }))
      × (16 ^ 15 ≤ n → convert_to_num n 16 sign false s ≡ none)
convert_to_num-ltoa n sign s plain small =
    let ten = convert-Base 10 n sign s ten-Base (omega arith) plain small in
    let hex = convert-Base 16 n sign s sixteen-Base (omega arith) plain small in
    (
      λ h. ten.0 (omega (arith, h)),
      λ h. ten.1 (omega (arith, h)) h,
      λ h. hex.0 (omega (arith, h)),
      λ h. hex.1 (omega (arith, h)) h,
    )
