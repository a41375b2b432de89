-- ===== src/Crt/RoundTrip.antt =====
-- Reading back what `ltoa` writes.
use etaos.Prelude.{
  ℕ, zero, suc, ◌+◌, ◌*◌, ◌/◌, ◌%◌, ◌≤◌, ◌<◌, ◌≡◌, refl, sym, ap, subst, ◌∙◌, inl, inr, Bool, true,
  false, List, [], ◌∷◌, ◌++◌, if◌then◌else◌, ◌==◌, leb, arith, Bool-cases, ℕ_discrete,
}
use etaos.Crt.{
  Long, plus, minus, long_max, Any, nothing, digits, overflow, is_overflow, isspace, isdigit,
  isupper, isalpha, digit_value, take_digit, scan, skip_spaces, take_sign, take_prefix, finish,
  strtol, digit_char, write_digits, strrev, ltoa,
}

digit_value-char : (d : ℕ) → d < 10 → digit_value 10 (digit_char d) ≡ d
unfolding digit_value isdigit isupper isalpha
digit_value-char d h = ground arith

take_digit_fits :
    (l acc d : ℕ) (a : Any)
    → is_overflow a ≡ false
    → d < 10
    → acc * 10 + d ≤ l
    → take_digit 10 (l / 10) (l % 10) d (acc, a) ≡ (acc * 10 + d, digits)
unfolding take_digit
take_digit_fits l acc d a o h b = ground arith

scan_one :
    (l acc d : ℕ) (a : Any)
    → is_overflow a ≡ false
    → d < 10
    → acc * 10 + d ≤ l
    → scan 10 (l / 10) (l % 10) (digit_char d ∷ []) (acc, a) ≡ ((acc * 10 + d, digits), [])
unfolding scan
scan_one l acc d a o h b =
    let v = digit_value-char d h in
    let small : leb 10 d ≡ false = ground arith in
    rw (v, scan) (rw (small, scan) (ap (λ s. (s, [])) (take_digit_fits l acc d a o h b)))

scan-append :
    (base cutoff cutlim : ℕ) (xs ys : List ℕ) (s s' : ℕ × Any)
    → scan base cutoff cutlim xs s ≡ (s', [])
    → scan base cutoff cutlim (xs ++ ys) s ≡ scan base cutoff cutlim ys s'
unfolding scan
scan-append base cutoff cutlim [] ys s s' e = ap (λ r. scan base cutoff cutlim ys r.0) e
scan-append base cutoff cutlim (x ∷ xs) ys s s' e =
    elim (Bool-cases (leb base (digit_value base x))) [
      | inl stop ↦
          let e' : ◌≡◌ {A = (ℕ × Any) × List ℕ} (s, x ∷ xs) (s', []) = rw (stop, scan) at e in
          absurd (cons_nil (ap (λ r. r.1) e'))
      | inr more ↦
          rw (more, scan)
            (scan-append base cutoff cutlim xs ys
              (take_digit base cutoff cutlim (digit_value base x) s) s' (rw (more, scan) at e))
    ]
  where
    cons_nil : ◌≡◌ {A = List ℕ} (x ∷ xs) [] → ⊥
    cons_nil h = ground arith

write_digits_step :
    (char : ℕ → ℕ) (fuel base n : ℕ)
    → 0 < n
    → write_digits char (suc fuel) base n ≡ char (n % base) ∷ write_digits char fuel base (n / base)
unfolding write_digits
write_digits_step char fuel base n p =
    let e : (n == 0) ≡ false = ground arith in
    ap (λ b. if b then [] else char (n % base) ∷ write_digits char fuel base (n / base)) e

write_digits_zero : (char : ℕ → ℕ) (fuel base : ℕ) → write_digits char fuel base 0 ≡ []
unfolding write_digits
write_digits_zero char zero base = refl
write_digits_zero char (suc fuel) base = refl

scan-write_digits :
    (l fuel n : ℕ)
    → n ≤ fuel
    → 0 < n
    → n ≤ l
    → scan 10 (l / 10) (l % 10) (strrev (write_digits digit_char fuel 10 n)) (0, nothing)
      ≡ ((n, digits), [])
unfolding strrev
scan-write_digits l zero n h p b = absurd (omega arith)
scan-write_digits l (suc fuel) n h p b =
    let d = n % 10 in
    let small : d < 10 = omega arith in
    let whole : n / 10 * 10 + d ≡ n = omega arith in
    let step = ap strrev (write_digits_step digit_char fuel 10 n p) in
    elim (ℕ_discrete (n / 10) 0) [
      | yes z ↦
          let none_left =
            ap (write_digits digit_char fuel 10) z ∙ write_digits_zero digit_char fuel 10 in
          let one = ap (λ xs. strrev xs ++ (digit_char d ∷ [])) none_left in
          let same : 0 * 10 + d ≡ n = omega arith in
          ap (Scan l) (step ∙ one)
          ∙ scan_one l 0 d nothing refl small (omega arith)
          ∙ ap (λ m. ((m, digits), [])) same
      | no nz ↦
          let ih = scan-write_digits l fuel (n / 10) (omega arith) (omega arith) (omega arith) in
          ap (Scan l) step
          ∙ scan-append 10 (l / 10) (l % 10) (strrev (write_digits digit_char fuel 10 (n / 10)))
              (digit_char d ∷ []) (0, nothing) (n / 10, digits) ih
          ∙ scan_one l (n / 10) d digits refl small (omega arith)
          ∙ ap (λ m. ((m, digits), [])) whole
    ]
  where
    Scan : ℕ → List ℕ → (ℕ × Any) × List ℕ
    Scan m xs = scan 10 (m / 10) (m % 10) xs (0, nothing)

-- A string that starts with a digit.
abbrev StartsDigit : List ℕ → Type 0
StartsDigit [] = ⊥
StartsDigit (c ∷ cs) = (48 ≤ c) × (c ≤ 57)

StartsDigit-append : (xs ys : List ℕ) → StartsDigit xs → StartsDigit (xs ++ ys)
StartsDigit-append [] ys h = absurd h
StartsDigit-append (x ∷ xs) ys h = h

write_digits-StartsDigit :
    (fuel n : ℕ) → n ≤ fuel → 0 < n → StartsDigit (strrev (write_digits digit_char fuel 10 n))
unfolding strrev
write_digits-StartsDigit zero n h p = absurd (omega arith)
write_digits-StartsDigit (suc fuel) n h p =
    let step = ap strrev (write_digits_step digit_char fuel 10 n p) in
    subst StartsDigit (sym step) (elim (ℕ_discrete (n / 10) 0) [
      | yes z ↦
          let none_left =
            ap (write_digits digit_char fuel 10) z ∙ write_digits_zero digit_char fuel 10 in
          subst (λ xs. StartsDigit (strrev xs ++ (digit_char (n % 10) ∷ []))) (sym none_left)
            (ground arith)
      | no nz ↦
          StartsDigit-append (strrev (write_digits digit_char fuel 10 (n / 10))) _
            (write_digits-StartsDigit fuel (n / 10) (omega arith) (omega arith))
    ])

skip-StartsDigit : (xs : List ℕ) → StartsDigit xs → skip_spaces xs ≡ xs
unfolding skip_spaces isspace
skip-StartsDigit [] h = absurd h
skip-StartsDigit (c ∷ cs) h = ground arith

sign-StartsDigit : (xs : List ℕ) → StartsDigit xs → take_sign xs ≡ (false, xs)
unfolding take_sign
sign-StartsDigit [] h = absurd h
sign-StartsDigit (c ∷ cs) h = ground arith

strrev-append : (xs : List ℕ) (c : ℕ) → strrev (xs ++ (c ∷ [])) ≡ c ∷ strrev xs
unfolding strrev
strrev-append [] c = refl
strrev-append (x ∷ xs) c = ap (λ ys. ys ++ (x ∷ [])) (strrev-append xs c)

-- `strtol` of a string behind its sign.
abbrev read : Bool → List ℕ → List ℕ → Long × List ℕ
read neg s digit_part =
    let limit = if neg then long_max + 1 else long_max in
    let r = scan 10 (limit / 10) (limit % 10) digit_part (0, nothing) in
    (finish neg r.0, elim r.0.1 [ nothing ↦ s | digits ↦ r.1 | overflow ↦ r.1 ])

strtol-digits : (s : List ℕ) → StartsDigit s → strtol s 10 ≡ read false s s
unfolding strtol take_prefix
strtol-digits s h =
    let e = ap take_sign (skip-StartsDigit s h) ∙ sign-StartsDigit s h in
    ap (λ (x : Bool × List ℕ). read x.0 s x.1) e

strtol-minus : (s : List ℕ) → strtol (45 ∷ s) 10 ≡ read true (45 ∷ s) s
unfolding strtol take_prefix skip_spaces take_sign isspace
strtol-minus s = refl

read-write_digits :
    (neg : Bool) (s : List ℕ) (n : ℕ)
    → 0 < n
    → n ≤ long_max
    → read neg s (strrev (write_digits digit_char n 10 n)) ≡ (if neg then minus n else plus n, [])
unfolding finish
read-write_digits true s n p b =
    ap
      (λ (r : (ℕ × Any) × List ℕ).
        (finish true r.0, elim r.0.1 [ nothing ↦ s | digits ↦ r.1 | overflow ↦ r.1 ]))
      (scan-write_digits (long_max + 1) n n (omega arith) p (omega arith))
read-write_digits false s n p b =
    ap
      (λ (r : (ℕ × Any) × List ℕ).
        (finish false r.0, elim r.0.1 [ nothing ↦ s | digits ↦ r.1 | overflow ↦ r.1 ]))
      (scan-write_digits long_max n n (omega arith) p (omega arith))

ltoa-written :
    (n : ℕ)
    → 0 < n
    → (ltoa (plus n) 10 ≡ strrev (write_digits digit_char n 10 n))
      × (ltoa (minus n) 10 ≡ strrev (write_digits digit_char n 10 n ++ (45 ∷ [])))
unfolding ltoa
ltoa-written n p =
    let ds = write_digits digit_char n 10 n in
    let e : (n == 0) ≡ false = ground arith in
    (
      ap (λ b. if b then 48 ∷ [] else strrev ds) e,
      ap (λ b. if b then 48 ∷ [] else strrev (ds ++ (45 ∷ []))) e,
    )

zero_back : strtol (ltoa (plus 0) 10) 10 ≡ (plus 0, [])
unfolding ltoa strtol take_prefix skip_spaces take_sign isspace scan digit_value isdigit take_digit
    finish
zero_back = refl

-- `strtol` reads back every number from 0 to LONG_MAX that `ltoa` writes in base 10, to the
-- string's end.
pub strtol-ltoa : (n : ℕ) → n ≤ long_max → strtol (ltoa (plus n) 10) 10 ≡ (plus n, [])
strtol-ltoa n b = elim (ℕ_discrete n 0) [
  | yes z ↦ subst (λ m. strtol (ltoa (plus m) 10) 10 ≡ (plus m, [])) (sym z) zero_back
  | no nz ↦
      let s = strrev (write_digits digit_char n 10 n) in
      ap (λ x. strtol x 10) (ltoa-written n (omega arith)).0
      ∙ strtol-digits s (write_digits-StartsDigit n n (omega arith) (omega arith))
      ∙ read-write_digits false s n (omega arith) b
]

-- `strtol` reads back every number from -LONG_MAX to -1 that `ltoa` writes in base 10, to the
-- string's end.
pub strtol-ltoa_minus :
    (n : ℕ) → 0 < n → n ≤ long_max → strtol (ltoa (minus n) 10) 10 ≡ (minus n, [])
strtol-ltoa_minus n p b =
    let ds = write_digits digit_char n 10 n in
    ap (λ x. strtol x 10) ((ltoa-written n p).1 ∙ strrev-append ds 45)
    ∙ strtol-minus (strrev ds)
    ∙ read-write_digits true (45 ∷ strrev ds) n p b
