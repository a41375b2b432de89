-- ===== src/Crt/Printf/Text.antt =====
-- What `snprintf` does with a format that has no conversions.
use etaos.Prelude.{
  ℕ, zero, suc, ◌+◌, ◌%◌, ◌≤◌, ◌<◌, ◌≡◌, refl, sym, ap, ◌∙◌, true, false, none, some, List, [], ◌∷◌,
  if◌then◌else◌, ◌==◌, length, get_elem?, arith, none-some, some_inj, dec_lt,
}
use etaos.Crt.{Long}
use etaos.Crt.Printf.{
  Stream, buffer_char, fputc, and_then, Arg, text, percent, vfprintf, init_buffered, terminated,
  or_fault, snprintf,
}

-- A format without conversions.
abbrev pub PlainText : List ℕ → Type 0
PlainText [] = Unit
PlainText (c ∷ cs) = ((c == 37) ≡ false) × PlainText cs

-- What `vfprintf` of such a format has stored, from the index on.
abbrev Stored : List ℕ → Stream → Stream → Type 0
Stored fmt s t =
    (t.index ≡ s.index + length fmt)
    × (t.length ≡ s.length)
    × ((i c : ℕ) → get_elem? fmt i ≡ some c → t.buff (s.index + i) ≡ c)
    × ((j : ℕ) → j < s.index → t.buff j ≡ s.buff j)

text_step :
    (c : ℕ) (cs : List ℕ) (va : List Arg) (s : Stream)
    → (c == 37) ≡ false
    → vfprintf text (c ∷ cs) va s ≡ and_then (fputc c s) (λ t. vfprintf text cs va t)
unfolding vfprintf
text_step c cs va s e =
    ap
      (λ b.
        if b then vfprintf percent cs va s else and_then (fputc c s) (λ t. vfprintf text cs va t))
      e

fputc_fits :
    (c : ℕ) (s : Stream)
    → s.is_writable ≡ true
    → s.is_buffered ≡ true
    → (s.index < s.length → fputc c s ≡ some (buffer_char c s))
      × (s.length ≤ s.index → s.has_put ≡ false → fputc c s ≡ none)
unfolding fputc
fputc_fits c s w b = (λ h. ground (arith, w, b, h), λ h p. ground (arith, w, b, h, p))

stored_on :
    (c : ℕ) (cs : List ℕ) (s t : Stream)
    → ((i d : ℕ) → get_elem? cs i ≡ some d → t.buff (s.index + 1 + i) ≡ d)
    → t.buff s.index ≡ (buffer_char c s).buff s.index
    → (i d : ℕ) → get_elem? (c ∷ cs) i ≡ some d
    → t.buff (s.index + i) ≡ d
stored_on c cs s t new here zero d e =
    let same : s.index + 0 ≡ s.index = omega arith in
    let now : (buffer_char c s).buff s.index ≡ c = ground arith in
    ap t.buff same ∙ here ∙ now ∙ some_inj c d e
stored_on c cs s t new here (suc i) d e =
    let same : s.index + suc i ≡ s.index + 1 + i = omega arith in ap t.buff same ∙ new i d e

text_fits :
    (fmt : List ℕ) (va : List Arg) (s : Stream)
    → PlainText fmt
    → s.is_writable ≡ true
    → s.is_buffered ≡ true
    → s.index + length fmt ≤ s.length
    → (t : Stream) × (vfprintf text fmt va s ≡ some t) × Stored fmt s t
unfolding vfprintf
text_fits [] va s p w b h =
    (s, refl, (omega arith, refl, λ i c e. elim (none-some e) [ ], λ j lt. refl))
text_fits (c ∷ cs) va s p w b h =
    let (t, e, (at, long_as, new, old)) = text_fits cs va (buffer_char c s) p.1 w b (omega arith) in
    let one = text_step c cs va s p.0 in
    let put = (fputc_fits c s w b).0 (omega arith) in
    (
      t,
      one ∙ ap (λ o. and_then o (λ t. vfprintf text cs va t)) put ∙ e,
      (
        at ∙ omega arith,
        long_as,
        stored_on c cs s t new (old s.index (omega arith)),
        λ j lt. old j (omega arith) ∙ before c s j lt,
      ),
    )
  where
    before : (c : ℕ) (s : Stream) (j : ℕ) → j < s.index → (buffer_char c s).buff j ≡ s.buff j
    before c s j lt = ground arith

text_full :
    (fmt : List ℕ) (va : List Arg) (s : Stream)
    → PlainText fmt
    → s.is_writable ≡ true
    → s.is_buffered ≡ true
    → s.has_put ≡ false
    → s.index ≤ s.length
    → s.length < s.index + length fmt
    → vfprintf text fmt va s ≡ none
text_full [] va s p w b put le h = absurd (omega arith)
text_full (c ∷ cs) va s p w b put le h =
    let one = text_step c cs va s p.0 in
    let go = λ (t : Stream). vfprintf text cs va t in
    elim (dec_lt s.index s.length) [
      | yes lt ↦
          one
          ∙ ap (λ o. and_then o go) ((fputc_fits c s w b).0 lt)
          ∙ text_full cs va (buffer_char c s) p.1 w b put (omega (arith, lt)) (omega arith)
      | no ge ↦ one ∙ ap (λ o. and_then o go) ((fputc_fits c s w b).1 (omega (arith, ge)) put)
    ]

init_fields :
    (m : ℕ) (s : ℕ → ℕ) (f : Stream)
    → let t = init_buffered m s f in
      (t.is_writable ≡ true)
      × (t.is_buffered ≡ true)
      × (t.index ≡ 0)
      × (t.length ≡ m)
      × (t.has_put ≡ f.has_put)
unfolding init_buffered
init_fields m s f = (refl, refl, refl, refl, refl)

-- `snprintf` of a format without conversions, into a buffer of `n` bytes, at least one and fewer
-- than 2 ^ 16: if the format is shorter than the buffer, the buffer holds it with a zero behind it,
-- and if not, the code calls a function `put` that the file of its frame, where nothing is set,
-- does not have.
pub snprintf_text :
    (s : ℕ → ℕ) (n : ℕ) (fmt : List ℕ) (va : List Arg) (f : Stream)
    → 0 < n
    → n < 65536
    → PlainText fmt
    → f.has_put ≡ false
    → (length fmt < n
        → (r : Long × (ℕ → ℕ)) × (snprintf s n fmt va f ≡ some r)
          × ((i c : ℕ) → get_elem? fmt i ≡ some c → r.1 i ≡ c)
          × (r.1 (length fmt) ≡ 0))
      × (n ≤ length fmt → snprintf s n fmt va f ≡ none)
unfolding snprintf
snprintf_text s n fmt va f pos small plain put =
    let m = (n + 65535) % 65536 in
    let less : m + 1 ≡ n = omega arith in
    let start = init_buffered m s f in
    let (w, b, z, l, p) = init_fields m s f in
    (
      λ h.
          let (t, e, (at, long_as, new, old)) =
            text_fits fmt va start plain w b (omega (arith, z, l, less, h)) in
          let end : t.index ≡ length fmt = omega (arith, at, z) in
          (
            terminated t,
            ap or_fault e,
            λ i c g.
                let low = get_elem?-lt fmt i c g in
                let there : start.index + i ≡ i = omega (arith, z) in
                before_zero t i (omega (arith, end, low)) ∙ ap t.buff (sym there) ∙ new i c g,
            ap (λ k. (terminated t).1 k) (sym end) ∙ at_zero t,
          ),
      λ h. ap or_fault (
          text_full fmt va start plain w b (p ∙ put) (omega (arith, z))
            (omega (arith, z, l, less, h))),
    )
  where
    before_zero : (t : Stream) (i : ℕ) → i < t.index → (terminated t).1 i ≡ t.buff i
    before_zero t i lt = ground arith

    at_zero : (t : Stream) → (terminated t).1 t.index ≡ 0
    at_zero t = ground arith

    get_elem?-lt : (xs : List ℕ) (i c : ℕ) → get_elem? xs i ≡ some c → i < length xs
    get_elem?-lt [] i c e = elim (none-some e) [ ]
    get_elem?-lt (x ∷ xs) zero c e = omega arith
    get_elem?-lt (x ∷ xs) (suc i) c e = omega (arith, get_elem?-lt xs i c e)
