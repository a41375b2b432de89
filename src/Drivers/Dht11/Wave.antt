-- ===== src/Drivers/Dht11/Wave.antt =====
-- What `raw_dht11_read` makes of the wave that the sensor sends.
use etaos.Prelude.{
  ℕ, zero, suc, ◌+◌, ◌*◌, ◌/◌, ◌%◌, ◌≤◌, ◌<◌, ◌≡◌, ◌≢◌, refl, sym, ap, ◌∙◌, fun_ext, Bool, true,
  false, ◌||◌, none, some, List, [], ◌∷◌, ◌++◌, map, length, get_elem?, All, if◌then◌else◌, ◌==◌,
  arith, none-some, some_inj,
}
use etaos.Drivers.Dht11.{
  Dht, dht_expect, read_cycles, set_byte, shift_in, collect, check_parity, disable, enable, decode,
  with_counts, raw_dht11_read,
}
use etaos.Drivers.Dht11.Signal.{run, bits_wave, bits_of, expect_run, counts, bits_read}

shift_bit : (b x : ℕ) → b < 2 → shift_in 101 (counts b).1 x ≡ x * 2 % 256 + b
shift_bit b x lt = ground (arith, lt)

set_again :
    (i j v w : ℕ) (bytes : ℕ → ℕ) → i ≡ j → set_byte i w (set_byte j v bytes) ≡ set_byte j w bytes
set_again i j v w bytes e = fun_ext λ k. ground (arith, e)

set_here : (i j v : ℕ) (bytes : ℕ → ℕ) → i ≡ j → set_byte j v bytes i ≡ v
set_here i j v bytes e = ground (arith, e)

-- A bit that is read goes into its byte.
collect_bit :
    (i j b v : ℕ) (ps : List (ℕ × ℕ)) (bytes : ℕ → ℕ)
    → i / 8 ≡ j
    → b < 2
    → collect i (counts b ∷ ps) (set_byte j v bytes)
      ≡ collect (i + 1) ps (set_byte j (v * 2 % 256 + b) bytes)
unfolding collect
collect_bit i j b v ps bytes e lt =
    let high = (counts b).1 in
    let old = set_byte j v bytes in
    let rest = collect (i + 1) ps (set_byte (i / 8) (shift_in 101 high (old (i / 8))) old) in
    let counted : ((101 == 0) || (high == 0)) ≡ false = ground (arith, lt) in
    ap (λ t. if t then none else rest) counted
    ∙ ap (λ x. collect (i + 1) ps (set_byte (i / 8) (shift_in 101 high x) old))
        (set_here (i / 8) j v bytes e)
    ∙ ap (λ x. collect (i + 1) ps (set_byte (i / 8) x old)) (shift_bit b v lt)
    ∙ ap (collect (i + 1) ps) (set_again (i / 8) j v (v * 2 % 256 + b) bytes e)

byte_bits :
    (b : ℕ)
    → b < 256
    → ((((((((0 * 2 % 256 + b / 128 % 2) * 2 % 256 + b / 64 % 2) * 2 % 256 + b / 32 % 2) * 2 % 256
                        + b / 16 % 2)
                      * 2
                      % 256
                    + b / 8 % 2)
                  * 2
                  % 256
                + b / 4 % 2)
              * 2
              % 256
            + b / 2 % 2)
          * 2
          % 256
        + b % 2)
      ≡ b
byte_bits b h = omega (arith, h)

-- A byte into which bits are shifted.
abbrev shifted : ℕ → List ℕ → ℕ
shifted v [] = v
shifted v (d ∷ ds) = shifted (v * 2 % 256 + d) ds

collect_bits :
    (i j v : ℕ) (ds : List ℕ) (ps : List (ℕ × ℕ)) (bytes : ℕ → ℕ)
    → 8 * j ≤ i
    → i + length ds ≤ 8 * j + 8
    → All (λ d. d < 2) ds
    → collect i (map counts ds ++ ps) (set_byte j v bytes)
      ≡ collect (i + length ds) ps (set_byte j (shifted v ds) bytes)
collect_bits i j v [] ps bytes lo hi h = ap (λ k. collect k ps (set_byte j v bytes)) (omega arith)
collect_bits i j v (d ∷ ds) ps bytes lo hi h =
    let next : i + 1 + length ds ≡ i + suc (length ds) = omega arith in
    collect_bit i j d v (map counts ds ++ ps) bytes (omega arith) h.0
    ∙ collect_bits (i + 1) j (v * 2 % 256 + d) ds ps bytes (omega arith) (omega arith) h.1
    ∙ ap (λ k. collect k ps (set_byte j (shifted (v * 2 % 256 + d) ds) bytes)) next

bits_small : (b : ℕ) → All (λ d. d < 2) (bits_of (b ∷ []))
bits_small b = (
  omega arith,
  (
    omega arith,
    (omega arith, (omega arith, (omega arith, (omega arith, (omega arith, (omega arith, tt)))))),
  ),
)

zero_at : (j : ℕ) (bytes : ℕ → ℕ) → bytes j ≡ 0 → bytes ≡ set_byte j 0 bytes
zero_at j bytes e = fun_ext λ k. ground (arith, e)

-- What the bits of bytes leave, from byte `j` on.
abbrev Bytes : ℕ → List ℕ → (ℕ → ℕ) → (ℕ → ℕ) → Type 0
Bytes j bs f g =
    ((k c : ℕ) → get_elem? bs k ≡ some c → g (j + k) ≡ c) × ((k : ℕ) → k < j → g k ≡ f k)

collect_bytes :
    (i j : ℕ) (bs : List ℕ) (f : ℕ → ℕ)
    → i ≡ 8 * j
    → ((k : ℕ) → j ≤ k → f k ≡ 0)
    → All (λ b. b < 256) bs
    → (g : ℕ → ℕ) × (collect i (map counts (bits_of bs)) f ≡ some g) × Bytes j bs f g
unfolding collect
collect_bytes i j [] f e z h = (f, refl, (λ k c n. elim (none-some n) [ ], λ k lt. refl))
collect_bytes i j (b ∷ bs) f e z h =
    let f' = set_byte j b f in
    let ps = map counts (bits_of bs) in
    let kept = λ (k : ℕ) (ne : j < k). set_other j k b f ne in
    let (g, run, (new, old)) =
      collect_bytes (i + 8) (j + 1) bs f' (omega (arith, e))
        (λ k le. kept k (omega (arith, le)) ∙ z k (omega (arith, le))) h.1 in
    let first =
      ap (collect i (map counts (bits_of (b ∷ bs)))) (zero_at j f (z j (omega arith)))
      ∙ collect_bits i j 0 (bits_of (b ∷ [])) ps f (omega (arith, e)) (omega (arith, e))
          (bits_small b)
      ∙ ap (λ v. collect (i + 8) ps (set_byte j v f)) (byte_bits b h.0) in
    (
      g,
      first ∙ run,
      (
        bytes_on j b bs g new (old j (omega arith) ∙ set_here j j b f refl),
        λ k lt. old k (omega (arith, lt)) ∙ set_below j k b f lt,
      ),
    )
  where
    set_other : (j k b : ℕ) (f : ℕ → ℕ) → j < k → set_byte j b f k ≡ f k
    set_other j k b f ne = ground (arith, ne)

    set_below : (j k b : ℕ) (f : ℕ → ℕ) → k < j → set_byte j b f k ≡ f k
    set_below j k b f ne = ground (arith, ne)

    bytes_on :
        (j b : ℕ) (bs : List ℕ) (g : ℕ → ℕ)
        → ((k c : ℕ) → get_elem? bs k ≡ some c → g (j + 1 + k) ≡ c)
        → g j ≡ b
        → (k c : ℕ) → get_elem? (b ∷ bs) k ≡ some c
        → g (j + k) ≡ c
    bytes_on j b bs g new here zero c n =
        let same : j + 0 ≡ j = omega arith in ap g same ∙ here ∙ some_inj b c n
    bytes_on j b bs g new here (suc k) c n =
        let same : j + suc k ≡ j + 1 + k = omega arith in ap g same ∙ new k c n

-- What the sensor sends: it answers with a low and a high level of 80 microseconds, and sends five bytes.
abbrev pub sensor_wave : List ℕ → List Bool
sensor_wave bs = run 160 false (true ∷ run 160 true (false ∷ bits_wave (bits_of bs) []))

decoded :
    (bytes : ℕ → ℕ) (d : Dht)
    → ((bytes 4 ≡ (bytes 0 + bytes 1 + bytes 2 + bytes 3) % 256)
        → decode (some bytes) d ≡ record d { last_read_ok = true; data_bytes = bytes })
      × ((bytes 4 ≢ (bytes 0 + bytes 1 + bytes 2 + bytes 3) % 256)
          → decode (some bytes) d ≡ record d { last_read_ok = false })
unfolding decode check_parity
decoded bytes d =
    let sum = (bytes 0 + bytes 1 + bytes 2 + bytes 3) % 256 in
    let good = record d { last_read_ok = true; data_bytes = bytes } in
    let bad = record d { last_read_ok = false } in
    (
      λ e.
          let t : (bytes 4 == sum) ≡ true = ground (arith, e) in
          ap (λ b. if b then good else bad) t,
      λ ne.
          let t : (bytes 4 == sum) ≡ false = ground (arith, ne) in
          ap (λ b. if b then good else bad) t,
    )

-- The answer of the sensor is seen, and its five bytes are collected.
read_sensor :
    (now b₀ b₁ b₂ b₃ b₄ : ℕ) (d : Dht)
    → 200 ≤ d.cycles
    → let bs = b₀ ∷ b₁ ∷ b₂ ∷ b₃ ∷ b₄ ∷ [] in
      raw_dht11_read true now (sensor_wave bs) d
      ≡ some (
          decode
            (collect 0 (map counts (bits_of bs)) (λ i. 0))
            (enable (disable (record d { last_read = now }))))
unfolding raw_dht11_read
read_sensor now b₀ b₁ b₂ b₃ b₄ d h =
    let bs = b₀ ∷ b₁ ∷ b₂ ∷ b₃ ∷ b₄ ∷ [] in
    let bits = bits_wave (bits_of bs) [] in
    let begun = disable (record d { last_read = now }) in
    let rest = λ (low high : ℕ × List Bool) (ps : List (ℕ × ℕ)).
      if low.0 == 0
      then some (enable begun)
      else if high.0 == 0
      then some (enable begun)
      else with_counts true (decode (collect 0 ps (λ i. 0)) (enable begun)) in
    let on_low = λ (low : ℕ × List Bool).
      let high = dht_expect d.cycles true 1 low.1 in
      rest low high (read_cycles d.cycles 40 high.1) in
    let on_high = λ (high : ℕ × List Bool).
      rest (161, run 160 true (false ∷ bits)) high (read_cycles d.cycles 40 high.1) in
    ap on_low (expect_run d.cycles false 1 160 (run 160 true (false ∷ bits)) (omega (arith, h)))
    ∙ ap on_high (expect_run d.cycles true 1 160 bits (omega (arith, h)))
    ∙ ap (λ ps. some (decode (collect 0 ps (λ i. 0)) (enable begun)))
        (bits_read d.cycles (bits_of bs) [] h)

-- Five bytes that the sensor sends are what `raw_dht11_read` stores, if the fifth is the sum of the
-- others modulo 256; if it is not, the reading is marked as failed and the bytes of before stay.
-- There is memory for the counts, a level may last at least 200 reads of the pin, and the pin is
-- read twice in a microsecond of this wave: an answer of 80 microseconds low and 80 high, and for
-- each bit 50 low and then 26 high for a zero or 70 for a one, each level followed by one read of
-- the next.
pub raw_dht11_read-sensor_wave :
    (now b₀ b₁ b₂ b₃ b₄ : ℕ) (d : Dht)
    → 200 ≤ d.cycles
    → b₀ < 256
    → b₁ < 256
    → b₂ < 256
    → b₃ < 256
    → b₄ < 256
    → let bs = b₀ ∷ b₁ ∷ b₂ ∷ b₃ ∷ b₄ ∷ [] in
      (r : Dht) × (raw_dht11_read true now (sensor_wave bs) d ≡ some r)
      × (b₄ ≡ (b₀ + b₁ + b₂ + b₃) % 256
          → (r.last_read_ok ≡ true) × ((k c : ℕ) → get_elem? bs k ≡ some c → r.data_bytes k ≡ c))
      × (b₄ ≢ (b₀ + b₁ + b₂ + b₃) % 256 → (r.last_read_ok ≡ false) × (r.data_bytes ≡ d.data_bytes))
raw_dht11_read-sensor_wave now b₀ b₁ b₂ b₃ b₄ d h l₀ l₁ l₂ l₃ l₄ =
    let bs = b₀ ∷ b₁ ∷ b₂ ∷ b₃ ∷ b₄ ∷ [] in
    let d' = enable (disable (record d { last_read = now })) in
    let (g, run, (new, old)) =
      collect_bytes 0 0 bs (λ i. 0) (omega arith) (λ k le. refl) (l₀, (l₁, (l₂, (l₃, (l₄, tt))))) in
    let e = ap (λ o. decode o d') run in
    let sum : (g 0 + g 1 + g 2 + g 3) % 256 ≡ (b₀ + b₁ + b₂ + b₃) % 256 =
      omega (arith, new 0 b₀ refl, new 1 b₁ refl, new 2 b₂ refl, new 3 b₃ refl) in
    let fifth = new 4 b₄ refl in
    (
      decode (collect 0 (map counts (bits_of bs)) (λ i. 0)) d',
      read_sensor now b₀ b₁ b₂ b₃ b₄ d h,
      λ c.
          let r = e ∙ (decoded g d').0 (fifth ∙ c ∙ sym sum) in
          (
            ap (λ (x : Dht). x.last_read_ok) r,
            λ k c n.
                let same : k ≡ 0 + k = omega arith in
                ap (λ (x : Dht). x.data_bytes k) r ∙ ap g same ∙ new k c n,
          ),
      λ c.
          let r = e ∙ (decoded g d').1 (λ q. c (sym fifth ∙ q ∙ sum)) in
          (ap (λ (x : Dht). x.last_read_ok) r, ap (λ (x : Dht). x.data_bytes) r),
    )
