-- ===== src/Drivers/Dht11/Signal.antt =====
-- The levels that the sensor of drivers/sensors/dht11.c sends, and the counts that the code makes of them.
use etaos.Prelude.{
  ℕ, zero, suc, ◌+◌, ◌/◌, ◌%◌, ◌≤◌, ◌<◌, ◌≡◌, inl, inr, refl, sym, ap, ◌∙◌, subst, Bool, true,
  false, not, List, [], ◌∷◌, map, length, if◌then◌else◌, ◌==◌, leb, arith, Bool-cases,
}
use etaos.Drivers.Dht11.{dht_expect, read_cycles}

-- The line at one level for so many reads.
abbrev pub run : ℕ → Bool → List Bool → List Bool
run zero level xs = xs
run (suc n) level xs = level ∷ run n level xs

-- A bit as the sensor sends it: 50 microseconds low, and 26 or 70 high, at two reads in a microsecond. The
-- first read of each level is the one that ended the level before.
abbrev pub bit_wave : ℕ → List Bool → List Bool
bit_wave b xs = run 100 false (true ∷ run (if b == 0 then 52 else 140) true (false ∷ xs))

abbrev pub bits_wave : List ℕ → List Bool → List Bool
bits_wave [] xs = xs
bits_wave (b ∷ bs) xs = bit_wave b (bits_wave bs xs)

-- The bits of bytes, the highest first.
abbrev pub bits_of : List ℕ → List ℕ
bits_of [] = []
bits_of (b ∷ bs) =
    b / 128 % 2
    ∷ b / 64 % 2
    ∷ b / 32 % 2
    ∷ b / 16 % 2
    ∷ b / 8 % 2
    ∷ b / 4 % 2
    ∷ b / 2 % 2
    ∷ b % 2
    ∷ bits_of bs

expect_more :
    (cycles : ℕ) (level : Bool) (count n : ℕ) (xs : List Bool)
    → count < cycles + 1
    → dht_expect cycles level count (level ∷ xs) ≡ dht_expect cycles level (count + 1) xs
unfolding dht_expect
expect_more cycles true count n xs h =
    let e : leb (cycles + 1) count ≡ false = ground arith in
    ap (λ b. if b then (0, xs) else dht_expect cycles true (count + 1) xs) e
expect_more cycles false count n xs h =
    let e : leb (cycles + 1) count ≡ false = ground arith in
    ap (λ b. if b then (0, xs) else dht_expect cycles false (count + 1) xs) e

pub expect_run :
    (cycles : ℕ) (level : Bool) (count n : ℕ) (xs : List Bool)
    → count + n ≤ cycles + 1
    → dht_expect cycles level count (run n level (not level ∷ xs)) ≡ (count + n, xs)
unfolding dht_expect
expect_run cycles true count zero xs h = ap (λ n. (n, xs)) (omega arith)
expect_run cycles false count zero xs h = ap (λ n. (n, xs)) (omega arith)
expect_run cycles true count (suc n) xs h =
    expect_more cycles true count n (run n true (false ∷ xs)) (omega arith)
    ∙ expect_run cycles true (count + 1) n xs (omega arith)
    ∙ ap (λ n. (n, xs)) (omega arith)
expect_run cycles false count (suc n) xs h =
    expect_more cycles false count n (run n false (true ∷ xs)) (omega arith)
    ∙ expect_run cycles false (count + 1) n xs (omega arith)
    ∙ ap (λ n. (n, xs)) (omega arith)

-- The counts of a bit.
abbrev pub counts : ℕ → ℕ × ℕ
counts b = (101, (if b == 0 then 53 else 141))

bit_high :
    (cycles b : ℕ) (xs : List Bool)
    → 200 ≤ cycles
    → dht_expect cycles true 1 (run (if b == 0 then 52 else 140) true (false ∷ xs))
      ≡ ((counts b).1, xs)
bit_high cycles b xs h = elim (Bool-cases (b == 0)) [
  | inl e ↦
      subst
        (λ t.
          dht_expect cycles true 1 (run (if t then 52 else 140) true (false ∷ xs))
          ≡ (if t then 53 else 141, xs))
        (sym e) (expect_run cycles true 1 52 xs (omega arith))
  | inr e ↦
      subst
        (λ t.
          dht_expect cycles true 1 (run (if t then 52 else 140) true (false ∷ xs))
          ≡ (if t then 53 else 141, xs))
        (sym e) (expect_run cycles true 1 140 xs (omega arith))
]

bit_read :
    (cycles n b : ℕ) (xs : List Bool)
    → 200 ≤ cycles
    → read_cycles cycles (suc n) (bit_wave b xs) ≡ counts b ∷ read_cycles cycles n xs
unfolding read_cycles
bit_read cycles n b xs h =
    let tail = run (if b == 0 then 52 else 140) true (false ∷ xs) in
    ap
      (λ (low : ℕ × List Bool).
        let high = dht_expect cycles true 1 low.1 in (low.0, high.0) ∷ read_cycles cycles n high.1)
      (expect_run cycles false 1 100 tail (omega arith))
    ∙ ap (λ (high : ℕ × List Bool). (101, high.0) ∷ read_cycles cycles n high.1)
        (bit_high cycles b xs h)

pub bits_read :
    (cycles : ℕ) (bs : List ℕ) (xs : List Bool)
    → 200 ≤ cycles
    → read_cycles cycles (length bs) (bits_wave bs xs) ≡ map counts bs
unfolding read_cycles
bits_read cycles [] xs h = refl
bits_read cycles (b ∷ bs) xs h =
    bit_read cycles (length bs) b (bits_wave bs xs) h
    ∙ ap (λ ps. counts b ∷ ps) (bits_read cycles bs xs h)
