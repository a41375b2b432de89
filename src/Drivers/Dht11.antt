-- ===== src/Drivers/Dht11.antt =====
-- drivers/sensors/dht11.c: a temperature and humidity sensor on one wire. The levels that the pin has at the
-- code's reads, one after the other, are an argument: a list, behind whose end the level does not change any
-- more. What the code writes to the pin, and its delays, are left out.
pub mod Signal
pub mod Wave
use etaos.Prelude.{
  ℕ, zero, suc, ◌+◌, ◌*◌, ◌/◌, ◌%◌, Bool, true, false, not, ◌&&◌, ◌||◌, Option, none, some, List,
  [], ◌∷◌, if◌then◌else◌, ◌==◌, ltb, leb,
}
use etaos.Drivers.{Rc, value, eok, einval}

-- DHT21 is never set, and is read as DHT22.
pub data DhtMode : Type 0 where
  dht11 dht22 : DhtMode

-- `struct dht11`, with how often `preempt_disable` and `preempt_enable` were called.
pub record Dht : Type 0 where
  pub has_pin : Bool
  pub last_read : ℕ
  pub last_read_ok : Bool
  pub cycles : ℕ
  pub data_bytes : ℕ → ℕ
  pub read_temp : Bool
  pub mode : DhtMode
  pub disables : ℕ
  pub enables : ℕ

abbrev same_level : Bool → Bool → Bool
same_level true b = b
same_level false b = not b

-- `dht_expect` with `count` so far: the count, or 0 when the time is over, and the levels that are left.
unfoldable pub dht_expect : ℕ → Bool → ℕ → List Bool → ℕ × List Bool
dht_expect cycles level count [] = (0, [])
dht_expect cycles level count (x ∷ xs) =
    let rest = dht_expect cycles level (count + 1) xs in
    if same_level x level then (if leb (cycles + 1) count then (0, xs) else rest) else (count, xs)

-- The loop that fills `cyclesdata`, for so many bits: the counts of the low and of the high level.
unfoldable pub read_cycles : ℕ → ℕ → List Bool → List (ℕ × ℕ)
unfolding dht_expect
read_cycles cycles zero xs = []
read_cycles cycles (suc n) xs =
    let low = dht_expect cycles false 1 xs in
    let high = dht_expect cycles true 1 low.1 in (low.0, high.0) ∷ read_cycles cycles n high.1

abbrev pub set_byte : ℕ → ℕ → (ℕ → ℕ) → ℕ → ℕ
set_byte j b f i = if i == j then b else f i

-- A bit that is shifted into a byte.
abbrev pub shift_in : ℕ → ℕ → ℕ → ℕ
shift_in low high b = if leb low high then b * 2 % 256 + 1 else b * 2 % 256

-- The loop over the bits, from bit `i` on; `none` is a count of zero.
unfoldable pub collect : ℕ → List (ℕ × ℕ) → (ℕ → ℕ) → Option (ℕ → ℕ)
collect i [] bytes = some bytes
collect i ((low, high) ∷ ps) bytes =
    let rest = collect (i + 1) ps (set_byte (i / 8) (shift_in low high (bytes (i / 8))) bytes) in
    if (low == 0) || (high == 0) then none else rest

-- `raw_dht11_read` from the parity check on.
unfoldable pub check_parity : (ℕ → ℕ) → Dht → Dht
check_parity bytes d =
    if bytes 4 == (bytes 0 + bytes 1 + bytes 2 + bytes 3) % 256
    then record d { last_read_ok = true; data_bytes = bytes }
    else record d { last_read_ok = false }

abbrev pub disable : Dht → Dht
disable d = record d { disables = d.disables + 1 }

abbrev pub enable : Dht → Dht
enable d = record d { enables = d.enables + 1 }

-- The end behind the reading of the bits; with a count of zero, preemption is enabled once more.
unfoldable pub decode : Option (ℕ → ℕ) → Dht → Dht
unfolding check_parity
decode none d = record (enable d) { last_read_ok = false }
decode (some bytes) d = check_parity bytes d

-- The end of `raw_dht11_read`; `none` is a store of the counts through NULL.
abbrev pub with_counts : Bool → Dht → Option Dht
with_counts memory d = if memory then some d else none

-- `raw_dht11_read` at the tick `now`; its answer is `last_read_ok` of the state. `memory` is whether the counts
-- are allocated, which the code does not look at.
unfoldable pub raw_dht11_read : Bool → ℕ → List Bool → Dht → Option Dht
unfolding dht_expect read_cycles collect decode
raw_dht11_read memory now xs d =
    let begun = disable (record d { last_read = now }) in
    let low = dht_expect d.cycles false 1 xs in
    let high = dht_expect d.cycles true 1 low.1 in
    let bits = collect 0 (read_cycles d.cycles 40 high.1) (λ i. 0) in
    if low.0 == 0
    then some (enable begun)
    else if high.0 == 0
    then some (enable begun)
    else with_counts memory (decode bits (enable begun))

-- The requests of `dht_ioctl`.
pub data DhtRequest : Type 0 where
  set_pin release_pin measure_temperature measure_humidity mode_dht11 mode_dht22 mode_dht21
        unknown :
      DhtRequest

unfoldable pub dht_ioctl : DhtRequest → Dht → Rc × Dht
dht_ioctl set_pin d = (eok, record d { has_pin = true })
dht_ioctl release_pin d = (if d.has_pin then eok else einval, d)
dht_ioctl measure_temperature d = (eok, record d { read_temp = true })
dht_ioctl measure_humidity d = (eok, record d { read_temp = false })
dht_ioctl mode_dht11 d = (eok, record d { mode = dht11 })
dht_ioctl mode_dht22 d = (eok, record d { mode = dht22 })
dht_ioctl mode_dht21 d = (eok, record d { mode = dht22 })
dht_ioctl unknown d = (einval, d)

-- A reading in tenths, by whether it is negative and its magnitude; or NAN.
pub data Reading : Type 0 where
  nan : Reading
  tenths : Bool → ℕ → Reading

-- The `switch` of `dht_read`, whose floating point computation is exact in tenths.
unfoldable pub reading : Dht → Reading
reading d =
    let b = d.data_bytes in
    elim d.mode [
      | dht11 ↦ tenths false (10 * (if d.read_temp then b 2 else b 0))
      | dht22 ↦
          if d.read_temp
          then tenths (leb 128 (b 2)) (b 2 % 128 * 256 + b 3)
          else tenths false (b 0 * 256 + b 1)
    ]

-- The `switch` of `dht_read` after a reading that may have been made.
abbrev pub answered : Option Dht → Option (Rc × Option Reading × Dht)
unfolding reading
answered none = none
answered (some d) =
    some (if d.last_read_ok then (value 4, some (reading d), d) else (einval, some nan, d))

-- `dht_read` at the tick `now` into a buffer of `length` bytes: the answer, what is written to the
-- buffer, if anything, and the state.
unfoldable pub dht_read : Bool → ℕ → ℕ → List Bool → Dht → Option (Rc × Option Reading × Dht)
unfolding raw_dht11_read answered
dht_read memory now length xs d =
    let fresh = ltb (d.last_read + 2000) now in
    let read = raw_dht11_read memory now xs d in
    if not (length == 4) then some (einval, none, d) else answered (if fresh then read else some d)
