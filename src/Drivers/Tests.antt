-- ===== src/Drivers/Tests.antt =====
-- Runs of the drivers' cores, and their theorems at concrete states.
use etaos.Prelude.{
  ℕ, ◌+◌, ◌%◌, ◌≢◌, List, [], ◌∷◌, get_elem?, length, arith, ◌≡◌, refl, Bool, true, false, Option,
  some, none, if◌then◌else◌, ◌==◌, ==_iff,
}
use etaos.Drivers.{Rc, eok, einval}
use etaos.Drivers.I2c.{I2cMsg, I2cBus}
use etaos.Drivers.Eeprom.Contents.{overlay, bytes_from}
use etaos.Drivers.Eeprom.Pages.{Eeprom}
use etaos.Drivers.Dht11.{Dht, dht11, raw_dht11_read}
use etaos.Drivers.Dht11.Signal.{run}
use etaos.Drivers.Dht11.Wave.{sensor_wave, raw_dht11_read-sensor_wave}
use etaos.Drivers.Gpio.{
  GpioPin, GpioChip, gpio_direction_output, gpio_pin_write, gpio_pin_read, raw_gpio_pin_write,
}
use etaos.Drivers.Gpio.Levels.{gpio_pin_read-write, open_drain_lem, Reads}

-- A sensor that was not read yet, with the count of a millisecond at 16 MHz.
abbrev sensor : Dht
sensor = record {
  has_pin = true;
  last_read = 0;
  last_read_ok = false;
  cycles = 16000;
  data_bytes = λ i. 0;
  read_temp = true;
  mode = dht11;
  disables = 0;
  enables = 0;
}

abbrev or_sensor : Option Dht → Dht
or_sensor none = sensor
or_sensor (some d) = d

-- 45 percent, and 23 degrees.
abbrev sent : List ℕ
sent = 45 ∷ 0 ∷ 23 ∷ 0 ∷ 68 ∷ []

raw_dht11_read-sensor_wave_example :
    (r : Dht) × (raw_dht11_read true 7 (sensor_wave sent) sensor ≡ some r)
    × (68 ≡ (45 + 0 + 23 + 0) % 256
        → (r.last_read_ok ≡ true) × ((k c : ℕ) → get_elem? sent k ≡ some c → r.data_bytes k ≡ c))
    × (68 ≢ (45 + 0 + 23 + 0) % 256 → (r.last_read_ok ≡ false) × (r.data_bytes ≡ sensor.data_bytes))
raw_dht11_read-sensor_wave_example =
    raw_dht11_read-sensor_wave 7 45 0 23 0 68 sensor (omega arith) (omega arith) (omega arith)
      (omega arith) (omega arith) (omega arith)

-- A line that stays high is no answer: preemption is enabled as often as it was disabled.
no_answer : (or_sensor (raw_dht11_read true 7 [] sensor)).enables ≡ 1
unfolding raw_dht11_read
no_answer = refl

-- A line that falls silent behind the sensor's answer: preemption is enabled twice.
enabled_twice :
    let wave = run 160 false (true ∷ run 160 true (false ∷ [])) in
    let r = or_sensor (raw_dht11_read true 7 wave sensor) in (r.disables ≡ 1) × (r.enables ≡ 2)
unfolding raw_dht11_read
enabled_twice = (refl, refl)

-- A port whose state is the level of each pin.
abbrev store_level : Bool → ℕ → (ℕ → Bool) → Rc × (ℕ → Bool)
store_level v n h = (eok, λ i. if i == n then v else h i)

abbrev level : ℕ → (ℕ → Bool) → Bool
level n h = h n

abbrev port : GpioChip (ℕ → Bool)
port = record {
  direction_output = store_level;
  direction_input = λ n h. (eok, h);
  get_direction = none;
  get = some level;
  set = store_level;
}

stored : (v : Bool) (n : ℕ) (h : ℕ → Bool) → level n (store_level v n h).1 ≡ v
stored v n h = rw ((==_iff n n).1 refl) refl

port-Reads : Reads port level (λ n h. true)
port-Reads = record {
  getter = refl;
  set_ok = λ v n h. refl;
  get_set = λ v n h o. stored v n h;
  out_set = λ v n h. refl;
  output_ok = λ v n h. refl;
  get_output = stored;
}

abbrev pin : GpioPin
pin = record {
  nr = 3;
  requested = true;
  is_output = false;
  active_low = false;
  open_drain = false;
  open_source = false;
}

abbrev drained : GpioPin
drained = record pin { open_drain = true }

abbrev low : ℕ → Bool
low n = false

-- What is written to a pin is read back.
pin_reads_back :
    let r = gpio_direction_output port true pin low in
    (r.0 ≡ eok) × (r.1.is_output ≡ true) × (gpio_pin_read port r.1 r.2 ≡ true)
pin_reads_back =
    (gpio_pin_read-write port level (λ n h. true) true pin low port-Reads refl refl refl).0

-- An open drain pin that is to be let go is driven.
drained_is_driven : gpio_pin_write port true drained low ≡ raw_gpio_pin_write port true drained low
drained_is_driven = (open_drain_lem port drained low refl refl refl refl).3

-- A bus with one EEPROM, whose state is whether it is ready, and what it holds.
abbrev Chip : Type 0
Chip = Bool × (ℕ → ℕ)

-- It stores what a message of an address and bytes has, if it is ready.
abbrev chip_write : List ℕ → Chip → Rc × Chip
chip_write ds (false, f) = (einval, (false, f))
chip_write [] (true, f) = (einval, (false, f))
chip_write (a ∷ ds) (true, f) = (eok, (false, overlay a ds f))

abbrev chip_read : List ℕ → I2cMsg → Chip → Rc × I2cMsg × Chip
chip_read ds rx (false, f) = (einval, rx, (false, f))
chip_read [] rx (true, f) = (einval, rx, (true, f))
chip_read (a ∷ ds) rx (true, f) =
    (eok, record rx { buff = bytes_from a (length rx.buff) f }, (true, f))

abbrev eeprom_xfer : List I2cMsg → Chip → Rc × List I2cMsg × Chip
eeprom_xfer [] h = (eok, [], h)
eeprom_xfer (m ∷ []) h = let r = chip_write m.buff h in (r.0, m ∷ [], r.1)
eeprom_xfer (m ∷ rx ∷ ms) h = let r = chip_read m.buff rx h in (r.0, m ∷ r.1 ∷ ms, r.2)

abbrev eeprom_bus : I2cBus Chip
eeprom_bus = record { timeout = 10; retries = 3; xfer = eeprom_xfer; set_speed = λ bps h. (eok, h) }

abbrev waited : Chip → Chip
waited (b, f) = (true, f)

abbrev is_ready : Chip → Bool
is_ready (b, f) = b

abbrev content_of : Chip → ℕ → ℕ
content_of (b, f) = f

abbrev eleven : List ℕ
eleven = 1 ∷ 2 ∷ 3 ∷ 4 ∷ 5 ∷ 6 ∷ 7 ∷ 8 ∷ 9 ∷ 10 ∷ 11 ∷ []

abbrev empty : List ℕ
empty = 0 ∷ 0 ∷ 0 ∷ 0 ∷ 0 ∷ 0 ∷ 0 ∷ 0 ∷ 0 ∷ 0 ∷ 0 ∷ []

abbrev erased : Chip
erased = (true, λ i. 255)
