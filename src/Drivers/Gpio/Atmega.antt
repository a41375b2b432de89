-- ===== src/Drivers/Gpio/Atmega.antt =====
-- drivers/gpio/atmega-gpio.c: the pins of an ATmega, where bit `nr % 8` of the registers of port `nr / 8` is the
-- pin `nr`. What drives a pin that is an input from outside is part of the state.
use etaos.Prelude.{ℕ, ◌≡◌, refl, ap, ◌∙◌, Bool, true, false, some, if◌then◌else◌, ◌==◌, ==_iff}
use etaos.Drivers.{Rc, value, eok}
use etaos.Drivers.Gpio.{GpioChip}
use etaos.Drivers.Gpio.Levels.{Reads}

-- The bits of PORTx and DDRx, and the levels from outside.
pub record Ports : Type 0 where
  pub port : ℕ → Bool
  pub ddr : ℕ → Bool
  pub outside : ℕ → Bool

-- A bit is set or cleared.
abbrev pub with_bit : ℕ → Bool → (ℕ → Bool) → ℕ → Bool
with_bit n v bits i = if i == n then v else bits i

unfoldable pub atmega_set_pin : Bool → ℕ → Ports → Rc × Ports
atmega_set_pin v n h = (eok, record h { port = with_bit n v h.port })

-- A pin that is an output has the level of its bit of PORTx.
unfoldable pub atmega_get_pin : ℕ → Ports → Bool
atmega_get_pin n h = if h.ddr n then h.port n else h.outside n

unfoldable pub atmega_dir_out : Bool → ℕ → Ports → Rc × Ports
unfolding atmega_set_pin
atmega_dir_out v n h = atmega_set_pin v n (record h { ddr = with_bit n true h.ddr })

unfoldable pub atmega_dir_in : ℕ → Ports → Rc × Ports
atmega_dir_in n h = (eok, record h { ddr = with_bit n false h.ddr })

unfoldable pub atmega_get_dir : ℕ → Ports → Rc
atmega_get_dir n h = if h.ddr n then value 0 else value 1

abbrev pub atmega_gpio_chip : GpioChip Ports
unfolding atmega_set_pin atmega_get_pin atmega_dir_out atmega_dir_in atmega_get_dir
atmega_gpio_chip = record {
  direction_output = atmega_dir_out;
  direction_input = atmega_dir_in;
  get_direction = some atmega_get_dir;
  get = some atmega_get_pin;
  set = atmega_set_pin;
}

abbrev pub is_out : ℕ → Ports → Bool
is_out n h = h.ddr n

bit_here : (n : ℕ) (v : Bool) (bits : ℕ → Bool) → with_bit n v bits n ≡ v
bit_here n v bits = ap (λ b. if b then v else bits n) ((==_iff n n).1 refl)

-- What is written to an output of an ATmega is what is read.
pub atmega-Reads : Reads atmega_gpio_chip atmega_get_pin is_out
unfolding atmega_gpio_chip atmega_set_pin atmega_get_pin atmega_dir_out
atmega-Reads = record {
  getter = refl;
  set_ok = λ v n h. refl;
  get_set =
      λ v n h o. ap (λ b. if b then with_bit n v h.port n else h.outside n) o ∙ bit_here n v h.port;
  out_set = λ v n h. refl;
  output_ok = λ v n h. refl;
  get_output = λ v n h.
      ap (λ b. if b then with_bit n v h.port n else h.outside n) (bit_here n true h.ddr)
      ∙ bit_here n v h.port;
}
