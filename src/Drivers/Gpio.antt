-- ===== src/Drivers/Gpio.antt =====
-- drivers/gpio/gpiolib.c and include/etaos/gpio.h: pins. A pin's flags are Boolean fields, and an `int` that a pin
-- is given is whether it is not zero.
pub mod Levels
pub mod Atmega
use etaos.Prelude.{ℕ, Bool, true, false, not, ◌&&◌, Option, none, some, if◌then◌else◌, ◌==◌, leb}
use etaos.Drivers.{Rc, value, error, eok, einval, enomem, succeeded}

pub record GpioPin : Type 0 where
  pub nr : ℕ
  pub requested : Bool
  pub is_output : Bool
  pub active_low : Bool
  pub open_drain : Bool
  pub open_source : Bool

-- The functions of `struct gpio_chip` on the state `H` of the hardware. `get` and `get_direction` may
-- be missing.
pub record GpioChip (H : Type 0) : Type 0 where
  pub direction_output : Bool → ℕ → H → Rc × H
  pub direction_input : ℕ → H → Rc × H
  pub get_direction : Option (ℕ → H → Rc)
  pub get : Option (ℕ → H → Bool)
  pub set : Bool → ℕ → H → Rc × H

-- `gpio_set_open_drain` and `gpio_set_open_source`.
unfoldable pub gpio_set_open_drain : GpioPin → GpioPin
gpio_set_open_drain pin = record pin { open_source = false; open_drain = true }

unfoldable pub gpio_set_open_source : GpioPin → GpioPin
gpio_set_open_source pin = record pin { open_drain = false; open_source = true }

-- `gpio_pin_init`, where the flags are those of the given pin.
unfoldable pub gpio_pin_init : ℕ → GpioPin → GpioPin
gpio_pin_init n flags = record flags { nr = n; requested = false }

-- The array of pins of a chip, which is NULL if it could not be allocated; in it, a missing pin is NULL.
pub record GpioPins : Type 0 where
  pub num : ℕ
  pub pins : Option (ℕ → Option GpioPin)

-- `gpio_chip_init`; `memory` is whether the allocation succeeds.
unfoldable pub gpio_chip_init : Bool → ℕ → Rc × GpioPins
gpio_chip_init memory n =
    if memory
    then (eok, record { num = n; pins = some (λ i. none) })
    else (enomem, record { num = n; pins = none })

abbrev no_flags : GpioPin
no_flags = record {
  nr = 0;
  requested = false;
  is_output = false;
  active_low = false;
  open_drain = false;
  open_source = false;
}

-- The entry of a pin that is in the array, or that is made and stored there.
unfoldable pub pin_or_made : Bool → ℕ → GpioPins → (ℕ → Option GpioPin) → Option GpioPin × GpioPins
unfolding gpio_pin_init
pin_or_made memory n p pins =
    let made = if memory then some (gpio_pin_init n no_flags) else none in
    elim (pins n) [
      | none ↦ (made, record p { pins = some (λ i. if i == n then made else pins i) })
      | some pin ↦ (some pin, p)
    ]

-- `gpio_chip_to_pin` with CONFIG_GPIO_LOW_FOOTPRINT: a pin is made when it is first asked for. `none` is an
-- access to the missing array.
unfoldable pub gpio_chip_to_pin : Bool → ℕ → GpioPins → Option (Option GpioPin × GpioPins)
unfolding pin_or_made
gpio_chip_to_pin memory n p =
    let found : Option (Option GpioPin × GpioPins) = elim p.pins [
      | none ↦ none
      | some pins ↦ some (pin_or_made memory n p pins)
    ] in
    if leb p.num n then some (none, p) else found

unfoldable pub gpio_pin_request : GpioPin → Rc × GpioPin
gpio_pin_request pin = (if pin.requested then einval else eok, record pin { requested = true })

unfoldable pub gpio_pin_release : GpioPin → Rc × GpioPin
gpio_pin_release pin = (if pin.requested then eok else value 1, record pin { requested = false })

module _ {H : Type 0} (chip : GpioChip H) where
  -- `__raw_gpio_direction_input`
  unfoldable pub raw_direction_input : GpioPin → H → Rc × GpioPin × H
  raw_direction_input pin h =
      let r = chip.direction_input pin.nr h in
      (r.0, if succeeded r.0 then record pin { is_output = false } else pin, r.1)

  unfoldable pub gpio_direction_input : GpioPin → H → Rc × GpioPin × H
  unfolding raw_direction_input
  gpio_direction_input pin h =
      let r = raw_direction_input pin h in if pin.requested then r else (einval, pin, h)

  -- `__raw_gpio_direction_output`
  unfoldable pub raw_direction_output : Bool → GpioPin → H → Rc × GpioPin × H
  raw_direction_output v pin h =
      let r = chip.direction_output v pin.nr h in
      (r.0, if succeeded r.0 then record pin { is_output = true } else pin, r.1)

  -- `raw_gpio_direction_ouput`
  unfoldable pub raw_gpio_direction_output : Bool → GpioPin → H → Rc × GpioPin × H
  unfolding gpio_direction_input raw_direction_output
  raw_gpio_direction_output v pin h =
      let input = gpio_direction_input pin h in
      let output = raw_direction_output v pin h in
      if v && pin.open_drain
      then input
      else if not v && pin.open_source
      then input
      else if pin.requested
      then output
      else (einval, pin, h)

  unfoldable pub gpio_direction_output : Bool → GpioPin → H → Rc × GpioPin × H
  unfolding raw_gpio_direction_output
  gpio_direction_output v pin h =
      raw_gpio_direction_output (if pin.active_low then not v else v) pin h

  -- `raw_gpio_pin_write`, with `__raw_gpio_pin_write` at its end.
  unfoldable pub raw_gpio_pin_write : Bool → GpioPin → H → Rc × GpioPin × H
  raw_gpio_pin_write v pin h =
      let r = chip.set v pin.nr h in if pin.requested then (r.0, pin, r.1) else (einval, pin, h)

  unfoldable pub gpio_pin_write : Bool → GpioPin → H → Rc × GpioPin × H
  unfolding gpio_direction_input raw_gpio_pin_write
  gpio_pin_write val pin h =
      let v = if pin.active_low then not val else val in
      let input = gpio_direction_input pin h in
      let written = raw_gpio_pin_write v pin h in
      if pin.active_low && v then input else if pin.open_drain && not v then input else written

  -- `raw_gpio_read_pin`
  unfoldable pub raw_gpio_read_pin : GpioPin → H → Bool
  raw_gpio_read_pin pin h = elim chip.get [ none ↦ false | some get ↦ get pin.nr h ]

  -- `gpio_pin_read` of a pin that is not NULL.
  unfoldable pub gpio_pin_read : GpioPin → H → Bool
  unfolding raw_gpio_read_pin
  gpio_pin_read pin h = let v = raw_gpio_read_pin pin h in if pin.active_low then not v else v

  -- `gpio_get_direction` of a pin with a chip. `none` is a call of the function pointer NULL.
  unfoldable pub gpio_get_direction : GpioPin → Option (Rc × GpioPin)
  gpio_get_direction pin = elim chip.get_direction [ none ↦ none | some f ↦ some (einval, pin) ]
