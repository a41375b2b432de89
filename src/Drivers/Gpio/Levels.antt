-- ===== src/Drivers/Gpio/Levels.antt =====
-- What the functions of drivers/gpio/gpiolib.c do to the level of a pin.
use etaos.Prelude.{ℕ, ◌≡◌, ap, ◌∙◌, Bool, true, false, not, some, if◌then◌else◌, arith}
use etaos.Drivers.{Rc, eok, einval, succeeded}
use etaos.Drivers.Gpio.{
  GpioPin, GpioChip, gpio_direction_input, gpio_direction_output, gpio_pin_write,
  raw_gpio_direction_output, raw_gpio_pin_write, gpio_pin_read, raw_gpio_read_pin,
  raw_direction_output,
}

-- What is written to a pin that is an output is what is read; `out` is whether the hardware has the pin as one.
pub record Reads {H : Type 0} (chip : GpioChip H) (get out : ℕ → H → Bool) : Type 0 where
  pub getter : chip.get ≡ some get
  pub set_ok : (v : Bool) (n : ℕ) (h : H) → (chip.set v n h).0 ≡ eok
  pub get_set : (v : Bool) (n : ℕ) (h : H) → out n h ≡ true → get n (chip.set v n h).1 ≡ v
  pub out_set : (v : Bool) (n : ℕ) (h : H) → out n (chip.set v n h).1 ≡ out n h
  pub output_ok : (v : Bool) (n : ℕ) (h : H) → (chip.direction_output v n h).0 ≡ eok
  pub get_output : (v : Bool) (n : ℕ) (h : H) → get n (chip.direction_output v n h).1 ≡ v

module _ {H : Type 0} (chip : GpioChip H) where
  -- Nothing that sets the direction or the level of a pin reaches the hardware, or changes the pin,
  -- before `gpio_pin_request` has granted it: each answers -EINVAL.
  pub unrequested_lem :
      (v : Bool) (pin : GpioPin) (h : H)
      → pin.requested ≡ false
      → (gpio_direction_input chip pin h ≡ (einval, pin, h))
        × (gpio_direction_output chip v pin h ≡ (einval, pin, h))
        × (gpio_pin_write chip v pin h ≡ (einval, pin, h))
  unfolding gpio_direction_input gpio_direction_output raw_gpio_direction_output gpio_pin_write
      raw_gpio_pin_write
  unrequested_lem v pin h e = ground arith

  -- What a read answers after the hardware has a value for the pin.
  read_back :
      (get : ℕ → H → Bool) (v : Bool) (pin : GpioPin) (h : H)
      → chip.get ≡ some get
      → get pin.nr h ≡ v
      → gpio_pin_read chip pin h ≡ (if pin.active_low then not v else v)
  unfolding gpio_pin_read raw_gpio_read_pin
  read_back get v pin h g e = ground (arith, g, e)

  driven :
      (v : Bool) (pin : GpioPin) (h : H)
      → pin.requested ≡ true
      → pin.open_drain ≡ false
      → pin.open_source ≡ false
      → gpio_direction_output chip v pin h
        ≡ raw_direction_output chip (if pin.active_low then not v else v) pin h
  unfolding gpio_direction_output raw_gpio_direction_output
  driven v pin h q d s = ground arith

  pub written :
      (v : Bool) (pin : GpioPin) (h : H)
      → pin.requested ≡ true
      → pin.open_drain ≡ false
      → pin.active_low ≡ false
      → gpio_pin_write chip v pin h ≡ ((chip.set v pin.nr h).0, pin, (chip.set v pin.nr h).1)
  unfolding gpio_pin_write raw_gpio_pin_write
  written v pin h q d a = ground arith

  drives :
      (get out : ℕ → H → Bool) (w : Bool) (pin : GpioPin) (h : H)
      → Reads chip get out
      → raw_direction_output chip w pin h
        ≡ (eok, record pin { is_output = true }, (chip.direction_output w pin.nr h).1)
  unfolding raw_direction_output
  drives get out w pin h laws =
      let r = chip.direction_output w pin.nr h in
      ap (λ (rc : Rc). (rc, if succeeded rc then record pin { is_output = true } else pin, r.1))
        (laws.output_ok w pin.nr h)

  invert_twice :
      (a v : Bool) → (if a then not (if a then not v else v) else (if a then not v else v)) ≡ v
  invert_twice a v = ground arith

  -- A pin without open drain and open source that is requested reads back the value that
  -- `gpio_direction_output` gave it; and so it does the value of `gpio_pin_write`, if it is an
  -- output and not active low.
  pub gpio_pin_read-write :
      (get out : ℕ → H → Bool) (v : Bool) (pin : GpioPin) (h : H)
      → Reads chip get out
      → pin.requested ≡ true
      → pin.open_drain ≡ false
      → pin.open_source ≡ false
      → (let r = gpio_direction_output chip v pin h in
          (r.0 ≡ eok) × (r.1.is_output ≡ true) × (gpio_pin_read chip r.1 r.2 ≡ v))
        × (pin.active_low ≡ false
            → out pin.nr h ≡ true
            → let r = gpio_pin_write chip v pin h in
              (r.0 ≡ eok) × (r.1 ≡ pin) × (gpio_pin_read chip r.1 r.2 ≡ v))
  gpio_pin_read-write get out v pin h laws q d s =
      let w = if pin.active_low then not v else v in
      let pin' = record pin { is_output = true } in
      let e = driven v pin h q d s ∙ drives get out w pin h laws in
      (
        (
          ap (λ (r : Rc × GpioPin × H). r.0) e,
          ap (λ (r : Rc × GpioPin × H). r.1.is_output) e,
          ap (λ (r : Rc × GpioPin × H). gpio_pin_read chip r.1 r.2) e
              ∙ read_back get w pin' (chip.direction_output w pin.nr h).1 laws.getter
                  (laws.get_output w pin.nr h)
              ∙ invert_twice pin.active_low v,
        ),
        λ a o.
            let f = written v pin h q d a in
            (
              ap (λ (r : Rc × GpioPin × H). r.0) f ∙ laws.set_ok v pin.nr h,
              ap (λ (r : Rc × GpioPin × H). r.1) f,
              ap (λ (r : Rc × GpioPin × H). gpio_pin_read chip r.1 r.2) f
                  ∙ read_back get v pin (chip.set v pin.nr h).1 laws.getter
                      (laws.get_set v pin.nr h o)
                  ∙ ap (λ b. if b then not v else v) a,
            ),
      )

  -- On an open drain pin that is not active low, `gpio_direction_output` leaves the line open for
  -- the value one and drives it for zero, and `gpio_pin_write` does it the other way round.
  pub open_drain_lem :
      (pin : GpioPin) (h : H)
      → pin.open_drain ≡ true
      → pin.open_source ≡ false
      → pin.active_low ≡ false
      → pin.requested ≡ true
      → (gpio_direction_output chip true pin h ≡ gpio_direction_input chip pin h)
        × (gpio_direction_output chip false pin h ≡ raw_direction_output chip false pin h)
        × (gpio_pin_write chip false pin h ≡ gpio_direction_input chip pin h)
        × (gpio_pin_write chip true pin h ≡ raw_gpio_pin_write chip true pin h)
  unfolding gpio_direction_output raw_gpio_direction_output gpio_pin_write
  open_drain_lem pin h d s a q = ground arith
