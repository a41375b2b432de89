-- ===== src/Irq/Soft.antt =====
-- Interrupts that software triggers, by a pin (CONFIG_SOFT_IRQ): the last part of kernel/irq/irq.c, and
-- `cpu_trigger_irq` of arch/avr/kernel/irq.c.
use etaos.Prelude.{
  ℕ, Bool, true, false, not, ◌&&◌, Option, none, some, List, [], ◌∷◌, if◌then◌else◌, ◌==◌,
}
use etaos.Drivers.{Rc, eok, einval, succeeded}
use etaos.Drivers.Gpio.{GpioPin, GpioChip, gpio_pin_request, gpio_direction_output, gpio_pin_write}
use etaos.Irq.{Irqs, on_data, irq_to_data}

-- A store into `value` of the data.
abbrev pub set_value : {H : Type 0} → ℕ → Bool → Irqs H → Irqs H
set_value d v s = on_data d (λ x. record x { pin_value = v }) s

module _ {H : Type 0} (chip : GpioChip H) where
  -- A call that acts on a pin and the hardware.
  abbrev pub on_pin : ℕ → (GpioPin → H → Rc × GpioPin × H) → Irqs H → Irqs H
  on_pin p f s =
      let r = f (s.pins p) s.hardware in
      record s { pins = λ i. if i == p then r.1 else s.pins i; hardware = r.2 }

  -- `cpu_trigger_irq` for data with a pin, by `falling`, `rising` and the data's value.
  unfoldable pub trigger_pin : ℕ → ℕ → Bool → Bool → Bool → Irqs H → Irqs H
  unfolding gpio_pin_write
  trigger_pin d p falling rising old s =
      let write = λ (v : Bool) (t : Irqs H). on_pin p (gpio_pin_write chip v) t in
      if falling && rising
      then set_value d (not old) (write (not old) s)
      else if falling
      then set_value d false (write false (if old then s else write true s))
      else if rising
      then set_value d true (write true (if old then write false s else s))
      else s

  unfoldable pub trigger_or : ℕ → Irqs H → Option ℕ → Rc × Irqs H
  unfolding trigger_pin
  trigger_or d s none = (einval, s)
  trigger_or d s (some p) =
      let x = s.irq_data d in (eok, trigger_pin d p x.falling x.rising x.pin_value s)

  unfoldable pub cpu_trigger_irq : ℕ → Irqs H → Rc × Irqs H
  unfolding trigger_or
  cpu_trigger_irq d s = trigger_or d s (s.irq_data d).pin

  -- The loop of `irq_soft_trigger`, over the chip's interrupts that are left.
  unfoldable pub soft_trigger_in : ℕ → List ℕ → Irqs H → Rc × Irqs H
  unfolding cpu_trigger_irq
  soft_trigger_in n [] s = (einval, s)
  soft_trigger_in n (d ∷ ds) s =
      let rest = soft_trigger_in n ds s in
      if (s.irq_data d).irq == n then cpu_trigger_irq d s else rest

  unfoldable pub irq_soft_trigger : ℕ → Irqs H → Rc × Irqs H
  unfolding soft_trigger_in
  irq_soft_trigger n s = soft_trigger_in n s.irqs s

  -- `irq_assign_pin`
  unfoldable pub irq_assign_pin : ℕ → ℕ → ℕ → Irqs H → Rc × Irqs H
  unfolding irq_to_data gpio_pin_request gpio_direction_output
  irq_assign_pin vectors n p s =
      let r = gpio_pin_request (s.pins p) in
      let requested = record s { pins = λ i. if i == p then r.1 else s.pins i } in
      let output = on_pin p (gpio_direction_output chip false) requested in
      elim (irq_to_data vectors n s) [
        | none ↦ (einval, s)
        | some d ↦
            if succeeded r.0
            then (eok, on_data d (λ x. record x { pin = some p; pin_value = false }) output)
            else (r.0, requested)
      ]

-- `irq_remove_pin`, whose condition refuses data with a pin. Without one, `gpio_pin_release` gets NULL
-- and does nothing.
unfoldable pub irq_remove_pin : {H : Type 0} → ℕ → ℕ → Irqs H → Rc × Irqs H
unfolding irq_to_data
irq_remove_pin vectors n s = elim (irq_to_data vectors n s) [
  | none ↦ (einval, s)
  | some d ↦ elim (s.irq_data d).pin [
    | some p ↦ (einval, s)
    | none ↦ (eok, on_data d (λ x. record x { pin = none; pin_value = false }) s)
  ]
]
