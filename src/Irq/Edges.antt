-- ===== src/Irq/Edges.antt =====
-- The edge that a triggered interrupt puts on its pin.
use etaos.Prelude.{
  ℕ, ◌≡◌, refl, sym, ap, ◌∙◌, subst, Bool, true, false, not, ◌&&◌, ◌||◌, some, List, ◌∷◌,
  if◌then◌else◌, ==_iff, arith,
}
use etaos.Drivers.{Rc, eok}
use etaos.Drivers.Gpio.{GpioPin, GpioChip, gpio_pin_write}
use etaos.Drivers.Gpio.Levels.{Reads, written}
use etaos.Irq.{IrqData, Irqs}
use etaos.Irq.Soft.{
  on_pin, set_value, trigger_pin, trigger_or, cpu_trigger_irq, soft_trigger_in, irq_soft_trigger,
}

module _ {H : Type 0} (chip : GpioChip H) (get out : ℕ → H → Bool) where
  -- A write has taken the pin from the other level to `v`.
  abbrev pub Edge : Bool → ℕ → H → Type 0
  Edge v n h' = (h : H) × (get n h ≡ not v) × (h' ≡ (chip.set v n h).1) × (get n h' ≡ v)

  -- A pin that is granted and drives both levels.
  abbrev pub Driven : GpioPin → Type 0
  Driven pin = (pin.requested ≡ true) × (pin.open_drain ≡ false) × (pin.active_low ≡ false)

  drive : ℕ → Bool → Irqs H → Irqs H
  drive p v t = on_pin chip p (gpio_pin_write chip v) t

  drive_lem :
      (p : ℕ) (v : Bool) (t : Irqs H)
      → Driven (t.pins p)
      → ((drive p v t).hardware ≡ (chip.set v (t.pins p).nr t.hardware).1)
        × ((drive p v t).pins p ≡ t.pins p)
        × ((drive p v t).irq_data ≡ t.irq_data)
  unfolding drive
  drive_lem p v t (q, d, a) =
      let e = written chip v (t.pins p) t.hardware q d a in
      (
        ap (λ (r : Rc × GpioPin × H). r.2) e,
        rw ((==_iff p p).1 refl) (ap (λ (r : Rc × GpioPin × H). r.1) e),
        refl,
      )

  drive-Edge :
      (p : ℕ) (v : Bool) (t : Irqs H)
      → Reads chip get out
      → Driven (t.pins p)
      → out (t.pins p).nr t.hardware ≡ true
      → get (t.pins p).nr t.hardware ≡ not v
      → Edge v (t.pins p).nr (drive p v t).hardware
  drive-Edge p v t laws d o before =
      let e = (drive_lem p v t d).0 in
      (t.hardware, before, e, ap (get (t.pins p).nr) e ∙ laws.get_set v (t.pins p).nr t.hardware o)

  -- A write that may come first, to bring the pin to the level `w`.
  abbrev prepared : ℕ → Bool → Bool → Irqs H → Irqs H
  unfolding drive
  prepared p w there t = if there then t else drive p w t

  prepared_lem :
      (p : ℕ) (w there : Bool) (t : Irqs H)
      → Reads chip get out
      → Driven (t.pins p)
      → out (t.pins p).nr t.hardware ≡ true
      → (there ≡ true → get (t.pins p).nr t.hardware ≡ w)
      → let u = prepared p w there t in
        (get (t.pins p).nr u.hardware ≡ w)
        × (u.pins p ≡ t.pins p)
        × (u.irq_data ≡ t.irq_data)
        × (out (t.pins p).nr u.hardware ≡ true)
  unfolding prepared
  prepared_lem p w true t laws d o e = (e refl, refl, refl, o)
  prepared_lem p w false t laws d o e =
      let (h, same, kept) = drive_lem p w t d in
      (
        ap (get (t.pins p).nr) h ∙ laws.get_set w (t.pins p).nr t.hardware o,
        same,
        kept,
        ap (out (t.pins p).nr) h ∙ laws.out_set w (t.pins p).nr t.hardware ∙ o,
      )

  keep_data :
      (p : ℕ) (v : Bool) (t : Irqs H) → Driven (t.pins p) → (drive p v t).irq_data ≡ t.irq_data
  keep_data p v t dr = (drive_lem p v t dr).2

  -- The last two steps of `cpu_trigger_irq`, behind the preparation.
  abbrev pulsed : ℕ → ℕ → Bool → Bool → Irqs H → Irqs H
  unfolding drive prepared
  pulsed d p v there t = set_value d v (drive p v (prepared p (not v) there t))

  pulsed_lem :
      (d p : ℕ) (v there : Bool) (t : Irqs H)
      → Reads chip get out
      → Driven (t.pins p)
      → out (t.pins p).nr t.hardware ≡ true
      → (there ≡ true → get (t.pins p).nr t.hardware ≡ not v)
      → ((pulsed d p v there t).irq_data d ≡ record (t.irq_data d) { pin_value = v })
        × Edge v (t.pins p).nr (pulsed d p v there t).hardware
  unfolding pulsed
  pulsed_lem d p v there t laws dr o e =
      let u = prepared p (not v) there t in
      let (before, same, kept, still) = prepared_lem p (not v) there t laws dr o e in
      let dr' : Driven (u.pins p) = subst Driven (sym same) dr in
      let out_u = ap (λ (q : GpioPin). out q.nr u.hardware) same ∙ still in
      let at_u = ap (λ (q : GpioPin). get q.nr u.hardware) same ∙ before in
      (
        rw ((==_iff d d).1 refl)
            (ap (λ (f : ℕ → IrqData). record (f d) { pin_value = v }) (keep_data p v u dr' ∙ kept)),
        subst (λ (q : GpioPin). Edge v q.nr (drive p v u).hardware) same
            (drive-Edge p v u laws dr' out_u at_u),
      )

  trigger_pulsed :
      (d p : ℕ) (f r x : Bool) (s : Irqs H)
      → (f ≡ false → r ≡ true)
      → trigger_pin chip d p f r x s
        ≡ pulsed d p (if f && r then not x else r) ((f && r) || (if f then x else not x)) s
  unfolding trigger_pin pulsed prepared drive
  trigger_pulsed d p true true x s h = refl
  trigger_pulsed d p true false true s h = refl
  trigger_pulsed d p true false false s h = refl
  trigger_pulsed d p false true true s h = refl
  trigger_pulsed d p false true false s h = refl
  trigger_pulsed d p false false x s h = ground (arith, h)

  level_before :
      (f r x : Bool)
      → (f ≡ false → r ≡ true)
      → ((f && r) || (if f then x else not x)) ≡ true
      → x ≡ not (if f && r then not x else r)
  level_before f r x h e = ground (arith, h, e)

  found :
      (n d p : ℕ) (ds : List ℕ) (s : Irqs H)
      → s.irqs ≡ d ∷ ds
      → (s.irq_data d).irq ≡ n
      → (s.irq_data d).pin ≡ some p
      → irq_soft_trigger chip n s ≡ (
        eok,
        trigger_pin chip d p
            (s.irq_data d).falling
            (s.irq_data d).rising
            (s.irq_data d).pin_value
            s,
      )
  unfolding irq_soft_trigger soft_trigger_in cpu_trigger_irq trigger_or
  found n d p ds s list line pinned =
      ap (λ l. soft_trigger_in chip n l s) list
      ∙ ap (λ b. if b then cpu_trigger_irq chip d s else soft_trigger_in chip n ds s)
          ((==_iff (s.irq_data d).irq n).1 line)
      ∙ ap (trigger_or chip d s) pinned

  -- `irq_soft_trigger` of a line whose data is the first of the list and has a pin: if the level of
  -- the pin is the one that was noted, the pin changes its level with the last write, to a low one
  -- for a falling edge, to a high one for a rising edge and to the other one for both, and the new
  -- level is noted. The pin is granted, an output of the chip, neither open drain nor active low,
  -- the data has an edge, and what is written to an output of the chip is what is read.
  pub irq_soft_trigger-Edge :
      (n d p : ℕ) (ds : List ℕ) (s : Irqs H)
      → Reads chip get out
      → s.irqs ≡ d ∷ ds
      → (s.irq_data d).irq ≡ n
      → (s.irq_data d).pin ≡ some p
      → Driven (s.pins p)
      → out (s.pins p).nr s.hardware ≡ true
      → get (s.pins p).nr s.hardware ≡ (s.irq_data d).pin_value
      → let x = s.irq_data d in
        let r = irq_soft_trigger chip n s in
        (x.falling ≡ false → x.rising ≡ true)
        → let v = if x.falling && x.rising then not x.pin_value else x.rising in
          (r.0 ≡ eok) × ((r.1.irq_data d).pin_value ≡ v) × Edge v (s.pins p).nr r.1.hardware
  irq_soft_trigger-Edge n d p ds s laws list line pinned dr o level edges =
      let x = s.irq_data d in
      let v = if x.falling && x.rising then not x.pin_value else x.rising in
      let there = (x.falling && x.rising) || (if x.falling then x.pin_value else not x.pin_value) in
      let e =
        found n d p ds s list line pinned
        ∙ ap (λ t. (eok, t)) (trigger_pulsed d p x.falling x.rising x.pin_value s edges) in
      let (noted, edge) =
        pulsed_lem d p v there s laws dr o
          (λ t. level ∙ level_before x.falling x.rising x.pin_value edges t) in
      (
        ap (λ (r : Rc × Irqs H). r.0) e,
        ap (λ (r : Rc × Irqs H). (r.1.irq_data d).pin_value) e ∙ ap (λ y. y.pin_value) noted,
        subst (λ (r : Rc × Irqs H). Edge v (s.pins p).nr r.1.hardware) (sym e) edge,
      )
