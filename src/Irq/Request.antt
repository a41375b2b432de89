-- ===== src/Irq/Request.antt =====
-- What a request of an interrupt line does to the table, the data and the list of the chip.
use etaos.Prelude.{
  ℕ, ◌<◌, ◌≡◌, ◌≢◌, refl, ap, ◌∙◌, Bool, true, false, Option, none, some, ◌∷◌, if◌then◌else◌, ◌==◌,
  ltb, ==_iff, arith,
}
use etaos.Sched.Kernel.{Config}
use etaos.Irq.{
  IrqData, Irqs, Allocated, Flags, on_data, irq_store_data, irq_chip_add_irq, cpu_request_irq,
  new_data, or_enomem, request_threaded, register, irq_request,
}

-- What a request leaves at the data's address: the given data, enabled, and with an edge.
abbrev pub registered : IrqData → IrqData
registered x =
    if x.falling
    then record x { enable = true }
    else if x.rising
    then record x { enable = true }
    else record x { rising = true; falling = true; enable = true }

pub registered_lem :
    (x : IrqData)
    → ((registered x).enable ≡ true)
      × ((registered x).threaded ≡ x.threaded)
      × ((registered x).handler ≡ x.handler)
      × ((registered x).private_data ≡ x.private_data)
      × ((registered x).irq ≡ x.irq)
      × ((registered x).owner ≡ x.owner)
registered_lem x = ground arith

-- The state after a request for line `n` with data `x` at the address `d`.
pub record Entered {H : Type 0} (vectors : ℕ) (chip : Bool) (n d : ℕ) (x : IrqData) (s s' : Irqs H)
    : Type 0 where
  pub line : n < vectors → s'.arch_irqs n ≡ some d
  pub out_of_range : (n < vectors → ⊥) → (i : ℕ) → s'.arch_irqs i ≡ s.arch_irqs i
  pub lines : (i : ℕ) → i ≢ n → s'.arch_irqs i ≡ s.arch_irqs i
  pub at : s'.irq_data d ≡ registered x
  pub others : (e : ℕ) → e ≢ d → s'.irq_data e ≡ s.irq_data e
  pub listed : s'.irqs ≡ (if chip then d ∷ s.irqs else s.irqs)
  pub kept : s'.executing ≡ s.executing

module _ {H : Type 0} where
  -- The part of `register` behind the chip's list, which touches neither the list nor the context.
  store_line :
      (vectors n d i : ℕ) (s : Irqs H)
      → (irq_store_data vectors n d s).1.arch_irqs i
        ≡ (if ltb n vectors then (if i == n then some d else s.arch_irqs i) else s.arch_irqs i)
  unfolding irq_store_data
  store_line vectors n d i s = ground arith

  store_else :
      (vectors n d : ℕ) (s : Irqs H)
      → let s' = (irq_store_data vectors n d s).1 in
        (s'.irq_data ≡ s.irq_data) × (s'.irqs ≡ s.irqs) × (s'.executing ≡ s.executing)
  unfolding irq_store_data
  store_else vectors n d s = ground arith

  chip_else :
      (chip : Bool) (d : ℕ) (s : Irqs H)
      → let s' = (irq_chip_add_irq chip d s).1 in
        (s'.irq_data ≡ s.irq_data)
        × (s'.irqs ≡ (if chip then d ∷ s.irqs else s.irqs))
        × (s'.executing ≡ s.executing)
        × (s'.arch_irqs ≡ s.arch_irqs)
  unfolding irq_chip_add_irq
  chip_else chip d s = ground arith

  -- The last two steps, on the data that is there.
  abbrev finish : ℕ → Irqs H → Irqs H
  unfolding cpu_request_irq
  finish d s = on_data d (λ y. record y { enable = true }) (cpu_request_irq d s)

  finish_data :
      (d e : ℕ) (x : IrqData) (s : Irqs H)
      → s.irq_data d ≡ x
      → ((finish d s).irq_data d ≡ registered x) × (e ≢ d → (finish d s).irq_data e ≡ s.irq_data e)
  unfolding cpu_request_irq
  finish_data d e x s h = ground (arith, h)

  finish_else :
      (d : ℕ) (s : Irqs H)
      → ((finish d s).arch_irqs ≡ s.arch_irqs)
        × ((finish d s).irqs ≡ s.irqs)
        × ((finish d s).executing ≡ s.executing)
  unfolding cpu_request_irq
  finish_else d s = (refl, refl, refl)

  register_line :
      (vectors : ℕ) (chip : Bool) (n d i : ℕ) (x : IrqData) (s : Irqs H)
      → (register vectors chip n d x s).1.arch_irqs i
        ≡ (if ltb n vectors then (if i == n then some d else s.arch_irqs i) else s.arch_irqs i)
  unfolding register
  register_line vectors chip n d i x s =
      let s₁ = on_data d (λ _. x) s in
      let s₂ = (irq_chip_add_irq chip d s₁).1 in
      ap (λ (f : ℕ → Option ℕ). f i) (finish_else d (irq_store_data vectors n d s₂).1).0
      ∙ store_line vectors n d i s₂
      ∙ ap (λ (f : ℕ → Option ℕ). if ltb n vectors then (if i == n then some d else f i) else f i)
          (chip_else chip d s₁).3

  register_data :
      (vectors : ℕ) (chip : Bool) (n d e : ℕ) (x : IrqData) (s : Irqs H)
      → let s' = (register vectors chip n d x s).1 in
        (s'.irq_data d ≡ registered x) × (e ≢ d → s'.irq_data e ≡ s.irq_data e)
  unfolding register
  register_data vectors chip n d e x s =
      let s₁ = on_data d (λ _. x) s in
      let s₂ = (irq_chip_add_irq chip d s₁).1 in
      let s₃ = (irq_store_data vectors n d s₂).1 in
      let same : s₃.irq_data ≡ s₁.irq_data =
        (store_else vectors n d s₂).0 ∙ (chip_else chip d s₁).0 in
      let here : s₁.irq_data d ≡ x = rw ((==_iff d d).1 refl) refl in
      let r = finish_data d e x s₃ (ap (λ (f : ℕ → IrqData). f d) same ∙ here) in
      (r.0, λ ne. r.1 ne ∙ ap (λ (f : ℕ → IrqData). f e) same ∙ ground (arith, ne))

  register_else :
      (vectors : ℕ) (chip : Bool) (n d : ℕ) (x : IrqData) (s : Irqs H)
      → let s' = (register vectors chip n d x s).1 in
        (s'.irqs ≡ (if chip then d ∷ s.irqs else s.irqs)) × (s'.executing ≡ s.executing)
  unfolding register
  register_else vectors chip n d x s =
      let s₁ = on_data d (λ _. x) s in
      let s₂ = (irq_chip_add_irq chip d s₁).1 in
      let e = finish_else d (irq_store_data vectors n d s₂).1 in
      let f = store_else vectors n d s₂ in
      let g = chip_else chip d s₁ in (e.1 ∙ f.1 ∙ g.1, e.2 ∙ f.2 ∙ g.2)

  pub register-Entered :
      (vectors : ℕ) (chip : Bool) (n d : ℕ) (x : IrqData) (s : Irqs H)
      → Entered vectors chip n d x s (register vectors chip n d x s).1
  register-Entered vectors chip n d x s = record {
    line = λ h. ground (arith, h, register_line vectors chip n d n x s);
    out_of_range = λ h i. ground (arith, h, register_line vectors chip n d i x s);
    lines = λ i ne. ground (arith, ne, register_line vectors chip n d i x s);
    at = (register_data vectors chip n d d x s).0;
    others = λ e ne. (register_data vectors chip n d e x s).1 ne;
    listed = (register_else vectors chip n d x s).0;
    kept = (register_else vectors chip n d x s).1;
  }

  -- A request that no thread is to handle, with memory for it.
  pub irq_request_plain :
      (c : Config) (vectors : ℕ) (chip : Bool) (m : Allocated) (n vector : ℕ) (f : Flags)
      (priv d : ℕ) (s : Irqs H)
      → m.data_address ≡ some d
      → f.threaded ≡ false
      → irq_request c vectors chip m n vector f priv s
        ≡ register vectors chip n d (new_data n vector f priv none) s
  unfolding irq_request
  irq_request_plain c vectors chip m n vector f priv d s e t =
      let threaded = λ (d : ℕ). request_threaded c vectors chip m n vector f priv d s in
      let plain = λ (d : ℕ). register vectors chip n d (new_data n vector f priv none) s in
      ap (λ o. or_enomem o (λ d. if f.threaded then threaded d else plain d) s) e
      ∙ ap (λ b. if b then threaded d else plain d) t
