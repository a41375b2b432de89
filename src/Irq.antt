-- ===== src/Irq.antt =====
-- kernel/irq/irq.c, handle.c and irqchip.c of the same directory: interrupt lines and their handlers; with the
-- threads of interrupts from kernel/sched/core.c, and `cpu_trigger_irq` of arch/avr/kernel/irq.c. An
-- interrupt's data, a pin and a thread are named by numbers, which are their addresses.
pub mod Request
pub mod Lines
pub mod Table
pub mod Threaded
pub mod Soft
pub mod Edges
mod Tests
use etaos.Prelude.{
  ℕ, ◌+◌, Bool, true, false, not, ◌&&◌, ◌||◌, Option, none, some, List, [], ◌∷◌, if◌then◌else◌,
  ◌==◌, ltb,
}
use etaos.Sched.Kernel.{Kernel, Config, thread, on_thread}
use etaos.Sched.Core.{raw_rq_add_thread}
use etaos.Sched.Control.{thread_initialise, kill, wait}
use etaos.Drivers.{Rc, value, error, eok, einval, enomem, enotinitialised, succeeded}
use etaos.Drivers.Gpio.{GpioPin}

-- `irqreturn_t`
pub data IrqReturn : Type 0 where
  irq_none irq_handled irq_wake_owner : IrqReturn

-- `struct irq_data`, with the bits of `flags` as fields. `owner` is the thread of the `struct irq_thread_data`
-- around it, if it stands in one.
pub record IrqData : Type 0 where
  pub irq : ℕ
  pub enable : Bool
  pub rising : Bool
  pub falling : Bool
  pub threaded : Bool
  pub triggered : Bool
  pub num : ℕ
  pub handler : Option ℕ
  pub private_data : ℕ
  pub owner : Option ℕ
  pub pin : Option ℕ
  pub pin_value : Bool

-- `arch_irqs`, what stands at the addresses, the list `irqs` of the CPU's chip, CPU_IRQ_EXEC_FLAG, the
-- pins with the hardware below them, and the scheduler.
pub record Irqs (H : Type 0) : Type 0 where
  pub arch_irqs : ℕ → Option ℕ
  pub irq_data : ℕ → IrqData
  pub irqs : List ℕ
  pub executing : Bool
  pub pins : ℕ → GpioPin
  pub hardware : H
  pub kernel : Kernel

-- What the allocations of a request give: the data's address, and the thread with its stack.
pub record Allocated : Type 0 where
  pub data_address : Option ℕ
  pub stack : Bool
  pub owner_address : Option ℕ

-- `flags` of a request.
pub record Flags : Type 0 where
  pub enable : Bool
  pub rising : Bool
  pub falling : Bool
  pub threaded : Bool
  pub triggered : Bool

abbrev pub irq_thread_prio : ℕ
irq_thread_prio = 20

-- `irq_save_and_disable` and `irq_restore` on whether interrupts are enabled: the flags that are saved,
-- and the new state.
unfoldable pub irq_save_and_disable : Bool → Bool × Bool
irq_save_and_disable enabled = (enabled, false)

unfoldable pub irq_restore : Bool → Bool → Bool
irq_restore flags enabled = if not flags then enabled else if flags then true else enabled

abbrev pub new_data : ℕ → ℕ → Flags → ℕ → Option ℕ → IrqData
new_data n vector f priv tp = record {
  irq = n;
  enable = f.enable;
  rising = f.rising;
  falling = f.falling;
  threaded = f.threaded;
  triggered = f.triggered;
  num = 0;
  handler = some vector;
  private_data = priv;
  owner = tp;
  pin = none;
  pin_value = false;
}

-- `irq_thread_signal`, of kernel/sched/core.c.
unfoldable pub irq_thread_signal : Config → ℕ → Kernel → Kernel
unfolding raw_rq_add_thread
irq_thread_signal c tp k =
    let woken = on_thread tp (λ t. record t { running = true; waiting = false }) k in
    let added = raw_rq_add_thread c tp woken in
    if (thread k tp).on_rq
    then k
    else on_thread added.current (λ t. record t { preempt_resched = true }) added

-- A handler by its address: it gets the data's address and the private data.
abbrev pub Handlers : Type 0 → Type 0
Handlers H = ℕ → ℕ → ℕ → Irqs H → IrqReturn × Irqs H

module _ {H : Type 0} where
  -- A store into the data at an address.
  abbrev pub on_data : ℕ → (IrqData → IrqData) → Irqs H → Irqs H
  on_data d f s = record s { irq_data = λ e. if e == d then f (s.irq_data e) else s.irq_data e }

  unfoldable pub irq_to_data : ℕ → ℕ → Irqs H → Option ℕ
  irq_to_data vectors n s = if ltb n vectors then s.arch_irqs n else none

  unfoldable pub irq_store_data : ℕ → ℕ → ℕ → Irqs H → Rc × Irqs H
  irq_store_data vectors n d s =
      if ltb n vectors
      then (eok, record s { arch_irqs = λ i. if i == n then some d else s.arch_irqs i })
      else (einval, s)

  -- `irq_chip_add_irq`; `chip` is whether the CPU has a chip.
  unfoldable pub irq_chip_add_irq : Bool → ℕ → Irqs H → Rc × Irqs H
  irq_chip_add_irq chip d s =
      if chip then (eok, record s { irqs = d ∷ s.irqs }) else (enotinitialised, s)

  -- What `cpu_request_irq` does to the data: without an edge, both edges are meant.
  unfoldable pub cpu_request_irq : ℕ → Irqs H → Irqs H
  cpu_request_irq d s =
      on_data d
        (λ x. if x.falling || x.rising then x else record x { rising = true; falling = true }) s

  -- The `thread_create` of `irq_request_threaded_irq`, by the thread's address.
  unfoldable pub owner_for : Config → Option ℕ → Irqs H → Rc × Option ℕ × Irqs H
  unfolding thread_initialise
  owner_for c none s = (enomem, none, s)
  owner_for c (some tp) s =
      (eok, some tp, record s { kernel = thread_initialise c tp irq_thread_prio s.kernel })

  -- `irq_request_threaded_irq`: the owner, or the error.
  unfoldable pub irq_request_threaded_irq : Config → Allocated → Irqs H → Rc × Option ℕ × Irqs H
  unfolding owner_for
  irq_request_threaded_irq c m s =
      let owned = owner_for c m.owner_address s in if m.stack then owned else (enomem, none, s)

  -- `irq_request` from where the data is allocated.
  unfoldable pub register : ℕ → Bool → ℕ → ℕ → IrqData → Irqs H → Rc × Irqs H
  unfolding irq_chip_add_irq irq_store_data cpu_request_irq
  register vectors chip n d x s =
      let r = irq_chip_add_irq chip d (on_data d (λ _. x) s) in
      let stored = (irq_store_data vectors n d r.1).1 in
      (r.0, on_data d (λ y. record y { enable = true }) (cpu_request_irq d stored))

  -- What a request does with the allocated data, or without it.
  abbrev pub or_enomem : Option ℕ → (ℕ → Rc × Irqs H) → Irqs H → Rc × Irqs H
  or_enomem none f s = (enomem, s)
  or_enomem (some d) f s = f d

  -- `irq_request` of a line that a thread handles, with data at `d`.
  unfoldable pub request_threaded :
      Config → ℕ → Bool → Allocated → ℕ → ℕ → Flags → ℕ → ℕ → Irqs H → Rc × Irqs H
  unfolding irq_request_threaded_irq register
  request_threaded c vectors chip m n vector f priv d s =
      let r = irq_request_threaded_irq c m s in
      if succeeded r.0
      then register vectors chip n d (new_data n vector f priv r.1) r.2
      else (r.0, r.2)

  -- `irq_request`
  unfoldable pub irq_request :
      Config → ℕ → Bool → Allocated → ℕ → ℕ → Flags → ℕ → Irqs H → Rc × Irqs H
  unfolding request_threaded register
  irq_request c vectors chip m n vector f priv s =
      let threaded = λ (d : ℕ). request_threaded c vectors chip m n vector f priv d s in
      let plain = λ (d : ℕ). register vectors chip n d (new_data n vector f priv none) s in
      or_enomem m.data_address (λ d. if f.threaded then threaded d else plain d) s

  -- `in_irq_context`
  unfoldable pub in_irq_context : Irqs H → Bool
  in_irq_context s = s.executing

  -- `irq_set_handle`
  unfoldable pub irq_set_handle : ℕ → ℕ → ℕ → Irqs H → Rc × Irqs H
  unfolding irq_to_data
  irq_set_handle vectors n vector s = elim (irq_to_data vectors n s) [
    | none ↦ (einval, s)
    | some d ↦ (eok, on_data d (λ x. record x { handler = some vector }) s)
  ]

  -- IRQ_WAKE_OWNER of `irq_handle_hard_irq`. `none` is the access to the owner of data that stands in no
  -- `struct irq_thread_data`.
  unfoldable pub wake_owner : Config → ℕ → Irqs H → Option ℕ → Option (Irqs H)
  unfolding irq_thread_signal
  wake_owner c d s none = none
  wake_owner c d s (some tp) = some (record (on_data d (λ x. record x { num = x.num + 1 }) s) {
    kernel = irq_thread_signal c tp s.kernel;
  })

  -- What `irq_handle_hard_irq` does after the handler.
  unfoldable pub handled : Config → ℕ → IrqReturn → Irqs H → Option (Irqs H)
  unfolding wake_owner
  handled c d irq_none s = some s
  handled c d irq_handled s = some s
  handled c d irq_wake_owner s = wake_owner c d s (s.irq_data d).owner

  -- The call of a handler, if there is one.
  abbrev pub call_handler : Handlers H → ℕ → ℕ → Irqs H → Option ℕ → IrqReturn × Irqs H
  call_handler run d priv s none = (irq_none, s)
  call_handler run d priv s (some h) = run h d priv s

  unfoldable pub irq_handle_hard_irq : Config → Handlers H → ℕ → Irqs H → Option (Irqs H)
  unfolding handled
  irq_handle_hard_irq c run d s =
      let x = s.irq_data d in
      let r = call_handler run d x.private_data s x.handler in
      if x.threaded then handled c d irq_wake_owner s else handled c d r.0 r.1

  -- What `irq_handle` does with a line's data, and its end.
  unfoldable pub dispatch : Config → Handlers H → Irqs H → Option ℕ → Option (Irqs H)
  unfolding irq_handle_hard_irq
  dispatch c run s none = some s
  dispatch c run s (some d) =
      let hard = irq_handle_hard_irq c run d s in if (s.irq_data d).enable then hard else some s

  abbrev pub irq_exit : Option (Irqs H) → Option (Irqs H)
  irq_exit none = none
  irq_exit (some s) = some (record s { executing = false })

  unfoldable pub irq_handle : Config → ℕ → Handlers H → ℕ → Irqs H → Option (Irqs H)
  unfolding irq_to_data dispatch
  irq_handle c vectors run n s =
      let entered = record s { executing = true } in
      irq_exit (dispatch c run entered (irq_to_data vectors n entered))

  -- `irq_thread_wait` is `wait` of kernel/sched/thread.c.
  unfoldable pub irq_thread_wait : Irqs H → Irqs H
  unfolding wait
  irq_thread_wait s = record s { kernel = wait s.kernel }

  -- The call of the handler in `irq_handle_fn`. `none` is a call of the function pointer NULL.
  unfoldable pub thread_handler : Handlers H → ℕ → ℕ → Irqs H → Option ℕ → Option (Irqs H)
  unfolding irq_thread_wait
  thread_handler run d priv s none = none
  thread_handler run d priv s (some h) =
      let s' = (run h d priv s).1 in
      some (irq_thread_wait (on_data d (λ y. record y { triggered = false }) s'))

  -- One round of `irq_handle_fn`, from where the thread runs again to its next wait.
  unfoldable pub irq_handle_fn : Handlers H → ℕ → Irqs H → Option (Irqs H)
  unfolding thread_handler kill
  irq_handle_fn run d s =
      let ran = thread_handler run d (s.irq_data d).private_data s (s.irq_data d).handler in
      if (thread s.kernel s.kernel.current).exiting
      then some (record s { kernel = kill s.kernel })
      else ran
