-- ===== src/Irq/Tests.antt =====
-- Runs of interrupts, and their theorems at concrete states.
use etaos.Prelude.{
  ℕ, ◌*◌, ◌≡◌, ◌≢◌, refl, ap, Bool, true, false, not, Option, none, some, [], ◌∷◌, none-some,
  if◌then◌else◌, ◌==◌, arith,
}
use etaos.Sched.Thread.{fresh_thread}
use etaos.Sched.Queue.{chain}
use etaos.Sched.Kernel.{Kernel, Config, rr}
use etaos.Drivers.{eok}
use etaos.Drivers.Gpio.{GpioPin}
use etaos.Drivers.Gpio.Atmega.{Ports, atmega_gpio_chip, atmega_get_pin, is_out, atmega-Reads}
use etaos.Irq.{
  IrqReturn, irq_none, irq_handled, irq_wake_owner, IrqData, Irqs, Allocated, Flags, Handlers,
  on_data, irq_request, irq_handle, irq_thread_wait, irq_handle_fn,
}
use etaos.Irq.Lines.{irq_handle-irq_request}
use etaos.Irq.Table.{Registered, irq_request-Registered}
use etaos.Irq.Threaded.{Owned, Counted, interrupts, interrupts-irq_handle_fn}
use etaos.Irq.Soft.{irq_soft_trigger}
use etaos.Irq.Edges.{Edge, irq_soft_trigger-Edge}

abbrev config : Config
config = record { class = rr; time_slice = 6; fair = true; dyn_prio = true; freq = 1000 }

-- Thread 3 runs, and thread 1 is off the run queue.
abbrev kernel : Kernel
kernel = record {
  threads = λ t. record (fresh_thread (10 * t)) { on_rq = not (t == 1) };
  run_queue = 2 ∷ [];
  num = 1;
  current = 3;
  wake_queue = [];
  kill_queue = [];
  switch_count = 0;
  queues = λ q. chain [];
  tick = 100;
  timers = [];
  next_timer = 0;
}

abbrev blank : IrqData
blank = record {
  irq = 0;
  enable = false;
  rising = false;
  falling = false;
  threaded = false;
  triggered = false;
  num = 0;
  handler = none;
  private_data = 0;
  owner = none;
  pin = none;
  pin_value = false;
}

abbrev plain_pin : GpioPin
plain_pin = record {
  nr = 7;
  requested = true;
  is_output = true;
  active_low = false;
  open_drain = false;
  open_source = false;
}

-- No interrupt is requested yet. The hardware is one level.
abbrev start : Irqs Bool
start = record {
  arch_irqs = λ n. none;
  irq_data = λ d. blank;
  irqs = [];
  executing = false;
  pins = λ p. plain_pin;
  hardware = false;
  kernel = kernel;
}

abbrev memory : Allocated
memory = record { data_address = some 40; stack = true; owner_address = some 1 }

abbrev falling_edge : Flags
falling_edge = record {
  enable = false;
  rising = false;
  falling = true;
  threaded = false;
  triggered = false;
}

-- Every handler sets the hardware.
abbrev run : Handlers Bool
run h d priv s = (irq_handled, record s { hardware = true })

abbrev asks : IrqReturn → Option ℕ
asks irq_none = none
asks irq_handled = none
asks irq_wake_owner = some 0

handled_wake : irq_handled ≢ irq_wake_owner
handled_wake e = none-some (ap asks e)

irq_handle-irq_request_example :
    let s' = (irq_request config 32 true memory 5 9 falling_edge 77 start).1 in
    (irq_handle config 32 run 5 s'
      ≡ some (record (run 9 40 77 (record s' { executing = true })).1 { executing = false }))
    × ((i : ℕ) → i ≢ 5 → s'.arch_irqs i ≡ start.arch_irqs i)
    × ((e : ℕ) → e ≢ 40 → s'.irq_data e ≡ start.irq_data e)
irq_handle-irq_request_example =
    irq_handle-irq_request config 32 true memory 5 9 falling_edge 77 40 run start (omega arith) refl
      refl handled_wake

irq_request-Registered_example :
    Registered 32 (irq_request config 32 true memory 5 9 falling_edge 77 start).1
irq_request-Registered_example =
    irq_request-Registered config 32 memory 5 9 falling_edge 77 start (λ d e i f. none-some f)
      (λ i d e. elim (none-some e) [ ])

-- Line 5 belongs to thread 1, or to the current thread.
abbrev owned_by : ℕ → Irqs Bool
owned_by tp = record start {
  arch_irqs = λ n. if n == 5 then some 40 else none;
  irq_data = λ d. record blank {
    irq = 5;
    enable = true;
    rising = true;
    threaded = true;
    handler = some 9;
    owner = some tp;
  };
  irqs = 40 ∷ [];
}

abbrev owned : (tp : ℕ) → Owned 32 5 40 tp (owned_by tp)
owned tp = record {
  in_range = omega arith;
  entry = refl;
  enabled = refl;
  threaded = refl;
  owned = refl;
}

interrupts-irq_handle_fn_example :
    (s' : Irqs Bool) × (interrupts config 32 run 5 4 (owned_by 3) ≡ some s')
    × Counted 40 4 (owned_by 3) s'
    × (irq_handle_fn run 40 s'
        ≡ some
            (irq_thread_wait (on_data 40 (λ y. record y { triggered = false }) (run 9 40 0 s').1)))
interrupts-irq_handle_fn_example =
    interrupts-irq_handle_fn config 32 run 5 40 3 4 9 (owned_by 3) (owned 3) refl refl refl

-- Line 5 has a pin, which is an output of an ATmega, and both edges.
abbrev with_pin : Irqs Ports
with_pin = record {
  arch_irqs = λ n. if n == 5 then some 40 else none;
  irq_data =
      λ d. record blank { irq = 5; enable = true; rising = true; falling = true; pin = some 0 };
  irqs = 40 ∷ [];
  executing = false;
  pins = λ p. plain_pin;
  hardware = record { port = λ n. false; ddr = λ n. true; outside = λ n. true };
  kernel = kernel;
}

irq_soft_trigger-Edge_example :
    let r = irq_soft_trigger atmega_gpio_chip 5 with_pin in
    (r.0 ≡ eok)
    × ((r.1.irq_data 40).pin_value ≡ true)
    × Edge atmega_gpio_chip atmega_get_pin is_out true 7 r.1.hardware
unfolding atmega_get_pin
irq_soft_trigger-Edge_example =
    irq_soft_trigger-Edge atmega_gpio_chip atmega_get_pin is_out 5 40 0 [] with_pin atmega-Reads
      refl refl refl (refl, refl, refl) refl refl (λ e. refl)
