-- ===== src/Interrupts/Examples.antt =====
-- A machine that starts with empty tables, and the running kernel with stubs at 0x100000.
use os_from_scratch.Common.{ℕ, ◌≡◌, refl, arith, List, [], ◌∷◌, Option, none, some, false}
use os_from_scratch.Ports.{Device, inb}
use os_from_scratch.Clock.{Clock}
use os_from_scratch.Keyboard.{drain_loop}
use os_from_scratch.Interrupts.{Registers, Machine, isr_handler, start_interrupts}
use os_from_scratch.Interrupts.Gates.{handler_of, Drains, Installed, start_interrupts_lem}
use os_from_scratch.Interrupts.Vectors.{ComesBack, isr_handler-ComesBack}

abbrev do_nothing : Option ℕ → Clock ℕ → Clock ℕ
do_nothing f s = s

-- Every port reads 0x26, the scancode of "l"; its bit 0 is clear, so the keyboard is empty.
abbrev device : Device
device history port = 0x26

abbrev stubs : ℕ → ℕ
stubs i = 0x100000

abbrev machine : Machine ℕ
machine = record {
  idt = λ i. record {
    isr_addr_low = 0;
    kernel_code_seg = 0;
    reservet = 0;
    attributes = 0;
    isr_addr_high = 0;
  };
  limite = 0;
  base = 0;
  interrupt_handlers = λ n. none;
  enabled = false;
  keyboard = record { key_buffer = λ i. 0; buffer_pos = 0; line_ready = false; console = [] };
  clock = record {
    ticks = 0;
    seconds = 0;
    frequency = 0;
    tick_divider = 0;
    user_callback = none;
    timers = λ i. record { delay = 0; active = false; callback = none };
  };
  ata_primary_irq = 0;
  ata_secondary_irq = 0;
  history = [];
}

device-Drains : Drains 1 device
unfolding drain_loop
device-Drains = record { ends = λ h. (inb 0x64 0x26 ∷ h, refl) }

start_interrupts_lem_example :
    (m' : Machine ℕ) × (start_interrupts 1 device stubs 0x5000 machine ≡ some m')
    × Installed stubs m'
start_interrupts_lem_example =
    start_interrupts_lem 1 device stubs 0x5000 machine device-Drains (λ k. omega arith)

-- The running kernel, at 1000 Hz.
abbrev running : Machine ℕ
running = record machine {
  interrupt_handlers = handler_of;
  clock = record (machine.clock) { frequency = 1000 };
}

-- A tick, a key, a tick, and the primary disk.
abbrev interrupts : List Registers
interrupts =
    record { int_no = 32; err_code = 0 }
    ∷ record { int_no = 33; err_code = 0 }
    ∷ record { int_no = 32; err_code = 0 }
    ∷ record { int_no = 46; err_code = 0 }
    ∷ []

isr_handler-ComesBack_example :
    ¬ ComesBack (isr_handler do_nothing device (record { int_no = 13; err_code = 0 }) running)
isr_handler-ComesBack_example =
    isr_handler-ComesBack do_nothing device (record { int_no = 13; err_code = 0 }) running
      (omega arith) (λ n lt. refl)
