-- ===== src/Interrupts.antt =====
-- cpu/int.cpp: the descriptor table, the table of handlers, and the two entry points that the
-- assembly stubs call, with the handlers of the timer, the keyboard and the disks behind them.
pub mod Gates
pub mod Vectors
pub mod Runs
mod Examples
use os_from_scratch.Common.{
  ℕ, zero, suc, ◌+◌, ◌-◌, ◌*◌, ◌^◌, List, Option, none, some, Bool, true, ◌==◌, if◌then◌else◌,
}
use os_from_scratch.Common.Word.{u8, u16, ◌>>◌, store}
use os_from_scratch.Ports.{Event, Device, in_byte}
use os_from_scratch.Pic.{arch_irq_controller_init, arch_irq_send_eoi}
use os_from_scratch.Keyboard.{Keyboard, handle_scancode, init_keyboard}
use os_from_scratch.Clock.{Clock, generic_timer_handler}
use os_from_scratch.Time.{arch_timer_init, arch_timer_eoi, arch_timer_enable, arch_rtc_init}

abbrev pub idt_size : ℕ
idt_size = 256

abbrev pub int_gate_flag : ℕ
int_gate_flag = 0x8E

-- idt_entry_32, whose size is 8 bytes.
pub record IdtEntry : Type 0 where
  pub isr_addr_low : ℕ
  pub kernel_code_seg : ℕ
  pub reservet : ℕ
  pub attributes : ℕ
  pub isr_addr_high : ℕ

-- The functions that the kernel registers as handlers.
pub data Handler : Type 0 where
  isr0_handler isr13_handler isr14_handler timer_handler : Handler
  ata_primary_irq_handler ata_secondary_irq_handler : Handler

-- The members of registers_t that int.cpp reads.
pub record Registers : Type 0 where
  pub int_no : ℕ
  pub err_code : ℕ

module _ (Callback : Type 0) where
  -- The globals of int.cpp, of the drivers that its handlers serve, and what went over the ports.
  pub record Machine : Type 0 where
    pub idt : ℕ → IdtEntry
    pub limite : ℕ
    pub base : ℕ
    pub interrupt_handlers : ℕ → Option Handler
    pub enabled : Bool
    pub keyboard : Keyboard
    pub clock : Clock Callback
    pub ata_primary_irq : ℕ
    pub ata_secondary_irq : ℕ
    pub history : List Event

  -- Where an interrupt ends: back in the code that it came into, or in an endless loop, behind the
  -- message for a vector without a handler, for an exception, or for a page fault.
  pub data Outcome : Type 0 where
    resumed : Machine → Outcome
    unhandled : Machine → Outcome
    excepted : Registers → Machine → Outcome
    page_fault : Machine → Outcome

unfoldable pub init_idt_desc : ℕ → ℕ → ℕ → (ℕ → IdtEntry) → ℕ → IdtEntry
unfolding store
init_idt_desc isr attribute entry idt = store idt entry (record {
  isr_addr_low = u16 isr;
  kernel_code_seg = 0x08;
  reservet = 0;
  attributes = attribute;
  isr_addr_high = u16 (isr >> 16);
})

-- The loop over the stubs, whose addresses the assembly gives.
unfoldable pub gates_loop : ℕ → ℕ → (ℕ → ℕ) → (ℕ → IdtEntry) → ℕ → IdtEntry
unfolding init_idt_desc
gates_loop zero i stubs idt = idt
gates_loop (suc left) i stubs idt =
    gates_loop left (i + 1) stubs (init_idt_desc (stubs i) int_gate_flag i idt)

unfoldable pub clear_handlers : ℕ → ℕ → (ℕ → Option Handler) → ℕ → Option Handler
unfolding store
clear_handlers zero i handlers = handlers
clear_handlers (suc left) i handlers = clear_handlers left (i + 1) (store handlers i none)

module _ {Callback : Type 0} where
  unfoldable pub set_idt : Device → (ℕ → ℕ) → ℕ → Machine Callback → Machine Callback
  unfolding gates_loop clear_handlers arch_irq_controller_init
  set_idt device stubs address m = record m {
    idt = gates_loop 48 0 stubs m.idt;
    limite = u16 (8 * idt_size - 1);
    base = address;
    interrupt_handlers = clear_handlers 256 0 m.interrupt_handlers;
    enabled = true;
    history = arch_irq_controller_init device 32 40 m.history;
  }

  unfoldable pub register_interrupt_handler : ℕ → Handler → Machine Callback → Machine Callback
  unfolding store
  register_interrupt_handler n handler m = record m {
    interrupt_handlers = store m.interrupt_handlers (u8 n) (some handler);
  }

  unfoldable pub init_exceptions : Machine Callback → Machine Callback
  unfolding register_interrupt_handler
  init_exceptions m =
      register_interrupt_handler 14 isr14_handler
        (register_interrupt_handler 13 isr13_handler (register_interrupt_handler 0 isr0_handler m))

  -- init_clock of drivers/clock/clock.cpp.
  unfoldable pub init_clock : Device → Machine Callback → Machine Callback
  unfolding register_interrupt_handler arch_timer_init arch_rtc_init
  init_clock device m =
      let m1 =
        register_interrupt_handler 32 timer_handler
          (record m { clock = record (m.clock) { frequency = 1000 } }) in
      let (done, history1) = arch_timer_init 1000 m1.history in
      if done
      then record m1 { history = arch_rtc_init device (arch_timer_enable device history1) }
      else record m1 { history = history1 }

  -- The end of ata_init of drivers/blocks/ata/ata_pio.c.
  unfoldable pub init_ata_irq : Machine Callback → Machine Callback
  unfolding register_interrupt_handler
  init_ata_irq m =
      record (register_interrupt_handler (15 + 32) ata_secondary_irq_handler
        (register_interrupt_handler (14 + 32) ata_primary_irq_handler m)) {
          ata_primary_irq = 0;
          ata_secondary_irq = 0;
        }

  -- The calls of kernel_main that set the interrupts up, in their order. The others leave the
  -- tables and the drivers as they are; what clean_screen and ata_init write to their ports is not
  -- in the history. `none`: the keyboard controller was not empty within the fuel.
  unfoldable pub start_interrupts :
      ℕ → Device → (ℕ → ℕ) → ℕ → Machine Callback → Option (Machine Callback)
  unfolding set_idt init_exceptions init_keyboard init_clock init_ata_irq
  start_interrupts fuel device stubs address m =
      let m1 = init_exceptions (set_idt device stubs address m) in
      elim (init_keyboard fuel device m1.history m1.keyboard) [
        | none ↦ none
        | some (history, keyboard) ↦ some (
            init_ata_irq (init_clock device (record m1 { history = history; keyboard = keyboard })))
      ]

  -- keyboard_handler of drivers/keyboard.cpp, without its redraw of the screen.
  unfoldable pub keyboard_handler : Device → Machine Callback → Machine Callback
  unfolding handle_scancode arch_irq_send_eoi
  keyboard_handler device m =
      let (scancode, history1) = in_byte device 0x60 m.history in
      record m {
        keyboard = handle_scancode scancode m.keyboard;
        history = arch_irq_send_eoi 1 history1;
      }

  -- A disk handler reads the status port, sets its flag and sends the end of interrupt.
  unfoldable pub primary_irq : Device → Machine Callback → Machine Callback
  unfolding arch_irq_send_eoi
  primary_irq device m =
      let (status, history1) = in_byte device (0x1F0 + 7) m.history in
      record m { ata_primary_irq = 1; history = arch_irq_send_eoi (14 + 32) history1 }

  unfoldable pub secondary_irq : Device → Machine Callback → Machine Callback
  unfolding arch_irq_send_eoi
  secondary_irq device m =
      let (status, history1) = in_byte device (0x170 + 7) m.history in
      record m { ata_secondary_irq = 1; history = arch_irq_send_eoi (15 + 32) history1 }

-- `call` is what a call of a callback pointer does to the state of the clock, `none` for NULL.
module _ {Callback : Type 0} (call : Option Callback → Clock Callback → Clock Callback)
    (device : Device) where
  unfoldable pub run_handler : Handler → Registers → Machine Callback → Outcome Callback
  unfolding generic_timer_handler arch_irq_send_eoi primary_irq secondary_irq
  run_handler isr0_handler regs m = excepted regs m
  run_handler isr13_handler regs m = excepted regs m
  run_handler isr14_handler regs m = page_fault m
  run_handler timer_handler regs m =
      resumed (record m {
        clock = generic_timer_handler call m.clock;
        history = arch_timer_eoi m.history;
      })
  run_handler ata_primary_irq_handler regs m = resumed (primary_irq device m)
  run_handler ata_secondary_irq_handler regs m = resumed (secondary_irq device m)

  unfoldable pub isr_handler : Registers → Machine Callback → Outcome Callback
  unfolding run_handler
  isr_handler regs m = elim (m.interrupt_handlers regs.int_no) [
    | none ↦ unhandled m
    | some handler ↦ run_handler handler regs m
  ]

  -- What irq_handler does behind the handler of the table.
  unfoldable pub end_irq : Registers → Outcome Callback → Outcome Callback
  unfolding keyboard_handler
  end_irq regs (resumed m) =
      if regs.int_no == 33 then resumed (keyboard_handler device m) else resumed m
  end_irq regs (unhandled m) = unhandled m
  end_irq regs (excepted r m) = excepted r m
  end_irq regs (page_fault m) = page_fault m

  unfoldable pub irq_handler : Registers → Machine Callback → Outcome Callback
  unfolding run_handler end_irq arch_irq_send_eoi
  irq_handler regs m =
      let m1 = record m {
        history = arch_irq_send_eoi (u8 (regs.int_no + 2 ^ 32 - 32)) m.history;
      } in
      end_irq regs (elim (m1.interrupt_handlers regs.int_no) [
        | none ↦ resumed m1
        | some handler ↦ run_handler handler regs m1
      ])
