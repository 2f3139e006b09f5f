-- ===== src/Interrupts/Gates.antt =====
-- What the tables hold once the interrupts are set up.
use os_from_scratch.Common.{
  ℕ, zero, suc, ◌+◌, ◌-◌, ◌*◌, ◌^◌, ◌≤◌, ◌<◌, ◌≡◌, ◌≢◌, ◌⊎◌, inl, inr, refl, ◌∙◌, arith, List,
  false, Option, none, some, true, bit_and, Bool-cases, ◌==◌, ==→eq, ==→ne, if◌then◌else◌,
}
use os_from_scratch.Common.Word.{u16, ◌>>◌, store, store_self, store_ne}
use os_from_scratch.Ports.{Event, Device, out_byte, in_byte}
use os_from_scratch.Time.{arch_timer_init}
use os_from_scratch.Clock.{}
use os_from_scratch.Keyboard.{Keyboard, drain_loop, init_keyboard}
use os_from_scratch.Interrupts.{
  IdtEntry, Handler, isr0_handler, isr13_handler, isr14_handler, timer_handler,
  ata_primary_irq_handler, ata_secondary_irq_handler, Machine, int_gate_flag, init_idt_desc,
  gates_loop, clear_handlers, set_idt, register_interrupt_handler, init_exceptions, init_clock,
  init_ata_irq, start_interrupts,
}

-- The handler that stands behind each vector of the running kernel.
unfoldable pub handler_of : ℕ → Option Handler
handler_of n =
    if n == 0
    then some isr0_handler
    else if n == 13
    then some isr13_handler
    else if n == 14
    then some isr14_handler
    else if n == 32
    then some timer_handler
    else if n == 46
    then some ata_primary_irq_handler
    else if n == 47
    then some ata_secondary_irq_handler
    else none

-- A gate of the kernel's code segment that turns interrupts off and leads to `isr`.
pub record LeadsTo (isr : ℕ) (e : IdtEntry) : Type 0 where
  pub address : e.isr_addr_low + e.isr_addr_high * 2 ^ 16 ≡ isr
  pub segment : e.kernel_code_seg ≡ 0x08
  pub reserved : e.reservet ≡ 0
  pub gate : e.attributes ≡ int_gate_flag

init_idt_desc-LeadsTo :
    (isr i : ℕ) (idt : ℕ → IdtEntry)
    → isr < 2 ^ 32
    → LeadsTo isr (init_idt_desc isr int_gate_flag i idt i)
unfolding init_idt_desc
init_idt_desc-LeadsTo isr i idt small =
    rw
      (store_self idt i (record {
        isr_addr_low = u16 isr;
        kernel_code_seg = 0x08;
        reservet = 0;
        attributes = int_gate_flag;
        isr_addr_high = u16 (isr >> 16);
      }))
      (record { address = omega arith; segment = refl; reserved = refl; gate = refl })

init_idt_desc-ne :
    (isr i j : ℕ) (idt : ℕ → IdtEntry) → j ≢ i → init_idt_desc isr int_gate_flag i idt j ≡ idt j
unfolding init_idt_desc
init_idt_desc-ne isr i j idt ne = store_ne idt i _ j ne

gates_loop-outside :
    (left i j : ℕ) (stubs : ℕ → ℕ) (idt : ℕ → IdtEntry)
    → (j < i) ⊎ (i + left ≤ j)
    → gates_loop left i stubs idt j ≡ idt j
unfolding gates_loop
gates_loop-outside zero i j stubs idt out = refl
gates_loop-outside (suc left) i j stubs idt out =
    gates_loop-outside left (i + 1) j stubs _
      (elim out [ inl a ↦ inl (omega arith) | inr b ↦ inr (omega arith) ])
    ∙ init_idt_desc-ne (stubs i) i j idt (elim out [ inl a ↦ omega arith | inr b ↦ omega arith ])

gates_loop-LeadsTo :
    (left i j : ℕ) (stubs : ℕ → ℕ) (idt : ℕ → IdtEntry)
    → ((k : ℕ) → stubs k < 2 ^ 32)
    → i ≤ j
    → j < i + left
    → LeadsTo (stubs j) (gates_loop left i stubs idt j)
unfolding gates_loop
gates_loop-LeadsTo zero i j stubs idt small le lt = absurd (omega arith)
gates_loop-LeadsTo (suc left) i j stubs idt small le lt = elim (Bool-cases (j == i)) [
  | inl here ↦ rw (==→eq j i here) (
      rw
        (gates_loop-outside left (i + 1) i stubs (init_idt_desc (stubs i) int_gate_flag i idt)
          (inl (omega arith)))
        (init_idt_desc-LeadsTo (stubs i) i idt (small i)))
  | inr other ↦
      (let ne = ==→ne j i other in
        gates_loop-LeadsTo left (i + 1) j stubs _ small (omega arith) (omega arith))
]

clear_handlers-none :
    (left i j : ℕ) (handlers : ℕ → Option Handler)
    → j < i + left
    → ((k : ℕ) → k < i → handlers k ≡ none)
    → clear_handlers left i handlers j ≡ none
unfolding clear_handlers
clear_handlers-none zero i j handlers lt h = h j (omega arith)
clear_handlers-none (suc left) i j handlers lt h =
    clear_handlers-none left (i + 1) j (store handlers i none) (omega arith) (λ k below.
      elim (Bool-cases (k == i)) [
        | inl here ↦ rw (==→eq k i here) (store_self handlers i none)
        | inr other ↦
            (let ne = ==→ne k i other in store_ne handlers i none k ne ∙ h k (omega arith))
      ])

-- Six handlers put into an empty table.
register_all :
    (n : ℕ) (f : ℕ → Option Handler)
    → f n ≡ none
    → store
        (store
          (store
            (store
              (store (store f 0 (some isr0_handler)) 13 (some isr13_handler))
              14
              (some isr14_handler))
            32
            (some timer_handler))
          46
          (some ata_primary_irq_handler))
        47
        (some ata_secondary_irq_handler)
        n
      ≡ handler_of n
unfolding store handler_of
register_all n f empty = ground (arith, empty)

-- The keyboard controller is empty after a number of reads that the fuel covers.
pub record Drains (fuel : ℕ) (device : Device) : Type 0 where
  pub ends : (h : List Event) → (h' : List Event) × (drain_loop fuel device h ≡ some h')

-- The tables of the running kernel, for stubs at the addresses `stubs`.
pub record Installed {Callback : Type 0} (stubs : ℕ → ℕ) (m : Machine Callback) : Type 0 where
  pub gates : (i : ℕ) → i < 48 → LeadsTo (stubs i) (m.idt i)
  pub limite : m.limite ≡ 256 * 8 - 1
  pub handlers : (n : ℕ) → n < 256 → m.interrupt_handlers n ≡ handler_of n
  pub enabled : m.enabled ≡ true
  pub frequency : m.clock.frequency ≡ 1000
  pub waiting : (m.ata_primary_irq ≡ 0) × (m.ata_secondary_irq ≡ 0)
  pub line : (m.keyboard.buffer_pos ≡ 0) × (m.keyboard.line_ready ≡ false)

init_keyboard-drained :
    (fuel : ℕ) (device : Device) (h h1 : List Event) (k : Keyboard)
    → drain_loop fuel device h ≡ some h1
    → (h2 : List Event) × (init_keyboard fuel device h k
        ≡ some (h2, record k { buffer_pos = 0; line_ready = false }))
unfolding init_keyboard
init_keyboard-drained fuel device h h1 k drained = (
  out_byte 0x21 (bit_and (in_byte device 0x21 h1).0 (2 ^ 32 - 1 - 2)) (in_byte device 0x21 h1).1,
  rw (init_keyboard, drained) refl,
)

init_ata_irq-Installed :
    {Callback : Type 0} (device : Device) (stubs : ℕ → ℕ) (address : ℕ) (m : Machine Callback)
    (h : List Event)
    → ((k : ℕ) → stubs k < 2 ^ 32)
    → Installed stubs (
        init_ata_irq (
          init_clock device (record (init_exceptions (set_idt device stubs address m)) {
            history = h;
            keyboard = record (m.keyboard) { buffer_pos = 0; line_ready = false };
          })))
unfolding set_idt init_exceptions register_interrupt_handler init_clock arch_timer_init init_ata_irq
init_ata_irq-Installed device stubs address m h small = record {
  gates = λ i lt. gates_loop-LeadsTo 48 0 i stubs m.idt small (omega arith) (omega arith);
  limite = refl;
  handlers = λ n lt. register_all n (clear_handlers 256 0 m.interrupt_handlers) (
      clear_handlers-none 256 0 n m.interrupt_handlers (omega arith)
        (λ k below. absurd (omega arith)));
  enabled = refl;
  frequency = refl;
  waiting = (refl, refl);
  line = (refl, refl);
}

-- Where the keyboard controller empties within the fuel, the calls of kernel_main that set the
-- interrupts up return, and leave the tables of the running kernel: the 48 gates lead to their
-- stubs and turn interrupts off, and each of the 256 vectors has its handler or none.
pub start_interrupts_lem :
    {Callback : Type 0} (fuel : ℕ) (device : Device) (stubs : ℕ → ℕ) (address : ℕ)
    (m : Machine Callback)
    → Drains fuel device
    → ((k : ℕ) → stubs k < 2 ^ 32)
    → (m' : Machine Callback) × (start_interrupts fuel device stubs address m ≡ some m')
      × Installed stubs m'
unfolding start_interrupts
start_interrupts_lem fuel device stubs address m drains small =
    let m1 = init_exceptions (set_idt device stubs address m) in
    let (h1, drained) = drains.ends m1.history in
    let (h2, emptied) = init_keyboard-drained fuel device m1.history h1 m1.keyboard drained in
    (
      init_ata_irq (
          init_clock device (record m1 {
            history = h2;
            keyboard = record (m.keyboard) { buffer_pos = 0; line_ready = false };
          })),
      rw (start_interrupts, emptied) refl,
      init_ata_irq-Installed device stubs address m h2 small,
    )
