-- ===== src/Interrupts/Vectors.antt =====
-- What each vector does to the drivers.
use os_from_scratch.Common.{
  ℕ, ◌+◌, ◌-◌, ◌^◌, ◌≤◌, ◌<◌, ◌≡◌, ◌≢◌, inl, inr, refl, ◌∙◌, arith, List, Option, none, some, false,
  Bool-cases, ◌==◌, ==→eq, ==→ne,
}
use os_from_scratch.Common.Word.{u8}
use os_from_scratch.Ports.{Event, Device, in_byte}
use os_from_scratch.Pic.{arch_irq_send_eoi}
use os_from_scratch.Clock.{Clock, generic_timer_handler}
use os_from_scratch.Clock.Ticks.{}
use os_from_scratch.Keyboard.{handle_scancode}
use os_from_scratch.Keyboard.Line.{}
use os_from_scratch.Interrupts.{
  isr0_handler, isr13_handler, isr14_handler, timer_handler, ata_primary_irq_handler,
  ata_secondary_irq_handler, Registers, Machine, Outcome, resumed, unhandled, excepted, page_fault,
  run_handler, end_irq, isr_handler, irq_handler, primary_irq, secondary_irq, keyboard_handler,
}
use os_from_scratch.Interrupts.Gates.{handler_of}

module _ {Callback : Type 0} (call : Option Callback → Clock Callback → Clock Callback)
    (device : Device) where
  -- What the interrupt of vector `n` leaves behind. No interrupt writes the tables.
  pub data Served (n : ℕ) (m : Machine Callback) : Machine Callback → Type 0 where
    tick :
        (h : List Event)
        → n ≡ 32
        → Served n m (record m { clock = generic_timer_handler call m.clock; history = h })
    key :
        (scancode : ℕ) (h : List Event)
        → n ≡ 33
        → Served n m (record m { keyboard = handle_scancode scancode m.keyboard; history = h })
    primary : (h : List Event) → n ≡ 46 → Served n m (record m { ata_primary_irq = 1; history = h })
    secondary :
        (h : List Event) → n ≡ 47 → Served n m (record m { ata_secondary_irq = 1; history = h })
    quiet :
        (h : List Event) → n ≢ 32 → n ≢ 33 → n ≢ 46 → n ≢ 47 → Served n m (record m { history = h })

  -- The history when the handler of the table is called.
  abbrev acknowledged : Registers → Machine Callback → List Event
  acknowledged r m = arch_irq_send_eoi (u8 (r.int_no + 2 ^ 32 - 32)) m.history

  -- A vector without a handler: the keyboard's, or one that nothing serves.
  irq_handler-free :
      (r : Registers) (m : Machine Callback)
      → m.interrupt_handlers r.int_no ≡ none
      → r.int_no ≢ 32
      → r.int_no ≢ 46
      → r.int_no ≢ 47
      → (m' : Machine Callback) × (irq_handler call device r m ≡ resumed m') × Served r.int_no m m'
  unfolding irq_handler end_irq keyboard_handler
  irq_handler-free r m free n1 n2 n3 = elim (Bool-cases (r.int_no == 33)) [
    | inl at_key ↦ (
      record m {
        keyboard = handle_scancode (in_byte device 0x60 (acknowledged r m)).0 m.keyboard;
        history = arch_irq_send_eoi 1 (in_byte device 0x60 (acknowledged r m)).1;
      },
      rw (irq_handler, free) (rw at_key refl),
      key _ _ (==→eq r.int_no 33 at_key),
    )
    | inr no_key ↦ (
      record m { history = acknowledged r m },
      rw (irq_handler, free) (rw no_key refl),
      quiet _ n1 (==→ne r.int_no 33 no_key) n2 n3,
    )
  ]

  -- The vectors that come back: those of the lines of the controllers.
  pub irq_handler-Served :
      (r : Registers) (m : Machine Callback)
      → 32 ≤ r.int_no
      → m.interrupt_handlers r.int_no ≡ handler_of r.int_no
      → (m' : Machine Callback) × (irq_handler call device r m ≡ resumed m') × Served r.int_no m m'
  unfolding irq_handler run_handler end_irq primary_irq secondary_irq keyboard_handler handler_of
  irq_handler-Served r m le found = elim (Bool-cases (r.int_no == 32)) [
    | inl at_timer ↦
        (let e = ==→eq r.int_no 32 at_timer in
          let f : m.interrupt_handlers r.int_no ≡ some timer_handler = found ∙ rw e refl in
          let g : (r.int_no == 33) ≡ false = rw e refl in
          (
            record m {
              clock = generic_timer_handler call m.clock;
              history = arch_irq_send_eoi 0 (acknowledged r m);
            },
            rw (irq_handler, f) (rw g refl),
            tick _ e,
          ))
    | inr no_timer ↦ elim (Bool-cases (r.int_no == 46)) [
      | inl at_primary ↦
          (let e = ==→eq r.int_no 46 at_primary in
            let f : m.interrupt_handlers r.int_no ≡ some ata_primary_irq_handler =
              found ∙ rw e refl in
            let g : (r.int_no == 33) ≡ false = rw e refl in
            (
              record m {
                ata_primary_irq = 1;
                history = arch_irq_send_eoi 46 (in_byte device (0x1F0 + 7) (acknowledged r m)).1;
              },
              rw (irq_handler, f) (rw g refl),
              primary _ e,
            ))
      | inr no_primary ↦ elim (Bool-cases (r.int_no == 47)) [
        | inl at_secondary ↦
            (let e = ==→eq r.int_no 47 at_secondary in
              let f : m.interrupt_handlers r.int_no ≡ some ata_secondary_irq_handler =
                found ∙ rw e refl in
              let g : (r.int_no == 33) ≡ false = rw e refl in
              (
                record m {
                  ata_secondary_irq = 1;
                  history = arch_irq_send_eoi 47 (in_byte device (0x170 + 7) (acknowledged r m)).1;
                },
                rw (irq_handler, f) (rw g refl),
                secondary _ e,
              ))
        | inr no_secondary ↦
            irq_handler-free r m (ground (arith, found, no_timer, no_primary, no_secondary))
              (==→ne r.int_no 32 no_timer) (==→ne r.int_no 46 no_primary)
              (==→ne r.int_no 47 no_secondary)
      ]
    ]
  ]

-- Whether an interrupt came back to the code that it came into.
pub ComesBack : {Callback : Type 0} → Outcome Callback → Type 0
ComesBack (resumed m) = Unit {0}
ComesBack (unhandled m) = ⊥
ComesBack (excepted regs m) = ⊥
ComesBack (page_fault m) = ⊥

module _ {Callback : Type 0} (call : Option Callback → Clock Callback → Clock Callback)
    (device : Device) where
  -- With the handlers of the running kernel no exception of the processor, vectors 0 to 31, comes
  -- back to the code that raised it.
  pub isr_handler-ComesBack :
      (r : Registers) (m : Machine Callback)
      → r.int_no < 32
      → ((n : ℕ) → n < 256 → m.interrupt_handlers n ≡ handler_of n)
      → ¬ ComesBack (isr_handler call device r m)
  unfolding isr_handler run_handler ComesBack handler_of
  isr_handler-ComesBack r m lt found = elim (Bool-cases (r.int_no == 0)) [
    | inl e ↦
        (let f : m.interrupt_handlers r.int_no ≡ some isr0_handler =
            found r.int_no (omega arith) ∙ rw e refl in
          rw (isr_handler, f) (λ b. b))
    | inr n0 ↦ elim (Bool-cases (r.int_no == 13)) [
      | inl e ↦
          (let f : m.interrupt_handlers r.int_no ≡ some isr13_handler =
              found r.int_no (omega arith) ∙ rw (n0, e) refl in
            rw (isr_handler, f) (λ b. b))
      | inr n13 ↦ elim (Bool-cases (r.int_no == 14)) [
        | inl e ↦
            (let f : m.interrupt_handlers r.int_no ≡ some isr14_handler =
                found r.int_no (omega arith) ∙ rw (n0, n13, e) refl in
              rw (isr_handler, f) (λ b. b))
        | inr n14 ↦
            (let f : m.interrupt_handlers r.int_no ≡ none =
                ground (arith, found r.int_no (omega arith), n0, n13, n14) in
              rw (isr_handler, f) (λ b. b))
      ]
    ]
  ]
