-- ===== src/Ports.antt =====
-- arch/x86/io/ports.c: the port instructions, as a history of what the processor did. What a read
-- finds is up to the device, which is a parameter: it sees the history, the latest event first.
use os_from_scratch.Common.{ℕ, ◌^◌, ◌<◌, List, [], ◌∷◌, arith, ◌==◌, if◌then◌else◌}
use os_from_scratch.Common.Word.{u8, u16}

-- `halt` is the hlt instruction: the processor waits for the next interrupt. `clear_flag` stands for
-- the write of 0 to the interrupt flag of a disk, which decides what a later interrupt sets.
pub data Event : Type 0 where
  outb inb outw inw : ℕ → ℕ → Event
  halt clear_flag : Event

abbrev pub Device : Type 0
Device = List Event → ℕ → ℕ

abbrev pub out_byte : ℕ → ℕ → List Event → List Event
out_byte port value history = outb port (u8 value) ∷ history

abbrev pub in_byte : Device → ℕ → List Event → ℕ × List Event
in_byte device port history =
    let value = u8 (device history port) in (value, inb port value ∷ history)

abbrev pub out_word : ℕ → ℕ → List Event → List Event
out_word port value history = outw port (u16 value) ∷ history

abbrev pub in_word : Device → ℕ → List Event → ℕ × List Event
in_word device port history =
    let value = u16 (device history port) in (value, inw port value ∷ history)

-- The byte that a register holds: the last one written to its port, or what it held first.
unfoldable pub latch : (ℕ → ℕ) → ℕ → List Event → ℕ
latch start port [] = u8 (start port)
latch start port (outb p v ∷ history) =
    let rest = latch start port history in if p == port then u8 v else rest
latch start port (inb p v ∷ history) = latch start port history
latch start port (outw p v ∷ history) = latch start port history
latch start port (inw p v ∷ history) = latch start port history
latch start port (halt ∷ history) = latch start port history
latch start port (clear_flag ∷ history) = latch start port history

pub latch-lt : (start : ℕ → ℕ) (port : ℕ) (history : List Event) → latch start port history < 2 ^ 8
unfolding latch
latch-lt start port [] = omega arith
latch-lt start port (outb p v ∷ history) = ground (arith, latch-lt start port history)
latch-lt start port (inb p v ∷ history) = latch-lt start port history
latch-lt start port (outw p v ∷ history) = latch-lt start port history
latch-lt start port (inw p v ∷ history) = latch-lt start port history
latch-lt start port (halt ∷ history) = latch-lt start port history
latch-lt start port (clear_flag ∷ history) = latch-lt start port history
