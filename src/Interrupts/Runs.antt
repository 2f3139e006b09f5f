-- ===== src/Interrupts/Runs.antt =====
-- What a run of interrupts does to the drivers.
use os_from_scratch.Common.{
  ℕ, suc, ◌+◌, ◌≤◌, ◌<◌, ◌≡◌, List, [], ◌∷◌, length, Option, ◌==◌, if◌then◌else◌,
}
use os_from_scratch.Common.Word.{}
use os_from_scratch.Ports.{Device}
use os_from_scratch.Pic.{}
use os_from_scratch.Clock.{Clock}
use os_from_scratch.Clock.Ticks.{Agrees}
use os_from_scratch.Keyboard.Line.{type_keys}
use os_from_scratch.Interrupts.{
  Registers, Machine, Outcome, resumed, unhandled, excepted, page_fault, irq_handler,
}
use os_from_scratch.Interrupts.Vectors.{primary, secondary}

unfoldable pub count : ℕ → List ℕ → ℕ
count n [] = 0
count n (v ∷ vs) = let rest = count n vs in if v == n then suc rest else rest

module _ {Callback : Type 0} (call : Option Callback → Clock Callback → Clock Callback)
    (device : Device) where
  -- The interrupts of `rs`, one after the other; one that does not come back is the last.
  pub serve_all : List Registers → Machine Callback → Outcome Callback
  serve_all [] m = resumed m
  serve_all (r ∷ rs) m = elim (irq_handler call device r m) [
    | resumed m1 ↦ serve_all rs m1
    | unhandled m1 ↦ unhandled m1
    | excepted r1 m1 ↦ excepted r1 m1
    | page_fault m1 ↦ page_fault m1
  ]

abbrev pub vectors : List Registers → List ℕ
vectors [] = []
vectors (r ∷ rs) = r.int_no ∷ vectors rs

-- The vectors are those of the two controllers.
unfoldable pub AreLines : List Registers → Type 0
AreLines [] = Unit {0}
AreLines (r ∷ rs) = (32 ≤ r.int_no) × (r.int_no < 48) × AreLines rs

module _ {Callback : Type 0} where
  -- `m'` is `m` after the interrupts of the vectors `ns`: the scancodes that were read, one for each
  -- keyboard interrupt, edit the line, each timer interrupt is a tick, and a disk's flag is set by
  -- its interrupts alone.
  pub record After (ns : List ℕ) (m m' : Machine Callback) : Type 0 where
    pub keys :
        (codes : List ℕ) × (length codes ≡ count 33 ns) × (m'.keyboard ≡ type_keys codes m.keyboard)
    pub ticks : m'.clock.ticks ≡ m.clock.ticks + count 32 ns
    pub frequency : m'.clock.frequency ≡ m.clock.frequency
    pub agrees : Agrees m'.clock
    pub primary : m'.ata_primary_irq ≡ (if count 46 ns == 0 then m.ata_primary_irq else 1)
    pub secondary : m'.ata_secondary_irq ≡ (if count 47 ns == 0 then m.ata_secondary_irq else 1)
    pub handlers : m'.interrupt_handlers ≡ m.interrupt_handlers
