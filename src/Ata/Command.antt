-- ===== src/Ata/Command.antt =====
-- The registers of a command.
use os_from_scratch.Common.{
  ℕ, ◌+◌, ◌*◌, ◌/◌, ◌%◌, ◌^◌, ◌≤◌, ◌<◌, ◌≡◌, arith, List, bit_and, bit_or, ◌==◌, ◌∙◌, Bool-cases,
  inl, inr, ==→eq,
}
use os_from_scratch.Common.Word.{}
use os_from_scratch.Common.Bits.{bit_or_join, bit_and_low}
use os_from_scratch.Ports.{Event, latch}
use os_from_scratch.Ata.{AtaDevice, set_registers}

-- The 28-bit address that the registers of a drive hold.
abbrev pub address : (ℕ → ℕ) → ℕ → List Event → ℕ
address start base history =
    latch start (base + 3) history
    + latch start (base + 4) history * 2 ^ 8
    + latch start (base + 5) history * 2 ^ 16
    + latch start (base + 6) history % 2 ^ 4 * 2 ^ 24

drive_byte :
    (slave r : ℕ)
    → slave ≤ 1
    → r < 2 ^ 4
    → bit_or (bit_or 0xE0 (slave * 2 ^ 4)) r ≡ (14 + slave) * 2 ^ 4 + r
drive_byte slave r le lt = elim (Bool-cases (slave == 0)) [
  | inl master ↦ rw (==→eq slave 0 master) (bit_or_join 4 14 r lt)
  | inr other ↦ (let one : slave ≡ 1 = ground (arith, other) in rw one (bit_or_join 4 15 r lt))
]

-- For an address below 2 ^ 28 the registers hold the address, the drive and the low byte of
-- the sector count, after which the command is sent: 256 sectors are sent as 0.
pub set_registers_lem :
    (start : ℕ → ℕ) (d : AtaDevice) (lba sector_count : ℕ) (history : List Event)
    → d.slave ≤ 1
    → lba < 2 ^ 28
    → (address start d.base (set_registers d lba sector_count history) ≡ lba)
      × (latch start (d.base + 6) (set_registers d lba sector_count history) / 2 ^ 4 ≡ 14 + d.slave)
      × (latch start (d.base + 2) (set_registers d lba sector_count history) ≡ sector_count % 2 ^ 8)
unfolding set_registers latch
set_registers_lem start d lba sector_count history le small =
    let low : bit_and (lba / 2 ^ 24) 0x0F ≡ lba / 2 ^ 24 =
      bit_and_low 4 (lba / 2 ^ 24) ∙ omega arith in
    let drive = drive_byte d.slave (lba / 2 ^ 24) le (omega arith) in
    rw (low, drive) (ground arith, ground arith, ground arith)
