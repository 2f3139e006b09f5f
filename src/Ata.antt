-- ===== src/Ata.antt =====
-- drivers/blocks/ata/ata_pio.c: reads and writes of sectors by programmed I/O, and the parse of
-- the identify data.
pub mod Command
pub mod Waits
pub mod Transfer
pub mod Write
pub mod Identify
mod Examples
use os_from_scratch.Common.{
  ℕ, zero, suc, ◌+◌, ◌-◌, ◌*◌, ◌/◌, ◌^◌, Bool, true, false, ◌&&◌, not, List, ◌∷◌, Option, none,
  some, bit_and, bit_or, ◌==◌, if◌then◌else◌,
}
use os_from_scratch.Common.Word.{u8, u32, ◌<<◌, ◌>>◌, store}
use os_from_scratch.Ports.{Event, Device, halt, clear_flag, out_byte, in_byte, out_word, in_word}

-- ata_device_t: the model string has 41 bytes, and the code writes 42.
pub record AtaDevice : Type 0 where
  pub base : ℕ
  pub control : ℕ
  pub slave : ℕ
  pub channel : ℕ
  pub flags : ℕ
  pub sector_size : ℕ
  pub sector_count : ℕ
  pub model : ℕ → ℕ

unfoldable pub ata_init_device : ℕ → ℕ → ℕ → AtaDevice → AtaDevice
unfolding store
ata_init_device base control slave device = record {
  base = base;
  control = control;
  slave = slave;
  channel = 0;
  flags = 0;
  sector_size = 512;
  sector_count = 0;
  model = store device.model 0 0;
}

-- (size + 511) / 512 in uint32_t.
abbrev pub sectors : ℕ → ℕ
sectors size = u32 (size + 511) / 512

unfoldable pub ata_select_drive : AtaDevice → List Event → List Event
ata_select_drive d history =
    if d.slave == 0 then out_byte (d.base + 6) 0xA0 history else out_byte (d.base + 6) 0xB0 history

abbrev pub ata_read_status : Device → AtaDevice → List Event → ℕ × List Event
ata_read_status device d history = in_byte device (d.base + 7) history

-- The loop that waits for BSY to clear. `none`: the fuel ran out.
unfoldable pub wait_ready : ℕ → Device → AtaDevice → List Event → Option (List Event)
wait_ready zero device d history = none
wait_ready (suc fuel) device d history =
    let (status, history1) = ata_read_status device d history in
    let rest = wait_ready fuel device d history1 in
    if bit_and status 0x80 == 0 then some history1 else rest

-- The loop that halts until the interrupt flag is set, and the reset of the flag behind it.
-- `fired history` is whether the handler has set the flag by then, since the last `clear_flag` of the
-- history: interrupts come from outside.
unfoldable pub wait_irq : ℕ → (List Event → Bool) → List Event → Option (List Event)
wait_irq zero fired history = none
wait_irq (suc fuel) fired history =
    let rest = wait_irq fuel fired (halt ∷ history) in
    if fired history then some (clear_flag ∷ history) else rest

-- The drive, the count and the address are put in the registers.
unfoldable pub set_registers : AtaDevice → ℕ → ℕ → List Event → List Event
set_registers d lba sector_count history =
    let drive = bit_or (bit_or 0xE0 (d.slave << 4)) (bit_and (lba >> 24) 0x0F) in
    let history1 = out_byte (d.base + 6) drive history in
    let history2 = out_byte (d.base + 2) sector_count history1 in
    let history3 = out_byte (d.base + 3) (u8 lba) history2 in
    let history4 = out_byte (d.base + 4) (u8 (lba >> 8)) history3 in
    out_byte (d.base + 5) (u8 (lba >> 16)) history4

-- The 256 words of a sector, from the data port to the buffer.
unfoldable pub read_words : ℕ → ℕ → Device → AtaDevice → (ℕ → ℕ) → List Event → (ℕ → ℕ) × List Event
unfolding store
read_words zero k device d buffer history = (buffer, history)
read_words (suc left) k device d buffer history =
    let (word, history1) = in_word device d.base history in
    read_words left (k + 1) device d (store buffer k word) history1

unfoldable pub read_sectors :
    ℕ
    → ℕ
    → ℕ
    → Device
    → (List Event → Bool)
    → AtaDevice
    → (ℕ → ℕ)
    → List Event
    → Option ((ℕ → ℕ) × List Event)
unfolding wait_irq read_words
read_sectors fuel zero i device fired d buffer history = some (buffer, history)
read_sectors fuel (suc left) i device fired d buffer history = elim (wait_irq fuel fired history) [
  | none ↦ none
  | some history1 ↦
      (let (buffer1, history2) = read_words 256 (i * 256) device d buffer history1 in
        read_sectors fuel left (i + 1) device fired d buffer1 history2)
]

-- The registers, the reset of the interrupt flag, and the command.
unfoldable pub send_command : AtaDevice → ℕ → ℕ → ℕ → List Event → List Event
unfolding set_registers
send_command d lba sector_count command history =
    out_byte (d.base + 7) command (clear_flag ∷ set_registers d lba sector_count history)

-- The command up to the transfer: `command` is 0x20 for a read and 0x30 for a write.
unfoldable pub start_command : ℕ → Device → AtaDevice → ℕ → ℕ → ℕ → List Event → Option (List Event)
unfolding wait_ready ata_select_drive send_command
start_command fuel device d lba sector_count command history =
    elim (wait_ready fuel device d (ata_select_drive d history)) [
      | none ↦ none
      | some history1 ↦ some (send_command d lba sector_count command history1)
    ]

-- The buffer as 16-bit words, and the history. `none`: a wait did not end.
unfoldable pub ata_read_lba28 :
    ℕ
    → Device
    → (List Event → Bool)
    → AtaDevice
    → ℕ
    → (ℕ → ℕ)
    → ℕ
    → List Event
    → Option ((ℕ → ℕ) × List Event)
unfolding start_command wait_ready read_sectors
ata_read_lba28 fuel device fired d lba buffer size history =
    elim (start_command fuel device d lba (sectors size) 0x20 history) [
      | none ↦ none
      | some history1 ↦ elim (wait_ready fuel device d history1) [
        | none ↦ none
        | some history2 ↦ read_sectors fuel (sectors size) 0 device fired d buffer history2
      ]
    ]

unfoldable pub write_words : ℕ → ℕ → AtaDevice → (ℕ → ℕ) → List Event → List Event
write_words zero k d buffer history = history
write_words (suc left) k d buffer history =
    write_words left (k + 1) d buffer (out_word d.base (buffer k) history)

-- What a wait for DRQ found: an error ends the whole write.
pub data Wait : Type 0 where
  ready failed : List Event → Wait
  out_of_fuel : Wait

unfoldable pub wait_drq : ℕ → Device → AtaDevice → List Event → Wait
wait_drq zero device d history = out_of_fuel
wait_drq (suc fuel) device d history =
    let (status, history1) = ata_read_status device d history in
    let rest = wait_drq fuel device d history1 in
    if not (bit_and status 0x01 == 0)
    then failed history1
    else if bit_and status 0x80 == 0 && not (bit_and status 0x08 == 0)
    then ready history1
    else rest

-- The loop over the sectors; `failed` is the early return.
unfoldable pub write_sectors :
    ℕ → ℕ → ℕ → Device → (List Event → Bool) → AtaDevice → (ℕ → ℕ) → List Event → Wait
unfolding wait_drq write_words wait_irq
write_sectors fuel zero i device fired d buffer history = ready history
write_sectors fuel (suc left) i device fired d buffer history =
    elim (wait_drq fuel device d history) [
      | out_of_fuel ↦ out_of_fuel
      | failed history1 ↦ failed history1
      | ready history1 ↦ elim (wait_irq fuel fired (write_words 256 (i * 256) d buffer history1)) [
        | none ↦ out_of_fuel
        | some history2 ↦ write_sectors fuel left (i + 1) device fired d buffer history2
      ]
    ]

-- The write ends with the command that flushes the cache of the drive.
unfoldable pub ata_write_lba28 :
    ℕ → Device → (List Event → Bool) → AtaDevice → ℕ → (ℕ → ℕ) → ℕ → List Event → Wait
unfolding start_command write_sectors wait_irq
ata_write_lba28 fuel device fired d lba buffer size history =
    elim (start_command fuel device d lba (sectors size) 0x30 history) [
      | none ↦ out_of_fuel
      | some history1 ↦ elim (write_sectors fuel (sectors size) 0 device fired d buffer history1) [
        | out_of_fuel ↦ out_of_fuel
        | failed history2 ↦ failed history2
        | ready history2 ↦ elim (wait_irq fuel fired (out_byte (d.base + 7) 0xE7 history2)) [
          | none ↦ out_of_fuel
          | some history3 ↦ ready history3
        ]
      ]
    ]
