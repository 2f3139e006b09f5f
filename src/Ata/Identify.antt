-- ===== src/Ata/Identify.antt =====
-- drivers/blocks/ata/ata_pio.c: the identification of the four drives at the start, and their
-- registration as block devices.
pub mod Drive
pub mod Found
pub mod Slots
pub mod Start
use os_from_scratch.Common.{
  ℕ, zero, suc, ◌+◌, ◌*◌, ◌/◌, ◌^◌, Bool, true, false, ◌||◌, not, List, [], ◌∷◌, Option, none, some,
  bit_and, bit_or, ltb, ◌==◌, if◌then◌else◌,
}
use os_from_scratch.Common.Word.{u8, ◌<<◌, ◌>>◌, store}
use os_from_scratch.Ports.{Event, Device, out_byte, in_byte}
use os_from_scratch.Blocks.{Devices, block_device_register}
use os_from_scratch.Ata.{
  AtaDevice, ata_init_device, ata_select_drive, ata_read_status, wait_ready, read_words,
}

abbrev pub flag_present : ℕ
flag_present = 0x01

abbrev pub flag_lba48 : ℕ
flag_lba48 = 0x02

abbrev pub flag_lba28 : ℕ
flag_lba28 = 0x04

-- The loop that copies the model, two characters a round.
unfoldable pub model_loop : ℕ → ℕ → (ℕ → ℕ) → (ℕ → ℕ) → ℕ → ℕ
unfolding store
model_loop zero i words model = model
model_loop (suc left) i words model =
    let high = bit_and (words (27 + i / 2) >> 8) 0xFF in
    let low = bit_and (words (27 + i / 2)) 0xFF in
    model_loop left (i + 2) words (store (store model i high) (i + 1) low)

unfoldable pub lba48_count : (ℕ → ℕ) → ℕ
lba48_count words =
    bit_or (bit_or (bit_or (words 100) (words 101 << 16)) (words 102 << 32)) (words 103 << 48)

unfoldable pub lba28_count : (ℕ → ℕ) → ℕ
lba28_count words = bit_or (words 60) (words 61 << 16)

-- What ata_identify makes of the 256 words. The write of model[41] is behind the 41 bytes of the
-- array; here the string is a function, and has room for it.
unfoldable pub parse_identify : (ℕ → ℕ) → AtaDevice → AtaDevice
unfolding model_loop lba48_count lba28_count store
parse_identify words d =
    let model = store (model_loop 20 0 words d.model) 41 0 in
    if not (bit_and (words 83) (1 << 10) == 0)
    then record d {
      model = model;
      flags = bit_or (bit_or d.flags flag_lba48) flag_present;
      sector_count = lba48_count words;
    }
    else record d {
      model = model;
      flags = bit_or (bit_or d.flags flag_lba28) flag_present;
      sector_count = lba28_count words;
    }

-- The loop that waits for a data request or an error; the second read of the status is made when
-- the first one shows no request. `none`: the fuel ran out.
unfoldable pub wait_data : ℕ → Device → AtaDevice → List Event → Option (List Event)
wait_data zero device d history = none
wait_data (suc fuel) device d history =
    let (status, history1) = ata_read_status device d history in
    let (again, history2) = ata_read_status device d history1 in
    let rest = wait_data fuel device d history2 in
    if not (bit_and status 0x08 == 0)
    then some history1
    else if not (bit_and again 0x01 == 0)
    then some history2
    else rest

-- The registers of the identify command, and the command.
unfoldable pub send_identify : AtaDevice → List Event → List Event
send_identify d history =
    let history1 = out_byte (d.base + 2) 0 history in
    let history2 = out_byte (d.base + 3) 0 history1 in
    let history3 = out_byte (d.base + 4) 0 history2 in
    let history4 = out_byte (d.base + 5) 0 history3 in out_byte (d.base + 7) 0xEC history4

-- The last check, and the 256 words: `fresh` is the buffer that kmalloc gave.
unfoldable pub read_identify : (ℕ → ℕ) → Device → AtaDevice → List Event → AtaDevice × List Event
unfolding parse_identify read_words
read_identify fresh device d history =
    let (status, history1) = ata_read_status device d history in
    let (words, history2) = read_words 256 0 device d fresh history1 in
    if not (bit_and status 0x01 == 0) then (d, history1) else (parse_identify words d, history2)

-- The checks of the two registers that are 0 for an ATA drive; the second is read when the first
-- is 0.
unfoldable pub is_ata : Device → AtaDevice → List Event → Bool × List Event
is_ata device d history =
    let (middle, history1) = in_byte device (d.base + 4) history in
    let (high, history2) = in_byte device (d.base + 5) history1 in
    if not (middle == 0) then (false, history1) else (high == 0, history2)

-- The part of ata_identify from the wait for BSY on.
unfoldable pub identify_present :
    ℕ → (ℕ → ℕ) → Device → AtaDevice → List Event → Option (AtaDevice × List Event)
unfolding wait_ready is_ata wait_data read_identify
identify_present fuel fresh device d history = elim (wait_ready fuel device d history) [
  | none ↦ none
  | some history1 ↦
      (let (ata, history2) = is_ata device d history1 in
        if not ata then some (d, history2) else (elim (wait_data fuel device d history2) [
          | none ↦ none
          | some history3 ↦ some (read_identify fresh device d history3)
        ]))
]

-- `none`: a wait did not end.
unfoldable pub ata_identify :
    ℕ → (ℕ → ℕ) → Device → AtaDevice → List Event → Option (AtaDevice × List Event)
unfolding ata_select_drive send_identify identify_present
ata_identify fuel fresh device d history =
    let (floating, history1) = ata_read_status device d (ata_select_drive d history) in
    let (status, history2) = ata_read_status device d (send_identify d history1) in
    if floating == 0xFF
    then some (d, history1)
    else if status == 0
    then some (d, history2)
    else identify_present fuel fresh device d history2

-- block_device_t as ata_init fills it: its read and write are ata_read_block and ata_write_block,
-- and `drive` is the index of its drive.
pub record BlockDevice : Type 0 where
  pub block_count : ℕ
  pub block_size : ℕ
  pub drive : ℕ

-- The drives, the block devices by their addresses, and the table of block devices.
pub record Drives : Type 0 where
  pub drives : ℕ → AtaDevice
  pub blocks : ℕ → BlockDevice
  pub table : Devices
  pub history : List Event

-- The block device of the drive `i`, at the address `address` that kmalloc gave.
unfoldable pub register_drive : ℕ → ℕ → Drives → Drives
unfolding store block_device_register
register_drive address i s =
    let d = s.drives i in
    if not (bit_and d.flags flag_present == 0)
    then record s {
      blocks =
          store s.blocks address
            (record { block_count = d.sector_count; block_size = d.sector_size; drive = i });
      table = block_device_register address s.table;
    }
    else s

-- The loop over the drives: `address i` is what kmalloc gives for the block device of the drive `i`.
unfoldable pub drives_loop : ℕ → ℕ → ℕ → (ℕ → ℕ) → (ℕ → ℕ) → Device → Drives → Option Drives
unfolding ata_identify register_drive store
drives_loop fuel zero i address fresh device s = some s
drives_loop fuel (suc left) i address fresh device s =
    elim (ata_identify fuel fresh device (s.drives i) s.history) [
      | none ↦ none
      | some (d, history) ↦ drives_loop fuel left (i + 1) address fresh device (
          register_drive (address i) i
            (record s { drives = store s.drives i d; history = history }))
    ]

-- The drive `i` as ata_init prepares it, on the primary or the secondary controller.
unfoldable pub prepared : (ℕ → AtaDevice) → ℕ → AtaDevice
unfolding ata_init_device store
prepared drives =
    store
      (store
        (store (store drives 0 (ata_init_device 0x1F0 0x3F6 0 (drives 0))) 1
          (ata_init_device 0x1F0 0x3F6 1 (drives 1)))
        2 (ata_init_device 0x170 0x376 0 (drives 2)))
      3 (ata_init_device 0x170 0x376 1 (drives 3))

-- ata_init up to the registration of its two interrupt handlers.
unfoldable pub ata_init : ℕ → (ℕ → ℕ) → (ℕ → ℕ) → Device → Drives → Option Drives
unfolding prepared drives_loop
ata_init fuel address fresh device s =
    drives_loop fuel 4 0 address fresh device (record s { drives = prepared s.drives })
