-- ===== src/Ata/Examples.antt =====
-- Two drives on the primary controller, none on the secondary, and a buffer of zeros.
use os_from_scratch.Common.{
  ℕ, ◌+◌, ◌*◌, ◌≤◌, ◌<◌, ◌≡◌, refl, arith, Bool, true, false, ltb, ◌||◌, ◌==◌, if◌then◌else◌, List,
  [], ◌∷◌, some,
}
use os_from_scratch.Ports.{Event, Device, outb, inb, outw, inw, halt, clear_flag}
use os_from_scratch.Ata.{
  AtaDevice, sectors, ata_read_lba28, wait_ready, wait_irq, ata_select_drive, set_registers,
  send_command,
}
use os_from_scratch.Ata.Write.{SectorsEnd}
use os_from_scratch.Ata.Identify.{Drives}
use os_from_scratch.Ata.Identify.Found.{Found}
use os_from_scratch.Ata.Command.{}
use os_from_scratch.Ata.Transfer
use os_from_scratch.Ata.Transfer.{Serves, Filled, ata_read_lba28_lem}

abbrev zeros : ℕ → ℕ
zeros k = 0

abbrev primary_master : AtaDevice
primary_master = record {
  base = 0x1F0;
  control = 0x3F6;
  slave = 0;
  channel = 0;
  flags = 0;
  sector_size = 512;
  sector_count = 0;
  model = zeros;
}

-- Nothing drives the bus of the secondary controller. On the primary one every status asks for data,
-- and shows no error and no BSY; the two registers of an ATA drive are 0, and the other ports read 8.
abbrev machine : Device
machine history port =
    if ltb port 0x1F0 then 0xFF else if port == 0x1F4 || port == 0x1F5 then 0 else 0x08

-- The interrupt comes with the next event behind the reset of the flag.
abbrev soon : List Event → Bool
soon [] = false
soon (outb p v ∷ h) = true
soon (inb p v ∷ h) = true
soon (outw p v ∷ h) = true
soon (inw p v ∷ h) = true
soon (halt ∷ h) = true
soon (clear_flag ∷ h) = false

machine-Serves : Serves 1 machine soon primary_master 7 zeros 512 []
unfolding wait_ready wait_irq Transfer.SectorsEnd ata_select_drive set_registers send_command
machine-Serves = record {
  idle = _;
  clears = refl;
  taken = _;
  takes = refl;
  interrupts = (_, refl, tt);
}

ata_read_lba28_lem_example :
    (out : ℕ → ℕ) × (h' : List Event) × (ata_read_lba28 1 machine soon primary_master 7 zeros 512 []
      ≡ some (out, h'))
    × Filled machine primary_master 0 (sectors 512 * 256) zeros out [] h'
    × (512 ≤ sectors 512 * 512)
    × (sectors 512 * 512 < 512 + 512)
ata_read_lba28_lem_example =
    ata_read_lba28_lem 1 machine soon primary_master 7 zeros 512 [] machine-Serves (omega arith)

abbrev drives : Drives
drives = record {
  drives = λ i. primary_master;
  blocks = λ a. record { block_count = 0; block_size = 0; drive = 0 };
  table = record { devices = zeros; device_count = 0 };
  history = [];
}

abbrev addresses : ℕ → ℕ
addresses i = 0x500000 + 32 * i
