-- ===== src/Ata/Identify/Found.antt =====
-- Whether the identification finds a drive.
use os_from_scratch.Common.{ℕ, ◌+◌, ◌≡◌, ◌≢◌, ◌⊎◌, List, ◌∷◌, some, bit_and}
use os_from_scratch.Common.Word.{u8}
use os_from_scratch.Common.Bits.{}
use os_from_scratch.Ports.{Event, Device, inb}
use os_from_scratch.Ata.{AtaDevice, ata_select_drive, wait_ready}
use os_from_scratch.Ata.Waits.{gave, then_words}
use os_from_scratch.Ata.Identify.{wait_data, send_identify}
use os_from_scratch.Ata.Identify.Drive.{Identified}

-- The status that a read finds, and the history behind the read.
abbrev pub status : Device → AtaDevice → List Event → ℕ
status device d h = u8 (device h (d.base + 7))

abbrev pub polled : Device → AtaDevice → List Event → List Event
polled device d h = inb (d.base + 7) (status device d h) ∷ h

-- The histories of an identification: when the command is sent, and when its status was read.
abbrev pub commanded : Device → AtaDevice → List Event → List Event
commanded device d h = send_identify d (polled device d (ata_select_drive d h))

abbrev pub answered : Device → AtaDevice → List Event → List Event
answered device d h = polled device d (commanded device d h)

-- The two registers that are 0 for an ATA drive, and the history behind their reads.
abbrev pub middle : Device → AtaDevice → List Event → ℕ
middle device d h = u8 (device h (d.base + 4))

abbrev pub middle_read : Device → AtaDevice → List Event → List Event
middle_read device d h = inb (d.base + 4) (middle device d h) ∷ h

abbrev pub high : Device → AtaDevice → List Event → ℕ
high device d h = u8 (device (middle_read device d h) (d.base + 5))

abbrev pub registers_read : Device → AtaDevice → List Event → List Event
registers_read device d h = inb (d.base + 5) (high device d h) ∷ middle_read device d h

-- The bus is there, and something answers to the command.
abbrev pub Responds : Device → AtaDevice → List Event → Type 0
Responds device d h =
    (status device d (ata_select_drive d h) ≢ 0xFF) × (status device d (commanded device d h) ≢ 0)

-- The waits of this identification end within the fuel, as far as it comes to them: for BSY to clear
-- where something responds, and for the data where that is an ATA drive.
pub record Answers (fuel : ℕ) (device : Device) (d : AtaDevice) (h : List Event) : Type 0 where
  pub clears :
      Responds device d h
      → (h1 : List Event) × (wait_ready fuel device d (answered device d h) ≡ some h1)
  pub requests :
      (h1 : List Event)
      → Responds device d h
      → middle device d h1 ≡ 0
      → high device d h1 ≡ 0
      → (h2 : List Event) × (wait_data fuel device d (registers_read device d h1) ≡ some h2)

-- The outcome of an identification of `d` from the history `h` on, with the reason of each: the bus
-- reads as 0xFF; the status is 0; one of the two registers is not 0; the drive shows an error; or
-- 256 words came from the data port, all of them between `h` and `h'` and in their order, and the
-- record has what they say.
pub data Found (fuel : ℕ) (device : Device) (d : AtaDevice) (h : List Event) (d' : AtaDevice)
    (h' : List Event) : Type 0 where
  no_bus : status device d (ata_select_drive d h) ≡ 0xFF → d' ≡ d → Found fuel device d h d' h'
  no_drive :
      status device d (ata_select_drive d h) ≢ 0xFF
      → status device d (commanded device d h) ≡ 0
      → d' ≡ d
      → Found fuel device d h d' h'
  not_ata :
      (h1 : List Event)
      → Responds device d h
      → wait_ready fuel device d (answered device d h) ≡ some h1
      → (middle device d h1 ≢ 0) ⊎ (high device d h1 ≢ 0)
      → d' ≡ d
      → Found fuel device d h d' h'
  refused :
      (h1 h2 : List Event)
      → Responds device d h
      → wait_ready fuel device d (answered device d h) ≡ some h1
      → (middle device d h1 ≡ 0) × (high device d h1 ≡ 0)
      → wait_data fuel device d (registers_read device d h1) ≡ some h2
      → bit_and (status device d h2) 0x01 ≢ 0
      → d' ≡ d
      → Found fuel device d h d' h'
  present :
      (h1 h2 : List Event) (words : ℕ → ℕ)
      → Responds device d h
      → wait_ready fuel device d (answered device d h) ≡ some h1
      → (middle device d h1 ≡ 0) × (high device d h1 ≡ 0)
      → wait_data fuel device d (registers_read device d h1) ≡ some h2
      → bit_and (status device d h2) 0x01 ≡ 0
      → gave device d.base h' ≡ then_words 256 0 words (gave device d.base h)
      → Identified words d d'
      → Found fuel device d h d' h'
