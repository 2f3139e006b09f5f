-- ===== src/Ata/Write.antt =====
-- What a write sends to the drive.
use os_from_scratch.Common.{ℕ, zero, suc, ◌+◌, ◌*◌, ◌<◌, ◌≡◌, ◌⊎◌, Bool, List, ◌∷◌, some}
use os_from_scratch.Ports.{Event, Device, outb}
use os_from_scratch.Ata.{
  AtaDevice, ready, failed, sectors, wait_ready, wait_irq, wait_drq, ata_select_drive, send_command,
  write_words, write_sectors,
}
use os_from_scratch.Ata.Waits.{sent, then_words}

-- Before each of the `left` sectors of a write the drive asks for data, and it interrupts behind the
-- sector, or it shows an error, where the write ends; each within the fuel.
unfoldable pub SectorsEnd :
    ℕ → ℕ → ℕ → Device → (List Event → Bool) → AtaDevice → (ℕ → ℕ) → List Event → Type 0
SectorsEnd fuel zero i device fired d buffer h = Unit {0}
SectorsEnd fuel (suc left) i device fired d buffer h =
    ((h1 : List Event) × (wait_drq fuel device d h ≡ failed h1))
    ⊎ ((h1 : List Event) × (h2 : List Event) × (wait_drq fuel device d h ≡ ready h1)
        × (wait_irq fuel fired (write_words 256 (i * 256) d buffer h1) ≡ some h2)
        × SectorsEnd fuel left (i + 1) device fired d buffer h2)

-- Each wait of the write ends within the fuel: for BSY to clear before the command, those of the
-- sectors, and, where all sectors go out, the one for the interrupt behind the flush.
pub record Accepts (fuel : ℕ) (device : Device) (fired : List Event → Bool) (d : AtaDevice)
    (lba : ℕ) (buffer : ℕ → ℕ) (size : ℕ) (h : List Event) : Type 0 where
  pub idle : List Event
  pub clears : wait_ready fuel device d (ata_select_drive d h) ≡ some idle
  pub sectors_end :
      SectorsEnd fuel
        (sectors size)
        0
        device
        fired
        d
        buffer
        (send_command d lba (sectors size) 0x30 idle)
  pub flushes :
      (h1 : List Event)
      → write_sectors fuel
          (sectors size)
          0
          device
          fired
          d
          buffer
          (send_command d lba (sectors size) 0x30 idle)
        ≡ ready h1
      → (h2 : List Event) × (wait_irq fuel fired (outb (d.base + 7) 0xE7 ∷ h1) ≡ some h2)

-- A transfer of `left` sectors from the sector `i` of the buffer on: `k` of them went out.
record Wrote (fuel left i : ℕ) (device : Device) (fired : List Event → Bool) (d : AtaDevice)
    (buffer : ℕ → ℕ) (h h' : List Event) (k : ℕ) : Type 0 where
  words : sent d.base h' ≡ then_words (k * 256) (i * 256) buffer (sent d.base h)
  result :
      ((write_sectors fuel left i device fired d buffer h ≡ ready h') × (k ≡ left))
      ⊎ ((write_sectors fuel left i device fired d buffer h ≡ failed h') × (k < left))

-- The end of a write: every word went out, then the command that flushes the cache, and the drive
-- interrupted behind it.
pub record Flushed (fuel : ℕ) (fired : List Event → Bool) (d : AtaDevice) (words : List ℕ)
    (h' : List Event) : Type 0 where
  pub before : List Event
  pub complete : sent d.base before ≡ words
  pub interrupted : wait_irq fuel fired (outb (d.base + 7) 0xE7 ∷ before) ≡ some h'
