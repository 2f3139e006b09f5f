-- ===== src/Ata/Identify/Start.antt =====
-- The table of block devices when ata_init is done.
use os_from_scratch.Common.{ℕ, zero, suc, ◌+◌, ◌≡◌, ◌≢◌, List, some}
use os_from_scratch.Common.Word.{store}
use os_from_scratch.Ports.{Event, Device}
use os_from_scratch.Blocks.{}
use os_from_scratch.Ata.{AtaDevice}
use os_from_scratch.Ata.Identify.{ata_identify, Drives}
use os_from_scratch.Ata.Identify.Found.{Answers}

-- The waits of the identifications of `left` drives from the drive `i` on, each in the history that
-- those before it left.
unfoldable pub AllAnswer : ℕ → ℕ → ℕ → (ℕ → ℕ) → Device → (ℕ → AtaDevice) → List Event → Type 0
AllAnswer fuel zero i fresh device start h = Unit {0}
AllAnswer fuel (suc left) i fresh device start h =
    Answers fuel device (start i) h
    × ((d : AtaDevice) (h' : List Event)
        → ata_identify fuel fresh device (start i) h ≡ some (d, h')
        → AllAnswer fuel left (i + 1) fresh device start h')

module _ (fuel : ℕ) (device : Device) (start : ℕ → AtaDevice) (before : ℕ) (address : ℕ → ℕ)
    (apart : (i j : ℕ) → i ≢ j → address i ≢ address j) where
  -- The drive `i` has its identification behind it.
  abbrev with_drive : ℕ → AtaDevice → List Event → Drives → Drives
  with_drive i d h s = record s { drives = store s.drives i d; history = h }
