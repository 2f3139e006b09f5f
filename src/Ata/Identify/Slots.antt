-- ===== src/Ata/Identify/Slots.antt =====
-- The places of the drives in the table of block devices.
use os_from_scratch.Common.{
  ℕ, zero, suc, ◌+◌, ◌≤◌, ◌<◌, ◌≡◌, inl, inr, refl, subst, arith, Bool, true, false, List, some,
  bit_and, not, leb, ◌==◌, ==→eq, ==→ne, Bool-cases, if◌then◌else◌,
}
use os_from_scratch.Common.Word.{u8, store, store_ne}
use os_from_scratch.Ports.{Event, Device}
use os_from_scratch.Blocks.{block_device_register}
use os_from_scratch.Ata.{AtaDevice}
use os_from_scratch.Ata.Identify.{flag_present, Drives, register_drive, ata_identify}
use os_from_scratch.Ata.Identify.Found.{Found}

unfoldable pub is_present : AtaDevice → Bool
is_present d = not (bit_and d.flags flag_present == 0)

-- How many of the drives before the drive `i` are present.
unfoldable pub rank : (ℕ → AtaDevice) → ℕ → ℕ
rank drives zero = 0
rank drives (suc i) = let rest = rank drives i in if is_present (drives i) then suc rest else rest

pub rank-le : (drives : ℕ → AtaDevice) (i : ℕ) → rank drives i ≤ i
unfolding rank
rank-le drives zero = omega arith
rank-le drives (suc i) = ground (arith, rank-le drives i)

pub rank-store :
    (drives : ℕ → AtaDevice) (d : AtaDevice) (i j : ℕ)
    → j ≤ i
    → rank (store drives i d) j ≡ rank drives j
unfolding rank
rank-store drives d i zero le = refl
rank-store drives d i (suc j) le =
    rw (store_ne drives i d j (omega arith), rank-store drives d i j (omega arith)) refl

pub rank-lt :
    (drives : ℕ → AtaDevice) (i j : ℕ)
    → j < i
    → is_present (drives j) ≡ true
    → rank drives j < rank drives i
unfolding rank
rank-lt drives zero j lt there = absurd (omega arith)
rank-lt drives (suc i) j lt there = elim (Bool-cases (j == i)) [
  | inl last ↦
      (let here : is_present (drives i) ≡ true =
          subst (λ (k : ℕ). is_present (drives k) ≡ true) (==→eq j i last) there in
        rw (==→eq j i last, here) (omega arith))
  | inr earlier ↦
      (let ne = ==→ne j i earlier in
        let before = rank-lt drives i j (omega arith) there in ground (arith, before))
]

-- The drive `j` has its block device at its address, and the address stands in the table at the
-- place that counts the present drives before it.
pub record Entry (before : ℕ) (address : ℕ → ℕ) (s : Drives) (j : ℕ) : Type 0 where
  pub slot : s.table.devices (before + rank s.drives j) ≡ address j
  pub block : s.blocks (address j) ≡ record {
    block_count = (s.drives j).sector_count;
    block_size = (s.drives j).sector_size;
    drive = j;
  }

-- What an identification of `d` returned, and why.
pub record Outcome (fuel : ℕ) (device : Device) (d d' : AtaDevice) : Type 0 where
  pub fresh : ℕ → ℕ
  pub before : List Event
  pub after : List Event
  pub returned : ata_identify fuel fresh device d before ≡ some (d', after)
  pub found : Found fuel device d before d' after

-- The first `i` drives are identified and listed, behind `before` devices that were there.
pub record Listed (fuel : ℕ) (device : Device) (start : ℕ → AtaDevice) (before : ℕ)
    (address : ℕ → ℕ) (i : ℕ) (s : Drives) : Type 0 where
  pub found : (j : ℕ) → j < i → Outcome fuel device (start j) (s.drives j)
  pub pending : (j : ℕ) → i ≤ j → s.drives j ≡ start j
  pub count : s.table.device_count ≡ before + rank s.drives i
  pub entries : (j : ℕ) → j < i → is_present (s.drives j) ≡ true → Entry before address s j

pub register_drive-absent :
    (a i : ℕ) (s : Drives) → is_present (s.drives i) ≡ false → register_drive a i s ≡ s
unfolding register_drive is_present
register_drive-absent a i s gone = rw gone refl

-- The state with the drive `i` in the next slot.
abbrev pub listed_drive : ℕ → ℕ → Drives → Drives
listed_drive a i s = record s {
  blocks = store s.blocks a (record {
    block_count = (s.drives i).sector_count;
    block_size = (s.drives i).sector_size;
    drive = i;
  });
  table = record {
    devices = store s.table.devices s.table.device_count a;
    device_count = s.table.device_count + 1;
  };
}

pub register_drive-present :
    (a i : ℕ) (s : Drives)
    → is_present (s.drives i) ≡ true
    → s.table.device_count < 16
    → register_drive a i s ≡ listed_drive a i s
unfolding register_drive is_present block_device_register
register_drive-present a i s there room =
    let not_full : leb 16 s.table.device_count ≡ false = ground arith in
    let next : u8 (s.table.device_count + 1) ≡ s.table.device_count + 1 = omega arith in
    rw there (rw (not_full, next) refl)
