-- ===== src/Blocks/Table.antt =====
-- What a registration does to the table.
use os_from_scratch.Common.{ℕ, ◌+◌, ◌%◌, ◌^◌, ◌<◌, ◌≡◌, refl, arith, false, leb}
use os_from_scratch.Common.Word.{store_self, store_ne}
use os_from_scratch.Blocks.{Devices, block_device_register, block_device_get, block_device_count}

-- As long as there is room, a device that is registered is found at the index that was the count
-- before, every earlier index finds what it found before, and the count stays at most 16.
pub block_device_register_lem :
    (device index : ℕ) (s : Devices)
    → s.device_count < 16
    → index < s.device_count
    → (block_device_get s.device_count (block_device_register device s) ≡ device)
      × (block_device_get index (block_device_register device s) ≡ block_device_get index s)
      × (block_device_count (block_device_register device s) ≡ s.device_count + 1)
unfolding block_device_register block_device_get
block_device_register_lem device index s room lt =
    let not_full : leb 16 s.device_count ≡ false = ground arith in
    let next : (s.device_count + 1) % 2 ^ 8 ≡ s.device_count + 1 = omega arith in
    let at_end : leb (s.device_count + 1) s.device_count ≡ false = ground arith in
    let early : leb (s.device_count + 1) index ≡ false = ground arith in
    let before : leb s.device_count index ≡ false = ground arith in
    (
      rw (not_full, next, at_end) (store_self s.devices s.device_count device),
      rw (not_full, next, early, before)
          (store_ne s.devices s.device_count device index (omega arith)),
      rw (not_full, next) refl,
    )
