-- ===== src/Blocks.antt =====
-- drivers/blocks/block_device.c: the table of block devices.
pub mod Table
use os_from_scratch.Common.{ℕ, ◌+◌, ◌%◌, ◌^◌, leb, if◌then◌else◌}
use os_from_scratch.Common.Word.{u8, store}

abbrev pub max_block_devices : ℕ
max_block_devices = 16

-- The table holds pointers to devices; 0 is NULL.
pub record Devices : Type 0 where
  pub devices : ℕ → ℕ
  pub device_count : ℕ

unfoldable pub block_device_register : ℕ → Devices → Devices
unfolding store
block_device_register device s = if leb max_block_devices s.device_count then s else record {
  devices = store s.devices s.device_count device;
  device_count = u8 (s.device_count + 1);
}

unfoldable pub block_device_get : ℕ → Devices → ℕ
block_device_get index s = if leb s.device_count index then 0 else s.devices index

abbrev pub block_device_count : Devices → ℕ
block_device_count s = s.device_count
