-- ===== src/Vmm/Entry.antt =====
-- The masks and flags of page table entries, as arithmetic.
use os_from_scratch.Common.{ℕ, ◌+◌, ◌*◌, ◌/◌, ◌%◌, ◌^◌, ◌<◌, ◌≡◌, arith, bit_and, bit_or}
use os_from_scratch.Common.Bits.{bit_or_join, bit_and_low, bit_and_high}

-- The frame that an entry names.
pub frame_mask : (e : ℕ) → e < 2 ^ 32 → bit_and e 0xFFFFF000 ≡ e / 4096 * 4096
frame_mask e h = omega (arith, bit_and_high 12 e 0xFFFFF, bit_and_low 20 (e / 4096))

pub present_bit : (e : ℕ) → bit_and e 1 ≡ e % 2
present_bit e = bit_and_low 1 e

pub with_flags : (frame : ℕ) → bit_or (frame * 4096) 3 ≡ frame * 4096 + 3
with_flags frame = bit_or_join 12 frame 3 (omega arith)

pub with_offset : (frame off : ℕ) → off < 4096 → bit_or (frame * 4096) off ≡ frame * 4096 + off
with_offset frame off h = bit_or_join 12 frame off h

pub table_index : (a : ℕ) → bit_and a 0x3FF ≡ a % 1024
table_index a = bit_and_low 10 a

pub page_offset : (a : ℕ) → bit_and a 0xFFF ≡ a % 4096
page_offset a = bit_and_low 12 a
