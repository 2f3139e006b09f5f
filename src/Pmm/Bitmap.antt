-- ===== src/Pmm/Bitmap.antt =====
-- What the bit macros of kernel/mem/pmm.cpp do to the bit of each frame.
use os_from_scratch.Common.{ℕ, ◌-◌, ◌/◌, ◌%◌, ◌^◌, ◌≤◌, ◌≡◌, arith, ◌==◌, if◌then◌else◌}
use os_from_scratch.Common.Word.{store}
use os_from_scratch.Common.Bits.{
  digit, digit-le, digit-bit_or, digit-bit_and, digit-pow, digit-complement, pow_lt,
}
use os_from_scratch.Pmm.{set_bit, clear_bit}

-- The bit of frame `n`: 1 when the frame is taken.
unfoldable pub frame_bit : (ℕ → ℕ) → ℕ → ℕ
frame_bit bitmap n = digit (bitmap (n / 32)) (n % 32)

pub frame_bit-le : (bitmap : ℕ → ℕ) (n : ℕ) → frame_bit bitmap n ≤ 1
unfolding frame_bit
frame_bit-le bitmap n = digit-le _ _

pub frame_bit-set_bit :
    (bitmap : ℕ → ℕ) (i n : ℕ)
    → frame_bit (set_bit bitmap i) n ≡ (if n == i then 1 else frame_bit bitmap n)
unfolding frame_bit set_bit store
frame_bit-set_bit bitmap i n = ground (
  arith,
  digit-bit_or (bitmap (i / 32)) (2 ^ (i % 32)) (n % 32),
  digit-pow (i % 32) (n % 32),
  digit-le (bitmap (i / 32)) (n % 32),
)

pub frame_bit-clear_bit :
    (bitmap : ℕ → ℕ) (i n : ℕ)
    → frame_bit (clear_bit bitmap i) n ≡ (if n == i then 0 else frame_bit bitmap n)
unfolding frame_bit clear_bit store
frame_bit-clear_bit bitmap i n = ground (
  arith,
  digit-bit_and (bitmap (i / 32)) (2 ^ 32 - 1 - 2 ^ (i % 32)) (n % 32),
  digit-complement 32 (2 ^ (i % 32)) (n % 32) (pow_lt (i % 32) 32 (omega arith)) (omega arith),
  digit-pow (i % 32) (n % 32),
  digit-le (bitmap (i / 32)) (n % 32),
)
