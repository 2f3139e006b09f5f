-- ===== src/Pmm/Region.antt =====
-- `free_region` and `pmm_reserve_region`: which frames their loops touch.
use os_from_scratch.Common.{
  ℕ, zero, suc, ◌+◌, ◌-◌, ◌*◌, ◌^◌, ◌<◌, ◌≡◌, Bool, ◌&&◌, arith, ltb, leb, if◌then◌else◌,
}
use os_from_scratch.Pmm.{
  Pmm, page_size, set_bit, clear_bit, set_range, clear_range, free_region, pmm_reserve_region,
  start_frame, end_frame,
}
use os_from_scratch.Pmm.Bitmap.{frame_bit, frame_bit-set_bit, frame_bit-clear_bit}

frame_bit-set_range :
    (left i : ℕ) (bitmap : ℕ → ℕ) (k : ℕ)
    → frame_bit (set_range left i bitmap) k
      ≡ (if leb i k && ltb k (i + left) then 1 else frame_bit bitmap k)
unfolding set_range
frame_bit-set_range zero i bitmap k = ground arith
frame_bit-set_range (suc left) i bitmap k =
    ground
      (arith, frame_bit-set_range left (i + 1) (set_bit bitmap i) k, frame_bit-set_bit bitmap i k)

frame_bit-clear_range :
    (left i : ℕ) (bitmap : ℕ → ℕ) (k : ℕ)
    → frame_bit (clear_range left i bitmap) k
      ≡ (if leb i k && ltb k (i + left) then 0 else frame_bit bitmap k)
unfolding clear_range
frame_bit-clear_range zero i bitmap k = ground arith
frame_bit-clear_range (suc left) i bitmap k = ground (
  arith,
  frame_bit-clear_range left (i + 1) (clear_bit bitmap i) k,
  frame_bit-clear_bit bitmap i k,
)

-- Frame `k` shares a byte with the region of `size` bytes at `addr`.
abbrev pub overlaps : ℕ → ℕ → ℕ → Bool
overlaps addr size k = ltb addr ((k + 1) * page_size) && ltb (k * page_size) (addr + size)

-- When the end of the region fits in 64 bits, `pmm_reserve_region` takes each frame that the region
-- reaches into, in part or as a whole, and changes the bit of no other frame.
pub pmm_reserve_region_lem :
    (addr size : ℕ) (s : Pmm)
    → addr + size + 4095 < 2 ^ 64
    → (k : ℕ)
    → frame_bit (pmm_reserve_region addr size s).bitmap k
      ≡ (if overlaps addr size k then 1 else frame_bit s.bitmap k)
unfolding pmm_reserve_region
pmm_reserve_region_lem addr size s fits k = ground (
  arith,
  frame_bit-set_range (end_frame addr size - start_frame addr) (start_frame addr) s.bitmap k,
)

-- When the end of the region fits in 64 bits, `free_region` frees each frame that the region
-- reaches into, those with only a part in the region included, and changes the bit of no other.
pub free_region_lem :
    (addr size : ℕ) (s : Pmm)
    → addr + size + 4095 < 2 ^ 64
    → (k : ℕ)
    → frame_bit (free_region addr size s).bitmap k
      ≡ (if overlaps addr size k then 0 else frame_bit s.bitmap k)
unfolding free_region
free_region_lem addr size s fits k = ground (
  arith,
  frame_bit-clear_range (end_frame addr size - start_frame addr) (start_frame addr) s.bitmap k,
)
