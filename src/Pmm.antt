-- ===== src/Pmm.antt =====
-- kernel/mem/pmm.cpp: the physical page allocator, a bitmap with one bit for each 4 KiB frame.
pub mod Bitmap
pub mod Alloc
pub mod Region
pub mod Init
mod Examples
use os_from_scratch.Common.{
  ℕ, zero, suc, ◌+◌, ◌-◌, ◌*◌, ◌/◌, ◌%◌, ◌^◌, Bool, ◌||◌, not, Option, none, some, bit_and, bit_or,
  ltb, leb, ◌==◌, if◌then◌else◌,
}
use os_from_scratch.Common.Word.{u32, u64, ◌<<◌, store}

abbrev pub page_size : ℕ
page_size = 4096

-- The globals of pmm.cpp. `bitmap` is the memory behind the pointer, as 32-bit words: an index
-- past `bitmap_size / 4` reaches the words that follow the bitmap, as it does in C.
pub record Pmm : Type 0 where
  pub bitmap : ℕ → ℕ
  pub max_frames : ℕ
  pub bitmap_size : ℕ

-- SET_BIT and CLEAR_BIT.
unfoldable pub set_bit : (ℕ → ℕ) → ℕ → ℕ → ℕ
unfolding store
set_bit bitmap idx = store bitmap (idx / 32) (bit_or (bitmap (idx / 32)) (1 << (idx % 32)))

unfoldable pub clear_bit : (ℕ → ℕ) → ℕ → ℕ → ℕ
unfolding store
clear_bit bitmap idx =
    store bitmap (idx / 32) (bit_and (bitmap (idx / 32)) (2 ^ 32 - 1 - 2 ^ (idx % 32)))

-- The inner loop of `pmm_alloc_page`: the first clear bit of `word` from `j` on.
unfoldable pub scan_bits : ℕ → ℕ → ℕ → Option ℕ
scan_bits word zero j = none
scan_bits word (suc left) j =
    let rest = scan_bits word left (j + 1) in if bit_and word (2 ^ j) == 0 then some j else rest

-- The outer loop: the frame number of the first clear bit from word `i` on.
unfoldable pub scan_words : (ℕ → ℕ) → ℕ → ℕ → Option ℕ
unfolding scan_bits
scan_words bitmap zero i = none
scan_words bitmap (suc left) i =
    let rest = scan_words bitmap left (i + 1) in
    if bitmap i == 0xFFFFFFFF
    then rest
    else elim (scan_bits (bitmap i) 32 0) [ none ↦ rest | some j ↦ some (i * 32 + j) ]

-- The address that is returned, and the new state. A failure returns 0.
unfoldable pub pmm_alloc_page : Pmm → ℕ × Pmm
unfolding scan_words set_bit
pmm_alloc_page s = elim (scan_words s.bitmap (s.max_frames / 32) 0) [
  | none ↦ (0, s)
  | some n ↦ (u32 (n * page_size), record s { bitmap = set_bit s.bitmap n })
]

unfoldable pub pmm_free_page : ℕ → Pmm → Pmm
unfolding clear_bit
pmm_free_page addr s =
    if addr == 0 || leb (u32 (s.max_frames * page_size)) addr || not (addr % page_size == 0)
    then s
    else record s { bitmap = clear_bit s.bitmap (addr / page_size) }

-- The bounds of the loops of `free_region` and `pmm_reserve_region`, in uint64_t.
abbrev pub start_frame : ℕ → ℕ
start_frame addr = addr / page_size

abbrev pub end_frame : ℕ → ℕ → ℕ
end_frame addr size = u64 (addr + size + page_size - 1) / page_size

unfoldable pub clear_range : ℕ → ℕ → (ℕ → ℕ) → ℕ → ℕ
clear_range zero i bitmap = bitmap
clear_range (suc left) i bitmap = clear_range left (i + 1) (clear_bit bitmap i)

unfoldable pub set_range : ℕ → ℕ → (ℕ → ℕ) → ℕ → ℕ
set_range zero i bitmap = bitmap
set_range (suc left) i bitmap = set_range left (i + 1) (set_bit bitmap i)

unfoldable pub free_region : ℕ → ℕ → Pmm → Pmm
unfolding clear_range clear_bit
free_region addr size s =
    let start = start_frame addr in
    record s { bitmap = clear_range (end_frame addr size - start) start s.bitmap }

unfoldable pub pmm_reserve_region : ℕ → ℕ → Pmm → Pmm
unfolding set_range set_bit
pmm_reserve_region addr size s =
    let start = start_frame addr in
    record s { bitmap = set_range (end_frame addr size - start) start s.bitmap }
