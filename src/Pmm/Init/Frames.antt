-- ===== src/Pmm/Init/Frames.antt =====
-- Which frames are free once `init_pmm` is done.
use os_from_scratch.Common.{
  ℕ, zero, suc, ◌+◌, ◌*◌, ◌/◌, ◌%◌, ◌^◌, ◌≤◌, ◌<◌, ◌≡◌, refl, ap, ◌∙◌, arith, Bool, true, false,
  ◌&&◌, ◌||◌, List, [], ◌∷◌, length, some, ltb, leb, ◌==◌, if◌then◌else◌, Bool-cases, inl, inr,
}
use os_from_scratch.Common.Word.{u8, u32}
use os_from_scratch.Common.Bits.{digit, digit-zero, digit-complement, bit_and_high, bit_and_low}
use os_from_scratch.Memory.{mset}
use os_from_scratch.Memory.Fill.{four, mset_lem}
use os_from_scratch.Multiboot.{
  MmapEntry, MemoryRegion, multiboot_get_total_memory, multiboot_get_usable_regions,
}
use os_from_scratch.Multiboot.Regions.{IsMap, Lists, usable, multiboot_get_usable_regions_lem}
use os_from_scratch.Pmm.{Pmm, page_size, free_region, pmm_reserve_region}
use os_from_scratch.Pmm.Bitmap.{frame_bit}
use os_from_scratch.Pmm.Region.{overlaps, pmm_reserve_region_lem, free_region_lem}
use os_from_scratch.Pmm.Init.{Boot, bitmap_addr, kernel_size, free_loop, reserve_all, init_pmm}

-- Some region of the list reaches into frame `k`.
abbrev pub any_overlaps : List MemoryRegion → ℕ → Bool
any_overlaps [] k = false
any_overlaps (r ∷ rs) k = overlaps r.addr r.len k || any_overlaps rs k

-- The end of each region, rounded up to a page, fits in 64 bits.
abbrev pub FitAll : List MemoryRegion → Type 0
FitAll [] = Unit {0}
FitAll (r ∷ rs) = (r.addr + r.len + 4095 < 2 ^ 64) × FitAll rs

-- Each region is of type 1, as those that `usable` lists are.
abbrev AllUsable : List MemoryRegion → Type 0
AllUsable [] = Unit {0}
AllUsable (r ∷ rs) = (r.type ≡ 1) × AllUsable rs

usable-AllUsable : (es : List MmapEntry) → AllUsable (usable es)
usable-AllUsable [] = tt
usable-AllUsable (e ∷ es) = elim (Bool-cases (e.type == 1)) [
  | inl is_usable ↦ rw is_usable (refl, usable-AllUsable es)
  | inr other ↦ rw other (usable-AllUsable es)
]

free_loop-step :
    (left i : ℕ) (regions : ℕ → MemoryRegion) (s : Pmm) (r : MemoryRegion)
    → regions i ≡ r
    → (r.type == 1) ≡ true
    → free_loop (suc left) i regions s ≡ free_loop left (i + 1) regions (free_region r.addr r.len s)
unfolding free_loop
free_loop-step left i regions s r here is_usable = rw (free_loop, here, is_usable) refl

free_loop_lem :
    (rs : List MemoryRegion) (i : ℕ) (regions : ℕ → MemoryRegion) (s : Pmm) (k : ℕ)
    → Lists regions i rs
    → AllUsable rs
    → FitAll rs
    → frame_bit (free_loop (length rs) i regions s).bitmap k
      ≡ (if any_overlaps rs k then 0 else frame_bit s.bitmap k)
unfolding free_loop
free_loop_lem [] i regions s k listed all fit = refl
free_loop_lem (r ∷ rs) i regions s k listed all fit =
    let is_usable : (r.type == 1) ≡ true = ground (arith, all.0) in
    rw (free_loop-step (length rs) i regions s r listed.0 is_usable) (
      free_loop_lem rs (i + 1) regions (free_region r.addr r.len s) k listed.1 all.1 fit.1
      ∙ ground (arith, free_region_lem r.addr r.len s fit.0 k))

-- The frame is in one of the four ranges that `init_pmm` reserves: the first MiB, the kernel, the
-- memory map and the bitmap.
abbrev pub is_reserved : Boot → ℕ → ℕ → Bool
is_reserved boot bitmap_size k =
    overlaps 0 0x100000 k
    || overlaps boot.kernel_start (kernel_size boot) k
    || overlaps boot.info.mmap_addr boot.info.mmap_length k
    || overlaps (bitmap_addr boot) bitmap_size k

reserve_all_lem :
    (boot : Boot) (s : Pmm) (k : ℕ)
    → boot.kernel_start < 2 ^ 32
    → boot.info.mmap_addr < 2 ^ 32
    → boot.info.mmap_length < 2 ^ 32
    → bitmap_addr boot < 2 ^ 32
    → s.bitmap_size < 2 ^ 32
    → frame_bit (reserve_all boot s).bitmap k
      ≡ (if is_reserved boot s.bitmap_size k then 1 else frame_bit s.bitmap k)
unfolding reserve_all
reserve_all_lem boot s k start map_start map_length bitmap size =
    let low = pmm_reserve_region 0 (page_size * 256) s in
    let kernel = pmm_reserve_region boot.kernel_start (kernel_size boot) low in
    let mmap = pmm_reserve_region boot.info.mmap_addr boot.info.mmap_length kernel in
    ground (
      arith,
      pmm_reserve_region_lem 0 (page_size * 256) s (omega arith) k,
      pmm_reserve_region_lem boot.kernel_start (kernel_size boot) low (omega arith) k,
      pmm_reserve_region_lem boot.info.mmap_addr boot.info.mmap_length kernel (omega arith) k,
      pmm_reserve_region_lem (bitmap_addr boot) s.bitmap_size mmap (omega arith) k,
    )

all_ones : (k : ℕ) → k < 32 → digit (four (u8 0xFF)) k ≡ 1
all_ones k lt = omega (arith, digit-complement 32 0 k (omega arith) lt, digit-zero k)

-- Every frame of the bitmap is taken once it is filled.
filled :
    (words : ℕ → ℕ) (n k : ℕ)
    → ((i : ℕ) → words i < 2 ^ 32)
    → k < n * 32
    → frame_bit (mset words 0 0xFF (n * 4)) k ≡ 1
unfolding frame_bit
filled words n k small lt =
    let size : n * 4 ≡ 4 * n = omega arith in
    let inside : (leb 0 (k / 32) && ltb (k / 32) (0 + n)) ≡ true = ground arith in
    rw size (
      ap (λ (w : ℕ). digit w (k % 32)) (mset_lem words 0 0xFF n small (k / 32) ∙ rw inside refl)
      ∙ all_ones (k % 32) (omega arith))

-- The frames that the memory of the machine has.
abbrev pub frames : Boot → ℕ
frames boot = multiboot_get_total_memory boot.info / page_size

abbrev pub bytes : Boot → ℕ
bytes boot = (frames boot + 31) / 32 * 4

pub total-lt : (boot : Boot) → multiboot_get_total_memory boot.info < 2 ^ 32
unfolding multiboot_get_total_memory
total-lt boot = omega arith

bitmap_addr-lt : (boot : Boot) → bitmap_addr boot < 2 ^ 32
bitmap_addr-lt boot =
    let end = u32 (boot.kernel_end + 4095) in
    omega (arith, bit_and_high 12 end 0xFFFFF, bit_and_low 20 (end / 2 ^ 12))

reserve_all_keeps : (boot : Boot) (s : Pmm) → (reserve_all boot s).max_frames ≡ s.max_frames
unfolding reserve_all pmm_reserve_region
reserve_all_keeps boot s = refl

-- The loop that frees regions keeps the other two fields.
free_loop_keeps :
    (left i : ℕ) (regions : ℕ → MemoryRegion) (s : Pmm)
    → ((free_loop left i regions s).max_frames ≡ s.max_frames)
      × ((free_loop left i regions s).bitmap_size ≡ s.bitmap_size)
unfolding free_loop free_region
free_loop_keeps zero i regions s = (refl, refl)
free_loop_keeps (suc left) i regions s = elim (Bool-cases ((regions i).type == 1)) [
  | inl is_usable ↦
      rw (free_loop, is_usable)
        (free_loop_keeps left (i + 1) regions (free_region (regions i).addr (regions i).len s))
  | inr other ↦ rw (free_loop, other) (free_loop_keeps left (i + 1) regions s)
]

-- The state with every frame taken, for a bitmap of `size` bytes.
abbrev all_taken : Boot → (ℕ → ℕ) → ℕ → Pmm
all_taken boot words size = record {
  bitmap = mset words 0 0xFF size;
  max_frames = frames boot;
  bitmap_size = size;
}

init_pmm-found :
    (fuel : ℕ) (boot : Boot) (words : ℕ → ℕ) (regions found : ℕ → MemoryRegion) (n : ℕ)
    → multiboot_get_usable_regions fuel boot.entry_at (some boot.info) regions 32 ≡ some (n, found)
    → leb n 32 ≡ true
    → init_pmm fuel boot words regions
      ≡ some (reserve_all boot (free_loop n 0 found (all_taken boot words (u32 (bytes boot)))))
unfolding init_pmm
init_pmm-found fuel boot words regions found n e within = rw (init_pmm, e, within) refl

-- `init_pmm` ends, on a memory map that ends below 2 ^ 32, with at most 32 usable entries, whose
-- regions, rounded up to a page, end below 2 ^ 64, and with fuel above the number of entries; and afterwards a frame of the machine is free exactly when a usable region of the map
-- reaches into it and it is in none of the four reserved ranges: the first MiB, the kernel, the
-- memory map and the bitmap itself.
pub init_pmm_lem :
    (fuel : ℕ) (boot : Boot) (words : ℕ → ℕ) (regions : ℕ → MemoryRegion) (es : List MmapEntry)
    → IsMap boot.entry_at boot.info.mmap_addr (boot.info.mmap_addr + boot.info.mmap_length) es
    → boot.info.mmap_addr + boot.info.mmap_length < 2 ^ 32
    → length es < fuel
    → length es < 2 ^ 32
    → length (usable es) ≤ 32
    → FitAll (usable es)
    → boot.kernel_start < 2 ^ 32
    → ((i : ℕ) → words i < 2 ^ 32)
    → (s : Pmm) × (init_pmm fuel boot words regions ≡ some s)
      × (s.max_frames ≡ frames boot)
      × ((k : ℕ)
          → k < frames boot
          → frame_bit s.bitmap k ≡ (
              if is_reserved boot (bytes boot) k
              then 1
              else if any_overlaps (usable es) k
              then 0
              else 1))
unfolding init_pmm
init_pmm_lem fuel boot words regions es map ends more few usable_few fit start small =
    let (found, found_e, listed, behind) =
      multiboot_get_usable_regions_lem fuel boot.entry_at boot.info es regions 32 map ends more
        few in
    let total = total-lt boot in
    let size : u32 (bytes boot) ≡ bytes boot = omega (arith, total) in
    let taken = all_taken boot words (bytes boot) in
    let freed = free_loop (length (usable es)) 0 found taken in
    let kept = free_loop_keeps (length (usable es)) 0 found taken in
    (
      reserve_all boot freed,
      init_pmm-found fuel boot words regions found (length (usable es)) found_e
            (ground (arith, usable_few))
          ∙ ap
              (λ (n : ℕ). some (
                reserve_all boot (free_loop (length (usable es)) 0 found (all_taken boot words n))))
              size,
      reserve_all_keeps boot freed ∙ kept.0,
      λ k lt. ground (
        arith,
        reserve_all_lem boot freed k start (omega arith) (omega arith) (bitmap_addr-lt boot)
            (omega (arith, kept.1, total)),
        kept.1,
        free_loop_lem (usable es) 0 found taken k listed (usable-AllUsable es) fit,
        filled words ((frames boot + 31) / 32) k small (omega arith),
      ),
    )
