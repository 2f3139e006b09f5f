-- ===== src/Pmm/Init.antt =====
-- `init_pmm`: the bitmap from the memory map.
pub mod Frames
use os_from_scratch.Common.{
  ℕ, zero, suc, ◌+◌, ◌-◌, ◌*◌, ◌/◌, ◌%◌, ◌^◌, Option, none, some, bit_and, leb, ◌==◌, if◌then◌else◌,
}
use os_from_scratch.Common.Word.{u32, sub32}
use os_from_scratch.Memory.{mset}
use os_from_scratch.Multiboot.{
  MultibootInfo, MmapEntry, MemoryRegion, multiboot_get_total_memory, multiboot_get_usable_regions,
}
use os_from_scratch.Pmm.{Pmm, page_size, free_region, pmm_reserve_region}

-- What the linker script and the boot loader fix: the symbols kernel_start and kernel_end, the
-- table of multiboot_info_t, and what a read of a packed entry of the memory map finds.
pub record Boot : Type 0 where
  pub kernel_start : ℕ
  pub kernel_end : ℕ
  pub info : MultibootInfo
  pub entry_at : ℕ → MmapEntry

-- ALIGN_UP(&kernel_end, 4096), the address of the bitmap.
abbrev pub bitmap_addr : Boot → ℕ
bitmap_addr boot = bit_and (u32 (boot.kernel_end + 4095)) 0xFFFFF000

-- The size of the kernel, `&kernel_end - &kernel_start`.
abbrev pub kernel_size : Boot → ℕ
kernel_size boot = sub32 boot.kernel_end boot.kernel_start

-- The loop that frees the usable regions, from index `i` on.
unfoldable pub free_loop : ℕ → ℕ → (ℕ → MemoryRegion) → Pmm → Pmm
unfolding free_region
free_loop zero i regions s = s
free_loop (suc left) i regions s =
    let freed =
      if (regions i).type == 1 then free_region (regions i).addr (regions i).len s else s in
    free_loop left (i + 1) regions freed

-- The four reservations at the end.
unfoldable pub reserve_all : Boot → Pmm → Pmm
unfolding pmm_reserve_region
reserve_all boot s =
    let low = pmm_reserve_region 0 (page_size * 256) s in
    let kernel = pmm_reserve_region boot.kernel_start (kernel_size boot) low in
    let mmap = pmm_reserve_region boot.info.mmap_addr boot.info.mmap_length kernel in
    pmm_reserve_region (bitmap_addr boot) s.bitmap_size mmap

-- `words` is the memory from the address of the bitmap on, and `regions` the local array of 32
-- regions before the call. `none`: the fuel of the walk over the map ran out, or the map has more
-- than 32 usable entries, where the walk writes past the array and the model has no answer.
unfoldable pub init_pmm : ℕ → Boot → (ℕ → ℕ) → (ℕ → MemoryRegion) → Option Pmm
unfolding mset multiboot_get_usable_regions free_loop reserve_all
init_pmm fuel boot words regions =
    let max_frames = multiboot_get_total_memory boot.info / page_size in
    let bitmap_size = u32 ((max_frames + 31) / 32 * 4) in
    let taken : Pmm = record {
      bitmap = mset words 0 0xFF bitmap_size;
      max_frames = max_frames;
      bitmap_size = bitmap_size;
    } in
    elim (multiboot_get_usable_regions fuel boot.entry_at (some boot.info) regions 32) [
      | none ↦ none
      | some (region_count, found) ↦
          (if leb region_count 32
            then some (reserve_all boot (free_loop region_count 0 found taken))
            else none)
    ]
