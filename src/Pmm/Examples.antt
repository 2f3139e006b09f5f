-- ===== src/Pmm/Examples.antt =====
-- A small machine of 64 frames, and the theorems at its states.
use os_from_scratch.Common.{
  ℕ, ◌*◌, ◌≡◌, ◌<◌, ◌⊎◌, some, refl, arith, ◌==◌, ◌&&◌, ltb, not, if◌then◌else◌,
}
use os_from_scratch.Pmm.{Pmm, pmm_alloc_page, pmm_free_page}
use os_from_scratch.Pmm.Bitmap.{frame_bit}
use os_from_scratch.Pmm.Alloc.{
  IsLowest, IsTaken, scanned, pmm_alloc_page_lem, pmm_free_page_lem, pmm_free_page-pmm_alloc_page,
}
use os_from_scratch.Multiboot.Regions.{usable}
use os_from_scratch.Multiboot.Examples.{entries, entry_at, info, no_regions, entries-IsMap}
use os_from_scratch.Pmm.Init.{Boot, init_pmm}
use os_from_scratch.Pmm.Init.Frames.{frames, bytes, is_reserved, any_overlaps, init_pmm_lem}
use os_from_scratch.Pmm.Region.{}

-- Frames 0 to 33 are taken.
abbrev machine : Pmm
machine = record {
  bitmap = λ i. if i == 0 then 0xFFFFFFFF else if i == 1 then 3 else 0;
  max_frames = 64;
  bitmap_size = 8;
}

first_page : (pmm_alloc_page machine).0 ≡ 34 * 4096
unfolding pmm_alloc_page
first_page = refl

next_page : (pmm_alloc_page (pmm_alloc_page machine).1).0 ≡ 35 * 4096
unfolding pmm_alloc_page
next_page = refl

pmm_alloc_page_lem_example :
    ((n : ℕ) × IsLowest machine n
      × ((pmm_alloc_page machine).0 ≡ n * 4096)
      × IsTaken machine n (pmm_alloc_page machine).1)
    ⊎ (((k : ℕ) → k < scanned machine → frame_bit machine.bitmap k ≡ 1)
        × (pmm_alloc_page machine ≡ (0, machine)))
pmm_alloc_page_lem_example = pmm_alloc_page_lem machine (omega arith)

pmm_free_page_lem_example : frame_bit (pmm_free_page (33 * 4096) machine).bitmap 33 ≡ (
    if not (33 * 4096 == 0) && (ltb (33 * 4096) (64 * 4096) && (0 == 0 && 33 == 33))
    then 0
    else frame_bit machine.bitmap 33)
pmm_free_page_lem_example = pmm_free_page_lem (33 * 4096) machine (omega arith) 33

pmm_free_page-pmm_alloc_page_example :
    frame_bit (pmm_free_page (pmm_alloc_page machine).0 (pmm_alloc_page machine).1).bitmap 34
    ≡ frame_bit machine.bitmap 34
pmm_free_page-pmm_alloc_page_example =
    pmm_free_page-pmm_alloc_page machine (omega arith) (rw first_page (omega arith)) 34

-- The kernel at 1 MiB, on the machine of the memory map.
abbrev boot : Boot
boot = record { kernel_start = 0x100000; kernel_end = 0x140000; info = info; entry_at = entry_at }

abbrev zeros : ℕ → ℕ
zeros i = 0

init_pmm_lem_example :
    (s : Pmm) × (init_pmm 4 boot zeros no_regions ≡ some s)
    × (s.max_frames ≡ frames boot)
    × ((k : ℕ)
        → k < frames boot
        → frame_bit s.bitmap k ≡ (
            if is_reserved boot (bytes boot) k
            then 1
            else if any_overlaps (usable entries) k
            then 0
            else 1))
init_pmm_lem_example =
    init_pmm_lem 4 boot zeros no_regions entries entries-IsMap (omega arith) (omega arith)
      (omega arith) (omega arith) (omega arith) (omega arith) (λ i. omega arith)
