-- ===== src/Vmm/Examples.antt =====
-- The theorems at empty page tables.
use os_from_scratch.Common.{ℕ, ◌/◌, ◌%◌, ◌^◌, ◌≡◌, ◌<◌, ◌⊎◌, [], arith, ◌==◌, if◌then◌else◌}
use os_from_scratch.Pmm.{pmm_alloc_page}
use os_from_scratch.Vmm.{
  Vmm, done, panicked, map_page, unmap_page, map_region, get_physical_address,
}
use os_from_scratch.Vmm.Valid.{IsValid}
use os_from_scratch.Vmm.Map.{IsMapped, map_page_lem, unmap_page_lem}
use os_from_scratch.Multiboot.Examples.{entries, entry_at, info}
use os_from_scratch.Pmm.Init.{Boot}
use os_from_scratch.Vmm.Regions.{IsRegion, map_region_lem}

-- 128 frames, of which the first is taken.
abbrev empty : Vmm
empty = record {
  pmm = record { bitmap = λ i. if i == 0 then 1 else 0; max_frames = 128; bitmap_size = 16 };
  directory = λ d. 0;
  memory = λ i. 0;
  flushed = [];
}

empty-IsValid : IsValid empty
empty-IsValid = record {
  entries = λ d. omega arith;
  words = λ i. omega arith;
  frames = omega arith;
  taken = λ d h p. absurd (omega arith);
  distinct = λ d e hd he p q same. absurd (omega arith);
}

map_page_lem_example :
    ((t : Vmm) × (map_page 0xB8000 0x1000 empty ≡ done t) × IsMapped 0xB8000 0x1000 empty t)
    ⊎ ((map_page 0xB8000 0x1000 empty ≡ panicked)
        × (0 % 2 ≡ 0)
        × ((pmm_alloc_page empty.pmm).0 ≡ 0))
map_page_lem_example = map_page_lem 0xB8000 0x1000 empty (omega arith) (omega arith) empty-IsValid

unmap_page_lem_example :
    IsValid (unmap_page 0x1000 empty)
    × ((a : ℕ)
        → a < 2 ^ 32
        → get_physical_address a (unmap_page 0x1000 empty)
          ≡ (if a / 4096 == 1 then 0 else get_physical_address a empty))
unmap_page_lem_example = unmap_page_lem 0x1000 empty (omega arith) empty-IsValid

map_region_lem_example :
    ((t : Vmm) × (map_region 3 0x4000 0x8000 8192 empty ≡ done t)
      × IsRegion 0x4000 0x8000 2 empty t)
    ⊎ (map_region 3 0x4000 0x8000 8192 empty ≡ panicked)
map_region_lem_example =
    map_region_lem 3 0x4000 0x8000 8192 empty empty-IsValid (omega arith) (omega arith)
      (omega arith)

-- The kernel at 1 MiB, on the machine of the memory map.
abbrev boot : Boot
boot = record { kernel_start = 0x100000; kernel_end = 0x140000; info = info; entry_at = entry_at }
