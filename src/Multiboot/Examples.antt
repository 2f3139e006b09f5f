-- ===== src/Multiboot/Examples.antt =====
-- A memory map of three entries at 0x9000, as a loader gives it on a machine of 128 MiB.
use os_from_scratch.Common.{
  ℕ, ◌+◌, ◌≤◌, ◌≡◌, refl, arith, List, [], ◌∷◌, length, some, ◌==◌, if◌then◌else◌,
}
use os_from_scratch.Multiboot.{MultibootInfo, MmapEntry, MemoryRegion, multiboot_get_usable_regions}
use os_from_scratch.Multiboot.Regions.{IsMap, Lists, usable, multiboot_get_usable_regions_lem}

abbrev low : MmapEntry
low = record { size = 20; addr = 0; len = 0x9FC00; type = 1 }

abbrev rom : MmapEntry
rom = record { size = 20; addr = 0xF0000; len = 0x10000; type = 2 }

abbrev high : MmapEntry
high = record { size = 20; addr = 0x100000; len = 0x7F00000; type = 1 }

abbrev pub entries : List MmapEntry
entries = low ∷ rom ∷ high ∷ []

abbrev pub entry_at : ℕ → MmapEntry
entry_at a = if a == 0x9000 then low else if a == 0x9018 then rom else high

abbrev pub info : MultibootInfo
info = record {
  flags = 5;
  mem_lower = 1024;
  mem_upper = 130048;
  mmap_length = 72;
  mmap_addr = 0x9000;
  framebuffer_addr = 0xFD000000;
  framebuffer_pitch = 2560;
  framebuffer_width = 640;
  framebuffer_height = 480;
  framebuffer_bpp = 32;
}

abbrev pub no_regions : ℕ → MemoryRegion
no_regions i = record { addr = 0; len = 0; type = 0 }

pub entries-IsMap : IsMap entry_at 0x9000 (0x9000 + 72) entries
entries-IsMap = (
  omega arith,
  refl,
  omega arith,
  (omega arith, refl, omega arith, (omega arith, refl, omega arith, omega arith)),
)

multiboot_get_usable_regions_lem_example :
    (result : ℕ → MemoryRegion) × (multiboot_get_usable_regions 4 entry_at (some info) no_regions 32
      ≡ some (length (usable entries), result))
    × Lists result 0 (usable entries)
    × ((i : ℕ) → length (usable entries) ≤ i → result i ≡ no_regions i)
multiboot_get_usable_regions_lem_example =
    multiboot_get_usable_regions_lem 4 entry_at info entries no_regions 32 entries-IsMap
      (omega arith) (omega arith) (omega arith)
