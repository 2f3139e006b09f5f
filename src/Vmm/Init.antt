-- ===== src/Vmm/Init.antt =====
-- `init_vmm`: the page directory that the kernel starts with.
pub mod Ends
pub mod DirectMap
use os_from_scratch.Common.{
  ℕ, zero, suc, ◌+◌, ◌*◌, ◌%◌, ◌^◌, Option, none, some, leb, if◌then◌else◌,
}
use os_from_scratch.Common.Word.{u32}
use os_from_scratch.Memory.{mset}
use os_from_scratch.Multiboot.{MemoryRegion, multiboot_get_usable_regions}
use os_from_scratch.Pmm.Init.{Boot, kernel_size}
use os_from_scratch.Vmm.{Vmm, Run, done, panicked, out_of_fuel, ◌>>=◌, map_region}

-- HIGH_MEMORY_BASE.
abbrev pub high_memory : ℕ
high_memory = 0xC0000000

-- The loop that maps the usable regions to high memory, from index `i` on. The variable `offset` of
-- the source is written and never read.
unfoldable pub region_loop : ℕ → ℕ → ℕ → (ℕ → MemoryRegion) → Vmm → Run
unfolding map_region
region_loop fuel zero i regions s = done s
region_loop fuel (suc left) i regions s =
    map_region fuel (u32 (high_memory + (regions i).addr)) (u32 (regions i).addr)
      (u32 (regions i).len) s
    >>= region_loop fuel left (i + 1) regions

-- The directory with every entry 0.
unfoldable pub clear_directory : Vmm → Vmm
unfolding mset
clear_directory s = record s { directory = mset s.directory 0 0 4096 }

-- The usable regions mapped, as the walk over the memory map found them: `none` where its fuel ran
-- out. With more than 32 it has written past the local array, and the model ends here.
unfoldable pub map_usable : ℕ → Option (ℕ × (ℕ → MemoryRegion)) → Vmm → Run
unfolding region_loop
map_usable fuel none s = out_of_fuel
map_usable fuel (some (region_count, found)) s =
    let rest = region_loop fuel region_count 0 found s in
    if leb region_count 32 then rest else out_of_fuel

-- Up to the two instructions that load the directory and turn paging on. `regions` is the local
-- array of 32 regions before the call; `map_fuel` is for the walk over the memory map.
unfoldable pub init_vmm : ℕ → ℕ → Boot → (ℕ → MemoryRegion) → Vmm → Run
unfolding clear_directory map_region multiboot_get_usable_regions map_usable
init_vmm map_fuel fuel boot regions s = do
  identity ← map_region fuel 0 0 (1024 * 1024 * 4) (clear_directory s)
  kernel ← map_region fuel high_memory boot.kernel_start (kernel_size boot) identity
  high ←
      map_usable fuel
        (multiboot_get_usable_regions map_fuel boot.entry_at (some boot.info) regions 32) kernel
  map_region fuel 0xB8000 0xB8000 4096 high
