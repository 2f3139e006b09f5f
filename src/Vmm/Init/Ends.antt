-- ===== src/Vmm/Init/Ends.antt =====
-- How `init_vmm` ends: what its calls of map_page lead to.
use os_from_scratch.Common.{ℕ, zero, suc, ◌+◌, ◌*◌, Option, none, some, leb, Bool-cases, inl, inr}
use os_from_scratch.Common.Word.{u32}
use os_from_scratch.Multiboot.{MemoryRegion, multiboot_get_usable_regions}
use os_from_scratch.Pmm.Init.{Boot, kernel_size}
use os_from_scratch.Vmm.{Vmm}
use os_from_scratch.Vmm.Exhausted.{unmoved, Ends, then_Ends, map_region-Ends}
use os_from_scratch.Vmm.Init.{high_memory, region_loop, clear_directory, map_usable, init_vmm}

region_loop-Ends :
    (fuel left i : ℕ) (regions : ℕ → MemoryRegion) (s : Vmm)
    → Ends s (region_loop fuel left i regions s)
unfolding region_loop
region_loop-Ends fuel zero i regions s = unmoved s
region_loop-Ends fuel (suc left) i regions s =
    then_Ends s _ _
      (map_region-Ends fuel (u32 (high_memory + (regions i).addr)) (u32 (regions i).addr)
        (u32 (regions i).len) s)
      (λ t. region_loop-Ends fuel left (i + 1) regions t)

map_usable-Ends :
    (fuel : ℕ) (walked : Option (ℕ × (ℕ → MemoryRegion))) (s : Vmm)
    → Ends s (map_usable fuel walked s)
unfolding map_usable
map_usable-Ends fuel none s = tt
map_usable-Ends fuel (some (n, found)) s = elim (Bool-cases (leb n 32)) [
  | inl few ↦ rw few (region_loop-Ends fuel n 0 found s)
  | inr many ↦ rw many tt
]

pub init_vmm-Ends :
    (map_fuel fuel : ℕ) (boot : Boot) (regions : ℕ → MemoryRegion) (s : Vmm)
    → Ends (clear_directory s) (init_vmm map_fuel fuel boot regions s)
unfolding init_vmm
init_vmm-Ends map_fuel fuel boot regions s =
    then_Ends (clear_directory s) _ _
      (map_region-Ends fuel 0 0 (1024 * 1024 * 4) (clear_directory s))
      (λ t.
        then_Ends t _ _ (map_region-Ends fuel high_memory boot.kernel_start (kernel_size boot) t)
          (λ u.
            then_Ends u _ _
              (map_usable-Ends fuel
                (multiboot_get_usable_regions map_fuel boot.entry_at (some boot.info) regions 32) u)
              (λ v. map_region-Ends fuel 0xB8000 0xB8000 4096 v)))
