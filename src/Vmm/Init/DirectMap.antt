-- ===== src/Vmm/Init/DirectMap.antt =====
-- What the page directory translates once `init_vmm` is done.
use os_from_scratch.Common.{
  ℕ, ◌+◌, ◌-◌, ◌*◌, ◌/◌, ◌%◌, ◌^◌, ◌≤◌, ◌<◌, ◌≡◌, ◌⊎◌, arith, Bool, true, false, ◌||◌, List, [],
  ◌∷◌, ltb, if◌then◌else◌,
}
use os_from_scratch.Multiboot.{MemoryRegion}
use os_from_scratch.Pmm.Init.{Boot, kernel_size}
use os_from_scratch.Vmm.{Vmm, Run, done, panicked, get_physical_address}
use os_from_scratch.Vmm.Valid.{IsValid, Grows}
use os_from_scratch.Vmm.Regions.{in_pages, pages}
use os_from_scratch.Vmm.Exhausted.{NoPage, Ends}
use os_from_scratch.Vmm.Init.{high_memory, clear_directory}

-- The address is in a page of some region, mapped to high memory.
abbrev pub in_regions : List MemoryRegion → ℕ → Bool
in_regions [] a = false
in_regions (r ∷ rs) a = in_pages (high_memory + r.addr) (pages r.len) (a / 4096) || in_regions rs a

-- Each region ends a page below 1 GiB, the size of high memory.
abbrev pub FitHigh : List MemoryRegion → Type 0
FitHigh [] = Unit {0}
FitHigh (r ∷ rs) = (r.addr + r.len + 4096 < 2 ^ 30) × FitHigh rs

-- `t` maps the regions on top of what `s` maps.
record IsHigh (rs : List MemoryRegion) (s t : Vmm) : Type 0 where
  valid : IsValid t
  translates :
      (a : ℕ)
      → a < 2 ^ 32
      → get_physical_address a t
        ≡ (if in_regions rs a then a - high_memory else get_physical_address a s)
  grows : Grows s.pmm t.pmm

-- The state that `init_vmm` starts from: frames below 4 GiB, and words in memory.
pub record IsStart (s : Vmm) : Type 0 where
  pub frames : s.pmm.max_frames < 2 ^ 20
  pub words : (i : ℕ) → s.memory i < 2 ^ 32
  pub entries : (d : ℕ) → s.directory d < 2 ^ 32

-- Where an address is mapped once `init_vmm` is done.
abbrev pub mapped_to : Boot → List MemoryRegion → ℕ → ℕ
mapped_to boot rs a =
    if in_regions rs a
    then a - high_memory
    else if in_pages high_memory (pages (kernel_size boot)) (a / 4096)
    then (boot.kernel_start / 4096 + (a / 4096 - high_memory / 4096)) * 4096 + a % 4096
    else if ltb a 0x400000
    then a
    else 0

-- The kernel panicked, or the tables are valid and map as `mapped_to` says, and no frame was given
-- back.
abbrev Maybe : Boot → List MemoryRegion → Vmm → Run → Type 0
Maybe boot rs s r =
    ((t : Vmm) × (r ≡ done t)
      × IsValid t
      × Grows s.pmm t.pmm
      × ((a : ℕ) → a < 2 ^ 32 → get_physical_address a t ≡ mapped_to boot rs a))
    ⊎ (r ≡ panicked)

-- The same, where the kernel panicked because a table was wanted and no page was left.
abbrev pub Started : Boot → List MemoryRegion → Vmm → Run → Type 0
Started boot rs s r =
    ((t : Vmm) × (r ≡ done t)
      × IsValid t
      × Grows s.pmm t.pmm
      × ((a : ℕ) → a < 2 ^ 32 → get_physical_address a t ≡ mapped_to boot rs a))
    ⊎ ((r ≡ panicked) × NoPage (clear_directory s))

pub in_regions-high : (rs : List MemoryRegion) (a : ℕ) → in_regions rs a ≡ true → high_memory ≤ a
in_regions-high [] a e = cc
in_regions-high (r ∷ rs) a e = ground (arith, in_regions-high rs a)
