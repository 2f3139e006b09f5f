-- ===== src/Startup.antt =====
-- kernel/kernel.cpp: the three calls of kernel_main that bring the memory up, init_pmm, init_vmm
-- and init_heap, and the page allocator and the page tables as the heap's pages.
pub mod Memory
mod Examples
use os_from_scratch.Common.{ℕ, Option, none, some}
use os_from_scratch.Multiboot.{MemoryRegion}
use os_from_scratch.Pmm.{pmm_alloc_page}
use os_from_scratch.Pmm.Init.{Boot, init_pmm}
use os_from_scratch.Vmm
use os_from_scratch.Vmm.{Vmm, map_page}
use os_from_scratch.Vmm.Init.{init_vmm}
use os_from_scratch.Heap.{Pages, HeapBlock, Run, ok, panicked, out_of_fuel, init_heap}

-- pmm_alloc_page on the allocator that the page tables use too.
unfoldable pub alloc_page : Vmm → ℕ × Vmm
alloc_page s = let (page, pmm) = pmm_alloc_page s.pmm in (page, record s { pmm = pmm })

-- A call of map_page; `none`: it panicked.
abbrev pub mapped : Vmm.Run → Option Vmm
mapped (Vmm.done s) = some s
mapped Vmm.panicked = none
mapped Vmm.out_of_fuel = none

abbrev pub vmm_pages : Pages
vmm_pages = record {
  State = Vmm;
  pmm_alloc_page = alloc_page;
  map_page = λ va pa s. mapped (map_page va pa s);
}

-- init_heap after init_vmm.
abbrev pub with_heap : (ℕ → HeapBlock) → Vmm.Run → Run Vmm (Unit {0})
with_heap blocks (Vmm.done s) = ok tt (init_heap vmm_pages blocks s)
with_heap blocks Vmm.panicked = panicked
with_heap blocks Vmm.out_of_fuel = out_of_fuel

-- The code behind init_vmm runs with paging on, and follows the same pointers as before: the bitmap
-- is found at its old address as long as that is mapped to itself, below 4 MiB. The heap is reached
-- in high memory. `words` is the memory where the bitmap goes, `regions` the local arrays, `blocks` the headers
-- before the call, `s` the page directory and the memory of the tables.
unfoldable pub start_memory :
    ℕ → ℕ → Boot → (ℕ → ℕ) → (ℕ → MemoryRegion) → (ℕ → HeapBlock) → Vmm → Run Vmm (Unit {0})
unfolding init_pmm init_vmm
start_memory map_fuel fuel boot words regions blocks s =
    elim (init_pmm map_fuel boot words regions) [
      | none ↦ out_of_fuel
      | some pmm ↦ with_heap blocks (init_vmm map_fuel fuel boot regions (record s { pmm = pmm }))
    ]
