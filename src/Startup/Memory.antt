-- ===== src/Startup/Memory.antt =====
-- The memory once `start_memory` is done: the heap lies on a page of its own that is mapped.
use os_from_scratch.Common.{ℕ, ◌+◌, ◌*◌, ◌%◌, ◌≤◌, ◌<◌, ◌≡◌, true, false, List, [], ◌∷◌}
use os_from_scratch.Multiboot.{MemoryRegion}
use os_from_scratch.Pmm.{Pmm}
use os_from_scratch.Pmm.Bitmap.{frame_bit}
use os_from_scratch.Pmm.Alloc.{scanned}
use os_from_scratch.Pmm.Init.{Boot}
use os_from_scratch.Pmm.Init.Frames.{bytes, is_reserved, any_overlaps}
use os_from_scratch.Vmm.{Vmm, get_physical_address}
use os_from_scratch.Vmm.Valid.{IsValid}
use os_from_scratch.Vmm.Regions.{pages}
use os_from_scratch.Vmm.Init.{high_memory}
use os_from_scratch.Heap.{Heap}
use os_from_scratch.Heap.Blocks.{}
use os_from_scratch.Heap.Malloc.{IsHeap}
use os_from_scratch.Startup.{vmm_pages}

-- Each region begins at a page.
abbrev pub AllAligned : List MemoryRegion → Type 0
AllAligned [] = Unit {0}
AllAligned (r ∷ rs) = (r.addr % 4096 ≡ 0) × AllAligned rs

-- The memory is up: the first page of the heap is the frame `n`, which is in none of the reserved
-- ranges, a usable region reaches into it, and it is mapped at the start of the heap, which stands
-- for one free block.
pub record IsUp (boot : Boot) (rs : List MemoryRegion) (h : Heap Vmm) (n : ℕ) : Type 0 where
  pub start : h.first_block ≡ high_memory + n * 4096
  pub heap :
      IsHeap vmm_pages h (record { addr = high_memory + n * 4096; size = 4080; free = true } ∷ [])
  pub own : is_reserved boot (bytes boot) n ≡ false
  pub is_usable : any_overlaps rs n ≡ true
  pub tables : IsValid h.pages
  pub mapped_page :
      (off : ℕ)
      → off < 4096
      → get_physical_address (high_memory + n * 4096 + off) h.pages ≡ n * 4096 + off

-- The addresses from `from` to `to` are mapped to themselves, so a pointer from before paging into
-- that range is good afterwards too.
pub IsIdentity : Vmm → ℕ → ℕ → Type 0
IsIdentity s from to = (a : ℕ) → from ≤ a → a < to → get_physical_address a s ≡ a

-- Every frame that `pmm_alloc_page` looks at is taken.
abbrev pub IsFull : Pmm → Type 0
IsFull s = (k : ℕ) → k < scanned s → frame_bit s.bitmap k ≡ 1
