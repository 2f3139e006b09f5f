-- ===== src/Startup/Examples.antt =====
-- The memory on the machine of the memory map, with the kernel at 1 MiB.
use os_from_scratch.Common.{ℕ, [], false}
use os_from_scratch.Multiboot.Examples.{entry_at, info}
use os_from_scratch.Pmm.{Pmm}
use os_from_scratch.Pmm.Init.{Boot}
use os_from_scratch.Vmm.{Vmm}
use os_from_scratch.Heap.{Heap, HeapBlock}

abbrev boot : Boot
boot = record { kernel_start = 0x100000; kernel_end = 0x140000; info = info; entry_at = entry_at }

abbrev zeros : ℕ → ℕ
zeros i = 0

abbrev no_blocks : ℕ → HeapBlock
no_blocks a = record { size = 0; is_free = false; next = 0; prev = 0 }

abbrev blank : Vmm
blank = record {
  pmm = record { bitmap = zeros; max_frames = 0; bitmap_size = 0 };
  directory = zeros;
  memory = zeros;
  flushed = [];
}
