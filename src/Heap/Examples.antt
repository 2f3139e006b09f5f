-- ===== src/Heap/Examples.antt =====
-- A heap of one page on a machine that hands out page after page, and the theorems there.
use os_from_scratch.Common.{
  ℕ, ◌+◌, ◌*◌, ◌^◌, ◌≡◌, ◌<◌, refl, arith, true, false, List, [], ◌∷◌, some, inl,
}
use os_from_scratch.Heap.{Heap, Pages, ok, init_heap, kmalloc, kfree}
use os_from_scratch.Heap.Blocks.{Block, coalesce, release, live, IsCoalesced}
use os_from_scratch.Heap.Malloc.{IsHeap, Allocates, kmalloc-Allocates}
use os_from_scratch.Heap.Free.{kfree-IsHeap}
use os_from_scratch.Heap.Undo.{kmalloc-IsHeap, kfree-kmalloc, kfree-IsCoalesced}

-- The state is the number of the next page.
abbrev pages : Pages
pages = record { State = ℕ; pmm_alloc_page = λ n. (n * 4096, n + 1); map_page = λ va pa n. some n }

abbrev heap : Heap ℕ
heap = init_heap pages (λ a. record { size = 0; is_free = false; next = 0; prev = 0 }) 256

abbrev blocks : List Block
blocks = record { addr = 0xC0100000; size = 4080; free = true } ∷ []

heap-IsHeap : IsHeap pages heap blocks
unfolding init_heap
heap-IsHeap = record {
  whole = record {
    chain = (refl, omega arith, refl, refl, refl);
    layout = omega arith;
    bounded = omega arith;
  };
  some_block = λ e. cc;
  page = refl;
}

limit : heap.heap_limit ≡ 0xC0101000
unfolding init_heap
limit = refl

room : heap.heap_limit + 100 + 8196 < 2 ^ 32
room = rw limit (omega arith)

-- The cut block lies behind the header.
first_pointer : (p : ℕ) × (g : Heap ℕ) × (kmalloc pages 3 100 heap ≡ ok p g) × (p ≡ 0xC0100010)
unfolding init_heap kmalloc
first_pointer = (0xC0100010, _, refl, refl)

kmalloc-Allocates_example :
    Allocates pages heap heap.first_block 100 blocks (kmalloc pages 3 100 heap)
kmalloc-Allocates_example =
    kmalloc-Allocates pages 3 heap 100 blocks heap-IsHeap (omega arith) (omega arith) room

kmalloc-IsHeap_example : (ys : List Block) × IsHeap pages first_pointer.1 ys
kmalloc-IsHeap_example =
    kmalloc-IsHeap pages 3 heap 100 blocks heap-IsHeap (omega arith) (omega arith) room
      first_pointer.0 first_pointer.1 first_pointer.2

kfree-IsHeap_example :
    (g : Heap ℕ) × (kfree pages 3 0xC0100010 heap ≡ ok tt g)
    × IsHeap pages g (coalesce (release 0xC0100000 blocks))
    × (g.heap_limit ≡ heap.heap_limit)
    × (g.first_block ≡ heap.first_block)
kfree-IsHeap_example =
    kfree-IsHeap pages 3 heap 0xC0100000 blocks heap-IsHeap (inl refl) (omega arith)

kfree-kmalloc_example :
    (p : ℕ) × (g : Heap ℕ) × (g' : Heap ℕ) × (kmalloc pages 3 100 heap ≡ ok p g)
    × (kfree pages 3 p g ≡ ok tt g')
    × IsHeap pages g' blocks
kfree-kmalloc_example =
    kfree-kmalloc pages 3 heap 100 blocks heap-IsHeap (refl, tt) (omega arith) (omega arith) room
      (λ miss. cc)

kfree-IsCoalesced_example :
    (g : Heap ℕ) × (ys : List Block) × (kfree pages 3 0xC0100010 heap ≡ ok tt g)
    × IsHeap pages g ys
    × IsCoalesced ys
    × (live ys ≡ live (release 0xC0100000 blocks))
kfree-IsCoalesced_example =
    kfree-IsCoalesced pages 3 heap 0xC0100000 blocks heap-IsHeap (inl refl) (omega arith)
