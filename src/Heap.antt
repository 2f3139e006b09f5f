-- ===== src/Heap.antt =====
-- kernel/mem/heap.cpp: the kernel heap, a list of blocks with a header in front of each payload.
pub mod Blocks
pub mod Chain
pub mod Take
pub mod Grow
pub mod Malloc
pub mod Free
pub mod Undo
mod Examples
use os_from_scratch.Common.{
  ℕ, zero, suc, ◌+◌, ◌-◌, ◌*◌, ◌/◌, ◌%◌, ◌^◌, Bool, true, false, ◌&&◌, Option, none, some, bit_and,
  ltb, leb, ◌==◌, if◌then◌else◌,
}
use os_from_scratch.Common.Word.{u32, sub32, store}

-- heap_block_t. The pointers are addresses, 0 is NULL.
pub record HeapBlock : Type 0 where
  pub size : ℕ
  pub is_free : Bool
  pub next : ℕ
  pub prev : ℕ

-- sizeof(heap_block_t) on i686: 4 + 1 + 3 (padding) + 4 + 4.
abbrev pub header_size : ℕ
header_size = 16

abbrev pub high_memory_base : ℕ
high_memory_base = 0xC0000000

-- What the heap calls of the page allocator and of the page tables; `none`: the call panicked.
pub record Pages : Type 1 where
  pub State : Type 0
  pub pmm_alloc_page : State → ℕ × State
  pub map_page : ℕ → ℕ → State → Option State

-- `blocks a` is the header at the address `a`: headers that overlap only in part are not modelled,
-- and the layout that the operations keep has none.
pub record Heap (State : Type 0) : Type 0 where
  pub blocks : ℕ → HeapBlock
  pub first_block : ℕ
  pub heap_limit : ℕ
  pub pages : State

pub data Run (State A : Type 0) : Type 0 where
  ok : A → Heap State → Run State A
  panicked out_of_fuel : Run State A

-- (size + 3) & ~3 in uint32_t.
abbrev pub round_up : ℕ → ℕ
round_up size = bit_and (u32 (size + 3)) 0xFFFFFFFC

module _ (P : Pages) where
  open P use {State, pmm_alloc_page, map_page}

  -- A write to a header through a pointer.
  abbrev pub write : ℕ → (HeapBlock → HeapBlock) → Heap State → Heap State
  write a f h = record h { blocks = store h.blocks a (f (h.blocks a)) }

  unfoldable pub init_heap : (ℕ → HeapBlock) → State → Heap State
  unfolding store
  init_heap blocks s =
      let (page, s') = pmm_alloc_page s in
      let heap_start = u32 (page + high_memory_base) in
      record {
        blocks =
            store blocks heap_start
              (record { size = 4096 - header_size; is_free = true; next = 0; prev = 0 });
        first_block = heap_start;
        heap_limit = u32 (heap_start + 4096);
        pages = s';
      }

  -- A block that fits: split off what is left over, if that has room for a header and a word.
  unfoldable pub take_block : ℕ → ℕ → Heap State → Heap State
  unfolding store
  take_block current size h =
      let remaining = sub32 (h.blocks current).size size in
      if leb (header_size + 4) remaining
      then (let h1 = write current (λ b. record b { is_free = false; size = size }) h in
          let new_block = u32 (current + header_size + size) in
          let h2 =
            write new_block
              (λ b. record {
                size = remaining - header_size;
                is_free = true;
                next = (h1.blocks current).next;
                prev = current;
              })
              h1 in
          write current (λ b. record b { next = new_block }) h2)
      else write current (λ b. record b { is_free = false }) h

  -- The loop of `expand_heap`; `false` when a page could not be had.
  unfoldable pub add_pages : ℕ → Heap State → Run State Bool
  add_pages zero h = ok true h
  add_pages (suc left) h =
      let (new_page, s) = pmm_alloc_page h.pages in
      let go_on = λ (s' : State).
        add_pages left (record h { heap_limit = u32 (h.heap_limit + 4096); pages = s' }) in
      if new_page == 0
      then ok false (record h { pages = s })
      else elim (map_page h.heap_limit new_page s) [ none ↦ panicked | some s' ↦ go_on s' ]

  -- `expand_heap` once its pages are there.
  unfoldable pub place_block : ℕ → ℕ → ℕ → ℕ → ℕ → Heap State → Heap State
  unfolding store
  place_block new_block size needed_size needed_pages last_block h =
      let h1 =
        write last_block (λ b. record b { next = new_block })
          (write new_block
            (λ b. record { size = size; is_free = false; prev = last_block; next = 0 }) h) in
      let remaining = sub32 (u32 (needed_pages * 4096)) needed_size in
      let new_free_block = u32 (new_block + needed_size) in
      if ltb (header_size + 4) remaining
      then write new_block (λ b. record b { next = new_free_block })
          (write new_free_block
            (λ b. record {
              size = remaining - header_size;
              next = 0;
              is_free = true;
              prev = new_block;
            })
            h1)
      else h1

  -- The end of `expand_heap`, by whether the pages could be had.
  abbrev pub after_pages : ℕ → ℕ → ℕ → ℕ → ℕ → Run State Bool → Run State ℕ
  after_pages new_block size needed_size needed_pages last (ok true h) =
      ok new_block (place_block new_block size needed_size needed_pages last h)
  after_pages new_block size needed_size needed_pages last (ok false h) = ok 0 h
  after_pages new_block size needed_size needed_pages last panicked = panicked
  after_pages new_block size needed_size needed_pages last out_of_fuel = out_of_fuel

  -- The address of the new block's header, or 0.
  unfoldable pub expand_heap : ℕ → ℕ → Heap State → Run State ℕ
  unfolding add_pages place_block
  expand_heap size last_block h =
      let needed_size = u32 (size + header_size) in
      let needed_pages = u32 (needed_size + 4095) / 4096 in
      let last = if last_block == 0 then h.first_block else last_block in
      after_pages h.heap_limit size needed_size needed_pages last (add_pages needed_pages h)

  -- The payload behind a header, and NULL for NULL.
  abbrev pub payload : Run State ℕ → Run State ℕ
  payload (ok a h) = if a == 0 then ok 0 h else ok (u32 (a + header_size)) h
  payload panicked = panicked
  payload out_of_fuel = out_of_fuel

  -- The loop of kmalloc at `current_block`, and what follows it.
  unfoldable pub find_loop : ℕ → ℕ → ℕ → ℕ → Heap State → Run State ℕ
  unfolding take_block expand_heap
  find_loop zero current last size h = out_of_fuel
  find_loop (suc fuel) current last size h =
      let rest = find_loop fuel (h.blocks current).next current size h in
      if current == 0
      then payload (expand_heap size last h)
      else if (h.blocks current).is_free && leb size (h.blocks current).size
      then ok (u32 (current + header_size)) (take_block current size h)
      else rest

  unfoldable pub kmalloc : ℕ → ℕ → Heap State → Run State ℕ
  unfolding find_loop
  kmalloc fuel size h =
      let rounded = round_up size in
      if rounded == 0 then ok 0 h else find_loop fuel h.first_block h.first_block rounded h

  -- The three statements by which current_block takes the next block in.
  unfoldable pub absorb_size : ℕ → Heap State → Heap State
  unfolding store
  absorb_size current h =
      let following = h.blocks (h.blocks current).next in
      write current (λ b. record b { size = u32 (b.size + u32 (following.size + header_size)) }) h

  unfoldable pub absorb_next : ℕ → Heap State → Heap State
  unfolding store
  absorb_next current h =
      let following = h.blocks (h.blocks current).next in
      write current (λ b. record b { next = following.next }) h

  unfoldable pub absorb_prev : ℕ → Heap State → Heap State
  unfolding store
  absorb_prev current h =
      let after = (h.blocks current).next in
      if after == 0 then h else write after (λ b. record b { prev = current }) h

  unfoldable pub absorb : ℕ → Heap State → Heap State
  unfolding absorb_size absorb_next absorb_prev
  absorb current h = absorb_prev current (absorb_next current (absorb_size current h))

  -- The loop of coalesce_free_blocks at `current_block`.
  unfoldable pub coalesce_loop : ℕ → ℕ → Heap State → Run State (Unit {0})
  unfolding absorb
  coalesce_loop zero current h = out_of_fuel
  coalesce_loop (suc fuel) current h =
      let next = (h.blocks current).next in
      let merged = coalesce_loop fuel current (absorb current h) in
      let moved = coalesce_loop fuel next h in
      if next == 0
      then ok tt h
      else if (h.blocks current).is_free && (h.blocks next).is_free
      then merged
      else moved

  unfoldable pub kfree : ℕ → ℕ → Heap State → Run State (Unit {0})
  unfolding store coalesce_loop
  kfree fuel ptr h =
      let block = sub32 ptr header_size in
      let h1 = write block (λ b. record b { is_free = true }) h in
      coalesce_loop fuel h1.first_block h1
