-- ===== src/Heap/Malloc.antt =====
-- `kmalloc` implements the first fit on the list of blocks.
use os_from_scratch.Common.{
  ℕ, zero, suc, ◌+◌, ◌*◌, ◌/◌, ◌%◌, ◌^◌, ◌≤◌, ◌<◌, ◌≡◌, ◌≢◌, refl, ◌∙◌, sym, ap, arith, true, false,
  ◌&&◌, List, [], ◌∷◌, ◌++◌, leb, ◌==◌, Bool-cases, inl, inr, length,
}
use os_from_scratch.Common.Word.{u32}
use os_from_scratch.Common.Bits.{bit_and_high, bit_and_low}
use os_from_scratch.Heap.{
  HeapBlock, Heap, Pages, Run, ok, panicked, header_size, place_block, expand_heap, find_loop,
  kmalloc, take_block, round_up, payload,
}
use os_from_scratch.Heap.Blocks.{Block, end_of, Layout-le, Finds, here, later, NoneFits, split}
use os_from_scratch.Heap.Chain.{Chain}
use os_from_scratch.Heap.Take.{IsChain, IsLocal, take_block-Chain, take_block-IsLocal}
use os_from_scratch.Heap.Grow.{
  grown, pages_for, IsExtended, add_pages_lem, placed-Chain, placed-below, place_block-rest,
}

module _ (P : Pages) where
  open P use {State}

  -- What an allocation of `size` bytes, which walks the blocks `xs` from the pointer `p` on, does
  -- to the heap `h`.
  pub data Allocates (h : Heap State) (p size : ℕ) (xs : List Block) (r : Run State ℕ)
      : Type 0 where
    -- The first free block that is large enough.
    fitted :
        (g : Heap State) (a : ℕ) (ys : List Block)
        → r ≡ ok (a + header_size) g
        → Finds size xs a ys
        → Chain g.blocks p ys
        → IsLocal P p h g
        → Allocates h p size xs r
    -- None is, and a block on new pages follows the last one.
    extended :
        (g : Heap State)
        → r ≡ ok (h.heap_limit + header_size) g
        → NoneFits size xs
        → Chain g.blocks p (xs ++ grown h.heap_limit size (pages_for size))
        → ((a : ℕ) → a < p → g.blocks a ≡ h.blocks a)
        → g.first_block ≡ h.first_block
        → g.heap_limit ≡ h.heap_limit + pages_for size * 4096
        → Allocates h p size xs r
    -- None is, and the pages for one could not be had.
    refused :
        (g : Heap State)
        → r ≡ ok 0 g
        → NoneFits size xs
        → IsExtended P (pages_for size) h g
        → Allocates h p size xs r
    stopped : r ≡ panicked → NoneFits size xs → Allocates h p size xs r

  cons-Chain :
      (h g : Heap State) (p q : ℕ) (x : Block) (xs ys : List Block)
      → Chain h.blocks p (x ∷ xs)
      → q ≡ (h.blocks p).next
      → g.blocks p ≡ h.blocks p
      → Chain g.blocks q ys
      → Chain g.blocks p (x ∷ ys)
  cons-Chain h g p q x xs ys c e same rest =
      let kept : g.blocks x.addr ≡ h.blocks x.addr = rw (← c.0) same in
      let next : (h.blocks x.addr).next ≡ q = rw (← c.0) (sym e) in
      rw (kept, next) (c.0, c.1, c.2, c.3, rest)

  -- What the rest of the list gives, behind a block that does not fit.
  Allocates-cons :
      (h : Heap State) (lo p q size : ℕ) (x : Block) (xs : List Block) (r : Run State ℕ)
      → IsChain P h lo p (x ∷ xs)
      → q ≡ (h.blocks p).next
      → end_of x ≤ q
      → (x.free && leb size x.size) ≡ false
      → Allocates h q size xs r
      → Allocates h p size (x ∷ xs) r
  Allocates-cons h lo p q size x xs r is e behind miss (fitted g a ys res f c loc) =
      let lt : p < q = omega (arith, is.chain.0) in
      fitted g a (x ∷ ys) res (later miss f)
        (cons-Chain h g p q x xs ys is.chain e (loc.below p lt) c)
        (record { below = λ b le. loc.below b (omega arith); first = loc.first; limit = loc.limit })
  Allocates-cons h lo p q size x xs r is e behind miss (extended g res none' c low fst lim) =
      let lt : p < q = omega (arith, is.chain.0) in
      extended g res (miss, none')
        (cons-Chain h g p q x xs (xs ++ grown h.heap_limit size (pages_for size)) is.chain e
          (low p lt) c)
        (λ b le. low b (omega arith)) fst lim
  Allocates-cons h lo p q size x xs r is e behind miss (refused g res none' ext) =
      refused g res (miss, none') ext
  Allocates-cons h lo p q size x xs r is e behind miss (stopped res none') =
      stopped res (miss, none')

  module _ (h : Heap State) (lo p size : ℕ) (x : Block) (is : IsChain P h lo p (x ∷ []))
      (fits : h.heap_limit + size + 8192 < 2 ^ 32)
      (miss : (x.free && leb size x.size) ≡ false) where
    abbrev placed_on : Heap State → Heap State
    placed_on g = place_block P h.heap_limit size (size + header_size) (pages_for size) p g

    extended-of :
        (g : Heap State)
        → IsExtended P (pages_for size) h g
        → g.heap_limit ≡ h.heap_limit + pages_for size * 4096
        → Allocates h p size (x ∷ []) (ok (h.heap_limit + header_size) (placed_on g))
    extended-of g ext lim =
        let chain : Chain g.blocks p (x ∷ []) = rw ext.blocks is.chain in
        let room : size + header_size ≤ pages_for size * 4096 = omega arith in
        let more : h.heap_limit + pages_for size * 4096 < 2 ^ 32 = omega arith in
        let rest = place_block-rest P h.heap_limit size (size + header_size) (pages_for size) p g in
        extended (placed_on g) refl (miss, tt)
          (placed-Chain P g h.heap_limit size (pages_for size) lo p x chain is.layout.3 room more)
          (λ a lt.
            placed-below P g h.heap_limit size (pages_for size) lo p x chain is.layout.3 room more a
              lt
            ∙ ap (λ (b : ℕ → HeapBlock). b a) ext.blocks)
          (rest.0 ∙ ext.first) (rest.1 ∙ lim)

    expand_heap-Allocates : Allocates h p size (x ∷ []) (payload P (expand_heap P size p h))
    unfolding expand_heap
    expand_heap-Allocates =
        let needed : u32 (size + header_size) ≡ size + header_size = omega arith in
        let whole : u32 (size + header_size + 4095) ≡ size + header_size + 4095 = omega arith in
        let last : (p == 0) ≡ false = ground (arith, is.chain.0, is.chain.1) in
        let limit : (h.heap_limit == 0) ≡ false = ground (arith, is.layout.3) in
        let back : u32 (h.heap_limit + header_size) ≡ h.heap_limit + header_size = omega arith in
        rw (needed, whole, last)
          (elim (add_pages_lem P (pages_for size) h (omega arith)) [
            | inl (g, e, ext, lim) ↦ rw (e, limit, back) (extended-of g ext lim)
            | inr (inl (g, e, ext)) ↦ rw e (refused g refl (miss, tt) ext)
            | inr (inr e) ↦ rw e (stopped refl (miss, tt))
          ])

  -- One round of the loop, at the block `x`, which the pointer `p` names.
  module _ (h : Heap State) (lo p last size fuel : ℕ) (x : Block) (xs : List Block)
      (is : IsChain P h lo p (x ∷ xs)) where
    enters : (p == 0) ≡ false
    enters = ground (arith, is.chain.0, is.chain.1)

    test : ((h.blocks p).is_free && leb size (h.blocks p).size) ≡ (x.free && leb size x.size)
    test = rw (is.chain.0, is.chain.2, is.chain.3) refl

    round-hit :
        (x.free && leb size x.size) ≡ true
        → Allocates h p size (x ∷ xs) (find_loop P (suc fuel) p last size h)
    unfolding find_loop
    round-hit hit =
        let f : x.free ≡ true = ground arith in
        let room : size ≤ x.size = ground arith in
        let below = Layout-le (end_of x) h.heap_limit xs is.layout.3 in
        let back : u32 (p + header_size) ≡ p + header_size =
          omega (arith, is.bounded, is.chain.0) in
        rw (enters, test, hit, back)
          (fitted (take_block P p size h) p (split size x ++ xs) refl (rw is.chain.0 (here f room))
            (take_block-Chain P h lo p size x xs is room)
            (take_block-IsLocal P h lo p size x xs is room))

    round-miss :
        (x.free && leb size x.size) ≡ false
        → find_loop P (suc fuel) p last size h ≡ find_loop P fuel (h.blocks p).next p size h
    unfolding find_loop
    round-miss miss = rw (enters, test, miss) refl

  find_loop-Allocates :
      (fuel : ℕ) (h : Heap State) (lo p last size : ℕ) (x : Block) (xs : List Block)
      → IsChain P h lo p (x ∷ xs)
      → length xs < fuel
      → h.heap_limit + size + 8192 < 2 ^ 32
      → Allocates h p size (x ∷ xs) (find_loop P (suc fuel) p last size h)
  find_loop-Allocates zero h lo p last size x xs is more fits = absurd (omega arith)
  find_loop-Allocates (suc fuel) h lo p last size x [] is more fits =
      elim (Bool-cases (x.free && leb size x.size)) [
        | inl hit ↦ round-hit h lo p last size (suc fuel) x [] is hit
        | inr miss ↦
            (let next : (h.blocks p).next ≡ 0 = rw is.chain.0 is.chain.4 in
              rw (round-miss h lo p last size (suc fuel) x [] is miss, next)
                (unfold find_loop in expand_heap-Allocates h lo p size x is fits miss))
      ]
  find_loop-Allocates (suc fuel) h lo p last size x (y ∷ ys) is more fits =
      elim (Bool-cases (x.free && leb size x.size)) [
        | inl hit ↦ round-hit h lo p last size (suc fuel) x (y ∷ ys) is hit
        | inr miss ↦
            (let q = (h.blocks p).next in
              let chain : Chain h.blocks q (y ∷ ys) = rw is.chain.0 is.chain.4 in
              let rest : IsChain P h (end_of x) q (y ∷ ys) = record {
                chain = chain;
                layout = is.layout.3;
                bounded = is.bounded;
              } in
              rw (round-miss h lo p last size (suc fuel) x (y ∷ ys) is miss) (
                Allocates-cons h lo p q size x (y ∷ ys) _ is refl
                  (omega (arith, chain.0, is.layout.3.0)) miss
                  (find_loop-Allocates fuel h (end_of x) q p size y ys rest (omega arith) fits)))
      ]

  -- The invariant: the headers lead from `first_block` through at least one block, the blocks lie
  -- apart from one another below the limit, and the limit is a page boundary.
  pub record IsHeap (h : Heap State) (xs : List Block) : Type 0 where
    pub whole : IsChain P h 1 h.first_block xs
    pub some_block : xs ≢ []
    pub page : h.heap_limit % 4096 ≡ 0

  pub round_up_lem : (size : ℕ) → size + 3 < 2 ^ 32 → round_up size ≡ (size + 3) / 4 * 4
  round_up_lem size h =
      omega (arith, bit_and_high 2 (u32 (size + 3)) 0x3FFFFFFF, bit_and_low 30 (u32 (size + 3) / 4))

  -- `kmalloc` of a size other than 0, on a heap that stands for the blocks `xs`, when the limit and
  -- the size leave room in the address space and the fuel is above the number of blocks: it takes
  -- the first free block that is large enough for the size rounded up to a multiple of 4; if there
  -- is none it puts a new block on new pages behind the last block; if these cannot be had it
  -- returns NULL and changes no block; or the mapping of a page panics.
  pub kmalloc-Allocates :
      (fuel : ℕ) (h : Heap State) (size : ℕ) (xs : List Block)
      → IsHeap h xs
      → 0 < size
      → length xs < fuel
      → h.heap_limit + size + 8196 < 2 ^ 32
      → Allocates h h.first_block ((size + 3) / 4 * 4) xs (kmalloc P fuel size h)
  unfolding kmalloc
  kmalloc-Allocates fuel h size [] is pos more fits = absurd (is.some_block refl)
  kmalloc-Allocates zero h size (x ∷ xs) is pos more fits = absurd (omega arith)
  kmalloc-Allocates (suc fuel) h size (x ∷ xs) is pos more fits =
      let rounded = round_up_lem size (omega arith) in
      let nonzero : ((size + 3) / 4 * 4 == 0) ≡ false = ground arith in
      rw (rounded, nonzero)
        (find_loop-Allocates fuel h 1 h.first_block h.first_block ((size + 3) / 4 * 4) x xs is.whole
          (omega arith) (omega arith))
