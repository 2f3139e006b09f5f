-- ===== src/Heap/Free.antt =====
-- `coalesce_free_blocks` and `kfree` implement the merge on the list of blocks.
use os_from_scratch.Common.{
  ℕ, zero, suc, ◌+◌, ◌≤◌, ◌<◌, ◌≡◌, ◌≢◌, ◌⊎◌, refl, ◌∙◌, ap, arith, true, false, ◌&&◌, List, [],
  ◌∷◌, ◌==◌, if◌then◌else◌, Bool-cases, inl, inr, length, ==→eq, ==_refl, ◌||◌,
}
use os_from_scratch.Common.Word.{u32, sub32, store}
use os_from_scratch.Heap.{
  HeapBlock, Heap, Pages, ok, header_size, absorb, absorb_size, absorb_next, absorb_prev,
  coalesce_loop, kfree,
}
use os_from_scratch.Heap.Blocks.{
  Block, end_of, Layout, Layout-le, Layout-weaken, merge_from, coalesce, release,
}
use os_from_scratch.Heap.Chain.{Chain, Same, Same-refl, Chain-frame}
use os_from_scratch.Heap.Take.{IsChain}
use os_from_scratch.Heap.Malloc.{IsHeap}

-- `x` with the free block `y` taken in.
abbrev pub joined : Block → Block → Block
joined x y = record { addr = x.addr; size = x.size + header_size + y.size; free = true }

-- A block of the list lies at `a`.
abbrev pub HasBlock : ℕ → List Block → Type 0
HasBlock a [] = ⊥
HasBlock a (x ∷ xs) = (x.addr ≡ a) ⊎ HasBlock a xs

module _ (P : Pages) where
  open P use {State}

  -- The last statement writes to `prev` alone.
  absorb_prev-Same :
      (p : ℕ) (h : Heap State) (a : ℕ) → Same ((absorb_prev P p h).blocks a) (h.blocks a)
  unfolding absorb_prev store
  absorb_prev-Same p h a = elim (Bool-cases ((h.blocks p).next == 0)) [
    | inl last ↦ rw last (Same-refl (h.blocks a))
    | inr more ↦ rw more (elim (Bool-cases (a == (h.blocks p).next)) [
      | inl hit ↦
          rw (hit, ==→eq a (h.blocks p).next hit)
            (record { size = refl; is_free = refl; next = refl })
      | inr other ↦ rw other (Same-refl (h.blocks a))
    ])
  ]

  absorb_prev-rest :
      (p : ℕ) (h : Heap State)
      → ((absorb_prev P p h).first_block ≡ h.first_block)
        × ((absorb_prev P p h).heap_limit ≡ h.heap_limit)
  unfolding absorb_prev
  absorb_prev-rest p h = elim (Bool-cases ((h.blocks p).next == 0)) [
    | inl last ↦ rw last (refl, refl)
    | inr more ↦ rw more (refl, refl)
  ]

  absorb-rest :
      (p : ℕ) (h : Heap State)
      → ((absorb P p h).first_block ≡ h.first_block) × ((absorb P p h).heap_limit ≡ h.heap_limit)
  unfolding absorb absorb_next absorb_size
  absorb-rest p h = absorb_prev-rest p (absorb_next P p (absorb_size P p h))

  module _ (h : Heap State) (lo p : ℕ) (x y : Block) (ys : List Block)
      (is : IsChain P h lo p (x ∷ y ∷ ys)) where
    abbrev absorbed : Heap State
    absorbed = absorb P p h

    next-y : (h.blocks p).next ≡ y.addr
    next-y = rw is.chain.0 is.chain.4.0

    abbrev after : ℕ
    after = (h.blocks y.addr).next

    sum : ℕ
    sum = u32 ((h.blocks p).size + u32 ((h.blocks y.addr).size + header_size))

    sum_lem : sum ≡ x.size + header_size + y.size
    unfolding sum
    sum_lem =
        let end = Layout-le (end_of y) h.heap_limit ys is.layout.3.3 in
        rw (is.chain.0, is.chain.2, is.chain.4.2) (omega (arith, end, is.bounded))

    off : (y.addr == p) ≡ false
    off = ground (arith, is.chain.0, is.layout.3.0)

    sized :
        (a : ℕ)
        → (absorb_size P p h).blocks a
          ≡ (if a == p then record (h.blocks p) { size = sum } else h.blocks a)
    unfolding absorb_size store sum
    sized a = rw next-y refl

    linked :
        (a : ℕ)
        → (absorb_next P p (absorb_size P p h)).blocks a
          ≡ (if a == p then record (h.blocks p) { size = sum; next = after } else h.blocks a)
    unfolding absorb_next store
    linked a =
        let first = rw (==_refl p) at (sized p) in
        let second = rw off at (sized y.addr) in
        rw (first, next-y, second, sized a)
          (elim (Bool-cases (a == p)) [ inl same ↦ rw same refl | inr other ↦ rw other refl ])

    absorb-blocks :
        (a : ℕ)
        → Same
            (absorbed.blocks a)
            (if a == p then record (h.blocks p) { size = sum; next = after } else h.blocks a)
    unfolding absorb
    absorb-blocks a = rw (← linked a) (absorb_prev-Same p (absorb_next P p (absorb_size P p h)) a)

    absorbed-IsChain : (x.free && y.free) ≡ true → IsChain P absorbed lo p (joined x y ∷ ys)
    absorbed-IsChain both =
        let hit : (x.addr == p) ≡ true = ground (arith, is.chain.0) in
        let head = rw hit at (absorb-blocks x.addr) in
        let free : (h.blocks p).is_free ≡ true = rw (is.chain.0, is.chain.3) (ground arith) in
        let behind : (a : ℕ) → end_of y ≤ a → Same (absorbed.blocks a) (h.blocks a) = λ a above.
          (let other : (a == p) ≡ false = ground (arith, is.chain.0, is.layout.3.0) in
            rw other at (absorb-blocks a)) in
        let tail =
          Chain-frame h.blocks absorbed.blocks (end_of y) h.heap_limit after ys behind is.layout.3.3
            is.chain.4.4 in
        record {
          chain =
              (is.chain.0, is.chain.1, head.size ∙ sum_lem, head.is_free ∙ free, rw head.next tail);
          layout = rw (absorb-rest p h).1 (
            is.layout.0,
            is.layout.1,
            omega (arith, is.layout.2, is.layout.3.0, is.layout.3.1, is.layout.3.2),
            Layout-weaken (end_of y) _ h.heap_limit h.heap_limit ys (omega (arith, is.layout.3.0))
                (omega arith) is.layout.3.3,
          );
          bounded = rw (absorb-rest p h).1 is.bounded;
        }

  -- `g` stands for the blocks `ys` from the pointer `p` on, and its headers below `p` are those of
  -- `h`, up to `prev`.
  pub record IsMerged (h : Heap State) (lo p : ℕ) (ys : List Block) (g : Heap State) : Type 0 where
    pub result : IsChain P g lo p ys
    pub below : (a : ℕ) → a < p → Same (g.blocks a) (h.blocks a)
    pub first : g.first_block ≡ h.first_block
    pub limit : g.heap_limit ≡ h.heap_limit

  Same-trans : {b c d : HeapBlock} → Same b c → Same c d → Same b d
  Same-trans s t = record {
    size = s.size ∙ t.size;
    is_free = s.is_free ∙ t.is_free;
    next = s.next ∙ t.next;
  }

  module _ (h : Heap State) (lo p : ℕ) (x y : Block) (ys : List Block)
      (is : IsChain P h lo p (x ∷ y ∷ ys)) where
    absorbed-below : (a : ℕ) → a < p → Same ((absorb P p h).blocks a) (h.blocks a)
    absorbed-below a lt =
        let other : (a == p) ≡ false = ground arith in
        rw other at (absorb-blocks h lo p x y ys is a)

    absorb-IsMerged :
        (zs : List Block) (g : Heap State)
        → IsMerged (absorb P p h) lo p zs g
        → IsMerged h lo p zs g
    absorb-IsMerged zs g m = record {
      result = m.result;
      below = λ a lt. Same-trans (m.below a lt) (absorbed-below a lt);
      first = m.first ∙ (absorb-rest p h).0;
      limit = m.limit ∙ (absorb-rest p h).1;
    }

    moved-IsMerged :
        (zs : List Block) (g : Heap State)
        → IsMerged h (end_of x) (h.blocks p).next zs g
        → IsMerged h lo p (x ∷ zs) g
    moved-IsMerged zs g m =
        let q = next-y h lo p x y ys is in
        let kept = m.below x.addr (rw q (omega (arith, is.layout.3.0))) in
        record {
          result = record {
            chain = (
              is.chain.0,
              is.chain.1,
              kept.size ∙ is.chain.2,
              kept.is_free ∙ is.chain.3,
              rw (kept.next, ← is.chain.0) m.result.chain,
            );
            layout = (is.layout.0, is.layout.1, is.layout.2, m.result.layout);
            bounded = m.result.bounded;
          };
          below = λ a lt. m.below a (rw q (omega (arith, is.chain.0, is.layout.3.0)));
          first = m.first;
          limit = m.limit;
        }

  coalesce_loop-IsMerged :
      (fuel : ℕ) (h : Heap State) (lo p : ℕ) (x : Block) (xs : List Block)
      → IsChain P h lo p (x ∷ xs)
      → length xs < fuel
      → (g : Heap State) × (coalesce_loop P fuel p h ≡ ok tt g)
        × IsMerged h lo p (merge_from x xs) g
  unfolding coalesce_loop merge_from
  coalesce_loop-IsMerged zero h lo p x xs is more = absurd (omega arith)
  coalesce_loop-IsMerged (suc fuel) h lo p x [] is more =
      let next : (h.blocks p).next ≡ 0 = rw is.chain.0 is.chain.4 in
      (
        h,
        rw next refl,
        record { result = is; below = λ a lt. Same-refl (h.blocks a); first = refl; limit = refl },
      )
  coalesce_loop-IsMerged (suc fuel) h lo p x (y ∷ ys) is more =
      let q = next-y h lo p x y ys is in
      let there : ((h.blocks p).next == 0) ≡ false = rw q (ground (arith, is.chain.4.1)) in
      let test : ((h.blocks p).is_free && (h.blocks (h.blocks p).next).is_free)
          ≡ (x.free && y.free) =
        rw (q, is.chain.0, is.chain.3, is.chain.4.3) refl in
      elim (Bool-cases (x.free && y.free)) [
        | inl both ↦
            (let (g, e, m) =
                coalesce_loop-IsMerged fuel (absorb P p h) lo p (joined x y) ys
                  (absorbed-IsChain h lo p x y ys is both) (omega arith) in
              (g, rw (there, test, both) e, rw both (absorb-IsMerged h lo p x y ys is _ g m)))
        | inr other ↦
            (let (g, e, m) =
                coalesce_loop-IsMerged fuel h (end_of x) (h.blocks p).next y ys
                  (record {
                    chain = rw is.chain.0 is.chain.4;
                    layout = is.layout.3;
                    bounded = is.bounded;
                  })
                  (omega arith) in
              (g, rw (there, test, other) e, rw other (moved-IsMerged h lo p x y ys is _ g m)))
      ]

  HasBlock-lt :
      (a lo limit : ℕ) (xs : List Block)
      → HasBlock a xs
      → Layout lo limit xs
      → a + header_size ≤ limit
  HasBlock-lt a lo limit [] m l = absurd m
  HasBlock-lt a lo limit (x ∷ xs) (inl e) l = omega (arith, Layout-le (end_of x) limit xs l.3)
  HasBlock-lt a lo limit (x ∷ xs) (inr m) l = HasBlock-lt a (end_of x) limit xs m l.3

  abbrev marked : ℕ → Heap State → Heap State
  marked a h = record h { blocks = store h.blocks a (record (h.blocks a) { is_free = true }) }

  marked-blocks :
      (a b : ℕ) (h : Heap State)
      → Same
          ((marked a h).blocks b)
          (record (h.blocks b) { is_free = b == a || (h.blocks b).is_free })
  unfolding store
  marked-blocks a b h = elim (Bool-cases (b == a)) [
    | inl hit ↦ rw (hit, ==→eq b a hit) (record { size = refl; is_free = refl; next = refl })
    | inr other ↦ rw other (Same-refl (h.blocks b))
  ]

  marked-Chain :
      (a p : ℕ) (h : Heap State) (xs : List Block)
      → Chain h.blocks p xs
      → Chain (marked a h).blocks p (release a xs)
  marked-Chain a p h [] c = c
  marked-Chain a p h (x ∷ xs) c =
      let m = marked-blocks a x.addr h in
      (
        c.0,
        c.1,
        m.size ∙ c.2,
        m.is_free ∙ rw c.3 refl,
        rw m.next (marked-Chain a (h.blocks x.addr).next h xs c.4),
      )

  release-Layout :
      (a lo limit : ℕ) (xs : List Block) → Layout lo limit xs → Layout lo limit (release a xs)
  release-Layout a lo limit [] l = l
  release-Layout a lo limit (x ∷ xs) l = (l.0, l.1, l.2, release-Layout a (end_of x) limit xs l.3)

  length-release : (a : ℕ) (xs : List Block) → length (release a xs) ≡ length xs
  length-release a [] = refl
  length-release a (x ∷ xs) = ap suc (length-release a xs)

  merge_from-ne : (x : Block) (xs : List Block) → merge_from x xs ≢ []
  unfolding merge_from
  merge_from-ne x [] = λ e. cc
  merge_from-ne x (y ∷ ys) = elim (Bool-cases (x.free && y.free)) [
    | inl both ↦ rw both (merge_from-ne (joined x y) ys)
    | inr other ↦ rw other (λ e. cc)
  ]

  -- `kfree` of the payload of a block, on a heap that stands for `xs` and with fuel above the number
  -- of blocks, ends; the heap then stands for `xs` with that block free and with every run of
  -- free neighbours merged, and its limit and its first block are the same.
  pub kfree-IsHeap :
      (fuel : ℕ) (h : Heap State) (a : ℕ) (xs : List Block)
      → IsHeap P h xs
      → HasBlock a xs
      → length xs < fuel
      → (g : Heap State) × (kfree P fuel (a + header_size) h ≡ ok tt g)
        × IsHeap P g (coalesce (release a xs))
        × (g.heap_limit ≡ h.heap_limit)
        × (g.first_block ≡ h.first_block)
  unfolding kfree
  kfree-IsHeap fuel h a [] is m more = absurd m
  kfree-IsHeap fuel h a (x ∷ xs) is m more =
      let inside = HasBlock-lt a 1 h.heap_limit (x ∷ xs) m is.whole.layout in
      let back : sub32 (a + header_size) header_size ≡ a =
        omega (arith, inside, is.whole.bounded) in
      let start : IsChain P (marked a h) 1 h.first_block (release a (x ∷ xs)) = record {
        chain = marked-Chain a h.first_block h (x ∷ xs) is.whole.chain;
        layout = release-Layout a 1 h.heap_limit (x ∷ xs) is.whole.layout;
        bounded = is.whole.bounded;
      } in
      let (g, e, m') =
        coalesce_loop-IsMerged fuel (marked a h) 1 h.first_block
          (record x { free = x.addr == a || x.free }) (release a xs) start
          (omega (arith, length-release a xs)) in
      (
        g,
        rw back e,
        record {
          whole = rw m'.first m'.result;
          some_block = merge_from-ne (record x { free = x.addr == a || x.free }) (release a xs);
          page = rw m'.limit is.page;
        },
        m'.limit,
        m'.first,
      )
