-- ===== src/Heap/Take.antt =====
-- `take_block` on a chain: the list that `split` gives.
use os_from_scratch.Common.{
  ℕ, ◌+◌, ◌-◌, ◌^◌, ◌≤◌, ◌<◌, ◌≡◌, refl, ◌∙◌, arith, true, false, List, ◌∷◌, ◌++◌, leb, ◌==◌,
  if◌then◌else◌, Bool-cases, inl, inr, leb→le, ==_refl,
}
use os_from_scratch.Common.Word.{u32, sub32, store}
use os_from_scratch.Heap.{Heap, Pages, header_size, take_block}
use os_from_scratch.Heap.Blocks.{Block, end_of, Layout, Layout-le, split}
use os_from_scratch.Heap.Chain.{Chain, Same, Same-refl, Chain-frame}

module _ (P : Pages) where
  open P use {State}

  -- The invariant of a stretch of the heap that begins at the pointer `p`.
  pub record IsChain (h : Heap State) (lo p : ℕ) (xs : List Block) : Type 0 where
    pub chain : Chain h.blocks p xs
    pub layout : Layout lo h.heap_limit xs
    pub bounded : h.heap_limit < 2 ^ 32

  -- `g` has the limit, the first block and the pages of `h`, and its headers below `lo`.
  pub record IsLocal (lo : ℕ) (h g : Heap State) : Type 0 where
    pub below : (a : ℕ) → a < lo → g.blocks a ≡ h.blocks a
    pub first : g.first_block ≡ h.first_block
    pub limit : g.heap_limit ≡ h.heap_limit

  module _ (h : Heap State) (lo p size : ℕ) (x : Block) (xs : List Block)
      (here : IsChain h lo p (x ∷ xs)) (fits : size ≤ x.size) where
    abbrev pub taken : Heap State
    taken = take_block P p size h

    end : end_of x ≤ h.heap_limit
    end = Layout-le (end_of x) h.heap_limit xs here.layout.3

    remaining : sub32 (h.blocks p).size size ≡ x.size - size
    remaining = rw (here.chain.0, here.chain.2) (omega (arith, end, here.bounded))

    -- The header of what is left over.
    abbrev pub rest : ℕ
    rest = p + header_size + size

    split-blocks :
        leb (header_size + 4) (x.size - size) ≡ true
        → (a : ℕ)
        → taken.blocks a ≡ (
            if a == p
            then record (h.blocks p) { is_free = false; size = size; next = rest }
            else if a == rest
            then record {
              size = x.size - size - header_size;
              is_free = true;
              next = (h.blocks p).next;
              prev = p;
            }
            else h.blocks a)
    unfolding take_block store
    split-blocks room a =
        let no_wrap : u32 (p + header_size + size) ≡ rest =
          omega (arith, end, here.bounded, here.chain.0, leb→le _ _ room) in
        let ne : (p == rest) ≡ false = ground arith in
        rw (remaining, room, no_wrap, ne, ==_refl p)
          (elim (Bool-cases (a == p)) [ inl same ↦ rw same refl | inr off ↦ rw off refl ])

    whole-blocks :
        leb (header_size + 4) (x.size - size) ≡ false
        → (a : ℕ)
        → taken.blocks a ≡ (if a == p then record (h.blocks p) { is_free = false } else h.blocks a)
    unfolding take_block store
    whole-blocks tight a = rw (remaining, tight) refl

    no_wrap_below : (a : ℕ) → a < p → ((a == p) ≡ false) × ((a == rest) ≡ false)
    no_wrap_below a lt = (ground arith, ground arith)

    -- Nothing but headers from `p` on is written.
    pub take_block-IsLocal : IsLocal p h taken
    take_block-IsLocal = elim (Bool-cases (leb (header_size + 4) (x.size - size))) [
      | inl room ↦ record {
        below =
            λ a lt. split-blocks room a ∙ rw ((no_wrap_below a lt).0, (no_wrap_below a lt).1) refl;
        first = unfold take_block in rw (remaining, room) refl;
        limit = unfold take_block in rw (remaining, room) refl;
      }
      | inr tight ↦ record {
        below = λ a lt. whole-blocks tight a ∙ rw (no_wrap_below a lt).0 refl;
        first = unfold take_block in rw (remaining, tight) refl;
        limit = unfold take_block in rw (remaining, tight) refl;
      }
    ]

    -- The blocks behind `x` keep their headers.
    behind : (a : ℕ) → end_of x ≤ a → Same (taken.blocks a) (h.blocks a)
    behind a above = elim (Bool-cases (leb (header_size + 4) (x.size - size))) [
      | inl room ↦
          (let off : (a == p) ≡ false = ground (arith, here.chain.0) in
            let off' : (a == rest) ≡ false = ground (arith, here.chain.0, leb→le _ _ room) in
            rw (split-blocks room a, off, off') (Same-refl (h.blocks a)))
      | inr tight ↦
          (let off : (a == p) ≡ false = ground (arith, here.chain.0) in
            rw (whole-blocks tight a, off) (Same-refl (h.blocks a)))
    ]

    tail-Chain : Chain taken.blocks (h.blocks p).next xs
    tail-Chain =
        Chain-frame h.blocks taken.blocks (end_of x) h.heap_limit (h.blocks p).next xs behind
          here.layout.3 (rw here.chain.0 here.chain.4)

    room-Chain :
        leb (header_size + 4) (x.size - size) ≡ true → Chain taken.blocks p (split size x ++ xs)
    room-Chain room =
        let hit : (x.addr == p) ≡ true = ground (arith, here.chain.0) in
        let off : (x.addr + header_size + size == p) ≡ false = ground (arith, here.chain.0) in
        let hit' : (x.addr + header_size + size == rest) ≡ true = ground (arith, here.chain.0) in
        let head = rw hit at (split-blocks room x.addr) in
        let second = rw (off, hit') at (split-blocks room (x.addr + header_size + size)) in
        rw (room, head, second)
          (
            here.chain.0,
            here.chain.1,
            refl,
            refl,
            (omega (arith, here.chain.0), omega arith, refl, refl, tail-Chain),
          )

    tight-Chain :
        leb (header_size + 4) (x.size - size) ≡ false → Chain taken.blocks p (split size x ++ xs)
    tight-Chain tight =
        let hit : (x.addr == p) ≡ true = ground (arith, here.chain.0) in
        let head = rw hit at (whole-blocks tight x.addr) in
        rw (tight, head)
          (here.chain.0, here.chain.1, rw (here.chain.0, here.chain.2) refl, refl, tail-Chain)

    pub take_block-Chain : Chain taken.blocks p (split size x ++ xs)
    take_block-Chain = elim (Bool-cases (leb (header_size + 4) (x.size - size))) [
      | inl room ↦ room-Chain room
      | inr tight ↦ tight-Chain tight
    ]
