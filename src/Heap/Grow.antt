-- ===== src/Heap/Grow.antt =====
-- `expand_heap`: more pages behind the limit, and a block on them behind the last one.
use os_from_scratch.Common.{
  ℕ, zero, suc, ◌+◌, ◌-◌, ◌*◌, ◌/◌, ◌%◌, ◌^◌, ◌≤◌, ◌<◌, ◌≡◌, ◌⊎◌, refl, arith, Bool, true, false,
  ◌&&◌, List, [], ◌∷◌, Option, none, some, ltb, ◌==◌, if◌then◌else◌, Bool-cases, inl, inr, ltb→lt,
  ==_refl, ==→eq,
}
use os_from_scratch.Common.Word.{u32, sub32, store}
use os_from_scratch.Heap.{Heap, Pages, Run, ok, panicked, header_size, add_pages, place_block}
use os_from_scratch.Heap.Blocks.{Block, end_of}
use os_from_scratch.Heap.Chain.{Chain}
use os_from_scratch.Heap.Take.{}

-- The blocks on `needed_pages` new pages from `base` on.
abbrev pub grown : ℕ → ℕ → ℕ → List Block
grown base size needed_pages =
    record { addr = base; size = size; free = false }
    ∷ (if ltb (header_size + 4) (needed_pages * 4096 - (size + header_size))
        then record {
          addr = base + (size + header_size);
          size = needed_pages * 4096 - (size + header_size) - header_size;
          free = true;
        }
          ∷ []
        else [])

-- The pages for a block of `size` bytes and its header.
abbrev pub pages_for : ℕ → ℕ
pages_for size = (size + header_size + 4095) / 4096

module _ (P : Pages) where
  open P use {State, pmm_alloc_page, map_page}

  -- `g` has the headers of `h`, and a limit at most `n` pages further on.
  pub record IsExtended (n : ℕ) (h g : Heap State) : Type 0 where
    pub blocks : g.blocks ≡ h.blocks
    pub first : g.first_block ≡ h.first_block
    pub above : h.heap_limit ≤ g.heap_limit
    pub within : g.heap_limit ≤ h.heap_limit + n * 4096
    pub aligned : g.heap_limit % 4096 ≡ h.heap_limit % 4096

  abbrev pub Added : ℕ → Heap State → Run State Bool → Type 0
  Added n h r =
      ((g : Heap State) × (r ≡ ok true g)
        × IsExtended n h g
        × (g.heap_limit ≡ h.heap_limit + n * 4096))
      ⊎ ((g : Heap State) × (r ≡ ok false g) × IsExtended n h g)
      ⊎ (r ≡ panicked)

  pub IsExtended-refl :
      (n : ℕ) (h g : Heap State)
      → g.blocks ≡ h.blocks
      → g.first_block ≡ h.first_block
      → g.heap_limit ≡ h.heap_limit
      → IsExtended n h g
  IsExtended-refl n h g b f l = record {
    blocks = b;
    first = f;
    above = omega arith;
    within = omega arith;
    aligned = omega arith;
  }

  -- The heap after one more page.
  abbrev one_more : Heap State → State → Heap State
  one_more h s' = record h { heap_limit = u32 (h.heap_limit + 4096); pages = s' }

  IsExtended-suc :
      (n : ℕ) (h : Heap State) (s' : State) (g : Heap State)
      → h.heap_limit + suc n * 4096 < 2 ^ 32
      → IsExtended n (one_more h s') g
      → IsExtended (suc n) h g
  IsExtended-suc n h s' g fits ext = record {
    blocks = ext.blocks;
    first = ext.first;
    above = omega (arith, ext.above);
    within = omega (arith, ext.within);
    aligned = omega (arith, ext.aligned);
  }

  Added-suc :
      (n : ℕ) (h : Heap State) (s' : State) (r : Run State Bool)
      → h.heap_limit + suc n * 4096 < 2 ^ 32
      → Added n (one_more h s') r
      → Added (suc n) h r
  Added-suc n h s' r fits (inl (g, e, ext, lim)) =
      inl (g, e, IsExtended-suc n h s' g fits ext, omega arith)
  Added-suc n h s' r fits (inr (inl (g, e, ext))) =
      inr (inl (g, e, IsExtended-suc n h s' g fits ext))
  Added-suc n h s' r fits (inr (inr e)) = inr (inr e)

  pub add_pages_lem :
      (n : ℕ) (h : Heap State) → h.heap_limit + n * 4096 < 2 ^ 32 → Added n h (add_pages P n h)
  unfolding add_pages
  add_pages_lem zero h fits = inl (h, refl, IsExtended-refl 0 h h refl refl refl, omega arith)
  add_pages_lem (suc n) h fits = elim (Bool-cases ((pmm_alloc_page h.pages).0 == 0)) [
    | inl empty ↦ rw empty (
        inr (
          inl (
            record h { pages = (pmm_alloc_page h.pages).1 },
            refl,
            IsExtended-refl (suc n) h _ refl refl refl,
          )))
    | inr given ↦ rw given (
        mapped (map_page h.heap_limit (pmm_alloc_page h.pages).0 (pmm_alloc_page h.pages).1) (λ s'.
          add_pages_lem n (record h { heap_limit = u32 (h.heap_limit + 4096); pages = s' })
            (omega arith)))
  ]
    where
      next : State → Heap State
      next s' = record h { heap_limit = u32 (h.heap_limit + 4096); pages = s' }

      mapped :
          (o : Option State)
          → ((s' : State) → Added n (next s') (add_pages P n (next s')))
          → Added (suc n) h (elim o [ none ↦ panicked | some s' ↦ add_pages P n (next s') ])
      mapped none later = inr (inr refl)
      mapped (some s') later = Added-suc n h s' _ fits (later s')

  -- Only headers are written.
  pub place_block-rest :
      (base size needed n p : ℕ) (h : Heap State)
      → ((place_block P base size needed n p h).first_block ≡ h.first_block)
        × ((place_block P base size needed n p h).heap_limit ≡ h.heap_limit)
  unfolding place_block
  place_block-rest base size needed n p h =
      elim (Bool-cases (ltb (header_size + 4) (sub32 (u32 (n * 4096)) needed))) [
        | inl more ↦ rw more (refl, refl)
        | inr tight ↦ rw tight (refl, refl)
      ]

  module _ (h : Heap State) (base size n lo p : ℕ) (x : Block) (chain : Chain h.blocks p (x ∷ []))
      (below : end_of x ≤ base) (room : size + header_size ≤ n * 4096)
      (fits : base + n * 4096 < 2 ^ 32) where
    abbrev pub needed : ℕ
    needed = size + header_size

    abbrev pub placed : Heap State
    placed = place_block P base size needed n p h

    left_over : sub32 (u32 (n * 4096)) needed ≡ n * 4096 - needed
    left_over = omega arith

    base_ne : (base == p) ≡ false
    base_ne = ground (arith, chain.0)

    -- The header that `placed` has at `a`.
    abbrev more : Bool
    more = ltb (header_size + 4) (n * 4096 - needed)

    placed-blocks :
        (a : ℕ)
        → placed.blocks a ≡ (
            if a == base
            then record {
              size = size;
              is_free = false;
              next = if more then base + needed else 0;
              prev = p;
            }
            else if a == p
            then record (h.blocks p) { next = base }
            else if more && a == base + needed
            then record {
              size = n * 4096 - needed - header_size;
              next = 0;
              is_free = true;
              prev = base;
            }
            else h.blocks a)
    unfolding place_block store
    placed-blocks a =
        let no_wrap : ltb (header_size + 4) (n * 4096 - needed) ≡ true
            → u32 (base + needed) ≡ base + needed =
          λ m. omega (arith, ltb→lt _ _ m) in
        let ne : (p == base) ≡ false = ground (arith, chain.0) in
        let ne' : (base == base + needed) ≡ false = ground arith in
        elim (Bool-cases more) [
          | inl more' ↦
              rw (left_over, more', no_wrap more', base_ne, ne, ne', ==_refl base)
                (elim (Bool-cases (a == base)) [
                  | inl at_base ↦ rw at_base refl
                  | inr off ↦ elim (Bool-cases (a == p)) [
                    | inl at_last ↦
                        (let off' : (a == base + needed) ≡ false =
                            ground (arith, chain.0, ==→eq a p at_last) in
                          rw (off, off', at_last) refl)
                    | inr off' ↦ rw (off, off') refl
                  ]
                ])
          | inr tight ↦
              rw (left_over, tight, ne)
                (elim (Bool-cases (a == base)) [
                  | inl at_base ↦
                      (let off : (a == p) ≡ false = ground (arith, ==→eq a base at_base, chain.0) in
                        rw (at_base, off) refl)
                  | inr off ↦ rw off refl
                ])
        ]

    headers :
        (placed.blocks x.addr ≡ record (h.blocks p) { next = base })
        × (placed.blocks base ≡ record {
          size = size;
          is_free = false;
          next = if more then base + needed else 0;
          prev = p;
        })
    headers =
        let off : (x.addr == base) ≡ false = ground arith in
        let hit : (x.addr == p) ≡ true = ground (arith, chain.0) in
        (rw (off, hit) at (placed-blocks x.addr), rw (==_refl base) at (placed-blocks base))

    free_header :
        more ≡ true
        → placed.blocks (base + needed)
          ≡ record { size = n * 4096 - needed - header_size; next = 0; is_free = true; prev = base }
    free_header more' =
        let off : (base + needed == base) ≡ false = ground arith in
        let off' : (base + needed == p) ≡ false = ground (arith, chain.0) in
        rw (off, off', more', ==_refl (base + needed)) at (placed-blocks (base + needed))

    grown-Chain : Chain placed.blocks base (grown base size n)
    grown-Chain = elim (Bool-cases more) [
      | inl more' ↦
          rw (more', headers.1, more', free_header more')
            (refl, omega arith, refl, refl, (refl, omega arith, refl, refl, refl))
      | inr tight ↦ rw (tight, headers.1, tight) (refl, omega arith, refl, refl, refl)
    ]

    pub placed-Chain : Chain placed.blocks p (x ∷ grown base size n)
    placed-Chain =
        rw headers.0
          (chain.0, chain.1, rw (chain.0, chain.2) refl, rw (chain.0, chain.3) refl, grown-Chain)

    pub placed-below : (a : ℕ) → a < p → placed.blocks a ≡ h.blocks a
    placed-below a lt =
        let one : (a == base) ≡ false = ground (arith, chain.0) in
        let two : (a == p) ≡ false = ground arith in
        let three : (more && a == base + needed) ≡ false = ground (arith, chain.0) in
        rw (one, two, three) at (placed-blocks a)
