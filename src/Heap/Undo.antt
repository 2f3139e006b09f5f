-- ===== src/Heap/Undo.antt =====
-- What `kmalloc` keeps, and `kfree` after `kmalloc`.
use os_from_scratch.Common.{
  ℕ, ◌+◌, ◌-◌, ◌*◌, ◌/◌, ◌%◌, ◌^◌, ◌≤◌, ◌<◌, ◌≡◌, ◌≢◌, refl, ◌∙◌, sym, ap, arith, true, false, ◌&&◌,
  ◌||◌, List, [], ◌∷◌, ◌++◌, leb, ltb, ◌==◌, if◌then◌else◌, Bool-cases, inl, inr, length, leb→le,
  ltb→lt, ==_refl,
}
use os_from_scratch.Heap.{
  Heap, Pages, Run, ok, header_size, kmalloc, kfree, expand_heap, after_pages, add_pages,
}
use os_from_scratch.Common.Word.{u32}
use os_from_scratch.Heap.Chain.{Chain}
use os_from_scratch.Heap.Blocks.{
  Block, end_of, Layout, Layout-weaken, Finds, here, later, Finds-Layout, split, merge_from,
  coalesce, release, live, IsCoalesced, starts_free, NoneFits, merge_from-IsCoalesced,
  merge_from-live,
}
use os_from_scratch.Heap.Take.{IsLocal}
use os_from_scratch.Heap.Grow.{grown, pages_for}
use os_from_scratch.Heap.Malloc.{
  IsHeap, Allocates, fitted, extended, refused, stopped, kmalloc-Allocates,
}
use os_from_scratch.Heap.Free.{HasBlock, kfree-IsHeap}

release_off : (a lo limit : ℕ) (xs : List Block) → Layout lo limit xs → a < lo → release a xs ≡ xs
release_off a lo limit [] l lt = refl
release_off a lo limit (x ∷ xs) l lt =
    let off : (x.addr == a) ≡ false = ground (arith, l.0) in
    rw (off, release_off a (end_of x) limit xs l.3 (omega (arith, l.0))) refl

merge_from_coalesced :
    (x : Block) (xs : List Block) → IsCoalesced (x ∷ xs) → merge_from x xs ≡ x ∷ xs
unfolding merge_from
merge_from_coalesced x [] c = refl
merge_from_coalesced x (y ∷ ys) c = rw (c.0, merge_from_coalesced y ys c.1) refl

merge_from-apart :
    (x : Block) (ws : List Block)
    → (x.free && starts_free ws) ≡ false
    → merge_from x ws ≡ x ∷ coalesce ws
unfolding merge_from
merge_from-apart x [] e = refl
merge_from-apart x (w ∷ ws) e = rw e refl

Finds-le :
    {size a : ℕ} {xs ys : List Block} (lo limit : ℕ)
    → Finds size xs a ys
    → Layout lo limit xs
    → lo ≤ a
Finds-le lo limit (here f fits) l = l.0
Finds-le lo limit (later {x} miss f) l = omega (arith, Finds-le (end_of x) limit f l.3, l.0)

-- The block that is found was free.
starts_free-release :
    {size a : ℕ} {xs ys : List Block} (lo limit : ℕ)
    → Finds size xs a ys
    → Layout lo limit xs
    → starts_free (release a ys) ≡ starts_free xs
starts_free-release {size} lo limit (here {x} {xs} f fits) l =
    elim (Bool-cases (leb (header_size + 4) (x.size - size))) [
      | inl room ↦ rw (room, ==_refl x.addr, f) refl
      | inr tight ↦ rw (tight, ==_refl x.addr, f) refl
    ]
starts_free-release {a} lo limit (later {x} miss f) l =
    let below = Finds-le (end_of x) limit f l.3 in
    let off : (x.addr == a) ≡ false = ground arith in rw off refl

-- The block that is taken, given back, merges with what was split off.
release-split :
    (size lo limit : ℕ) (x : Block) (xs : List Block)
    → x.free ≡ true
    → size ≤ x.size
    → Layout lo limit (x ∷ xs)
    → IsCoalesced (x ∷ xs)
    → coalesce (release x.addr (split size x ++ xs)) ≡ x ∷ xs
unfolding merge_from
release-split size lo limit x xs f fits l c =
    let rest = release_off x.addr (end_of x) limit xs l.3 (omega arith) in
    elim (Bool-cases (leb (header_size + 4) (x.size - size))) [
      | inl room ↦
          (let off : (x.addr + header_size + size == x.addr) ≡ false = ground arith in
            let whole : ◌≡◌ {A = Block}
                (record {
                  addr = x.addr;
                  size = size + header_size + (x.size - size - header_size);
                  free = true;
                })
                x =
              ground (arith, leb→le (header_size + 4) (x.size - size) room) in
            rw (room, ==_refl x.addr, off, rest, whole) (merge_from_coalesced x xs c))
      | inr tight ↦
          (let whole : ◌≡◌ {A = Block} (record x { free = true }) x = ground arith in
            rw (tight, ==_refl x.addr, rest, whole) (merge_from_coalesced x xs c))
    ]

release-Finds :
    {size a : ℕ} {xs ys : List Block} (lo limit : ℕ)
    → Finds size xs a ys
    → Layout lo limit xs
    → IsCoalesced xs
    → coalesce (release a ys) ≡ xs
release-Finds {size} lo limit (here {x} {xs} f fits) l c =
    release-split size lo limit x xs f fits l c
release-Finds {a} lo limit (later {x} {xs} {ys} miss f) l c =
    let below = Finds-le (end_of x) limit f l.3 in
    let off : (x.addr == a) ≡ false = ground arith in
    let start = starts_free-release (end_of x) limit f l.3 in
    rw off (
      merge_from-apart x (release a ys) (rw start c.0)
      ∙ ap (λ (zs : List Block). x ∷ zs) (release-Finds (end_of x) limit f l.3 c.1))

HasBlock-Finds : {size a : ℕ} {xs ys : List Block} → Finds size xs a ys → HasBlock a ys
HasBlock-Finds {size} (here {x} f fits) =
    elim (Bool-cases (leb (header_size + 4) (x.size - size))) [
      | inl room ↦ rw room (inl refl)
      | inr tight ↦ rw tight (inl refl)
    ]
HasBlock-Finds (later miss f) = inr (HasBlock-Finds f)

-- The blocks on new pages lie behind the last block.
append-Layout :
    (lo limit limit' : ℕ) (xs ys : List Block)
    → Layout lo limit xs
    → Layout limit limit' ys
    → Layout lo limit' (xs ++ ys)
append-Layout lo limit limit' [] ys l m = Layout-weaken limit lo limit' limit' ys l (omega arith) m
append-Layout lo limit limit' (x ∷ xs) ys l m =
    (l.0, l.1, l.2, append-Layout (end_of x) limit limit' xs ys l.3 m)

grown-Layout :
    (base size n : ℕ)
    → base % 4096 ≡ 0
    → size % 4 ≡ 0
    → size + header_size ≤ n * 4096
    → Layout base (base + n * 4096) (grown base size n)
grown-Layout base size n page m room =
    elim (Bool-cases (ltb (header_size + 4) (n * 4096 - (size + header_size)))) [
      | inl more ↦ rw more (
        omega arith,
        omega arith,
        m,
        (omega arith, omega arith, omega (arith, ltb→lt _ _ more), omega (arith, ltb→lt _ _ more)),
      )
      | inr tight ↦ rw tight (omega arith, omega arith, m, omega arith)
    ]

length-split :
    (size : ℕ) (x : Block) (xs : List Block) → length (split size x ++ xs) ≤ length xs + 2
length-split size x xs = elim (Bool-cases (leb (header_size + 4) (x.size - size))) [
  | inl room ↦ rw room (omega arith)
  | inr tight ↦ rw tight (omega arith)
]

length-Finds : {size a : ℕ} {xs ys : List Block} → Finds size xs a ys → length ys ≤ length xs + 1
length-Finds {size} (here {x} {xs} f fits) = omega (arith, length-split size x xs)
length-Finds (later miss f) = omega (arith, length-Finds f)

append-ne : (xs ys : List Block) → xs ≢ [] → xs ++ ys ≢ []
append-ne [] ys ne = λ e. ne refl
append-ne (x ∷ xs) ys ne = λ e. cc

Finds-ne : {size a : ℕ} {xs ys : List Block} → Finds size xs a ys → ys ≢ []
Finds-ne {size} (here {x} {xs} f fits) = elim (Bool-cases (leb (header_size + 4) (x.size - size))) [
  | inl room ↦ rw room (λ e. cc)
  | inr tight ↦ rw tight (λ e. cc)
]
Finds-ne (later miss f) = λ e. cc

module _ (P : Pages) where
  open P use {State}

  ok-injective :
      {a b : ℕ} {g k : Heap State} → ◌≡◌ {A = Run State ℕ} (ok a g) (ok b k) → (a ≡ b) × (g ≡ k)
  ok-injective e = (cc, cc)

  module _ (h : Heap State) (size : ℕ) (xs : List Block) (is : IsHeap P h xs)
      (fits : h.heap_limit + size + 8196 < 2 ^ 32) where
    abbrev rounded : ℕ
    rounded = (size + 3) / 4 * 4

    found-IsHeap :
        (g : Heap State) (a : ℕ) (ys : List Block)
        → Finds rounded xs a ys
        → Chain g.blocks h.first_block ys
        → IsLocal P h.first_block h g
        → IsHeap P g ys
    found-IsHeap g a ys f c loc = record {
      whole = record {
        chain = rw loc.first c;
        layout = rw loc.limit (Finds-Layout rounded 1 h.heap_limit (omega arith) f is.whole.layout);
        bounded = rw loc.limit is.whole.bounded;
      };
      some_block = Finds-ne f;
      page = rw loc.limit is.page;
    }

    allocated-IsHeap :
        (r : Run State ℕ)
        → Allocates P h h.first_block rounded xs r
        → (p : ℕ) (g : Heap State) → r ≡ ok p g
        → (ys : List Block) × IsHeap P g ys
    allocated-IsHeap r (fitted g a ys e f c loc) p k e' =
        (ys, rw (ok-injective (sym e ∙ e')).1 at (found-IsHeap g a ys f c loc))
    allocated-IsHeap r (extended g e miss c below first lim) p k e' =
        let same = (ok-injective (sym e ∙ e')).1 in
        let room : rounded + header_size ≤ pages_for rounded * 4096 = omega arith in
        (
          xs ++ grown h.heap_limit rounded (pages_for rounded),
          rw same at (
              let r : IsHeap P g (xs ++ grown h.heap_limit rounded (pages_for rounded)) = record {
                whole = record {
                  chain = rw first c;
                  layout = rw lim (
                      append-Layout 1 h.heap_limit (h.heap_limit + pages_for rounded * 4096) xs _
                        is.whole.layout
                        (grown-Layout h.heap_limit rounded (pages_for rounded) is.page (omega arith)
                          room));
                  bounded = omega (arith, lim);
                };
                some_block = append-ne xs _ is.some_block;
                page = omega (arith, lim, is.page);
              } in
              r),
        )
    allocated-IsHeap r (refused g e miss ext) p k e' =
        let same = (ok-injective (sym e ∙ e')).1 in
        (
          xs,
          rw same at (
              let r : IsHeap P g xs = record {
                whole = record {
                  chain = rw (ext.blocks, ext.first) is.whole.chain;
                  layout =
                      Layout-weaken 1 1 h.heap_limit g.heap_limit xs (omega arith) ext.above
                        is.whole.layout;
                  bounded = omega (arith, ext.within);
                };
                some_block = is.some_block;
                page = omega (arith, ext.aligned, is.page);
              } in
              r),
        )
    allocated-IsHeap r (stopped e miss) p k e' = absurd (cc)

    restored :
        (k : ℕ)
        → IsCoalesced xs
        → length xs + 1 < k
        → (NoneFits rounded xs → ⊥)
        → (r : Run State ℕ) → Allocates P h h.first_block rounded xs r
        → (p : ℕ) × (g : Heap State) × (k' : Heap State) × (r ≡ ok p g)
          × (kfree P k p g ≡ ok tt k')
          × IsHeap P k' xs
    restored k c more some_fits r (fitted g a ys e f ch loc) =
        let there = found-IsHeap g a ys f ch loc in
        let (k', e', back, lim, fst) =
          kfree-IsHeap P k g a ys there (HasBlock-Finds f) (omega (arith, length-Finds f)) in
        let undone = release-Finds 1 h.heap_limit f is.whole.layout c in
        (a + header_size, g, k', e, e', rw undone at back)
    restored k c more some_fits r (extended g e miss c' below first lim) = absurd (some_fits miss)
    restored k c more some_fits r (refused g e miss ext) = absurd (some_fits miss)
    restored k c more some_fits r (stopped e miss) = absurd (some_fits miss)

  -- Under the conditions of `kmalloc-Allocates`, whenever `kmalloc` returns, with a block or with
  -- NULL, the heap stands again for a list of blocks that lie apart from one another.
  pub kmalloc-IsHeap :
      (fuel : ℕ) (h : Heap State) (size : ℕ) (xs : List Block)
      → IsHeap P h xs
      → 0 < size
      → length xs < fuel
      → h.heap_limit + size + 8196 < 2 ^ 32
      → (p : ℕ) (g : Heap State) → kmalloc P fuel size h ≡ ok p g
      → (ys : List Block) × IsHeap P g ys
  kmalloc-IsHeap fuel h size xs is pos more fits p g e =
      allocated-IsHeap h size xs is fits (kmalloc P fuel size h)
        (kmalloc-Allocates P fuel h size xs is pos more fits) p g e

  -- On a heap without free neighbours, where some free block is large enough and the fuel is above
  -- the number of blocks by two, `kmalloc` returns a block, and `kfree` of that block gives back
  -- the list of blocks there was before.
  pub kfree-kmalloc :
      (fuel : ℕ) (h : Heap State) (size : ℕ) (xs : List Block)
      → IsHeap P h xs
      → IsCoalesced xs
      → 0 < size
      → length xs + 1 < fuel
      → h.heap_limit + size + 8196 < 2 ^ 32
      → (NoneFits ((size + 3) / 4 * 4) xs → ⊥)
      → (p : ℕ) × (g : Heap State) × (g' : Heap State) × (kmalloc P fuel size h ≡ ok p g)
        × (kfree P fuel p g ≡ ok tt g')
        × IsHeap P g' xs
  kfree-kmalloc fuel h size xs is c pos more fits some_fits =
      restored h size xs is fits fuel c more some_fits (kmalloc P fuel size h)
        (kmalloc-Allocates P fuel h size xs is pos (omega arith) fits)

  -- Under the conditions of `kfree-IsHeap`, no free block follows a free block after `kfree`, and
  -- the blocks in use are the same as before, but for the one that was given back.
  pub kfree-IsCoalesced :
      (fuel : ℕ) (h : Heap State) (a : ℕ) (xs : List Block)
      → IsHeap P h xs
      → HasBlock a xs
      → length xs < fuel
      → (g : Heap State) × (ys : List Block) × (kfree P fuel (a + header_size) h ≡ ok tt g)
        × IsHeap P g ys
        × IsCoalesced ys
        × (live ys ≡ live (release a xs))
  kfree-IsCoalesced fuel h a [] is m more = absurd m
  kfree-IsCoalesced fuel h a (x ∷ xs) is m more =
      let (g, e, there, lim, fst) = kfree-IsHeap P fuel h a (x ∷ xs) is m more in
      let y = record x { free = x.addr == a || x.free } in
      (
        g,
        coalesce (release a (x ∷ xs)),
        e,
        there,
        merge_from-IsCoalesced y (release a xs),
        merge_from-live y (release a xs),
      )

  -- A request within 16 bytes of 4 GiB wraps round when the header is added, and `expand_heap` asks
  -- for one page at most before it places a block that claims the whole size.
  pub expand_heap_wraps :
      (h : Heap State) (size last : ℕ)
      → 2 ^ 32 ≤ size + header_size
      → size < 2 ^ 32
      → (n : ℕ) × (n ≤ 1)
        × (expand_heap P size last h
            ≡ after_pages P h.heap_limit size
                (size + header_size - 2 ^ 32)
                n
                (if last == 0 then h.first_block else last)
                (add_pages P n h))
  unfolding expand_heap
  expand_heap_wraps h size last big small =
      let wrapped : u32 (size + header_size) ≡ size + header_size - 2 ^ 32 = omega arith in
      (u32 (size + header_size - 2 ^ 32 + 4095) / 4096, omega arith, rw wrapped refl)
