-- ===== src/Pmm/Alloc.antt =====
-- `pmm_alloc_page` and `pmm_free_page` against the set of taken frames.
use os_from_scratch.Common.{
  ℕ, zero, suc, ◌+◌, ◌-◌, ◌*◌, ◌/◌, ◌%◌, ◌^◌, ◌≤◌, ◌<◌, ◌≡◌, ◌≢◌, ◌⊎◌, not, ◌&&◌, inl, inr, refl,
  ◌∙◌, Option, none, some, subst, ap, arith, ◌==◌, if◌then◌else◌, ltb, ltb→lt, ltb→ge, ==→ne, ==→eq,
  Bool-cases, bit_and,
}
use os_from_scratch.Common.Bits.{digit, digit-le, bit_and_pow, digit-complement, digit-zero}
use native.Mathlib.Nat.{one-le-pow}
use os_from_scratch.Common.Word.{u32}
use os_from_scratch.Pmm.{Pmm, page_size, scan_bits, scan_words, pmm_alloc_page, pmm_free_page}
use os_from_scratch.Pmm.Bitmap.{frame_bit, frame_bit-set_bit, frame_bit-clear_bit}

-- The test of the inner loop reads digit `j`.
bit_and-clear : (w j : ℕ) → (bit_and w (2 ^ j) == 0) ≡ (digit w j == 0)
bit_and-clear w j = ground (arith, bit_and_pow w j, one-le-pow j 2, digit-le w j)

-- What a scan that starts at `lo` and covers the indices below `hi` finds in the digits `d`.
abbrev First : (ℕ → ℕ) → ℕ → ℕ → Option ℕ → Type 0
First d lo hi none = (k : ℕ) → lo ≤ k → k < hi → d k ≡ 1
First d lo hi (some n) = (lo ≤ n) × (n < hi) × (d n ≡ 0) × ((k : ℕ) → lo ≤ k → k < n → d k ≡ 1)

First-suc :
    (d : ℕ → ℕ) (lo hi : ℕ) (r : Option ℕ) → d lo ≡ 1 → First d (lo + 1) hi r → First d lo hi r
First-suc d lo hi none e h = λ k p q. elim (Bool-cases (k == lo)) [
  | inl same ↦ rw (==→eq k lo same) e
  | inr other ↦ (let ne : k ≢ lo = ==→ne k lo other in h k (omega arith) q)
]
First-suc d lo hi (some n) e h = (
  omega arith,
  h.1,
  h.2,
  λ k p q. elim (Bool-cases (k == lo)) [
    | inl same ↦ rw (==→eq k lo same) e
    | inr other ↦ (let ne : k ≢ lo = ==→ne k lo other in h.3 k (omega arith) q)
  ],
)

scan_bits-First : (w left j hi : ℕ) → j + left ≡ hi → First (digit w) j hi (scan_bits w left j)
unfolding scan_bits
scan_bits-First w zero j hi e = λ k p q. absurd (omega arith)
scan_bits-First w (suc left) j hi e = elim (Bool-cases (bit_and w (2 ^ j) == 0)) [
  | inl free ↦
      rw free
        (omega arith, omega arith, ground (arith, bit_and-clear w j), λ k p q. absurd (omega arith))
  | inr taken ↦ rw taken (
      First-suc (digit w) j hi _ (ground (arith, bit_and-clear w j, digit-le w j))
        (scan_bits-First w left (j + 1) hi (omega arith)))
]

First-skip :
    (d : ℕ → ℕ) (lo mid hi : ℕ) (r : Option ℕ)
    → lo ≤ mid
    → ((k : ℕ) → lo ≤ k → k < mid → d k ≡ 1)
    → First d mid hi r
    → First d lo hi r
First-skip d lo mid hi none m e h = λ k p q. elim (Bool-cases (ltb k mid)) [
  | inl below ↦ e k p (ltb→lt k mid below)
  | inr above ↦ h k (ltb→ge k mid above) q
]
First-skip d lo mid hi (some n) m e h = (
  omega arith,
  h.1,
  h.2,
  λ k p q. elim (Bool-cases (ltb k mid)) [
    | inl below ↦ e k p (ltb→lt k mid below)
    | inr above ↦ h.3 k (ltb→ge k mid above) q
  ],
)

-- The frames of word `i`.
frame_bit_in_word :
    (bitmap : ℕ → ℕ) (i k : ℕ)
    → i * 32 ≤ k
    → k < i * 32 + 32
    → frame_bit bitmap k ≡ digit (bitmap i) (k - i * 32)
unfolding frame_bit
frame_bit_in_word bitmap i k p q =
    let row : k / 32 ≡ i = omega arith in
    let col : k % 32 ≡ k - i * 32 = omega arith in rw (row, col)

full_word :
    (bitmap : ℕ → ℕ) (i : ℕ)
    → bitmap i ≡ 0xFFFFFFFF
    → (k : ℕ) → i * 32 ≤ k
    → k < i * 32 + 32
    → frame_bit bitmap k ≡ 1
full_word bitmap i e k p q =
    rw (frame_bit_in_word bitmap i k p q, e)
      (omega (
        arith,
        digit-complement 32 0 (k - i * 32) (omega arith) (omega arith),
        digit-zero (k - i * 32),
      ))

-- What the inner loop found in word `i`, put in front of what the later words give.
abbrev in_word : ℕ → Option ℕ → Option ℕ → Option ℕ
in_word i found rest = elim found [ none ↦ rest | some j ↦ some (i * 32 + j) ]

in_word-First :
    (bitmap : ℕ → ℕ) (i hi : ℕ) (found rest : Option ℕ)
    → i < hi
    → First (digit (bitmap i)) 0 32 found
    → First (frame_bit bitmap) (i * 32 + 32) (hi * 32) rest
    → First (frame_bit bitmap) (i * 32) (hi * 32) (in_word i found rest)
in_word-First bitmap i hi none rest lt f r =
    First-skip (frame_bit bitmap) (i * 32) (i * 32 + 32) (hi * 32) rest (omega arith)
      (λ k p q. rw (frame_bit_in_word bitmap i k p q) (f (k - i * 32) (omega arith) (omega arith)))
      r
in_word-First bitmap i hi (some j) rest lt f r = (
  omega arith,
  omega arith,
  rw (frame_bit_in_word bitmap i (i * 32 + j) (omega arith) (omega arith)) (rw back f.2),
  λ k p q.
      rw (frame_bit_in_word bitmap i k p (omega arith))
        (f.3 (k - i * 32) (omega arith) (omega arith)),
)
  where
    back : i * 32 + j - i * 32 ≡ j
    back = omega arith

scan_words-First :
    (bitmap : ℕ → ℕ) (left i hi : ℕ)
    → i + left ≡ hi
    → First (frame_bit bitmap) (i * 32) (hi * 32) (scan_words bitmap left i)
unfolding scan_words
scan_words-First bitmap zero i hi e = λ k p q. absurd (omega arith)
scan_words-First bitmap (suc left) i hi e =
    let next_word : (i + 1) * 32 ≡ i * 32 + 32 = omega arith in
    let later : First (frame_bit bitmap) (i * 32 + 32) (hi * 32) (scan_words bitmap left (i + 1)) =
      subst (λ t. First (frame_bit bitmap) t (hi * 32) (scan_words bitmap left (i + 1))) next_word
        (scan_words-First bitmap left (i + 1) hi (omega arith)) in
    elim (Bool-cases (bitmap i == 0xFFFFFFFF)) [
      | inl full ↦ rw full (
          First-skip (frame_bit bitmap) (i * 32) (i * 32 + 32) (hi * 32) _ (omega arith)
            (full_word bitmap i (==→eq _ _ full)) later)
      | inr room ↦ rw room (
          in_word-First bitmap i hi (scan_bits (bitmap i) 32 0) (scan_words bitmap left (i + 1))
            (omega arith) (scan_bits-First (bitmap i) 32 0 32 (omega arith)) later)
    ]

First-unique :
    (d : ℕ → ℕ) (lo hi n : ℕ) (r : Option ℕ) → First d lo hi r → First d lo hi (some n) → r ≡ some n
First-unique d lo hi n none f g = absurd (omega (arith, f n g.0 g.1, g.2))
First-unique d lo hi n (some m) f g = ap some (elim (Bool-cases (ltb m n)) [
  | inl lt ↦ absurd (omega (arith, g.3 m f.0 (ltb→lt m n lt), f.2))
  | inr ge ↦ elim (Bool-cases (ltb n m)) [
    | inl gt ↦ absurd (omega (arith, f.3 n g.0 (ltb→lt n m gt), g.2))
    | inr le ↦ omega (arith, ltb→ge m n ge, ltb→ge n m le)
  ]
])

-- Every word of the bitmap is scanned, but for the last one if it is not full.
abbrev pub scanned : Pmm → ℕ
scanned s = s.max_frames / 32 * 32

-- Frame `n` is the lowest one that is free.
pub record IsLowest (s : Pmm) (n : ℕ) : Type 0 where
  pub below : n < scanned s
  pub free : frame_bit s.bitmap n ≡ 0
  pub lower : (k : ℕ) → k < n → frame_bit s.bitmap k ≡ 1

-- `t` is `s` with frame `n` taken.
pub record IsTaken (s : Pmm) (n : ℕ) (t : Pmm) : Type 0 where
  pub bits : (k : ℕ) → frame_bit t.bitmap k ≡ (if k == n then 1 else frame_bit s.bitmap k)
  pub same_frames : t.max_frames ≡ s.max_frames
  pub same_size : t.bitmap_size ≡ s.bitmap_size

-- The result of an allocation, by what the scan found.
abbrev Found : Pmm → Option ℕ → ℕ × Pmm → Type 0
Found s none r = r ≡ (0, s)
Found s (some n) r = (r.0 ≡ u32 (n * page_size)) × IsTaken s n r.1

module _ (s : Pmm) where
  scan : Option ℕ
  scan = scan_words s.bitmap (s.max_frames / 32) 0

  pmm_alloc_page-Found : (r : Option ℕ) → scan ≡ r → Found s r (pmm_alloc_page s)
  unfolding pmm_alloc_page scan
  pmm_alloc_page-Found none e = rw (e, pmm_alloc_page) refl
  pmm_alloc_page-Found (some n) e =
      rw (e, pmm_alloc_page)
        (refl, record { bits = frame_bit-set_bit s.bitmap n; same_frames = refl; same_size = refl })

  scan-First : First (frame_bit s.bitmap) 0 (scanned s) scan
  unfolding scan
  scan-First = scan_words-First s.bitmap (s.max_frames / 32) 0 (s.max_frames / 32) (omega arith)

  -- The lowest free frame is the one that is returned.
  pub alloc-IsLowest :
      (n : ℕ)
      → IsLowest s n
      → s.max_frames ≤ 2 ^ 20
      → ((pmm_alloc_page s).0 ≡ n * page_size) × IsTaken s n (pmm_alloc_page s).1
  alloc-IsLowest n low fits =
      let found = pmm_alloc_page-Found (some n) (
        First-unique (frame_bit s.bitmap) 0 (scanned s) n scan scan-First
          (omega arith, low.below, low.free, λ k p q. low.lower k q)) in
      (omega (arith, found.0, low.below), found.1)

  Outcome : ℕ × Pmm → Type 0
  Outcome r =
      ((n : ℕ) × IsLowest s n × (r.0 ≡ n * page_size) × IsTaken s n r.1)
      ⊎ (((k : ℕ) → k < scanned s → frame_bit s.bitmap k ≡ 1) × (r ≡ (0, s)))

  pmm_alloc_page-Outcome :
      (r : Option ℕ) → scan ≡ r → s.max_frames ≤ 2 ^ 20 → Outcome (pmm_alloc_page s)
  unfolding Outcome
  pmm_alloc_page-Outcome none e fits =
      inr (λ k q. (rw e at scan-First) k (omega arith) q, pmm_alloc_page-Found none e)
  pmm_alloc_page-Outcome (some n) e fits =
      let f : First (frame_bit s.bitmap) 0 (scanned s) (some n) = rw e at scan-First in
      let low : IsLowest s n = record {
        below = f.1;
        free = f.2;
        lower = λ k q. f.3 k (omega arith) q;
      } in
      let got = alloc-IsLowest n low fits in inl (n, low, got.0, got.1)

-- `pmm_alloc_page` on a machine of at most 4 GiB: either it takes the lowest free frame, returns
-- the address of that frame and changes no other bit, or every frame that it scans is taken, and
-- then it returns 0 and leaves the state as it was.
pub pmm_alloc_page_lem :
    (s : Pmm)
    → s.max_frames ≤ 2 ^ 20
    → ((n : ℕ) × IsLowest s n
        × ((pmm_alloc_page s).0 ≡ n * page_size)
        × IsTaken s n (pmm_alloc_page s).1)
      ⊎ (((k : ℕ) → k < scanned s → frame_bit s.bitmap k ≡ 1) × (pmm_alloc_page s ≡ (0, s)))
unfolding Outcome
pmm_alloc_page_lem s fits = pmm_alloc_page-Outcome s (scan s) refl fits

-- `pmm_free_page` clears the bit of the frame at `addr` when `addr` is a frame's address other
-- than 0 and lies inside memory; for every other address it changes no bit.
pub pmm_free_page_lem :
    (addr : ℕ) (s : Pmm)
    → s.max_frames < 2 ^ 20
    → (k : ℕ)
    → frame_bit (pmm_free_page addr s).bitmap k ≡ (
        if not (addr == 0)
          && (ltb addr (s.max_frames * page_size)
              && (addr % page_size == 0 && k == addr / page_size))
        then 0
        else frame_bit s.bitmap k)
unfolding pmm_free_page
pmm_free_page_lem addr s fits k = ground (arith, frame_bit-clear_bit s.bitmap (addr / page_size) k)

pub free-max_frames : (addr : ℕ) (s : Pmm) → (pmm_free_page addr s).max_frames ≡ s.max_frames
unfolding pmm_free_page
free-max_frames addr s = ground arith

-- Freeing the page that was just allocated gives every frame its bit back, whatever was free,
-- unless the page is frame 0, whose address is also the answer of a failed allocation.
pub pmm_free_page-pmm_alloc_page :
    (s : Pmm)
    → s.max_frames < 2 ^ 20
    → (pmm_alloc_page s).0 ≢ 0
    → (k : ℕ)
    → frame_bit (pmm_free_page (pmm_alloc_page s).0 (pmm_alloc_page s).1).bitmap k
      ≡ frame_bit s.bitmap k
pmm_free_page-pmm_alloc_page s fits ne k = elim (pmm_alloc_page_lem s (omega arith)) [
  | inl (n, low, addr, taken) ↦ ground (
    arith,
    pmm_free_page_lem (pmm_alloc_page s).0 (pmm_alloc_page s).1 (omega arith) k,
    taken.bits k,
    low.free,
  )
  | inr (all, e) ↦ absurd (ne (ap (λ (r : ℕ × Pmm). r.0) e))
]

-- A frame that is freed while every lower one is taken is the lowest free frame.
IsLowest-free :
    (s : Pmm) (n : ℕ)
    → s.max_frames < 2 ^ 20
    → n ≢ 0
    → n < scanned s
    → ((k : ℕ) → k < n → frame_bit s.bitmap k ≡ 1)
    → IsLowest (pmm_free_page (n * page_size) s) n
IsLowest-free s n fits ne inside lower = record {
  below = rw (free-max_frames (n * page_size) s) inside;
  free = ground (arith, pmm_free_page_lem (n * page_size) s fits n);
  lower = λ k lt. ground (arith, pmm_free_page_lem (n * page_size) s fits k, lower k);
}

realloc_of :
    (s : Pmm) (n m : ℕ) (t u : Pmm)
    → s.max_frames < 2 ^ 20
    → n ≢ 0
    → IsLowest s n
    → IsTaken s n t
    → IsTaken t m u
    → (pmm_alloc_page (pmm_free_page (n * page_size) u)).0 ≡ n * page_size
realloc_of s n m t u fits ne low first second =
    let same : u.max_frames ≡ s.max_frames = second.same_frames ∙ first.same_frames in
    (alloc-IsLowest (pmm_free_page (n * page_size) u) n
      (IsLowest-free u n (omega arith) ne (rw same low.below)
        λ k lt. ground (arith, second.bits k, first.bits k, low.lower k))
      (omega (arith, free-max_frames (n * page_size) u))).0

-- The check of `tests/libc_test.cpp`: of two pages that were allocated one after the other, the
-- first, once it is freed, is the page that the next allocation returns.
pub pmm_realloc :
    (s : Pmm)
    → s.max_frames < 2 ^ 20
    → (pmm_alloc_page s).0 ≢ 0
    → (pmm_alloc_page (pmm_alloc_page s).1).0 ≢ 0
    → (pmm_alloc_page
        (pmm_free_page (pmm_alloc_page s).0 (pmm_alloc_page (pmm_alloc_page s).1).1)).0
      ≡ (pmm_alloc_page s).0
pmm_realloc s fits one two = elim (pmm_alloc_page_lem s (omega arith)) [
  | inr (all, e) ↦ absurd (one (ap (λ (r : ℕ × Pmm). r.0) e))
  | inl (n, low, addr, taken) ↦ elim (pmm_alloc_page_lem (pmm_alloc_page s).1 (omega arith)) [
    | inr (all, e) ↦ absurd (two (ap (λ (r : ℕ × Pmm). r.0) e))
    | inl (m, low', addr', taken') ↦ rw addr (
        realloc_of s n m (pmm_alloc_page s).1 (pmm_alloc_page (pmm_alloc_page s).1).1 fits
          (λ e. one (omega arith)) low taken taken')
  ]
]
