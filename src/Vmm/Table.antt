-- ===== src/Vmm/Table.antt =====
-- `ensure_table`: a new page table changes no translation.
use os_from_scratch.Common.{
  ℕ, ◌+◌, ◌*◌, ◌/◌, ◌%◌, ◌^◌, ◌<◌, ◌≡◌, ◌≢◌, ◌⊎◌, inl, inr, refl, ap, arith, ltb, leb, ◌&&◌, ◌==◌,
  if◌then◌else◌, false, Bool-cases, ==→eq,
}
use os_from_scratch.Common.Word.{store}
use os_from_scratch.Memory.{mset}
use os_from_scratch.Memory.Fill.{mset_lem}
use os_from_scratch.Pmm.{Pmm, pmm_alloc_page}
use os_from_scratch.Pmm.Bitmap.{frame_bit}
use os_from_scratch.Pmm.Alloc.{IsLowest, IsTaken, pmm_alloc_page_lem}
use os_from_scratch.Vmm.{Vmm, Run, done, panicked, alloc_page_table, ensure_table}
use os_from_scratch.Vmm.Entry.{present_bit, with_flags}
use os_from_scratch.Vmm.Valid.{IsPresent, IsValid, Grows, Grows-refl, table_frame, translate}

-- `t` is `s` with a table for directory entry `d`, which maps nothing that `s` did not map.
pub record IsEnsured (d : ℕ) (s t : Vmm) : Type 0 where
  pub valid : IsValid t
  pub present : IsPresent t d
  pub same : (e i off : ℕ) → e < 1024 → i < 1024 → translate t e i off ≡ translate s e i off
  pub flushed : t.flushed ≡ s.flushed
  pub grows : Grows s.pmm t.pmm

-- The memory after `mset(page_table, 0, 4096)` on frame `n`.
cleared :
    (memory : ℕ → ℕ) (n : ℕ)
    → ((k : ℕ) → memory k < 2 ^ 32)
    → (j : ℕ)
    → mset memory (n * 4096) 0 4096 j
      ≡ (if leb (n * 1024) j && ltb j (n * 1024 + 1024) then 0 else memory j)
cleared memory n small j =
    let at : n * 4096 ≡ 4 * (n * 1024) = omega arith in
    rw at (mset_lem memory (n * 1024) 0 1024 small j)

module _ (s : Vmm) (valid : IsValid s) (d n : ℕ) (inside : d < 1024)
    (absent : s.directory d % 2 ≡ 0) (low : IsLowest s.pmm n) {pmm : Pmm}
    (taken : IsTaken s.pmm n pmm) where
  abbrev fresh : Vmm
  fresh = record s {
    pmm = pmm;
    memory = mset s.memory (n * 4096) 0 4096;
    directory = store s.directory d (n * 4096 + 3);
  }

  abbrev entry : ℕ → ℕ
  entry = store s.directory d (n * 4096 + 3)

  entry_lem : (e : ℕ) → entry e ≡ (if e == d then n * 4096 + 3 else s.directory e)
  unfolding store
  entry_lem e = refl

  -- No other table lies in the new frame.
  frame_ne : (e : ℕ) → e < 1024 → IsPresent s e → table_frame s e ≢ n
  frame_ne e h p eq =
      absurd (omega (arith, ap (frame_bit s.pmm.bitmap) eq, valid.taken e h p, low.free))

  fresh-IsValid : IsValid fresh
  fresh-IsValid = record {
    entries = λ e. ground (arith, entry_lem e, valid.entries e, low.below, valid.frames);
    words = λ i. ground (arith, cleared s.memory n valid.words i, valid.words i);
    frames = omega (arith, taken.same_frames, valid.frames);
    taken = λ e h p. ground (arith, entry_lem e, taken.bits (entry e / 4096), valid.taken e h);
    distinct = λ e f he hf p q same.
        ground
          (arith, entry_lem e, entry_lem f, frame_ne e he, frame_ne f hf, valid.distinct e f he hf);
  }

  fresh-same : (e i off : ℕ) → e < 1024 → i < 1024 → translate fresh e i off ≡ translate s e i off
  unfolding translate
  fresh-same e i off he hi = ground (
    arith,
    entry_lem e,
    frame_ne e he,
    cleared s.memory n valid.words (entry e / 4096 * 1024 + i),
  )

  fresh-IsEnsured : IsEnsured d s fresh
  fresh-IsEnsured = record {
    valid = fresh-IsValid;
    present = ground (arith, entry_lem d);
    same = fresh-same;
    flushed = refl;
    grows = record {
      same_frames = taken.same_frames;
      still_taken = λ k h. ground (arith, taken.bits k);
    };
  }

-- What `ensure_table` does: it panics when the entry is not present and no page is free, and
-- otherwise leaves a table in place.
abbrev Outcome : ℕ → Vmm → Run → Type 0
Outcome d s r =
    ((t : Vmm) × (r ≡ done t) × IsEnsured d s t)
    ⊎ ((r ≡ panicked) × (s.directory d % 2 ≡ 0) × ((pmm_alloc_page s.pmm).0 ≡ 0))

pub ensure_table_lem : (s : Vmm) (d : ℕ) → IsValid s → d < 1024 → Outcome d s (ensure_table d s)
unfolding ensure_table alloc_page_table
ensure_table_lem s d valid inside = elim (Bool-cases (s.directory d % 2 == 0)) [
  | inr there ↦ inl (
    s,
    rw (present_bit (s.directory d), there),
    record {
      valid = valid;
      present = ground arith;
      same = λ e i off he hi. refl;
      flushed = refl;
      grows = Grows-refl s.pmm;
    },
  )
  | inl absent ↦ elim (pmm_alloc_page_lem s.pmm (omega (arith, valid.frames))) [
    | inr (all, e) ↦ inr (rw (present_bit (s.directory d), absent, e), ==→eq _ _ absent, rw e)
    | inl (n, low, addr, taken) ↦ elim (Bool-cases (n == 0)) [
      | inl zero_frame ↦
          (let none_left : (pmm_alloc_page s.pmm).0 ≡ 0 = ground arith in
            inr (rw (present_bit (s.directory d), absent, none_left), ==→eq _ _ absent, none_left))
      | inr nonzero ↦
          (let given : (n * 4096 == 0) ≡ false = ground arith in
            inl (
              fresh s valid d n inside (==→eq _ _ absent) low taken,
              rw (present_bit (s.directory d), absent, addr, given, given, with_flags n),
              fresh-IsEnsured s valid d n inside (==→eq _ _ absent) low taken,
            ))
    ]
  ]
]
