-- ===== src/Vmm/Map.antt =====
-- `map_page` and `unmap_page`: what they do to the translation of every address.
use os_from_scratch.Common.{
  ℕ, ◌+◌, ◌*◌, ◌/◌, ◌%◌, ◌^◌, ◌<◌, ◌≡◌, ◌⊎◌, inl, inr, refl, ◌∙◌, arith, bit_and, bit_or, ◌&&◌,
  ◌==◌, if◌then◌else◌, Bool-cases, ==→eq, ◌∷◌,
}
use os_from_scratch.Common.Word.{store}
use os_from_scratch.Pmm.{pmm_alloc_page}
use os_from_scratch.Vmm.{
  Vmm, done, panicked, ensure_table, write_entry, map_page, unmap_page, get_physical_address,
}
use os_from_scratch.Vmm.Entry.{present_bit, with_flags, frame_mask, table_index}
use os_from_scratch.Vmm.Valid.{
  IsPresent, IsValid, Grows, Grows-refl, table_frame, leaf, translate, word_of_entry,
  get_physical_address-translate,
}
use os_from_scratch.Vmm.Table.{IsEnsured, ensure_table_lem}

-- What an entry `value` translates the offset `off` to.
abbrev value_at : ℕ → ℕ → ℕ
value_at value off = if value % 2 == 0 then 0 else value / 4096 * 4096 + off

module _ (s : Vmm) (valid : IsValid s) (d i : ℕ) (inside : d < 1024) (row : i < 1024)
    (present : IsPresent s d) (value : ℕ) (small : value < 2 ^ 32) (va : ℕ) where
  abbrev written : Vmm
  written = write_entry (s.directory d) i value va s

  written-memory :
      (k : ℕ) → written.memory k ≡ (if k == table_frame s d * 1024 + i then value else s.memory k)
  unfolding write_entry store
  written-memory k = rw (word_of_entry (s.directory d) i (valid.entries d))

  written-IsValid : IsValid written
  unfolding write_entry
  written-IsValid = record {
    entries = valid.entries;
    words = λ k. ground (arith, written-memory k, valid.words k);
    frames = valid.frames;
    taken = valid.taken;
    distinct = valid.distinct;
  }

  word_eq :
      (e j : ℕ)
      → e < 1024
      → j < 1024
      → IsPresent s e
      → (table_frame s e * 1024 + j == table_frame s d * 1024 + i) ≡ (e == d && j == i)
  word_eq e j he hj p = ground (arith, valid.distinct e d he inside, present)

  written-leaf :
      (e j : ℕ)
      → e < 1024
      → j < 1024
      → IsPresent s e
      → written.memory (table_frame s e * 1024 + j)
        ≡ (if e == d && j == i then value else leaf s e j)
  written-leaf e j he hj p = written-memory (table_frame s e * 1024 + j) ∙ rw (word_eq e j he hj p)

  -- Only the one entry changes.
  written-translate :
      (e j off : ℕ)
      → e < 1024
      → j < 1024
      → translate written e j off
        ≡ (if e == d && j == i then value_at value off else translate s e j off)
  unfolding translate write_entry
  written-translate e j off he hj = elim (Bool-cases (s.directory e % 2 == 0)) [
    | inl absent ↦ rw absent (ground arith)
    | inr there ↦
        rw (there, written-leaf e j he hj (ground arith))
          (elim (Bool-cases (e == d && j == i)) [ inl hit ↦ rw hit refl | inr miss ↦ rw miss refl ])
  ]

-- `t` maps the page of `va` to the frame of `pa`, flushed that page from the TLB, and translates
-- every other address as `s` does.
pub record IsMapped (va pa : ℕ) (s t : Vmm) : Type 0 where
  pub valid : IsValid t
  pub translates :
      (a : ℕ)
      → a < 2 ^ 32
      → get_physical_address a t
        ≡ (if a / 4096 == va / 4096 then pa / 4096 * 4096 + a % 4096 else get_physical_address a s)
  pub flushed : t.flushed ≡ va ∷ s.flushed
  pub grows : Grows s.pmm t.pmm

-- One page has one pair of indices.
page_eq :
    (a va : ℕ)
    → (a / 2 ^ 22 == va / 2 ^ 22 && a / 4096 % 1024 == va / 4096 % 1024) ≡ (a / 4096 == va / 4096)
page_eq a va = ground arith

-- A write through the table of `t`, where `t` translates as `s` does.
write_entry-translates :
    (s t : Vmm) (va value a : ℕ)
    → IsValid s
    → IsEnsured (va / 2 ^ 22) s t
    → value < 2 ^ 32
    → va < 2 ^ 32
    → a < 2 ^ 32
    → get_physical_address a (write_entry (t.directory (va / 2 ^ 22)) (va / 4096 % 1024) value va t)
      ≡ (if a / 4096 == va / 4096 then value_at value (a % 4096) else get_physical_address a s)
write_entry-translates s t va value a valid en small hv ha =
    let d = va / 2 ^ 22 in
    let i = va / 4096 % 1024 in
    let here : d < 1024 = omega arith in
    let there : a / 2 ^ 22 < 1024 = omega arith in
    let row : i < 1024 = omega arith in
    let col : a / 4096 % 1024 < 1024 = omega arith in
    rw (
      get_physical_address-translate a (write_entry (t.directory d) i value va t)
          (written-IsValid t en.valid d i here row en.present value small va),
      get_physical_address-translate a s valid,
      written-translate t en.valid d i here row en.present value small va (a / 2 ^ 22)
          (a / 4096 % 1024) (a % 4096) there col,
      page_eq a va,
      en.same (a / 2 ^ 22) (a / 4096 % 1024) (a % 4096) there col,
    )

-- The entry that `map_page` writes.
entry_of : (pa : ℕ) → pa < 2 ^ 32 → bit_or (bit_and pa 0xFFFFF000) 3 ≡ pa / 4096 * 4096 + 3
entry_of pa h = rw (frame_mask pa h) (with_flags (pa / 4096))

value_at-entry : (pa off : ℕ) → value_at (pa / 4096 * 4096 + 3) off ≡ pa / 4096 * 4096 + off
value_at-entry pa off = ground arith

map_page-of :
    (va pa : ℕ) (s t : Vmm)
    → va < 2 ^ 32
    → pa < 2 ^ 32
    → IsValid s
    → ensure_table (va / 2 ^ 22) s ≡ done t
    → IsEnsured (va / 2 ^ 22) s t
    → (u : Vmm) × (map_page va pa s ≡ done u) × IsMapped va pa s u
unfolding map_page
map_page-of va pa s t hv hp valid e en =
    let value = pa / 4096 * 4096 + 3 in
    let u = write_entry (t.directory (va / 2 ^ 22)) (va / 4096 % 1024) value va t in
    (
      u,
      rw (e, table_index (va / 2 ^ 12), entry_of pa hp) refl,
      record {
        valid =
            written-IsValid t en.valid (va / 2 ^ 22) (va / 4096 % 1024) (omega arith) (omega arith)
              en.present value (omega arith) va;
        translates = λ a ha.
            write_entry-translates s t va value a valid en (omega arith) hv ha
            ∙ rw (value_at-entry pa (a % 4096));
        flushed = unfold write_entry in rw en.flushed;
        grows = unfold write_entry in en.grows;
      },
    )

-- On valid tables `map_page` either maps the page of `va` to the frame of `pa` and nothing else, or
-- panics; it panics only when the directory has no table for `va` and no page is left for one.
pub map_page_lem :
    (va pa : ℕ) (s : Vmm)
    → va < 2 ^ 32
    → pa < 2 ^ 32
    → IsValid s
    → ((t : Vmm) × (map_page va pa s ≡ done t) × IsMapped va pa s t)
      ⊎ ((map_page va pa s ≡ panicked)
          × (s.directory (va / 2 ^ 22) % 2 ≡ 0)
          × ((pmm_alloc_page s.pmm).0 ≡ 0))
map_page_lem va pa s hv hp valid = elim (ensure_table_lem s (va / 2 ^ 22) valid (omega arith)) [
  | inl (t, e, en) ↦ inl (map_page-of va pa s t hv hp valid e en)
  | inr (e, absent, full) ↦ inr (unfold map_page in rw e refl, absent, full)
]

-- Without a table nothing in the page is mapped.
no_table :
    (va a : ℕ) (s : Vmm)
    → IsValid s
    → s.directory (va / 2 ^ 22) % 2 ≡ 0
    → get_physical_address a s ≡ (if a / 4096 == va / 4096 then 0 else get_physical_address a s)
no_table va a s valid absent = elim (Bool-cases (a / 4096 == va / 4096)) [
  | inr other ↦ rw other refl
  | inl same ↦
      (let e : a / 2 ^ 22 ≡ va / 2 ^ 22 = omega (arith, ==→eq (a / 4096) (va / 4096) same) in
        rw (same, get_physical_address-translate a s valid, e) (unfold translate in rw absent refl))
]

-- On valid tables `unmap_page` leaves the page of `va` without a translation, leaves that of every
-- other page as it was, and keeps the tables valid.
pub unmap_page_lem :
    (va : ℕ) (s : Vmm)
    → va < 2 ^ 32
    → IsValid s
    → IsValid (unmap_page va s)
      × ((a : ℕ)
          → a < 2 ^ 32
          → get_physical_address a (unmap_page va s)
            ≡ (if a / 4096 == va / 4096 then 0 else get_physical_address a s))
unfolding unmap_page
unmap_page_lem va s hv valid = elim (Bool-cases (s.directory (va / 2 ^ 22) % 2 == 0)) [
  | inl absent ↦
      rw (present_bit (s.directory (va / 2 ^ 22)), absent)
        (valid, λ a ha. no_table va a s valid (==→eq _ _ absent))
  | inr there ↦
      (let en : IsEnsured (va / 2 ^ 22) s s = record {
        valid = valid;
        present = ground arith;
        same = λ e i off he hi. refl;
        flushed = refl;
        grows = Grows-refl s.pmm;
      } in
        rw (present_bit (s.directory (va / 2 ^ 22)), there, table_index (va / 2 ^ 12))
          (
            written-IsValid s valid (va / 2 ^ 22) (va / 4096 % 1024) (omega arith) (omega arith)
                en.present 0 (omega arith) va,
            λ a ha. write_entry-translates s s va 0 a valid en (omega arith) hv ha,
          ))
]
