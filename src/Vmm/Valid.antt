-- ===== src/Vmm/Valid.antt =====
-- The invariant of the page tables, and address translation as arithmetic.
use os_from_scratch.Common.{
  ℕ, ◌+◌, ◌*◌, ◌/◌, ◌%◌, ◌^◌, ◌<◌, ◌≡◌, refl, ◌∙◌, arith, ◌==◌, if◌then◌else◌,
}
use os_from_scratch.Pmm.{Pmm}
use os_from_scratch.Pmm.Bitmap.{frame_bit}
use os_from_scratch.Vmm.{Vmm, get_physical_address, table_word}
use os_from_scratch.Vmm.Entry.{frame_mask, present_bit, table_index, page_offset, with_offset}

abbrev pub IsPresent : Vmm → ℕ → Type 0
IsPresent s d = s.directory d % 2 ≡ 1

-- The frame that directory entry `d` names.
abbrev pub table_frame : Vmm → ℕ → ℕ
table_frame s d = s.directory d / 4096

-- Each table lies in a frame that the page allocator holds as taken, and no two entries share one.
pub record IsValid (s : Vmm) : Type 0 where
  pub entries : (d : ℕ) → s.directory d < 2 ^ 32
  pub words : (i : ℕ) → s.memory i < 2 ^ 32
  pub frames : s.pmm.max_frames < 2 ^ 20
  pub taken : (d : ℕ) → d < 1024 → IsPresent s d → frame_bit s.pmm.bitmap (table_frame s d) ≡ 1
  pub distinct :
      (d e : ℕ)
      → d < 1024
      → e < 1024
      → IsPresent s d
      → IsPresent s e
      → table_frame s d ≡ table_frame s e
      → d ≡ e

-- `t` has the frames of `s`, and takes each frame that `s` takes.
pub record Grows (s t : Pmm) : Type 0 where
  pub same_frames : t.max_frames ≡ s.max_frames
  pub still_taken : (k : ℕ) → frame_bit s.bitmap k ≡ 1 → frame_bit t.bitmap k ≡ 1

pub Grows-refl : (s : Pmm) → Grows s s
Grows-refl s = record { same_frames = refl; still_taken = λ k h. h }

pub Grows-trans : (s t u : Pmm) → Grows s t → Grows t u → Grows s u
Grows-trans s t u first second = record {
  same_frames = second.same_frames ∙ first.same_frames;
  still_taken = λ k h. second.still_taken k (first.still_taken k h);
}

-- Entry `i` of the table behind directory entry `d`.
abbrev pub leaf : Vmm → ℕ → ℕ → ℕ
leaf s d i = s.memory (table_frame s d * 1024 + i)

-- What an address with directory index `d`, table index `i` and offset `off` translates to.
unfoldable pub translate : Vmm → ℕ → ℕ → ℕ → ℕ
translate s d i off =
    if s.directory d % 2 == 0
    then 0
    else if leaf s d i % 2 == 0
    then 0
    else leaf s d i / 4096 * 4096 + off

pub word_of_entry : (e i : ℕ) → e < 2 ^ 32 → table_word e i ≡ e / 4096 * 1024 + i
word_of_entry e i h = rw (frame_mask e h) (omega arith)

pub get_physical_address-translate :
    (va : ℕ) (s : Vmm)
    → IsValid s
    → get_physical_address va s ≡ translate s (va / 2 ^ 22) (va / 4096 % 1024) (va % 4096)
unfolding get_physical_address translate
get_physical_address-translate va s valid =
    let d = va / 2 ^ 22 in
    let e = s.directory d in
    rw (
      table_index (va / 2 ^ 12),
      page_offset va,
      present_bit e,
      word_of_entry e (va / 4096 % 1024) (valid.entries d),
      present_bit (leaf s d (va / 4096 % 1024)),
      frame_mask (leaf s d (va / 4096 % 1024)) (valid.words _),
      with_offset (leaf s d (va / 4096 % 1024) / 4096) (va % 4096) (omega arith),
    )
