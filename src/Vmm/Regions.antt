-- ===== src/Vmm/Regions.antt =====
-- `map_region`: its loop maps consecutive pages to consecutive frames.
use os_from_scratch.Common.{
  ℕ, zero, suc, ◌+◌, ◌-◌, ◌*◌, ◌/◌, ◌%◌, ◌^◌, ◌<◌, ◌≤◌, ◌≡◌, ◌⊎◌, inl, inr, refl, arith, true,
  false, Bool, ltb, leb, ◌&&◌, if◌then◌else◌,
}
use os_from_scratch.Common.Word.{u32}
use os_from_scratch.Vmm.{Vmm, Run, done, panicked, map_loop, map_region, get_physical_address}
use os_from_scratch.Vmm.Valid.{IsValid, Grows, Grows-refl, Grows-trans}
use os_from_scratch.Vmm.Map.{IsMapped, map_page_lem}

-- The page `p` is one of the `n` pages from that of `va` on.
abbrev pub in_pages : ℕ → ℕ → ℕ → Bool
in_pages va n p = leb (va / 4096) p && ltb p (va / 4096 + n)

-- `t` maps the `n` pages from `va` on to the frames from `pa` on, and translates every other
-- address as `s` does.
pub record IsRegion (va pa n : ℕ) (s t : Vmm) : Type 0 where
  pub valid : IsValid t
  pub translates :
      (a : ℕ)
      → a < 2 ^ 32
      → get_physical_address a t ≡ (
          if in_pages va n (a / 4096)
          then (pa / 4096 + (a / 4096 - va / 4096)) * 4096 + a % 4096
          else get_physical_address a s)
  pub grows : Grows s.pmm t.pmm

abbrev Outcome : ℕ → ℕ → ℕ → Vmm → Run → Type 0
Outcome va pa n s r = ((t : Vmm) × (r ≡ done t) × IsRegion va pa n s t) ⊎ (r ≡ panicked)

-- One page in front of `n` more.
IsRegion-suc :
    (i pa n : ℕ) (s t u : Vmm)
    → i + 4096 < 2 ^ 32
    → IsMapped i pa s t
    → IsRegion (i + 4096) (pa + 4096) n t u
    → IsRegion i pa (suc n) s u
IsRegion-suc i pa n s t u fits first rest = record {
  valid = rest.valid;
  translates = λ a ha. ground (arith, rest.translates a ha, first.translates a ha);
  grows = Grows-trans s.pmm t.pmm u.pmm first.grows rest.grows;
}

map_loop_lem :
    (n fuel i end pa : ℕ) (s : Vmm)
    → IsValid s
    → n < fuel
    → i + n * 4096 < 2 ^ 32
    → pa + n * 4096 < 2 ^ 32
    → end ≤ i + n * 4096
    → i + n * 4096 < end + 4096
    → Outcome i pa n s (map_loop fuel i end pa s)
unfolding map_loop
map_loop_lem n zero i end pa s valid hf hi hp lo up = absurd (omega arith)
map_loop_lem zero (suc fuel) i end pa s valid hf hi hp lo up =
    let over : ltb i end ≡ false = ground arith in
    rw over (
      inl (
        s,
        refl,
        record { valid = valid; translates = λ a ha. ground arith; grows = Grows-refl s.pmm },
      ))
map_loop_lem (suc n) (suc fuel) i end pa s valid hf hi hp lo up =
    let more : ltb i end ≡ true = ground arith in
    let next : u32 (i + 4096) ≡ i + 4096 = omega arith in
    let next_frame : u32 (pa + 4096) ≡ pa + 4096 = omega arith in
    rw (more, next, next_frame)
      (elim (map_page_lem i pa s (omega arith) (omega arith) valid) [
        | inr (e, absent, full) ↦ rw e (inr refl)
        | inl (t, e, first) ↦
            rw e
              (elim (map_loop_lem n fuel (i + 4096) end (pa + 4096) t first.valid (omega arith)
                (omega arith) (omega arith) (omega arith) (omega arith)) [
                  | inr e' ↦ inr e'
                  | inl (u, e', rest) ↦
                      inl (u, e', IsRegion-suc i pa n s t u (omega arith) first rest)
                ])
      ])

-- The pages of a region of `size` bytes.
abbrev pub pages : ℕ → ℕ
pages size = (size + 4095) / 4096

-- On valid tables, when neither range runs up to the end of the address space, `map_region` with
-- one round of fuel more than the region has pages maps each page of the region to the frame at the
-- same distance from `physical_address` and changes no other translation, or it panics.
pub map_region_lem :
    (fuel va pa size : ℕ) (s : Vmm)
    → IsValid s
    → pages size < fuel
    → va + size + 4096 < 2 ^ 32
    → pa + size + 4096 < 2 ^ 32
    → ((t : Vmm) × (map_region fuel va pa size s ≡ done t) × IsRegion va pa (pages size) s t)
      ⊎ (map_region fuel va pa size s ≡ panicked)
unfolding map_region
map_region_lem fuel va pa size s valid hf hv hp =
    let end : u32 (va + size) ≡ va + size = omega arith in
    rw end (
      map_loop_lem (pages size) fuel va (va + size) pa s valid hf (omega arith) (omega arith)
        (omega arith) (omega arith))
