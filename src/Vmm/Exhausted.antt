-- ===== src/Vmm/Exhausted.antt =====
-- Why a run of map_page calls panics.
use os_from_scratch.Common.{
  ℕ, zero, suc, ◌+◌, ◌≡◌, ◌⊎◌, refl, bit_and, ltb, ◌==◌, Bool-cases, inl, inr, ==→eq,
}
use os_from_scratch.Common.Word.{u32, ◌>>◌}
use os_from_scratch.Pmm.{pmm_alloc_page}
use os_from_scratch.Vmm.{
  Vmm, Run, done, panicked, out_of_fuel, ◌>>=◌, ensure_table, map_page, map_loop, map_region,
}

-- `t` is reached from `s` by calls of map_page that return.
pub data Maps : Vmm → Vmm → Type 0 where
  unmoved : (s : Vmm) → Maps s s
  mapped : (va pa : ℕ) {s t u : Vmm} → map_page va pa s ≡ done t → Maps t u → Maps s u

-- From `s` on, after some calls of map_page that return, one panics, on an address that has no page
-- table while the allocator has no page to give.
pub record NoPage (s : Vmm) : Type 0 where
  pub reached : Vmm
  pub va : ℕ
  pub pa : ℕ
  pub maps : Maps s reached
  pub panics : map_page va pa reached ≡ panicked
  pub no_table : bit_and (reached.directory (va >> 22)) 1 ≡ 0
  pub none_left : (pmm_alloc_page reached.pmm).0 ≡ 0

-- How a run from `s` ends.
abbrev pub Ends : Vmm → Run → Type 0
Ends s (done t) = Maps s t
Ends s panicked = NoPage s
Ends s out_of_fuel = Unit {0}

then_Maps : {s t u : Vmm} → Maps s t → Maps t u → Maps s u
then_Maps (unmoved s) b = b
then_Maps (mapped va pa e a) b = mapped va pa e (then_Maps a b)

NoPage-after : {s t : Vmm} → Maps s t → NoPage t → NoPage s
NoPage-after a n = record {
  reached = n.reached;
  va = n.va;
  pa = n.pa;
  maps = then_Maps a n.maps;
  panics = n.panics;
  no_table = n.no_table;
  none_left = n.none_left;
}

after_Ends : (s t : Vmm) (r : Run) → Maps s t → Ends t r → Ends s r
after_Ends s t (done u) a b = then_Maps a b
after_Ends s t panicked a n = NoPage-after a n
after_Ends s t out_of_fuel a n = tt

pub then_Ends :
    (s : Vmm) (r : Run) (k : Vmm → Run) → Ends s r → ((t : Vmm) → Ends t (k t)) → Ends s (r >>= k)
then_Ends s (done t) k a b = after_Ends s t (k t) a (b t)
then_Ends s panicked k a b = a
then_Ends s out_of_fuel k a b = tt

then_panicked :
    (r : Run) (k : Vmm → Run) → r >>= k ≡ panicked → (r ≡ panicked) ⊎ ((t : Vmm) × (k t ≡ panicked))
then_panicked (done t) k e = inr (t, e)
then_panicked panicked k e = inl refl
then_panicked out_of_fuel k e = cc

ensure_table-panics :
    (d : ℕ) (s : Vmm)
    → ensure_table d s ≡ panicked
    → (bit_and (s.directory d) 1 ≡ 0) × ((pmm_alloc_page s.pmm).0 ≡ 0)
unfolding ensure_table
ensure_table-panics d s e = elim (Bool-cases (bit_and (s.directory d) 1 == 0)) [
  | inr there ↦ (let f = rw (ensure_table, there) at e in cc)
  | inl missing ↦ elim (Bool-cases ((pmm_alloc_page s.pmm).0 == 0)) [
    | inl full ↦ (==→eq _ _ missing, ==→eq _ _ full)
    | inr got ↦ (let f = rw (ensure_table, missing, got, got) at e in cc)
  ]
]

map_page-panics :
    (va pa : ℕ) (s : Vmm)
    → map_page va pa s ≡ panicked
    → (bit_and (s.directory (va >> 22)) 1 ≡ 0) × ((pmm_alloc_page s.pmm).0 ≡ 0)
unfolding map_page
map_page-panics va pa s e = elim (then_panicked (ensure_table (va >> 22) s) _ e) [
  | inl f ↦ ensure_table-panics (va >> 22) s f
  | inr (t, f) ↦ cc
]

map_page-as : (va pa : ℕ) (s : Vmm) (r : Run) → map_page va pa s ≡ r → Ends s r
map_page-as va pa s (done t) e = mapped va pa e (unmoved t)
map_page-as va pa s panicked e =
    let (no_table, none_left) = map_page-panics va pa s e in
    record {
      reached = s;
      va = va;
      pa = pa;
      maps = unmoved s;
      panics = e;
      no_table = no_table;
      none_left = none_left;
    }
map_page-as va pa s out_of_fuel e = tt

map_loop-Ends : (fuel i end pa : ℕ) (s : Vmm) → Ends s (map_loop fuel i end pa s)
unfolding map_loop
map_loop-Ends zero i end pa s = tt
map_loop-Ends (suc fuel) i end pa s = elim (Bool-cases (ltb i end)) [
  | inl more ↦
      rw (map_loop, more)
        (then_Ends s (map_page i pa s) _ (map_page-as i pa s (map_page i pa s) refl)
          (λ t. map_loop-Ends fuel (u32 (i + 4096)) end (u32 (pa + 4096)) t))
  | inr over ↦ rw (map_loop, over) (unmoved s)
]

pub map_region-Ends : (fuel va pa size : ℕ) (s : Vmm) → Ends s (map_region fuel va pa size s)
unfolding map_region
map_region-Ends fuel va pa size s = map_loop-Ends fuel va (u32 (va + size)) pa s
