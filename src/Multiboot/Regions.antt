-- ===== src/Multiboot/Regions.antt =====
-- The regions that `multiboot_get_usable_regions` finds.
use os_from_scratch.Common.{
  ℕ, zero, suc, ◌+◌, ◌^◌, ◌≤◌, ◌<◌, ◌≡◌, refl, ap, ◌∙◌, arith, true, false, List, [], ◌∷◌, length,
  some, ltb, ◌==◌, if◌then◌else◌, Bool-cases, inl, inr, ==→eq,
}
use os_from_scratch.Common.Word.{u32, store, store_self, store_ne}
use os_from_scratch.Multiboot.{
  MultibootInfo, MmapEntry, MemoryRegion, MmapContext, iterate_loop, add_region,
  multiboot_iterate_mmap, multiboot_get_usable_regions,
}

-- The map from the address `current` up to `end` has the entries `es`, below 2 ^ 32.
abbrev pub IsMap : (ℕ → MmapEntry) → ℕ → ℕ → List MmapEntry → Type 0
IsMap entry_at current end [] = end ≤ current
IsMap entry_at current end (e ∷ es) =
    (current < end)
    × (entry_at current ≡ e)
    × (current + (e.size + 4) < 2 ^ 32)
    × IsMap entry_at (current + (e.size + 4)) end es

-- The usable entries, in the order of the map.
abbrev pub usable : List MmapEntry → List MemoryRegion
usable [] = []
usable (e ∷ es) =
    if e.type == 1 then (record { addr = e.addr; len = e.len; type = 1 }) ∷ usable es else usable es

-- The array has the regions `rs` from index `i` on.
abbrev pub Lists : (ℕ → MemoryRegion) → ℕ → List MemoryRegion → Type 0
Lists regions i [] = Unit {0}
Lists regions i (r ∷ rs) = (regions i ≡ r) × Lists regions (i + 1) rs

-- What the loop makes of a context: the regions `rs` behind those there were.
record Added (ctx : MmapContext) (rs : List MemoryRegion) (result : MmapContext) : Type 0 where
  count : result.count ≡ ctx.count + length rs
  listed : Lists result.regions ctx.count rs
  before : (i : ℕ) → i < ctx.count → result.regions i ≡ ctx.regions i
  behind : (i : ℕ) → ctx.count + length rs ≤ i → result.regions i ≡ ctx.regions i

Added-cons :
    (ctx : MmapContext) (r : MemoryRegion) (rs : List MemoryRegion) (result : MmapContext)
    → Added
        (record ctx { count = ctx.count + 1; regions = store ctx.regions ctx.count r })
        rs
        result
    → Added ctx (r ∷ rs) result
Added-cons ctx r rs result added = record {
  count = omega (arith, added.count);
  listed =
      (added.before ctx.count (omega arith) ∙ store_self ctx.regions ctx.count r, added.listed);
  before = λ i h. added.before i (omega arith) ∙ store_ne ctx.regions ctx.count r i (omega arith);
  behind = λ i h. added.behind i (omega arith) ∙ store_ne ctx.regions ctx.count r i (omega arith);
}

add_region_usable :
    (e : MmapEntry) (ctx : MmapContext)
    → (e.type == 1) ≡ true
    → ctx.count + 1 < 2 ^ 32
    → add_region e ctx ≡ record ctx {
      count = ctx.count + 1;
      regions = store ctx.regions ctx.count (record { addr = e.addr; len = e.len; type = 1 });
    }
unfolding add_region
add_region_usable e ctx is_usable room =
    let next : u32 (ctx.count + 1) ≡ ctx.count + 1 = omega arith in
    let one : e.type ≡ 1 = ==→eq e.type 1 is_usable in rw (is_usable, next) (simp one refl)

add_region_other :
    (e : MmapEntry) (ctx : MmapContext) → (e.type == 1) ≡ false → add_region e ctx ≡ ctx
unfolding add_region
add_region_other e ctx other = rw other refl

iterate_loop-Added :
    (fuel : ℕ) (entry_at : ℕ → MmapEntry) (current end : ℕ) (es : List MmapEntry)
    (ctx : MmapContext)
    → IsMap entry_at current end es
    → length es < fuel
    → ctx.count + length es < 2 ^ 32
    → (result : MmapContext) × (iterate_loop fuel entry_at add_region current end ctx ≡ some result)
      × Added ctx (usable es) result
unfolding iterate_loop
iterate_loop-Added zero entry_at current end es ctx map more room = absurd (omega arith)
iterate_loop-Added (suc fuel) entry_at current end [] ctx map more room =
    let over : ltb current end ≡ false = ground arith in
    rw over (
      ctx,
      refl,
      record { count = omega arith; listed = tt; before = λ i h. refl; behind = λ i h. refl },
    )
iterate_loop-Added (suc fuel) entry_at current end (e ∷ es) ctx (go_on, here, fits, rest) more
      room =
    let more_to_go : ltb current end ≡ true = ground arith in
    let next : u32 (current + u32 (e.size + 4)) ≡ current + (e.size + 4) = omega arith in
    elim (Bool-cases (e.type == 1)) [
      | inl is_usable ↦
          (let r : MemoryRegion = record { addr = e.addr; len = e.len; type = 1 } in
            let (result, done, added) =
              iterate_loop-Added fuel entry_at (current + (e.size + 4)) end es
                (record ctx { count = ctx.count + 1; regions = store ctx.regions ctx.count r }) rest
                (omega arith) (omega arith) in
            (
              result,
              rw (more_to_go, here, next, add_region_usable e ctx is_usable (omega arith)) done,
              rw is_usable (Added-cons ctx r (usable es) result added),
            ))
      | inr other ↦
          (let (result, done, added) =
              iterate_loop-Added fuel entry_at (current + (e.size + 4)) end es ctx rest
                (omega arith) (omega arith) in
            (
              result,
              rw (more_to_go, here, next, add_region_other e ctx other) done,
              rw other added,
            ))
    ]

-- On a map that ends below 2 ^ 32, with fuel above the number of its entries,
-- `multiboot_get_usable_regions` ends: the count is the number of usable entries, the array of the
-- caller begins with them, in the order of the map, and keeps what it had behind them. So it writes
-- past `max_regions` regions where the map has more usable entries than that.
pub multiboot_get_usable_regions_lem :
    (fuel : ℕ) (entry_at : ℕ → MmapEntry) (info : MultibootInfo) (es : List MmapEntry)
    (regions : ℕ → MemoryRegion) (max_regions : ℕ)
    → IsMap entry_at info.mmap_addr (info.mmap_addr + info.mmap_length) es
    → info.mmap_addr + info.mmap_length < 2 ^ 32
    → length es < fuel
    → length es < 2 ^ 32
    → (result : ℕ → MemoryRegion) × (multiboot_get_usable_regions fuel entry_at
          (some info)
          regions
          max_regions
        ≡ some (length (usable es), result))
      × Lists result 0 (usable es)
      × ((i : ℕ) → length (usable es) ≤ i → result i ≡ regions i)
unfolding multiboot_get_usable_regions multiboot_iterate_mmap
multiboot_get_usable_regions_lem fuel entry_at info es regions max_regions map ends more few =
    let start : MmapContext = record { count = 0; regions = regions; max_regions = max_regions } in
    let end : u32 (info.mmap_addr + info.mmap_length) ≡ info.mmap_addr + info.mmap_length =
      omega arith in
    let (result, done, added) =
      iterate_loop-Added fuel entry_at info.mmap_addr (info.mmap_addr + info.mmap_length) es start
        map more (omega arith) in
    (
      result.regions,
      rw (multiboot_get_usable_regions, end, done)
          (ap (λ (n : ℕ). some (n, result.regions)) (omega (arith, added.count))),
      added.listed,
      λ i h. added.behind i (omega arith),
    )
