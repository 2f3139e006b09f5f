-- ===== src/Multiboot.antt =====
-- boot/multiboot_helpers.cpp: what the boot loader tells of the memory.
pub mod Regions
pub mod Examples
use os_from_scratch.Common.{
  ℕ, zero, suc, ◌+◌, ◌*◌, ◌%◌, ◌^◌, Bool, true, false, ◌&&◌, not, Option, none, some, bit_and, ltb,
  ◌==◌, if◌then◌else◌,
}
use os_from_scratch.Common.Word.{u32, store}

-- The fields of multiboot_info_t that the kernel reads.
pub record MultibootInfo : Type 0 where
  pub flags : ℕ
  pub mem_lower : ℕ
  pub mem_upper : ℕ
  pub mmap_length : ℕ
  pub mmap_addr : ℕ
  pub framebuffer_addr : ℕ
  pub framebuffer_pitch : ℕ
  pub framebuffer_width : ℕ
  pub framebuffer_height : ℕ
  pub framebuffer_bpp : ℕ

pub record MmapEntry : Type 0 where
  pub size : ℕ
  pub addr : ℕ
  pub len : ℕ
  pub type : ℕ

pub record MemoryRegion : Type 0 where
  pub addr : ℕ
  pub len : ℕ
  pub type : ℕ

unfoldable pub multiboot_get_total_memory : MultibootInfo → ℕ
multiboot_get_total_memory info = u32 (u32 (info.mem_upper + info.mem_lower) * 1024)

-- The loop over the map, at `current` and with what the callback has made of its context.
-- `entry_at a` is the packed entry at the address `a`. `none`: the fuel ran out.
unfoldable pub iterate_loop {ℓ} :
    {C : Type ℓ} → ℕ → (ℕ → MmapEntry) → (MmapEntry → C → C) → ℕ → ℕ → C → Option C
iterate_loop zero entry_at callback current end context = none
iterate_loop (suc fuel) entry_at callback current end context =
    let entry = entry_at current in
    let next = u32 (current + u32 (entry.size + 4)) in
    let rest = iterate_loop fuel entry_at callback next end (callback entry context) in
    if ltb current end then rest else some context

-- An `mb_info` of NULL is `none`.
unfoldable pub multiboot_iterate_mmap {ℓ} :
    {C : Type ℓ} → ℕ → (ℕ → MmapEntry) → Option MultibootInfo → (MmapEntry → C → C) → C → Option C
unfolding iterate_loop
multiboot_iterate_mmap fuel entry_at none callback context = some context
multiboot_iterate_mmap fuel entry_at (some info) callback context =
    iterate_loop fuel entry_at callback info.mmap_addr (u32 (info.mmap_addr + info.mmap_length))
      context

-- `false`: the kernel panicked.
unfoldable pub multiboot_mmap_validate : Option MultibootInfo → Bool
multiboot_mmap_validate none = false
multiboot_mmap_validate (some info) =
    not (bit_and info.flags 0x1 == 0) && not (bit_and info.flags 0x4 == 0)

pub record MmapContext : Type 0 where
  pub count : ℕ
  pub regions : ℕ → MemoryRegion
  pub max_regions : ℕ

abbrev pub multiboot_is_memory_region_usable : MmapEntry → Bool
multiboot_is_memory_region_usable entry = entry.type == 1

-- The callback of `multiboot_get_usable_regions`.
unfoldable pub add_region : MmapEntry → MmapContext → MmapContext
unfolding store
add_region entry ctx =
    let region : MemoryRegion = record { addr = entry.addr; len = entry.len; type = entry.type } in
    if multiboot_is_memory_region_usable entry
    then record ctx { regions = store ctx.regions ctx.count region; count = u32 (ctx.count + 1) }
    else ctx

-- The count, and the array of the caller after the call.
unfoldable pub multiboot_get_usable_regions :
    ℕ
    → (ℕ → MmapEntry)
    → Option MultibootInfo
    → (ℕ → MemoryRegion)
    → ℕ
    → Option (ℕ × (ℕ → MemoryRegion))
unfolding multiboot_iterate_mmap add_region
multiboot_get_usable_regions fuel entry_at none regions max_regions = some (0, regions)
multiboot_get_usable_regions fuel entry_at (some info) regions max_regions =
    elim (multiboot_iterate_mmap fuel entry_at (some info) add_region
      (record { count = 0; regions = regions; max_regions = max_regions })) [
        | none ↦ none
        | some context ↦ some (context.count, context.regions)
      ]
