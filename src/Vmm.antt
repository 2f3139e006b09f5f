-- ===== src/Vmm.antt =====
-- kernel/mem/vmm.cpp: the two-level page tables of i386.
pub mod Entry
pub mod Valid
pub mod Table
pub mod Map
pub mod Regions
pub mod Exhausted
pub mod Init
mod Examples
use os_from_scratch.Common.{
  ℕ, zero, suc, ◌+◌, ◌-◌, ◌*◌, ◌/◌, ◌%◌, ◌^◌, List, [], ◌∷◌, bit_and, bit_or, ltb, ◌==◌,
  if◌then◌else◌,
}
use os_from_scratch.Common.Word.{u32, ◌>>◌, store}
use os_from_scratch.Memory.{mset}
use os_from_scratch.Pmm.{Pmm, pmm_alloc_page}

-- `directory` is the global page_directory. `memory` is the physical memory as 32-bit words (the
-- word at byte address 4 * i is `memory i`), in which the page tables lie: the code follows the
-- physical address of a table as a pointer, so it takes the tables to be identity-mapped.
-- `flushed` lists the operands of `invlpg`, the latest first.
pub record Vmm : Type 0 where
  pub pmm : Pmm
  pub directory : ℕ → ℕ
  pub memory : ℕ → ℕ
  pub flushed : List ℕ

-- `panicked`: PANIC was called, which does not return.
pub data Run : Type 0 where
  done : Vmm → Run
  panicked out_of_fuel : Run

infixl 5 ◌>>=◌
abbrev pub ◌>>=◌ : Run → (Vmm → Run) → Run
done s >>= k = k s
panicked >>= k = panicked
out_of_fuel >>= k = out_of_fuel

unfoldable pub alloc_page_table : Vmm → ℕ × Vmm
alloc_page_table s =
    let (page_table, pmm) = pmm_alloc_page s.pmm in
    if page_table == 0
    then (0, record s { pmm = pmm })
    else (page_table, record s { pmm = pmm; memory = mset s.memory page_table 0 4096 })

-- map_page up to the page table: a directory entry that is not present gets a new table.
unfoldable pub ensure_table : ℕ → Vmm → Run
unfolding alloc_page_table store
ensure_table page_directory_index s =
    if bit_and (s.directory page_directory_index) 1 == 0
    then (let (new_page_table, s') = alloc_page_table s in
        if new_page_table == 0
        then panicked
        else done (record s' {
          directory = store s'.directory page_directory_index (bit_or new_page_table 3);
        }))
    else done s

-- The word of the page table behind a directory entry.
abbrev pub table_word : ℕ → ℕ → ℕ
table_word page_directory_entry page_table_index =
    bit_and page_directory_entry 0xFFFFF000 / 4 + page_table_index

-- page_table[page_table_index] = value; flush_tlb(virtual_address);
unfoldable pub write_entry : ℕ → ℕ → ℕ → ℕ → Vmm → Vmm
unfolding store
write_entry page_directory_entry page_table_index value virtual_address s = record s {
  memory = store s.memory (table_word page_directory_entry page_table_index) value;
  flushed = virtual_address ∷ s.flushed;
}

unfoldable pub map_page : ℕ → ℕ → Vmm → Run
unfolding ensure_table write_entry
map_page virtual_address physical_address s =
    let page_directory_index = virtual_address >> 22 in
    let page_table_index = bit_and (virtual_address >> 12) 0x3FF in
    do
      s' ← ensure_table page_directory_index s
      done (
          write_entry (s'.directory page_directory_index) page_table_index
            (bit_or (bit_and physical_address 0xFFFFF000) 3) virtual_address s')

unfoldable pub unmap_page : ℕ → Vmm → Vmm
unfolding write_entry
unmap_page virtual_address s =
    let page_directory_entry = s.directory (virtual_address >> 22) in
    let page_table_index = bit_and (virtual_address >> 12) 0x3FF in
    if bit_and page_directory_entry 1 == 0
    then s
    else write_entry page_directory_entry page_table_index 0 virtual_address s

unfoldable pub get_physical_address : ℕ → Vmm → ℕ
get_physical_address virtual_address s =
    let page_table_index = bit_and (virtual_address >> 12) 0x3FF in
    let offset = bit_and virtual_address 0xFFF in
    let page_directory_entry = s.directory (virtual_address >> 22) in
    if bit_and page_directory_entry 1 == 0
    then 0
    else (let page_table_entry = s.memory (table_word page_directory_entry page_table_index) in
        if bit_and page_table_entry 1 == 0
        then 0
        else bit_or (bit_and page_table_entry 0xFFFFF000) offset)

-- The loop of map_region: `i` is a uintptr_t, and so is the bound.
unfoldable pub map_loop : ℕ → ℕ → ℕ → ℕ → Vmm → Run
unfolding map_page
map_loop zero i end physical_address s = out_of_fuel
map_loop (suc fuel) i end physical_address s =
    let rest =
      λ (s' : Vmm). map_loop fuel (u32 (i + 4096)) end (u32 (physical_address + 4096)) s' in
    if ltb i end then map_page i physical_address s >>= rest else done s

-- A region has at most 2 ^ 20 pages.
unfoldable pub map_region : ℕ → ℕ → ℕ → ℕ → Vmm → Run
unfolding map_loop
map_region fuel virtual_address physical_address size s =
    map_loop fuel virtual_address (u32 (virtual_address + size)) physical_address s
