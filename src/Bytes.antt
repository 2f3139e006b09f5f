-- ===== src/Bytes.antt =====
-- libc/mem.cpp: memcpy and memset, on a memory of bytes by their addresses.
pub mod Copies
mod Examples
use os_from_scratch.Common.{ℕ, zero, suc, ◌+◌}
use os_from_scratch.Common.Word.{u8, store}

-- The loop from the round `i` on.
unfoldable pub memcpy_loop : ℕ → ℕ → ℕ → ℕ → (ℕ → ℕ) → ℕ → ℕ
unfolding store
memcpy_loop zero i dest src memory = memory
memcpy_loop (suc left) i dest src memory =
    memcpy_loop left (i + 1) dest src (store memory (dest + i) (memory (src + i)))

-- The memory after `memcpy(dest, src, size)`.
unfoldable pub memcpy : ℕ → ℕ → ℕ → (ℕ → ℕ) → ℕ → ℕ
unfolding memcpy_loop
memcpy dest src size memory = memcpy_loop size 0 dest src memory

unfoldable pub memset_loop : ℕ → ℕ → ℕ → ℕ → (ℕ → ℕ) → ℕ → ℕ
unfolding store
memset_loop zero i dest value memory = memory
memset_loop (suc left) i dest value memory =
    memset_loop left (i + 1) dest value (store memory (dest + i) value)

-- The memory after `memset(dest, value, size)`, whose value is a uint8_t.
unfoldable pub memset : ℕ → ℕ → ℕ → (ℕ → ℕ) → ℕ → ℕ
unfolding memset_loop
memset dest value size memory = memset_loop size 0 dest (u8 value) memory
