-- ===== src/Memory.antt =====
-- Memory as 32-bit words, and the byte loops of libc/mem.cpp and of `mset` in kernel/mem/pmm.cpp.
use os_from_scratch.Common.{ℕ, zero, suc, ◌+◌, ◌*◌, ◌/◌, ◌%◌, ◌^◌}
use os_from_scratch.Common.Word.{u8, store}
pub mod Fill

-- The word `w` with its byte `k`, counted from the low end, replaced by `v`.
unfoldable pub put_byte : ℕ → ℕ → ℕ → ℕ
put_byte w k v = w / 256 ^ suc k * 256 ^ suc k + v * 256 ^ k + w % 256 ^ k

-- `p[i] = value` through a byte pointer into an array of words.
unfoldable pub write_byte : (ℕ → ℕ) → ℕ → ℕ → ℕ → ℕ
unfolding store put_byte
write_byte words i value = store words (i / 4) (put_byte (words (i / 4)) (i % 4) value)

-- The loop of `mset` at the byte address `a`, with `left` rounds to go.
unfoldable pub mset_loop : ℕ → ℕ → ℕ → (ℕ → ℕ) → ℕ → ℕ
unfolding write_byte
mset_loop value zero a words = words
mset_loop value (suc left) a words = mset_loop value left (a + 1) (write_byte words a (u8 value))

-- `mset(ptr, value, size)`, with `ptr` as a byte address into the array of words.
unfoldable pub mset : (ℕ → ℕ) → ℕ → ℕ → ℕ → ℕ → ℕ
unfolding mset_loop
mset words ptr value size = mset_loop value size ptr words
