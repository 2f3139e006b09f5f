-- ===== src/Bytes/Examples.antt =====
-- Eight bytes of memory, moved down by two and filled.
use os_from_scratch.Common.{ℕ, ◌≡◌, ◌+◌, inl, arith}
use os_from_scratch.Common.Word.{}
use os_from_scratch.Bytes.{memcpy}
use os_from_scratch.Bytes.Copies.{moved, memcpy_lem}

abbrev memory : ℕ → ℕ
memory a = a + 1

memcpy_lem_example : memcpy 0 2 6 memory 3 ≡ moved 0 2 6 memory 3
memcpy_lem_example = memcpy_lem 0 2 6 3 memory (inl (omega arith))
