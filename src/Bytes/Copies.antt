-- ===== src/Bytes/Copies.antt =====
-- What memcpy and memset leave in memory.
use os_from_scratch.Common.{
  ℕ, zero, suc, ◌+◌, ◌-◌, ◌≤◌, ◌<◌, ◌≡◌, ◌⊎◌, inl, inr, refl, ap, ◌∙◌, arith, ltb, leb, ◌&&◌, ◌==◌,
  ==→eq, ==→ne, Bool-cases, if◌then◌else◌,
}
use os_from_scratch.Common.Word.{u8, store, store_self, store_ne}
use os_from_scratch.Bytes.{memcpy_loop, memcpy, memset_loop, memset}

-- A copy of the `size` bytes at `src` as they were before the copy.
unfoldable pub moved : ℕ → ℕ → ℕ → (ℕ → ℕ) → ℕ → ℕ
moved dest src size memory a =
    if leb dest a && ltb a (dest + size) then memory (src + (a - dest)) else memory a

-- The places that are free of the rest of the copy: the destination before the round `i`, and all
-- that is not in the destination.
memcpy_loop-outside :
    (left i dest src a : ℕ) (memory : ℕ → ℕ)
    → (a < dest + i) ⊎ (dest + i + left ≤ a)
    → memcpy_loop left i dest src memory a ≡ memory a
unfolding memcpy_loop
memcpy_loop-outside zero i dest src a memory out = refl
memcpy_loop-outside (suc left) i dest src a memory out =
    memcpy_loop-outside left (i + 1) dest src a (store memory (dest + i) (memory (src + i)))
      (elim out [ inl p ↦ inl (omega arith) | inr p ↦ inr (omega arith) ])
    ∙ store_ne memory (dest + i) (memory (src + i)) a
        (elim out [ inl p ↦ omega arith | inr p ↦ omega arith ])

-- Forwards, a round never writes what a later one reads, where the destination is not above the
-- source or is behind its end.
memcpy_loop-inside :
    (left i dest src k : ℕ) (memory : ℕ → ℕ)
    → (dest ≤ src) ⊎ (src + i + left ≤ dest)
    → i ≤ k
    → k < i + left
    → memcpy_loop left i dest src memory (dest + k) ≡ memory (src + k)
unfolding memcpy_loop
memcpy_loop-inside zero i dest src k memory order le lt = absurd (omega arith)
memcpy_loop-inside (suc left) i dest src k memory order le lt =
    let written = store memory (dest + i) (memory (src + i)) in
    elim (Bool-cases (k == i)) [
      | inl here ↦ rw (==→eq k i here) (
          memcpy_loop-outside left (i + 1) dest src (dest + i) written (inl (omega arith))
          ∙ store_self memory (dest + i) (memory (src + i)))
      | inr later ↦
          (let ne = ==→ne k i later in
            memcpy_loop-inside left (i + 1) dest src k written
              (elim order [ inl p ↦ inl p | inr p ↦ inr (omega arith) ]) (omega arith) (omega arith)
            ∙ store_ne memory (dest + i) (memory (src + i)) (src + k)
                (elim order [ inl p ↦ omega arith | inr p ↦ omega arith ]))
    ]

-- Where the destination begins at or before the source, or behind its end, memcpy copies
-- the bytes as they were, also when the two overlap, and changes no other.
pub memcpy_lem :
    (dest src size a : ℕ) (memory : ℕ → ℕ)
    → (dest ≤ src) ⊎ (src + size ≤ dest)
    → memcpy dest src size memory a ≡ moved dest src size memory a
unfolding memcpy moved
memcpy_lem dest src size a memory order = elim (Bool-cases (leb dest a && ltb a (dest + size))) [
  | inl inside ↦
      (let le : dest ≤ a = ground (arith, inside) in
        let lt : a < dest + size = ground (arith, inside) in
        let e : a ≡ dest + (a - dest) = omega arith in
        rw inside (
          ap (memcpy_loop size 0 dest src memory) e
          ∙ memcpy_loop-inside size 0 dest src (a - dest) memory
              (elim order [ inl p ↦ inl p | inr p ↦ inr (omega arith) ]) (omega arith)
              (omega arith)))
  | inr outside ↦
      rw outside (memcpy_loop-outside size 0 dest src a memory (ground (arith, outside)))
]

memset_loop-lem :
    (left i dest value a : ℕ) (memory : ℕ → ℕ)
    → memset_loop left i dest value memory a
      ≡ (if leb (dest + i) a && ltb a (dest + i + left) then value else memory a)
unfolding memset_loop store
memset_loop-lem zero i dest value a memory = ground arith
memset_loop-lem (suc left) i dest value a memory =
    ground (arith, memset_loop-lem left (i + 1) dest value a (store memory (dest + i) value))

-- memset writes the low byte of the value to `size` bytes, and changes no other.
pub memset_lem :
    (dest value size a : ℕ) (memory : ℕ → ℕ)
    → memset dest value size memory a
      ≡ (if leb dest a && ltb a (dest + size) then u8 value else memory a)
unfolding memset
memset_lem dest value size a memory =
    ground (arith, memset_loop-lem size 0 dest (u8 value) a memory)
