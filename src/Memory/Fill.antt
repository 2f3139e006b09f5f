-- ===== src/Memory/Fill.antt =====
-- `mset` over whole words: each of them gets the byte four times, and no other word changes.
use os_from_scratch.Common.{
  ℕ, zero, suc, ◌+◌, ◌*◌, ◌/◌, ◌%◌, ◌^◌, ◌<◌, ◌≡◌, refl, ◌∙◌, ◌&&◌, arith, ltb, leb, ◌==◌,
  if◌then◌else◌,
}
use os_from_scratch.Common.Word.{u8, store}
use os_from_scratch.Memory.{put_byte, write_byte, mset_loop, mset}

-- The word whose four bytes are `v`.
abbrev pub four : ℕ → ℕ
four v = v * 0x01010101

put_bytes :
    (w v : ℕ)
    → w < 2 ^ 32
    → v < 256
    → put_byte (put_byte (put_byte (put_byte w 0 v) 1 v) 2 v) 3 v ≡ four v
unfolding put_byte
put_bytes w v hw hv = omega arith

write_byte_at :
    (words : ℕ → ℕ) (a i k v j : ℕ)
    → a ≡ 4 * i + k
    → k < 4
    → write_byte words a v j ≡ (if j == i then put_byte (words i) k v else words j)
unfolding write_byte store
write_byte_at words a i k v j e h =
    let row : a / 4 ≡ i = omega arith in let col : a % 4 ≡ k = omega arith in rw (row, col)

-- Four rounds of the loop fill one word.
round : ℕ → ℕ → (ℕ → ℕ) → ℕ → ℕ
round v a words =
    let one = write_byte words a v in
    let two = write_byte one (a + 1) v in
    let three = write_byte two (a + 1 + 1) v in write_byte three (a + 1 + 1 + 1) v

round_lem :
    (v i : ℕ) (words : ℕ → ℕ) (j : ℕ)
    → words i < 2 ^ 32
    → v < 256
    → round v (4 * i) words j ≡ (if j == i then four v else words j)
unfolding round
round_lem v i words j hw hv =
    let one = write_byte words (4 * i) v in
    let two = write_byte one (4 * i + 1) v in
    let three = write_byte two (4 * i + 1 + 1) v in
    ground (
      arith,
      write_byte_at words (4 * i) i 0 v i (omega arith) (omega arith),
      write_byte_at one (4 * i + 1) i 1 v i (omega arith) (omega arith),
      write_byte_at two (4 * i + 1 + 1) i 2 v i (omega arith) (omega arith),
      write_byte_at words (4 * i) i 0 v j (omega arith) (omega arith),
      write_byte_at one (4 * i + 1) i 1 v j (omega arith) (omega arith),
      write_byte_at two (4 * i + 1 + 1) i 2 v j (omega arith) (omega arith),
      write_byte_at three (4 * i + 1 + 1 + 1) i 3 v j (omega arith) (omega arith),
      put_bytes (words i) v,
    )

mset_loop-round :
    (value left a : ℕ) (words : ℕ → ℕ)
    → mset_loop value (suc (suc (suc (suc left)))) a words
      ≡ mset_loop value left (a + 1 + 1 + 1 + 1) (round (u8 value) a words)
unfolding mset_loop round
mset_loop-round value left a words = refl

mset_loop_lem :
    (value n i a : ℕ) (words : ℕ → ℕ) (j : ℕ)
    → a ≡ 4 * i
    → ((k : ℕ) → words k < 2 ^ 32)
    → mset_loop value (4 * n) a words j
      ≡ (if leb i j && ltb j (i + n) then four (u8 value) else words j)
mset_loop_lem value zero i a words j e small = unfold mset_loop in ground arith
mset_loop_lem value (suc n) i a words j e small =
    let unroll : 4 * suc n ≡ suc (suc (suc (suc (4 * n)))) = omega arith in
    let filled = λ (k : ℕ). round_lem (u8 value) i words k (small i) (omega arith) in
    let still : (k : ℕ) → round (u8 value) (4 * i) words k < 2 ^ 32 =
      λ k. ground (arith, filled k, small k) in
    let rest =
      mset_loop_lem value n (i + 1) (4 * i + 1 + 1 + 1 + 1) (round (u8 value) (4 * i) words) j
        (omega arith) still in
    rw (unroll, e, mset_loop-round) (rest ∙ ground (arith, filled j))

-- `mset` over `n` whole words from word `i` on fills each of them with the low byte of `value` and
-- leaves every other word as it was, for an array of 32-bit words.
pub mset_lem :
    (words : ℕ → ℕ) (i value n : ℕ)
    → ((k : ℕ) → words k < 2 ^ 32)
    → (j : ℕ)
    → mset words (4 * i) value (4 * n) j
      ≡ (if leb i j && ltb j (i + n) then four (u8 value) else words j)
unfolding mset
mset_lem words i value n small j = mset_loop_lem value n i (4 * i) words j refl small
