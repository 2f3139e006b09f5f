-- ===== src/Display/Scroll.antt =====
-- What a scroll leaves on the screen, and the copy to the hardware.
use os_from_scratch.Common.{
  ℕ, zero, suc, ◌+◌, ◌-◌, ◌*◌, ◌/◌, ◌^◌, ◌≤◌, ◌<◌, ◌≡◌, ◌⊎◌, refl, ap, ◌∙◌, arith, inl, inr, true,
  ◌&&◌, ltb, leb, ◌==◌, ==→eq, ==→ne, Bool-cases, if◌then◌else◌,
}
use native.Mathlib.Nat.{add-mul, mul-le-mul_right}
use os_from_scratch.Common.Word.{u32, sub32}
use os_from_scratch.Bytes.{memcpy}
use os_from_scratch.Bytes.Copies.{moved, memcpy_lem}
use os_from_scratch.Display.{
  Frame, video_vrt_addr, write_word, fill_loop, vbe_scroll_up, vbe_swap_buffer,
}
use os_from_scratch.Display.Pixels.{
  IsFrame, word, pixel, rows_apart, four_rows, write_word-word, write_word-apart,
}

fill_loop-word_outside :
    (left i addr color a : ℕ) (memory : ℕ → ℕ)
    → (a + 4 ≤ addr + 4 * i) ⊎ (addr + 4 * (i + left) ≤ a)
    → word (fill_loop left i addr color memory) a ≡ word memory a
unfolding fill_loop
fill_loop-word_outside zero i addr color a memory out = refl
fill_loop-word_outside (suc left) i addr color a memory out =
    fill_loop-word_outside left (i + 1) addr color a (write_word (addr + 4 * i) color memory)
      (elim out [ inl p ↦ inl (omega arith) | inr p ↦ inr (omega arith) ])
    ∙ write_word-apart (addr + 4 * i) color a memory
        (elim out [ inl p ↦ inl (omega arith) | inr p ↦ inr (omega arith) ])

fill_loop-word :
    (left i addr color k : ℕ) (memory : ℕ → ℕ)
    → color < 2 ^ 32
    → i ≤ k
    → k < i + left
    → word (fill_loop left i addr color memory) (addr + 4 * k) ≡ color
unfolding fill_loop
fill_loop-word zero i addr color k memory small le lt = absurd (omega arith)
fill_loop-word (suc left) i addr color k memory small le lt = elim (Bool-cases (k == i)) [
  | inl here ↦ rw (==→eq k i here) (
      fill_loop-word_outside left (i + 1) addr color (addr + 4 * i)
        (write_word (addr + 4 * i) color memory) (inl (omega arith))
      ∙ write_word-word (addr + 4 * i) color memory small)
  | inr later ↦
      (let ne = ==→ne k i later in
        fill_loop-word left (i + 1) addr color k (write_word (addr + 4 * i) color memory) small
          (omega arith) (omega arith))
]

memcpy-byte :
    (dest src size k a b : ℕ) (memory : ℕ → ℕ)
    → dest ≤ src
    → a ≡ dest + k
    → b ≡ src + k
    → k < size
    → memcpy dest src size memory a ≡ memory b
unfolding moved
memcpy-byte dest src size k a b memory le at from lt =
    let inside : (leb dest a && ltb a (dest + size)) ≡ true = ground (arith, at) in
    let place : src + (a - dest) ≡ b = omega arith in
    memcpy_lem dest src size a memory (inl le) ∙ rw (inside, place) refl

-- A word of a copy is the word of the source.
memcpy-word :
    (dest src size k : ℕ) (memory : ℕ → ℕ)
    → dest ≤ src
    → k + 4 ≤ size
    → word (memcpy dest src size memory) (dest + k) ≡ word memory (src + k)
unfolding word
memcpy-word dest src size k memory le fits =
    let byte : (n : ℕ) → n < 4 → memcpy dest src size memory (dest + k + n) ≡ memory (src + k + n) =
      λ n lt.
        memcpy-byte dest src size (k + n) (dest + k + n) (src + k + n) memory le (omega arith)
          (omega arith) (omega arith) in
    let first : memcpy dest src size memory (dest + k) ≡ memory (src + k) =
      memcpy-byte dest src size k (dest + k) (src + k) memory le refl refl (omega arith) in
    rw (first, byte 1 (omega arith), byte 2 (omega arith), byte 3 (omega arith)) refl

-- The sizes that a scroll computes, where it keeps part of the screen.
block_lem :
    (lines : ℕ) (s : Frame)
    → IsFrame s
    → lines * 8 ≤ s.height
    → (u32 (lines * 8 * s.pitch) ≡ lines * 8 * s.pitch)
      × (u32 (s.height * s.pitch) ≡ s.height * s.pitch)
      × (sub32 (s.height * s.pitch) (lines * 8 * s.pitch) ≡ (s.height - lines * 8) * s.pitch)
block_lem lines s h le =
    let less = mul-le-mul_right s.pitch le in
    let split : s.height ≡ s.height - lines * 8 + lines * 8 = omega arith in
    let parts =
      ap (λ (t : ℕ). t * s.pitch) split ∙ add-mul (s.height - lines * 8) (lines * 8) s.pitch in
    (
      omega (arith, less, h.whole, h.fits),
      omega (arith, h.whole, h.fits),
      omega (arith, less, parts, h.whole, h.fits),
    )

-- On a frame of 32 bits a pixel, whose rows are a multiple of four bytes and whose back buffer is the
-- height times the pitch, in memory: a scroll by at most the height of the screen moves each row of
-- pixels up by eight rows for each line, and gives the rows that are free at the bottom the
-- background colour.
pub vbe_scroll_up_lem :
    (lines bg_color u v : ℕ) (s : Frame)
    → IsFrame s
    → lines * 8 ≤ s.height
    → bg_color < 2 ^ 32
    → u < s.width
    → v < s.height
    → pixel (vbe_scroll_up lines bg_color s) u v
      ≡ (if ltb (v + lines * 8) s.height then pixel s u (v + lines * 8) else bg_color)
unfolding vbe_scroll_up pixel
vbe_scroll_up_lem lines bg_color u v s h le small hu hv =
    let (block, screen, rest) = block_lem lines s h le in
    let kept = (s.height - lines * 8) * s.pitch in
    let copied = memcpy s.video_buffer (s.video_buffer + lines * 8 * s.pitch) kept s.memory in
    rw (block, screen, rest)
      (elim (Bool-cases (ltb (v + lines * 8) s.height)) [
        | inl stays ↦
            (let above : v < s.height - lines * 8 = ground (arith, stays) in
              let room = rows_apart v (s.height - lines * 8) s.pitch above in
              let sum = add-mul v (lines * 8) s.pitch in
              let from : s.video_buffer + lines * 8 * s.pitch + (v * s.pitch + 4 * u)
                  ≡ s.video_buffer + (v + lines * 8) * s.pitch + 4 * u =
                omega (arith, sum) in
              let to : s.video_buffer + v * s.pitch + 4 * u
                  ≡ s.video_buffer + (v * s.pitch + 4 * u) =
                omega arith in
              rw stays (
                fill_loop-word_outside (lines * 8 * s.pitch / 4) 0 (s.video_buffer + kept) bg_color
                  (s.video_buffer + v * s.pitch + 4 * u) copied
                  (inl (omega (arith, room, h.row, h.narrow)))
                ∙ rw to (
                    memcpy-word s.video_buffer (s.video_buffer + lines * 8 * s.pitch) kept
                      (v * s.pitch + 4 * u) s.memory (omega arith)
                      (omega (arith, room, h.row, h.narrow)))
                ∙ ap (word s.memory) from))
        | inr freed ↦
            (let top = s.height - lines * 8 in
              let w = v - top in
              let place : v ≡ top + w = ground (arith, freed) in
              let rows : v * s.pitch ≡ top * s.pitch + w * s.pitch =
                ap (λ (t : ℕ). t * s.pitch) place ∙ add-mul top w s.pitch in
              let words_in = four_rows w s.pitch h.words h.row in
              let all = four_rows (lines * 8) s.pitch h.words h.row in
              let room = rows_apart w (lines * 8) h.words (omega (arith, place)) in
              let at : s.video_buffer + v * s.pitch + 4 * u
                  ≡ s.video_buffer + kept + 4 * (w * h.words + u) =
                omega (arith, rows, words_in) in
              rw freed (
                ap
                  (word
                    (fill_loop (lines * 8 * s.pitch / 4) 0 (s.video_buffer + kept) bg_color copied))
                  at
                ∙ fill_loop-word (lines * 8 * s.pitch / 4) 0 (s.video_buffer + kept) bg_color
                    (w * h.words + u) copied small (omega arith)
                    (omega (arith, all, room, h.narrow))))
      ])

-- With the back buffer below the frame buffer, a swap gives the frame buffer the bytes of the back
-- buffer, and changes nothing else.
pub vbe_swap_buffer_lem :
    (a : ℕ) (s : Frame)
    → s.video_buffer + s.size ≤ video_vrt_addr
    → (vbe_swap_buffer s).memory a ≡ (
        if leb video_vrt_addr a && ltb a (video_vrt_addr + s.size)
        then s.memory (s.video_buffer + (a - video_vrt_addr))
        else s.memory a)
unfolding vbe_swap_buffer moved
vbe_swap_buffer_lem a s below =
    memcpy_lem video_vrt_addr s.video_buffer s.size a s.memory (inr below)
