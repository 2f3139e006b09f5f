-- ===== src/Display/Pixels.antt =====
-- What a pixel that is drawn changes.
use os_from_scratch.Common.{
  ℕ, zero, suc, ◌+◌, ◌-◌, ◌*◌, ◌^◌, ◌≤◌, ◌<◌, ◌≡◌, ◌≢◌, ◌⊎◌, inl, inr, refl, ap, arith, false, ◌&&◌,
  ltb, leb, ◌==◌, Bool-cases, if◌then◌else◌,
}
use native.Mathlib.Nat.{add-mul}
use os_from_scratch.Common.Word.{u8, u32, ◌>>◌, store}
use os_from_scratch.Display.{Frame, write_word, pixel_addr, vbe_put_pixel}

-- A frame of 32 bits a pixel: the pitch is a multiple of four bytes, `words` pixels fit in a row, the
-- size is the height times the pitch, and the back buffer is in memory.
pub record IsFrame (s : Frame) : Type 0 where
  pub words : ℕ
  pub row : s.pitch ≡ 4 * words
  pub narrow : s.width ≤ words
  pub few : s.width < 2 ^ 27
  pub depth : s.bpp ≡ 32
  pub whole : s.size ≡ s.height * s.pitch
  pub fits : s.video_buffer + s.size < 2 ^ 32

-- The word at an address, and the colour at a pixel of the back buffer.
unfoldable pub word : (ℕ → ℕ) → ℕ → ℕ
word memory a =
    memory a + memory (a + 1) * 2 ^ 8 + memory (a + 2) * 2 ^ 16 + memory (a + 3) * 2 ^ 24

unfoldable pub pixel : Frame → ℕ → ℕ → ℕ
pixel s x y = word s.memory (s.video_buffer + y * s.pitch + 4 * x)

pub write_word-outside :
    (addr value a : ℕ) (memory : ℕ → ℕ)
    → (a < addr) ⊎ (addr + 4 ≤ a)
    → write_word addr value memory a ≡ memory a
unfolding write_word store
write_word-outside addr value a memory out = ground (arith, out)

pub write_word-word :
    (addr value : ℕ) (memory : ℕ → ℕ)
    → value < 2 ^ 32
    → word (write_word addr value memory) addr ≡ value
unfolding write_word store word
write_word-word addr value memory small =
    let b0 : (write_word addr value memory addr) ≡ u8 value = ground arith in
    let b1 : (write_word addr value memory (addr + 1)) ≡ u8 (value >> 8) = ground arith in
    let b2 : (write_word addr value memory (addr + 2)) ≡ u8 (value >> 16) = ground arith in
    let b3 : (write_word addr value memory (addr + 3)) ≡ u8 (value >> 24) = ground arith in
    omega (arith, b0, b1, b2, b3)

pub write_word-apart :
    (addr value a : ℕ) (memory : ℕ → ℕ)
    → (a + 4 ≤ addr) ⊎ (addr + 4 ≤ a)
    → word (write_word addr value memory) a ≡ word memory a
unfolding word
write_word-apart addr value a memory out =
    let same : (k : ℕ) → k < 4 → write_word addr value memory (a + k) ≡ memory (a + k) = λ k lt.
      write_word-outside addr value (a + k) memory
        (elim out [ inl p ↦ inl (omega arith) | inr p ↦ inr (omega arith) ]) in
    let first : write_word addr value memory a ≡ memory a =
      write_word-outside addr value a memory
        (elim out [ inl p ↦ inl (omega arith) | inr p ↦ inr (omega arith) ]) in
    rw (first, same 1 (omega arith), same 2 (omega arith), same 3 (omega arith)) refl

-- The rows of the frame do not overlap.
pub rows_apart : (a b pitch : ℕ) → a < b → a * pitch + pitch ≤ b * pitch
rows_apart a b pitch lt =
    let e : b ≡ a + 1 + (b - (a + 1)) = omega arith in
    omega
      (arith, ap (λ (t : ℕ). t * pitch) e, add-mul (a + 1) (b - (a + 1)) pitch, add-mul a 1 pitch)

-- A pixel of the screen has its word inside the back buffer.
inside_frame :
    (x y : ℕ) (s : Frame)
    → IsFrame s
    → x < s.width
    → y < s.height
    → y * s.pitch + 4 * x + 4 ≤ s.size
inside_frame x y s h hx hy =
    omega (arith, h.whole, h.row, h.narrow, rows_apart y s.height s.pitch hy)

pixel_addr_lem :
    (x y : ℕ) (s : Frame)
    → IsFrame s
    → x < s.width
    → y < s.height
    → pixel_addr x y s ≡ s.video_buffer + y * s.pitch + 4 * x
unfolding pixel_addr
pixel_addr_lem x y s h hx hy = rw h.depth (omega (arith, inside_frame x y s h hx hy, h.fits, h.few))

-- A pixel of the screen is drawn.
pub vbe_put_pixel-drawn :
    (x y color : ℕ) (s : Frame)
    → IsFrame s
    → x < s.width
    → y < s.height
    → vbe_put_pixel x y color s
      ≡ record s { memory = write_word (s.video_buffer + y * s.pitch + 4 * x) color s.memory }
unfolding vbe_put_pixel
vbe_put_pixel-drawn x y color s h hx hy =
    let at = pixel_addr_lem x y s h hx hy in
    let room = inside_frame x y s h hx hy in
    let low : ltb (s.video_buffer + y * s.pitch + 4 * x) s.video_buffer ≡ false = ground arith in
    let high : leb (u32 (s.video_buffer + s.size)) (s.video_buffer + y * s.pitch + 4 * x) ≡ false =
      ground (arith, room, h.fits) in
    rw (at, low, high) refl

-- Two pixels have their words apart.
pixels_apart :
    (x y u v : ℕ) (s : Frame)
    → IsFrame s
    → x < s.width
    → u < s.width
    → (u == x && v == y) ≡ false
    → (v * s.pitch + 4 * u + 4 ≤ y * s.pitch + 4 * x)
      ⊎ (y * s.pitch + 4 * x + 4 ≤ v * s.pitch + 4 * u)
pixels_apart x y u v s h hx hu other = elim (Bool-cases (ltb v y)) [
  | inl above ↦
      (let lt : v < y = ground (arith, above) in
        inl (omega (arith, rows_apart v y s.pitch lt, h.row, h.narrow)))
  | inr not_above ↦ elim (Bool-cases (ltb y v)) [
    | inl below ↦
        (let lt : y < v = ground (arith, below) in
          inr (omega (arith, rows_apart y v s.pitch lt, h.row, h.narrow)))
    | inr not_below ↦
        (let e : v ≡ y = ground (arith, not_above, not_below) in
          let ne : u ≢ x = ground (arith, other, e) in
          let same : v * s.pitch ≡ y * s.pitch = ap (λ (t : ℕ). t * s.pitch) e in
          elim (Bool-cases (ltb u x)) [
            | inl left ↦ (let lt : u < x = ground (arith, left) in inl (omega (arith, same)))
            | inr not_left ↦
                (let lt : x < u = ground (arith, not_left, ne) in inr (omega (arith, same)))
          ])
  ]
]

-- A write of a pixel changes the colour of that pixel alone.
pub vbe_put_pixel_lem :
    (x y color u v : ℕ) (s : Frame)
    → IsFrame s
    → x < s.width
    → y < s.height
    → u < s.width
    → color < 2 ^ 32
    → pixel (vbe_put_pixel x y color s) u v ≡ (if u == x && v == y then color else pixel s u v)
unfolding pixel
vbe_put_pixel_lem x y color u v s h hx hy hu small =
    rw (vbe_put_pixel-drawn x y color s h hx hy) (elim (Bool-cases (u == x && v == y)) [
      | inl here ↦
          (let column : u ≡ x = ground (arith, here) in
            let row : v ≡ y = ground (arith, here) in
            rw here (
              rw (column, row)
                (write_word-word (s.video_buffer + y * s.pitch + 4 * x) color s.memory small)))
      | inr other ↦ rw other (
          write_word-apart (s.video_buffer + y * s.pitch + 4 * x) color
            (s.video_buffer + v * s.pitch + 4 * u) s.memory
            (elim (pixels_apart x y u v s h hx hu other) [
              | inl p ↦ inl (omega arith)
              | inr p ↦ inr (omega arith)
            ]))
    ])

-- A row starts at a multiple of four bytes.
pub four_rows : (n pitch words : ℕ) → pitch ≡ 4 * words → n * pitch ≡ 4 * (n * words)
four_rows zero pitch words e = omega arith
four_rows (suc n) pitch words e =
    omega (arith, e, four_rows n pitch words e, add-mul n 1 pitch, add-mul n 1 words)
