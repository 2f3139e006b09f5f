-- ===== src/Display/Glyphs.antt =====
-- The characters that are drawn, pixel by pixel.
use os_from_scratch.Common.{
  ℕ, zero, suc, ◌+◌, ◌-◌, ◌^◌, ◌≤◌, ◌<◌, ◌≡◌, refl, arith, inl, inr, Bool, true, false, ◌||◌, ◌&&◌,
  ltb, leb, ◌==◌, ==→eq, Bool-cases, if◌then◌else◌,
}
use os_from_scratch.Common.Word.{u32}
use os_from_scratch.Display.{
  Frame, vbe_put_pixel, row_loop, rows_loop, font_bit, font_draw_char, font_erase_char,
}
use os_from_scratch.Display.Pixels.{IsFrame, pixel}
use os_from_scratch.Display.Drawn.{Drawn, none-Drawn, then-Drawn, same-Drawn, put-Drawn}

-- The pixels of a row that the rounds from `j` on draw.
abbrev row_part : ℕ → ℕ → (ℕ → Bool) → ℕ → ℕ → ℕ → ℕ → Bool
row_part left j on x y u v = v == y && (leb (x + j) u && ltb u (x + j + left) && on (u - x))

abbrev row_pixel : (ℕ → Bool) → ℕ → ℕ → ℕ → ℕ → ℕ → Bool
row_pixel on j x y u v = on j && (u == x + j && v == y)

row_part-step :
    (left j : ℕ) (on : ℕ → Bool) (x y u v : ℕ)
    → (row_part left (j + 1) on x y u v || row_pixel on j x y u v)
      ≡ row_part (suc left) j on x y u v
row_part-step left j on x y u v = elim (Bool-cases (u == x + j)) [
  | inl here ↦
      (let e = ==→eq u (x + j) here in
        let place : u - x ≡ j = omega arith in rw place (ground (arith, here)))
  | inr other ↦ ground (arith, other)
]

-- One round of the loop over a row.
row_pixel-Drawn :
    (on : ℕ → Bool) (j x y color : ℕ) (s : Frame)
    → IsFrame s
    → x + j < s.width
    → y < s.height
    → color < 2 ^ 32
    → Drawn (row_pixel on j x y) color s (if on j then vbe_put_pixel (u32 (x + j)) y color s else s)
row_pixel-Drawn on j x y color s h hx hy small =
    let at : u32 (x + j) ≡ x + j = omega (arith, h.few) in
    elim (Bool-cases (on j)) [
      | inl drawn ↦ rw at (
          same-Drawn (λ u v. u == x + j && v == y) (row_pixel on j x y) color s _
            (rw drawn (put-Drawn (x + j) y color s h hx hy small)) (λ u v lt. rw drawn refl))
      | inr skipped ↦
          same-Drawn (λ u v. false) (row_pixel on j x y) color s _
            (rw skipped (none-Drawn color s h)) (λ u v lt. rw skipped refl)
    ]

row_loop-Drawn :
    (left j : ℕ) (on : ℕ → Bool) (x y color : ℕ) (s : Frame)
    → IsFrame s
    → x + j + left ≤ s.width
    → y < s.height
    → color < 2 ^ 32
    → Drawn (row_part left j on x y) color s (row_loop left j on x y color s)
unfolding row_loop
row_loop-Drawn zero j on x y color s h hx hy small =
    same-Drawn (λ u v. false) (row_part zero j on x y) color s s (none-Drawn color s h)
      (λ u v lt. ground arith)
row_loop-Drawn (suc left) j on x y color s h hx hy small =
    let s1 = if on j then vbe_put_pixel (u32 (x + j)) y color s else s in
    let first = row_pixel-Drawn on j x y color s h (omega arith) hy small in
    let rest =
      row_loop-Drawn left (j + 1) on x y color s1 first.frame (omega (arith, first.width))
        (omega (arith, first.height)) small in
    same-Drawn (λ u v. row_part left (j + 1) on x y u v || row_pixel on j x y u v)
      (row_part (suc left) j on x y) color s (row_loop left (j + 1) on x y color s1)
      (then-Drawn (row_pixel on j x y) (row_part left (j + 1) on x y) color s s1
        (row_loop left (j + 1) on x y color s1) first rest)
      (λ u v lt. row_part-step left j on x y u v)

-- The pixels of a character that the rounds from the row `i` on draw.
abbrev glyph_part : ℕ → ℕ → (ℕ → ℕ → Bool) → ℕ → ℕ → ℕ → ℕ → Bool
glyph_part left i on x y u v =
    leb (y + i) v && ltb v (y + i + left) && (leb x u && ltb u (x + 8) && on (v - y) (u - x))

glyph_part-step :
    (left i : ℕ) (on : ℕ → ℕ → Bool) (x y u v : ℕ)
    → (glyph_part left (i + 1) on x y u v || row_part 8 0 (on i) x (y + i) u v)
      ≡ glyph_part (suc left) i on x y u v
glyph_part-step left i on x y u v = elim (Bool-cases (v == y + i)) [
  | inl here ↦
      (let e = ==→eq v (y + i) here in
        let place : v - y ≡ i = omega arith in rw place (ground (arith, here)))
  | inr other ↦ ground (arith, other)
]

rows_loop-Drawn :
    (left i : ℕ) (on : ℕ → ℕ → Bool) (x y color : ℕ) (s : Frame)
    → IsFrame s
    → x + 8 ≤ s.width
    → y + i + left ≤ s.height
    → s.height < 2 ^ 32
    → color < 2 ^ 32
    → Drawn (glyph_part left i on x y) color s (rows_loop left i on x y color s)
unfolding rows_loop
rows_loop-Drawn zero i on x y color s h hx hy low small =
    same-Drawn (λ u v. false) (glyph_part zero i on x y) color s s (none-Drawn color s h)
      (λ u v lt. ground arith)
rows_loop-Drawn (suc left) i on x y color s h hx hy low small =
    let at : u32 (y + i) ≡ y + i = omega arith in
    let s1 = row_loop 8 0 (on i) x (y + i) color s in
    let first = row_loop-Drawn 8 0 (on i) x (y + i) color s h (omega arith) (omega arith) small in
    let rest =
      rows_loop-Drawn left (i + 1) on x y color s1 first.frame (omega (arith, first.width))
        (omega (arith, first.height)) (omega (arith, first.height)) small in
    rw at (
      same-Drawn (λ u v. glyph_part left (i + 1) on x y u v || row_part 8 0 (on i) x (y + i) u v)
        (glyph_part (suc left) i on x y) color s (rows_loop left (i + 1) on x y color s1)
        (then-Drawn (row_part 8 0 (on i) x (y + i)) (glyph_part left (i + 1) on x y) color s s1
          (rows_loop left (i + 1) on x y color s1) first rest)
        (λ u v lt. glyph_part-step left i on x y u v))

-- Whether a pixel is in the 8 by 8 pixels at `x`, `y`.
abbrev pub in_cell : ℕ → ℕ → ℕ → ℕ → Bool
in_cell x y u v = leb y v && ltb v (y + 8) && (leb x u && ltb u (x + 8))

abbrev in_cell_set : (ℕ → ℕ → Bool) → ℕ → ℕ → ℕ → ℕ → Bool
in_cell_set on x y u v = in_cell x y u v && on (v - y) (u - x)

glyph-Drawn :
    (on : ℕ → ℕ → Bool) (x y color : ℕ) (s : Frame)
    → IsFrame s
    → x + 8 ≤ s.width
    → y + 8 ≤ s.height
    → s.height < 2 ^ 32
    → color < 2 ^ 32
    → Drawn (in_cell_set on x y) color s (rows_loop 8 0 on x y color s)
glyph-Drawn on x y color s h hx hy low small =
    same-Drawn (glyph_part 8 0 on x y) (in_cell_set on x y) color s (rows_loop 8 0 on x y color s)
      (rows_loop-Drawn 8 0 on x y color s h hx (omega arith) low small) (λ u v lt. ground arith)

-- On a frame of 32 bits a pixel, whose rows are a multiple of four bytes and whose back buffer is the
-- height times the pitch, in memory: a character whose cell is on the screen is drawn by the set bits
-- of its shape, and no other pixel of the screen changes.
pub font_draw_char_lem :
    (font : ℕ → ℕ → ℕ) (x y color c u v : ℕ) (s : Frame)
    → IsFrame s
    → x + 8 ≤ s.width
    → y + 8 ≤ s.height
    → s.height < 2 ^ 32
    → color < 2 ^ 32
    → u < s.width
    → pixel (font_draw_char font x y color c s) u v
      ≡ (if in_cell x y u v && font_bit font c (v - y) (u - x) then color else pixel s u v)
unfolding font_draw_char
font_draw_char_lem font x y color c u v s h hx hy low small hu =
    (glyph-Drawn (font_bit font c) x y color s h hx hy low small).pixels u v hu

-- Erasing gives the whole cell one colour, and changes no other pixel of the screen.
pub font_erase_char_lem :
    (x y bg_color u v : ℕ) (s : Frame)
    → IsFrame s
    → x + 8 ≤ s.width
    → y + 8 ≤ s.height
    → s.height < 2 ^ 32
    → bg_color < 2 ^ 32
    → u < s.width
    → pixel (font_erase_char x y bg_color s) u v
      ≡ (if in_cell x y u v then bg_color else pixel s u v)
unfolding font_erase_char
font_erase_char_lem x y bg_color u v s h hx hy low small hu =
    (same-Drawn (in_cell_set (λ i j. true) x y) (in_cell x y) bg_color s _
        (glyph-Drawn (λ i j. true) x y bg_color s h hx hy low small)
        (λ a b lt. ground arith)).pixels
      u v hu
