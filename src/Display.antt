-- ===== src/Display.antt =====
-- drivers/display/vbe.cpp and font.cpp: the back buffer of the frame buffer, and the characters that
-- are drawn in it. The shapes of the characters, a table of public-domain data, are a parameter.
pub mod Pixels
pub mod Drawn
pub mod Glyphs
pub mod Clear
pub mod Lines
pub mod Scroll
mod Examples
use os_from_scratch.Common.{
  ℕ, zero, suc, ◌+◌, ◌-◌, ◌*◌, ◌/◌, ◌%◌, Bool, true, not, ◌||◌, bit_and, bit_or, ltb, leb, ◌==◌,
  if◌then◌else◌,
}
use os_from_scratch.Common.Word.{u8, u32, sub32, ◌<<◌, ◌>>◌, store}
use os_from_scratch.Bytes.{memcpy}

-- The static variables of vbe.cpp and the members of the boot information that it reads.
-- `memory` is the memory by bytes.
pub record Frame : Type 0 where
  pub video_buffer : ℕ
  pub size : ℕ
  pub pitch : ℕ
  pub width : ℕ
  pub height : ℕ
  pub bpp : ℕ
  pub memory : ℕ → ℕ

abbrev pub video_vrt_addr : ℕ
video_vrt_addr = 0xE0000000

-- `*(uint32_t*)addr = value`.
unfoldable pub write_word : ℕ → ℕ → (ℕ → ℕ) → ℕ → ℕ
unfolding store
write_word addr value memory =
    store
      (store (store (store memory addr (u8 value)) (addr + 1) (u8 (value >> 8))) (addr + 2)
        (u8 (value >> 16)))
      (addr + 3) (u8 (value >> 24))

-- The address of a pixel in 32 bits.
unfoldable pub pixel_addr : ℕ → ℕ → Frame → ℕ
pixel_addr x y s = u32 (s.video_buffer + u32 (u32 (y * s.pitch) + u32 (x * s.bpp) / 8))

-- LOG_ERROR, which writes a message on the console when the pixel is off the buffer, is left out: the
-- console draws in turn, so that such a call may come back here.
unfoldable pub vbe_put_pixel : ℕ → ℕ → ℕ → Frame → Frame
unfolding pixel_addr write_word
vbe_put_pixel x y color s =
    let addr = pixel_addr x y s in
    if ltb addr s.video_buffer || leb (u32 (s.video_buffer + s.size)) addr
    then s
    else record s { memory = write_word addr color s.memory }

-- The loop of vbe_clear_screen.
unfoldable pub clear_loop : ℕ → ℕ → ℕ → ℕ → Frame → Frame
unfolding vbe_put_pixel
clear_loop zero i width color s = s
clear_loop (suc left) i width color s =
    clear_loop left (i + 1) width color (vbe_put_pixel (i % width) (i / width) color s)

unfoldable pub vbe_clear_screen : ℕ → Frame → Frame
unfolding clear_loop
vbe_clear_screen color s = clear_loop (u32 (s.height * s.width)) 0 s.width color s

-- The loop that fills the lines that a scroll freed.
unfoldable pub fill_loop : ℕ → ℕ → ℕ → ℕ → (ℕ → ℕ) → ℕ → ℕ
unfolding write_word
fill_loop zero i addr color memory = memory
fill_loop (suc left) i addr color memory =
    fill_loop left (i + 1) addr color (write_word (addr + 4 * i) color memory)

unfoldable pub vbe_scroll_up : ℕ → ℕ → Frame → Frame
unfolding fill_loop memcpy
vbe_scroll_up lines bg_color s =
    let block_size = u32 (lines * 8 * s.pitch) in
    let screen_size = u32 (s.height * s.pitch) in
    let kept = sub32 screen_size block_size in
    let moved = memcpy s.video_buffer (s.video_buffer + block_size) kept s.memory in
    record s { memory = fill_loop (block_size / 4) 0 (s.video_buffer + kept) bg_color moved }

unfoldable pub vbe_swap_buffer : Frame → Frame
unfolding memcpy
vbe_swap_buffer s = record s { memory = memcpy video_vrt_addr s.video_buffer s.size s.memory }

unfoldable pub vbe_rgb : ℕ → ℕ → ℕ → ℕ
vbe_rgb r g b = bit_or (bit_or (r << 16) (g << 8)) b

-- The loop of vbe_draw_line from the column `i` on.
unfoldable pub line_loop : ℕ → ℕ → ℕ → ℕ → Frame → Frame
unfolding vbe_put_pixel
line_loop zero i y color s = s
line_loop (suc left) i y color s = line_loop left (i + 1) y color (vbe_put_pixel i y color s)

-- `y2` is not read.
unfoldable pub vbe_draw_line : ℕ → ℕ → ℕ → ℕ → ℕ → Frame → Frame
unfolding line_loop
vbe_draw_line x1 y1 x2 y2 color s = line_loop (x2 - x1) x1 y1 color s

-- The source repeats the body of vbe_draw_line.
unfoldable pub vbe_draw_rect : ℕ → ℕ → ℕ → ℕ → ℕ → Frame → Frame
unfolding line_loop
vbe_draw_rect x1 y1 x2 y2 color s = line_loop (x2 - x1) x1 y1 color s

-- The inner loop over the pixels of a row of a character, of which those in `on` are drawn.
unfoldable pub row_loop : ℕ → ℕ → (ℕ → Bool) → ℕ → ℕ → ℕ → Frame → Frame
unfolding vbe_put_pixel
row_loop zero j on x y color s = s
row_loop (suc left) j on x y color s =
    let s1 = if on j then vbe_put_pixel (u32 (x + j)) y color s else s in
    row_loop left (j + 1) on x y color s1

-- The loop over the rows.
unfoldable pub rows_loop : ℕ → ℕ → (ℕ → ℕ → Bool) → ℕ → ℕ → ℕ → Frame → Frame
unfolding row_loop
rows_loop zero i on x y color s = s
rows_loop (suc left) i on x y color s =
    rows_loop left (i + 1) on x y color (row_loop 8 0 (on i) x (u32 (y + i)) color s)

-- The pixels of the character `c`: `font c i` is the row `i` of its shape.
unfoldable pub font_bit : (ℕ → ℕ → ℕ) → ℕ → ℕ → ℕ → Bool
font_bit font c i j = not (bit_and (font c i) (1 << j) == 0)

unfoldable pub font_draw_char : (ℕ → ℕ → ℕ) → ℕ → ℕ → ℕ → ℕ → Frame → Frame
unfolding rows_loop font_bit
font_draw_char font x y color c s = rows_loop 8 0 (font_bit font c) x y color s

unfoldable pub font_erase_char : ℕ → ℕ → ℕ → Frame → Frame
unfolding rows_loop
font_erase_char x y bg_color s = rows_loop 8 0 (λ i j. true) x y bg_color s
