-- ===== src/Display/Examples.antt =====
-- A screen of 16 by 16 pixels, and a shape that is a diagonal.
use os_from_scratch.Common.{ℕ, ◌+◌, ◌-◌, ◌*◌, ◌^◌, ◌≡◌, refl, arith, ◌&&◌, ltb, if◌then◌else◌}
use os_from_scratch.Display.{Frame, vbe_scroll_up, font_bit, font_draw_char}
use os_from_scratch.Display.Pixels.{IsFrame, pixel}
use os_from_scratch.Display.Glyphs.{in_cell, font_draw_char_lem}
use os_from_scratch.Display.Clear.{}
use os_from_scratch.Display.Scroll.{vbe_scroll_up_lem}

abbrev screen : Frame
screen = record {
  video_buffer = 0x500000;
  size = 1024;
  pitch = 64;
  width = 16;
  height = 16;
  bpp = 32;
  memory = λ a. 0;
}

screen-IsFrame : IsFrame screen
screen-IsFrame = record {
  words = 16;
  row = refl;
  narrow = omega arith;
  few = omega arith;
  depth = refl;
  whole = refl;
  fits = omega arith;
}

abbrev diagonal : ℕ → ℕ → ℕ
diagonal c i = 2 ^ i

font_draw_char_lem_example : pixel (font_draw_char diagonal 8 8 0xFFFFFF 65 screen) 10 10 ≡ (
    if in_cell 8 8 10 10 && font_bit diagonal 65 (10 - 8) (10 - 8)
    then 0xFFFFFF
    else pixel screen 10 10)
font_draw_char_lem_example =
    font_draw_char_lem diagonal 8 8 0xFFFFFF 65 10 10 screen screen-IsFrame (omega arith)
      (omega arith) (omega arith) (omega arith) (omega arith)

vbe_scroll_up_lem_example :
    pixel (vbe_scroll_up 1 0x112233 screen) 3 5
    ≡ (if ltb (5 + 1 * 8) 16 then pixel screen 3 (5 + 1 * 8) else 0x112233)
vbe_scroll_up_lem_example =
    vbe_scroll_up_lem 1 0x112233 3 5 screen screen-IsFrame (omega arith) (omega arith) (omega arith)
      (omega arith)
