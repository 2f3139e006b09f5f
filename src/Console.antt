-- ===== src/Console.antt =====
-- drivers/display/console.cpp: where the cursor goes.
pub mod Cursor
mod Examples
use os_from_scratch.Common.{
  ℕ, ◌+◌, ◌-◌, ◌%◌, ◌^◌, Bool, ◌&&◌, ltb, leb, ◌==◌, if◌then◌else◌, List, ◌∷◌,
}
use os_from_scratch.Common.Word.{u32, sub32}

abbrev pub console_margin : ℕ
console_margin = 10

-- What the console asks the font and the frame buffer to draw.
pub data Draw : Type 0 where
  font_draw_char : ℕ → ℕ → ℕ → Draw
  font_erase_char : ℕ → ℕ → Draw
  vbe_scroll_up : Draw

-- The static variables of console.cpp that change or bound the cursor. `drawn` lists the drawing
-- calls, the latest first.
pub record Console : Type 0 where
  pub cursor_x : ℕ
  pub cursor_y : ℕ
  pub screen_usable_width : ℕ
  pub screen_usable_height : ℕ
  pub drawn : List Draw

-- console_init for the width and the height of the frame buffer.
unfoldable pub console_init : ℕ → ℕ → Console → Console
console_init width height s = record {
  cursor_x = console_margin;
  cursor_y = console_margin;
  screen_usable_width = sub32 width console_margin;
  screen_usable_height = sub32 height console_margin;
  drawn = s.drawn;
}

unfoldable pub console_scroll : Console → Console
console_scroll s = record s { cursor_y = sub32 s.cursor_y 8; drawn = vbe_scroll_up ∷ s.drawn }

unfoldable pub draw_printable : ℕ → Console → Console
draw_printable c s =
    if leb 32 c && leb c 126
    then record s {
      cursor_x = u32 (s.cursor_x + 8);
      drawn = font_draw_char s.cursor_x s.cursor_y c ∷ s.drawn;
    }
    else s

unfoldable pub draw_special : ℕ → Console → Console
draw_special c s =
    if c == 10
    then record s { cursor_x = console_margin; cursor_y = u32 (s.cursor_y + 10) }
    else if c == 9
    then record s { cursor_x = u32 (s.cursor_x + 32) }
    else if c == 8 && ltb console_margin s.cursor_x
    then record s {
      cursor_x = s.cursor_x - 8;
      drawn = font_erase_char (s.cursor_x - 8) s.cursor_y ∷ s.drawn;
    }
    else s

unfoldable pub wrap_line : Console → Console
wrap_line s =
    if leb s.screen_usable_width s.cursor_x
    then record s { cursor_x = console_margin; cursor_y = u32 (s.cursor_y + 10) }
    else s

-- The two instructions around it that turn interrupts off and on are left out. A character that is
-- drawn off the screen makes vbe_put_pixel print a message, and so comes back here: that is left out
-- as well, and this is the function for a cursor whose character is on the screen.
unfoldable pub console_put_char : ℕ → Console → Console
unfolding draw_printable draw_special wrap_line console_scroll
console_put_char c s =
    let moved = wrap_line (draw_special c (draw_printable c s)) in
    if leb moved.screen_usable_height moved.cursor_y then console_scroll moved else moved
