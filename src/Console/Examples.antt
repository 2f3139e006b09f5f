-- ===== src/Console/Examples.antt =====
-- A console of 640 by 480 pixels with the cursor at the start.
use os_from_scratch.Common.{◌+◌, ◌≤◌, ◌<◌, ◌⊎◌, refl, arith, []}
use os_from_scratch.Console.{Console, console_put_char}
use os_from_scratch.Console.Cursor.{InLine, console_put_char_lem}

abbrev at_start : Console
at_start = record {
  cursor_x = 10;
  cursor_y = 10;
  screen_usable_width = 630;
  screen_usable_height = 470;
  drawn = [];
}

at_start-InLine : InLine at_start
at_start-InLine = record {
  column = 0;
  at_column = refl;
  left_of_end = omega arith;
  small = omega arith;
  wide = omega arith;
}

console_put_char_lem_example :
    InLine (console_put_char 65 at_start)
    × (((console_put_char 65 at_start).cursor_y < 470)
        ⊎ ((console_put_char 65 at_start).cursor_y ≤ 10 + 2))
console_put_char_lem_example =
    console_put_char_lem 65 at_start at_start-InLine (omega arith) (omega arith) (omega arith)
