-- ===== src/Console/Cursor.antt =====
-- Where console_put_char leaves the cursor.
use os_from_scratch.Common.{
  ℕ, ◌+◌, ◌-◌, ◌*◌, ◌%◌, ◌^◌, ◌≤◌, ◌<◌, ◌≡◌, ◌⊎◌, arith, ◌∷◌, refl, false, ◌&&◌, ltb, leb, ◌==◌,
  Bool-cases, inl, inr,
}
use os_from_scratch.Console.{
  Console, font_draw_char, font_erase_char, draw_printable, draw_special, wrap_line, console_scroll,
  console_put_char,
}

-- The cursor is at a whole character right of the margin and left of the usable width.
pub record InLine (s : Console) : Type 0 where
  pub column : ℕ
  pub at_column : s.cursor_x ≡ 10 + column * 8
  pub left_of_end : s.cursor_x < s.screen_usable_width
  pub small : s.screen_usable_width < 2 ^ 31
  pub wide : 10 < s.screen_usable_width

-- `t` has the cursor in a line, at the height of `s` or a line below, on the same screen.
record Lands (s t : Console) : Type 0 where
  line : InLine t
  height : (t.cursor_y ≡ s.cursor_y) ⊎ (t.cursor_y ≡ s.cursor_y + 10)
  screen : t.screen_usable_height ≡ s.screen_usable_height

wrap_line-Lands :
    (s : Console) (column : ℕ)
    → s.cursor_x ≡ 10 + column * 8
    → s.screen_usable_width < 2 ^ 31
    → 10 < s.screen_usable_width
    → s.cursor_y + 10 < 2 ^ 32
    → Lands s (wrap_line s)
unfolding wrap_line
wrap_line-Lands s column at_column small wide room =
    elim (Bool-cases (leb s.screen_usable_width s.cursor_x)) [
      | inl over ↦ rw over (record {
        line = record {
          column = 0;
          at_column = refl;
          left_of_end = wide;
          small = small;
          wide = wide;
        };
        height = inr (omega arith);
        screen = refl;
      })
      | inr inside ↦ rw inside (record {
        line = record {
          column = column;
          at_column = at_column;
          left_of_end = ground arith;
          small = small;
          wide = wide;
        };
        height = inl refl;
        screen = refl;
      })
    ]

-- A step that keeps the height and the screen, and then the wrap.
from_step :
    (s t : Console) (column : ℕ)
    → t.cursor_x ≡ 10 + column * 8
    → t.cursor_y ≡ s.cursor_y
    → t.screen_usable_width ≡ s.screen_usable_width
    → t.screen_usable_height ≡ s.screen_usable_height
    → InLine s
    → s.cursor_y + 20 < 2 ^ 32
    → Lands s (wrap_line t)
from_step s t column at_column same_y same_width same_height h room =
    let lands =
      wrap_line-Lands t column at_column (omega (arith, same_width, h.small))
        (omega (arith, same_width, h.wide)) (omega (arith, same_y)) in
    record {
      line = lands.line;
      height = elim lands.height [
        | inl e ↦ inl (omega (arith, e, same_y))
        | inr e ↦ inr (omega (arith, e, same_y))
      ];
      screen = omega (arith, lands.screen, same_height);
    }

moved-Lands :
    (c : ℕ) (s : Console)
    → InLine s
    → s.cursor_y + 20 < 2 ^ 32
    → Lands s (wrap_line (draw_special c (draw_printable c s)))
unfolding draw_printable draw_special wrap_line
moved-Lands c s h room = elim (Bool-cases (leb 32 c && leb c 126)) [
  | inl printable ↦
      (let not_newline : (c == 10) ≡ false = ground arith in
        let not_tab : (c == 9) ≡ false = ground arith in
        let not_back : (c == 8) ≡ false = ground arith in
        rw (draw_special, draw_printable, printable, not_newline, not_tab, not_back)
          (from_step s
            (record s {
              cursor_x = (s.cursor_x + 8) % 2 ^ 32;
              drawn = font_draw_char s.cursor_x s.cursor_y c ∷ s.drawn;
            })
            (h.column + 1) (omega (arith, h.at_column, h.left_of_end, h.small)) refl refl refl h
            room))
  | inr control ↦ elim (Bool-cases (c == 10)) [
    | inl newline ↦
        (let no_wrap : leb s.screen_usable_width 10 ≡ false = ground (arith, h.wide) in
          rw (wrap_line, draw_special, draw_printable, control, newline, no_wrap)
            (record {
              line = record {
                column = 0;
                at_column = refl;
                left_of_end = h.wide;
                small = h.small;
                wide = h.wide;
              };
              height = inr (omega arith);
              screen = refl;
            }))
    | inr not_newline ↦ elim (Bool-cases (c == 9)) [
      | inl tab ↦
          rw (draw_special, draw_printable, control, not_newline, tab)
            (from_step s (record s { cursor_x = (s.cursor_x + 32) % 2 ^ 32 }) (h.column + 4)
              (omega (arith, h.at_column, h.left_of_end, h.small)) refl refl refl h room)
      | inr not_tab ↦ elim (Bool-cases (c == 8 && ltb 10 s.cursor_x)) [
        | inl back ↦
            rw (draw_special, draw_printable, control, not_newline, not_tab, back)
              (from_step s
                (record s {
                  cursor_x = s.cursor_x - 8;
                  drawn = font_erase_char (s.cursor_x - 8) s.cursor_y ∷ s.drawn;
                })
                (h.column - 1) (ground (arith, h.at_column)) refl refl refl h room)
        | inr still ↦
            rw (draw_special, draw_printable, control, not_newline, not_tab, still)
              (from_step s s h.column h.at_column refl refl refl h room)
      ]
    ]
  ]
]

-- With a cursor whose eight pixels are on the screen, which ends 10 pixels below the usable height,
-- and a usable height of 8 or more, `console_put_char` keeps the cursor in a line, right of the margin
-- at a whole character and left of the usable width; afterwards the cursor is above the usable height
-- or at most two pixels lower than before. The width is below 2 ^ 31 and the cursor is more than 20
-- below 2 ^ 32.
pub console_put_char_lem :
    (c : ℕ) (s : Console)
    → InLine s
    → s.cursor_y + 20 < 2 ^ 32
    → 8 ≤ s.screen_usable_height
    → s.cursor_y ≤ s.screen_usable_height + 2
    → InLine (console_put_char c s)
      × (((console_put_char c s).cursor_y < s.screen_usable_height)
          ⊎ ((console_put_char c s).cursor_y ≤ s.cursor_y + 2))
unfolding console_put_char console_scroll
console_put_char_lem c s h room tall on_screen =
    let moved = wrap_line (draw_special c (draw_printable c s)) in
    let lands = moved-Lands c s h room in
    elim (Bool-cases (leb moved.screen_usable_height moved.cursor_y)) [
      | inr above ↦ rw (console_put_char, above) (lands.line, inl (ground (arith, lands.screen)))
      | inl low ↦
          rw (console_put_char, low)
            (
              record {
                column = lands.line.column;
                at_column = lands.line.at_column;
                left_of_end = lands.line.left_of_end;
                small = lands.line.small;
                wide = lands.line.wide;
              },
              inr (ground (arith, lands.height, lands.screen)),
            )
    ]
