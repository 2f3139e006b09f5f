-- ===== src/Screen.antt =====
-- drivers/screen.cpp: the text screen at 0xb8000, and the cursor in the registers 14 and 15 of the
-- display controller.
pub mod Text
mod Examples
use os_from_scratch.Common.{
  ℕ, zero, suc, ◌+◌, ◌-◌, ◌*◌, ◌/◌, ◌%◌, List, [], ◌∷◌, Option, none, some, bit_and, ltb, ◌==◌,
  if◌then◌else◌,
}
use os_from_scratch.Common.Word.{u8, ◌<<◌, ◌>>◌, store}
use os_from_scratch.Ports.{Event, Device, out_byte, in_byte}

abbrev pub max_row : ℕ
max_row = 25

abbrev pub max_col : ℕ
max_col = 80

abbrev pub white_on_black : ℕ
white_on_black = 0x0f

abbrev pub reg_screen_ctrl : ℕ
reg_screen_ctrl = 0x3D4

abbrev pub reg_screen_data : ℕ
reg_screen_data = 0x3D5

-- The bytes from 0xb8000 on, and the port events.
pub record Screen : Type 0 where
  pub video : ℕ → ℕ
  pub history : List Event

unfoldable pub get_offset : ℕ → ℕ → ℕ
get_offset col row = (row * max_col + col) * 2

-- The column and the row.
unfoldable pub parse_offset : ℕ → ℕ × ℕ
parse_offset offset = (offset % max_col / 2, offset / (2 * max_col))

unfoldable pub get_cursor : Device → List Event → ℕ × List Event
get_cursor device history =
    let (high, history1) = in_byte device reg_screen_data (out_byte reg_screen_ctrl 0x0E history) in
    let (low, history2) = in_byte device reg_screen_data (out_byte reg_screen_ctrl 0x0F history1) in
    (((high << 8) + low) * 2, history2)

unfoldable pub set_cursor : ℕ → List Event → List Event
set_cursor offset history =
    let cell = offset / 2 in
    let history1 =
      out_byte reg_screen_data (u8 (cell >> 8)) (out_byte reg_screen_ctrl 0x0E history) in
    out_byte reg_screen_data (u8 (bit_and cell 0xFF)) (out_byte reg_screen_ctrl 0x0F history1)

-- print_char at the offset that it found; a newline reads the cursor again.
unfoldable pub print_at : Device → ℕ → ℕ → ℕ → Screen → Screen
unfolding get_offset parse_offset get_cursor set_cursor store
print_at device attribute offset character s =
    let (again, history1) = get_cursor device s.history in
    if character == 10
    then record s { history = set_cursor (get_offset 0 ((parse_offset again).1 + 1)) history1 }
    else if character == 9
    then record s { history = set_cursor (offset + 4) s.history }
    else if character == 8
    then (if ltb 0 offset
        then record s {
          video = store (store s.video (offset - 2) 32) (offset - 2 + 1) attribute;
          history = set_cursor (offset - 2) s.history;
        }
        else s)
    else record s {
      video = store (store s.video offset character) (offset + 1) attribute;
      history = set_cursor (offset + 2) s.history;
    }

-- The position is `none` where the column or the row is negative: then the cursor is read.
unfoldable pub print_char : Device → ℕ → Option (ℕ × ℕ) → ℕ → Screen → Screen
unfolding print_at get_offset get_cursor
print_char device attribute position character s =
    let shown = if attribute == 0 then white_on_black else attribute in
    let (offset, history1) = get_cursor device s.history in
    elim position [
      | none ↦ print_at device shown offset character (record s { history = history1 })
      | some (col, row) ↦ print_at device shown (get_offset col row) character s
    ]

unfoldable pub print_string : Device → List ℕ → Screen → Screen
unfolding print_char
print_string device [] s = s
print_string device (c ∷ cs) s = print_string device cs (print_char device white_on_black none c s)

-- The loop of clean_screen.
unfoldable pub clean_loop : ℕ → ℕ → (ℕ → ℕ) → ℕ → ℕ
unfolding store
clean_loop zero i video = video
clean_loop (suc left) i video =
    clean_loop left (i + 1) (store (store video (2 * i) 32) (2 * i + 1) white_on_black)

unfoldable pub clean_screen : Screen → Screen
unfolding clean_loop set_cursor
clean_screen s = record s {
  video = clean_loop (max_row * max_col) 0 s.video;
  history = set_cursor 0 s.history;
}
