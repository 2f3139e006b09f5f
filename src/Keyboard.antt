-- ===== src/Keyboard.antt =====
-- drivers/keyboard.cpp: the scancode table, and the line buffer that the interrupt fills.
pub mod Line
pub mod Reader
mod Examples
use os_from_scratch.Common.{
  ℕ, zero, suc, ◌+◌, ◌-◌, Bool, true, false, ◌&&◌, not, List, [], ◌∷◌, Option, none, some, ◌^◌,
  bit_and, ltb, ◌==◌, if◌then◌else◌, get_or,
}
use os_from_scratch.Common.Word.{store}
use os_from_scratch.Ports.{Event, Device, out_byte, in_byte}

-- '\n' and '\b'.
abbrev pub enter : ℕ
enter = 10

abbrev pub backspace : ℕ
backspace = 8

-- The first 59 of the 128 entries, and of the others the two that are not 0.
abbrev pub table_start : List ℕ
table_start =
    0 ∷ 27 ∷ b'1' ∷ b'2' ∷ b'3' ∷ b'4' ∷ b'5' ∷ b'6' ∷ b'7' ∷ b'8' ∷ b'9' ∷ b'0' ∷ b'-' ∷ b'='
    ∷ backspace ∷ 9 ∷ b'q' ∷ b'w' ∷ b'e' ∷ b'r' ∷ b't' ∷ b'y' ∷ b'u' ∷ b'i' ∷ b'o' ∷ b'p' ∷ b'['
    ∷ b']' ∷ enter ∷ 0 ∷ b'a' ∷ b's' ∷ b'd' ∷ b'f' ∷ b'g' ∷ b'h' ∷ b'j' ∷ b'k' ∷ b'l' ∷ b';' ∷ 39
    ∷ b'`' ∷ 0 ∷ 92 ∷ b'z' ∷ b'x' ∷ b'c' ∷ b'v' ∷ b'b' ∷ b'n' ∷ b'm' ∷ b',' ∷ b'.' ∷ b'/' ∷ 0 ∷ b'*'
    ∷ 0 ∷ b' ' ∷ 0 ∷ []

unfoldable pub scancode_to_ascii : ℕ → ℕ
scancode_to_ascii scancode =
    if scancode == 74 then b'-' else if scancode == 78 then b'+' else get_or table_start scancode 0

-- The static variables of keyboard.cpp. `console` lists what was handed to console_put_char, the
-- latest first.
pub record Keyboard : Type 0 where
  pub key_buffer : ℕ → ℕ
  pub buffer_pos : ℕ
  pub line_ready : Bool
  pub console : List ℕ

-- keyboard_handler for the scancode that it read.
unfoldable pub handle_scancode : ℕ → Keyboard → Keyboard
handle_scancode scancode s =
    let ascii = scancode_to_ascii scancode in
    if not (bit_and scancode 0x80 == 0)
    then s
    else if ascii == enter
    then record s { line_ready = true; console = enter ∷ s.console }
    else if ascii == backspace
    then (if ltb 0 s.buffer_pos
        then record s { buffer_pos = s.buffer_pos - 1; console = backspace ∷ s.console }
        else s)
    else if not (ascii == 0)
    then (if ltb s.buffer_pos 255 && not s.line_ready
        then record s {
          key_buffer = store s.key_buffer s.buffer_pos ascii;
          buffer_pos = s.buffer_pos + 1;
          console = ascii ∷ s.console;
        }
        else s)
    else s

-- The loop that copies: `left` is max_size - 1 - i, 0 where that is negative.
unfoldable pub copy_loop : ℕ → ℕ → ℕ → (ℕ → ℕ) → (ℕ → ℕ) → ℕ → ℕ
unfolding store
copy_loop zero buffer_pos i key_buffer buffer = store buffer i 0
copy_loop (suc left) buffer_pos i key_buffer buffer =
    let rest = copy_loop left buffer_pos (i + 1) key_buffer (store buffer i (key_buffer i)) in
    if ltb i buffer_pos then rest else store buffer i 0

-- The answer, the caller's buffer and the state after the call.
unfoldable pub get_input_buffer : ℕ → (ℕ → ℕ) → Keyboard → Bool × (ℕ → ℕ) × Keyboard
unfolding copy_loop
get_input_buffer max_size buffer s = if not s.line_ready then (false, buffer, s) else (
  true,
  copy_loop (max_size - 1) s.buffer_pos 0 s.key_buffer buffer,
  record s { buffer_pos = 0; line_ready = false },
)

-- The loop of init_keyboard that empties the controller. `none`: the fuel ran out.
unfoldable pub drain_loop : ℕ → Device → List Event → Option (List Event)
drain_loop zero device history = none
drain_loop (suc fuel) device history =
    let (status, history1) = in_byte device 0x64 history in
    let (key, history2) = in_byte device 0x60 history1 in
    let rest = drain_loop fuel device history2 in
    if bit_and status 0x01 == 0 then some history1 else rest

unfoldable pub init_keyboard : ℕ → Device → List Event → Keyboard → Option (List Event × Keyboard)
unfolding drain_loop
init_keyboard fuel device history s = elim (drain_loop fuel device history) [
  | none ↦ none
  | some history1 ↦
      (let (mask, history2) = in_byte device 0x21 history1 in
        some (
          out_byte 0x21 (bit_and mask (2 ^ 32 - 1 - 2)) history2,
          record s { buffer_pos = 0; line_ready = false },
        ))
]
