-- ===== src/Keyboard/Examples.antt =====
-- The user types "ls", takes the "s" back, types "d" and presses Enter.
use os_from_scratch.Common.{ℕ, ◌≤◌, ◌≡◌, inr, refl, arith, List, [], ◌∷◌, true, false}
use os_from_scratch.Common.Word.{store}
use os_from_scratch.Keyboard.{Keyboard, handle_scancode, get_input_buffer}
use os_from_scratch.Keyboard.Reader.{
  Reader, called, copying, emptying, returned, interrupt, some_line, copy, terminate, empty_buffer,
  close_line, Reach, here, next, Prefix, reader_lem,
}
use os_from_scratch.Keyboard.Line.{type_keys, edit, empty, Answers, keyboard_lem}

abbrev keys : List ℕ
keys = 0x26 ∷ 0xA6 ∷ 0x1F ∷ 0x0E ∷ 0x20 ∷ 0x1C ∷ []

abbrev nothing : ℕ → ℕ
nothing k = 0

abbrev idle : Keyboard
idle = record { key_buffer = nothing; buffer_pos = 0; line_ready = false; console = [] }

keyboard_lem_example :
    ((type_keys keys idle).buffer_pos ≤ 255)
    × Answers
        (edit keys empty)
        nothing
        (type_keys keys idle)
        (get_input_buffer 256 nothing (type_keys keys idle))
keyboard_lem_example = keyboard_lem keys 256 nothing idle refl refl (omega arith)

-- Two characters wait, and a release of a key comes between the accesses.
abbrev waiting : Reader
waiting = record {
  keyboard = record {
    key_buffer = store (store nothing 0 b'h') 1 b'i';
    buffer_pos = 2;
    line_ready = true;
    console = [];
  };
  pc = called;
  out = nothing;
}

-- A buffer of two bytes takes one of them.
abbrev copied : Reader
copied = record waiting { pc = copying 1; out = store nothing 0 b'h' }

abbrev emptied : Reader
emptied = record copied { pc = emptying; out = store (store nothing 0 b'h') 1 0 }

abbrev done : Reader
done = record emptied {
  pc = returned true;
  keyboard = record (emptied.keyboard) { buffer_pos = 0; line_ready = false };
}

waiting-Reach : Reach 2 waiting done
unfolding handle_scancode store
waiting-Reach =
    next
      (next
        (next
          (next (next (next here (some_line refl refl)) (interrupt 0x90))
            (copy 0 refl (omega arith) (omega arith)))
          (terminate 1 refl (inr (omega arith))))
        (empty_buffer refl))
      (close_line refl)

reader_lem_example :
    (true ≡ true) × ((n : ℕ) × (n ≤ 2) × Prefix waiting.keyboard.key_buffer 2 n done.out)
reader_lem_example = reader_lem 2 waiting done true (omega arith) refl refl waiting-Reach refl
