-- ===== src/Keyboard/Line.antt =====
-- The line that the keyboard driver hands out.
use os_from_scratch.Common.{
  ℕ, zero, suc, ◌+◌, ◌-◌, ◌≤◌, ◌<◌, ◌≡◌, refl, sym, ap, ◌∙◌, arith, Bool, true, false, ◌&&◌, ◌||◌,
  not, List, [], ◌∷◌, length, min, bit_and, ltb, ◌==◌, if◌then◌else◌, Bool-cases, inl, inr,
}
use os_from_scratch.Common.Word.{store, store_self, store_ne}
use os_from_scratch.Keyboard.{
  Keyboard, enter, backspace, scancode_to_ascii, handle_scancode, copy_loop, get_input_buffer,
}

-- What a user edits: the characters of the line, the latest first, and whether Enter was pressed.
pub record Line : Type 0 where
  pub typed : List ℕ
  pub entered : Bool

abbrev pub drop_last : List ℕ → List ℕ
drop_last [] = []
drop_last (c ∷ cs) = cs

-- The effect of one key on the line: a release does nothing, a line has room for 255 characters,
-- and takes none once Enter was pressed.
unfoldable pub press : ℕ → Line → Line
press scancode line =
    let ascii = scancode_to_ascii scancode in
    if not (bit_and scancode 0x80 == 0) || ascii == 0
    then line
    else if ascii == enter
    then record line { entered = true }
    else if ascii == backspace
    then record line { typed = drop_last line.typed }
    else if ltb (length line.typed) 255 && not line.entered
    then record line { typed = ascii ∷ line.typed }
    else line

-- The first `n` characters of the buffer are the line, in the order they were typed.
unfoldable pub Spells : (ℕ → ℕ) → List ℕ → Type 0
Spells buffer [] = Unit {0}
Spells buffer (c ∷ cs) = (buffer (length cs) ≡ c) × Spells buffer cs

-- The state of the driver holds the line.
pub record Holds (s : Keyboard) (line : Line) : Type 0 where
  pub count : s.buffer_pos ≡ length line.typed
  pub room : length line.typed ≤ 255
  pub content : Spells s.key_buffer line.typed
  pub ready : s.line_ready ≡ line.entered

unfoldable pub empty : Line
empty = record { typed = []; entered = false }

unfoldable pub type_keys : List ℕ → Keyboard → Keyboard
type_keys [] s = s
type_keys (k ∷ ks) s = type_keys ks (handle_scancode k s)

unfoldable pub edit : List ℕ → Line → Line
edit [] line = line
edit (k ∷ ks) line = edit ks (press k line)

Spells-store :
    (buffer : ℕ → ℕ) (cs : List ℕ) (n v : ℕ)
    → length cs ≤ n
    → Spells buffer cs
    → Spells (store buffer n v) cs
unfolding Spells
Spells-store buffer [] n v le h = h
Spells-store buffer (c ∷ cs) n v le h = (
  store_ne buffer n v (length cs) (omega arith) ∙ h.0,
  Spells-store buffer cs n v (omega arith) h.1,
)

erase_last :
    (s : Keyboard) (typed : List ℕ) (entered : Bool)
    → Holds s (record { typed = typed; entered = entered })
    → Holds
        (if ltb 0 s.buffer_pos
          then record s { buffer_pos = s.buffer_pos - 1; console = backspace ∷ s.console }
          else s)
        (record { typed = drop_last typed; entered = entered })
unfolding Spells
erase_last s [] entered h =
    let none_left : ltb 0 s.buffer_pos ≡ false = rw h.count refl in rw none_left h
erase_last s (c ∷ cs) entered h =
    let more : ltb 0 s.buffer_pos ≡ true = ground (arith, h.count) in
    rw more (record {
      count = omega (arith, h.count);
      room = omega (arith, h.room);
      content = h.content.1;
      ready = h.ready;
    })

add_char :
    (ascii : ℕ) (s : Keyboard) (line : Line)
    → Holds s line
    → Holds
        (if ltb s.buffer_pos 255 && not s.line_ready
          then record s {
            key_buffer = store s.key_buffer s.buffer_pos ascii;
            buffer_pos = s.buffer_pos + 1;
            console = ascii ∷ s.console;
          }
          else s)
        (if ltb (length line.typed) 255 && not line.entered
          then record line { typed = ascii ∷ line.typed }
          else line)
unfolding Spells
add_char ascii s line h =
    let same_test : (ltb s.buffer_pos 255 && not s.line_ready)
        ≡ (ltb (length line.typed) 255 && not line.entered) =
      rw (h.count, h.ready) refl in
    rw same_test (elim (Bool-cases (ltb (length line.typed) 255 && not line.entered)) [
      | inr full ↦ rw full h
      | inl fits ↦ rw fits (record {
        count = omega (arith, h.count);
        room = ground (arith, h.room);
        content = (
          ap (store s.key_buffer s.buffer_pos ascii) (sym h.count)
              ∙ store_self s.key_buffer s.buffer_pos ascii,
          Spells-store s.key_buffer line.typed s.buffer_pos ascii (omega (arith, h.count))
              h.content,
        );
        ready = h.ready;
      })
    ])

-- A key changes the state of the driver as it changes the line.
handle_scancode-Holds :
    (scancode : ℕ) (s : Keyboard) (line : Line)
    → Holds s line
    → Holds (handle_scancode scancode s) (press scancode line)
unfolding handle_scancode press
handle_scancode-Holds scancode s line h =
    let ascii = scancode_to_ascii scancode in
    elim (Bool-cases (bit_and scancode 0x80 == 0)) [
      | inr released ↦ rw released h
      | inl pressed ↦ elim (Bool-cases (ascii == enter)) [
        | inl is_enter ↦
            (let some_char : (ascii == 0) ≡ false = ground arith in
              rw (pressed, is_enter, some_char)
                (record { count = h.count; room = h.room; content = h.content; ready = refl }))
        | inr not_enter ↦ elim (Bool-cases (ascii == backspace)) [
          | inl is_backspace ↦
              (let some_char : (ascii == 0) ≡ false = ground arith in
                rw (pressed, not_enter, is_backspace, some_char)
                  (erase_last s line.typed line.entered h))
          | inr not_backspace ↦ elim (Bool-cases (ascii == 0)) [
            | inl no_char ↦ rw (pressed, not_enter, not_backspace, no_char) h
            | inr some_char ↦
                rw (pressed, not_enter, not_backspace, some_char) (add_char ascii s line h)
          ]
        ]
      ]
    ]

copy_loop_lem :
    (left pos i : ℕ) (key buffer : ℕ → ℕ) (j : ℕ)
    → i ≤ pos
    → copy_loop left pos i key buffer j ≡ (
        if ltb j i
        then buffer j
        else if ltb j (min pos (i + left))
        then key j
        else if j == min pos (i + left)
        then 0
        else buffer j)
unfolding copy_loop store
copy_loop_lem zero pos i key buffer j le = ground arith
copy_loop_lem (suc left) pos i key buffer j le =
    ground (arith, copy_loop_lem left pos (i + 1) key (store buffer i (key i)) j)

pub type_keys-Holds :
    (ks : List ℕ) (s : Keyboard) (line : Line)
    → Holds s line
    → Holds (type_keys ks s) (edit ks line)
unfolding type_keys edit
type_keys-Holds [] s line h = h
type_keys-Holds (k ∷ ks) s line h =
    type_keys-Holds ks (handle_scancode k s) (press k line) (handle_scancode-Holds k s line h)

Spells-same :
    (a b : ℕ → ℕ) (cs : List ℕ) → ((j : ℕ) → j < length cs → b j ≡ a j) → Spells a cs → Spells b cs
unfolding Spells
Spells-same a b [] same h = h
Spells-same a b (c ∷ cs) same h =
    (same (length cs) (omega arith) ∙ h.0, Spells-same a b cs (λ j lt. same j (omega arith)) h.1)

-- What `get_input_buffer` answers for a line: nothing while the line is open; once it is entered,
-- the line and its terminator, and the driver starts an empty line.
unfoldable pub Answers : Line → (ℕ → ℕ) → Keyboard → Bool × (ℕ → ℕ) × Keyboard → Type 0
Answers line buffer s (answer, out, s') =
    if line.entered
    then (answer ≡ true) × Spells out line.typed × (out (length line.typed) ≡ 0) × Holds s' empty
    else (answer ≡ false) × (out ≡ buffer) × (s' ≡ s)

pub get_input_buffer-Answers :
    (max_size : ℕ) (buffer : ℕ → ℕ) (s : Keyboard) (line : Line)
    → 256 ≤ max_size
    → Holds s line
    → Answers line buffer s (get_input_buffer max_size buffer s)
unfolding Answers get_input_buffer empty Spells
get_input_buffer-Answers max_size buffer s line big h = elim (Bool-cases line.entered) [
  | inr unfinished ↦
      (let no_line : s.line_ready ≡ false = h.ready ∙ unfinished in
        rw (no_line, unfinished) (refl, refl, refl))
  | inl done ↦
      (let a_line : s.line_ready ≡ true = h.ready ∙ done in
        let copied = λ (j : ℕ).
          copy_loop_lem (max_size - 1) s.buffer_pos 0 s.key_buffer buffer j (omega arith) in
        rw (a_line, done)
          (
            refl,
            Spells-same s.key_buffer (copy_loop (max_size - 1) s.buffer_pos 0 s.key_buffer buffer)
                line.typed (λ j lt. ground (arith, copied j, h.count, h.room)) h.content,
            ground (arith, copied (length line.typed), h.count, h.room),
            record { count = refl; room = omega arith; content = tt; ready = refl },
          ))
]

-- Whatever keys are pressed on an empty line, `get_input_buffer` with a buffer of 256 or more
-- bytes hands out the line as it was edited, with its terminator, if Enter is among the keys, and
-- then starts an empty line; it changes nothing if Enter is not. The driver's buffer never
-- holds more than 255 characters.
pub keyboard_lem :
    (ks : List ℕ) (max_size : ℕ) (buffer : ℕ → ℕ) (s : Keyboard)
    → s.buffer_pos ≡ 0
    → s.line_ready ≡ false
    → 256 ≤ max_size
    → ((type_keys ks s).buffer_pos ≤ 255)
      × Answers
          (edit ks empty)
          buffer
          (type_keys ks s)
          (get_input_buffer max_size buffer (type_keys ks s))
unfolding empty
keyboard_lem ks max_size buffer s start closed big =
    let h = type_keys-Holds ks s empty (
      unfold Spells in
      record { count = start; room = omega arith; content = tt; ready = closed }) in
    (
      omega (arith, h.count, h.room),
      get_input_buffer-Answers max_size buffer (type_keys ks s) (edit ks empty) big h,
    )
