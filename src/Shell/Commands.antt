-- ===== src/Shell/Commands.antt =====
-- The command that the user typed is the one that is chosen.
use os_from_scratch.Common.{
  ℕ, ◌≤◌, ◌<◌, ◌≡◌, ◌≢◌, ◌⊎◌, inl, inr, refl, sym, ap, ◌∙◌, arith, true, false, ◌&&◌, not, List, [],
  ◌∷◌, length, Option, none, some, ltb, ◌==◌, ==→eq, ==→ne, Bool-cases, if◌then◌else◌, bit_and,
  ◌||◌, subst,
}
use os_from_scratch.Libc.{strcmp}
use os_from_scratch.Libc.Text.{len_lem, strcmp_lem}
use os_from_scratch.Keyboard.{Keyboard, enter, backspace, scancode_to_ascii, get_input_buffer}
use os_from_scratch.Keyboard.Line.{
  Line, Spells, Holds, press, drop_last, edit, empty, type_keys, Answers, type_keys-Holds,
  get_input_buffer-Answers,
}
use os_from_scratch.Shell.{Command, unknown, silent, literal, commands, find_command, shell_round}
use os_from_scratch.Shell.Texts.{
  NonZero, same_text, backwards, Spells-IsString, same_text-yes, same_text-eq, Spells-agree,
}

-- A literal is the text of its characters.
pub record Named (name : List ℕ) : Type 0 where
  pub spells : Spells (literal name) (backwards name [])
  pub nonzero : NonZero (backwards name [])
  pub ended : literal name (length (backwards name [])) ≡ 0

AllNamed : List (List ℕ × Command) → Type 0
AllNamed [] = Unit {0}
AllNamed ((name, c) ∷ rest) = Named name × AllNamed rest

commands-AllNamed : AllNamed commands
unfolding AllNamed Spells NonZero backwards
commands-AllNamed = (
  record {
    spells = (refl, (refl, (refl, (refl, tt))));
    nonzero = (omega arith, (omega arith, (omega arith, (omega arith, tt))));
    ended = refl;
  },
  (
    record {
      spells = (refl, (refl, (refl, (refl, (refl, tt)))));
      nonzero = (omega arith, (omega arith, (omega arith, (omega arith, (omega arith, tt)))));
      ended = refl;
    },
    (
      record {
        spells = (refl, (refl, (refl, tt)));
        nonzero = (omega arith, (omega arith, (omega arith, tt)));
        ended = refl;
      },
      (
        record {
          spells = (refl, (refl, (refl, (refl, tt))));
          nonzero = (omega arith, (omega arith, (omega arith, (omega arith, tt))));
          ended = refl;
        },
        (
          record {
            spells = (refl, (refl, (refl, (refl, tt))));
            nonzero = (omega arith, (omega arith, (omega arith, (omega arith, tt))));
            ended = refl;
          },
          (
            record {
              spells = (refl, (refl, (refl, (refl, tt))));
              nonzero = (omega arith, (omega arith, (omega arith, (omega arith, tt))));
              ended = refl;
            },
            tt,
          ),
        ),
      ),
    ),
  ),
)

-- The command that a text names.
unfoldable pub command_of : List (List ℕ × Command) → List ℕ → Command
command_of [] cs = if ltb 0 (length cs) then unknown else silent
command_of ((name, c) ∷ rest) cs =
    let other = command_of rest cs in if same_text cs (backwards name []) then c else other

strcmp-same_text :
    (fuel : ℕ) (s : ℕ → ℕ) (cs name : List ℕ)
    → Spells s cs
    → NonZero cs
    → s (length cs) ≡ 0
    → Named name
    → length cs < fuel
    → (a : ℕ) × (b : ℕ) × (strcmp fuel s (literal name) 0 ≡ some (a, b))
      × ((a == b) ≡ same_text cs (backwards name []))
strcmp-same_text fuel s cs name h nz ended named lt =
    let ds = backwards name [] in
    let is = Spells-IsString s cs h nz ended in
    let it = Spells-IsString (literal name) ds named.spells named.nonzero named.ended in
    let (a, b, e, both) = strcmp_lem fuel s (literal name) (length cs) (length ds) is it lt in
    (
      a,
      b,
      e,
      elim (Bool-cases (a == b)) [
        | inl equal ↦
            (let (lengths, same) = both.0 (==→eq a b equal) in
              equal ∙ sym (same_text-yes s (literal name) cs ds h named.spells lengths same))
        | inr differ ↦ elim (Bool-cases (same_text cs ds)) [
          | inl same ↦
              (let texts = same_text-eq cs ds same in
                let there =
                  subst (λ (xs : List ℕ). Spells (literal name) xs) (sym texts) named.spells in
                let ab =
                  both.1 (ap length texts, λ k lt. Spells-agree s (literal name) cs k h there lt) in
                absurd (==→ne a b differ ab))
          | inr other ↦ differ ∙ sym other
        ]
      ],
    )

find_command-command_of :
    (fuel : ℕ) (s : ℕ → ℕ) (cs : List ℕ) (table : List (List ℕ × Command))
    → Spells s cs
    → NonZero cs
    → s (length cs) ≡ 0
    → AllNamed table
    → length cs < fuel
    → find_command fuel s table ≡ some (command_of table cs)
unfolding find_command command_of AllNamed
find_command-command_of fuel s cs [] h nz ended all lt =
    rw (find_command, len_lem fuel s (length cs) (Spells-IsString s cs h nz ended) lt) refl
find_command-command_of fuel s cs ((name, c) ∷ rest) h nz ended all lt =
    let (a, b, e, test_text) = strcmp-same_text fuel s cs name h nz ended all.0 lt in
    let other = find_command-command_of fuel s cs rest h nz ended all.1 lt in
    rw (find_command, e) (rw (test_text, other) (ground arith))

drop_last-NonZero : (cs : List ℕ) → NonZero cs → NonZero (drop_last cs)
unfolding NonZero
drop_last-NonZero [] nz = nz
drop_last-NonZero (c ∷ cs) nz = nz.1

-- No key adds the character 0 to a line.
press-NonZero : (k : ℕ) (line : Line) → NonZero line.typed → NonZero (press k line).typed
unfolding press NonZero
press-NonZero k line nz =
    let ascii = scancode_to_ascii k in
    elim (Bool-cases (not (bit_and k 0x80 == 0) || ascii == 0)) [
      | inl ignored ↦ rw ignored nz
      | inr taken ↦ elim (Bool-cases (ascii == enter)) [
        | inl at_enter ↦ rw (taken, at_enter) nz
        | inr n1 ↦ elim (Bool-cases (ascii == backspace)) [
          | inl back ↦ rw (taken, n1, back) (drop_last-NonZero line.typed nz)
          | inr n2 ↦ elim (Bool-cases (ltb (length line.typed) 255 && not line.entered)) [
            | inl room ↦
                (let some_char : ascii ≢ 0 = ground (arith, taken) in
                  rw (taken, n1, n2, room) (some_char, nz))
            | inr full ↦ rw (taken, n1, n2, full) nz
          ]
        ]
      ]
    ]

edit-NonZero : (ks : List ℕ) (line : Line) → NonZero line.typed → NonZero (edit ks line).typed
unfolding edit
edit-NonZero [] line nz = nz
edit-NonZero (k ∷ ks) line nz = edit-NonZero ks (press k line) (press-NonZero k line nz)

shell_round-line :
    (fuel : ℕ) (buffer : ℕ → ℕ) (k : Keyboard) (c : Command)
    → (get_input_buffer 256 buffer k).0 ≡ true
    → find_command fuel (get_input_buffer 256 buffer k).1 commands ≡ some c
    → shell_round fuel buffer k
      ≡ some (some c, (get_input_buffer 256 buffer k).1, (get_input_buffer 256 buffer k).2)
unfolding shell_round
shell_round-line fuel buffer k c e f = rw (shell_round, e) (rw f refl)

shell_round-silent :
    (fuel : ℕ) (buffer : ℕ → ℕ) (k : Keyboard)
    → (get_input_buffer 256 buffer k).0 ≡ false
    → shell_round fuel buffer k
      ≡ some (none, (get_input_buffer 256 buffer k).1, (get_input_buffer 256 buffer k).2)
unfolding shell_round
shell_round-silent fuel buffer k e = rw (shell_round, e) refl

Answers-entered :
    (buffer : ℕ → ℕ) (k : Keyboard) (line : Line)
    → line.entered ≡ true
    → Answers line buffer k (get_input_buffer 256 buffer k)
    → ((get_input_buffer 256 buffer k).0 ≡ true)
      × Spells (get_input_buffer 256 buffer k).1 line.typed
      × ((get_input_buffer 256 buffer k).1 (length line.typed) ≡ 0)
      × Holds (get_input_buffer 256 buffer k).2 empty
unfolding Answers
Answers-entered buffer k line e answers = rw e at answers

Answers-unfinished :
    (buffer : ℕ → ℕ) (k : Keyboard) (line : Line)
    → line.entered ≡ false
    → Answers line buffer k (get_input_buffer 256 buffer k)
    → ((get_input_buffer 256 buffer k).0 ≡ false)
      × ((get_input_buffer 256 buffer k).1 ≡ buffer)
      × ((get_input_buffer 256 buffer k).2 ≡ k)
unfolding Answers
Answers-unfinished buffer k line e answers = rw e at answers

-- The command of a round, if the line was entered.
unfoldable pub chosen : Line → Option Command
chosen line = if line.entered then some (command_of commands line.typed) else none

-- A round of the loop of kernel_main, after any keys that were pressed on an empty line: if Enter is
-- among them, the command is chosen that the edited line names, or the unknown one if it names
-- none, and the keyboard starts an empty line; if not, nothing is chosen and nothing changes. The
-- walks over the line need fuel for 256 characters.
pub shell_round_lem :
    (ks : List ℕ) (fuel : ℕ) (buffer : ℕ → ℕ) (s : Keyboard)
    → s.buffer_pos ≡ 0
    → s.line_ready ≡ false
    → 256 ≤ fuel
    → (out : ℕ → ℕ) × (s' : Keyboard) × (shell_round fuel buffer (type_keys ks s)
        ≡ some (chosen (edit ks empty), out, s'))
      × (((edit ks empty).entered ≡ true) × Holds s' empty
          ⊎ ((edit ks empty).entered ≡ false) × (out ≡ buffer) × (s' ≡ type_keys ks s))
unfolding empty Spells chosen NonZero
shell_round_lem ks fuel buffer s start closed big =
    let h =
      type_keys-Holds ks s empty
        (record { count = start; room = omega arith; content = tt; ready = closed }) in
    let k = type_keys ks s in
    let line = edit ks empty in
    let answers = get_input_buffer-Answers 256 buffer k line (omega arith) h in
    let nz = edit-NonZero ks empty tt in
    elim (Bool-cases line.entered) [
      | inl entered ↦
          (let (yes_line, spells, ended, fresh) = Answers-entered buffer k line entered answers in
            let found =
              find_command-command_of fuel (get_input_buffer 256 buffer k).1 line.typed commands
                spells nz ended commands-AllNamed (omega (arith, h.room)) in
            (
              (get_input_buffer 256 buffer k).1,
              (get_input_buffer 256 buffer k).2,
              rw entered
                  (shell_round-line fuel buffer k (command_of commands line.typed) yes_line found),
              inl (entered, fresh),
            ))
      | inr unfinished ↦
          (let (no_line, kept, same) = Answers-unfinished buffer k line unfinished answers in
            (
              (get_input_buffer 256 buffer k).1,
              (get_input_buffer 256 buffer k).2,
              rw unfinished (shell_round-silent fuel buffer k no_line),
              inr (unfinished, kept, same),
            ))
    ]
