-- ===== src/Shell.antt =====
-- kernel/kernel.cpp: the round of the endless loop of kernel_main that takes a line and chooses
-- the command; what the commands print is left out.
pub mod Texts
pub mod Commands
mod Examples
use os_from_scratch.Common.{
  ℕ, Bool, true, false, List, [], ◌∷◌, Option, none, some, get_or, ltb, ◌==◌, if◌then◌else◌,
}
use os_from_scratch.Libc.{len, strcmp}
use os_from_scratch.Keyboard.{Keyboard, get_input_buffer}

-- The branches of the chain of tests; `silent` is the empty line.
pub data Command : Type 0 where
  help clear mem test time heap unknown silent : Command

-- A string literal in memory.
abbrev pub literal : List ℕ → ℕ → ℕ
literal cs k = get_or cs k 0

-- The tests, in their order.
abbrev pub commands : List (List ℕ × Command)
commands =
    (b'h' ∷ b'e' ∷ b'l' ∷ b'p' ∷ [], help)
    ∷ (b'c' ∷ b'l' ∷ b'e' ∷ b'a' ∷ b'r' ∷ [], clear)
    ∷ (b'm' ∷ b'e' ∷ b'm' ∷ [], mem)
    ∷ (b't' ∷ b'e' ∷ b's' ∷ b't' ∷ [], test)
    ∷ (b't' ∷ b'i' ∷ b'm' ∷ b'e' ∷ [], time)
    ∷ (b'h' ∷ b'e' ∷ b'a' ∷ b'p' ∷ [], heap)
    ∷ []

-- The chain of tests. `none`: a walk over the line ran out of fuel.
unfoldable pub find_command : ℕ → (ℕ → ℕ) → List (List ℕ × Command) → Option Command
unfolding len strcmp
find_command fuel buffer [] = elim (len fuel buffer) [
  | none ↦ none
  | some n ↦ some (if ltb 0 n then unknown else silent)
]
find_command fuel buffer ((name, c) ∷ rest) =
    let other = find_command fuel buffer rest in
    elim (strcmp fuel buffer (literal name) 0) [
      | none ↦ none
      | some (a, b) ↦ if a == b then some c else other
    ]

-- The command, if there was a line, the buffer and the keyboard after one round of the loop.
unfoldable pub shell_round : ℕ → (ℕ → ℕ) → Keyboard → Option (Option Command × (ℕ → ℕ) × Keyboard)
unfolding get_input_buffer find_command
shell_round fuel buffer keyboard =
    let (answer, line, after) = get_input_buffer 256 buffer keyboard in
    if answer
    then (elim (find_command fuel line commands) [
      | none ↦ none
      | some c ↦ some (some c, line, after)
    ])
    else some (none, line, after)
