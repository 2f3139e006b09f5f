-- ===== src/Shell/Examples.antt =====
-- The user types "help" and Enter.
use os_from_scratch.Common.{ℕ, ◌≡◌, ◌⊎◌, refl, arith, List, [], ◌∷◌, true, false, some}
use os_from_scratch.Keyboard.{Keyboard}
use os_from_scratch.Keyboard.Line.{Holds, edit, empty, type_keys}
use os_from_scratch.Shell.{shell_round}
use os_from_scratch.Shell.Commands.{chosen, shell_round_lem}

abbrev keys : List ℕ
keys = 0x23 ∷ 0x12 ∷ 0x26 ∷ 0x19 ∷ 0x1C ∷ []

abbrev zeros : ℕ → ℕ
zeros k = 0

abbrev idle : Keyboard
idle = record { key_buffer = zeros; buffer_pos = 0; line_ready = false; console = [] }

shell_round_lem_example :
    (out : ℕ → ℕ) × (s' : Keyboard) × (shell_round 256 zeros (type_keys keys idle)
      ≡ some (chosen (edit keys empty), out, s'))
    × (((edit keys empty).entered ≡ true) × Holds s' empty
        ⊎ ((edit keys empty).entered ≡ false) × (out ≡ zeros) × (s' ≡ type_keys keys idle))
shell_round_lem_example = shell_round_lem keys 256 zeros idle refl refl (omega arith)
