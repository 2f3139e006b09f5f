-- ===== src/Screen/Examples.antt =====
-- "Hi" and a newline, on a screen whose cursor is at the start.
use os_from_scratch.Common.{ℕ, ◌≡◌, refl, arith, List, [], ◌∷◌, ◌==◌, if◌then◌else◌}
use os_from_scratch.Ports.{Device}
use os_from_scratch.Screen.{Screen, print_string}
use os_from_scratch.Screen.Text.{
  selected, register, cursor, IsController, view, shown, shown_all, StaysLow, print_string_lem,
}

abbrev zeros : ℕ → ℕ
zeros k = 0

abbrev controller : Device
controller h port = if port == 0x3D5 then register zeros (selected h) h else 0

controller-IsController : IsController controller zeros
controller-IsController = record { answers = λ h. refl }

abbrev blank : Screen
blank = record { video = zeros; history = [] }

abbrev text : List ℕ
text = b'H' ∷ b'i' ∷ 10 ∷ []

text-StaysLow : StaysLow text (view zeros blank)
unfolding StaysLow shown cursor register
text-StaysLow = (omega arith, (omega arith, (omega arith, tt)))

print_string_lem_example :
    view zeros (print_string controller text blank) ≡ shown_all text (view zeros blank)
print_string_lem_example =
    print_string_lem controller zeros text blank controller-IsController text-StaysLow
