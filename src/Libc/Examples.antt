-- ===== src/Libc/Examples.antt =====
-- The functions of libc/string.cpp on small inputs, and the theorems there.
use os_from_scratch.Common.{ℕ, zero, suc, ◌<◌, ◌≤◌, ◌≡◌, ◌≢◌, ◌↔◌, refl, arith, some}
use os_from_scratch.Libc.{nb_digits, int2_string, strcmp}
use os_from_scratch.Libc.Decimal.{decimal, int2_string_lem}
use os_from_scratch.Libc.Text.{IsString, strcmp_lem}

-- A buffer of zeros, and the string "ab".
abbrev blank : ℕ → ℕ
blank k = 0

abbrev word : ℕ → ℕ
word zero = b'a'
word (suc zero) = b'b'
word (suc (suc k)) = 0

abbrev size : ℕ
size = 2

word-IsString : IsString word 2
word-IsString = record { terminator = refl; before = two }
  where
    two : (k : ℕ) → k < 2 → word k ≢ 0
    two zero lt = omega arith
    two (suc zero) lt = omega arith
    two (suc (suc k)) lt = absurd (omega arith)

strcmp_lem_example :
    (a : ℕ) × (b : ℕ) × (strcmp 3 word word 0 ≡ some (a, b))
    × ((a ≡ b) ↔ ((size ≡ size) × ((k : ℕ) → k < size → word k ≡ word k)))
strcmp_lem_example = strcmp_lem 3 word word 2 2 word-IsString word-IsString (omega arith)

int2_string_lem_example :
    (decimal (int2_string blank 305) (nb_digits 305) ≡ 305)
    × (int2_string blank 305 (nb_digits 305) ≡ 0)
    × (nb_digits 305 ≤ 10)
int2_string_lem_example = int2_string_lem blank 305 (omega arith)
