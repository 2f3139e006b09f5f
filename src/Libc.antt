-- ===== src/Libc.antt =====
-- libc/string.cpp: lengths, numbers as text, comparison, and printk.
pub mod Decimal
pub mod Text
mod Examples
use os_from_scratch.Common.{
  ℕ, zero, suc, ◌+◌, ◌-◌, ◌*◌, ◌/◌, ◌%◌, ◌^◌, Bool, true, false, ◌&&◌, not, List, [], ◌∷◌, ◌++◌,
  Option, none, some, bit_and, ltb, leb, ◌==◌, if◌then◌else◌, get_or,
}
use os_from_scratch.Common.Word.{◌>>◌, store}

-- A string is the memory behind its pointer. `none`: the fuel ran out.
unfoldable pub len_loop : ℕ → (ℕ → ℕ) → ℕ → Option ℕ
len_loop zero c i = none
len_loop (suc fuel) c i = let rest = len_loop fuel c (i + 1) in if c i == 0 then some i else rest

unfoldable pub len : ℕ → (ℕ → ℕ) → Option ℕ
unfolding len_loop
len fuel c = len_loop fuel c 0

-- An `int` is its 32-bit pattern; `number > 0` reads the sign.
abbrev pub positive : ℕ → Bool
positive number = ltb 0 number && ltb number (2 ^ 31)

-- Each round divides a positive number by 10, so a number above the fuel is never left over.
unfoldable pub nb_digits_loop : ℕ → ℕ → ℕ → ℕ
nb_digits_loop zero number digits = digits
nb_digits_loop (suc fuel) number digits =
    let rest = nb_digits_loop fuel (number / 10) (digits + 1) in
    if positive number then rest else digits

unfoldable pub nb_digits : ℕ → ℕ
unfolding nb_digits_loop
nb_digits number = if number == 0 then 1 else nb_digits_loop number number 0

unfoldable pub int2char : ℕ → ℕ
int2char a = b'0' + a

-- The loop that writes the digits, the last one first.
unfoldable pub digits_loop : ℕ → ℕ → ℕ → ℕ → (ℕ → ℕ) → ℕ → ℕ
unfolding store int2char
digits_loop zero digits_number a i buffer = buffer
digits_loop (suc fuel) digits_number a i buffer =
    let written = store buffer (digits_number - 1 - i) (int2char (a % 10)) in
    let rest = digits_loop fuel digits_number (a / 10) (i + 1) written in
    if positive a then rest else buffer

-- The static buffer after the call.
unfoldable pub int2_string : (ℕ → ℕ) → ℕ → ℕ → ℕ
unfolding nb_digits digits_loop store
int2_string buffer a =
    if a == 0
    then store (store buffer 0 b'0') 1 0
    else digits_loop a (nb_digits a) a 0 (store buffer (nb_digits a) 0)

abbrev pub hex_digits : List ℕ
hex_digits =
    b'0' ∷ b'1' ∷ b'2' ∷ b'3' ∷ b'4' ∷ b'5' ∷ b'6' ∷ b'7' ∷ b'8' ∷ b'9' ∷ b'A' ∷ b'B' ∷ b'C' ∷ b'D'
    ∷ b'E' ∷ b'F' ∷ []

-- The rounds of the loop that are left are `7 - i` and one.
unfoldable pub hex_loop : ℕ → ℕ → ℕ → (ℕ → ℕ) → ℕ → ℕ
unfolding store
hex_loop zero ptr i buffer = buffer
hex_loop (suc left) ptr i buffer =
    let shift = (7 - i) * 4 in
    hex_loop left ptr (i + 1)
      (store buffer (2 + i) (get_or hex_digits (bit_and (ptr >> shift) 0xF) 0))

unfoldable pub ptr_to_hex : (ℕ → ℕ) → ℕ → ℕ → ℕ
unfolding hex_loop store
ptr_to_hex buffer ptr = store (hex_loop 8 ptr 0 (store (store buffer 0 b'0') 1 b'x')) 10 0

-- The two characters at which `strcmp` stops; the C function returns their difference.
unfoldable pub strcmp : ℕ → (ℕ → ℕ) → (ℕ → ℕ) → ℕ → Option (ℕ × ℕ)
strcmp zero s1 s2 i = none
strcmp (suc fuel) s1 s2 i =
    let rest = strcmp fuel s1 s2 (i + 1) in
    if not (s1 i == 0) && s1 i == s2 i then rest else some (s1 i, s2 i)

-- The arguments of `printk`.
pub data Arg : Type 0 where
  int : ℕ → Arg
  text : List ℕ → Arg

-- The characters of a buffer before its terminator, at most `left` of them.
abbrev pub chars : ℕ → (ℕ → ℕ) → ℕ → List ℕ
chars zero buffer i = []
chars (suc left) buffer i = if buffer i == 0 then [] else buffer i ∷ chars left buffer (i + 1)

-- Characters that are put on the console before the rest of the output.
abbrev pub put : List ℕ → Option (List ℕ) → Option (List ℕ)
put cs none = none
put cs (some out) = some (cs ++ out)

-- va_arg at the type that a directive wants.
abbrev pub with_int : List Arg → (ℕ → List Arg → Option (List ℕ)) → Option (List ℕ)
with_int (int n ∷ args) k = k n args
with_int (text t ∷ args) k = none
with_int [] k = none

abbrev pub with_text : List Arg → (List ℕ → List Arg → Option (List ℕ)) → Option (List ℕ)
with_text (text t ∷ args) k = k t args
with_text (int n ∷ args) k = none
with_text [] k = none

-- The switch on the character behind a '%'; `go` is the rest of the loop.
unfoldable pub directive : (ℕ → ℕ) → ℕ → List Arg → (List Arg → Option (List ℕ)) → Option (List ℕ)
unfolding int2_string ptr_to_hex
directive buffer d args go =
    if d == b'd'
    then with_int args (λ n args'. put (chars 16 (int2_string buffer n) 0) (go args'))
    else if d == b'x'
    then with_int args (λ n args'. put (chars 11 (ptr_to_hex buffer n) 0) (go args'))
    else if d == b's'
    then with_text args (λ t args'. put t (go args'))
    else put (d ∷ []) (go args)

-- What `printk` hands to `console_put_char`. `none`: it read past the end of the format, which a
-- '%' as the last character makes it do, or an argument that is not there or of another kind.
-- `buffer` is what the static buffers held before.
unfoldable pub printk : (ℕ → ℕ) → List ℕ → List Arg → Option (List ℕ)
unfolding directive
printk buffer [] args = some []
printk buffer (c ∷ []) args = if c == b'%' then none else some (c ∷ [])
printk buffer (c ∷ d ∷ s) args =
    let plain = printk buffer (d ∷ s) args in
    let go = λ (args' : List Arg). printk buffer s args' in
    if c == b'%' then directive buffer d args go else put (c ∷ []) plain
