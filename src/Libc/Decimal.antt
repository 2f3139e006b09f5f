-- ===== src/Libc/Decimal.antt =====
-- `int2_string` and `ptr_to_hex` write what reads back as the number.
use os_from_scratch.Common.{
  ℕ, zero, suc, ◌+◌, ◌-◌, ◌*◌, ◌/◌, ◌%◌, ◌^◌, ◌≤◌, ◌<◌, ◌≡◌, refl, sym, ◌∙◌, arith, ==→eq,
  every_below, every_below_at, true, false, ltb, ◌==◌, if◌then◌else◌, Bool-cases, inl, inr, get_or,
  bit_and,
}
use os_from_scratch.Common.Word.{store, store_self, store_ne}
use native.Mathlib.Nat.{pow-suc}
use os_from_scratch.Common.Bits.{bit_and_low}
use os_from_scratch.Libc.{
  positive, nb_digits_loop, nb_digits, int2char, digits_loop, int2_string, hex_digits, hex_loop,
  ptr_to_hex,
}

-- The number that the first `k` characters of a buffer spell in decimal.
pub decimal : (ℕ → ℕ) → ℕ → ℕ
decimal buffer zero = 0
decimal buffer (suc k) = decimal buffer k * 10 + (buffer k - b'0')

decimal-suc :
    (buffer : ℕ → ℕ) (k : ℕ) → decimal buffer (suc k) ≡ decimal buffer k * 10 + (buffer k - b'0')
unfolding decimal
decimal-suc buffer k = refl

decimal-zero : (buffer : ℕ → ℕ) → decimal buffer 0 ≡ 0
unfolding decimal
decimal-zero buffer = refl

-- The digits of `n`, counted on their own.
count : ℕ → ℕ → ℕ
count zero n = 0
count (suc fuel) n = let rest = suc (count fuel (n / 10)) in if n == 0 then 0 else rest

nb_digits_loop-count :
    (fuel n digits : ℕ) → n < 2 ^ 31 → nb_digits_loop fuel n digits ≡ digits + count fuel n
unfolding nb_digits_loop count
nb_digits_loop-count zero n digits h = omega arith
nb_digits_loop-count (suc fuel) n digits h =
    ground (arith, nb_digits_loop-count fuel (n / 10) (digits + 1))

count-fuel : (f g n : ℕ) → n ≤ f → n ≤ g → count f n ≡ count g n
unfolding count
count-fuel zero zero n p q = refl
count-fuel zero (suc g) n p q = ground arith
count-fuel (suc f) zero n p q = ground arith
count-fuel (suc f) (suc g) n p q = ground (arith, count-fuel f g (n / 10))

-- The loop writes the `count` digits that are left of position `d - i`, and nothing else.
digits_loop-above :
    (fuel d a i : ℕ) (buffer : ℕ → ℕ) (j : ℕ)
    → a ≤ fuel
    → a < 2 ^ 31
    → i + count fuel a ≡ d
    → d ≤ i + j
    → digits_loop fuel d a i buffer j ≡ buffer j
unfolding digits_loop count
digits_loop-above zero d a i buffer j p h e lt = refl
digits_loop-above (suc fuel) d a i buffer j p h e lt = elim (Bool-cases (a == 0)) [
  | inl none_left ↦ (let stop : positive a ≡ false = ground arith in rw stop refl)
  | inr more ↦
      (let go_on : positive a ≡ true = ground arith in
        let one : i + 1 + count fuel (a / 10) ≡ d = ground arith in
        let ih =
          digits_loop-above fuel d (a / 10) (i + 1) (store buffer (d - 1 - i) (int2char (a % 10))) j
            (ground arith) (omega arith) one (omega arith) in
        rw go_on (ih ∙ store_ne buffer (d - 1 - i) (int2char (a % 10)) j (omega arith)))
]

digits_loop-step :
    (fuel d a i : ℕ) (buffer : ℕ → ℕ)
    → positive a ≡ true
    → digits_loop (suc fuel) d a i buffer
      ≡ digits_loop fuel d (a / 10) (i + 1) (store buffer (d - 1 - i) (int2char (a % 10)))
unfolding digits_loop
digits_loop-step fuel d a i buffer go_on = rw go_on refl

digits_loop-decimal :
    (fuel d a i k : ℕ) (buffer : ℕ → ℕ)
    → a ≤ fuel
    → a < 2 ^ 31
    → i + k ≡ d
    → count fuel a ≡ k
    → decimal (digits_loop fuel d a i buffer) k ≡ a
unfolding count
digits_loop-decimal zero d a i zero buffer p h e c =
    decimal-zero (digits_loop zero d a i buffer) ∙ omega arith
digits_loop-decimal zero d a i (suc k) buffer p h e c = absurd (omega arith)
digits_loop-decimal (suc fuel) d a i zero buffer p h e c =
    decimal-zero (digits_loop (suc fuel) d a i buffer) ∙ ground arith
digits_loop-decimal (suc fuel) d a i (suc k) buffer p h e c =
    let go_on : positive a ≡ true = ground arith in
    let left : count fuel (a / 10) ≡ k = ground arith in
    let smaller : a / 10 ≤ fuel = ground arith in
    let place : d - 1 - i ≡ k = omega arith in
    let letter : int2char (a % 10) ≡ b'0' + a % 10 = unfold int2char in refl in
    let written = store buffer k (int2char (a % 10)) in
    let front =
      digits_loop-decimal fuel d (a / 10) (i + 1) k written smaller (omega arith) (omega arith)
        left in
    let last =
      digits_loop-above fuel d (a / 10) (i + 1) written k smaller (omega arith) (omega arith)
        (omega arith)
      ∙ store_self buffer k (int2char (a % 10)) in
    rw (decimal-suc, digits_loop-step fuel d a i buffer go_on, place)
      (omega (arith, front, last ∙ letter))

nb_digits-count : (a : ℕ) → 0 < a → a < 2 ^ 31 → nb_digits a ≡ count a a
unfolding nb_digits
nb_digits-count a pos h =
    let nonzero : (a == 0) ≡ false = ground arith in
    rw nonzero (omega (arith, nb_digits_loop-count a a 0 h))

count-le : (fuel n m : ℕ) → n < 10 ^ m → count fuel n ≤ m
unfolding count
count-le zero n m h = omega arith
count-le (suc fuel) n zero h = ground arith
count-le (suc fuel) n (suc m) h =
    ground (arith, count-le fuel (n / 10) m (omega (arith, pow-suc 10 m)))

int2_string-digits :
    (buffer : ℕ → ℕ) (a : ℕ)
    → (a == 0) ≡ false
    → int2_string buffer a ≡ digits_loop a (nb_digits a) a 0 (store buffer (nb_digits a) 0)
unfolding int2_string
int2_string-digits buffer a nonzero = rw nonzero refl

-- For an `int` that is not negative, `int2_string` writes `nb_digits` characters that spell the
-- number in decimal, and the terminator behind them; there are ten characters at most, so the
-- buffer of 16 holds them.
pub int2_string_lem :
    (buffer : ℕ → ℕ) (a : ℕ)
    → a < 2 ^ 31
    → (decimal (int2_string buffer a) (nb_digits a) ≡ a)
      × (int2_string buffer a (nb_digits a) ≡ 0)
      × (nb_digits a ≤ 10)
int2_string_lem buffer a h = elim (Bool-cases (a == 0)) [
  | inl none_left ↦
      rw (==→eq a 0 none_left)
        (unfold int2_string nb_digits decimal store in (refl, refl, omega arith))
  | inr more ↦
      (let n = nb_digits-count a (ground arith) h in
        let start = store buffer (nb_digits a) 0 in
        rw (int2_string-digits buffer a more) (
          digits_loop-decimal a (nb_digits a) a 0 (nb_digits a) start (omega arith) h (omega arith)
              (sym n),
          digits_loop-above a (nb_digits a) a 0 start (nb_digits a) (omega arith) h
                (omega (arith, n)) (omega arith)
              ∙ store_self buffer (nb_digits a) 0,
          omega (arith, n, count-le a a 10 (omega arith)),
        ))
]

negative_digits : (fuel a digits : ℕ) → 2 ^ 31 ≤ a → nb_digits_loop fuel a digits ≡ digits
unfolding nb_digits_loop
negative_digits zero a digits h = refl
negative_digits (suc fuel) a digits h = let stop : positive a ≡ false = ground arith in rw stop refl

negative_text :
    (fuel d a i : ℕ) (buffer : ℕ → ℕ) → 2 ^ 31 ≤ a → digits_loop fuel d a i buffer ≡ buffer
unfolding digits_loop
negative_text zero d a i buffer h = refl
negative_text (suc fuel) d a i buffer h =
    let stop : positive a ≡ false = ground arith in rw stop refl

-- For a negative `int` the text is empty, and `nb_digits` is 0.
pub int2_string_negative :
    (buffer : ℕ → ℕ) (a : ℕ)
    → 2 ^ 31 ≤ a
    → a < 2 ^ 32
    → (nb_digits a ≡ 0) × (int2_string buffer a 0 ≡ 0)
int2_string_negative buffer a lo hi =
    let nonzero : (a == 0) ≡ false = ground arith in
    let none_read : nb_digits a ≡ 0 = unfold nb_digits in rw nonzero (negative_digits a a 0 lo) in
    (
      none_read,
      rw
          (
            int2_string-digits buffer a nonzero,
            none_read,
            negative_text a 0 a 0 (store buffer 0 0) lo,
          )
          (store_self buffer 0 0),
    )

-- The number that the first `k` characters of a text spell in hexadecimal.
abbrev hex_value : ℕ → ℕ
hex_value c = if ltb c b'A' then c - b'0' else c - b'A' + 10

hex_table : every_below (λ v. hex_value (get_or hex_digits v 0) == v) 16 ≡ true
unfolding every_below
hex_table = refl

hex_nibble : (a : ℕ) → hex_value (get_or hex_digits (bit_and a 0xF) 0) ≡ a % 16
hex_nibble a = rw (bit_and_low 4 a) (
    ==→eq _ _ (
      every_below_at (λ v. hex_value (get_or hex_digits v 0) == v) 16 (a % 16) (omega arith)
        hex_table))

pub hexadecimal : (ℕ → ℕ) → ℕ → ℕ → ℕ
hexadecimal text start zero = 0
hexadecimal text start (suc k) = hexadecimal text start k * 16 + hex_value (text (start + k))

-- `ptr_to_hex` writes "0x", eight characters that spell the 32-bit number, and the terminator.
pub ptr_to_hex_lem :
    (buffer : ℕ → ℕ) (ptr : ℕ)
    → ptr < 2 ^ 32
    → (ptr_to_hex buffer ptr 0 ≡ b'0')
      × (ptr_to_hex buffer ptr 1 ≡ b'x')
      × (hexadecimal (ptr_to_hex buffer ptr) 2 8 ≡ ptr)
      × (ptr_to_hex buffer ptr 10 ≡ 0)
unfolding ptr_to_hex hex_loop hexadecimal store
ptr_to_hex_lem buffer ptr h = (
  refl,
  refl,
  rw
      (
        hex_nibble (ptr / 2 ^ 28),
        hex_nibble (ptr / 2 ^ 24),
        hex_nibble (ptr / 2 ^ 20),
        hex_nibble (ptr / 2 ^ 16),
        hex_nibble (ptr / 2 ^ 12),
        hex_nibble (ptr / 2 ^ 8),
        hex_nibble (ptr / 2 ^ 4),
        hex_nibble (ptr / 2 ^ 0),
      )
      (omega arith),
  refl,
)
