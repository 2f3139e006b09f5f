-- ===== src/Common/Bits/Digit.antt =====
-- Digit `k` of a number, for the single-bit operations of the bitmap and of the interrupt masks.
use Prim.Native.Nat.{
  ℕ, zero, suc, ◌+◌, ◌-◌, ◌*◌, ◌/◌, ◌%◌, ◌^◌, ◌≤◌, ◌<◌, min, max, bit_and, bit_or,
}
use mathlib.Core.Path.{◌≡◌, refl, ap}
use native.Mathlib.Omega.{arith}
use native.Mathlib.Nat.{pow-suc, one-le-pow}
use os_from_scratch.Common.Tests.{◌==◌, if◌then◌else◌, Bool-cases, ==→eq, ==→ne}
use mathlib.Core.Logic.{inl, inr}
use os_from_scratch.Common.Bits.Step.{bit_or_step, bit_and_step}

-- Digit `k` of `w`, 0 or 1.
unfoldable pub digit : ℕ → ℕ → ℕ
digit w zero = w % 2
digit w (suc k) = digit (w / 2) k

pub digit-le : (w k : ℕ) → digit w k ≤ 1
unfolding digit
digit-le w zero = omega arith
digit-le w (suc k) = digit-le (w / 2) k

pub digit-zero : (k : ℕ) → digit 0 k ≡ 0
unfolding digit
digit-zero zero = refl
digit-zero (suc k) = digit-zero k

pub digit-pow : (j k : ℕ) → digit (2 ^ j) k ≡ (if k == j then 1 else 0)
unfolding digit
digit-pow zero zero = refl
digit-pow zero (suc k) = ground (arith, digit-zero k)
digit-pow (suc j) zero = grind (arith, pow-suc 2 j)
digit-pow (suc j) (suc k) = rw half (ground (arith, digit-pow j k))
  where
    half : 2 ^ suc j / 2 ≡ 2 ^ j
    half = omega (arith, pow-suc 2 j)

pub digit-bit_or : (a b k : ℕ) → digit (bit_or a b) k ≡ max (digit a k) (digit b k)
unfolding digit
digit-bit_or a b zero = omega (arith, bit_or_step a b)
digit-bit_or a b (suc k) = rw half (digit-bit_or (a / 2) (b / 2) k)
  where
    half : bit_or a b / 2 ≡ bit_or (a / 2) (b / 2)
    half = omega (arith, bit_or_step a b)

pub digit-bit_and : (a b k : ℕ) → digit (bit_and a b) k ≡ min (digit a k) (digit b k)
unfolding digit
digit-bit_and a b zero = omega (arith, bit_and_step a b)
digit-bit_and a b (suc k) = rw half (digit-bit_and (a / 2) (b / 2) k)
  where
    half : bit_and a b / 2 ≡ bit_and (a / 2) (b / 2)
    half = omega (arith, bit_and_step a b)

-- The complement in `w` bits flips each of them.
pub digit-complement : (w a k : ℕ) → a < 2 ^ w → k < w → digit (2 ^ w - 1 - a) k ≡ 1 - digit a k
unfolding digit
digit-complement zero a k h lt = absurd (omega arith)
digit-complement (suc w) a zero h lt = omega (arith, pow-suc 2 w)
digit-complement (suc w) a (suc k) h lt =
    rw half (digit-complement w (a / 2) k (omega (arith, pow-suc 2 w)) (omega arith))
  where
    half : (2 ^ suc w - 1 - a) / 2 ≡ 2 ^ w - 1 - a / 2
    half = omega (arith, pow-suc 2 w)

zero_right_below : (bound a : ℕ) → a < bound → bit_and a 0 ≡ 0
zero_right_below zero a h = absurd (omega arith)
zero_right_below (suc bound) a h = elim (Bool-cases (a == 0)) [
  | inl none ↦ rw (==→eq a 0 none) refl
  | inr some ↦
      (let ne = ==→ne a 0 some in
        omega (arith, zero_right_below bound (a / 2) (omega arith), bit_and_step a 0))
]

pub zero_right : (a : ℕ) → bit_and a 0 ≡ 0
zero_right a = zero_right_below (a + 1) a (omega arith)

-- `&` with a single bit keeps that bit in place.
pub bit_and_pow : (a j : ℕ) → bit_and a (2 ^ j) ≡ digit a j * 2 ^ j
unfolding digit
bit_and_pow a zero = omega (arith, bit_and_step a 1, zero_right (a / 2))
bit_and_pow a (suc j) = ground (
  arith,
  bit_and_step a (2 ^ suc j),
  pow-suc 2 j,
  bit_and_pow (a / 2) j,
  ap (λ (t : ℕ). digit (a / 2) j * t) (pow-suc 2 j),
)

pub pow_lt : (j w : ℕ) → j < w → 2 ^ j < 2 ^ w
pow_lt j zero h = elim h [ ]
pow_lt zero (suc w) h = omega (arith, pow-suc 2 w, one-le-pow w 2)
pow_lt (suc j) (suc w) h = omega (arith, pow-suc 2 w, pow-suc 2 j, pow_lt j w (omega arith))
