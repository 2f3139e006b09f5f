-- ===== src/Common/Bits/Step.antt =====
-- `bit_and` and `bit_or` by their lowest digit. Both stand for a recursion on the digits of the
-- first number, which spends one unit of fuel for each digit.
use Prim.Native.Nat.{
  ℕ, zero, suc, ◌+◌, ◌*◌, ◌/◌, ◌%◌, ◌≤◌, min, max, digits, bitwise, bit_and, bit_or,
  bit_and-bitwise, bit_or-bitwise,
}
use mathlib.Core.Path.{◌≡◌, refl, ◌∙◌}
use mathlib.Core.Logic.{inl, inr}
use native.Mathlib.Omega.{arith}
use os_from_scratch.Common.Tests.{◌==◌, ==→eq, ==→ne, Bool-cases}

module _ (last : ℕ → ℕ) (op : ℕ → ℕ → ℕ) where
  -- A unit of fuel more than the number changes nothing.
  one_more : (fuel x y : ℕ) → x ≤ fuel → digits last op (suc fuel) x y ≡ digits last op fuel x y
  one_more fuel zero y h = zero_stays fuel
    where
      zero_stays : (k : ℕ) → digits last op (suc k) zero y ≡ digits last op k zero y
      zero_stays zero = refl
      zero_stays (suc k) = refl
  one_more zero (suc x) y h = absurd (omega arith)
  one_more (suc fuel) (suc x) y h =
      let half = one_more fuel (suc x / 2) (y / 2) (omega arith) in omega (arith, half)

  settled : (fuel x y : ℕ) → x ≤ fuel → digits last op fuel x y ≡ bitwise last op x y
  settled zero zero y h = refl
  settled zero (suc x) y h = absurd (omega arith)
  settled (suc fuel) x y h = elim (Bool-cases (x == suc fuel)) [
    | inl exact ↦ rw (==→eq x (suc fuel) exact) refl
    | inr less ↦
        (let ne = ==→ne x (suc fuel) less in
          let fits : x ≤ fuel = omega arith in one_more fuel x y fits ∙ settled fuel x y fits)
  ]

pub bit_and_step : (x y : ℕ) → bit_and x y ≡ min (x % 2) (y % 2) + 2 * bit_and (x / 2) (y / 2)
bit_and_step zero y = simp bit_and-bitwise (omega arith)
bit_and_step (suc x) y =
    let halves = settled (λ k. 0) min x (suc x / 2) (y / 2) (omega arith) in
    simp bit_and-bitwise (omega (arith, halves))

pub bit_or_step : (x y : ℕ) → bit_or x y ≡ max (x % 2) (y % 2) + 2 * bit_or (x / 2) (y / 2)
bit_or_step zero y = simp bit_or-bitwise (omega arith)
bit_or_step (suc x) y =
    let halves = settled (λ k. k) max x (suc x / 2) (y / 2) (omega arith) in
    simp bit_or-bitwise (omega (arith, halves))
