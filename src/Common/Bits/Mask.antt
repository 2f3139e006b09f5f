-- ===== src/Common/Bits/Mask.antt =====
-- `|` of disjoint fields and `&` with a mask, as arithmetic, at every width.
use Prim.Native.Nat.{ℕ, zero, suc, ◌+◌, ◌-◌, ◌*◌, ◌/◌, ◌%◌, ◌^◌, ◌≤◌, ◌<◌, bit_and, bit_or}
use mathlib.Core.Path.{◌≡◌, refl, ap}
use native.Mathlib.Omega.{arith}
use native.Mathlib.Nat.{pow-suc, one-le-pow}
use os_from_scratch.Common.Bits.Step.{bit_or_step, bit_and_step}
use os_from_scratch.Common.Bits.Digit.{zero_right}

or_zero_below : (n a : ℕ) → a ≤ n → bit_or a 0 ≡ a
or_zero_below n zero h = refl
or_zero_below zero (suc a) h = absurd (omega arith)
or_zero_below (suc n) (suc a) h =
    omega (arith, bit_or_step (suc a) 0, or_zero_below n (suc a / 2) (omega arith))

-- A field of `k` bits joined to what stands above it is a sum.
pub bit_or_join : (k q r : ℕ) → r < 2 ^ k → bit_or (q * 2 ^ k) r ≡ q * 2 ^ k + r
bit_or_join zero q r fits = ground (arith, or_zero_below q q)
bit_or_join (suc k) q r fits = ground (
  arith,
  bit_or_step (q * 2 ^ suc k) r,
  pow-suc 2 k,
  ap (λ (t : ℕ). q * t) (pow-suc 2 k),
  bit_or_join k q (r / 2) (omega (arith, pow-suc 2 k)),
)

scale : (q k : ℕ) → q * 2 ^ suc k ≡ 2 * (q * 2 ^ k)
scale q k = omega (arith, ap (λ (t : ℕ). q * t) (pow-suc 2 k))

low_part : (k q r : ℕ) → r < 2 ^ k → bit_and (q * 2 ^ k + r) (2 ^ k - 1) ≡ r
low_part zero q r fits = ground (arith, zero_right (q + r))
low_part (suc k) q r fits = ground (
  arith,
  bit_and_step (q * 2 ^ suc k + r) (2 ^ suc k - 1),
  scale q k,
  pow-suc 2 k,
  one-le-pow k 2,
  low_part k q (r / 2) (omega (arith, pow-suc 2 k)),
)

-- `&` with the mask of the `k` low bits.
pub bit_and_low : (k a : ℕ) → bit_and a (2 ^ k - 1) ≡ a % 2 ^ k
bit_and_low k a = ground (arith, one-le-pow k 2, low_part k (a / 2 ^ k) (a % 2 ^ k))

high_part : (k q r m : ℕ) → r < 2 ^ k → bit_and (q * 2 ^ k + r) (m * 2 ^ k) ≡ bit_and q m * 2 ^ k
high_part zero q r m fits = let e : r ≡ 0 = omega arith in rw e (ground arith)
high_part (suc k) q r m fits = ground (
  arith,
  bit_and_step (q * 2 ^ suc k + r) (m * 2 ^ suc k),
  scale q k,
  scale m k,
  scale (bit_and q m) k,
  high_part k q (r / 2) m (omega (arith, pow-suc 2 k)),
)

-- A mask whose `k` low bits are clear acts on what stands above them.
pub bit_and_high : (k a m : ℕ) → bit_and a (m * 2 ^ k) ≡ bit_and (a / 2 ^ k) m * 2 ^ k
bit_and_high k a m = ground (arith, one-le-pow k 2, high_part k (a / 2 ^ k) (a % 2 ^ k) m)

or_comm_below : (n a b : ℕ) → a ≤ n → b ≤ n → bit_or a b ≡ bit_or b a
or_comm_below zero zero zero p q = refl
or_comm_below zero (suc a) b p q = absurd (omega arith)
or_comm_below zero zero (suc b) p q = absurd (omega arith)
or_comm_below (suc n) a b p q = omega (
  arith,
  bit_or_step a b,
  bit_or_step b a,
  or_comm_below n (a / 2) (b / 2) (omega arith) (omega arith),
)

-- A field put above `k` bits.
pub bit_or_above : (k r q : ℕ) → r < 2 ^ k → bit_or r (q * 2 ^ k) ≡ r + q * 2 ^ k
bit_or_above k r q fits = omega (
  arith,
  or_comm_below (r + q * 2 ^ k) r (q * 2 ^ k) (omega arith) (omega arith),
  bit_or_join k q r fits,
)
