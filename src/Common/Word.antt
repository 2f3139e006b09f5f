-- ===== src/Common/Word.antt =====
-- Casts to the fixed widths of `includes/unit_types.h` (`uintptr_t` is 32 bits wide on i686), the
-- shifts, and a store of words indexed by number.
use Prim.Native.Nat.{ℕ, ◌+◌, ◌-◌, ◌*◌, ◌/◌, ◌%◌, ◌^◌}
use mathlib.Core.Path.{◌≡◌}
use mathlib.Core.Logic.{◌≢◌}
use native.Mathlib.Omega.{arith}
use os_from_scratch.Common.Tests.{◌==◌, if◌then◌else◌}

abbrev pub u8 : ℕ → ℕ
u8 n = n % 2 ^ 8

abbrev pub u16 : ℕ → ℕ
u16 n = n % 2 ^ 16

abbrev pub u32 : ℕ → ℕ
u32 n = n % 2 ^ 32

abbrev pub u64 : ℕ → ℕ
u64 n = n % 2 ^ 64

-- uint32_t a - b, for operands below 2 ^ 32.
abbrev pub sub32 : ℕ → ℕ → ℕ
sub32 a b = (a + 2 ^ 32 - b) % 2 ^ 32

infixl 75 ◌<<◌ ◌>>◌
abbrev pub ◌<<◌ : ℕ → ℕ → ℕ
x << k = x * 2 ^ k

abbrev pub ◌>>◌ : ℕ → ℕ → ℕ
x >> k = x / 2 ^ k

-- An array as a function of the index; a write changes one place.
unfoldable pub store {ℓ} : {A : Type ℓ} → (ℕ → A) → ℕ → A → ℕ → A
store f k v i = if i == k then v else f i

module _ {ℓ} {A : Type ℓ} where
  pub store_self : (f : ℕ → A) (k : ℕ) (v : A) → store f k v k ≡ v
  unfolding store
  store_self f k v = ground arith

  pub store_ne : (f : ℕ → A) (k : ℕ) (v : A) (i : ℕ) → i ≢ k → store f k v i ≡ f i
  unfolding store
  store_ne f k v i h = ground arith
