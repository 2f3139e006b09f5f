-- ===== src/Time/Encoding.antt =====
-- The values that the timer chips get and give.
use os_from_scratch.Common.{
  ℕ, ◌+◌, ◌*◌, ◌/◌, ◌%◌, ◌^◌, ◌≤◌, ◌<◌, ◌≡◌, refl, arith, true, false, ◌||◌, List, ◌∷◌, bit_and,
  ltb, ◌==◌,
}
use native.Mathlib.Nat.{div-lt_iff_lt-mul}
use os_from_scratch.Common.Word.{u8}
use os_from_scratch.Common.Bits.{bit_and_low}
use os_from_scratch.Ports.{Event, outb}
use os_from_scratch.Time.{arch_timer_init, bcd_to_binary}

-- For a rate from 19 Hz to 596591 Hz `arch_timer_init` succeeds and sends the two bytes of the
-- divisor 1193182 / hz, the low one first, after the command 0x36.
pub arch_timer_init_lem :
    (hz : ℕ) (history : List Event)
    → 19 ≤ hz
    → hz ≤ 596591
    → (low : ℕ) × (high : ℕ) × (arch_timer_init hz history
        ≡ (true, outb 0x40 high ∷ outb 0x40 low ∷ outb 0x43 0x36 ∷ history))
      × (low < 2 ^ 8)
      × (high < 2 ^ 8)
      × (low + high * 2 ^ 8 ≡ 1193182 / hz)
unfolding arch_timer_init
arch_timer_init_lem hz history slow fast =
    let accepted : (hz == 0 || ltb 596591 hz) ≡ false = ground arith in
    let low = bit_and_low 8 (1193182 / hz) in
    let small : 1193182 / hz < 2 ^ 16 = (div-lt_iff_lt-mul (omega arith)).1 (omega arith) in
    (
      u8 (u8 (bit_and (1193182 / hz) 0xFF)),
      u8 (u8 (1193182 / hz / 2 ^ 8)),
      rw accepted refl,
      omega arith,
      omega arith,
      omega (arith, low, small),
    )

-- `bcd_to_binary` reads a number below 100 back from its two decimal digits.
pub bcd_to_binary_lem : (n : ℕ) → n < 100 → bcd_to_binary (n / 10 * 2 ^ 4 + n % 10) ≡ n
unfolding bcd_to_binary
bcd_to_binary_lem n small = omega (arith, bit_and_low 4 (n / 10 * 2 ^ 4 + n % 10))
