-- ===== src/Common/Bits.antt =====
-- The digits of a binary number, and what `|`, `&` and a complement do to each.
mod Step
mod Digit
mod Mask
pub use Digit.*
pub use Mask.*
