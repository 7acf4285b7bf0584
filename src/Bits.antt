-- ===== src/Bits.antt =====
-- The laws of `&`, `|` and `^` on unsigned integers of every width that the code relies on.
mod Step
pub mod Xor
pub mod Or
pub mod And
pub use Step.{bit_and_unroll, bit_or_unroll, bit_xor_unroll}
