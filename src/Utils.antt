-- ===== src/Utils.antt =====
-- src/libsodium/sodium/utils.c: comparison, arithmetic and padding of byte strings.
pub mod Compare
pub mod Arith
pub mod Pad
