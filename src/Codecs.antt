-- ===== src/Codecs.antt =====
-- src/libsodium/sodium/codecs.c: hexadecimal, Base64 and IP address text.
mod Table
pub mod Hex
pub mod Base64
