-- ===== src/Xchacha20.antt =====
-- src/libsodium/crypto_core/hchacha20/core_hchacha20.c and
-- src/libsodium/crypto_stream/xchacha20/stream_xchacha20.c: ChaCha20 with a nonce of 24 bytes, of
-- which the first 16 make a key with the rounds of ChaCha20.
pub mod Laws
pub mod Tests
use libsodium.Base.{ℕ, ◌+◌, Option, none, some, ◌++◌, Bytes, Result, drop}
use libsodium.Endian.{load32_le, store32_le}
use libsodium.Chacha20.{Words, rounds, chacha_setup}
use libsodium.Chacha20.Api.{crypto_stream_chacha20, crypto_stream_chacha20_xor_ic}

-- The words before the rounds; `c` is `NULL`, or 16 bytes in place of the constants.
pub hchacha20_words : Bytes → Bytes → Option Bytes → Words
hchacha20_words input k none =
    chacha_setup k (load32_le input 0) (load32_le input 4) (load32_le input 8) (load32_le input 12)
hchacha20_words input k (some c) =
    record (chacha_setup k (load32_le input 0) (load32_le input 4) (load32_le input 8)
      (load32_le input 12)) {
        x0 = load32_le c 0;
        x1 = load32_le c 4;
        x2 = load32_le c 8;
        x3 = load32_le c 12;
      }

-- The rounds are those of ChaCha20: the macro of this file does the same to four `uint32_t`.
pub crypto_core_hchacha20 : Bytes → Bytes → Option Bytes → Bytes
unfolding hchacha20_words
crypto_core_hchacha20 input k c =
    let x = rounds 10 (hchacha20_words input k c) in
    store32_le x.x0
    ++ store32_le x.x1
    ++ store32_le x.x2
    ++ store32_le x.x3
    ++ store32_le x.x12
    ++ store32_le x.x13
    ++ store32_le x.x14
    ++ store32_le x.x15

pub crypto_stream_xchacha20 : ℕ → Bytes → Bytes → Result Bytes
crypto_stream_xchacha20 clen n k =
    crypto_stream_chacha20 clen (drop 16 n) (crypto_core_hchacha20 n k none)

pub crypto_stream_xchacha20_xor_ic : Bytes → Bytes → ℕ → Bytes → Result Bytes
crypto_stream_xchacha20_xor_ic m n ic k =
    crypto_stream_chacha20_xor_ic m (drop 16 n) ic (crypto_core_hchacha20 n k none)

pub crypto_stream_xchacha20_xor : Bytes → Bytes → Bytes → Result Bytes
unfolding crypto_stream_xchacha20_xor_ic
crypto_stream_xchacha20_xor m n k = crypto_stream_xchacha20_xor_ic m n 0 k
