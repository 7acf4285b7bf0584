-- ===== src/Chacha20/Api.antt =====
-- src/libsodium/crypto_stream/chacha20/stream_chacha20.c over the portable implementation: the
-- calls with their bounds. `SODIUM_SIZE_MAX` is 2^64 - 1, and a call returns what it writes to `c`.
pub mod Laws
pub mod Ietf
pub mod Tests
use libsodium.Base.{
  ℕ, ◌+◌, ◌-◌, ◌*◌, ◌/◌, ◌%◌, ◌^◌, Option, none, some, Bytes, Result, ok, misuse, fault,
  if◌then◌else◌, ltb, length,
}
use libsodium.Chacha20.{
  stream_ref, stream_ietf_ext_ref, stream_ref_xor_ic, stream_ietf_ext_ref_xor_ic,
}

abbrev pub sodium_size_max : ℕ
sodium_size_max = 2 ^ 64 - 1

abbrev pub ietf_messagebytes_max : ℕ
ietf_messagebytes_max = 64 * 2 ^ 32

abbrev pub outcome {ℓ} : {A : Type ℓ} → Option A → Result A
outcome none = fault
outcome (some c) = ok c

-- Arguments: the length or the message, the nonce, the counter where there is one, and the key.
pub crypto_stream_chacha20 : ℕ → Bytes → Bytes → Result Bytes
crypto_stream_chacha20 clen n k =
    if ltb sodium_size_max clen then misuse else outcome (stream_ref clen n k)

pub crypto_stream_chacha20_xor_ic : Bytes → Bytes → ℕ → Bytes → Result Bytes
crypto_stream_chacha20_xor_ic m n ic k =
    if ltb sodium_size_max (length m) then misuse else outcome (stream_ref_xor_ic m n ic k)

pub crypto_stream_chacha20_xor : Bytes → Bytes → Bytes → Result Bytes
crypto_stream_chacha20_xor m n k =
    if ltb sodium_size_max (length m) then misuse else outcome (stream_ref_xor_ic m n 0 k)

unfoldable pub crypto_stream_chacha20_ietf_ext : ℕ → Bytes → Bytes → Result Bytes
crypto_stream_chacha20_ietf_ext clen n k =
    if ltb sodium_size_max clen then misuse else outcome (stream_ietf_ext_ref clen n k)

unfoldable pub crypto_stream_chacha20_ietf_ext_xor_ic : Bytes → Bytes → ℕ → Bytes → Result Bytes
crypto_stream_chacha20_ietf_ext_xor_ic m n ic k =
    if ltb sodium_size_max (length m) then misuse else outcome (stream_ietf_ext_ref_xor_ic m n ic k)

pub crypto_stream_chacha20_ietf_ext_xor : Bytes → Bytes → Bytes → Result Bytes
crypto_stream_chacha20_ietf_ext_xor m n k =
    if ltb sodium_size_max (length m) then misuse else outcome (stream_ietf_ext_ref_xor_ic m n 0 k)

unfoldable pub crypto_stream_chacha20_ietf : ℕ → Bytes → Bytes → Result Bytes
crypto_stream_chacha20_ietf clen n k =
    if ltb ietf_messagebytes_max clen then misuse else crypto_stream_chacha20_ietf_ext clen n k

-- The bound keeps the 32-bit counter from running over; `(mlen + 63ULL) / 64ULL` wraps at 2^64, and
-- so does the difference.
unfoldable pub crypto_stream_chacha20_ietf_xor_ic : Bytes → Bytes → ℕ → Bytes → Result Bytes
crypto_stream_chacha20_ietf_xor_ic m n ic k =
    let blocks = (length m + 63) % 2 ^ 64 / 64 in
    if ltb ((2 ^ 32 + 2 ^ 64 - blocks) % 2 ^ 64) ic
    then misuse
    else crypto_stream_chacha20_ietf_ext_xor_ic m n ic k

pub crypto_stream_chacha20_ietf_xor : Bytes → Bytes → Bytes → Result Bytes
crypto_stream_chacha20_ietf_xor m n k =
    if ltb ietf_messagebytes_max (length m)
    then misuse
    else crypto_stream_chacha20_ietf_ext_xor m n k
