-- ===== src/Chacha20/Api/Tests.antt =====
-- The theorems about src/libsodium/crypto_stream/chacha20 at inputs.
use libsodium.Base.{
  ◌+◌, ◌/◌, ◌^◌, ◌≤◌, ◌<◌, some, ◌∷◌, ◌++◌, ◌≡◌, ◌⊎◌, refl, arith, Bytes, length, replicate, u64,
  ok, misuse,
}
use libsodium.Stream.{xor_stream}
use libsodium.Chacha20.{chacha_context, chacha20_encrypt_bytes, written}
use libsodium.Chacha20.Counter.{key_at}
use libsodium.Chacha20.Encrypt.{chacha20_encrypt_bytes_lem}
use libsodium.Chacha20.Api.{crypto_stream_chacha20_xor_ic, crypto_stream_chacha20_ietf_xor_ic}
use libsodium.Chacha20.Api.Laws.{crypto_stream_chacha20_xor_ic-append}
use libsodium.Chacha20.Api.Ietf.{crypto_stream_chacha20_ietf_xor_ic_twice}

abbrev key : Bytes
key = 1 ∷ replicate 31 7

abbrev nonce : Bytes
nonce = 2 ∷ replicate 7 5

abbrev ietf_nonce : Bytes
ietf_nonce = 3 ∷ replicate 11 4

abbrev first_part : Bytes
first_part = 65 ∷ replicate 63 97

abbrev second_part : Bytes
second_part = 66 ∷ replicate 9 98

chacha20_encrypt_bytes_lem_example :
    written (chacha20_encrypt_bytes (chacha_context key nonce (some nonce)) second_part)
    ≡ some (xor_stream (key_at (chacha_context key nonce (some nonce))) second_part)
chacha20_encrypt_bytes_lem_example =
    chacha20_encrypt_bytes_lem (chacha_context key nonce (some nonce)) second_part (omega arith)

crypto_stream_chacha20_xor_ic-append_example :
    (c d : Bytes) × (crypto_stream_chacha20_xor_ic first_part nonce 0xffffffffffffffff key ≡ ok c)
    × (crypto_stream_chacha20_xor_ic second_part nonce
          (u64 (0xffffffffffffffff + length first_part / 64))
          key
        ≡ ok d)
    × (crypto_stream_chacha20_xor_ic (first_part ++ second_part) nonce 0xffffffffffffffff key
        ≡ ok (c ++ d))
crypto_stream_chacha20_xor_ic-append_example =
    crypto_stream_chacha20_xor_ic-append first_part second_part nonce 0xffffffffffffffff key
      (omega arith) (omega arith) refl (omega arith)

crypto_stream_chacha20_ietf_xor_ic_twice_example :
    ((2 ^ 32 < 7 + (length second_part + 63) / 64)
      × (crypto_stream_chacha20_ietf_xor_ic second_part ietf_nonce 7 key ≡ misuse))
    ⊎ ((c : Bytes) × (7 + (length second_part + 63) / 64 ≤ 2 ^ 32)
        × (crypto_stream_chacha20_ietf_xor_ic second_part ietf_nonce 7 key ≡ ok c)
        × (length c ≡ length second_part)
        × (crypto_stream_chacha20_ietf_xor_ic c ietf_nonce 7 key ≡ ok second_part))
crypto_stream_chacha20_ietf_xor_ic_twice_example =
    crypto_stream_chacha20_ietf_xor_ic_twice second_part ietf_nonce 7 key (omega arith)
      (omega arith) (omega arith)
