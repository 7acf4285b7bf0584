-- ===== src/Aead/Tests.antt =====
-- The vector of RFC 8439, 2.8.2, run on the model of
-- src/libsodium/crypto_aead/chacha20poly1305/aead_chacha20poly1305.c, and its theorems at inputs.
use Prim.Native.Char.{code}
use Prim.Native.String.{String}
use libsodium.Base.{
  ℕ, zero, suc, ◌+◌, ◌-◌, ◌*◌, ◌^◌, ◌≤◌, ◌<◌, true, some, [], ◌∷◌, ◌≡◌, ◌⊎◌, refl, arith, Bytes,
  IsBytes, length, replicate, Result, ok,
}
use libsodium.Utils.Compare.{minus_one}
use libsodium.Aead.{
  crypto_aead_chacha20poly1305_encrypt_detached, crypto_aead_chacha20poly1305_decrypt_detached,
  crypto_aead_chacha20poly1305_encrypt, crypto_aead_chacha20poly1305_decrypt,
  crypto_aead_chacha20poly1305_ietf_encrypt_detached,
  crypto_aead_chacha20poly1305_ietf_decrypt_detached, crypto_aead_chacha20poly1305_ietf_encrypt,
  crypto_aead_chacha20poly1305_ietf_decrypt,
}
use libsodium.Endian.{load32_le, load32_bytes, store32_le, rotl32, load64_le, store64_le}
use libsodium.Chacha20.{
  stream_ietf_ext_ref, stream_ietf_ext_ref_xor_ic, chacha20_encrypt_bytes, chacha_ietf_context,
  key_words, rounds, double_round, xor_words, write_first, next_counter,
}
use libsodium.Chacha20.Api.{
  crypto_stream_chacha20_ietf, crypto_stream_chacha20_ietf_ext, crypto_stream_chacha20_ietf_xor_ic,
  crypto_stream_chacha20_ietf_ext_xor_ic,
}
use libsodium.Poly1305.{
  poly1305_init, poly1305_update, poly1305_finish, poly1305_blocks, block_round, add_block,
  multiply, finish_block, carry_fully, select_reduced, add_pad, update_aligned,
}
use libsodium.Aead.Chacha20Poly1305.{
  crypto_aead_chacha20poly1305_decrypt_detached_lem, crypto_aead_chacha20poly1305_decrypt-encrypt,
}
use libsodium.Aead.Ietf.{
  crypto_aead_chacha20poly1305_ietf_decrypt_detached_lem,
  crypto_aead_chacha20poly1305_ietf_decrypt-encrypt,
}

abbrev codes : String → Bytes
codes String.[] = []
codes (String.◌∷◌ c s) = code c ∷ codes s

abbrev up_to : ℕ → ℕ → Bytes
up_to zero at = []
up_to (suc n) at = at ∷ up_to n (at + 1)

abbrev key : Bytes
key = up_to 32 0x80

abbrev nonce : Bytes
nonce = up_to 8 0x40

abbrev ietf_nonce : Bytes
ietf_nonce = 7 ∷ 0 ∷ 0 ∷ 0 ∷ nonce

abbrev ad : Bytes
ad = 0x50 ∷ 0x51 ∷ 0x52 ∷ 0x53 ∷ up_to 8 0xc0

abbrev sunscreen : Bytes
sunscreen =
    codes
      "Ladies and Gentlemen of the class of '99: If I could offer you only one tip for the future, sunscreen would be it."

abbrev mac_of : Result (Bytes × Bytes) → Bytes
mac_of (ok (c, mac)) = mac
mac_of _ = []

abbrev seventeen : Bytes
seventeen = 1 ∷ replicate 16 2

abbrev mac : Bytes
mac = 3 ∷ replicate 15 4

-- Here no message has this tag, or one has: the theorem says what is returned in either case.
crypto_aead_chacha20poly1305_decrypt_detached_lem_example :
    ((m : Bytes) × IsBytes m
      × (crypto_aead_chacha20poly1305_encrypt_detached m ad nonce key ≡ ok (seventeen, mac))
      × (crypto_aead_chacha20poly1305_decrypt_detached true seventeen mac ad nonce key
          ≡ ok (record { m = some m; ret = 0 })))
    ⊎ ((¬ (
          (m : Bytes) × IsBytes m
          × (length m < 2 ^ 64)
          × (crypto_aead_chacha20poly1305_encrypt_detached m ad nonce key ≡ ok (seventeen, mac))))
        × (crypto_aead_chacha20poly1305_decrypt_detached true seventeen mac ad nonce key
            ≡ ok (record { m = some (replicate 17 0); ret = minus_one })))
crypto_aead_chacha20poly1305_decrypt_detached_lem_example =
    crypto_aead_chacha20poly1305_decrypt_detached_lem seventeen mac ad nonce key (omega arith)
      (omega arith) (omega arith) (omega arith) refl

crypto_aead_chacha20poly1305_decrypt-encrypt_example :
    (c : Bytes) × (crypto_aead_chacha20poly1305_encrypt seventeen ad nonce key ≡ ok (c, 33))
    × (length c ≡ 33)
    × (crypto_aead_chacha20poly1305_decrypt true c ad nonce key
        ≡ ok (record { m = some seventeen; ret = 0 }, 17))
crypto_aead_chacha20poly1305_decrypt-encrypt_example =
    crypto_aead_chacha20poly1305_decrypt-encrypt seventeen ad nonce key (omega arith) (omega arith)
      (omega arith)

crypto_aead_chacha20poly1305_ietf_decrypt_detached_lem_example :
    ((m : Bytes) × IsBytes m
      × (crypto_aead_chacha20poly1305_ietf_encrypt_detached m ad ietf_nonce key
          ≡ ok (seventeen, mac))
      × (crypto_aead_chacha20poly1305_ietf_decrypt_detached true seventeen mac ad ietf_nonce key
          ≡ ok (record { m = some m; ret = 0 })))
    ⊎ ((¬ (
          (m : Bytes) × IsBytes m
          × (length m ≤ 64 * (2 ^ 32 - 1))
          × (crypto_aead_chacha20poly1305_ietf_encrypt_detached m ad ietf_nonce key
              ≡ ok (seventeen, mac))))
        × (crypto_aead_chacha20poly1305_ietf_decrypt_detached true seventeen mac ad ietf_nonce key
            ≡ ok (record { m = some (replicate 17 0); ret = minus_one })))
crypto_aead_chacha20poly1305_ietf_decrypt_detached_lem_example =
    crypto_aead_chacha20poly1305_ietf_decrypt_detached_lem seventeen mac ad ietf_nonce key
      (omega arith) (omega arith) (omega arith) (omega arith) refl

crypto_aead_chacha20poly1305_ietf_decrypt-encrypt_example :
    (c : Bytes) × (crypto_aead_chacha20poly1305_ietf_encrypt seventeen ad ietf_nonce key
      ≡ ok (c, 33))
    × (length c ≡ 33)
    × (crypto_aead_chacha20poly1305_ietf_decrypt true c ad ietf_nonce key
        ≡ ok (record { m = some seventeen; ret = 0 }, 17))
crypto_aead_chacha20poly1305_ietf_decrypt-encrypt_example =
    crypto_aead_chacha20poly1305_ietf_decrypt-encrypt seventeen ad ietf_nonce key (omega arith)
      (omega arith) (omega arith)

sunscreen_tag :
    mac_of (crypto_aead_chacha20poly1305_ietf_encrypt_detached sunscreen ad ietf_nonce key)
    ≡ 0x1a ∷ 0xe1 ∷ 0x0b ∷ 0x59 ∷ 0x4f ∷ 0x09 ∷ 0xe2 ∷ 0x6a ∷ 0x7e ∷ 0x90 ∷ 0x2e ∷ 0xcb ∷ 0xd0
      ∷ 0x60 ∷ 0x06 ∷ 0x91 ∷ []
unfolding crypto_aead_chacha20poly1305_ietf_encrypt_detached crypto_stream_chacha20_ietf
    crypto_stream_chacha20_ietf_ext crypto_stream_chacha20_ietf_xor_ic
    crypto_stream_chacha20_ietf_ext_xor_ic stream_ietf_ext_ref stream_ietf_ext_ref_xor_ic
    chacha20_encrypt_bytes chacha_ietf_context key_words rounds double_round xor_words load32_le
    load32_bytes store32_le rotl32 poly1305_init poly1305_update poly1305_finish poly1305_blocks
    block_round add_block multiply finish_block carry_fully select_reduced add_pad update_aligned
    load64_le store64_le write_first next_counter
sunscreen_tag = refl
