-- ===== src/Aead/Xchacha20Poly1305/Tests.antt =====
-- The theorems about src/libsodium/crypto_aead/xchacha20poly1305/aead_xchacha20poly1305.c at inputs.
use libsodium.Base.{
  ◌^◌, ◌<◌, true, some, [], ◌∷◌, ◌≡◌, ◌⊎◌, refl, arith, Bytes, IsBytes, length, replicate, ok,
}
use libsodium.Utils.Compare.{minus_one}
use libsodium.Aead.Xchacha20Poly1305.{
  crypto_aead_xchacha20poly1305_ietf_encrypt_detached,
  crypto_aead_xchacha20poly1305_ietf_decrypt_detached, crypto_aead_xchacha20poly1305_ietf_encrypt,
  crypto_aead_xchacha20poly1305_ietf_decrypt,
}
use libsodium.Aead.Xchacha20Poly1305.Laws.{
  crypto_aead_xchacha20poly1305_ietf_decrypt_detached_lem,
  crypto_aead_xchacha20poly1305_ietf_decrypt-encrypt,
}

abbrev key : Bytes
key = 8 ∷ replicate 31 7

abbrev nonce : Bytes
nonce = 9 ∷ replicate 23 6

abbrev ad : Bytes
ad = 0x50 ∷ 0x51 ∷ []

abbrev seventeen : Bytes
seventeen = 1 ∷ replicate 16 2

abbrev mac : Bytes
mac = 3 ∷ replicate 15 4

crypto_aead_xchacha20poly1305_ietf_decrypt_detached_lem_example :
    ((m : Bytes) × IsBytes m
      × (crypto_aead_xchacha20poly1305_ietf_encrypt_detached m ad nonce key ≡ ok (seventeen, mac))
      × (crypto_aead_xchacha20poly1305_ietf_decrypt_detached true seventeen mac ad nonce key
          ≡ ok (record { m = some m; ret = 0 })))
    ⊎ ((¬ (
          (m : Bytes) × IsBytes m
          × (length m < 2 ^ 64)
          × (crypto_aead_xchacha20poly1305_ietf_encrypt_detached m ad nonce key
              ≡ ok (seventeen, mac))))
        × (crypto_aead_xchacha20poly1305_ietf_decrypt_detached true seventeen mac ad nonce key
            ≡ ok (record { m = some (replicate 17 0); ret = minus_one })))
crypto_aead_xchacha20poly1305_ietf_decrypt_detached_lem_example =
    crypto_aead_xchacha20poly1305_ietf_decrypt_detached_lem seventeen mac ad nonce key (omega arith)
      (omega arith) (omega arith) (omega arith) refl

crypto_aead_xchacha20poly1305_ietf_decrypt-encrypt_example :
    (c : Bytes) × (crypto_aead_xchacha20poly1305_ietf_encrypt seventeen ad nonce key ≡ ok (c, 33))
    × (length c ≡ 33)
    × (crypto_aead_xchacha20poly1305_ietf_decrypt true c ad nonce key
        ≡ ok (record { m = some seventeen; ret = 0 }, 17))
crypto_aead_xchacha20poly1305_ietf_decrypt-encrypt_example =
    crypto_aead_xchacha20poly1305_ietf_decrypt-encrypt seventeen ad nonce key (omega arith)
      (omega arith) (omega arith)
