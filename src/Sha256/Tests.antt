-- ===== src/Sha256/Tests.antt =====
-- SHA-256 of FIPS 180 from the model of src/libsodium/crypto_hash/sha256/cp, and its theorems at
-- inputs.
use libsodium.Utils.Compare.{minus_one}
use libsodium.Base.{◌*◌, ◌/◌, ◌≤◌, ◌<◌, suc, ok, error, take}
use libsodium.Sha256.Hkdf.{crypto_kdf_hkdf_sha256_expand, crypto_kdf_hkdf_sha256_expand_lem, stream}
use libsodium.Sha256.Digest.{sha256, crypto_hash_sha256_lem}
use libsodium.Sha256.Hmac.{
  crypto_auth_hmacsha256_init, crypto_auth_hmacsha256_update, crypto_auth_hmacsha256_final,
  crypto_auth_hmacsha256_verify, hmac,
}
use libsodium.Sha256.Hmac.Laws.{
  crypto_auth_hmacsha256_final-append, crypto_auth_hmacsha256_verify_lem,
}
use libsodium.Base.{◌++◌, replicate, arith, some, ◌≢◌, ◌⊎◌, ◌≡◌, refl, Bytes, [], ◌∷◌}
use libsodium.Sha256.{
  crypto_hash_sha256, crypto_hash_sha256_init, crypto_hash_sha256_update, crypto_hash_sha256_final,
  be32enc_vect, sha256_pad, sha256_transform, sha256_initial_state, waiting, update_blocks,
  whole_blocks, store32_be, store64_be, transform_loop, add_words, be32dec_vect, sha256_rounds,
  schedule, rnd, msch, ch, maj, big_sigma0, big_sigma1, sigma0, sigma1, rotr32, load32_be,
}

digest_of_abc :
    crypto_hash_sha256 (b'a' ∷ b'b' ∷ b'c' ∷ [])
    ≡ 0xba ∷ 0x78 ∷ 0x16 ∷ 0xbf ∷ 0x8f ∷ 0x01 ∷ 0xcf ∷ 0xea ∷ 0x41 ∷ 0x41 ∷ 0x40 ∷ 0xde ∷ 0x5d
      ∷ 0xae ∷ 0x22 ∷ 0x23 ∷ 0xb0 ∷ 0x03 ∷ 0x61 ∷ 0xa3 ∷ 0x96 ∷ 0x17 ∷ 0x7a ∷ 0x9c ∷ 0xb4 ∷ 0x10
      ∷ 0xff ∷ 0x61 ∷ 0xf2 ∷ 0x00 ∷ 0x15 ∷ 0xad ∷ []
unfolding crypto_hash_sha256 crypto_hash_sha256_init crypto_hash_sha256_update
    crypto_hash_sha256_final be32enc_vect sha256_pad sha256_transform sha256_initial_state waiting
    update_blocks whole_blocks store32_be store64_be transform_loop add_words be32dec_vect
    sha256_rounds schedule rnd msch ch maj big_sigma0 big_sigma1 sigma0 sigma1 rotr32 load32_be
digest_of_abc = refl

-- The parts end inside the first block and inside the third.
crypto_hash_sha256_lem_example :
    (crypto_hash_sha256 (replicate 60 1 ++ replicate 80 2)
      ≡ sha256 (replicate 60 1 ++ replicate 80 2))
    × (crypto_hash_sha256_final (
          crypto_hash_sha256_update
            (crypto_hash_sha256_update crypto_hash_sha256_init (replicate 60 1))
            (replicate 80 2))
        ≡ sha256 (replicate 60 1 ++ replicate 80 2))
crypto_hash_sha256_lem_example =
    crypto_hash_sha256_lem (replicate 60 1) (replicate 80 2) (omega arith)

-- A key that is hashed first.
crypto_auth_hmacsha256_final-append_example :
    crypto_auth_hmacsha256_final (
      crypto_auth_hmacsha256_update
        (crypto_auth_hmacsha256_update
          (crypto_auth_hmacsha256_init (replicate 70 9))
          (replicate 60 1))
        (replicate 80 2))
    ≡ hmac (replicate 70 9) (replicate 60 1 ++ replicate 80 2)
crypto_auth_hmacsha256_final-append_example =
    crypto_auth_hmacsha256_final-append (replicate 70 9) (replicate 60 1) (replicate 80 2)
      (omega arith) (omega arith)

abbrev key : Bytes
key = replicate 32 7

abbrev guess : Bytes
guess = replicate 32 5

crypto_auth_hmacsha256_verify_lem_example :
    ((guess ≡ hmac key (1 ∷ [])) × (crypto_auth_hmacsha256_verify guess (1 ∷ []) key ≡ some 0))
    ⊎ ((guess ≢ hmac key (1 ∷ []))
        × (crypto_auth_hmacsha256_verify guess (1 ∷ []) key ≡ some minus_one))
crypto_auth_hmacsha256_verify_lem_example =
    crypto_auth_hmacsha256_verify_lem guess (1 ∷ []) key (omega arith) refl (omega arith)
      (omega arith)

-- Two whole blocks and six bytes.
crypto_kdf_hkdf_sha256_expand_lem_example :
    ((70 ≤ 255 * 32)
      × (crypto_kdf_hkdf_sha256_expand (1 ∷ []) key 70
          ≡ ok (take 70 (stream (1 ∷ []) key (suc (70 / 32))))))
    ⊎ ((255 * 32 < 70) × (crypto_kdf_hkdf_sha256_expand (1 ∷ []) key 70 ≡ error))
crypto_kdf_hkdf_sha256_expand_lem_example =
    crypto_kdf_hkdf_sha256_expand_lem (1 ∷ []) key (omega arith) (omega arith) 70
