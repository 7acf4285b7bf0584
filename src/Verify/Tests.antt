-- ===== src/Verify/Tests.antt =====
-- A run of src/libsodium/crypto_verify/verify.c, and its theorems at inputs.
use libsodium.Base.{some, ◌∷◌, ◌≡◌, ◌≢◌, ◌⊎◌, refl, arith, Bytes, replicate}
use libsodium.Utils.Compare.{minus_one}
use libsodium.Verify.{
  crypto_verify_n, crypto_verify_16, crypto_verify_32, crypto_verify_64, verify_flag,
}
use libsodium.Verify.Equivalence.{crypto_verify_32_lem}

abbrev tag : Bytes
tag = 1 ∷ replicate 31 7

abbrev forged : Bytes
forged = 0 ∷ replicate 31 7

differs : crypto_verify_16 tag forged ≡ some minus_one
unfolding crypto_verify_16 crypto_verify_n verify_flag
differs = refl

agrees : crypto_verify_64 (replicate 64 3) (replicate 64 3) ≡ some 0
unfolding crypto_verify_64 crypto_verify_n verify_flag
agrees = refl

crypto_verify_32_lem_example :
    ((tag ≡ forged) × (crypto_verify_32 tag forged ≡ some 0))
    ⊎ ((tag ≢ forged) × (crypto_verify_32 tag forged ≡ some minus_one))
crypto_verify_32_lem_example = crypto_verify_32_lem tag forged (omega arith) (omega arith) refl refl
