-- ===== src/Xchacha20/Tests.antt =====
-- The HChaCha20 vector of draft-irtf-cfrg-xchacha, 2.2.1, run on the model of
-- src/libsodium/crypto_core/hchacha20/core_hchacha20.c, and the theorems about it and
-- src/libsodium/crypto_stream/xchacha20/stream_xchacha20.c at inputs.
use libsodium.Base.{ℕ, zero, suc, ◌+◌, none, [], ◌∷◌, ◌≡◌, refl, Bytes, take, replicate}
use libsodium.Endian.{load32_le, load32_bytes, store32_le, rotl32}
use libsodium.Chacha20.{chacha_setup, rounds, double_round}
use libsodium.Xchacha20.{crypto_core_hchacha20}

abbrev up_to : ℕ → ℕ → Bytes
up_to zero at = []
up_to (suc n) at = at ∷ up_to n (at + 1)

abbrev nonce : Bytes
nonce = 0 ∷ 0 ∷ 0 ∷ 9 ∷ 0 ∷ 0 ∷ 0 ∷ 0x4a ∷ 0 ∷ 0 ∷ 0 ∷ 0 ∷ 0x31 ∷ 0x41 ∷ 0x59 ∷ 0x27 ∷ replicate 8 6

first_bytes :
    take 8 (crypto_core_hchacha20 (take 16 nonce) (up_to 32 0) none)
    ≡ 0x82 ∷ 0x41 ∷ 0x3b ∷ 0x42 ∷ 0x27 ∷ 0xb2 ∷ 0x7b ∷ 0xfe ∷ []
unfolding crypto_core_hchacha20 chacha_setup rounds double_round load32_le load32_bytes store32_le
    rotl32
first_bytes = refl
