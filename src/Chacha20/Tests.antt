-- ===== src/Chacha20/Tests.antt =====
-- The ChaCha20 block of RFC 8439, 2.3.2, run on the model of
-- src/libsodium/crypto_stream/chacha20/ref/chacha20_ref.c.
use libsodium.Base.{ℕ, zero, suc, ◌+◌, some, [], ◌∷◌, ◌≡◌, refl, Bytes, replicate, take}
use libsodium.Chacha20.{
  stream_ietf_ext_ref_xor_ic, chacha20_encrypt_bytes, chacha_ietf_context, key_words, rounds,
  double_round, xor_words,
}
use libsodium.Endian.{load32_le, load32_bytes, store32_le, rotl32}
use mathlib.Core.Option

abbrev up_to : ℕ → ℕ → Bytes
up_to zero at = []
up_to (suc n) at = at ∷ up_to n (at + 1)

abbrev nonce : Bytes
nonce = 0 ∷ 0 ∷ 0 ∷ 9 ∷ 0 ∷ 0 ∷ 0 ∷ 0x4a ∷ 0 ∷ 0 ∷ 0 ∷ 0 ∷ []

first_bytes :
    Option.map (take 8) (stream_ietf_ext_ref_xor_ic (replicate 64 0) nonce 1 (up_to 32 0))
    ≡ some (0x10 ∷ 0xf1 ∷ 0xe7 ∷ 0xe4 ∷ 0xd1 ∷ 0x3b ∷ 0x59 ∷ 0x15 ∷ [])
unfolding stream_ietf_ext_ref_xor_ic chacha20_encrypt_bytes chacha_ietf_context key_words rounds
    double_round xor_words load32_le load32_bytes store32_le rotl32
first_bytes = refl
