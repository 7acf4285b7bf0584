-- ===== src/Xchacha20/Laws.antt =====
-- How HChaCha20 and XChaCha20 hang together with ChaCha20, for
-- src/libsodium/crypto_core/hchacha20/core_hchacha20.c and
-- src/libsodium/crypto_stream/xchacha20/stream_xchacha20.c.
use libsodium.Base.{
  ℕ, ◌+◌, ◌/◌, ◌%◌, ◌^◌, ◌<◌, Option, none, List, [], ◌∷◌, ◌++◌, ◌≡◌, refl, ap, ap₂, sym, ◌∙◌,
  All-append, length-append, arith, Bytes, IsBytes, length, take, drop, u8, u64, ◌>>>◌, ok,
}
use libsodium.Endian.{load32_le, load32_bytes, store32_le}
use libsodium.Chacha20.{Words, rounds, plus, key_words}
use libsodium.Chacha20.Context.{stored_word}
use libsodium.Chacha20.Api.{crypto_stream_chacha20_xor_ic}
use libsodium.Chacha20.Api.Laws.{
  crypto_stream_chacha20_xor_ic-append, crypto_stream_chacha20_xor_ic_twice,
}
use libsodium.Xchacha20.{
  hchacha20_words, crypto_core_hchacha20, crypto_stream_xchacha20_xor_ic,
  crypto_stream_xchacha20_xor,
}

-- The first and the last four words of a context.
pub outer_words : Words → List ℕ
outer_words j = j.x0 ∷ j.x1 ∷ j.x2 ∷ j.x3 ∷ j.x12 ∷ j.x13 ∷ j.x14 ∷ j.x15 ∷ []

-- The eight words of 32 bytes.
pub loaded_words : Bytes → List ℕ
loaded_words b =
    load32_le b 0
    ∷ load32_le b 4
    ∷ load32_le b 8
    ∷ load32_le b 12
    ∷ load32_le b 16
    ∷ load32_le b 20
    ∷ load32_le b 24
    ∷ load32_le b 28
    ∷ []

pub plus_words : List ℕ → List ℕ → List ℕ
plus_words (v ∷ vs) (w ∷ ws) = plus v w ∷ plus_words vs ws
plus_words _ _ = []

plus_stored :
    (w v : ℕ)
    → plus (load32_bytes (u8 w) (u8 (w >>> 8)) (u8 (w >>> 8 >>> 8)) (u8 (w >>> 8 >>> 8 >>> 8))) v
      ≡ plus w v
plus_stored w v = omega (arith, stored_word w)

-- What `crypto_core_hchacha20` leaves out of the ChaCha20 block function is the last addition: its
-- words, with the outer words of the context added, are the outer words of the block.
pub crypto_core_hchacha20-key_words :
    (input k : Bytes) (c : Option Bytes)
    → plus_words
        (loaded_words (crypto_core_hchacha20 input k c))
        (outer_words (hchacha20_words input k c))
      ≡ take 4 (key_words (hchacha20_words input k c))
        ++ drop 12 (key_words (hchacha20_words input k c))
unfolding crypto_core_hchacha20 loaded_words outer_words plus_words key_words load32_le store32_le
crypto_core_hchacha20-key_words input k c =
    let j = hchacha20_words input k c in
    let x = rounds 10 j in
    ap₂ ◌∷◌ (plus_stored x.x0 j.x0) (
      ap₂ ◌∷◌ (plus_stored x.x1 j.x1) (
        ap₂ ◌∷◌ (plus_stored x.x2 j.x2) (
          ap₂ ◌∷◌ (plus_stored x.x3 j.x3) (
            ap₂ ◌∷◌ (plus_stored x.x12 j.x12) (
              ap₂ ◌∷◌ (plus_stored x.x13 j.x13)
                (ap₂ ◌∷◌ (plus_stored x.x14 j.x14) (ap₂ ◌∷◌ (plus_stored x.x15 j.x15) refl)))))))

-- `crypto_stream_xchacha20_xor` of whole blocks and more is `crypto_stream_xchacha20_xor_ic` of the
-- blocks from 0 on, and of the rest from the next block on; and what it writes, it reads again.
pub crypto_stream_xchacha20_xor-append :
    (a b n k : Bytes)
    → IsBytes a
    → IsBytes b
    → length a % 64 ≡ 0
    → length a + length b < 2 ^ 64
    → (c d : Bytes) × (crypto_stream_xchacha20_xor_ic a n 0 k ≡ ok c)
      × (crypto_stream_xchacha20_xor_ic b n (length a / 64) k ≡ ok d)
      × (crypto_stream_xchacha20_xor (a ++ b) n k ≡ ok (c ++ d))
      × (crypto_stream_xchacha20_xor (c ++ d) n k ≡ ok (a ++ b))
unfolding crypto_stream_xchacha20_xor_ic crypto_stream_xchacha20_xor
crypto_stream_xchacha20_xor-append a b n k ha hb whole small =
    let k2 = crypto_core_hchacha20 n k none in
    let n2 = drop 16 n in
    let next : u64 (0 + length a / 64) ≡ length a / 64 = omega arith in
    let (c, d, run_a, run_b, run) =
      crypto_stream_chacha20_xor_ic-append a b n2 0 k2 ha hb whole small in
    let (e, run', same, back) =
      crypto_stream_chacha20_xor_ic_twice (a ++ b) n2 0 k2 (All-append (λ x. x < 256) a b ha hb)
        (omega (arith, length-append a b)) in
    let one_text : e ≡ c ++ d = cc in
    (
      c,
      d,
      run_a,
      ap (λ (ic : ℕ). crypto_stream_chacha20_xor_ic b n2 ic k2) (sym next) ∙ run_b,
      run,
      ap (λ (t : Bytes). crypto_stream_chacha20_xor_ic t n2 0 k2) (sym one_text) ∙ back,
    )

pub length-crypto_core_hchacha20 :
    (input k : Bytes) (c : Option Bytes) → length (crypto_core_hchacha20 input k c) ≡ 32
unfolding crypto_core_hchacha20 store32_le
length-crypto_core_hchacha20 input k c = refl

pub crypto_core_hchacha20-IsBytes :
    (input k : Bytes) (c : Option Bytes) → IsBytes (crypto_core_hchacha20 input k c)
unfolding crypto_core_hchacha20 store32_le
crypto_core_hchacha20-IsBytes input k c = omega arith
