-- ===== src/Chacha20/Api/Ietf.antt =====
-- The calls of src/libsodium/crypto_stream/chacha20/stream_chacha20.c with a nonce of 12 bytes and a
-- 32-bit counter.
use mathlib.Core.Path.{fun_ext}
use native.Mathlib.Decide.{dec_lt}
use libsodium.Base.{
  ℕ, ◌+◌, ◌-◌, ◌*◌, ◌/◌, ◌%◌, ◌^◌, ◌≤◌, ◌<◌, none, ◌++◌, ◌≡◌, refl, ap, ◌∙◌, arith, Bytes, IsBytes,
  length, length-append, All-append, ok, misuse, le→ltb, lt→ltb, inl, inr, ◌⊎◌, replicate,
}
use libsodium.Stream.{
  xor_stream, xor_stream_twice, xor_stream-append, xor_stream-IsBytes, length-xor_stream,
}
use libsodium.Chacha20.{chacha_ietf_context, stream_ietf_ext_ref}
use libsodium.Chacha20.Counter.{key_at, key_at-lt}
use libsodium.Chacha20.Context.{ietf_context, key_at-ietf_context, stream_ietf_ext_ref_xor_ic_lem}
use libsodium.Chacha20.Encrypt.{chacha20_encrypt_bytes_lem}
use libsodium.Chacha20.Api.{
  outcome, crypto_stream_chacha20_ietf, crypto_stream_chacha20_ietf_xor,
  crypto_stream_chacha20_ietf_ext_xor, crypto_stream_chacha20_ietf_ext,
  crypto_stream_chacha20_ietf_xor_ic, crypto_stream_chacha20_ietf_ext_xor_ic,
}

pub ietf_xor_ic_lem :
    (m n : Bytes) (ic : ℕ) (k : Bytes)
    → IsBytes m
    → length m + 63 < 2 ^ 64
    → ic + (length m + 63) / 64 ≤ 2 ^ 32
    → crypto_stream_chacha20_ietf_xor_ic m n ic k ≡ ok (xor_stream (key_at (ietf_context k n ic)) m)
unfolding crypto_stream_chacha20_ietf_xor_ic crypto_stream_chacha20_ietf_ext_xor_ic
ietf_xor_ic_lem m n ic k h small fits =
    rw
      (
        le→ltb ((2 ^ 32 + 2 ^ 64 - (length m + 63) % 2 ^ 64 / 64) % 2 ^ 64) ic (omega arith),
        le→ltb (2 ^ 64 - 1) (length m) (omega arith),
        stream_ietf_ext_ref_xor_ic_lem m n ic k h,
      )
      refl

pub ietf_xor_lem :
    (m n k : Bytes)
    → IsBytes m
    → length m ≤ 64 * 2 ^ 32
    → crypto_stream_chacha20_ietf_xor m n k ≡ ok (xor_stream (key_at (ietf_context k n 0)) m)
unfolding crypto_stream_chacha20_ietf_xor crypto_stream_chacha20_ietf_ext_xor
ietf_xor_lem m n k h small =
    rw
      (
        le→ltb (64 * 2 ^ 32) (length m) (omega arith),
        le→ltb (2 ^ 64 - 1) (length m) (omega arith),
        stream_ietf_ext_ref_xor_ic_lem m n 0 k h,
      )
      refl

-- The call without the bound on the counter, for every message.
pub ext_xor_ic_lem :
    (m n : Bytes) (ic : ℕ) (k : Bytes)
    → IsBytes m
    → length m < 2 ^ 64
    → crypto_stream_chacha20_ietf_ext_xor_ic m n ic k
      ≡ ok (xor_stream (key_at (ietf_context k n ic)) m)
unfolding crypto_stream_chacha20_ietf_ext_xor_ic
ext_xor_ic_lem m n ic k h small =
    rw (le→ltb (2 ^ 64 - 1) (length m) (omega arith), stream_ietf_ext_ref_xor_ic_lem m n ic k h)
      refl

pub ext_block0 :
    (n k : Bytes)
    → crypto_stream_chacha20_ietf_ext 64 n k
      ≡ ok (xor_stream (key_at (chacha_ietf_context k n none)) (replicate 64 0))
unfolding crypto_stream_chacha20_ietf_ext stream_ietf_ext_ref
ext_block0 n k =
    ap outcome
      (chacha20_encrypt_bytes_lem (chacha_ietf_context k n none) (replicate 64 0) (omega arith))

-- The first block of the key stream, as callers take it for a key.
pub crypto_stream_chacha20_ietf_block0 :
    (n k : Bytes)
    → crypto_stream_chacha20_ietf 64 n k
      ≡ ok (xor_stream (key_at (chacha_ietf_context k n none)) (replicate 64 0))
unfolding crypto_stream_chacha20_ietf crypto_stream_chacha20_ietf_ext stream_ietf_ext_ref
crypto_stream_chacha20_ietf_block0 n k =
    ap outcome
      (chacha20_encrypt_bytes_lem (chacha_ietf_context k n none) (replicate 64 0) (omega arith))

refused_lem :
    (m n : Bytes) (ic : ℕ) (k : Bytes)
    → length m + 63 < 2 ^ 64
    → ic < 2 ^ 32
    → 2 ^ 32 < ic + (length m + 63) / 64
    → length m < 2 ^ 38
    → crypto_stream_chacha20_ietf_xor_ic m n ic k ≡ misuse
unfolding crypto_stream_chacha20_ietf_xor_ic
refused_lem m n ic k small fits over short =
    rw (lt→ltb ((2 ^ 32 + 2 ^ 64 - (length m + 63) % 2 ^ 64 / 64) % 2 ^ 64) ic (omega arith)) refl

-- A message whose blocks, counted from `ic`, would pass block 2^32 is refused by `sodium_misuse`.
-- The others are xored with the key stream of the counter, and doing so twice gives the message back.
pub crypto_stream_chacha20_ietf_xor_ic_twice :
    (m n : Bytes) (ic : ℕ) (k : Bytes)
    → IsBytes m
    → length m < 2 ^ 38
    → ic < 2 ^ 32
    → ((2 ^ 32 < ic + (length m + 63) / 64)
        × (crypto_stream_chacha20_ietf_xor_ic m n ic k ≡ misuse))
      ⊎ ((c : Bytes) × (ic + (length m + 63) / 64 ≤ 2 ^ 32)
          × (crypto_stream_chacha20_ietf_xor_ic m n ic k ≡ ok c)
          × (length c ≡ length m)
          × (crypto_stream_chacha20_ietf_xor_ic c n ic k ≡ ok m))
crypto_stream_chacha20_ietf_xor_ic_twice m n ic k h small fits =
    elim (dec_lt (2 ^ 32) (ic + (length m + 63) / 64)) [
      | yes over ↦ inl (over, refused_lem m n ic k (omega arith) fits over small)
      | no within ↦
          let key = key_at (ietf_context k n ic) in
          let same = length-xor_stream key m in
          inr (
            xor_stream key m,
            omega arith,
            ietf_xor_ic_lem m n ic k h (omega arith) (omega arith),
            same,
            ietf_xor_ic_lem (xor_stream key m) n ic k
                  (xor_stream-IsBytes key m (key_at-lt (ietf_context k n ic)) h)
                  (omega (arith, same)) (omega (arith, same))
                ∙ ap ok (xor_stream_twice key m),
          )
    ]

-- The 32-bit counter may be moved on between two calls, as long as all blocks fit.
pub crypto_stream_chacha20_ietf_xor_ic-append :
    (a b n : Bytes) (ic : ℕ) (k : Bytes)
    → IsBytes a
    → IsBytes b
    → length a % 64 ≡ 0
    → 0 < length b
    → ic + (length a + length b + 63) / 64 ≤ 2 ^ 32
    → (c d : Bytes) × (crypto_stream_chacha20_ietf_xor_ic a n ic k ≡ ok c)
      × (crypto_stream_chacha20_ietf_xor_ic b n (ic + length a / 64) k ≡ ok d)
      × (crypto_stream_chacha20_ietf_xor_ic (a ++ b) n ic k ≡ ok (c ++ d))
crypto_stream_chacha20_ietf_xor_ic-append a b n ic k ha hb whole pos small =
    let q = length a / 64 in
    let key = key_at (ietf_context k n ic) in
    let next = key_at (ietf_context k n (ic + q)) in
    let blocks : length a ≡ q * 64 = omega arith in
    (
      xor_stream key a,
      xor_stream next b,
      ietf_xor_ic_lem a n ic k ha (omega arith) (omega arith),
      ietf_xor_ic_lem b n (ic + q) k hb (omega arith) (omega arith),
      ietf_xor_ic_lem (a ++ b) n ic k (All-append (λ x. x < 256) a b ha hb)
            (omega (arith, length-append a b)) (omega (arith, length-append a b))
          ∙ ap ok (
              xor_stream-append key a b
              ∙ ap (λ (f : ℕ → ℕ). xor_stream key a ++ xor_stream f b)
                  (fun_ext (λ (i : ℕ).
                    ap (λ (t : ℕ). key (t + i)) blocks
                    ∙ key_at-ietf_context k n q ic i (omega arith)))),
    )
