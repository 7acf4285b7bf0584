-- ===== src/Chacha20/Api/Laws.antt =====
-- The calls of src/libsodium/crypto_stream/chacha20/stream_chacha20.c xor a message with a key
-- stream, and a message may be encrypted in parts with a counter that is moved on.
use mathlib.Core.Path.{fun_ext}
use libsodium.Base.{
  ℕ, ◌+◌, ◌-◌, ◌*◌, ◌/◌, ◌%◌, ◌^◌, ◌<◌, none, ◌++◌, ◌≡◌, refl, ap, ◌∙◌, arith, Bytes, IsBytes,
  length, length-append, u64, All-append, ok, le→ltb, replicate,
}
use libsodium.Stream.{
  xor_stream, xor_stream_twice, xor_stream-append, xor_stream-IsBytes, length-xor_stream,
}
use libsodium.Chacha20.{Words, chacha_context, stream_ref}
use libsodium.Chacha20.Counter.{key_at, key_at-lt}
use libsodium.Chacha20.Context.{
  counter_context, key_at-counter_context, counter_wraps, stream_ref_xor_ic_lem,
}
use libsodium.Chacha20.Encrypt.{chacha20_encrypt_bytes_lem}
use libsodium.Chacha20.Api.{outcome, crypto_stream_chacha20, crypto_stream_chacha20_xor_ic}

pub xor_ic_lem :
    (m n : Bytes) (ic : ℕ) (k : Bytes)
    → IsBytes m
    → length m < 2 ^ 64
    → crypto_stream_chacha20_xor_ic m n ic k ≡ ok (xor_stream (key_at (counter_context k n ic)) m)
unfolding crypto_stream_chacha20_xor_ic
xor_ic_lem m n ic k h small =
    rw (le→ltb (2 ^ 64 - 1) (length m) (omega arith), stream_ref_xor_ic_lem m n ic k h) refl

-- The first block of the key stream, as callers take it for a key.
pub crypto_stream_chacha20_block0 :
    (n k : Bytes)
    → crypto_stream_chacha20 64 n k
      ≡ ok (xor_stream (key_at (chacha_context k n none)) (replicate 64 0))
unfolding crypto_stream_chacha20 stream_ref
crypto_stream_chacha20_block0 n k =
    ap outcome (chacha20_encrypt_bytes_lem (chacha_context k n none) (replicate 64 0) (omega arith))

-- Encrypting twice with one nonce, counter and key gives the message back, and the first
-- ciphertext has its length.
pub crypto_stream_chacha20_xor_ic_twice :
    (m n : Bytes) (ic : ℕ) (k : Bytes)
    → IsBytes m
    → length m < 2 ^ 64
    → (c : Bytes) × (crypto_stream_chacha20_xor_ic m n ic k ≡ ok c)
      × (length c ≡ length m)
      × (crypto_stream_chacha20_xor_ic c n ic k ≡ ok m)
crypto_stream_chacha20_xor_ic_twice m n ic k h small =
    let key = key_at (counter_context k n ic) in
    let c = xor_stream key m in
    let same = length-xor_stream key m in
    (
      c,
      xor_ic_lem m n ic k h small,
      same,
      xor_ic_lem c n ic k (xor_stream-IsBytes key m (key_at-lt (counter_context k n ic)) h)
            (omega (arith, same))
          ∙ ap ok (xor_stream_twice key m),
    )

-- A message may be encrypted in two calls, where the first part is whole blocks: the second call
-- takes the counter moved on by the blocks of the first, modulo 2^64.
pub crypto_stream_chacha20_xor_ic-append :
    (a b n : Bytes) (ic : ℕ) (k : Bytes)
    → IsBytes a
    → IsBytes b
    → length a % 64 ≡ 0
    → length a + length b < 2 ^ 64
    → (c d : Bytes) × (crypto_stream_chacha20_xor_ic a n ic k ≡ ok c)
      × (crypto_stream_chacha20_xor_ic b n (u64 (ic + length a / 64)) k ≡ ok d)
      × (crypto_stream_chacha20_xor_ic (a ++ b) n ic k ≡ ok (c ++ d))
crypto_stream_chacha20_xor_ic-append a b n ic k ha hb whole small =
    let q = length a / 64 in
    let key = key_at (counter_context k n ic) in
    let next = key_at (counter_context k n (ic + q)) in
    let blocks : length a ≡ q * 64 = omega arith in
    (
      xor_stream key a,
      xor_stream next b,
      xor_ic_lem a n ic k ha (omega arith),
      xor_ic_lem b n (u64 (ic + q)) k hb (omega arith)
          ∙ ap (λ (j : Words). ok (xor_stream (key_at j) b)) (counter_wraps k n (ic + q)),
      xor_ic_lem (a ++ b) n ic k (All-append (λ x. x < 256) a b ha hb)
            (omega (arith, length-append a b))
          ∙ ap ok (
              xor_stream-append key a b
              ∙ ap (λ (f : ℕ → ℕ). xor_stream key a ++ xor_stream f b)
                  (fun_ext (λ (i : ℕ).
                    ap (λ (t : ℕ). key (t + i)) blocks ∙ key_at-counter_context k n q ic i))),
    )
