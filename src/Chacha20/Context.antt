-- ===== src/Chacha20/Context.antt =====
-- The contexts that src/libsodium/crypto_stream/chacha20/ref/chacha20_ref.c builds from a key, a nonce
-- and a counter, and their key streams: moving the counter on moves the stream on by whole blocks.

use libsodium.Base.{
  ℕ, zero, suc, ◌+◌, ◌*◌, ◌^◌, ◌<◌, some, [], ◌∷◌, ◌++◌, ◌≡◌, refl, sym, ap, ap₂, ◌∙◌, arith, Bytes,
  IsBytes, length, u8, u32, u64, ◌>>>◌, pos→==0,
}
use libsodium.Endian.{load32_le, load32_bytes, store32_le}
use libsodium.Endian.Laws.{load32_bytes_lem}
use libsodium.Stream.{xor_stream}
use libsodium.Chacha20.{
  Words, next_counter, chacha_setup, chacha_context, chacha_ietf_context, stream_ref_xor_ic,
  stream_ietf_ext_ref_xor_ic,
}
use libsodium.Chacha20.Counter.{advance, key_at, key_at-advance}
use libsodium.Chacha20.Encrypt.{chacha20_encrypt_bytes_lem}

-- The context of a key, a nonce of 8 bytes and a 64-bit counter.
pub counter_context : Bytes → Bytes → ℕ → Words
counter_context k n ic = chacha_setup k (u32 ic) (u32 (ic >>> 32)) (load32_le n 0) (load32_le n 4)

-- The context of a key, a nonce of 12 bytes and a 32-bit counter.
pub ietf_context : Bytes → Bytes → ℕ → Words
ietf_context k n ic = chacha_setup k (u32 ic) (load32_le n 0) (load32_le n 4) (load32_le n 8)

pub stored_word :
    (w : ℕ)
    → load32_bytes (u8 w) (u8 (w >>> 8)) (u8 (w >>> 8 >>> 8)) (u8 (w >>> 8 >>> 8 >>> 8)) ≡ u32 w
stored_word w =
    omega (
      arith,
      load32_bytes_lem (u8 w) (u8 (w >>> 8)) (u8 (w >>> 8 >>> 8)) (u8 (w >>> 8 >>> 8 >>> 8)),
    )

counter_bytes :
    (k n : Bytes) (ic : ℕ)
    → chacha_context k n (some (store32_le (u32 ic) ++ store32_le (u32 (ic >>> 32))))
      ≡ counter_context k n ic
unfolding chacha_context counter_context load32_le store32_le
counter_bytes k n ic =
    ap₂ (λ (a b : ℕ). chacha_setup k a b (load32_le n 0) (load32_le n 4))
      (stored_word (u32 ic) ∙ omega arith) (stored_word (u32 (ic >>> 32)) ∙ omega arith)

ietf_bytes :
    (k n : Bytes) (ic : ℕ) → chacha_ietf_context k n (some (store32_le ic)) ≡ ietf_context k n ic
unfolding chacha_ietf_context ietf_context load32_le store32_le
ietf_bytes k n ic =
    ap (λ (a : ℕ). chacha_setup k a (load32_le n 0) (load32_le n 4) (load32_le n 8))
      (stored_word ic)

-- The carry of the two words is that of the 64-bit counter.
next_counter-counter_context :
    (k n : Bytes) (ic : ℕ) → next_counter (counter_context k n ic) ≡ counter_context k n (ic + 1)
unfolding next_counter counter_context chacha_setup
next_counter-counter_context k n ic =
    ap₂ (λ (a b : ℕ). chacha_setup k a b (load32_le n 0) (load32_le n 4)) (omega arith)
      (ground arith)

next_counter-ietf_context :
    (k n : Bytes) (ic : ℕ)
    → ic + 1 < 2 ^ 32
    → next_counter (ietf_context k n ic) ≡ ietf_context k n (ic + 1)
unfolding next_counter ietf_context chacha_setup
next_counter-ietf_context k n ic small =
    ap₂ (λ (a b : ℕ). chacha_setup k a b (load32_le n 4) (load32_le n 8)) (omega arith)
      (ground arith)

advance-counter_context :
    (k n : Bytes) (q ic : ℕ) → advance q (counter_context k n ic) ≡ counter_context k n (ic + q)
unfolding advance
advance-counter_context k n zero ic = ap (counter_context k n) (omega arith)
advance-counter_context k n (suc q) ic =
    ap (advance q) (next_counter-counter_context k n ic)
    ∙ (advance-counter_context k n q (ic + 1) ∙ ap (counter_context k n) (omega arith))

advance-ietf_context :
    (k n : Bytes) (q ic : ℕ)
    → ic + q < 2 ^ 32
    → advance q (ietf_context k n ic) ≡ ietf_context k n (ic + q)
unfolding advance
advance-ietf_context k n zero ic small = ap (ietf_context k n) (omega arith)
advance-ietf_context k n (suc q) ic small =
    ap (advance q) (next_counter-ietf_context k n ic (omega arith))
    ∙ (advance-ietf_context k n q (ic + 1) (omega arith) ∙ ap (ietf_context k n) (omega arith))

-- The key stream of a counter, from a block boundary on, is that of the counter moved on.
pub key_at-counter_context :
    (k n : Bytes) (q ic i : ℕ)
    → key_at (counter_context k n ic) (q * 64 + i) ≡ key_at (counter_context k n (ic + q)) i
key_at-counter_context k n q ic i =
    sym (key_at-advance q (counter_context k n ic) i)
    ∙ ap (λ (j : Words). key_at j i) (advance-counter_context k n q ic)

pub key_at-ietf_context :
    (k n : Bytes) (q ic i : ℕ)
    → ic + q < 2 ^ 32
    → key_at (ietf_context k n ic) (q * 64 + i) ≡ key_at (ietf_context k n (ic + q)) i
key_at-ietf_context k n q ic i small =
    sym (key_at-advance q (ietf_context k n ic) i)
    ∙ ap (λ (j : Words). key_at j i) (advance-ietf_context k n q ic small)

pub counter_wraps : (k n : Bytes) (ic : ℕ) → counter_context k n (u64 ic) ≡ counter_context k n ic
unfolding counter_context
counter_wraps k n ic =
    ap₂ (λ (a b : ℕ). chacha_setup k a b (load32_le n 0) (load32_le n 4)) (omega arith)
      (omega arith)

pub stream_ref_xor_ic_lem :
    (m n : Bytes) (ic : ℕ) (k : Bytes)
    → IsBytes m
    → stream_ref_xor_ic m n ic k ≡ some (xor_stream (key_at (counter_context k n ic)) m)
unfolding stream_ref_xor_ic
stream_ref_xor_ic_lem [] n ic k h = unfold xor_stream in refl
stream_ref_xor_ic_lem (x ∷ m) n ic k h =
    rw (pos→==0 (length (x ∷ m)) (omega arith), counter_bytes k n ic)
      (chacha20_encrypt_bytes_lem (counter_context k n ic) (x ∷ m) h)

pub stream_ietf_ext_ref_xor_ic_lem :
    (m n : Bytes) (ic : ℕ) (k : Bytes)
    → IsBytes m
    → stream_ietf_ext_ref_xor_ic m n ic k ≡ some (xor_stream (key_at (ietf_context k n ic)) m)
unfolding stream_ietf_ext_ref_xor_ic
stream_ietf_ext_ref_xor_ic_lem [] n ic k h = unfold xor_stream in refl
stream_ietf_ext_ref_xor_ic_lem (x ∷ m) n ic k h =
    rw (pos→==0 (length (x ∷ m)) (omega arith), ietf_bytes k n ic)
      (chacha20_encrypt_bytes_lem (ietf_context k n ic) (x ∷ m) h)
