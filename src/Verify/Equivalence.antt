-- ===== src/Verify/Equivalence.antt =====
-- `crypto_verify_n` of src/libsodium/crypto_verify/verify.c against `sodium_memcmp` of
-- src/libsodium/sodium/utils.c, and what the fixed-size comparisons decide.
use libsodium.Base.{
  ℕ, zero, suc, ◌%◌, ◌^◌, ◌<◌, bit_or, bit_xor, Option, none, some, [], ◌∷◌, ◌≡◌, ◌≢◌, ◌⊎◌, refl,
  sym, arith, Bytes, IsBytes, length, take_all, u8, sub32, ◌>>=◌,
}
use libsodium.Bits.Xor.{bit_xor-lt, bit_xor-zero}
use libsodium.Bits.Or.{bit_or-lt}
use libsodium.Utils.Compare.{memcmp_loop, is_zero_bit, sodium_memcmp, minus_one}
use libsodium.Utils.Compare.Memcmp.{is_zero_bit-zero, is_zero_bit-pos, sodium_memcmp_lem}
use libsodium.Verify.{verify_loop, verify_flag, crypto_verify_n, crypto_verify_16, crypto_verify_32}

-- The 8-bit and the 16-bit accumulator hold the same number, below 256.
verify_loop-memcmp_loop :
    (n d : ℕ) (x y : Bytes)
    → d < 256
    → IsBytes x
    → IsBytes y
    → verify_loop n d x y ≡ memcmp_loop n d x y
unfolding verify_loop memcmp_loop
verify_loop-memcmp_loop zero d x y hd hx hy = refl
verify_loop-memcmp_loop (suc n) d [] y hd hx hy = refl
verify_loop-memcmp_loop (suc n) d (a ∷ x) [] hd hx hy = refl
verify_loop-memcmp_loop (suc n) d (a ∷ x) (b ∷ y) hd (ha, hx) (hb, hy) =
    let bound = bit_or-lt 8 d (bit_xor a b) hd (bit_xor-lt 8 a b ha hb) in
    let same : bit_or d (bit_xor a b) % 2 ^ 16 ≡ u8 (bit_or d (bit_xor a b)) = omega arith in
    rw same (verify_loop-memcmp_loop n (u8 (bit_or d (bit_xor a b))) x y (omega arith) hx hy)

verify_flag-eq : (d : ℕ) → d < 256 → verify_flag d ≡ is_zero_bit d
unfolding verify_flag
verify_flag-eq zero h = sym is_zero_bit-zero
verify_flag-eq (suc d) h = rw (bit_xor-zero, is_zero_bit-pos (suc d) (omega arith) h) (omega arith)

memcmp_loop-lt : (n d : ℕ) (x y : Bytes) {e : ℕ} → d < 256 → memcmp_loop n d x y ≡ some e → e < 256
unfolding memcmp_loop
memcmp_loop-lt zero d x y hd h = ground arith
memcmp_loop-lt (suc n) d [] y hd h = cc
memcmp_loop-lt (suc n) d (a ∷ x) [] hd h = cc
memcmp_loop-lt (suc n) d (a ∷ x) (b ∷ y) hd h =
    memcmp_loop-lt n (u8 (bit_or d (bit_xor a b))) x y (omega arith) h

-- `crypto_verify_n` and `sodium_memcmp` are the same function of two byte strings and a length,
-- faults included.
pub crypto_verify_n-sodium_memcmp :
    (x y : Bytes) (n : ℕ) → IsBytes x → IsBytes y → crypto_verify_n x y n ≡ sodium_memcmp x y n
unfolding crypto_verify_n sodium_memcmp
crypto_verify_n-sodium_memcmp x y n hx hy =
    rw (verify_loop-memcmp_loop n 0 x y (omega arith) hx hy)
      (go (memcmp_loop n 0 x y) (λ e. memcmp_loop-lt n 0 x y (omega arith)))
  where
    go :
        (r : Option ℕ)
        → ((e : ℕ) → r ≡ some e → e < 256)
        → (r >>= λ d. some (sub32 (verify_flag d) 1)) ≡ (r >>= λ d. some (sub32 (is_zero_bit d) 1))
    go none h = refl
    go (some d) h = rw (verify_flag-eq d (h d refl)) refl

-- `crypto_verify_32` returns 0 on two equal arrays of 32 bytes, and -1 on two that differ.
pub crypto_verify_32_lem :
    (x y : Bytes)
    → IsBytes x
    → IsBytes y
    → length x ≡ 32
    → length y ≡ 32
    → ((x ≡ y) × (crypto_verify_32 x y ≡ some 0))
      ⊎ ((x ≢ y) × (crypto_verify_32 x y ≡ some minus_one))
unfolding crypto_verify_32
crypto_verify_32_lem x y hx hy lx ly = rw (crypto_verify_n-sodium_memcmp x y 32 hx hy) (
    rw (take_all 32 x (omega arith), take_all 32 y (omega arith)) at
      (sodium_memcmp_lem x y 32 hx hy (omega arith) (omega arith)))

pub crypto_verify_16_lem :
    (x y : Bytes)
    → IsBytes x
    → IsBytes y
    → length x ≡ 16
    → length y ≡ 16
    → ((x ≡ y) × (crypto_verify_16 x y ≡ some 0))
      ⊎ ((x ≢ y) × (crypto_verify_16 x y ≡ some minus_one))
unfolding crypto_verify_16
crypto_verify_16_lem x y hx hy lx ly = rw (crypto_verify_n-sodium_memcmp x y 16 hx hy) (
    rw (take_all 16 x (omega arith), take_all 16 y (omega arith)) at
      (sodium_memcmp_lem x y 16 hx hy (omega arith) (omega arith)))
