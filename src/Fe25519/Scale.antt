-- ===== src/Fe25519/Scale.antt =====
-- `fe25519_mul32` of src/libsodium/include/sodium/private/ed25519_ref10_fe_51.h modulo 2^255 - 19.
use native.Mathlib.Nat.{mul-le-mul}
use libsodium.Base.{
  ℕ, ◌+◌, ◌*◌, ◌/◌, ◌%◌, ◌^◌, ◌<◌, ◌≤◌, bit_and, ◌≡◌, refl, ◌∙◌, arith, u64, u128, ◌>>>◌,
}
use libsodium.Fe25519.{Fe25519, fe25519_mul32, mask51}
use libsodium.Fe25519.Field.{prime, value, residue, IsBelow, mod_drop, bit_and-mask51}

module _ (f : Fe25519) (n : ℕ) (h : IsBelow (2 ^ 54) f) (small : n < 2 ^ 32) where
  a0 : ℕ
  a0 = f.l0 * n

  a1 : ℕ
  a1 = f.l1 * n + a0 / 2 ^ 51

  a2 : ℕ
  a2 = f.l2 * n + a1 / 2 ^ 51

  a3 : ℕ
  a3 = f.l3 * n + a2 / 2 ^ 51

  a4 : ℕ
  a4 = f.l4 * n + a3 / 2 ^ 51

  scaled : Fe25519
  scaled = record {
    l0 = a0 % 2 ^ 51 + a4 / 2 ^ 51 * 19;
    l1 = a1 % 2 ^ 51;
    l2 = a2 % 2 ^ 51;
    l3 = a3 % 2 ^ 51;
    l4 = a4 % 2 ^ 51;
  }

  product-le : (a : ℕ) → a < 2 ^ 54 → a * n ≤ 2 ^ 86
  product-le a p =
      let le : a * n ≤ 2 ^ 54 * 2 ^ 32 =
        mul-le-mul {n₂ = 2 ^ 54} {m₂ = 2 ^ 32} (omega arith) (omega arith) in
      omega (arith, le)

  -- One step of the carries.
  scale_step :
      (a c : ℕ)
      → a < 2 ^ 54
      → c < 2 ^ 87
      → u128 (u128 (a * n) + u64 (c >>> 51)) ≡ a * n + c / 2 ^ 51
  scale_step a c p q = omega (arith, product-le a p)

  low : (a : ℕ) → bit_and (u64 a) mask51 ≡ a % 2 ^ 51
  low a = bit_and-mask51 (u64 a) ∙ omega arith

  a0-lt : a0 < 2 ^ 87
  unfolding a0
  a0-lt = omega (arith, product-le f.l0 h.below0)

  a1-lt : a1 < 2 ^ 87
  unfolding a1
  a1-lt = omega (arith, product-le f.l1 h.below1, a0-lt)

  a2-lt : a2 < 2 ^ 87
  unfolding a2
  a2-lt = omega (arith, product-le f.l2 h.below2, a1-lt)

  a3-lt : a3 < 2 ^ 87
  unfolding a3
  a3-lt = omega (arith, product-le f.l3 h.below3, a2-lt)

  a4-lt : a4 < 2 ^ 87
  unfolding a4
  a4-lt = omega (arith, product-le f.l4 h.below4, a3-lt)

  fe25519_mul32-scaled : fe25519_mul32 f n ≡ scaled
  unfolding fe25519_mul32 scaled a4 a3 a2 a1 a0
  fe25519_mul32-scaled =
      let e0 : u128 (f.l0 * n) ≡ a0 = omega (arith, a0-lt) in
      let e1 = scale_step f.l1 a0 h.below1 a0-lt in
      let e2 = scale_step f.l2 a1 h.below2 a1-lt in
      let e3 = scale_step f.l3 a2 h.below3 a2-lt in
      let e4 = scale_step f.l4 a3 h.below4 a3-lt in
      let e5 : u64 (a0 % 2 ^ 51 + u128 ((a4 / 2 ^ 51) * 19)) ≡ a0 % 2 ^ 51 + a4 / 2 ^ 51 * 19 =
        omega (arith, a4-lt) in
      rw (e0, low a0, e1, low a1, e2, low a2, e3, low a3, e4, low a4, e5) refl

  scaled-IsBelow : IsBelow (2 ^ 51 + 2 ^ 41) scaled
  unfolding scaled
  scaled-IsBelow = record {
    below0 = omega (arith, a4-lt);
    below1 = omega arith;
    below2 = omega arith;
    below3 = omega arith;
    below4 = omega arith;
  }

  scaled-value : value scaled + a4 / 2 ^ 51 * prime ≡ value f * n
  unfolding scaled a4 a3 a2 a1 a0
  scaled-value = omega arith

-- `fe25519_mul32` by a number of 32 bits stands for the product, and only its lowest limb passes
-- 51 bits.
pub fe25519_mul32_lem :
    (f : Fe25519) (n : ℕ)
    → IsBelow (2 ^ 54) f
    → n < 2 ^ 32
    → IsBelow (2 ^ 51 + 2 ^ 41) (fe25519_mul32 f n)
      × (residue (fe25519_mul32 f n) ≡ value f * n % prime)
fe25519_mul32_lem f n h small = rw (fe25519_mul32-scaled f n h small) (
  scaled-IsBelow f n h small,
  mod_drop (value (scaled f n h small)) (a4 f n h small / 2 ^ 51) (scaled-value f n h small),
)
