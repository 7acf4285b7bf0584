-- ===== src/Fe25519/Mul.antt =====
-- `fe25519_mul` of src/libsodium/include/sodium/private/ed25519_ref10_fe_51.h as the product modulo
-- 2^255 - 19.
use native.Mathlib.Nat.{mul-le-mul}
use libsodium.Base.{ℕ, ◌+◌, ◌*◌, ◌%◌, ◌^◌, ◌<◌, ◌≤◌, ◌≡◌, refl, ◌∙◌, arith, u64}
use libsodium.Fe25519.{Fe25519, carry_sums, sum3, sum5, fe25519_mul}
use libsodium.Fe25519.Field.{prime, value, residue, IsBelow, mod_drop, carry_sums_lem}

-- The five sums, without wrapping, and what they add up to.
pub sum3_lem : (a b c : ℕ) → a + b + c < 2 ^ 128 → sum3 a b c ≡ a + b + c
unfolding sum3
sum3_lem a b c small = omega arith

sum5_lem : (a b c d e : ℕ) → a + b + c + d + e < 2 ^ 128 → sum5 a b c d e ≡ a + b + c + d + e
unfolding sum5 sum3
sum5_lem a b c d e small = omega arith

-- A product of two limbs below 2^k, and one of them times a constant.
pub product-le : (k a b : ℕ) → a < 2 ^ k → b < 2 ^ k → a * b ≤ 2 ^ k * 2 ^ k
product-le k a b p q = mul-le-mul (omega arith) (omega arith)

module _ (f g : Fe25519) (hf : IsBelow (2 ^ 54) f) (hg : IsBelow (2 ^ 54) g) where
  r0 : ℕ
  r0 = f.l0 * g.l0 + 19 * f.l1 * g.l4 + 19 * f.l2 * g.l3 + 19 * f.l3 * g.l2 + 19 * f.l4 * g.l1

  r1 : ℕ
  r1 = f.l0 * g.l1 + f.l1 * g.l0 + 19 * f.l2 * g.l4 + 19 * f.l3 * g.l3 + 19 * f.l4 * g.l2

  r2 : ℕ
  r2 = f.l0 * g.l2 + f.l1 * g.l1 + f.l2 * g.l0 + 19 * f.l3 * g.l4 + 19 * f.l4 * g.l3

  r3 : ℕ
  r3 = f.l0 * g.l3 + f.l1 * g.l2 + f.l2 * g.l1 + f.l3 * g.l0 + 19 * f.l4 * g.l4

  r4 : ℕ
  r4 = f.l0 * g.l4 + f.l1 * g.l3 + f.l2 * g.l2 + f.l3 * g.l1 + f.l4 * g.l0

  r0-lt : r0 < 3 * 2 ^ 113
  unfolding r0
  r0-lt = omega (
    arith,
    product-le 54 f.l0 g.l0 hf.below0 hg.below0,
    product-le 54 f.l1 g.l4 hf.below1 hg.below4,
    product-le 54 f.l2 g.l3 hf.below2 hg.below3,
    product-le 54 f.l3 g.l2 hf.below3 hg.below2,
    product-le 54 f.l4 g.l1 hf.below4 hg.below1,
  )

  r1-lt : r1 < 2 ^ 114
  unfolding r1
  r1-lt = omega (
    arith,
    product-le 54 f.l0 g.l1 hf.below0 hg.below1,
    product-le 54 f.l1 g.l0 hf.below1 hg.below0,
    product-le 54 f.l2 g.l4 hf.below2 hg.below4,
    product-le 54 f.l3 g.l3 hf.below3 hg.below3,
    product-le 54 f.l4 g.l2 hf.below4 hg.below2,
  )

  r2-lt : r2 < 2 ^ 114
  unfolding r2
  r2-lt = omega (
    arith,
    product-le 54 f.l0 g.l2 hf.below0 hg.below2,
    product-le 54 f.l1 g.l1 hf.below1 hg.below1,
    product-le 54 f.l2 g.l0 hf.below2 hg.below0,
    product-le 54 f.l3 g.l4 hf.below3 hg.below4,
    product-le 54 f.l4 g.l3 hf.below4 hg.below3,
  )

  r3-lt : r3 < 2 ^ 114
  unfolding r3
  r3-lt = omega (
    arith,
    product-le 54 f.l0 g.l3 hf.below0 hg.below3,
    product-le 54 f.l1 g.l2 hf.below1 hg.below2,
    product-le 54 f.l2 g.l1 hf.below2 hg.below1,
    product-le 54 f.l3 g.l0 hf.below3 hg.below0,
    product-le 54 f.l4 g.l4 hf.below4 hg.below4,
  )

  r4-lt : r4 ≤ 5 * 2 ^ 108
  unfolding r4
  r4-lt = omega (
    arith,
    product-le 54 f.l0 g.l4 hf.below0 hg.below4,
    product-le 54 f.l1 g.l3 hf.below1 hg.below3,
    product-le 54 f.l2 g.l2 hf.below2 hg.below2,
    product-le 54 f.l3 g.l1 hf.below3 hg.below1,
    product-le 54 f.l4 g.l0 hf.below4 hg.below0,
  )

  fe25519_mul_sums : fe25519_mul f g ≡ carry_sums r0 r1 r2 r3 r4
  unfolding fe25519_mul r0 r1 r2 r3 r4
  fe25519_mul_sums =
      let f1 : u64 (19 * f.l1) ≡ 19 * f.l1 = omega (arith, hf.below1) in
      let f2 : u64 (19 * f.l2) ≡ 19 * f.l2 = omega (arith, hf.below2) in
      let f3 : u64 (19 * f.l3) ≡ 19 * f.l3 = omega (arith, hf.below3) in
      let f4 : u64 (19 * f.l4) ≡ 19 * f.l4 = omega (arith, hf.below4) in
      let e0 =
        sum5_lem (f.l0 * g.l0) (19 * f.l1 * g.l4) (19 * f.l2 * g.l3) (19 * f.l3 * g.l2)
          (19 * f.l4 * g.l1) (omega (arith, r0-lt)) in
      let e1 =
        sum5_lem (f.l0 * g.l1) (f.l1 * g.l0) (19 * f.l2 * g.l4) (19 * f.l3 * g.l3)
          (19 * f.l4 * g.l2) (omega (arith, r1-lt)) in
      let e2 =
        sum5_lem (f.l0 * g.l2) (f.l1 * g.l1) (f.l2 * g.l0) (19 * f.l3 * g.l4) (19 * f.l4 * g.l3)
          (omega (arith, r2-lt)) in
      let e3 =
        sum5_lem (f.l0 * g.l3) (f.l1 * g.l2) (f.l2 * g.l1) (f.l3 * g.l0) (19 * f.l4 * g.l4)
          (omega (arith, r3-lt)) in
      let e4 =
        sum5_lem (f.l0 * g.l4) (f.l1 * g.l3) (f.l2 * g.l2) (f.l3 * g.l1) (f.l4 * g.l0)
          (omega (arith, r4-lt)) in
      rw (f1, f2, f3, f4, e0, e1, e2, e3, e4) refl

  -- The two sides differ by a multiple of 2^255 - 19.
  wrapped : ℕ
  wrapped =
      f.l1 * g.l4
      + f.l2 * g.l3
      + f.l3 * g.l2
      + f.l4 * g.l1
      + 2 ^ 51 * (f.l2 * g.l4 + f.l3 * g.l3 + f.l4 * g.l2)
      + 2 ^ 102 * (f.l3 * g.l4 + f.l4 * g.l3)
      + 2 ^ 153 * (f.l4 * g.l4)

  total : ℕ
  total = r0 + 2 ^ 51 * r1 + 2 ^ 102 * r2 + 2 ^ 153 * r3 + 2 ^ 204 * r4

  total-value : total + wrapped * prime ≡ value f * value g
  unfolding total r0 r1 r2 r3 r4 wrapped
  total-value = omega arith

  fe25519_mul_run :
      IsBelow (2 ^ 51 + 1) (fe25519_mul f g)
      × (residue (fe25519_mul f g) ≡ value f * value g % prime)
  unfolding total
  fe25519_mul_run = rw fe25519_mul_sums (
      let (bounds, same) = carry_sums_lem r0 r1 r2 r3 r4 r0-lt r1-lt r2-lt r3-lt r4-lt in
      (bounds, same ∙ mod_drop total wrapped total-value))

-- For limbs of 54 bits nothing wraps: `fe25519_mul` writes limbs of 51 bits, the third one perhaps
-- 2^51, that stand for the product modulo 2^255 - 19.
pub fe25519_mul_lem :
    (f g : Fe25519)
    → IsBelow (2 ^ 54) f
    → IsBelow (2 ^ 54) g
    → IsBelow (2 ^ 51 + 1) (fe25519_mul f g)
      × (residue (fe25519_mul f g) ≡ value f * value g % prime)
fe25519_mul_lem f g hf hg = fe25519_mul_run f g hf hg
