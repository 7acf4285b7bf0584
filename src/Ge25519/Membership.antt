-- ===== src/Ge25519/Membership.antt =====
-- `ge25519_is_on_curve` and `ge25519_is_on_main_subgroup` of
-- src/libsodium/crypto_core/ed25519/ref10/ed25519_ref10.c.
use native.Mathlib.Decide.{ℕ_discrete}
use libsodium.Base.{
  ℕ, ◌+◌, ◌*◌, ◌%◌, ◌^◌, ◌≤◌, ◌≡◌, refl, arith, if◌then◌else◌, ◌==◌, some, Bool, true, false, ◌||◌,
  ◌&&◌, bit_and, bit_or,
}
use libsodium.Fe25519.{Fe25519, fe25519_iszero}
use libsodium.Fe25519.Field.{prime, value, IsBelow, IsBelow-weaken, IsBelow-by}
use libsodium.Fe25519.Congruence.{
  ◌≋◌, minus, of_≡, reflexive, symmetric, transitive, mul_cong, zero_minus, minus_zero,
}
use libsodium.Fe25519.Units.{IsUnit, cancel}
use libsodium.Fe25519.Represents.{Represents, mul_rule, add_rule, sub_rule, sq_rule}
use libsodium.Fe25519.Select.{bit}
use libsodium.Fe25519.Power.{fe25519_sqrtm1}
use libsodium.Fe25519.Canonical.{fe25519_iszero_lem}
use libsodium.Ge25519.{Ge25519P3, ed25519_d}
use libsodium.Ge25519.Subgroup.{
  curve_difference, ge25519_is_on_curve, ge25519_is_on_main_subgroup, ge25519_has_small_order,
}
use libsodium.Ge25519.Edwards.{edwards_d, point_bound}
use libsodium.Ge25519.Multiples.{AreMultiples, IsMultiple, order, ge25519_mul_l_lem}

-- The test for zero of an element that is congruent to a number.
iszero_of :
    {m : ℕ} {f : Fe25519} {a : ℕ}
    → m ≤ 2 ^ 64
    → Represents m f a
    → fe25519_iszero f ≡ some (if a % prime == 0 then 1 else 0)
iszero_of {f = f} le p = rw (fe25519_iszero_lem f (IsBelow-weaken f le p.fits), p.number.same) refl

d_element : Represents (2 ^ 54) ed25519_d edwards_d
d_element = record {
  fits = record {
    below0 = omega arith;
    below1 = omega arith;
    below2 = omega arith;
    below3 = omega arith;
    below4 = omega arith;
  };
  number = reflexive edwards_d;
}

-- The two sides of the projective equation (Y^2 - X^2) Z^2 = d X^2 Y^2 + Z^4.
abbrev pub left_side : ℕ → ℕ → ℕ → ℕ
left_side x y z = minus (y * y) (x * x) * (z * z)

abbrev pub right_side : ℕ → ℕ → ℕ → ℕ
right_side x y z = x * x * (y * y) * edwards_d + z * z * (z * z)

-- For coordinates in limbs of at most 2^52, `ge25519_is_on_curve` never fails, and returns 1 exactly
-- where they satisfy the projective equation of the curve modulo 2^255 - 19.
pub ge25519_is_on_curve_lem :
    (p : Ge25519P3)
    → IsBelow point_bound p.x
    → IsBelow point_bound p.y
    → IsBelow point_bound p.z
    → ge25519_is_on_curve p
      ≡ some (
          if minus
                (left_side (value p.x) (value p.y) (value p.z))
                (right_side (value p.x) (value p.y) (value p.z))
              % prime
            == 0
          then 1
          else 0)
unfolding ge25519_is_on_curve curve_difference
ge25519_is_on_curve_lem p bx by bz =
    let ex : Represents point_bound p.x (value p.x) = record {
      fits = bx;
      number = reflexive (value p.x);
    } in
    let ey : Represents point_bound p.y (value p.y) = record {
      fits = by;
      number = reflexive (value p.y);
    } in
    let ez : Represents point_bound p.z (value p.z) = record {
      fits = bz;
      number = reflexive (value p.z);
    } in
    let x2 = sq_rule (omega arith) ex in
    let y2 = sq_rule (omega arith) ey in
    let z2 = sq_rule (omega arith) ez in
    let t0 = mul_rule (omega arith) (omega arith) (sub_rule (omega arith) (omega arith) y2 x2) z2 in
    let t1 =
      mul_rule (omega arith) (omega arith) (mul_rule (omega arith) (omega arith) x2 y2) d_element in
    let sum = add_rule (omega arith) t1 (sq_rule (omega arith) z2) in
    iszero_of (omega arith) (sub_rule (omega arith) (omega arith) t0 sum)

-- Equations with the same solutions have the same test.
same_test : {a b c d : ℕ} → (a ≡ b → c ≡ d) → (c ≡ d → a ≡ b) → (a == b) ≡ (c == d)
same_test {a = a} {b = b} {c = c} {d = d} there back = elim (ℕ_discrete a b) [
  | yes e ↦ ground (arith, there e)
  | no ne ↦ elim (ℕ_discrete c d) [ yes e ↦ absurd (ne (back e)) | no other ↦ ground arith ]
]

-- With an invertible Z, the tests of X and of Y - Z are those of x and of y - 1.
module _ {z : ℕ} (unit : IsUnit z) (a : ℕ) where
  test_x : (a * z % prime == 0) ≡ (a % prime == 0)
  test_x = same_test there back
    where
      whole : 0 * z ≋ 0
      whole = of_≡ (omega arith)

      there : a * z % prime ≡ 0 → a % prime ≡ 0
      there e =
          let p : a * z ≋ 0 = record { same = e } in
          let nothing : a ≋ 0 = cancel unit (transitive p (symmetric whole)) in nothing.same

      back : a % prime ≡ 0 → a * z % prime ≡ 0
      back e =
          let p : a ≋ 0 = record { same = e } in
          let nothing : a * z ≋ 0 = transitive (mul_cong p (reflexive z)) whole in nothing.same

  test_y : (minus (a * z) z % prime == 0) ≡ (a % prime == 1)
  test_y = same_test there back
    where
      whole : 1 * z ≋ z
      whole = of_≡ (omega arith)

      there : minus (a * z) z % prime ≡ 0 → a % prime ≡ 1
      there e =
          let p : minus (a * z) z ≋ 0 = record { same = e } in
          let one : a ≋ 1 = cancel unit (symmetric (transitive whole (minus_zero (a * z) z p))) in
          one.same

      back : a % prime ≡ 1 → minus (a * z) z % prime ≡ 0
      back e =
          let p : a ≋ 1 = record { same = e } in
          let one : a * z ≋ z = transitive (mul_cong p (reflexive z)) whole in
          (zero_minus (a * z) z (symmetric one)).same

-- `&` of two bits.
bit_and-bit : (a b : Bool) → bit_and (bit a) (bit b) ≡ bit (a && b)
bit_and-bit true true = refl
bit_and-bit true false = refl
bit_and-bit false true = refl
bit_and-bit false false = refl

-- Over the multiples of a point of the curve, related by the addition law with invertible
-- denominators, `ge25519_is_on_main_subgroup` of the point never fails; it returns 1 where the
-- multiple by the order is the neutral element (0, 1), and 0 where it is not.
pub ge25519_is_on_main_subgroup_lem :
    {x y : ℕ → ℕ} {p : Ge25519P3}
    → AreMultiples x y
    → IsMultiple x y 1 p
    → ge25519_is_on_main_subgroup p
      ≡ some (if x order % prime == 0 && y order % prime == 1 then 1 else 0)
unfolding ge25519_is_on_main_subgroup
ge25519_is_on_main_subgroup_lem {x = x} {y = y} {p = p} multiples a =
    let end = (ge25519_mul_l_lem multiples a).point in
    rw
      (
        iszero_of (omega arith) end.at_x,
        iszero_of (omega arith) (sub_rule (omega arith) (omega arith) end.at_y end.at_z),
        test_x end.unit_z (x order),
        test_y end.unit_z (y order),
        bit_and-bit (x order % prime == 0) (y order % prime == 1),
      )
      refl

-- `|` of two bits.
bit_or-bit : (a b : Bool) → bit_or (bit a) (bit b) ≡ bit (a || b)
bit_or-bit true true = refl
bit_or-bit true false = refl
bit_or-bit false true = refl
bit_or-bit false false = refl

-- Whether a number is 0 modulo 2^255 - 19.
abbrev pub vanishes : ℕ → Bool
vanishes a = a % prime == 0

-- `ge25519_has_small_order` never fails, and returns 1 exactly where X, Y or Z is 0, or X is Y times
-- the square root of -1 or its negative.
pub ge25519_has_small_order_lem :
    (p : Ge25519P3)
    → IsBelow point_bound p.x
    → IsBelow point_bound p.y
    → IsBelow point_bound p.z
    → ge25519_has_small_order p
      ≡ some (
          bit (
            (((vanishes (value p.x) || vanishes (value p.y)) || vanishes (value p.z))
              || vanishes (minus (value p.y * value fe25519_sqrtm1) (value p.x)))
            || vanishes (value p.y * value fe25519_sqrtm1 + value p.x)))
unfolding ge25519_has_small_order
ge25519_has_small_order_lem p bx by bz =
    let ex : Represents point_bound p.x (value p.x) = record {
      fits = bx;
      number = reflexive (value p.x);
    } in
    let ey : Represents point_bound p.y (value p.y) = record {
      fits = by;
      number = reflexive (value p.y);
    } in
    let ez : Represents point_bound p.z (value p.z) = record {
      fits = bz;
      number = reflexive (value p.z);
    } in
    let i : Represents (2 ^ 54) fe25519_sqrtm1 (value fe25519_sqrtm1) = record {
      fits = IsBelow-by refl;
      number = reflexive (value fe25519_sqrtm1);
    } in
    let yi = mul_rule (omega arith) (omega arith) ey i in
    let a = vanishes (value p.x) in
    let b = vanishes (value p.y) in
    let c = vanishes (value p.z) in
    let d = vanishes (minus (value p.y * value fe25519_sqrtm1) (value p.x)) in
    let e = vanishes (value p.y * value fe25519_sqrtm1 + value p.x) in
    rw
      (
        iszero_of (omega arith) ex,
        iszero_of (omega arith) ey,
        iszero_of (omega arith) ez,
        iszero_of (omega arith) (sub_rule (omega arith) (omega arith) yi ex),
        iszero_of (omega arith) (add_rule (omega arith) yi ex),
        bit_or-bit a b,
        bit_or-bit (a || b) c,
        bit_or-bit ((a || b) || c) d,
        bit_or-bit (((a || b) || c) || d) e,
      )
      refl
