-- ===== src/Ge25519/Points.antt =====
-- Doubling, negation, sums and differences of points in extended coordinates:
-- `ge25519_p2_dbl`, `ge25519_p3_dbl`, `ge25519_p3p3_dbl`, `ge25519_p3_neg`, `ge25519_p3_add` and
-- `ge25519_p3_sub` of
-- src/libsodium/crypto_core/ed25519/ref10/ed25519_ref10.c.
use libsodium.Base.{ℕ, ◌+◌, ◌*◌, ◌≡◌, arith}
use libsodium.Fe25519.Field.{prime, value}
use libsodium.Fe25519.Congruence.{
  ◌≋◌, minus, opposite, of_≡, reflexive, symmetric, transitive, multiple, mul_cong, minus_cong,
}
use libsodium.Fe25519.Units.{same-IsUnit, mul-IsUnit}
use libsodium.Fe25519.Represents.{weaken, change, add_rule, sub_rule, sq_rule, sq2_rule, neg_rule}
use libsodium.Ge25519.{
  Ge25519P2, Ge25519P3, ge25519_p2_dbl, ge25519_p3_to_p2, ge25519_p3_dbl, ge25519_p3p3_dbl,
  ge25519_p3_neg, ge25519_p3_add, ge25519_p3_sub,
}
use libsodium.Ge25519.Edwards.{edwards_d, IsOnCurve, IsSum, IsPoint, IsPoint2, IsCompleted}
use libsodium.Ge25519.Addition.{own, add_cached_sum, p1p1_to_p3-IsPoint, p3_to_cached-IsCached}

-- Whatever (x3, y3) is the sum of two points by the affine law, with invertible denominators,
-- `ge25519_p3_add` gives it, with an invertible Z.
pub ge25519_p3_add_lem :
    {x1 y1 x2 y2 x3 y3 : ℕ} {p q : Ge25519P3}
    → IsSum x1 y1 x2 y2 x3 y3
    → IsPoint x1 y1 p
    → IsPoint x2 y2 q
    → IsPoint x3 y3 (ge25519_p3_add p q)
unfolding ge25519_p3_add
ge25519_p3_add_lem law a b = p1p1_to_p3-IsPoint (add_cached_sum law a (p3_to_cached-IsCached b))

module _ (x y z : ℕ) where
  -- (X + Y)^2 - (Y^2 + X^2), and 2 Z^2 - (Y^2 - X^2) on the curve.
  cross_square :
      minus ((x * z + y * z) * (x * z + y * z)) (y * z * (y * z) + x * z * (x * z))
      ≋ (x * y + y * x) * (z * z)
  cross_square =
      let k = y * z * (y * z) + x * z * (x * z) in
      let exact : (x * y + y * x) * (z * z) + k * prime
          ≡ minus ((x * z + y * z) * (x * z + y * z)) (y * z * (y * z) + x * z * (x * z)) =
        omega arith in
      symmetric (multiple ((x * y + y * x) * (z * z)) k exact)

  module _ (curve : IsOnCurve x y) where
    squares :
        minus (y * z * (y * z)) (x * z * (x * z)) ≋ (1 + edwards_d * (x * x * (y * y))) * (z * z)
    squares =
        let apart : minus (y * z * (y * z)) (x * z * (x * z)) ≡ minus (y * y) (x * x) * (z * z) =
          omega arith in
        transitive (of_≡ apart) (mul_cong curve.equation (reflexive (z * z)))

    twice_less :
        minus (2 * (z * z)) (minus (y * z * (y * z)) (x * z * (x * z)))
        ≋ minus 1 (edwards_d * (x * x * (y * y))) * (z * z)
    twice_less =
        let c = edwards_d * (x * x * (y * y)) in
        let exact : minus 1 c * (z * z) + z * z * prime ≡ minus (2 * (z * z)) ((1 + c) * (z * z)) =
          omega arith in
        transitive (minus_cong (reflexive (2 * (z * z))) squares)
          (symmetric (multiple (minus 1 c * (z * z)) (z * z) exact))

-- `ge25519_p2_dbl` doubles a point of the curve.
pub p2_dbl_double :
    {x y x3 y3 : ℕ} {p : Ge25519P2}
    → IsOnCurve x y
    → IsSum x y x y x3 y3
    → IsPoint2 x y p
    → IsCompleted x3 y3 (ge25519_p2_dbl p)
unfolding ge25519_p2_dbl
p2_dbl_double {x = x} {y = y} {x3 = x3} {y3 = y3} {p = p} curve law a =
    let z = value p.z in
    let xx = sq_rule (omega arith) a.at_x in
    let yy = sq_rule (omega arith) a.at_y in
    let zz2 = sq2_rule (omega arith) a.at_z in
    let t0 = sq_rule (omega arith) (add_rule (omega arith) a.at_x a.at_y) in
    let ry = add_rule (omega arith) yy xx in
    let rz = sub_rule (omega arith) (omega arith) yy xx in
    let rx = sub_rule (omega arith) (omega arith) t0 ry in
    let rt = sub_rule (omega arith) (omega arith) zz2 rz in
    let c = edwards_d * (x * x * (y * y)) in
    let square = mul-IsUnit a.unit_z a.unit_z in
    let law_x : (x * y + y * x) * (z * z) ≋ x3 * ((1 + c) * (z * z)) =
      transitive (mul_cong (symmetric law.law_x) (reflexive (z * z)))
        (of_≡ {a = x3 * (1 + c) * (z * z)} {b = x3 * ((1 + c) * (z * z))} (omega arith)) in
    let law_y : y * z * (y * z) + x * z * (x * z) ≋ y3 * (minus 1 c * (z * z)) =
      transitive
        (of_≡ {a = y * z * (y * z) + x * z * (x * z)} {b = (y * y + x * x) * (z * z)} (omega arith))
        (transitive (mul_cong (symmetric law.law_y) (reflexive (z * z)))
          (of_≡ {a = y3 * minus 1 c * (z * z)} {b = y3 * (minus 1 c * (z * z))} (omega arith))) in
    record {
      at_x =
          change
            (transitive (cross_square x y z) (
              transitive law_x
                (mul_cong (reflexive x3) (symmetric (transitive rz.number (squares x y z curve))))))
            (weaken (omega arith) rx);
      at_y =
          change
            (transitive law_y
              (mul_cong (reflexive y3) (symmetric (transitive rt.number (twice_less x y z curve)))))
            (weaken (omega arith) ry);
      at_z = own (omega arith) rz;
      at_t = own (omega arith) rt;
      unit_z =
          same-IsUnit (symmetric (transitive rz.number (squares x y z curve)))
            (mul-IsUnit law.unit_x square);
      unit_t =
          same-IsUnit (symmetric (transitive rt.number (twice_less x y z curve)))
            (mul-IsUnit law.unit_y square);
    }

pub p3_to_p2-IsPoint2 :
    {x y : ℕ} {p : Ge25519P3} → IsPoint x y p → IsPoint2 x y (ge25519_p3_to_p2 p)
unfolding ge25519_p3_to_p2
p3_to_p2-IsPoint2 a = record { at_x = a.at_x; at_y = a.at_y; at_z = a.at_z; unit_z = a.unit_z }

-- For a point of the curve, whatever (x3, y3) is its sum with itself by the affine law, with
-- invertible denominators, `ge25519_p3p3_dbl` gives it, with an invertible Z.
pub ge25519_p3p3_dbl_lem :
    {x y x3 y3 : ℕ} {p : Ge25519P3}
    → IsOnCurve x y
    → IsSum x y x y x3 y3
    → IsPoint x y p
    → IsPoint x3 y3 (ge25519_p3p3_dbl p)
unfolding ge25519_p3p3_dbl ge25519_p3_dbl
ge25519_p3p3_dbl_lem curve law a =
    p1p1_to_p3-IsPoint (p2_dbl_double curve law (p3_to_p2-IsPoint2 a))

-- `ge25519_p3_neg` negates the first coordinate.
pub p3_neg-IsPoint :
    {x y : ℕ} {p : Ge25519P3} → IsPoint x y p → IsPoint (opposite x) y (ge25519_p3_neg p)
unfolding ge25519_p3_neg
p3_neg-IsPoint {x = x} {y = y} {p = p} a =
    let z = value p.z in
    let move_x : opposite (x * z) ≡ opposite x * z = omega arith in
    let move_t : opposite (x * y * z) ≡ opposite x * y * z = omega arith in
    record {
      at_x = change (of_≡ move_x) (neg_rule (omega arith) a.at_x);
      at_y = a.at_y;
      at_z = a.at_z;
      unit_z = a.unit_z;
      at_t = change (of_≡ move_t) (neg_rule (omega arith) a.at_t);
    }

-- `ge25519_p3_sub` adds the negative.
pub ge25519_p3_sub_lem :
    {x1 y1 x2 y2 x3 y3 : ℕ} {p q : Ge25519P3}
    → IsSum x1 y1 (opposite x2) y2 x3 y3
    → IsPoint x1 y1 p
    → IsPoint x2 y2 q
    → IsPoint x3 y3 (ge25519_p3_sub p q)
unfolding ge25519_p3_sub
ge25519_p3_sub_lem law a b = ge25519_p3_add_lem law a (p3_neg-IsPoint b)
