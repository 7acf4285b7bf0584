-- ===== src/Ge25519/Addition.antt =====
-- `ge25519_add_cached`, `ge25519_sub_cached`, `ge25519_add_precomp`, `ge25519_sub_precomp` and the
-- changes of coordinates in src/libsodium/crypto_core/ed25519/ref10/ed25519_ref10.c as the affine
-- addition law.
use libsodium.Base.{ℕ, ◌+◌, ◌*◌, ◌^◌, ◌≤◌, ◌≡◌, arith}
use libsodium.Fe25519.{Fe25519}
use libsodium.Fe25519.Field.{value}
use libsodium.Fe25519.Congruence.{minus, of_≡, reflexive, symmetric, transitive, mul_cong}
use libsodium.Fe25519.Units.{IsUnit, same-IsUnit, mul-IsUnit, double-IsUnit}
use libsodium.Fe25519.Represents.{Represents, weaken, change, mul_rule, add_rule, sub_rule}
use libsodium.Ge25519.{
  Ge25519P3, Ge25519P1p1, Ge25519Cached, ed25519_d2, ge25519_add_cached, ge25519_p1p1_to_p2,
  ge25519_p1p1_to_p3, ge25519_p3_to_cached,
}
use libsodium.Ge25519.Edwards.{
  edwards_d, edwards_d2_lem, IsSum, IsPoint, IsPoint2, IsCompleted, IsCached, plus_product,
  minus_product, products_minus, products_plus,
}

-- The number of an element is its value.
pub own : {m n : ℕ} {f : Fe25519} {a : ℕ} → m ≤ n → Represents m f a → Represents n f (value f)
own {f = f} le p = record { fits = (weaken le p).fits; number = reflexive (value f) }

-- 2 d T1 T2.
unfoldable pub cross : ℕ → ℕ → ℕ → ℕ → ℕ → ℕ → ℕ
cross x1 y1 z1 x2 y2 z2 = x2 * y2 * z2 * (2 * edwards_d) * (x1 * y1 * z1)

-- The four sums and differences are the completed sum.
module _ (x1 y1 z1 x2 y2 z2 : ℕ) {x3 y3 : ℕ} (law : IsSum x1 y1 x2 y2 x3 y3) where
  pub completed :
      {rx ry rz rt : Fe25519}
      → IsUnit z1
      → IsUnit z2
      → Represents
          (2 ^ 54)
          rx
          (minus (plus_product x1 y1 z1 x2 y2 z2) (minus_product x1 y1 z1 x2 y2 z2))
      → Represents (2 ^ 54) ry (plus_product x1 y1 z1 x2 y2 z2 + minus_product x1 y1 z1 x2 y2 z2)
      → Represents (2 ^ 54) rz (z1 * z2 + z1 * z2 + cross x1 y1 z1 x2 y2 z2)
      → Represents (2 ^ 54) rt (minus (z1 * z2 + z1 * z2) (cross x1 y1 z1 x2 y2 z2))
      → IsCompleted x3 y3 (record { x = rx; y = ry; z = rz; t = rt })
  unfolding cross
  completed u v ex ey ez et =
      let z = z1 * z2 + z1 * z2 in
      let c = x1 * x2 * (y1 * y2) in
      let same_x : z * (x3 * (1 + edwards_d * c))
          ≡ x3 * (z + x2 * y2 * z2 * (2 * edwards_d) * (x1 * y1 * z1)) =
        omega arith in
      let same_y : z * (y3 * minus 1 (edwards_d * c))
          ≡ y3 * minus z (x2 * y2 * z2 * (2 * edwards_d) * (x1 * y1 * z1)) =
        omega arith in
      let denominator_x : z * (1 + edwards_d * c) ≡ z + cross x1 y1 z1 x2 y2 z2 = omega arith in
      let denominator_y : z * minus 1 (edwards_d * c) ≡ minus z (cross x1 y1 z1 x2 y2 z2) =
        omega arith in
      let unit = double-IsUnit (mul-IsUnit u v) in
      record {
        at_x =
            change
              (transitive (products_minus x1 y1 z1 x2 y2 z2) (
                transitive (mul_cong (reflexive z) (symmetric law.law_x))
                  (transitive (of_≡ same_x) (mul_cong (reflexive x3) (symmetric ez.number)))))
              ex;
        at_y =
            change
              (transitive (products_plus x1 y1 z1 x2 y2 z2) (
                transitive (mul_cong (reflexive z) (symmetric law.law_y))
                  (transitive (of_≡ same_y) (mul_cong (reflexive y3) (symmetric et.number)))))
              ey;
        at_z = own (omega arith) ez;
        at_t = own (omega arith) et;
        unit_z =
            same-IsUnit (transitive (of_≡ denominator_x) (symmetric ez.number))
              (mul-IsUnit unit law.unit_x);
        unit_t =
            same-IsUnit (transitive (of_≡ denominator_y) (symmetric et.number))
              (mul-IsUnit unit law.unit_y);
      }

-- `ge25519_add_cached` adds.
pub add_cached_sum :
    {x1 y1 x2 y2 x3 y3 : ℕ} {p : Ge25519P3} {q : Ge25519Cached}
    → IsSum x1 y1 x2 y2 x3 y3
    → IsPoint x1 y1 p
    → IsCached x2 y2 q
    → IsCompleted x3 y3 (ge25519_add_cached p q)
unfolding ge25519_add_cached plus_product minus_product cross
add_cached_sum {x1 = x1} {y1 = y1} {x2 = x2} {y2 = y2} {p = p} {q = q} law a b =
    let sum = add_rule (omega arith) a.at_y a.at_x in
    let difference = sub_rule (omega arith) (omega arith) a.at_y a.at_x in
    let rz = mul_rule (omega arith) (omega arith) sum b.at_plus in
    let ry = mul_rule (omega arith) (omega arith) difference b.at_minus in
    let rt = mul_rule (omega arith) (omega arith) b.at_t2d a.at_t in
    let rx = mul_rule (omega arith) (omega arith) a.at_z b.at_z in
    let t0 = add_rule (omega arith) rx rx in
    completed x1 y1 (value p.z) x2 y2 (value q.z) law a.unit_z b.unit_z
      (weaken (omega arith) (sub_rule (omega arith) (omega arith) rz ry))
      (weaken (omega arith) (add_rule (omega arith) rz ry))
      (weaken (omega arith) (add_rule (omega arith) t0 rt))
      (weaken (omega arith) (sub_rule (omega arith) (omega arith) t0 rt))

-- `ge25519_p1p1_to_p3` and `ge25519_p1p1_to_p2` keep the point.
pub p1p1_to_p3-IsPoint :
    {x y : ℕ} {p : Ge25519P1p1} → IsCompleted x y p → IsPoint x y (ge25519_p1p1_to_p3 p)
unfolding ge25519_p1p1_to_p3
p1p1_to_p3-IsPoint {x = x} {y = y} {p = p} c =
    let z = value p.z in
    let t = value p.t in
    let rz = mul_rule (omega arith) (omega arith) c.at_z c.at_t in
    let back = symmetric rz.number in
    let move_x : x * z * t ≡ x * (z * t) = omega arith in
    let move_y : y * t * z ≡ y * (z * t) = omega arith in
    let move_t : x * z * (y * t) ≡ x * y * (z * t) = omega arith in
    record {
      at_x = weaken (omega arith) (
          change (transitive (of_≡ move_x) (mul_cong (reflexive x) back))
            (mul_rule (omega arith) (omega arith) c.at_x c.at_t));
      at_y = weaken (omega arith) (
          change (transitive (of_≡ move_y) (mul_cong (reflexive y) back))
            (mul_rule (omega arith) (omega arith) c.at_y c.at_z));
      at_z = own (omega arith) rz;
      unit_z = same-IsUnit back (mul-IsUnit c.unit_z c.unit_t);
      at_t = weaken (omega arith) (
          change (transitive (of_≡ move_t) (mul_cong (reflexive (x * y)) back))
            (mul_rule (omega arith) (omega arith) c.at_x c.at_y));
    }

pub p1p1_to_p2-IsPoint2 :
    {x y : ℕ} {p : Ge25519P1p1} → IsCompleted x y p → IsPoint2 x y (ge25519_p1p1_to_p2 p)
unfolding ge25519_p1p1_to_p2 ge25519_p1p1_to_p3
p1p1_to_p2-IsPoint2 c =
    let r = p1p1_to_p3-IsPoint c in
    record { at_x = r.at_x; at_y = r.at_y; at_z = r.at_z; unit_z = r.unit_z }

-- `ge25519_p3_to_cached` keeps the point.
pub p3_to_cached-IsCached :
    {x y : ℕ} {p : Ge25519P3} → IsPoint x y p → IsCached x y (ge25519_p3_to_cached p)
unfolding ge25519_p3_to_cached
p3_to_cached-IsCached {p = p} a = record {
  at_plus = weaken (omega arith) (add_rule (omega arith) a.at_y a.at_x);
  at_minus = weaken (omega arith) (sub_rule (omega arith) (omega arith) a.at_y a.at_x);
  at_z = weaken (omega arith) a.at_z;
  unit_z = a.unit_z;
  at_t2d = weaken (omega arith) (mul_rule (omega arith) (omega arith) a.at_t d2);
}
  where
    d2 : Represents (2 ^ 54) ed25519_d2 (2 * edwards_d)
    d2 = record {
      fits = record {
        below0 = omega arith;
        below1 = omega arith;
        below2 = omega arith;
        below3 = omega arith;
        below4 = omega arith;
      };
      number = edwards_d2_lem;
    }
