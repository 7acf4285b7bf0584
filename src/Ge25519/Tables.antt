-- ===== src/Ge25519/Tables.antt =====
-- `ge25519_sub_cached`, `ge25519_add_precomp` and `ge25519_sub_precomp` of
-- src/libsodium/crypto_core/ed25519/ref10/ed25519_ref10.c: sums and differences with a point of a
-- table.
use libsodium.Base.{ℕ, ◌+◌, ◌*◌, ◌≡◌, arith}
use libsodium.Fe25519.Field.{value}
use libsodium.Fe25519.Congruence.{
  ◌≋◌, minus, opposite, of_≡, reflexive, symmetric, transitive, mul_cong, add_cong, opposite_cong,
  opposite_twice,
}
use libsodium.Fe25519.Units.{one-IsUnit}
use libsodium.Fe25519.Represents.{weaken, change, mul_rule, add_rule, sub_rule}
use libsodium.Ge25519.{
  Ge25519P3, Ge25519Precomp, Ge25519Cached, ge25519_sub_cached, ge25519_add_precomp,
  ge25519_sub_precomp,
}
use libsodium.Ge25519.Edwards.{
  edwards_d, IsSum, IsPoint, IsCompleted, IsCached, IsPrecomp, plus_product, minus_product,
}
use libsodium.Ge25519.Addition.{completed, cross}

-- The products with the negative of the second point.
module _ (x1 y1 z1 x2 y2 z2 : ℕ) where
  plus_negative :
      (y1 * z1 + x1 * z1) * minus (y2 * z2) (x2 * z2) ≋ plus_product x1 y1 z1 (opposite x2) y2 z2
  unfolding plus_product
  plus_negative = of_≡ (omega arith)

  minus_negative :
      minus (y1 * z1) (x1 * z1) * (y2 * z2 + x2 * z2) ≋ minus_product x1 y1 z1 (opposite x2) y2 z2
  unfolding minus_product
  minus_negative =
      let back : opposite (opposite (x2 * z2)) ≡ opposite (opposite x2 * z2) = omega arith in
      mul_cong (reflexive (minus (y1 * z1) (x1 * z1))) (
        add_cong (reflexive (y2 * z2))
          (transitive (symmetric (opposite_twice (x2 * z2))) (of_≡ back)))

  cross_negative : opposite (cross x1 y1 z1 x2 y2 z2) ≋ cross x1 y1 z1 (opposite x2) y2 z2
  unfolding cross
  cross_negative = of_≡ (omega arith)

  cross_back : cross x1 y1 z1 x2 y2 z2 ≋ opposite (cross x1 y1 z1 (opposite x2) y2 z2)
  cross_back =
      transitive (symmetric (opposite_twice (cross x1 y1 z1 x2 y2 z2)))
        (opposite_cong cross_negative)

-- `ge25519_sub_cached` subtracts.
pub ge25519_sub_cached_lem :
    {x1 y1 x2 y2 x3 y3 : ℕ} {p : Ge25519P3} {q : Ge25519Cached}
    → IsSum x1 y1 (opposite x2) y2 x3 y3
    → IsPoint x1 y1 p
    → IsCached x2 y2 q
    → IsCompleted x3 y3 (ge25519_sub_cached p q)
unfolding ge25519_sub_cached cross
ge25519_sub_cached_lem {x1 = x1} {y1 = y1} {x2 = x2} {y2 = y2} {p = p} {q = q} law a b =
    let z1 = value p.z in
    let z2 = value q.z in
    let sum = add_rule (omega arith) a.at_y a.at_x in
    let difference = sub_rule (omega arith) (omega arith) a.at_y a.at_x in
    let rz =
      change (plus_negative x1 y1 z1 x2 y2 z2)
        (mul_rule (omega arith) (omega arith) sum b.at_minus) in
    let ry =
      change (minus_negative x1 y1 z1 x2 y2 z2)
        (mul_rule (omega arith) (omega arith) difference b.at_plus) in
    let rt = mul_rule (omega arith) (omega arith) b.at_t2d a.at_t in
    let rx = mul_rule (omega arith) (omega arith) a.at_z b.at_z in
    let t0 = add_rule (omega arith) rx rx in
    let double = z1 * z2 + z1 * z2 in
    completed x1 y1 z1 (opposite x2) y2 z2 law a.unit_z b.unit_z
      (weaken (omega arith) (sub_rule (omega arith) (omega arith) rz ry))
      (weaken (omega arith) (add_rule (omega arith) rz ry))
      (change (add_cong (reflexive double) (cross_negative x1 y1 z1 x2 y2 z2))
        (weaken (omega arith) (sub_rule (omega arith) (omega arith) t0 rt)))
      (change (add_cong (reflexive double) (cross_back x1 y1 z1 x2 y2 z2))
        (weaken (omega arith) (add_rule (omega arith) t0 rt)))

-- A point of the table of the base has no denominator.
module _ (x1 y1 z1 x2 y2 : ℕ) where
  plus_whole : (y1 * z1 + x1 * z1) * (y2 + x2) ≋ plus_product x1 y1 z1 x2 y2 1
  unfolding plus_product
  plus_whole = of_≡ (omega arith)

  minus_whole : minus (y1 * z1) (x1 * z1) * minus y2 x2 ≋ minus_product x1 y1 z1 x2 y2 1
  unfolding minus_product
  minus_whole = of_≡ (omega arith)

  cross_whole : x2 * y2 * (2 * edwards_d) * (x1 * y1 * z1) ≋ cross x1 y1 z1 x2 y2 1
  unfolding cross
  cross_whole = of_≡ (omega arith)

  plus_whole_negative : (y1 * z1 + x1 * z1) * minus y2 x2 ≋ plus_product x1 y1 z1 (opposite x2) y2 1
  unfolding plus_product
  plus_whole_negative = of_≡ (omega arith)

  minus_whole_negative :
      minus (y1 * z1) (x1 * z1) * (y2 + x2) ≋ minus_product x1 y1 z1 (opposite x2) y2 1
  minus_whole_negative =
      transitive
        (mul_cong (reflexive (minus (y1 * z1) (x1 * z1)))
          (of_≡ {a = y2 + x2} {b = y2 * 1 + x2 * 1} (omega arith)))
        (minus_negative x1 y1 z1 x2 y2 1)

double_whole : (z1 : ℕ) → z1 + z1 ≋ z1 * 1 + z1 * 1
double_whole z1 = of_≡ (omega arith)

-- `ge25519_add_precomp` adds, and `ge25519_sub_precomp` subtracts.
pub ge25519_add_precomp_lem :
    {x1 y1 x2 y2 x3 y3 : ℕ} {p : Ge25519P3} {q : Ge25519Precomp}
    → IsSum x1 y1 x2 y2 x3 y3
    → IsPoint x1 y1 p
    → IsPrecomp x2 y2 q
    → IsCompleted x3 y3 (ge25519_add_precomp p q)
unfolding ge25519_add_precomp
ge25519_add_precomp_lem {x1 = x1} {y1 = y1} {x2 = x2} {y2 = y2} {p = p} {q = q} law a b =
    let z1 = value p.z in
    let sum = add_rule (omega arith) a.at_y a.at_x in
    let difference = sub_rule (omega arith) (omega arith) a.at_y a.at_x in
    let rz =
      change (plus_whole x1 y1 z1 x2 y2) (mul_rule (omega arith) (omega arith) sum b.at_plus) in
    let ry =
      change (minus_whole x1 y1 z1 x2 y2)
        (mul_rule (omega arith) (omega arith) difference b.at_minus) in
    let rt =
      change (cross_whole x1 y1 z1 x2 y2) (mul_rule (omega arith) (omega arith) b.at_xy2d a.at_t) in
    let t0 = change (double_whole z1) (add_rule (omega arith) a.at_z a.at_z) in
    completed x1 y1 z1 x2 y2 1 law a.unit_z (one-IsUnit (reflexive 1))
      (weaken (omega arith) (sub_rule (omega arith) (omega arith) rz ry))
      (weaken (omega arith) (add_rule (omega arith) rz ry))
      (weaken (omega arith) (add_rule (omega arith) t0 rt))
      (weaken (omega arith) (sub_rule (omega arith) (omega arith) t0 rt))

pub ge25519_sub_precomp_lem :
    {x1 y1 x2 y2 x3 y3 : ℕ} {p : Ge25519P3} {q : Ge25519Precomp}
    → IsSum x1 y1 (opposite x2) y2 x3 y3
    → IsPoint x1 y1 p
    → IsPrecomp x2 y2 q
    → IsCompleted x3 y3 (ge25519_sub_precomp p q)
unfolding ge25519_sub_precomp
ge25519_sub_precomp_lem {x1 = x1} {y1 = y1} {x2 = x2} {y2 = y2} {p = p} {q = q} law a b =
    let z1 = value p.z in
    let sum = add_rule (omega arith) a.at_y a.at_x in
    let difference = sub_rule (omega arith) (omega arith) a.at_y a.at_x in
    let rz =
      change (plus_whole_negative x1 y1 z1 x2 y2)
        (mul_rule (omega arith) (omega arith) sum b.at_minus) in
    let ry =
      change (minus_whole_negative x1 y1 z1 x2 y2)
        (mul_rule (omega arith) (omega arith) difference b.at_plus) in
    let rt =
      change (cross_whole x1 y1 z1 x2 y2) (mul_rule (omega arith) (omega arith) b.at_xy2d a.at_t) in
    let t0 = change (double_whole z1) (add_rule (omega arith) a.at_z a.at_z) in
    let double = z1 * 1 + z1 * 1 in
    completed x1 y1 z1 (opposite x2) y2 1 law a.unit_z (one-IsUnit (reflexive 1))
      (weaken (omega arith) (sub_rule (omega arith) (omega arith) rz ry))
      (weaken (omega arith) (add_rule (omega arith) rz ry))
      (change (add_cong (reflexive double) (cross_negative x1 y1 z1 x2 y2 1))
        (weaken (omega arith) (sub_rule (omega arith) (omega arith) t0 rt)))
      (change (add_cong (reflexive double) (cross_back x1 y1 z1 x2 y2 1))
        (weaken (omega arith) (add_rule (omega arith) t0 rt)))
