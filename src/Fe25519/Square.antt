-- ===== src/Fe25519/Square.antt =====
-- `fe25519_sq` and `fe25519_sq2` of src/libsodium/include/sodium/private/ed25519_ref10_fe_51.h as
-- the square, and its double, modulo 2^255 - 19.
use libsodium.Base.{ℕ, ◌+◌, ◌*◌, ◌%◌, ◌^◌, ◌<◌, ◌≤◌, ◌≡◌, refl, ◌∙◌, arith, u64, u128, ◌<<<◌}
use libsodium.Fe25519.{Fe25519, carry_sums, carry_doubled, square_sums, fe25519_sq, fe25519_sq2}
use libsodium.Fe25519.Field.{
  prime, value, residue, IsBelow, IsBelow-weaken, mod_drop, carry_sums_lem,
}
use libsodium.Fe25519.Mul.{sum3_lem, product-le}

module _ (f : Fe25519) where
  r0 : ℕ
  r0 = f.l0 * f.l0 + 38 * f.l1 * f.l4 + 38 * f.l2 * f.l3

  r1 : ℕ
  r1 = f.l0 * 2 * f.l1 + 38 * f.l2 * f.l4 + 19 * f.l3 * f.l3

  r2 : ℕ
  r2 = f.l0 * 2 * f.l2 + f.l1 * f.l1 + 38 * f.l3 * f.l4

  r3 : ℕ
  r3 = f.l0 * 2 * f.l3 + f.l1 * 2 * f.l2 + 19 * f.l4 * f.l4

  r4 : ℕ
  r4 = f.l0 * 2 * f.l4 + f.l1 * 2 * f.l3 + f.l2 * f.l2

  -- The bounds of the sums, in units of the square of the bound of the limbs.
  record Sums (unit : ℕ) : Type 0 where
    top0 : r0 ≤ 77 * unit
    top1 : r1 ≤ 59 * unit
    top2 : r2 ≤ 41 * unit
    top3 : r3 ≤ 23 * unit
    top4 : r4 ≤ 5 * unit

  Sums-le : (k : ℕ) → IsBelow (2 ^ k) f → Sums (2 ^ k * 2 ^ k)
  unfolding r0 r1 r2 r3 r4
  Sums-le k h = record {
    top0 = omega (
      arith,
      product-le k f.l0 f.l0 h.below0 h.below0,
      product-le k f.l1 f.l4 h.below1 h.below4,
      product-le k f.l2 f.l3 h.below2 h.below3,
    );
    top1 = omega (
      arith,
      product-le k f.l0 f.l1 h.below0 h.below1,
      product-le k f.l2 f.l4 h.below2 h.below4,
      product-le k f.l3 f.l3 h.below3 h.below3,
    );
    top2 = omega (
      arith,
      product-le k f.l0 f.l2 h.below0 h.below2,
      product-le k f.l1 f.l1 h.below1 h.below1,
      product-le k f.l3 f.l4 h.below3 h.below4,
    );
    top3 = omega (
      arith,
      product-le k f.l0 f.l3 h.below0 h.below3,
      product-le k f.l1 f.l2 h.below1 h.below2,
      product-le k f.l4 f.l4 h.below4 h.below4,
    );
    top4 = omega (
      arith,
      product-le k f.l0 f.l4 h.below0 h.below4,
      product-le k f.l1 f.l3 h.below1 h.below3,
      product-le k f.l2 f.l2 h.below2 h.below2,
    );
  }

  -- The sums do not wrap for limbs of 54 bits.
  square_sums_lem :
      (next : ℕ → ℕ → ℕ → ℕ → ℕ → Fe25519)
      → IsBelow (2 ^ 54) f
      → square_sums f next ≡ next r0 r1 r2 r3 r4
  unfolding square_sums r0 r1 r2 r3 r4
  square_sums_lem next h =
      let tops = Sums-le 54 h in
      let a0 : u64 (f.l0 <<< 1) ≡ f.l0 * 2 = omega (arith, h.below0) in
      let a1 : u64 (f.l1 <<< 1) ≡ f.l1 * 2 = omega (arith, h.below1) in
      let a2 : u64 (38 * f.l1) ≡ 38 * f.l1 = omega (arith, h.below1) in
      let a3 : u64 (38 * f.l2) ≡ 38 * f.l2 = omega (arith, h.below2) in
      let a4 : u64 (38 * f.l3) ≡ 38 * f.l3 = omega (arith, h.below3) in
      let a5 : u64 (19 * f.l3) ≡ 19 * f.l3 = omega (arith, h.below3) in
      let a6 : u64 (19 * f.l4) ≡ 19 * f.l4 = omega (arith, h.below4) in
      let e0 =
        sum3_lem (f.l0 * f.l0) (38 * f.l1 * f.l4) (38 * f.l2 * f.l3) (omega (arith, tops.top0)) in
      let e1 =
        sum3_lem (f.l0 * 2 * f.l1) (38 * f.l2 * f.l4) (19 * f.l3 * f.l3)
          (omega (arith, tops.top1)) in
      let e2 =
        sum3_lem (f.l0 * 2 * f.l2) (f.l1 * f.l1) (38 * f.l3 * f.l4) (omega (arith, tops.top2)) in
      let e3 =
        sum3_lem (f.l0 * 2 * f.l3) (f.l1 * 2 * f.l2) (19 * f.l4 * f.l4)
          (omega (arith, tops.top3)) in
      let e4 =
        sum3_lem (f.l0 * 2 * f.l4) (f.l1 * 2 * f.l3) (f.l2 * f.l2) (omega (arith, tops.top4)) in
      rw (a0, a1, a2, a3, a4, a5, a6, e0, e1, e2, e3, e4) refl

  -- The sums and the square differ by a multiple of 2^255 - 19.
  wrapped : ℕ
  wrapped =
      2 * f.l1 * f.l4
      + 2 * f.l2 * f.l3
      + 2 ^ 51 * (2 * f.l2 * f.l4 + f.l3 * f.l3)
      + 2 ^ 102 * (2 * f.l3 * f.l4)
      + 2 ^ 153 * (f.l4 * f.l4)

  total : ℕ
  total = r0 + 2 ^ 51 * r1 + 2 ^ 102 * r2 + 2 ^ 153 * r3 + 2 ^ 204 * r4

  total-value : total + wrapped * prime ≡ value f * value f
  unfolding total r0 r1 r2 r3 r4 wrapped
  total-value = omega arith

  fe25519_sq_run :
      IsBelow (2 ^ 54) f
      → IsBelow (2 ^ 51 + 1) (fe25519_sq f) × (residue (fe25519_sq f) ≡ value f * value f % prime)
  unfolding fe25519_sq total
  fe25519_sq_run h =
      let tops = Sums-le 54 h in
      rw (square_sums_lem carry_sums h) (
        let (bounds, same) =
          carry_sums_lem r0 r1 r2 r3 r4 (omega (arith, tops.top0)) (omega (arith, tops.top1))
            (omega (arith, tops.top2)) (omega (arith, tops.top3)) (omega (arith, tops.top4)) in
        (bounds, same ∙ mod_drop total wrapped total-value))

  -- `r <<= 1` of a sum.
  doubled : (r : ℕ) → r < 2 ^ 120 → u128 (r <<< 1) ≡ 2 * r
  doubled r small = omega arith

  fe25519_sq2_run :
      IsBelow (2 ^ 53) f
      → IsBelow (2 ^ 51 + 1) (fe25519_sq2 f)
        × (residue (fe25519_sq2 f) ≡ 2 * (value f * value f) % prime)
  unfolding fe25519_sq2 carry_doubled total
  fe25519_sq2_run h =
      let tops = Sums-le 53 h in
      rw
        (
          square_sums_lem carry_doubled (IsBelow-weaken f (omega arith) h),
          doubled r0 (omega (arith, tops.top0)),
          doubled r1 (omega (arith, tops.top1)),
          doubled r2 (omega (arith, tops.top2)),
          doubled r3 (omega (arith, tops.top3)),
          doubled r4 (omega (arith, tops.top4)),
        )
        (let (bounds, same) =
            carry_sums_lem (2 * r0) (2 * r1) (2 * r2) (2 * r3) (2 * r4) (omega (arith, tops.top0))
              (omega (arith, tops.top1)) (omega (arith, tops.top2)) (omega (arith, tops.top3))
              (omega (arith, tops.top4)) in
          (
            bounds,
            same
                ∙ mod_drop
                    (2 * r0
                      + 2 ^ 51 * (2 * r1)
                      + 2 ^ 102 * (2 * r2)
                      + 2 ^ 153 * (2 * r3)
                      + 2 ^ 204 * (2 * r4))
                    (2 * wrapped) (omega (arith, total-value)),
          ))

-- For limbs of 54 bits `fe25519_sq` writes limbs of 51 bits that stand for the square.
pub fe25519_sq_lem :
    (f : Fe25519)
    → IsBelow (2 ^ 54) f
    → IsBelow (2 ^ 51 + 1) (fe25519_sq f) × (residue (fe25519_sq f) ≡ value f * value f % prime)
fe25519_sq_lem f h = fe25519_sq_run f h

-- For limbs of 53 bits `fe25519_sq2` writes limbs of 51 bits that stand for twice the square.
pub fe25519_sq2_lem :
    (f : Fe25519)
    → IsBelow (2 ^ 53) f
    → IsBelow (2 ^ 51 + 1) (fe25519_sq2 f)
      × (residue (fe25519_sq2 f) ≡ 2 * (value f * value f) % prime)
fe25519_sq2_lem f h = fe25519_sq2_run f h
