-- ===== src/Ge25519/Scalarmult/Product.antt =====
-- `ge25519_scalarmult` of src/libsodium/crypto_core/ed25519/ref10/ed25519_ref10.c as the multiple of
-- a point.
use mathlib.Core.Path.{subst}
use libsodium.Base.{
  ℕ, ◌+◌, ◌*◌, ◌^◌, ◌<◌, ◌≤◌, ◌≡◌, refl, sym, ap, arith, List, [], ◌∷◌, Bytes, IsBytes, length,
  le_value,
}
use libsodium.Fe25519.Field.{value, IsBelow-by, IsBelow-weaken}
use libsodium.Fe25519.Congruence.{
  ◌≋◌, minus, opposite, of_≡, reflexive, symmetric, transitive, mul_cong, add_cong, minus_cong,
  opposite_twice,
}
use libsodium.Fe25519.Units.{one-IsUnit}
use libsodium.Fe25519.Represents.{weaken, change, neg_rule}
use libsodium.Ge25519.{
  Ge25519P3, Ge25519Cached, ge25519_cached_0, ge25519_p3_0, ge25519_p3_to_cached, ge25519_p3p3_dbl,
  ge25519_p3_add, ge25519_add_cached,
}
use libsodium.Ge25519.Edwards.{edwards_d, IsSum, IsCached}
use libsodium.Ge25519.Addition.{
  add_cached_sum, p1p1_to_p3-IsPoint, p1p1_to_p2-IsPoint2, p3_to_cached-IsCached,
}
use libsodium.Ge25519.Multiples.{
  AreMultiples, IsMultiple, IsCompletedMultiple, add-IsMultiple, dbl-IsMultiple,
  dbl_times-IsMultiple,
}
use libsodium.Ge25519.Scalarmult.{
  Table, multiples_table, ge25519_cmov8_cached, scalarmult_loop, finish_digits, ge25519_scalarmult,
}
use libsodium.Ge25519.Scalarmult.Digits.{
  IsDigit, added, taken, AreDigits, none_left, digit, scalar-AreDigits,
}
use libsodium.Ge25519.Scalarmult.Lookup.{
  Fits, TableFits, entry, entry-elim, swapped, cmov8_cached_plus, cmov8_cached_less,
}

-- Multiples of a point with the neutral element as the first and with differences.
pub record AreGroup (x y : ℕ → ℕ) : Type 0 where
  pub multiples : AreMultiples x y
  pub neutral_x : x 0 ≋ 0
  pub neutral_y : y 0 ≋ 1
  pub difference : (n k : ℕ) → IsSum (x (n + k)) (y (n + k)) (opposite (x k)) (y k) (x n) (y n)

IsCached-Fits : {x y : ℕ} {q : Ge25519Cached} → IsCached x y q → Fits q
IsCached-Fits {q = q} a = record {
  fits_plus = IsBelow-weaken q.yplusx (omega arith) a.at_plus.fits;
  fits_minus = IsBelow-weaken q.yminusx (omega arith) a.at_minus.fits;
  fits_z = IsBelow-weaken q.z (omega arith) a.at_z.fits;
  fits_t2d = IsBelow-weaken q.t2d (omega arith) a.at_t2d.fits;
}

swapped-IsCached :
    {x y : ℕ} {q : Ge25519Cached} → IsCached x y q → IsCached (opposite x) y (swapped q)
unfolding swapped
swapped-IsCached {x = x} {y = y} {q = q} a =
    let z = value q.z in
    let d = 2 * edwards_d in
    let move_x : minus (y * z) (x * z) ≡ y * z + opposite x * z = omega arith in
    let move_t : opposite (x * y * z * d) ≡ opposite x * y * z * d = omega arith in
    let back : opposite (opposite (x * z)) ≡ opposite (opposite x * z) = omega arith in
    record {
      at_plus = change (of_≡ move_x) a.at_minus;
      at_minus =
          change
            (add_cong (reflexive (y * z))
              (transitive (symmetric (opposite_twice (x * z))) (of_≡ back)))
            a.at_plus;
      at_z = a.at_z;
      unit_z = a.unit_z;
      at_t2d = change (of_≡ move_t) (weaken (omega arith) (neg_rule (omega arith) a.at_t2d));
    }

vanishing : {a : ℕ} (c : ℕ) → a ≋ 0 → a * c ≋ 0
vanishing c p = transitive (mul_cong p (reflexive c)) (of_≡ {a = 0 * c} {b = 0} (omega arith))

record IsCachedMultiple (x y : ℕ → ℕ) (n : ℕ) (q : Ge25519Cached) : Type 0 where
  entry_point : IsCached (x n) (y n) q

record IsTable (x y : ℕ → ℕ) (pi : Table) : Type 0 where
  m1 : IsCachedMultiple x y 1 pi.c1
  m2 : IsCachedMultiple x y 2 pi.c2
  m3 : IsCachedMultiple x y 3 pi.c3
  m4 : IsCachedMultiple x y 4 pi.c4
  m5 : IsCachedMultiple x y 5 pi.c5
  m6 : IsCachedMultiple x y 6 pi.c6
  m7 : IsCachedMultiple x y 7 pi.c7
  m8 : IsCachedMultiple x y 8 pi.c8

module _ {x y : ℕ → ℕ} (group : AreGroup x y) where
  cached :
      {n : ℕ} {p : Ge25519P3} → IsMultiple x y n p → IsCachedMultiple x y n (ge25519_p3_to_cached p)
  cached a = record { entry_point = p3_to_cached-IsCached a.point }

  multiples_table-IsTable : {p : Ge25519P3} → IsMultiple x y 1 p → IsTable x y (multiples_table p)
  unfolding multiples_table ge25519_p3p3_dbl ge25519_p3_add
  multiples_table-IsTable a =
      let a2 = dbl-IsMultiple group.multiples a in
      let a3 = add-IsMultiple group.multiples a a2 in
      let a4 = dbl-IsMultiple group.multiples a2 in
      record {
        m1 = cached a;
        m2 = cached a2;
        m3 = cached a3;
        m4 = cached a4;
        m5 = cached (add-IsMultiple group.multiples a a4);
        m6 = cached (dbl-IsMultiple group.multiples a3);
        m7 = cached (add-IsMultiple group.multiples a (dbl-IsMultiple group.multiples a3));
        m8 = cached (dbl-IsMultiple group.multiples a4);
      }

  neutral-IsCached : IsCachedMultiple x y 0 ge25519_cached_0
  neutral-IsCached =
      let one_x : x 0 * 1 ≋ 0 = transitive (of_≡ (omega arith)) group.neutral_x in
      let one_y : y 0 * 1 ≋ 1 = transitive (of_≡ (omega arith)) group.neutral_y in
      record {
        entry_point = record {
          at_plus = record { fits = IsBelow-by refl; number = symmetric (add_cong one_y one_x) };
          at_minus = record { fits = IsBelow-by refl; number = symmetric (minus_cong one_y one_x) };
          at_z = record { fits = IsBelow-by refl; number = of_≡ refl };
          unit_z = one-IsUnit (of_≡ refl);
          at_t2d = record {
            fits = IsBelow-by refl;
            number = symmetric (
                transitive (of_≡ {b = x 0 * (y 0 * (2 * edwards_d))} (omega arith))
                  (vanishing (y 0 * (2 * edwards_d)) group.neutral_x));
          };
        };
      }

  neutral-IsPoint : IsMultiple x y 0 ge25519_p3_0
  neutral-IsPoint =
      let one_x : x 0 * 1 ≋ 0 = transitive (of_≡ (omega arith)) group.neutral_x in
      let one_y : y 0 * 1 ≋ 1 = transitive (of_≡ (omega arith)) group.neutral_y in
      let one_t : x 0 * y 0 * 1 ≋ 0 =
        transitive (of_≡ {b = x 0 * y 0} (omega arith)) (vanishing (y 0) group.neutral_x) in
      record {
        point = record {
          at_x = record { fits = IsBelow-by refl; number = symmetric one_x };
          at_y = record { fits = IsBelow-by refl; number = symmetric one_y };
          at_z = record { fits = IsBelow-by refl; number = of_≡ refl };
          unit_z = one-IsUnit (of_≡ refl);
          at_t = record { fits = IsBelow-by refl; number = symmetric one_t };
        };
      }

  module _ {pi : Table} (table : IsTable x y pi) where
    table-Fits : TableFits pi
    table-Fits = record {
      f1 = IsCached-Fits table.m1.entry_point;
      f2 = IsCached-Fits table.m2.entry_point;
      f3 = IsCached-Fits table.m3.entry_point;
      f4 = IsCached-Fits table.m4.entry_point;
      f5 = IsCached-Fits table.m5.entry_point;
      f6 = IsCached-Fits table.m6.entry_point;
      f7 = IsCached-Fits table.m7.entry_point;
      f8 = IsCached-Fits table.m8.entry_point;
    }

    entry-IsCached : (k : ℕ) → k ≤ 8 → IsCached (x k) (y k) (entry pi k)
    entry-IsCached k small =
        (entry-elim (IsCachedMultiple x y) pi neutral-IsCached table.m1 table.m2 table.m3 table.m4
          table.m5 table.m6 table.m7 table.m8 k small).entry_point

    -- One digit added to the sixteenfold.
    add_digit :
        {e n rest : ℕ} {h : Ge25519P3}
        → IsDigit e n rest
        → IsMultiple x y (16 * rest) h
        → IsCompletedMultiple x y n (ge25519_add_cached h (ge25519_cmov8_cached pi e))
    add_digit {e = e} {n = n} {rest = rest} {h = h} (added small is) a =
        let c = entry-IsCached e small in
        let chosen =
          cmov8_cached_plus pi e table-Fits small (IsCached-Fits c)
            (IsCached-Fits (swapped-IsCached c)) in
        rw (chosen, is)
          (record { point = add_cached_sum (group.multiples.sum (16 * rest) e) a.point c })
    add_digit {e = e} {n = n} {rest = rest} {h = h} (taken k small pos is sum) a =
        let c = entry-IsCached k small in
        let chosen =
          cmov8_cached_less pi k table-Fits small pos (IsCached-Fits c)
            (IsCached-Fits (swapped-IsCached c)) in
        let from : IsMultiple x y (n + k) h = subst (λ (j : ℕ). IsMultiple x y j h) (sym sum) a in
        rw (is, chosen)
          (record { point = add_cached_sum (group.difference n k) from.point (swapped-IsCached c) })

    scalarmult_loop-IsMultiple :
        {es : List ℕ} {n : ℕ}
        → AreDigits es n
        → IsMultiple x y (16 * n) (scalarmult_loop pi es ge25519_p3_0)
    unfolding scalarmult_loop
    scalarmult_loop-IsMultiple none_left = neutral-IsPoint
    scalarmult_loop-IsMultiple (digit e es n rest d more) =
        let sum = add_digit d (scalarmult_loop-IsMultiple more) in
        let doubled =
          dbl_times-IsMultiple group.multiples 3
            (record { point = p1p1_to_p2-IsPoint2 sum.point }) in
        record { point = p1p1_to_p3-IsPoint doubled.point }

    finish_digits-IsMultiple :
        {es : List ℕ} {n : ℕ} → AreDigits es n → IsMultiple x y n (finish_digits pi es)
    unfolding finish_digits
    finish_digits-IsMultiple none_left = neutral-IsPoint
    finish_digits-IsMultiple (digit e es n rest d more) = record {
      point = p1p1_to_p3-IsPoint (add_digit d (scalarmult_loop-IsMultiple more)).point;
    }

-- Over the multiples of a point of the curve, related by the addition law with invertible
-- denominators, the neutral element and differences among them, and for a scalar of 32 bytes below
-- 2^255, `ge25519_scalarmult` gives the multiple of the point by the scalar, with an invertible Z.
pub ge25519_scalarmult_lem :
    {x y : ℕ → ℕ} (a : Bytes) (p : Ge25519P3)
    → AreGroup x y
    → IsMultiple x y 1 p
    → IsBytes a
    → length a ≡ 32
    → le_value a < 2 ^ 255
    → IsMultiple x y (le_value a) (ge25519_scalarmult a p)
unfolding ge25519_scalarmult
ge25519_scalarmult_lem [] p group point h len small = absurd (omega arith)
ge25519_scalarmult_lem (b ∷ a) p group point h len small =
    let count : length a ≡ 31 = omega arith in
    let bound : 2 ^ 255 ≡ 128 * 256 ^ length a = sym (ap (λ (n : ℕ). 128 * 256 ^ n) count) in
    finish_digits-IsMultiple group (multiples_table-IsTable group point)
      (scalar-AreDigits b a h (omega (arith, small, bound)))
