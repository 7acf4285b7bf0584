-- ===== src/Ge25519/Tests.antt =====
-- The group of src/libsodium/crypto_core/ed25519/ref10/ed25519_ref10.c: its theorems at the base
-- point and at points of small order.
use mathlib.Core.Path.{subst}
use libsodium.Base.{
  ap, Bytes, [], ◌∷◌, ◌++◌, replicate, le_value, sym, ℕ, ◌+◌, ◌*◌, ◌-◌, ◌^◌, ◌%◌, ◌≡◌, ◌/◌, ◌∙◌,
  refl, arith, some, if◌then◌else◌, ◌==◌, true,
}
use libsodium.Fe25519.{Fe25519, fe25519_0, fe25519_1}
use libsodium.Fe25519.Field.{value, prime, is_below, IsBelow-by}
use libsodium.Fe25519.Congruence.{
  ◌≋◌, minus, opposite, minus_unit, of_≡, transitive, symmetric, reflexive, mul_cong,
}
use libsodium.Fe25519.Units.{IsUnit, one-IsUnit}
use libsodium.Fe25519.Power.Laws.{power, power-add, power-zero, power-one, power-square}
use libsodium.Fe25519.Represents.{Represents}
use libsodium.Ge25519.{Ge25519P3, ge25519_p3_add, ge25519_p3p3_dbl, ge25519_p3_0}
use libsodium.Ge25519.Subgroup.{ge25519_mul_l, ge25519_is_on_curve, ge25519_is_on_main_subgroup}
use libsodium.Ge25519.Edwards.{edwards_d, IsOnCurve, IsSum, IsPoint}
use libsodium.Ge25519.Points.{ge25519_p3_add_lem, ge25519_p3p3_dbl_lem}
use libsodium.Ge25519.Multiples.{AreMultiples, IsMultiple, order, ge25519_mul_l_lem}
use libsodium.Ge25519.Scalarmult.{ge25519_scalarmult}
use libsodium.Ge25519.Scalarmult.Product.{AreGroup, ge25519_scalarmult_lem}
use libsodium.Ge25519.Membership.{
  left_side, right_side, ge25519_is_on_curve_lem, ge25519_is_on_main_subgroup_lem,
}

-- An element and its number, compared by computing.
known :
    {m : ℕ} {f : Fe25519} {a : ℕ}
    → is_below m f ≡ true
    → value f % prime ≡ a % prime
    → Represents m f a
known small same = record { fits = IsBelow-by small; number = record { same = same } }

-- A number and its inverse.
by_inverse : {a : ℕ} → (i : ℕ) → a * i % prime ≡ 1 → IsUnit a
by_inverse i same = record { inverse = i; unit = record { same = same } }

-- The base point, its double and its triple.
abbrev base_x : ℕ
base_x = 0x216936d3cd6e53fec0a4e231fdd6dc5c692cc7609525a7b2c9562d608f25d51a

abbrev base_y : ℕ
base_y = 0x6666666666666666666666666666666666666666666666666666666666666658

abbrev double_x : ℕ
double_x = 0x36ab384c9f5a046c3d043b7d1833e7ac080d8e4515d7a45f83c5a14e2843ce0e

abbrev double_y : ℕ
double_y = 0x2260cdf3092329c21da25ee8c9a21f5697390f51643851560e5f46ae6af8a3c9

abbrev triple_x : ℕ
triple_x = 0x67ae9c4a22928f491ff4ae743edac83a6343981981624886ac62485fd3f8e25c

abbrev triple_y : ℕ
triple_y = 0x1267b1d177ee69aba126a18e60269ef79f16ec176724030402c3684878f5b4d4

abbrev base : Ge25519P3
base = record {
  x = record {
    l0 = 0x45ac11e4baa34;
    l1 = 0x254969ecb255;
    l2 = 0x6b6e2e349663b;
    l3 = 0x3fec0a4e231fd;
    l4 = 0x42d26da79adca;
  };
  y = record {
    l0 = 0x4ccccccccccc3;
    l1 = 0x1999999999999;
    l2 = 0x3333333333333;
    l3 = 0x6666666666666;
    l4 = 0x4cccccccccccc;
  };
  z = record { l0 = 0x2; l1 = 0x0; l2 = 0x0; l3 = 0x0; l4 = 0x0 };
  t = record {
    l0 = 0x515674b6fbb59;
    l1 = 0x1dd454bd5b77;
    l2 = 0x55f1be90784fc;
    l3 = 0x66566ea4e8e64;
    l4 = 0x4f0ebe1faf16e;
  };
}

abbrev double : Ge25519P3
double = record {
  x = record {
    l0 = 0xe3ea78cb6a3d;
    l1 = 0x1e830dda3d16a;
    l2 = 0x26edc1060a2ab;
    l3 = 0x6a25b86593ba4;
    l4 = 0x2401a8e5de0e0;
  };
  y = record {
    l0 = 0x5d40b40e9eb5b;
    l1 = 0x685951e804563;
    l2 = 0x399780f16acb7;
    l3 = 0x6a32c738e5d2e;
    l4 = 0x672269d91b697;
  };
  z = record { l0 = 0x3; l1 = 0x0; l2 = 0x0; l3 = 0x0; l4 = 0x0 };
  t = record {
    l0 = 0x6be00483d1c03;
    l1 = 0x3a8bcad8104a9;
    l2 = 0x42c70e861b419;
    l3 = 0x54a2cd80e8cac;
    l4 = 0x6dc9f68f218e3;
  };
}

base-IsPoint : IsPoint base_x base_y base
base-IsPoint = record {
  at_x = known refl refl;
  at_y = known refl refl;
  at_z = known refl refl;
  unit_z = by_inverse 0x3ffffffffffffffffffffffffffffffffffffffffffffffffffffffffffffff7 refl;
  at_t = known refl refl;
}

double-IsPoint : IsPoint double_x double_y double
double-IsPoint = record {
  at_x = known refl refl;
  at_y = known refl refl;
  at_z = known refl refl;
  unit_z = by_inverse 0x5555555555555555555555555555555555555555555555555555555555555549 refl;
  at_t = known refl refl;
}

base_curve : IsOnCurve base_x base_y
base_curve = record { equation = record { same = refl } }

doubled : IsSum base_x base_y base_x base_y double_x double_y
doubled = record {
  law_x = record { same = refl };
  law_y = record { same = refl };
  unit_x = by_inverse 0x7679672a6574fa94a0d348b64eac1080b978506c973a549d31b54022725c21 refl;
  unit_y = by_inverse 0x33cee1f58fc0f0ab489e7c2e762d0d5d118615644a238f087a42c87f87df8e3f refl;
}

tripled : IsSum base_x base_y double_x double_y triple_x triple_y
tripled = record {
  law_x = record { same = refl };
  law_y = record { same = refl };
  unit_x = by_inverse 0x417175e95f055b5640564b97c3ba427190ee69a2cb7ee5fb71481ca1634b2d3a refl;
  unit_y = by_inverse 0x1b79a370eabecda7b3994d1ed7c7c45391dddeb09b4119c04a55c25d24d0593e refl;
}

ge25519_p3_add_lem_example : IsPoint triple_x triple_y (ge25519_p3_add base double)
ge25519_p3_add_lem_example = ge25519_p3_add_lem tripled base-IsPoint double-IsPoint

ge25519_p3p3_dbl_lem_example : IsPoint double_x double_y (ge25519_p3p3_dbl base)
ge25519_p3p3_dbl_lem_example = ge25519_p3p3_dbl_lem base_curve doubled base-IsPoint

-- The multiples of the point (0, -1), of order 2.
order_two : AreMultiples (λ n. 0) (power minus_unit)
order_two = record {
  curve = λ n. transitive_curve n;
  sum = λ m n. record {
    law_x = of_≡ (omega arith);
    law_y = whole m n;
    unit_x = one-IsUnit (of_≡ (omega arith));
    unit_y = one-IsUnit (of_≡ (omega arith));
  };
}
  where
    transitive_curve : (n : ℕ) → IsOnCurve 0 (power minus_unit n)
    transitive_curve n =
        let y = power minus_unit n in
        record {
          equation = transitive (of_≡ {a = minus (y * y) (0 * 0)} {b = y * y} (omega arith)) (
              transitive (power-square minus_unit n (record { same = refl })) (of_≡ (omega arith)));
        }

    whole :
        (m n : ℕ)
        → power minus_unit (m + n)
            * minus 1 (edwards_d * (0 * 0 * (power minus_unit m * power minus_unit n)))
          ≋ power minus_unit m * power minus_unit n + 0 * 0
    whole m n = of_≡ (omega (arith, power-add minus_unit m n))

abbrev second : Ge25519P3
second = record {
  x = fe25519_0;
  y = record {
    l0 = 2 ^ 51 - 20;
    l1 = 2 ^ 51 - 1;
    l2 = 2 ^ 51 - 1;
    l3 = 2 ^ 51 - 1;
    l4 = 2 ^ 51 - 1;
  };
  z = fe25519_1;
  t = fe25519_0;
}

second-IsPoint : IsPoint 0 minus_unit second
second-IsPoint = record {
  at_x = known refl refl;
  at_y = known refl refl;
  at_z = known refl refl;
  unit_z = by_inverse 0x1 refl;
  at_t = known refl refl;
}

second_first : IsMultiple (λ n. 0) (power minus_unit) 1 second
second_first = record {
  point = subst (λ (y : ℕ). IsPoint 0 y second) (sym (power-one minus_unit)) second-IsPoint;
}

ge25519_mul_l_lem_example : IsMultiple (λ n. 0) (power minus_unit) order (ge25519_mul_l second)
ge25519_mul_l_lem_example = ge25519_mul_l_lem order_two second_first

-- The multiples of the neutral element.
neutral : AreMultiples (λ n. 0) (λ n. 1)
neutral = record {
  curve = λ n. record { equation = record { same = refl } };
  sum = λ m n. record {
    law_x = record { same = refl };
    law_y = record { same = refl };
    unit_x = by_inverse 1 refl;
    unit_y = by_inverse 1 refl;
  };
}

neutral_first : IsMultiple (λ n. 0) (λ n. 1) 1 ge25519_p3_0
neutral_first = record {
  point = record {
    at_x = known refl refl;
    at_y = known refl refl;
    at_z = known refl refl;
    unit_z = by_inverse 1 refl;
    at_t = known refl refl;
  };
}

neutral_accepted : ge25519_is_on_main_subgroup ge25519_p3_0 ≡ some 1
neutral_accepted = ge25519_is_on_main_subgroup_lem neutral neutral_first

-- An odd multiple of a point of order 2 is the point.
odd_power : (n : ℕ) → power minus_unit (n + n + 1) ≋ minus_unit
odd_power n =
    let u = minus_unit in
    let apart : power u n * power u n * u ≡ power u (n + n + 1) = omega (
      arith,
      power-add u (n + n) 1,
      ap (λ (t : ℕ). t * u) (power-add u n n),
      ap (λ (t : ℕ). power u (n + n) * t) (power-one u),
    ) in
    let squared = power-square u n (record { same = refl }) in
    transitive (of_≡ (sym apart)) (transitive (mul_cong squared (reflexive u)) (of_≡ refl))

-- The point of order 2 is refused: its X is 0, and its multiple by the order is itself.
ge25519_is_on_main_subgroup_lem_example : ge25519_is_on_main_subgroup second ≡ some 0
ge25519_is_on_main_subgroup_lem_example =
    ge25519_is_on_main_subgroup_lem order_two second_first
    ∙ ap (λ (n : ℕ). some (if n == 1 then 1 else 0)) (odd_power (order / 2)).same

ge25519_is_on_curve_lem_example :
    ge25519_is_on_curve base
    ≡ some (
        if minus
              (left_side (value base.x) (value base.y) (value base.z))
              (right_side (value base.x) (value base.y) (value base.z))
            % prime
          == 0
        then 1
        else 0)
ge25519_is_on_curve_lem_example =
    ge25519_is_on_curve_lem base base-IsPoint.at_x.fits base-IsPoint.at_y.fits
      base-IsPoint.at_z.fits

-- They are a group: the differences are the sums, since y n squares to 1.
order_two-AreGroup : AreGroup (λ n. 0) (power minus_unit)
order_two-AreGroup = record {
  multiples = order_two;
  neutral_x = of_≡ refl;
  neutral_y = of_≡ (power-zero minus_unit);
  difference = λ n k. record {
    law_x = of_≡ (omega arith);
    law_y = back n k;
    unit_x = one-IsUnit (of_≡ (omega arith));
    unit_y = one-IsUnit (of_≡ (omega arith));
  };
}
  where
    back :
        (n k : ℕ)
        → power minus_unit n
            * minus 1
                (edwards_d * (0 * opposite 0 * (power minus_unit (n + k) * power minus_unit k)))
          ≋ power minus_unit (n + k) * power minus_unit k + 0 * opposite 0
    back n k =
        let y = power minus_unit k in
        let apart : power minus_unit (n + k) * y + 0 * opposite 0 ≡ power minus_unit n * (y * y) =
          omega (arith, ap (λ (t : ℕ). t * y) (power-add minus_unit n k)) in
        let kept : power minus_unit n * (y * y) ≋ power minus_unit n * 1 =
          mul_cong (reflexive (power minus_unit n))
            (power-square minus_unit k (record { same = refl })) in
        symmetric (transitive (of_≡ apart) (transitive kept (of_≡ (omega arith))))

-- The scalar has digits of both signs.
abbrev scalar : Bytes
scalar = 0x9f ∷ 0x18 ∷ replicate 29 0xe8 ++ 0x7f ∷ []

ge25519_scalarmult_lem_example :
    IsMultiple (λ n. 0) (power minus_unit) (le_value scalar) (ge25519_scalarmult scalar second)
ge25519_scalarmult_lem_example =
    ge25519_scalarmult_lem scalar second order_two-AreGroup second_first (omega arith) refl
      (omega arith)
