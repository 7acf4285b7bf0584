-- ===== src/Fe25519/Units.antt =====
-- Numbers with an inverse modulo 2^255 - 19: the denominators of the points and of the addition law in
-- src/libsodium/crypto_core/ed25519/ref10/ed25519_ref10.c.
use libsodium.Base.{ℕ, ◌+◌, ◌*◌, ◌/◌, ◌≡◌, refl, arith}
use libsodium.Fe25519.Field.{prime}
use libsodium.Fe25519.Congruence.{◌≋◌, of_≡, reflexive, symmetric, transitive, mul_cong}

pub record IsUnit (a : ℕ) : Type 0 where
  pub inverse : ℕ
  pub unit : a * inverse ≋ 1

pub one-IsUnit : {a : ℕ} → a ≋ 1 → IsUnit a
one-IsUnit p = record { inverse = 1; unit = transitive (mul_cong p (reflexive 1)) (of_≡ refl) }

pub same-IsUnit : {a b : ℕ} → a ≋ b → IsUnit a → IsUnit b
same-IsUnit p u = record {
  inverse = u.inverse;
  unit = transitive (mul_cong (symmetric p) (reflexive u.inverse)) u.unit;
}

pub mul-IsUnit : {a b : ℕ} → IsUnit a → IsUnit b → IsUnit (a * b)
mul-IsUnit {a = a} {b = b} u v =
    let i = u.inverse in
    let j = v.inverse in
    let apart : a * b * (i * j) ≡ a * i * (b * j) = omega arith in
    record {
      inverse = i * j;
      unit = transitive (of_≡ apart) (transitive (mul_cong u.unit v.unit) (of_≡ refl));
    }

-- Twice a unit, since 2 is one.
pub double-IsUnit : {a : ℕ} → IsUnit a → IsUnit (a + a)
double-IsUnit {a = a} u =
    let two : IsUnit 2 = record { inverse = (prime + 1) / 2; unit = record { same = refl } } in
    same-IsUnit (of_≡ {a = 2 * a} {b = a + a} (omega arith)) (mul-IsUnit two u)

-- A unit may be cancelled.
pub cancel : {a b z : ℕ} → IsUnit z → a * z ≋ b * z → a ≋ b
cancel {a = a} {b = b} {z = z} u p =
    let i = u.inverse in
    let whole : (c : ℕ) → c ≋ c * z * i = λ c. transitive (of_≡ {a = c} {b = c * 1} (omega arith)) (
      transitive (mul_cong (reflexive c) (symmetric u.unit))
        (of_≡ {a = c * (z * i)} {b = c * z * i} (omega arith))) in
    transitive (whole a) (transitive (mul_cong p (reflexive i)) (symmetric (whole b)))
