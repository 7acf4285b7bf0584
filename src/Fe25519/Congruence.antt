-- ===== src/Fe25519/Congruence.antt =====
-- Numbers modulo 2^255 - 19, with subtraction as adding 2^255 - 20 times the subtrahend.
use native.Mathlib.Nat.{add-mod, mod-add-div, zero-add}
use libsodium.Base.{ℕ, ◌+◌, ◌-◌, ◌*◌, ◌/◌, ◌%◌, ◌≡◌, refl, sym, ap, ap₂, ◌∙◌, arith}
use libsodium.Fe25519.Field.{prime, mod_drop}

pub record Congruent (a b : ℕ) : Type 0 where
  pub same : a % prime ≡ b % prime

infix 20 ◌≋◌
abbrev pub ◌≋◌ : ℕ → ℕ → Type 0
a ≋ b = Congruent a b

abbrev pub minus_unit : ℕ
minus_unit = 0x7fffffffffffffffffffffffffffffffffffffffffffffffffffffffffffffec

abbrev pub opposite : ℕ → ℕ
opposite a = minus_unit * a

abbrev pub minus : ℕ → ℕ → ℕ
minus a b = a + opposite b

pub of_≡ : {a b : ℕ} → a ≡ b → a ≋ b
of_≡ e = record { same = ap (λ (n : ℕ). n % prime) e }

pub reflexive : (a : ℕ) → a ≋ a
reflexive a = record { same = refl }

pub symmetric : {a b : ℕ} → a ≋ b → b ≋ a
symmetric p = record { same = sym p.same }

pub transitive : {a b c : ℕ} → a ≋ b → b ≋ c → a ≋ c
transitive p q = record { same = p.same ∙ q.same }

-- A multiple of 2^255 - 19 on top.
pub multiple : (a k : ℕ) {b : ℕ} → a + k * prime ≡ b → a ≋ b
multiple a k e = record { same = mod_drop a k e }

pub add_cong : {a b c d : ℕ} → a ≋ b → c ≋ d → a + c ≋ b + d
add_cong {a = a} {b = b} {c = c} {d = d} p q = record {
  same =
      add-mod a c prime
      ∙ (ap₂ (λ (x y : ℕ). (x + y) % prime) p.same q.same ∙ sym (add-mod b d prime));
}

-- A factor may be replaced by its remainder.
factor : (a c : ℕ) → a % prime * c ≋ a * c
factor a c =
    multiple (a % prime * c) (a / prime * c) (whole (a % prime) (a / prime) (mod-add-div a prime))
  where
    whole : (r q : ℕ) → r + prime * q ≡ a → r * c + q * c * prime ≡ a * c
    whole r q e = omega (arith, ap (λ (n : ℕ). n * c) e)

scale_cong : {a b : ℕ} (c : ℕ) → a ≋ b → a * c ≋ b * c
scale_cong {a = a} {b = b} c p =
    transitive (symmetric (factor a c))
      (transitive (of_≡ (ap (λ (n : ℕ). n * c) p.same)) (factor b c))

pub mul_cong : {a b c d : ℕ} → a ≋ b → c ≋ d → a * c ≋ b * d
mul_cong {a = a} {b = b} {c = c} {d = d} p q = transitive (scale_cong c p) (
    transitive (of_≡ {a = b * c} {b = c * b} (omega arith))
      (transitive (scale_cong b q) (of_≡ {a = d * b} {b = b * d} (omega arith))))

pub minus_cong : {a b c d : ℕ} → a ≋ b → c ≋ d → minus a c ≋ minus b d
minus_cong p q = add_cong p (mul_cong (reflexive minus_unit) q)

-- A difference is 0 exactly for equal numbers.
pub minus_zero : (a b : ℕ) → minus a b ≋ 0 → b ≋ a
minus_zero a b p =
    let back : a + b * prime ≡ minus a b + b = omega arith in
    let gone : minus a b + b ≋ b = transitive (add_cong p (reflexive b)) (of_≡ (zero-add b)) in
    symmetric (transitive (multiple a b back) gone)

pub zero_minus : (a b : ℕ) → b ≋ a → minus a b ≋ 0
zero_minus a b p =
    let back : 0 + a * prime ≡ minus a a = omega arith in
    transitive (minus_cong (reflexive a) p) (symmetric (multiple 0 a back))

pub opposite_cong : {a b : ℕ} → a ≋ b → opposite a ≋ opposite b
opposite_cong p = mul_cong (reflexive minus_unit) p

pub opposite_twice : (a : ℕ) → opposite (opposite a) ≋ a
opposite_twice a =
    let back : a + (minus_unit - 1) * a * prime ≡ opposite (opposite a) = omega arith in
    symmetric (multiple a ((minus_unit - 1) * a) back)
