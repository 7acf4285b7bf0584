-- ===== src/Bits/Or.antt =====
-- Inclusive or: its unit, when it is zero, its bound, and disjoint fields as a sum.
use native.Mathlib.Nat.{pow-suc}
use libsodium.Base.{ℕ, zero, suc, ◌+◌, ◌*◌, ◌/◌, ◌^◌, ◌<◌, bit_or, ◌≡◌, refl, arith, ap, ◌<<<◌}
use libsodium.Bits.Step.{bit_or_unroll, halving_pair}

pub bit_or_comm : (a b : ℕ) → bit_or a b ≡ bit_or b a
bit_or_comm =
    halving_pair (λ a b. bit_or a b ≡ bit_or b a) refl
      λ a b ih. omega (arith, bit_or_unroll a b, bit_or_unroll b a)

pub bit_or-zero : (a : ℕ) → bit_or a 0 ≡ a
bit_or-zero a =
    halving_pair (λ x y. bit_or x 0 ≡ x) refl (λ x y ih. omega (arith, bit_or_unroll x 0)) a 0

pub zero-bit_or : (a : ℕ) → bit_or 0 a ≡ a
zero-bit_or a = rw bit_or_comm (bit_or-zero a)

pub bit_or-eq-zero : (a b : ℕ) → bit_or a b ≡ 0 → (a ≡ 0) × (b ≡ 0)
bit_or-eq-zero =
    halving_pair (λ a b. bit_or a b ≡ 0 → (a ≡ 0) × (b ≡ 0)) (λ h. (refl, refl))
      λ a b ih h. (
        omega (arith, bit_or_unroll a b, ih (omega (arith, bit_or_unroll a b))),
        omega (arith, bit_or_unroll a b, ih (omega (arith, bit_or_unroll a b))),
      )

pub bit_or-lt : (k a b : ℕ) → a < 2 ^ k → b < 2 ^ k → bit_or a b < 2 ^ k
bit_or-lt zero zero zero p q = omega arith
bit_or-lt zero zero (suc b) p q = absurd (omega arith)
bit_or-lt zero (suc a) b p q = absurd (omega arith)
bit_or-lt (suc k) a b p q = omega (
  arith,
  pow-suc 2 k,
  bit_or_unroll a b,
  bit_or-lt k (a / 2) (b / 2) (omega (arith, pow-suc 2 k)) (omega (arith, pow-suc 2 k)),
)

doubled : (high width : ℕ) → high * 2 ^ suc width ≡ 2 * (high * 2 ^ width)
doubled high width = omega (arith, ap (λ (t : ℕ). high * t) (pow-suc 2 width))

-- Two fields of a word that do not overlap are put together by a sum.
pub bit_or-field :
    (width high low : ℕ) → low < 2 ^ width → bit_or (high <<< width) low ≡ high * 2 ^ width + low
bit_or-field zero high low fits =
    let none_left : low ≡ 0 = omega arith in rw (none_left, bit_or-zero) (omega arith)
bit_or-field (suc width) high low fits =
    let half : high * 2 ^ suc width / 2 ≡ high * 2 ^ width = omega (arith, doubled high width) in
    let rest = bit_or-field width high (low / 2) (omega (arith, pow-suc 2 width)) in
    rw (bit_or_unroll (high * 2 ^ suc width) low, half, rest) (omega (arith, doubled high width))
