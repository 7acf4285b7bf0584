-- ===== src/Bits/Step.antt =====
-- One equation for the lowest binary digit of each operation, with no fuel.
use Prim.Native.Nat.{digits, differ, bit_and-bitwise, bit_or-bitwise, bit_xor-bitwise}
use native.Mathlib.Decide.{ℕ_discrete}
use libsodium.Base.{
  arith, refl, ap, ◌≡◌, ◌∙◌, bit_and, bit_or, bit_xor, ℕ, zero, suc, min, max, ◌*◌, ◌+◌, ◌%◌, ◌/◌,
  ◌<◌, ◌≤◌,
}

-- A digit count of one more than enough, and then any that is enough, changes nothing.
module _ (last : ℕ → ℕ) (digit : ℕ → ℕ → ℕ) where
  one_more :
      (count a b : ℕ) → a ≤ count → digits last digit (suc count) a b ≡ digits last digit count a b
  one_more zero zero b enough = refl
  one_more (suc count) zero b enough = refl
  one_more zero (suc a) b enough = elim enough [ ]
  one_more (suc count) (suc a) b enough =
      ap (λ (t : ℕ). t * 2 + digit (suc a % 2) (b % 2))
        (one_more count (suc a / 2) (b / 2) (omega arith))

  trimmed : (count a b : ℕ) → a ≤ count → digits last digit count a b ≡ digits last digit a a b
  trimmed zero a b enough = let e : a ≡ 0 = omega arith in rw e
  trimmed (suc count) a b enough = elim (ℕ_discrete a (suc count)) [
    | yes e ↦ rw e
    | no ne ↦ one_more count a b (omega arith) ∙ trimmed count a b (omega arith)
  ]

  by_halves :
      (a b : ℕ)
      → digits last digit (suc a) (suc a) b
        ≡ digits last digit (suc a / 2) (suc a / 2) (b / 2) * 2 + digit (suc a % 2) (b % 2)
  by_halves a b =
      ap (λ (t : ℕ). t * 2 + digit (suc a % 2) (b % 2))
        (trimmed a (suc a / 2) (b / 2) (omega arith))

pub bit_and_unroll : (x y : ℕ) → bit_and x y ≡ bit_and (x / 2) (y / 2) * 2 + min (x % 2) (y % 2)
bit_and_unroll zero y = simp bit_and-bitwise omega arith
bit_and_unroll (suc x) y = simp bit_and-bitwise (by_halves (λ rest. 0) min x y)

pub bit_or_unroll : (x y : ℕ) → bit_or x y ≡ bit_or (x / 2) (y / 2) * 2 + max (x % 2) (y % 2)
bit_or_unroll zero y = simp bit_or-bitwise omega arith
bit_or_unroll (suc x) y = simp bit_or-bitwise (by_halves (λ rest. rest) max x y)

differ_digits : (x y : ℕ) → x < 2 → y < 2 → differ x y ≡ (x + y) % 2
differ_digits zero y p q = omega arith
differ_digits (suc zero) zero p q = refl
differ_digits (suc zero) (suc zero) p q = refl
differ_digits (suc zero) (suc (suc y)) p q = absurd (omega arith)
differ_digits (suc (suc x)) y p q = absurd (omega arith)

pub bit_xor_unroll : (a b : ℕ) → bit_xor a b ≡ bit_xor (a / 2) (b / 2) * 2 + (a % 2 + b % 2) % 2
bit_xor_unroll zero b = simp bit_xor-bitwise (omega arith)
bit_xor_unroll (suc a) b =
    rw (← differ_digits (suc a % 2) (b % 2) (omega arith) (omega arith))
      (simp bit_xor-bitwise (by_halves (λ y. y) differ a b))

-- The same equations as one for the upper digits and one for the lowest.
pub bit_and-half : (a b : ℕ) → bit_and a b / 2 ≡ bit_and (a / 2) (b / 2)
bit_and-half a b = omega (arith, bit_and_unroll a b)

pub bit_xor-half : (a b : ℕ) → bit_xor a b / 2 ≡ bit_xor (a / 2) (b / 2)
bit_xor-half a b = omega (arith, bit_xor_unroll a b)

-- Induction that halves two or three numbers until all are 0.
module _ {ℓ} (P : ℕ → ℕ → Type ℓ) (base : P 0 0)
    (double : (a b : ℕ) → P (a / 2) (b / 2) → P a b) where
  halving_below : (k a b : ℕ) → a < k → b < k → P a b
  halving_below zero a b p q = absurd (omega arith)
  halving_below (suc zero) zero zero p q = base
  halving_below (suc zero) zero (suc b) p q = absurd (omega arith)
  halving_below (suc zero) (suc a) b p q = absurd (omega arith)
  halving_below (suc (suc k)) a b p q =
      double a b (halving_below (suc k) (a / 2) (b / 2) (omega arith) (omega arith))

  pub halving_pair : (a b : ℕ) → P a b
  halving_pair a b = halving_below (suc (a + b)) a b (omega arith) (omega arith)

module _ {ℓ} (P : ℕ → ℕ → ℕ → Type ℓ) (base : P 0 0 0)
    (double : (a b c : ℕ) → P (a / 2) (b / 2) (c / 2) → P a b c) where
  triple_below : (k a b c : ℕ) → a < k → b < k → c < k → P a b c
  triple_below zero a b c p q r = absurd (omega arith)
  triple_below (suc zero) zero zero zero p q r = base
  triple_below (suc zero) zero zero (suc c) p q r = absurd (omega arith)
  triple_below (suc zero) zero (suc b) c p q r = absurd (omega arith)
  triple_below (suc zero) (suc a) b c p q r = absurd (omega arith)
  triple_below (suc (suc k)) a b c p q r =
      double a b c
        (triple_below (suc k) (a / 2) (b / 2) (c / 2) (omega arith) (omega arith) (omega arith))

  pub halving_triple : (a b c : ℕ) → P a b c
  halving_triple a b c =
      triple_below (suc (a + b + c)) a b c (omega arith) (omega arith) (omega arith)

-- The remainder by twice a number, from the halves.
pub mod_double : (a m : ℕ) → 0 < m → a % (m * 2) ≡ a / 2 % m * 2 + a % 2
mod_double a m h = grind arith
