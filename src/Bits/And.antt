-- ===== src/Bits/And.antt =====
-- And: with nothing, with all ones, with a mask of low digits, and with the mask that stands
-- below a power of two.
use native.Mathlib.Nat.{mod-eq_of_lt, pow-suc, one-le-pow, mod-one, div-one, div-div-eq-div-mul}
use native.Mathlib.Decide.{ℕ_discrete}
use libsodium.Base.{
  ℕ, zero, suc, ◌+◌, ◌-◌, ◌*◌, ◌/◌, ◌%◌, ◌^◌, ◌<◌, min, bit_and, ◌≡◌, refl, sym, arith, ap, ◌∙◌,
}
use libsodium.Bits.Step.{bit_and_unroll, bit_and-half, halving_pair, mod_double}

pub bit_and_comm : (a b : ℕ) → bit_and a b ≡ bit_and b a
bit_and_comm =
    halving_pair (λ a b. bit_and a b ≡ bit_and b a) refl
      λ a b ih. omega (arith, bit_and_unroll a b, bit_and_unroll b a)

pub bit_and-zero : (a : ℕ) → bit_and a 0 ≡ 0
bit_and-zero a =
    halving_pair (λ x y. bit_and x 0 ≡ 0) refl (λ x y ih. omega (arith, bit_and_unroll x 0)) a 0

pub zero-bit_and : (a : ℕ) → bit_and 0 a ≡ 0
zero-bit_and a = rw bit_and_comm (bit_and-zero a)

pub bit_and_self : (a : ℕ) → bit_and a a ≡ a
bit_and_self a =
    halving_pair (λ x y. bit_and x x ≡ x) refl (λ x y ih. omega (arith, bit_and_unroll x x)) a 0

-- A mask of `k` ones is the remainder by `2 ^ k`.
pub bit_and-mask : (k a : ℕ) → bit_and a (2 ^ k - 1) ≡ a % 2 ^ k
bit_and-mask zero a = rw bit_and-zero (omega arith)
bit_and-mask (suc k) a =
    let half : (2 ^ suc k - 1) / 2 ≡ 2 ^ k - 1 = omega (arith, pow-suc 2 k, one-le-pow k 2) in
    rw
      (
        bit_and_unroll,
        half,
        bit_and-mask k (a / 2),
        pow-suc 2 k,
        mod_double a (2 ^ k) (one-le-pow k 2 (omega arith)),
      )
      (omega (arith, pow-suc 2 k, one-le-pow k 2))

pred_mask_even :
    (a b : ℕ)
    → (0 < b / 2 → bit_and (b / 2) (b / 2 - 1) ≡ 0 → bit_and (a / 2) (b / 2 - 1) ≡ a / 2 % (b / 2))
    → 0 < b
    → b % 2 ≡ 0
    → bit_and b (b - 1) ≡ 0
    → bit_and a (b - 1) ≡ a % b
pred_mask_even a b ih pos even h =
    let half : (b - 1) / 2 ≡ b / 2 - 1 = omega arith in
    let upper : bit_and (b / 2) (b / 2 - 1) ≡ 0 =
      rw (← half) (omega (arith, bit_and_unroll b (b - 1))) in
    let twice : b ≡ b / 2 * 2 = omega arith in
    let split : a % b ≡ a / 2 % (b / 2) * 2 + a % 2 =
      ap (λ (t : ℕ). a % t) twice ∙ mod_double a (b / 2) (omega arith) in
    rw (bit_and_unroll, half, split, ih (omega arith) upper) (omega arith)

pred_mask_odd : (a b : ℕ) → b % 2 ≡ 1 → bit_and b (b - 1) ≡ 0 → bit_and a (b - 1) ≡ a % b
pred_mask_odd a b odd h =
    let half : (b - 1) / 2 ≡ b / 2 = omega arith in
    let upper : bit_and (b / 2) (b / 2) ≡ 0 =
      let low : bit_and (b / 2) ((b - 1) / 2) ≡ 0 = omega (arith, bit_and_unroll b (b - 1)) in
      rw half at low in
    let one : b ≡ 1 = omega (arith, bit_and_self (b / 2)) in rw one (rw bit_and-zero (omega arith))

-- A number that shares no digit with its predecessor is a power of two: `a & (b - 1)` is then the
-- remainder by it.
pub bit_and-pred_mod : (a b : ℕ) → 0 < b → bit_and b (b - 1) ≡ 0 → bit_and a (b - 1) ≡ a % b
bit_and-pred_mod =
    halving_pair (λ a b. 0 < b → bit_and b (b - 1) ≡ 0 → bit_and a (b - 1) ≡ a % b)
      (λ h. absurd (omega arith))
      λ a b ih pos h. elim (ℕ_discrete (b % 2) 0) [
        | yes even ↦ pred_mask_even a b ih pos even h
        | no odd ↦ pred_mask_odd a b (omega arith) h
      ]

-- Shifting right after `&`, and the lowest digit of `&`.
pub bit_and-shift : (k a b : ℕ) → bit_and a b / 2 ^ k ≡ bit_and (a / 2 ^ k) (b / 2 ^ k)
bit_and-shift zero a b = simp div-one
bit_and-shift (suc k) a b =
    rw
      (
        pow-suc 2 k,
        ← div-div-eq-div-mul (bit_and a b) (2 ^ k) 2,
        ← div-div-eq-div-mul a (2 ^ k) 2,
        ← div-div-eq-div-mul b (2 ^ k) 2,
        bit_and-shift k a b,
      )
      (bit_and-half (a / 2 ^ k) (b / 2 ^ k))

pub bit_and-low : (a b : ℕ) → bit_and a b % 2 ≡ min (a % 2) (b % 2)
bit_and-low a b = omega (arith, bit_and_unroll a b)

-- `&` digit by digit below `2 ^ k`.
pub bit_and-mod : (k a b : ℕ) → bit_and a b % 2 ^ k ≡ bit_and (a % 2 ^ k) (b % 2 ^ k)
bit_and-mod zero a b = simp mod-one
bit_and-mod (suc k) a b =
    let pos = one-le-pow k 2 (omega arith) in
    let da = mod_double a (2 ^ k) pos in
    let db = mod_double b (2 ^ k) pos in
    let low : a % (2 ^ k * 2) / 2 ≡ a / 2 % 2 ^ k = omega (arith, da) in
    let low' : b % (2 ^ k * 2) / 2 ≡ b / 2 % 2 ^ k = omega (arith, db) in
    let step = bit_and_unroll (a % (2 ^ k * 2)) (b % (2 ^ k * 2)) in
    rw
      (
        pow-suc 2 k,
        mod_double (bit_and a b) (2 ^ k) pos,
        bit_and-half a b,
        bit_and-mod k (a / 2) (b / 2),
        step,
        low,
        low',
      )
      (omega (arith, bit_and-low a b, da, db))

pub bit_and-lt : (k a b : ℕ) → b < 2 ^ k → bit_and a b < 2 ^ k
bit_and-lt zero a b p =
    let none_left : b ≡ 0 = omega arith in rw (none_left, bit_and-zero a) (omega arith)
bit_and-lt (suc k) a b p = omega (
  arith,
  pow-suc 2 k,
  bit_and_unroll a b,
  bit_and-lt k (a / 2) (b / 2) (omega (arith, pow-suc 2 k)),
)

-- Only the low digits of `a` count where `b` has no others.
pub bit_and-low_digits : (k a b : ℕ) → b < 2 ^ k → bit_and a b ≡ bit_and (a % 2 ^ k) b
bit_and-low_digits k a b p =
    sym (mod-eq_of_lt (bit_and-lt k a b p))
    ∙ (bit_and-mod k a b ∙ ap (bit_and (a % 2 ^ k)) (mod-eq_of_lt p))
