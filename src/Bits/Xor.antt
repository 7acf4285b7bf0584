-- ===== src/Bits/Xor.antt =====
-- Exclusive or: a commutative group in which every number is its own inverse, and its bound.
use native.Mathlib.Nat.{pow-suc, one-le-pow, mod-one, div-one, div-div-eq-div-mul}
use libsodium.Base.{ℕ, zero, suc, ◌*◌, ◌%◌, ◌/◌, ◌^◌, ◌<◌, bit_xor, ◌≡◌, refl, arith, ap}
use libsodium.Bits.Step.{bit_xor_unroll, bit_xor-half, halving_pair, halving_triple, mod_double}

pub bit_xor_comm : (a b : ℕ) → bit_xor a b ≡ bit_xor b a
bit_xor_comm =
    halving_pair (λ a b. bit_xor a b ≡ bit_xor b a) refl
      λ a b ih. omega (arith, bit_xor_unroll a b, bit_xor_unroll b a)

pub bit_xor_assoc : (a b c : ℕ) → bit_xor (bit_xor a b) c ≡ bit_xor a (bit_xor b c)
bit_xor_assoc =
    halving_triple (λ a b c. bit_xor (bit_xor a b) c ≡ bit_xor a (bit_xor b c)) refl
      λ a b c ih. omega (
        arith,
        bit_xor_unroll (bit_xor a b) c,
        bit_xor_unroll a (bit_xor b c),
        ap (λ (t : ℕ). bit_xor t (c / 2)) (bit_xor-half a b),
        ap (λ (t : ℕ). bit_xor (a / 2) t) (bit_xor-half b c),
        bit_xor_unroll a b,
        bit_xor_unroll b c,
      )

pub zero-bit_xor : (a : ℕ) → bit_xor 0 a ≡ a
zero-bit_xor a =
    halving_pair (λ x y. bit_xor 0 x ≡ x) refl (λ x y ih. omega (arith, bit_xor_unroll 0 x)) a 0

pub bit_xor-zero : (a : ℕ) → bit_xor a 0 ≡ a
bit_xor-zero a = rw bit_xor_comm (zero-bit_xor a)

pub bit_xor_self : (a : ℕ) → bit_xor a a ≡ 0
bit_xor_self a =
    halving_pair (λ x y. bit_xor x x ≡ 0) refl (λ x y ih. omega (arith, bit_xor_unroll x x)) a 0

-- `(a ^ b) ^ b` is `a`.
pub bit_xor_cancel : (a b : ℕ) → bit_xor (bit_xor a b) b ≡ a
bit_xor_cancel a b = rw (bit_xor_assoc, bit_xor_self) (bit_xor-zero a)

pub bit_xor-eq-zero : (a b : ℕ) → bit_xor a b ≡ 0 → a ≡ b
bit_xor-eq-zero =
    halving_pair (λ a b. bit_xor a b ≡ 0 → a ≡ b) (λ h. refl)
      λ a b ih h. omega (arith, bit_xor_unroll a b, ih (omega (arith, bit_xor_unroll a b)))

pub bit_xor-lt : (k a b : ℕ) → a < 2 ^ k → b < 2 ^ k → bit_xor a b < 2 ^ k
bit_xor-lt zero zero zero p q = omega arith
bit_xor-lt zero zero (suc b) p q = absurd (omega arith)
bit_xor-lt zero (suc a) b p q = absurd (omega arith)
bit_xor-lt (suc k) a b p q = omega (
  arith,
  pow-suc 2 k,
  bit_xor_unroll a b,
  bit_xor-lt k (a / 2) (b / 2) (omega (arith, pow-suc 2 k)) (omega (arith, pow-suc 2 k)),
)

pub bit_xor-shift : (k a b : ℕ) → bit_xor a b / 2 ^ k ≡ bit_xor (a / 2 ^ k) (b / 2 ^ k)
bit_xor-shift zero a b = simp div-one
bit_xor-shift (suc k) a b =
    rw
      (
        pow-suc 2 k,
        ← div-div-eq-div-mul (bit_xor a b) (2 ^ k) 2,
        ← div-div-eq-div-mul a (2 ^ k) 2,
        ← div-div-eq-div-mul b (2 ^ k) 2,
        bit_xor-shift k a b,
      )
      (bit_xor-half (a / 2 ^ k) (b / 2 ^ k))

-- `^` digit by digit below `2 ^ k`.
pub bit_xor-mod : (k a b : ℕ) → bit_xor a b % 2 ^ k ≡ bit_xor (a % 2 ^ k) (b % 2 ^ k)
bit_xor-mod zero a b = simp mod-one
bit_xor-mod (suc k) a b =
    let pos = one-le-pow k 2 (omega arith) in
    let da = mod_double a (2 ^ k) pos in
    let db = mod_double b (2 ^ k) pos in
    let low : a % (2 ^ k * 2) / 2 ≡ a / 2 % 2 ^ k = omega (arith, da) in
    let low' : b % (2 ^ k * 2) / 2 ≡ b / 2 % 2 ^ k = omega (arith, db) in
    let step = bit_xor_unroll (a % (2 ^ k * 2)) (b % (2 ^ k * 2)) in
    rw
      (
        pow-suc 2 k,
        mod_double (bit_xor a b) (2 ^ k) pos,
        bit_xor-half a b,
        bit_xor-mod k (a / 2) (b / 2),
        step,
        low,
        low',
      )
      (omega (arith, bit_xor_unroll a b, da, db))
