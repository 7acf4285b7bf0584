-- ===== src/Ge25519/Scalarmult/Digits.antt =====
-- The signed digits of `ge25519_scalarmult` in
-- src/libsodium/crypto_core/ed25519/ref10/ed25519_ref10.c.
use libsodium.Base.{
  ℕ, ◌+◌, ◌-◌, ◌*◌, ◌^◌, ◌<◌, ◌≤◌, ◌≡◌, refl, arith, List, [], ◌∷◌, Bytes, length, IsBytes, u8,
  ◌>>>◌, le_value,
}
use native.Mathlib.Decide.{dec_lt}
use native.Mathlib.Nat.{pow-suc}
use mathlib.Core.Path.{subst}
use libsodium.Bits.And.{bit_and-mask}
use libsodium.Ge25519.Scalarmult.{nibbles, carry_digits}

-- A digit of a number: what it adds to 16 times the rest, or takes away from it.
pub data IsDigit (e n rest : ℕ) : Type 0 where
  added : e ≤ 8 → n ≡ 16 * rest + e → IsDigit e n rest
  taken : (k : ℕ) → k ≤ 8 → 1 ≤ k → e ≡ 256 - k → n + k ≡ 16 * rest → IsDigit e n rest

pub data AreDigits : List ℕ → ℕ → Type 0 where
  none_left : AreDigits [] 0
  digit :
      (e : ℕ) (es : List ℕ) (n rest : ℕ)
      → IsDigit e n rest
      → AreDigits es rest
      → AreDigits (e ∷ es) n

-- The number of unsigned digits, the lowest first, and their bounds: the last one is below 8.
nibble_value : List ℕ → ℕ
nibble_value [] = 0
nibble_value (x ∷ xs) = x + 16 * nibble_value xs

nibble_value-nibbles : (a : Bytes) → IsBytes a → nibble_value (nibbles a) ≡ le_value a
unfolding nibble_value nibbles
nibble_value-nibbles [] h = refl
nibble_value-nibbles (x ∷ a) (hx, h) =
    omega (arith, nibble_value-nibbles a h, bit_and-mask 4 x, bit_and-mask 4 (x >>> 4))

AreNibbles : List ℕ → Type 0
AreNibbles [] = ⊥
AreNibbles (x ∷ []) = x < 8
AreNibbles (x ∷ y ∷ xs) = (x < 16) × AreNibbles (y ∷ xs)

nibbles-AreNibbles :
    (x : ℕ) (a : Bytes)
    → IsBytes (x ∷ a)
    → le_value (x ∷ a) < 128 * 256 ^ length a
    → AreNibbles (nibbles (x ∷ a))
unfolding nibbles AreNibbles
nibbles-AreNibbles x [] h small =
    (omega (arith, bit_and-mask 4 x), omega (arith, bit_and-mask 4 (x >>> 4), small))
nibbles-AreNibbles x (y ∷ a) (hx, h) small =
    let rest = 256 ^ length a in
    (
      omega (arith, bit_and-mask 4 x),
      (
        omega (arith, bit_and-mask 4 (x >>> 4)),
        nibbles-AreNibbles y a h (omega (arith, small, pow-suc 256 (length a))),
      ),
    )

-- A digit that keeps its place, and one that is lowered by 16 and hands a carry on.
lowered :
    (x c : ℕ)
    → x < 16
    → c ≤ 1
    → (u8 (u8 (x + c) + 8) >>> 4 ≤ 1)
      × ((m : ℕ)
          → IsDigit
              (u8 (u8 (x + c) + (256 - (u8 (u8 (x + c) + 8) >>> 4) * 16)))
              (c + (x + 16 * m))
              ((u8 (u8 (x + c) + 8) >>> 4) + m))
lowered x c small one = (omega arith, λ m. split m (dec_lt (x + c) 8))
  where
    split :
        (m : ℕ)
        → Dec (x + c < 8)
        → IsDigit
            (u8 (u8 (x + c) + (256 - (u8 (u8 (x + c) + 8) >>> 4) * 16)))
            (c + (x + 16 * m))
            ((u8 (u8 (x + c) + 8) >>> 4) + m)
    split m (yes low) = added (omega arith) (omega arith)
    split m (no high) = full_or_less (dec_lt (x + c) 16)
      where
        full_or_less :
            Dec (x + c < 16)
            → IsDigit
                (u8 (u8 (x + c) + (256 - (u8 (u8 (x + c) + 8) >>> 4) * 16)))
                (c + (x + 16 * m))
                ((u8 (u8 (x + c) + 8) >>> 4) + m)
        full_or_less (yes below) =
            taken (16 - (x + c)) (omega arith) (omega arith) (omega arith) (omega arith)
        full_or_less (no full) = added (omega arith) (omega arith)

-- Lowering the digits keeps the number, with the carry in.
carry_digits-AreDigits :
    (xs : List ℕ) (c : ℕ)
    → c ≤ 1
    → AreNibbles xs
    → AreDigits (carry_digits c xs) (c + nibble_value xs)
unfolding carry_digits nibble_value AreNibbles
carry_digits-AreDigits [] c small h = absurd h
carry_digits-AreDigits (x ∷ []) c small h =
    digit (u8 (x + c)) [] (c + (x + 16 * 0)) 0 (added (omega arith) (omega arith)) none_left
carry_digits-AreDigits (x ∷ y ∷ xs) c small (hx, h) =
    let (one, step) = lowered x c hx small in
    let c' = u8 (u8 (x + c) + 8) >>> 4 in
    digit (u8 (u8 (x + c) + (256 - c' * 16))) (carry_digits c' (y ∷ xs))
      (c + (x + 16 * nibble_value (y ∷ xs))) (c' + nibble_value (y ∷ xs))
      (step (nibble_value (y ∷ xs))) (carry_digits-AreDigits (y ∷ xs) c' one h)

-- The digits of a scalar of 255 bits.
pub scalar-AreDigits :
    (x : ℕ) (a : Bytes)
    → IsBytes (x ∷ a)
    → le_value (x ∷ a) < 128 * 256 ^ length a
    → AreDigits (carry_digits 0 (nibbles (x ∷ a))) (le_value (x ∷ a))
scalar-AreDigits x a h small =
    subst (λ (n : ℕ). AreDigits (carry_digits 0 (nibbles (x ∷ a))) n)
      (omega (arith, nibble_value-nibbles (x ∷ a) h))
      (carry_digits-AreDigits (nibbles (x ∷ a)) 0 (omega arith) (nibbles-AreNibbles x a h small))
