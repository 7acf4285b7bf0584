-- ===== src/Fe25519/Canonical.antt =====
-- `fe25519_tobytes` as the canonical form of a field element, and the tests
-- `fe25519_isnegative` and `fe25519_iszero` that read it.

use libsodium.Base.{
  ℕ, zero, suc, ◌%◌, ◌^◌, ◌<◌, ◌≡◌, ◌≢◌, ◌↔◌, inl, inr, refl, sym, ap, ap₂, ◌∙◌, arith, Bytes, [],
  ◌∷◌, IsBytes, le_value, length, take, take_all, replicate, length-replicate, pos→==0, get_or,
  if◌then◌else◌, ◌==◌, some,
}
use libsodium.Bits.And.{bit_and-mask}
use libsodium.Utils.Compare.Memcmp.{sodium_is_zero_lem, replicate-IsBytes}
use libsodium.Fe25519.{
  Fe25519, fe25519_frombytes, fe25519_tobytes, fe25519_isnegative, fe25519_iszero,
}
use libsodium.Fe25519.Field.{prime, value, residue, IsBelow, IsBelow-weaken}
use libsodium.Fe25519.Encoding.{fe25519_frombytes_lem, fe25519_tobytes_lem}

-- Strings of one length are told apart by their numbers.
le_value-injective :
    (a b : Bytes) → IsBytes a → IsBytes b → length a ≡ length b → le_value a ≡ le_value b → a ≡ b
le_value-injective [] [] ha hb same e = refl
le_value-injective [] (y ∷ b) ha hb same e = absurd (omega arith)
le_value-injective (x ∷ a) [] ha hb same e = absurd (omega arith)
le_value-injective (x ∷ a) (y ∷ b) (hx, ha) (hy, hb) same e =
    ap₂ (λ (z : ℕ) (c : Bytes). z ∷ c) (omega arith)
      (le_value-injective a b ha hb (omega arith) (omega arith))

residue-lt : (f : Fe25519) → residue f < prime
residue-lt f = omega arith

-- Two field elements are equal exactly where their encodings are.
pub fe25519_tobytes_iff :
    (f g : Fe25519)
    → IsBelow (2 ^ 64) f
    → IsBelow (2 ^ 64) g
    → (fe25519_tobytes f ≡ fe25519_tobytes g) ↔ (residue f ≡ residue g)
fe25519_tobytes_iff f g hf hg =
    let (ef, lf, bf) = fe25519_tobytes_lem f hf in
    let (eg, lg, bg) = fe25519_tobytes_lem g hg in
    (
      λ e. sym ef ∙ (ap (λ (s : Bytes). le_value s) e ∙ eg),
      λ e.
          le_value-injective (fe25519_tobytes f) (fe25519_tobytes g) bf bg (lf ∙ sym lg)
            (ef ∙ (e ∙ sym eg)),
    )

-- Decoding an encoding gives the same field element.
pub fe25519_frombytes-fe25519_tobytes :
    (f : Fe25519) → IsBelow (2 ^ 64) f → value (fe25519_frombytes (fe25519_tobytes f)) ≡ residue f
fe25519_frombytes-fe25519_tobytes f h =
    let (e, len, bytes) = fe25519_tobytes_lem f h in
    let (below, number) = fe25519_frombytes_lem (fe25519_tobytes f) bytes in
    number ∙ omega (arith, e, residue-lt f)

-- Encoding what was decoded from 32 bytes, the digits of a number below 2^255 - 19, gives the bytes
-- back.
pub fe25519_tobytes-fe25519_frombytes :
    (s : Bytes)
    → IsBytes s
    → length s ≡ 32
    → le_value s < prime
    → fe25519_tobytes (fe25519_frombytes s) ≡ s
fe25519_tobytes-fe25519_frombytes s h len small =
    let f = fe25519_frombytes s in
    let (below, number) = fe25519_frombytes_lem s h in
    let (e, flen, bytes) = fe25519_tobytes_lem f (IsBelow-weaken f (omega arith) below) in
    le_value-injective (fe25519_tobytes f) s bytes h (flen ∙ sym len)
      (omega (arith, e, number, small))

-- The sign of a field element is the parity of its remainder.
first_byte : (s : Bytes) → IsBytes s → get_or s 0 0 % 2 ≡ le_value s % 2
first_byte [] h = refl
first_byte (x ∷ s) (hx, h) = omega arith

pub fe25519_isnegative_lem :
    (f : Fe25519) → IsBelow (2 ^ 64) f → fe25519_isnegative f ≡ residue f % 2
unfolding fe25519_isnegative
fe25519_isnegative_lem f h =
    let s = fe25519_tobytes f in
    let (e, len, bytes) = fe25519_tobytes_lem f h in
    bit_and-mask 1 (get_or s 0 0) ∙ (first_byte s bytes ∙ ap (λ (n : ℕ). n % 2) e)

le_value-zeros : (n : ℕ) → le_value (replicate n 0) ≡ 0
le_value-zeros zero = refl
le_value-zeros (suc n) = omega (arith, le_value-zeros n)

-- `fe25519_iszero` never fails, and tells whether the remainder by 2^255 - 19 is 0.
pub fe25519_iszero_lem :
    (f : Fe25519) → IsBelow (2 ^ 64) f → fe25519_iszero f ≡ some (if residue f == 0 then 1 else 0)
unfolding fe25519_iszero
fe25519_iszero_lem f h =
    let s = fe25519_tobytes f in
    let (e, len, bytes) = fe25519_tobytes_lem f h in
    let whole : take 32 s ≡ s = take_all 32 s (omega (arith, len)) in
    elim (sodium_is_zero_lem s 32 bytes (omega (arith, len))) [
      | inl (all, run) ↦
          let none_set : residue f ≡ 0 =
            sym e ∙ (ap (λ (t : Bytes). le_value t) (sym whole ∙ all) ∙ le_value-zeros 32) in
          rw (run, none_set) refl
      | inr (some_set, run) ↦
          rw (run, pos→==0 (residue f) (positive s (residue f) whole bytes len e some_set)) refl
    ]
  where
    positive :
        (s : Bytes) (r : ℕ)
        → take 32 s ≡ s
        → IsBytes s
        → length s ≡ 32
        → le_value s ≡ r
        → take 32 s ≢ replicate 32 0
        → 0 < r
    positive s zero whole bytes len e some_set = absurd (
        some_set (
          whole
          ∙ le_value-injective s (replicate 32 0) bytes (replicate-IsBytes 32)
              (len ∙ sym (length-replicate {A = ℕ} 32 0)) (e ∙ sym (le_value-zeros 32))))
    positive s (suc r) whole bytes len e some_set = omega arith
