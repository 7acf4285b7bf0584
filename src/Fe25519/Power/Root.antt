-- ===== src/Fe25519/Power/Root.antt =====
-- What `fe25519_pow22523`, `fe25519_notsquare` and `fe25519_sqrt` of
-- src/libsodium/crypto_core/ed25519/ref10/ed25519_ref10.c compute modulo 2^255 - 19.
use libsodium.Base.{
  ℕ, ◌+◌, ◌-◌, ◌*◌, ◌/◌, ◌%◌, ◌^◌, ◌≡◌, refl, sym, ap, ◌∙◌, arith, Bool, true, false, if◌then◌else◌,
  ◌==◌, ==_iff, get_or, Option, some, none, u32, IsBytes, Bytes, [], ◌∷◌, le_value,
}
use mathlib.Core.Bool.{false≢true}
use libsodium.Bits.And.{bit_and-mask}
use libsodium.Fe25519.{Fe25519, fe25519_mul, fe25519_sq, fe25519_sub, fe25519_cmov, fe25519_tobytes}
use libsodium.Fe25519.Field.{prime, value, residue, IsBelow, IsBelow-weaken}
use libsodium.Fe25519.Congruence.{
  ◌≋◌, minus, opposite, of_≡, symmetric, transitive, mul_cong, reflexive, opposite_cong,
  opposite_twice, minus_zero, zero_minus,
}
use libsodium.Fe25519.Represents.{Represents, product_bound, mul_rule, sq_rule, sub_rule}
use libsodium.Fe25519.Select.{bit, fe25519_cmov_lem}
use libsodium.Fe25519.Encoding.{fe25519_tobytes_lem}
use libsodium.Fe25519.Canonical.{fe25519_iszero_lem}
use libsodium.Fe25519.Power.{
  fe25519_sqrtm1, fe25519_pow22523, notsquare_power, fe25519_notsquare, fe25519_unchecked_sqrt,
  fe25519_sqrt,
}
use libsodium.Fe25519.Power.Laws.{
  power, power-add, power-one, HasPower, mul_power, pow22523_chain, notsquare_chain,
}

itself : (x : Fe25519) → IsBelow product_bound x → HasPower (value x) 1 x
itself x h = record { run = record { fits = h; number = of_≡ (sym (power-one (value x))) } }

-- `fe25519_pow22523` writes the power (p - 5) / 8 = 2^252 - 3, in limbs that the next product takes.
pub fe25519_pow22523_lem :
    (z : Fe25519)
    → IsBelow product_bound z
    → Represents product_bound (fe25519_pow22523 z) (power (value z) (2 ^ 252 - 3))
fe25519_pow22523_lem z h = (pow22523_chain (itself z h)).run

second_byte : (s : Bytes) → IsBytes s → get_or s 1 0 % 2 ≡ le_value s / 256 % 2
second_byte [] h = refl
second_byte (x ∷ []) (hx, h) = omega arith
second_byte (x ∷ y ∷ s) (hx, (hy, h)) = omega arith

-- For an element in limbs that a product leaves, `fe25519_notsquare` returns 0 where its power
-- (p - 1) / 2 = 2^254 - 10 is 1, and 1 where that power is -1.
pub fe25519_notsquare_lem :
    (x : Fe25519) (nonsquare : Bool)
    → IsBelow product_bound x
    → power (value x) (2 ^ 254 - 10) ≋ (if nonsquare then prime - 1 else 1)
    → fe25519_notsquare x ≡ bit nonsquare
unfolding fe25519_notsquare
fe25519_notsquare_lem x nonsquare h euler =
    let t = notsquare_power x in
    let run = (notsquare_chain (itself x h)).run in
    let (e, len, bytes) = fe25519_tobytes_lem t (IsBelow-weaken t (omega arith) run.fits) in
    let is = (transitive run.number euler).same in
    bit_and-mask 1 (get_or (fe25519_tobytes t) 1 0)
    ∙ (second_byte (fe25519_tobytes t) bytes
        ∙ (ap (λ (n : ℕ). n / 256 % 2) (e ∙ is) ∙ digit nonsquare))
  where
    digit : (b : Bool) → (if b then prime - 1 else 1) % prime / 256 % 2 ≡ bit b
    digit true = refl
    digit false = refl

module _ (x2 : Fe25519) (h : IsBelow product_bound x2) where
  p_root : Fe25519
  p_root = fe25519_mul (fe25519_pow22523 x2) x2

  m_root : Fe25519
  m_root = fe25519_mul p_root fe25519_sqrtm1

  e : Fe25519
  e = fe25519_sub x2 (fe25519_sq m_root)

  root : Bool → Fe25519
  root d = if d then m_root else p_root

  given : Represents product_bound x2 (value x2)
  given = record { fits = h; number = reflexive (value x2) }

  p_root-power : HasPower (value x2) (2 ^ 252 - 2) p_root
  unfolding p_root
  p_root-power = mul_power (pow22523_chain (itself x2 h)) (itself x2 h)

  sqrtm1-IsBelow : IsBelow product_bound fe25519_sqrtm1
  sqrtm1-IsBelow = record {
    below0 = omega arith;
    below1 = omega arith;
    below2 = omega arith;
    below3 = omega arith;
    below4 = omega arith;
  }

  m_root-number :
      Represents product_bound m_root (power (value x2) (2 ^ 252 - 2) * value fe25519_sqrtm1)
  unfolding m_root
  m_root-number =
      mul_rule (omega arith) (omega arith) p_root-power.run
        (record { fits = sqrtm1-IsBelow; number = reflexive (value fe25519_sqrtm1) })

  e-number : Represents (product_bound + 2 ^ 52) e (minus (value x2) (value m_root * value m_root))
  unfolding e
  e-number = sub_rule (omega arith) (omega arith) given (
      sq_rule (omega arith)
        (record { fits = m_root-number.fits; number = reflexive (value m_root) }))

  root-IsBelow : (d : Bool) → IsBelow product_bound (root d)
  unfolding root
  root-IsBelow true = m_root-number.fits
  root-IsBelow false = p_root-power.run.fits

  -- The square of the first root, and of the second, which is its negative.
  p_square : value p_root * value p_root ≋ power (value x2) (2 ^ 253 - 4)
  p_square =
      transitive (mul_cong p_root-power.run.number p_root-power.run.number)
        (of_≡ (power-add (value x2) (2 ^ 252 - 2) (2 ^ 252 - 2)))

  m_square : value m_root * value m_root ≋ opposite (power (value x2) (2 ^ 253 - 4))
  m_square =
      let n = power (value x2) (2 ^ 252 - 2) in
      let i = value fe25519_sqrtm1 in
      let apart : (n * i) * (n * i) ≡ i * i * (n * n) = omega arith in
      transitive (mul_cong m_root-number.number m_root-number.number) (
        transitive (of_≡ apart) (
          mul_cong (record { same = refl })
            (of_≡ (power-add (value x2) (2 ^ 252 - 2) (2 ^ 252 - 2)))))

  -- The choice by the test for zero takes a root, whichever of the two is one.
  chosen : Bool
  chosen = residue e == 0

  e-zero : value m_root * value m_root ≋ value x2 → residue e ≡ 0
  e-zero is =
      (transitive e-number.number (zero_minus (value x2) (value m_root * value m_root) is)).same

  chosen_root :
      (c d : Bool)
      → power (value x2) (2 ^ 253 - 4) ≋ (if c then opposite (value x2) else value x2)
      → d ≡ chosen
      → value (root d) * value (root d) ≋ value x2
  unfolding root chosen
  chosen_root c true is same =
      let none_left : residue e ≡ 0 = (==_iff (residue e) 0).0 (sym same) in
      minus_zero (value x2) (value m_root * value m_root)
        (transitive (symmetric e-number.number) (record { same = none_left }))
  chosen_root false false is same = transitive p_square is
  chosen_root true false is same =
      let m_is : value m_root * value m_root ≋ value x2 =
        transitive m_square (transitive (opposite_cong is) (opposite_twice (value x2))) in
      absurd (false≢true (same ∙ (==_iff (residue e) 0).1 (e-zero m_is)))

  root-cmov : (d : Bool) → fe25519_cmov p_root m_root (bit d) ≡ root d
  unfolding root
  root-cmov d =
      fe25519_cmov_lem d p_root m_root (IsBelow-weaken p_root (omega arith) p_root-power.run.fits)
        (IsBelow-weaken m_root (omega arith) m_root-number.fits)

  fe25519_unchecked_sqrt-root : fe25519_unchecked_sqrt x2 ≡ some (root chosen)
  unfolding fe25519_unchecked_sqrt p_root m_root e chosen
  fe25519_unchecked_sqrt-root =
      rw (fe25519_iszero_lem e (IsBelow-weaken e (omega arith) e-number.fits), root-cmov chosen)
        refl

  -- What the check subtracts.
  check : Fe25519
  check = fe25519_sub (fe25519_sq (root chosen)) x2

  check-number :
      Represents
        (product_bound + 2 ^ 52)
        check
        (minus (value (root chosen) * value (root chosen)) (value x2))
  unfolding check
  check-number =
      sub_rule (omega arith) (omega arith)
        (sq_rule (omega arith)
          (record { fits = root-IsBelow chosen; number = reflexive (value (root chosen)) }))
        given

  fe25519_sqrt-root :
      fe25519_sqrt x2 ≡ some (if residue check == 0 then 0 else 2 ^ 32 - 1, root chosen)
  unfolding fe25519_sqrt check
  fe25519_sqrt-root =
      rw
        (
          fe25519_unchecked_sqrt-root,
          fe25519_iszero_lem check (IsBelow-weaken check (omega arith) check-number.fits),
        )
        (ap (λ (n : ℕ). some (n, root chosen)) (returned (residue check == 0)))
    where
      returned : (b : Bool) → u32 (bit b + (2 ^ 32 - 1)) ≡ (if b then 0 else 2 ^ 32 - 1)
      returned true = refl
      returned false = refl

-- A run that returns 0 with a root of `x2` in limbs that the next product takes.
pub HasRoot : Fe25519 → Option (ℕ × Fe25519) → Type 0
HasRoot x2 none = ⊥
HasRoot x2 (some (r, x)) = (r ≡ 0) × IsBelow product_bound x × (value x * value x ≋ value x2)

-- For `x2` in limbs that a product leaves, where the power (p - 1) / 4 of `x2`, times `x2`, is `x2`
-- or its negative, `fe25519_sqrt` returns 0 and writes a square root of `x2`.
pub fe25519_sqrt_lem :
    (x2 : Fe25519) (negative_root : Bool)
    → IsBelow product_bound x2
    → power (value x2) (2 ^ 253 - 4) ≋ (if negative_root then opposite (value x2) else value x2)
    → HasRoot x2 (fe25519_sqrt x2)
unfolding HasRoot
fe25519_sqrt_lem x2 negative_root h euler =
    let d = chosen x2 h in
    let r = root x2 h d in
    let is = chosen_root x2 h negative_root d euler refl in
    let passed : residue (check x2 h) ≡ 0 =
      (transitive (check-number x2 h).number
        (zero_minus (value r * value r) (value x2) (symmetric is))).same in
    rw (fe25519_sqrt-root x2 h, passed) (refl, root-IsBelow x2 h d, is)
