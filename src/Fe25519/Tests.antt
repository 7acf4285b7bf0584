-- ===== src/Fe25519/Tests.antt =====
-- The field of src/libsodium/include/sodium/private/ed25519_ref10_fe_51.h run at inputs, and its
-- theorems at inputs.
use libsodium.Base.{
  ℕ, ◌+◌, ◌-◌, ◌*◌, ◌%◌, ◌^◌, ◌≡◌, refl, sym, arith, true, false, ◌==◌, ◌++◌, [], ◌∷◌, Bytes,
  replicate, le_value, length, IsBytes,
}
use libsodium.Fe25519.{
  Fe25519, fe25519_mul, fe25519_sq2, fe25519_frombytes, fe25519_tobytes, carry_sums, carry_doubled,
  square_sums, sum3, fe25519_reduce, carry_round, carry_last, add_offset,
}
use libsodium.Endian.{store64_le}
use libsodium.Fe25519.Field.{value, residue, prime, IsBelow, IsBelow-by}
use libsodium.Fe25519.Congruence.{◌≋◌, minus_unit, of_≡, transitive}
use libsodium.Fe25519.Represents.{product_bound}
use libsodium.Fe25519.Mul.{fe25519_mul_lem}
use libsodium.Fe25519.Select.{bit}
use libsodium.Fe25519.Encoding.{fe25519_tobytes_lem}
use libsodium.Fe25519.Canonical.{fe25519_tobytes-fe25519_frombytes}
use libsodium.Fe25519.Power.{fe25519_sqrt, fe25519_notsquare}
use libsodium.Fe25519.Power.Laws.{power, power-add, power-square}
use libsodium.Fe25519.Power.Root.{HasRoot, fe25519_sqrt_lem, fe25519_notsquare_lem}

-- The largest limbs of 54 bits.
abbrev full : Fe25519
full = record {
  l0 = 2 ^ 54 - 1;
  l1 = 2 ^ 54 - 1;
  l2 = 2 ^ 54 - 1;
  l3 = 2 ^ 54 - 1;
  l4 = 2 ^ 54 - 1;
}

full-IsBelow : IsBelow (2 ^ 54) full
full-IsBelow = IsBelow-by refl

fe25519_mul_lem_example :
    IsBelow (2 ^ 51 + 1) (fe25519_mul full full)
    × (residue (fe25519_mul full full) ≡ value full * value full % prime)
fe25519_mul_lem_example = fe25519_mul_lem full full full-IsBelow full-IsBelow

-- The doubled sums of limbs of 54 bits do not fit the carry of 64 bits: the square is wrong.
sq2_wraps : (residue (fe25519_sq2 full) == 2 * (value full * value full) % prime) ≡ false
unfolding fe25519_sq2 carry_doubled carry_sums square_sums sum3
sq2_wraps = refl

-- 2^255 - 19 - 1, as limbs and as bytes.
abbrev greatest : Fe25519
greatest = record {
  l0 = 0x7ffffffffffec;
  l1 = 0x7ffffffffffff;
  l2 = 0x7ffffffffffff;
  l3 = 0x7ffffffffffff;
  l4 = 0x7ffffffffffff;
}

abbrev greatest_bytes : Bytes
greatest_bytes = 0xec ∷ replicate 30 0xff ++ 0x7f ∷ []

greatest-IsBelow : IsBelow product_bound greatest
greatest-IsBelow = IsBelow-by refl

fe25519_tobytes_lem_example :
    (le_value (fe25519_tobytes full) ≡ residue full)
    × (length (fe25519_tobytes full) ≡ 32)
    × IsBytes (fe25519_tobytes full)
fe25519_tobytes_lem_example = fe25519_tobytes_lem full (IsBelow-by refl)

fe25519_tobytes-fe25519_frombytes_example :
    fe25519_tobytes (fe25519_frombytes greatest_bytes) ≡ greatest_bytes
fe25519_tobytes-fe25519_frombytes_example =
    fe25519_tobytes-fe25519_frombytes greatest_bytes (omega arith) refl (omega arith)

encoded : fe25519_tobytes greatest ≡ greatest_bytes
unfolding fe25519_tobytes fe25519_reduce carry_round carry_last add_offset store64_le
encoded = refl

-- -1 is a square: its even powers are 1.
even_power : (n : ℕ) → power minus_unit (n + n) ≋ 1
even_power n =
    transitive (of_≡ (sym (power-add minus_unit n n)))
      (power-square minus_unit n (record { same = refl }))

fe25519_sqrt_lem_example : HasRoot greatest (fe25519_sqrt greatest)
fe25519_sqrt_lem_example =
    fe25519_sqrt_lem greatest true greatest-IsBelow
      (transitive (even_power (2 ^ 252 - 2)) (record { same = refl }))

fe25519_notsquare_lem_example : fe25519_notsquare greatest ≡ bit false
fe25519_notsquare_lem_example =
    fe25519_notsquare_lem greatest false greatest-IsBelow (even_power (2 ^ 253 - 5))
