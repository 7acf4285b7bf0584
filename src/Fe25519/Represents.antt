-- ===== src/Fe25519/Represents.antt =====
-- Field elements in limbs as numbers modulo 2^255 - 19, with the bound of their limbs: one rule for
-- each operation of src/libsodium/include/sodium/private/ed25519_ref10_fe_51.h, from which the rules
-- of composed operations follow.
use libsodium.Base.{ℕ, ◌+◌, ◌*◌, ◌^◌, ◌≤◌, ◌≡◌, refl, arith, Bool, true, false, if◌then◌else◌}
use libsodium.Fe25519.{
  Fe25519, fe25519_1, fe25519_add, fe25519_sub, fe25519_neg, fe25519_mul, fe25519_sq, fe25519_sq2,
  fe25519_cmov,
}
use libsodium.Fe25519.Field.{prime, value, IsBelow, IsBelow-weaken}
use libsodium.Fe25519.Congruence.{
  ◌≋◌, minus, opposite, of_≡, transitive, multiple, add_cong, mul_cong, minus_cong,
}
use libsodium.Fe25519.Mul.{fe25519_mul_lem}
use libsodium.Fe25519.Square.{fe25519_sq_lem, fe25519_sq2_lem}
use libsodium.Fe25519.Sub.{fe25519_add_lem, fe25519_sub_lem, fe25519_neg_lem}
use libsodium.Fe25519.Select.{bit, fe25519_cmov_lem}

-- `f` stands for the number `a`, in limbs below `bound`.
pub record Represents (bound : ℕ) (f : Fe25519) (a : ℕ) : Type 0 where
  pub fits : IsBelow bound f
  pub number : value f ≋ a

-- What the products leave.
abbrev pub product_bound : ℕ
product_bound = 2 ^ 51 + 1

pub weaken : {m n : ℕ} {f : Fe25519} {a : ℕ} → m ≤ n → Represents m f a → Represents n f a
weaken {f = f} le p = record { fits = IsBelow-weaken f le p.fits; number = p.number }

pub change : {m : ℕ} {f : Fe25519} {a b : ℕ} → a ≋ b → Represents m f a → Represents m f b
change e p = record { fits = p.fits; number = transitive p.number e }

pub mul_rule :
    {m n : ℕ} {f g : Fe25519} {a b : ℕ}
    → m ≤ 2 ^ 54
    → n ≤ 2 ^ 54
    → Represents m f a
    → Represents n g b
    → Represents product_bound (fe25519_mul f g) (a * b)
mul_rule {f = f} {g = g} le le' p q =
    let (below, same) =
      fe25519_mul_lem f g (IsBelow-weaken f le p.fits) (IsBelow-weaken g le' q.fits) in
    record {
      fits = below;
      number = transitive (record { same = same }) (mul_cong p.number q.number);
    }

pub sq_rule :
    {m : ℕ} {f : Fe25519} {a : ℕ}
    → m ≤ 2 ^ 54
    → Represents m f a
    → Represents product_bound (fe25519_sq f) (a * a)
sq_rule {f = f} le p =
    let (below, same) = fe25519_sq_lem f (IsBelow-weaken f le p.fits) in
    record {
      fits = below;
      number = transitive (record { same = same }) (mul_cong p.number p.number);
    }

pub sq2_rule :
    {m : ℕ} {f : Fe25519} {a : ℕ}
    → m ≤ 2 ^ 53
    → Represents m f a
    → Represents product_bound (fe25519_sq2 f) (2 * (a * a))
sq2_rule {f = f} le p =
    let (below, same) = fe25519_sq2_lem f (IsBelow-weaken f le p.fits) in
    record {
      fits = below;
      number =
          transitive (record { same = same })
            (mul_cong (of_≡ {a = 2} refl) (mul_cong p.number p.number));
    }

pub add_rule :
    {m n : ℕ} {f g : Fe25519} {a b : ℕ}
    → m + n ≤ 2 ^ 64
    → Represents m f a
    → Represents n g b
    → Represents (m + n) (fe25519_add f g) (a + b)
add_rule {m = m} {n = n} {f = f} {g = g} le p q =
    let (below, same) = fe25519_add_lem m n f g le p.fits q.fits in
    record { fits = below; number = transitive (of_≡ same) (add_cong p.number q.number) }

pub sub_rule :
    {m n : ℕ} {f g : Fe25519} {a b : ℕ}
    → m ≤ 2 ^ 63
    → n ≤ 2 ^ 54
    → Represents m f a
    → Represents n g b
    → Represents (m + 2 ^ 52) (fe25519_sub f g) (minus a b)
sub_rule {m = m} {f = f} {g = g} le le' p q =
    let (below, same) = fe25519_sub_lem m f g le p.fits (IsBelow-weaken g le' q.fits) in
    let h = value (fe25519_sub f g) in
    let back : h + value g * prime ≡ minus (h + value g) (value g) = omega arith in
    record {
      fits = below;
      number =
          transitive (multiple h (value g) back)
            (minus_cong (transitive (record { same = same }) p.number) q.number);
    }

pub neg_rule :
    {m : ℕ} {f : Fe25519} {a : ℕ}
    → m ≤ 2 ^ 54
    → Represents m f a
    → Represents (2 ^ 52 + 1) (fe25519_neg f) (opposite a)
neg_rule {f = f} {a = a} le p =
    let (below, same) = fe25519_neg_lem f (IsBelow-weaken f le p.fits) in
    let h = value (fe25519_neg f) in
    let back : h + value f * prime ≡ minus (h + value f) (value f) = omega arith in
    record {
      fits = below;
      number = transitive (multiple h (value f) back) (
          transitive (minus_cong (transitive (record { same = same }) (of_≡ {a = 0} refl)) p.number)
            (of_≡ {a = minus 0 a} {b = opposite a} (omega arith)));
    }

-- Either operand, chosen by a bit.
pub cmov_rule :
    (c : Bool) {m n : ℕ} {f g : Fe25519} {a b : ℕ}
    → m ≤ 2 ^ 64
    → n ≤ m
    → Represents m f a
    → Represents n g b
    → Represents m (fe25519_cmov f g (bit c)) (if c then b else a)
cmov_rule c {m = m} {f = f} {g = g} {a = a} {b = b} le le' p q =
    rw
      (fe25519_cmov_lem c f g (IsBelow-weaken f le p.fits)
        (IsBelow-weaken g (omega (arith, le, le')) q.fits))
      (either c)
  where
    either : (c : Bool) → Represents m (if c then g else f) (if c then b else a)
    either true = weaken le' q
    either false = p

-- The constants.
pub one_rule : Represents 2 fe25519_1 1
one_rule = record {
  fits = record {
    below0 = omega arith;
    below1 = omega arith;
    below2 = omega arith;
    below3 = omega arith;
    below4 = omega arith;
  };
  number = of_≡ refl;
}
