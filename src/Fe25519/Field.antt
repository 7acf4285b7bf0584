-- ===== src/Fe25519/Field.antt =====
-- src/libsodium/include/sodium/private/ed25519_ref10_fe_51.h as arithmetic modulo 2^255 - 19: the
-- number that five limbs stand for, congruence, and the carries.
use native.Mathlib.Nat.{add-mul-mod_self_right}
use libsodium.Base.{
  ℕ, ◌+◌, ◌*◌, ◌/◌, ◌%◌, ◌^◌, ◌<◌, ◌≤◌, bit_and, ◌≡◌, refl, sym, ap, ◌∙◌, arith, u64, ltb, Bool,
  true, ◌&&◌, u128, ◌>>>◌,
}
use libsodium.Bits.And.{bit_and-mask}
use libsodium.Fe25519.{Fe25519, carry_sums, mask51}

-- 2^255 - 19.
abbrev pub prime : ℕ
prime = 0x7fffffffffffffffffffffffffffffffffffffffffffffffffffffffffffffed

abbrev pub value : Fe25519 → ℕ
value f = f.l0 + 2 ^ 51 * f.l1 + 2 ^ 102 * f.l2 + 2 ^ 153 * f.l3 + 2 ^ 204 * f.l4

-- The element of the field that the limbs stand for.
abbrev pub residue : Fe25519 → ℕ
residue f = value f % prime

pub record IsBelow (bound : ℕ) (f : Fe25519) : Type 0 where
  pub below0 : f.l0 < bound
  pub below1 : f.l1 < bound
  pub below2 : f.l2 < bound
  pub below3 : f.l3 < bound
  pub below4 : f.l4 < bound

-- The bound as a test.
abbrev pub is_below : ℕ → Fe25519 → Bool
is_below m f = ltb f.l0 m && ltb f.l1 m && ltb f.l2 m && ltb f.l3 m && ltb f.l4 m

pub IsBelow-by : {m : ℕ} {f : Fe25519} → is_below m f ≡ true → IsBelow m f
IsBelow-by h = record {
  below0 = ground arith;
  below1 = ground arith;
  below2 = ground arith;
  below3 = ground arith;
  below4 = ground arith;
}

pub IsBelow-weaken : {a b : ℕ} (f : Fe25519) → a ≤ b → IsBelow a f → IsBelow b f
IsBelow-weaken f le h = record {
  below0 = omega (arith, h.below0);
  below1 = omega (arith, h.below1);
  below2 = omega (arith, h.below2);
  below3 = omega (arith, h.below3);
  below4 = omega (arith, h.below4);
}

pub bit_and-mask51 : (a : ℕ) → bit_and a mask51 ≡ a % 2 ^ 51
bit_and-mask51 a = bit_and-mask 51 a

pub mod_drop : (a k : ℕ) {b : ℕ} → a + k * prime ≡ b → a % prime ≡ b % prime
mod_drop a k e = sym (add-mul-mod_self_right a k prime) ∙ ap (λ (n : ℕ). n % prime) e

pub fe_≡ :
    {a b : Fe25519} → a.l0 ≡ b.l0 → a.l1 ≡ b.l1 → a.l2 ≡ b.l2 → a.l3 ≡ b.l3 → a.l4 ≡ b.l4 → a ≡ b
fe_≡ p q r s t i = record { l0 = p i; l1 = q i; l2 = r i; l3 = s i; l4 = t i }

module _ (r0 r1 r2 r3 r4 : ℕ) where
  -- The sums with the carries of those below added.
  s1 : ℕ
  s1 = r1 + r0 / 2 ^ 51

  s2 : ℕ
  s2 = r2 + s1 / 2 ^ 51

  s3 : ℕ
  s3 = r3 + s2 / 2 ^ 51

  s4 : ℕ
  s4 = r4 + s3 / 2 ^ 51

  folded : ℕ
  folded = r0 % 2 ^ 51 + 19 * (s4 / 2 ^ 51)

  second : ℕ
  second = s1 % 2 ^ 51 + folded / 2 ^ 51

  carries : Fe25519
  carries = record {
    l0 = folded % 2 ^ 51;
    l1 = second % 2 ^ 51;
    l2 = s2 % 2 ^ 51 + second / 2 ^ 51;
    l3 = s3 % 2 ^ 51;
    l4 = s4 % 2 ^ 51;
  }

  module _ (b0 : r0 < 3 * 2 ^ 113) (b1 : r1 < 2 ^ 114) (b2 : r2 < 2 ^ 114) (b3 : r3 < 2 ^ 114)
      (b4 : r4 ≤ 5 * 2 ^ 108) where
    carry_sums-carries : carry_sums r0 r1 r2 r3 r4 ≡ carries
    unfolding carry_sums carries second folded s4 s3 s2 s1
    carry_sums-carries =
        let e0 : u64 (r0 >>> 51) ≡ r0 / 2 ^ 51 = omega arith in
        let g1 : u128 (r1 + r0 / 2 ^ 51) ≡ s1 = omega arith in
        let e1 : u64 (s1 >>> 51) ≡ s1 / 2 ^ 51 = omega arith in
        let g2 : u128 (r2 + s1 / 2 ^ 51) ≡ s2 = omega arith in
        let e2 : u64 (s2 >>> 51) ≡ s2 / 2 ^ 51 = omega arith in
        let g3 : u128 (r3 + s2 / 2 ^ 51) ≡ s3 = omega arith in
        let e3 : u64 (s3 >>> 51) ≡ s3 / 2 ^ 51 = omega arith in
        let g4 : u128 (r4 + s3 / 2 ^ 51) ≡ s4 = omega arith in
        let e4 : u64 (s4 >>> 51) ≡ s4 / 2 ^ 51 = omega arith in
        let m0 : bit_and (u64 r0) mask51 ≡ r0 % 2 ^ 51 = bit_and-mask51 (u64 r0) ∙ omega arith in
        let m1 : bit_and (u64 s1) mask51 ≡ s1 % 2 ^ 51 = bit_and-mask51 (u64 s1) ∙ omega arith in
        let m2 : bit_and (u64 s2) mask51 ≡ s2 % 2 ^ 51 = bit_and-mask51 (u64 s2) ∙ omega arith in
        let m3 : bit_and (u64 s3) mask51 ≡ s3 % 2 ^ 51 = bit_and-mask51 (u64 s3) ∙ omega arith in
        let m4 : bit_and (u64 s4) mask51 ≡ s4 % 2 ^ 51 = bit_and-mask51 (u64 s4) ∙ omega arith in
        let f0 : u64 (r0 % 2 ^ 51 + u64 (19 * (s4 / 2 ^ 51))) ≡ folded = omega arith in
        let f1 : u64 (s1 % 2 ^ 51 + folded / 2 ^ 51) ≡ second = omega arith in
        let f2 : u64 (s2 % 2 ^ 51 + second / 2 ^ 51) ≡ s2 % 2 ^ 51 + second / 2 ^ 51 =
          omega arith in
        rw
          (
            e0,
            g1,
            e1,
            g2,
            e2,
            g3,
            e3,
            g4,
            e4,
            m0,
            m1,
            m2,
            m3,
            m4,
            f0,
            f1,
            f2,
            bit_and-mask51 folded,
            bit_and-mask51 second,
          )
          refl

    carries-IsBelow : IsBelow (2 ^ 51 + 1) carries
    unfolding carries second folded s4 s3 s2 s1
    carries-IsBelow = record {
      below0 = omega arith;
      below1 = omega arith;
      below2 = omega arith;
      below3 = omega arith;
      below4 = omega arith;
    }

  -- What the carries remove is a multiple of 2^255 - 19.
  carries-value :
      value carries + s4 / 2 ^ 51 * prime
      ≡ r0 + 2 ^ 51 * r1 + 2 ^ 102 * r2 + 2 ^ 153 * r3 + 2 ^ 204 * r4
  unfolding carries second folded s4 s3 s2 s1
  carries-value = omega arith

-- The carries keep the number modulo 2^255 - 19 and leave limbs of 51 bits, the third one perhaps
-- 2^51.
pub carry_sums_lem :
    (r0 r1 r2 r3 r4 : ℕ)
    → r0 < 3 * 2 ^ 113
    → r1 < 2 ^ 114
    → r2 < 2 ^ 114
    → r3 < 2 ^ 114
    → r4 ≤ 5 * 2 ^ 108
    → IsBelow (2 ^ 51 + 1) (carry_sums r0 r1 r2 r3 r4)
      × (residue (carry_sums r0 r1 r2 r3 r4)
          ≡ (r0 + 2 ^ 51 * r1 + 2 ^ 102 * r2 + 2 ^ 153 * r3 + 2 ^ 204 * r4) % prime)
carry_sums_lem r0 r1 r2 r3 r4 b0 b1 b2 b3 b4 =
    let run = carry_sums-carries r0 r1 r2 r3 r4 b0 b1 b2 b3 b4 in
    (
      rw run (carries-IsBelow r0 r1 r2 r3 r4 b0 b1 b2 b3 b4),
      ap (λ (h : Fe25519). residue h) run
          ∙ mod_drop (value (carries r0 r1 r2 r3 r4)) (s4 r0 r1 r2 r3 r4 / 2 ^ 51)
              (carries-value r0 r1 r2 r3 r4),
    )
