-- ===== src/Fe25519/Sub.antt =====
-- `fe25519_add`, `fe25519_sub` and `fe25519_neg` of
-- src/libsodium/include/sodium/private/ed25519_ref10_fe_51.h modulo 2^255 - 19.
use native.Mathlib.Nat.{add-mul-mod_self_right}
use libsodium.Base.{
  ℕ, ◌+◌, ◌-◌, ◌*◌, ◌/◌, ◌%◌, ◌^◌, ◌<◌, ◌≤◌, ◌≡◌, refl, ap, ◌∙◌, arith, u64, sub64,
}
use libsodium.Fe25519.{Fe25519, fe25519_0, fe25519_add, fe25519_sub, fe25519_neg}
use libsodium.Fe25519.Field.{prime, value, residue, IsBelow, bit_and-mask51}

-- The limbs of a sum stay below the sum of the bounds, and no limb wraps.
pub fe25519_add_lem :
    (m n : ℕ) (f g : Fe25519)
    → m + n ≤ 2 ^ 64
    → IsBelow m f
    → IsBelow n g
    → IsBelow (m + n) (fe25519_add f g) × (value (fe25519_add f g) ≡ value f + value g)
unfolding fe25519_add
fe25519_add_lem m n f g small hf hg =
    let e0 : u64 (f.l0 + g.l0) ≡ f.l0 + g.l0 = omega (arith, hf.below0, hg.below0) in
    let e1 : u64 (f.l1 + g.l1) ≡ f.l1 + g.l1 = omega (arith, hf.below1, hg.below1) in
    let e2 : u64 (f.l2 + g.l2) ≡ f.l2 + g.l2 = omega (arith, hf.below2, hg.below2) in
    let e3 : u64 (f.l3 + g.l3) ≡ f.l3 + g.l3 = omega (arith, hf.below3, hg.below3) in
    let e4 : u64 (f.l4 + g.l4) ≡ f.l4 + g.l4 = omega (arith, hf.below4, hg.below4) in
    rw (e0, e1, e2, e3, e4)
      (
        record {
          below0 = omega (arith, hf.below0, hg.below0);
          below1 = omega (arith, hf.below1, hg.below1);
          below2 = omega (arith, hf.below2, hg.below2);
          below3 = omega (arith, hf.below3, hg.below3);
          below4 = omega (arith, hf.below4, hg.below4);
        },
        omega arith,
      )

-- One limb of `(f + 2p) - g`.
sub64_lem : (x c y : ℕ) → x + c < 2 ^ 64 → y ≤ c → sub64 (u64 (x + c)) y ≡ x + (c - y)
sub64_lem x c y small le = omega arith

module _ (m : ℕ) (f g : Fe25519) (small : m ≤ 2 ^ 63) (hf : IsBelow m f)
    (hg : IsBelow (2 ^ 54) g) where
  h1 : ℕ
  h1 = g.l1 + g.l0 / 2 ^ 51

  h2 : ℕ
  h2 = g.l2 + h1 / 2 ^ 51

  h3 : ℕ
  h3 = g.l3 + h2 / 2 ^ 51

  h4 : ℕ
  h4 = g.l4 + h3 / 2 ^ 51

  h0 : ℕ
  h0 = g.l0 % 2 ^ 51 + 19 * (h4 / 2 ^ 51)

  difference : Fe25519
  difference = record {
    l0 = f.l0 + (0xfffffffffffda - h0);
    l1 = f.l1 + (0xffffffffffffe - h1 % 2 ^ 51);
    l2 = f.l2 + (0xffffffffffffe - h2 % 2 ^ 51);
    l3 = f.l3 + (0xffffffffffffe - h3 % 2 ^ 51);
    l4 = f.l4 + (0xffffffffffffe - h4 % 2 ^ 51);
  }

  h0-lt : h0 < 2 ^ 51 + 200
  unfolding h0 h1 h2 h3 h4
  h0-lt = omega (arith, hg.below0, hg.below1, hg.below2, hg.below3, hg.below4)

  fe25519_sub-difference : fe25519_sub f g ≡ difference
  unfolding fe25519_sub difference h0 h1 h2 h3 h4
  fe25519_sub-difference =
      let b0 = hg.below0 in
      let b1 = hg.below1 in
      let b2 = hg.below2 in
      let b3 = hg.below3 in
      let b4 = hg.below4 in
      let e1 : u64 (g.l1 + g.l0 / 2 ^ 51) ≡ h1 = omega arith in
      let e2 : u64 (g.l2 + h1 / 2 ^ 51) ≡ h2 = omega arith in
      let e3 : u64 (g.l3 + h2 / 2 ^ 51) ≡ h3 = omega arith in
      let e4 : u64 (g.l4 + h3 / 2 ^ 51) ≡ h4 = omega arith in
      let e0 : u64 (g.l0 % 2 ^ 51 + u64 (19 * (h4 / 2 ^ 51))) ≡ h0 = omega arith in
      let d0 =
        sub64_lem f.l0 0xfffffffffffda h0 (omega (arith, hf.below0)) (omega (arith, h0-lt)) in
      let d1 =
        sub64_lem f.l1 0xffffffffffffe (h1 % 2 ^ 51) (omega (arith, hf.below1)) (omega arith) in
      let d2 =
        sub64_lem f.l2 0xffffffffffffe (h2 % 2 ^ 51) (omega (arith, hf.below2)) (omega arith) in
      let d3 =
        sub64_lem f.l3 0xffffffffffffe (h3 % 2 ^ 51) (omega (arith, hf.below3)) (omega arith) in
      let d4 =
        sub64_lem f.l4 0xffffffffffffe (h4 % 2 ^ 51) (omega (arith, hf.below4)) (omega arith) in
      rw
        (
          e1,
          bit_and-mask51 g.l0,
          e2,
          bit_and-mask51 h1,
          e3,
          bit_and-mask51 h2,
          e4,
          bit_and-mask51 h3,
          e0,
          bit_and-mask51 h4,
          d0,
          d1,
          d2,
          d3,
          d4,
        )
        refl

  difference-IsBelow : IsBelow (m + 2 ^ 52) difference
  unfolding difference
  difference-IsBelow = record {
    below0 = omega (arith, hf.below0);
    below1 = omega (arith, hf.below1);
    below2 = omega (arith, hf.below2);
    below3 = omega (arith, hf.below3);
    below4 = omega (arith, hf.below4);
  }

  -- 2^255 - 19 is added twice, and as often as the carry out of the last limb is folded.
  difference-value : value difference + value g ≡ value f + (2 + h4 / 2 ^ 51) * prime
  unfolding difference h0 h1 h2 h3 h4
  difference-value = omega (arith, h0-lt)

pub fe25519_sub_lem :
    (m : ℕ) (f g : Fe25519)
    → m ≤ 2 ^ 63
    → IsBelow m f
    → IsBelow (2 ^ 54) g
    → IsBelow (m + 2 ^ 52) (fe25519_sub f g)
      × ((value (fe25519_sub f g) + value g) % prime ≡ residue f)
fe25519_sub_lem m f g small hf hg =
    let again = 2 + h4 m f g small hf hg / 2 ^ 51 in
    rw (fe25519_sub-difference m f g small hf hg) (
      difference-IsBelow m f g small hf hg,
      ap (λ (n : ℕ). n % prime) (difference-value m f g small hf hg)
          ∙ add-mul-mod_self_right (value f) again prime,
    )

-- `fe25519_neg` writes an element that adds up with the given one to 0.
pub fe25519_neg_lem :
    (f : Fe25519)
    → IsBelow (2 ^ 54) f
    → IsBelow (2 ^ 52 + 1) (fe25519_neg f) × ((value (fe25519_neg f) + value f) % prime ≡ 0)
unfolding fe25519_neg
fe25519_neg_lem f h =
    let zero_below : IsBelow 1 fe25519_0 = record {
      below0 = omega arith;
      below1 = omega arith;
      below2 = omega arith;
      below3 = omega arith;
      below4 = omega arith;
    } in
    fe25519_sub_lem 1 fe25519_0 f (omega arith) zero_below h
