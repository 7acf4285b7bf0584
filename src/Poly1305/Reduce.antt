-- ===== src/Poly1305/Reduce.antt =====
-- The end of src/libsodium/crypto_onetimeauth/poly1305/donna/poly1305_donna64.h: the last carries,
-- the reduction below 2^130 - 5, and the sum with the pad.
use libsodium.Base.{
  ℕ, ◌+◌, ◌-◌, ◌*◌, ◌/◌, ◌%◌, ◌^◌, ◌<◌, ◌≤◌, bit_and, bit_or, ◌≡◌, refl, ap, ◌∙◌, arith, u64, ◌>>>◌,
}
use native.Mathlib.Decide.{dec_lt}
use libsodium.Bits.And.{bit_and-mask, bit_and-zero}
use libsodium.Bits.Or.{bit_or-zero, zero-bit_or}
use libsodium.Poly1305.{Limbs, carry_fully, select_reduced, mask44}
use libsodium.Poly1305.Field.{
  value, prime, IsReduced, mod_drop, limbs_≡, bit_and-mask44, bit_and-mask42,
}

-- All limbs within their widths.
pub record IsCarried (h : Limbs) : Type 0 where
  pub below0 : h.l0 < 2 ^ 44
  pub below1 : h.l1 < 2 ^ 44
  pub below2 : h.l2 < 2 ^ 42

-- One pass of carries from a limb on, over numbers that do not wrap.
pass : Limbs → Limbs
pass h =
    let h2 = h.l2 + h.l1 / 2 ^ 44 in
    let h0 = h.l0 + h2 / 2 ^ 42 * 5 in
    record { l0 = h0 % 2 ^ 44; l1 = h.l1 % 2 ^ 44 + h0 / 2 ^ 44; l2 = h2 % 2 ^ 42 }

carry_fully-pass : (h : Limbs) → IsReduced h → carry_fully h ≡ pass (pass h)
unfolding carry_fully pass
carry_fully-pass h s =
    let b0 = s.below0 in
    let b1 = s.below1 in
    let b2 = s.below2 in
    let h1 = h.l1 % 2 ^ 44 in
    let h2 = h.l2 + h.l1 / 2 ^ 44 in
    let h0 = h.l0 + h2 / 2 ^ 42 * 5 in
    let k1 = h1 + h0 / 2 ^ 44 in
    let k2 = h2 % 2 ^ 42 + k1 / 2 ^ 44 in
    let k0 = h0 % 2 ^ 44 + k2 / 2 ^ 42 * 5 in
    let e2 : u64 (h.l2 + h.l1 / 2 ^ 44) ≡ h2 = omega arith in
    let e0 : u64 (h.l0 + u64 (h2 / 2 ^ 42 * 5)) ≡ h0 = omega arith in
    let e1 : u64 (h1 + h0 / 2 ^ 44) ≡ k1 = omega arith in
    let f2 : u64 (h2 % 2 ^ 42 + k1 / 2 ^ 44) ≡ k2 = omega arith in
    let f0 : u64 (h0 % 2 ^ 44 + u64 (k2 / 2 ^ 42 * 5)) ≡ k0 = omega arith in
    let f1 : u64 (k1 % 2 ^ 44 + k0 / 2 ^ 44) ≡ k1 % 2 ^ 44 + k0 / 2 ^ 44 = omega arith in
    rw
      (
        bit_and-mask44 h.l1,
        e2,
        bit_and-mask42 h2,
        e0,
        bit_and-mask44 h0,
        e1,
        bit_and-mask44 k1,
        f2,
        bit_and-mask42 k2,
        f0,
        bit_and-mask44 k0,
        f1,
      )
      refl

pass-value : (h : Limbs) → value (pass h) + (h.l2 + h.l1 / 2 ^ 44) / 2 ^ 42 * prime ≡ value h
unfolding pass
pass-value h = omega arith

pub carry_fully-IsCarried : (h : Limbs) → IsReduced h → IsCarried (carry_fully h)
unfolding pass
carry_fully-IsCarried h s =
    let b0 = s.below0 in
    let b1 = s.below1 in
    let b2 = s.below2 in
    rw (carry_fully-pass h s)
      (record { below0 = omega arith; below1 = omega arith; below2 = omega arith })

pub carry_fully-value : (h : Limbs) → IsReduced h → value (carry_fully h) % prime ≡ value h % prime
carry_fully-value h s =
    ap (λ (l : Limbs). value l % prime) (carry_fully-pass h s)
    ∙ (mod_drop (value (pass (pass h))) (((pass h).l2 + (pass h).l1 / 2 ^ 44) / 2 ^ 42)
          (pass-value (pass h))
        ∙ mod_drop (value (pass h)) ((h.l2 + h.l1 / 2 ^ 44) / 2 ^ 42) (pass-value h))

-- The low 64 bits, by a mask of ones.
all_ones : (a : ℕ) → a < 2 ^ 64 → bit_and a (2 ^ 64 - 1) ≡ a
all_ones a small = bit_and-mask 64 a ∙ omega arith

chosen_low : (a b : ℕ) → a < 2 ^ 64 → bit_or (bit_and a (2 ^ 64 - 1)) (bit_and b 0) ≡ a
chosen_low a b small = rw (all_ones a small, bit_and-zero b) (bit_or-zero a)

chosen_high : (a b : ℕ) → b < 2 ^ 64 → bit_or (bit_and a 0) (bit_and b (2 ^ 64 - 1)) ≡ b
chosen_high a b small = rw (all_ones b small, bit_and-zero a) (zero-bit_or b)

module _ (h : Limbs) (carried : IsCarried h) where
  g0 : ℕ
  g0 = h.l0 + 5

  g1 : ℕ
  g1 = h.l1 + g0 / 2 ^ 44

  g2 : ℕ
  g2 = h.l2 + g1 / 2 ^ 44

  borrowed : Limbs
  borrowed = record { l0 = g0 % 2 ^ 44; l1 = g1 % 2 ^ 44; l2 = g2 - 2 ^ 42 }

  below : g2 < 2 ^ 42 → select_reduced h ≡ h
  unfolding select_reduced g0 g1 g2
  below small =
      let b0 = carried.below0 in
      let b1 = carried.below1 in
      let b2 = carried.below2 in
      let e0 : u64 (h.l0 + 5) ≡ h.l0 + 5 = omega arith in
      let e1 : u64 (h.l1 + g0 / 2 ^ 44) ≡ g1 = omega arith in
      let e2 : u64 (u64 (h.l2 + g1 / 2 ^ 44) + (2 ^ 64 - 2 ^ 42)) ≡ g2 + (2 ^ 64 - 2 ^ 42) =
        omega arith in
      let e3 : u64 ((g2 + (2 ^ 64 - 2 ^ 42)) >>> 63 + (2 ^ 64 - 1)) ≡ 0 = omega arith in
      rw (e0, e1, e2, e3)
        (limbs_≡ (chosen_low h.l0 (bit_and g0 mask44) (omega arith))
          (chosen_low h.l1 (bit_and g1 mask44) (omega arith))
          (chosen_low h.l2 (g2 + (2 ^ 64 - 2 ^ 42)) (omega arith)))

  above : 2 ^ 42 ≤ g2 → select_reduced h ≡ borrowed
  unfolding select_reduced g0 g1 g2 borrowed
  above large =
      let b0 = carried.below0 in
      let b1 = carried.below1 in
      let b2 = carried.below2 in
      let e0 : u64 (h.l0 + 5) ≡ h.l0 + 5 = omega arith in
      let e1 : u64 (h.l1 + g0 / 2 ^ 44) ≡ g1 = omega arith in
      let e2 : u64 (u64 (h.l2 + g1 / 2 ^ 44) + (2 ^ 64 - 2 ^ 42)) ≡ g2 - 2 ^ 42 = omega arith in
      let e3 : u64 ((g2 - 2 ^ 42) >>> 63 + (2 ^ 64 - 1)) ≡ 2 ^ 64 - 1 = omega arith in
      let c0 = chosen_high h.l0 (g0 % 2 ^ 44) (omega arith) in
      let c1 = chosen_high h.l1 (g1 % 2 ^ 44) (omega arith) in
      let c2 = chosen_high h.l2 (g2 - 2 ^ 42) (omega arith) in
      rw (e0, e1, e2, e3, bit_and-mask44 g0, bit_and-mask44 g1, c0, c1, c2) refl

  borrowed-value : 2 ^ 42 ≤ g2 → value borrowed ≡ value h % prime
  unfolding g0 g1 g2 borrowed
  borrowed-value large =
      let b0 = carried.below0 in
      let b1 = carried.below1 in
      let b2 = carried.below2 in
      let less : value borrowed < prime = omega arith in
      let sum : value borrowed + prime ≡ value h = omega arith in omega arith

  borrowed-IsCarried : IsCarried borrowed
  unfolding g0 g1 g2 borrowed
  borrowed-IsCarried =
      let b0 = carried.below0 in
      let b1 = carried.below1 in
      let b2 = carried.below2 in
      record { below0 = omega arith; below1 = omega arith; below2 = omega arith }

  kept-value : g2 < 2 ^ 42 → value h ≡ value h % prime
  unfolding g0 g1 g2
  kept-value small =
      let b0 = carried.below0 in
      let b1 = carried.below1 in
      let b2 = carried.below2 in let less : value h < prime = omega arith in omega arith

  -- `h` becomes its remainder.
  pub select_reduced-value : value (select_reduced h) ≡ value h % prime
  select_reduced-value = elim (dec_lt g2 (2 ^ 42)) [
    | yes small ↦ ap (λ (l : Limbs). value l) (below small) ∙ kept-value small
    | no large ↦ ap (λ (l : Limbs). value l) (above (omega arith)) ∙ borrowed-value (omega arith)
  ]

  pub select_reduced-IsCarried : IsCarried (select_reduced h)
  select_reduced-IsCarried = elim (dec_lt g2 (2 ^ 42)) [
    | yes small ↦ rw (below small) carried
    | no large ↦ rw (above (omega arith)) borrowed-IsCarried
  ]

-- From the limbs between two rounds on, the carries and the choice by a mask leave the remainder by
-- 2^130 - 5, in limbs of 44, 44 and 42 bits.
pub select_reduced-carry_fully :
    (h : Limbs)
    → IsReduced h
    → IsCarried (select_reduced (carry_fully h))
      × (value (select_reduced (carry_fully h)) ≡ value h % prime)
select_reduced-carry_fully h s =
    let carried = carry_fully-IsCarried h s in
    (
      select_reduced-IsCarried (carry_fully h) carried,
      select_reduced-value (carry_fully h) carried ∙ carry_fully-value h s,
    )
