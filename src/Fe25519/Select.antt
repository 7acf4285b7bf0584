-- ===== src/Fe25519/Select.antt =====
-- `fe25519_cmov` and `fe25519_cswap` of src/libsodium/include/sodium/private/ed25519_ref10_fe_51.h:
-- the choice by a mask of a bit.
use native.Mathlib.Nat.{mod-eq_of_lt}
use libsodium.Base.{ℕ, ◌^◌, ◌<◌, bit_xor, ◌≡◌, ap, ap₂, ◌∙◌, Bool, true, false, if◌then◌else◌}
use libsodium.Bits.Xor.{bit_xor-zero, bit_xor-lt, bit_xor_cancel, bit_xor_comm}
use libsodium.Bits.And.{bit_and-zero, bit_and-mask}
use libsodium.Fe25519.{Fe25519, fe25519_cmov, fe25519_cswap, select_mask, masked}
use libsodium.Fe25519.Field.{IsBelow, fe_≡}

-- The bit as `unsigned int`.
abbrev pub bit : Bool → ℕ
bit b = if b then 1 else 0

-- What a masked difference is, and its effect on either side.
masked_bit : Bool → ℕ → ℕ → ℕ
masked_bit b x y = if b then bit_xor x y else 0

masked_lem :
    (b : Bool) (x y : ℕ)
    → x < 2 ^ 64
    → y < 2 ^ 64
    → masked (select_mask (bit b)) x y ≡ masked_bit b x y
unfolding masked select_mask masked_bit
masked_lem true x y p q = bit_and-mask 64 (bit_xor x y) ∙ mod-eq_of_lt (bit_xor-lt 64 x y p q)
masked_lem false x y p q = bit_and-zero (bit_xor x y)

toggle_left : (b : Bool) (x y : ℕ) → bit_xor x (masked_bit b x y) ≡ (if b then y else x)
unfolding masked_bit
toggle_left true x y =
    bit_xor_comm x (bit_xor x y)
    ∙ (ap (λ (t : ℕ). bit_xor t x) (bit_xor_comm x y) ∙ bit_xor_cancel y x)
toggle_left false x y = bit_xor-zero x

toggle_right : (b : Bool) (x y : ℕ) → bit_xor y (masked_bit b x y) ≡ (if b then x else y)
unfolding masked_bit
toggle_right true x y = bit_xor_comm y (bit_xor x y) ∙ bit_xor_cancel x y
toggle_right false x y = bit_xor-zero y

module _ (b : Bool) (x y : ℕ) (p : x < 2 ^ 64) (q : y < 2 ^ 64) where
  chosen_left : bit_xor x (masked (select_mask (bit b)) x y) ≡ (if b then y else x)
  chosen_left = ap (λ (t : ℕ). bit_xor x t) (masked_lem b x y p q) ∙ toggle_left b x y

  chosen_right : bit_xor y (masked (select_mask (bit b)) x y) ≡ (if b then x else y)
  chosen_right = ap (λ (t : ℕ). bit_xor y t) (masked_lem b x y p q) ∙ toggle_right b x y

-- `fe25519_cmov` writes `g` for the bit 1 and leaves `f` for the bit 0.
pub fe25519_cmov_lem :
    (b : Bool) (f g : Fe25519)
    → IsBelow (2 ^ 64) f
    → IsBelow (2 ^ 64) g
    → fe25519_cmov f g (bit b) ≡ (if b then g else f)
unfolding fe25519_cmov
fe25519_cmov_lem true f g hf hg =
    fe_≡ (chosen_left true f.l0 g.l0 hf.below0 hg.below0)
      (chosen_left true f.l1 g.l1 hf.below1 hg.below1)
      (chosen_left true f.l2 g.l2 hf.below2 hg.below2)
      (chosen_left true f.l3 g.l3 hf.below3 hg.below3)
      (chosen_left true f.l4 g.l4 hf.below4 hg.below4)
fe25519_cmov_lem false f g hf hg =
    fe_≡ (chosen_left false f.l0 g.l0 hf.below0 hg.below0)
      (chosen_left false f.l1 g.l1 hf.below1 hg.below1)
      (chosen_left false f.l2 g.l2 hf.below2 hg.below2)
      (chosen_left false f.l3 g.l3 hf.below3 hg.below3)
      (chosen_left false f.l4 g.l4 hf.below4 hg.below4)

-- `fe25519_cswap` exchanges `f` and `g` for the bit 1 and leaves them for the bit 0.
pub fe25519_cswap_lem :
    (b : Bool) (f g : Fe25519)
    → IsBelow (2 ^ 64) f
    → IsBelow (2 ^ 64) g
    → fe25519_cswap f g (bit b) ≡ (if b then (g, f) else (f, g))
unfolding fe25519_cswap fe25519_cmov
fe25519_cswap_lem true f g hf hg =
    ap₂ (λ (x y : Fe25519). (x, y)) (fe25519_cmov_lem true f g hf hg)
      (fe_≡ (chosen_right true f.l0 g.l0 hf.below0 hg.below0)
        (chosen_right true f.l1 g.l1 hf.below1 hg.below1)
        (chosen_right true f.l2 g.l2 hf.below2 hg.below2)
        (chosen_right true f.l3 g.l3 hf.below3 hg.below3)
        (chosen_right true f.l4 g.l4 hf.below4 hg.below4))
fe25519_cswap_lem false f g hf hg =
    ap₂ (λ (x y : Fe25519). (x, y)) (fe25519_cmov_lem false f g hf hg)
      (fe_≡ (chosen_right false f.l0 g.l0 hf.below0 hg.below0)
        (chosen_right false f.l1 g.l1 hf.below1 hg.below1)
        (chosen_right false f.l2 g.l2 hf.below2 hg.below2)
        (chosen_right false f.l3 g.l3 hf.below3 hg.below3)
        (chosen_right false f.l4 g.l4 hf.below4 hg.below4))
