-- ===== src/Fe25519/Reduce.antt =====
-- `fe25519_reduce` of src/libsodium/crypto_core/ed25519/ref10/fe_51/fe.h: the remainder by
-- 2^255 - 19.
use libsodium.Base.{
  ℕ, ◌+◌, ◌-◌, ◌*◌, ◌/◌, ◌%◌, ◌^◌, ◌<◌, ◌≤◌, bit_and, ◌≡◌, refl, ap, ◌∙◌, arith, u64, u128,
}
use libsodium.Fe25519.{Fe25519, carry_round, add_offset, carry_last, fe25519_reduce, mask51}
use libsodium.Fe25519.Field.{prime, value, residue, IsBelow, mod_drop, bit_and-mask51}

-- One round over numbers that do not wrap, and what it carries out of the last limb.
out : Fe25519 → ℕ
out t = (t.l4 + (t.l3 + (t.l2 + (t.l1 + t.l0 / 2 ^ 51) / 2 ^ 51) / 2 ^ 51) / 2 ^ 51) / 2 ^ 51

round : Fe25519 → Fe25519
round t =
    let t1 = t.l1 + t.l0 / 2 ^ 51 in
    let t2 = t.l2 + t1 / 2 ^ 51 in
    let t3 = t.l3 + t2 / 2 ^ 51 in
    let t4 = t.l4 + t3 / 2 ^ 51 in
    record {
      l0 = t.l0 % 2 ^ 51 + 19 * (t4 / 2 ^ 51);
      l1 = t1 % 2 ^ 51;
      l2 = t2 % 2 ^ 51;
      l3 = t3 % 2 ^ 51;
      l4 = t4 % 2 ^ 51;
    }

carry_round-round : (t : Fe25519) → IsBelow (2 ^ 64) t → carry_round t ≡ round t
unfolding carry_round round
carry_round-round t h =
    let b0 = h.below0 in
    let b1 = h.below1 in
    let b2 = h.below2 in
    let b3 = h.below3 in
    let b4 = h.below4 in
    let t1 = t.l1 + t.l0 / 2 ^ 51 in
    let t2 = t.l2 + t1 / 2 ^ 51 in
    let t3 = t.l3 + t2 / 2 ^ 51 in
    let t4 = t.l4 + t3 / 2 ^ 51 in
    let e1 : u128 (t.l1 + t.l0 / 2 ^ 51) ≡ t1 = omega arith in
    let e2 : u128 (t.l2 + t1 / 2 ^ 51) ≡ t2 = omega arith in
    let e3 : u128 (t.l3 + t2 / 2 ^ 51) ≡ t3 = omega arith in
    let e4 : u128 (t.l4 + t3 / 2 ^ 51) ≡ t4 = omega arith in
    let e0 : u128 (t.l0 % 2 ^ 51 + u128 (19 * (t4 / 2 ^ 51))) ≡ t.l0 % 2 ^ 51 + 19 * (t4 / 2 ^ 51) =
      omega arith in
    rw
      (
        e1,
        bit_and-mask51 t.l0,
        e2,
        bit_and-mask51 t1,
        e3,
        bit_and-mask51 t2,
        e4,
        bit_and-mask51 t3,
        bit_and-mask51 t4,
        e0,
      )
      refl

round-value : (t : Fe25519) → value (round t) + out t * prime ≡ value t
unfolding round out
round-value t = omega arith

-- The limbs after one round: the lowest one may be a little more than 2^51.
record IsCarried (t : Fe25519) : Type 0 where
  below0 : t.l0 < 2 ^ 51 + 2 ^ 18
  below1 : t.l1 < 2 ^ 51
  below2 : t.l2 < 2 ^ 51
  below3 : t.l3 < 2 ^ 51
  below4 : t.l4 < 2 ^ 51

first_round : (t : Fe25519) → IsBelow (2 ^ 64) t → IsCarried (round t)
unfolding round
first_round t h = record {
  below0 = omega (arith, h.below0, h.below1, h.below2, h.below3, h.below4);
  below1 = omega arith;
  below2 = omega arith;
  below3 = omega arith;
  below4 = omega arith;
}

second_round : (t : Fe25519) → IsCarried t → IsBelow (2 ^ 51) (round t)
unfolding round
second_round t h = record {
  below0 = omega (arith, h.below0, h.below1, h.below2, h.below3, h.below4);
  below1 = omega arith;
  below2 = omega arith;
  below3 = omega arith;
  below4 = omega arith;
}

raised : Fe25519 → Fe25519
raised t = record t { l0 = t.l0 + 19 }

IsCarried-wide : (t : Fe25519) → IsCarried t → IsBelow (2 ^ 64) t
IsCarried-wide t h = record {
  below0 = omega (arith, h.below0);
  below1 = omega (arith, h.below1);
  below2 = omega (arith, h.below2);
  below3 = omega (arith, h.below3);
  below4 = omega (arith, h.below4);
}

raised_wide : (t : Fe25519) → IsBelow (2 ^ 51) t → IsBelow (2 ^ 64) (raised t)
unfolding raised
raised_wide t h = record {
  below0 = omega (arith, h.below0);
  below1 = omega (arith, h.below1);
  below2 = omega (arith, h.below2);
  below3 = omega (arith, h.below3);
  below4 = omega (arith, h.below4);
}

-- The third round, of a number raised by 19, takes 2^255 - 19 away where it fits.
third_round :
    (t : Fe25519)
    → IsBelow (2 ^ 51) t
    → value (round (record t { l0 = t.l0 + 19 })) ≡ value t % prime + 19
unfolding round
third_round t h = omega (arith, h.below0, h.below1, h.below2, h.below3, h.below4)

third_round-IsBelow : (t : Fe25519) → IsBelow (2 ^ 51) t → IsBelow (2 ^ 51) (round (raised t))
unfolding round raised
third_round-IsBelow t h = record {
  below0 = omega (arith, h.below0, h.below1, h.below2, h.below3, h.below4);
  below1 = omega arith;
  below2 = omega arith;
  below3 = omega arith;
  below4 = omega arith;
}

-- 2^255 - 19 is added in limbs, and the carries drop 2^255.
finish : Fe25519 → Fe25519
finish t =
    let t0 = t.l0 + (2 ^ 51 - 19) in
    let t1 = t.l1 + (2 ^ 51 - 1) + t0 / 2 ^ 51 in
    let t2 = t.l2 + (2 ^ 51 - 1) + t1 / 2 ^ 51 in
    let t3 = t.l3 + (2 ^ 51 - 1) + t2 / 2 ^ 51 in
    let t4 = t.l4 + (2 ^ 51 - 1) + t3 / 2 ^ 51 in
    record {
      l0 = t0 % 2 ^ 51;
      l1 = t1 % 2 ^ 51;
      l2 = t2 % 2 ^ 51;
      l3 = t3 % 2 ^ 51;
      l4 = t4 % 2 ^ 51;
    }

carry_last-finish : (t : Fe25519) → IsBelow (2 ^ 51) t → carry_last (add_offset t) ≡ finish t
unfolding carry_last add_offset finish
carry_last-finish t h =
    let b0 = h.below0 in
    let b1 = h.below1 in
    let b2 = h.below2 in
    let b3 = h.below3 in
    let b4 = h.below4 in
    let t0 = t.l0 + (2 ^ 51 - 19) in
    let t1 = t.l1 + (2 ^ 51 - 1) + t0 / 2 ^ 51 in
    let t2 = t.l2 + (2 ^ 51 - 1) + t1 / 2 ^ 51 in
    let t3 = t.l3 + (2 ^ 51 - 1) + t2 / 2 ^ 51 in
    let t4 = t.l4 + (2 ^ 51 - 1) + t3 / 2 ^ 51 in
    let e0 : u128 (t.l0 + (2 ^ 51 - 19)) ≡ t0 = omega arith in
    let e1 : u128 (u128 (t.l1 + (2 ^ 51 - 1)) + t0 / 2 ^ 51) ≡ t1 = omega arith in
    let e2 : u128 (u128 (t.l2 + (2 ^ 51 - 1)) + t1 / 2 ^ 51) ≡ t2 = omega arith in
    let e3 : u128 (u128 (t.l3 + (2 ^ 51 - 1)) + t2 / 2 ^ 51) ≡ t3 = omega arith in
    let e4 : u128 (u128 (t.l4 + (2 ^ 51 - 1)) + t3 / 2 ^ 51) ≡ t4 = omega arith in
    rw (e0, e1, e2, e3, e4, word t0, word t1, word t2, word t3, word t4) refl
  where
    word : (a : ℕ) → u64 (bit_and a mask51) ≡ a % 2 ^ 51
    word a = ap u64 (bit_and-mask51 a) ∙ omega arith

finish-value : (t : Fe25519) → IsBelow (2 ^ 51) t → 19 ≤ value t → value (finish t) + 19 ≡ value t
unfolding finish
finish-value t h big = omega (arith, h.below0, h.below1, h.below2, h.below3, h.below4)

finish-IsBelow : (t : Fe25519) → IsBelow (2 ^ 51) (finish t)
unfolding finish
finish-IsBelow t = record {
  below0 = omega arith;
  below1 = omega arith;
  below2 = omega arith;
  below3 = omega arith;
  below4 = omega arith;
}

module _ (f : Fe25519) (h : IsBelow (2 ^ 64) f) where
  t1 : Fe25519
  t1 = round f

  t2 : Fe25519
  t2 = round t1

  t3 : Fe25519
  t3 = round (raised t2)

  t1-IsCarried : IsCarried t1
  unfolding t1
  t1-IsCarried = first_round f h

  t2-IsBelow : IsBelow (2 ^ 51) t2
  unfolding t2
  t2-IsBelow = second_round t1 t1-IsCarried

  t3-IsBelow : IsBelow (2 ^ 51) t3
  unfolding t3
  t3-IsBelow = third_round-IsBelow t2 t2-IsBelow

  t2-residue : residue t2 ≡ residue f
  unfolding t2 t1
  t2-residue =
      mod_drop (value (round (round f))) (out (round f)) (round-value (round f))
      ∙ mod_drop (value (round f)) (out f) (round-value f)

  t3-value : value t3 ≡ residue f + 19
  unfolding t3 raised
  t3-value = third_round t2 t2-IsBelow ∙ ap (λ (n : ℕ). n + 19) t2-residue

  fe25519_reduce_rounds : fe25519_reduce f ≡ finish t3
  unfolding fe25519_reduce t1 t2 t3 raised
  fe25519_reduce_rounds =
      let e1 = carry_round-round f h in
      let e2 = carry_round-round t1 (IsCarried-wide t1 t1-IsCarried) in
      let e3 : u128 (t2.l0 + 19) ≡ t2.l0 + 19 = omega (arith, t2-IsBelow.below0) in
      let e4 = carry_round-round (raised t2) (raised_wide t2 t2-IsBelow) in
      rw (e1, e2, e3, e4) (carry_last-finish t3 t3-IsBelow)

-- `fe25519_reduce` writes the remainder by 2^255 - 19, in limbs of 51 bits.
pub fe25519_reduce_lem :
    (f : Fe25519)
    → IsBelow (2 ^ 64) f
    → IsBelow (2 ^ 51) (fe25519_reduce f) × (value (fe25519_reduce f) ≡ residue f)
fe25519_reduce_lem f h =
    let raised_value = t3-value f h in
    let lowered = finish-value (t3 f h) (t3-IsBelow f h) (omega (arith, raised_value)) in
    rw (fe25519_reduce_rounds f h) (finish-IsBelow (t3 f h), omega (arith, raised_value, lowered))
