-- ===== src/Poly1305/Sum.antt =====
-- `h = (h + pad) % (2^128)` at the end of
-- src/libsodium/crypto_onetimeauth/poly1305/donna/poly1305_donna64.h.
use libsodium.Base.{
  ℕ, ◌+◌, ◌*◌, ◌/◌, ◌%◌, ◌^◌, ◌<◌, bit_and, bit_or, ◌≡◌, refl, ap, ◌∙◌, arith, u64, ◌<<<◌, ◌>>>◌,
  Bytes, le_value, ◌++◌,
}
use libsodium.Bits.Or.{bit_or-field, bit_or_comm}
use libsodium.Endian.{store64_le}
use libsodium.Endian.Laws.{length-store64_le}
use libsodium.Endian.Load.{le_value-store64_le, le_value-append}
use libsodium.Poly1305.{Limbs, add_pad, mask42}
use libsodium.Poly1305.Field.{value, bit_and-mask44, bit_and-mask42}
use libsodium.Poly1305.Load.{middle_limb-mask}
use libsodium.Poly1305.Reduce.{IsCarried}

-- Three limbs, the last one of any size, as two words.
low_word : (h0 h1 : ℕ) → h0 < 2 ^ 44 → bit_or h0 (u64 (h1 <<< 44)) ≡ h0 + 2 ^ 44 * (h1 % 2 ^ 20)
low_word h0 h1 b0 =
    let moved : u64 (h1 <<< 44) ≡ (h1 % 2 ^ 20) <<< 44 = omega arith in
    rw (moved, bit_or_comm h0 ((h1 % 2 ^ 20) <<< 44))
      (bit_or-field 44 (h1 % 2 ^ 20) h0 b0 ∙ omega arith)

high_word :
    (h1 h2 : ℕ)
    → h1 < 2 ^ 44
    → bit_or (h1 >>> 20) (u64 (h2 <<< 24)) ≡ h1 / 2 ^ 20 + 2 ^ 24 * (h2 % 2 ^ 40)
high_word h1 h2 b1 =
    let moved : u64 (h2 <<< 24) ≡ (h2 % 2 ^ 40) <<< 24 = omega arith in
    rw (moved, bit_or_comm (h1 / 2 ^ 20) ((h2 % 2 ^ 40) <<< 24))
      (bit_or-field 24 (h2 % 2 ^ 40) (h1 / 2 ^ 20) (omega arith) ∙ omega arith)

module _ (h : Limbs) (t0 t1 : ℕ) (b0 : t0 < 2 ^ 64) (b1 : t1 < 2 ^ 64) (carried : IsCarried h) where
  s0 : ℕ
  s0 = h.l0 + t0 % 2 ^ 44

  s1 : ℕ
  s1 = h.l1 + (t1 % 2 ^ 24 * 2 ^ 20 + t0 / 2 ^ 44 + s0 / 2 ^ 44)

  s2 : ℕ
  s2 = h.l2 + (t1 / 2 ^ 24 + s1 / 2 ^ 44)

  low : ℕ
  low = s0 % 2 ^ 44 + 2 ^ 44 * (s1 % 2 ^ 44 % 2 ^ 20)

  high : ℕ
  high = s1 % 2 ^ 44 / 2 ^ 20 + 2 ^ 24 * (s2 % 2 ^ 42 % 2 ^ 40)

  add_pad_words : add_pad h t0 t1 ≡ store64_le low ++ store64_le high
  unfolding add_pad s0 s1 s2 low high
  add_pad_words =
      let c0 = carried.below0 in
      let c1 = carried.below1 in
      let c2 = carried.below2 in
      let e0 : u64 (h.l0 + t0 % 2 ^ 44) ≡ s0 = omega arith in
      let e1 : u64 (h.l1 + (t1 % 2 ^ 24 * 2 ^ 20 + t0 / 2 ^ 44 + s0 / 2 ^ 44)) ≡ s1 = omega arith in
      let f2 : bit_and (t1 >>> 24) mask42 ≡ t1 / 2 ^ 24 =
        bit_and-mask42 (t1 >>> 24) ∙ omega arith in
      let e2 : u64 (h.l2 + (t1 / 2 ^ 24 + s1 / 2 ^ 44)) ≡ s2 = omega arith in
      let w0 = low_word (s0 % 2 ^ 44) (s1 % 2 ^ 44) (omega arith) in
      let w1 = high_word (s1 % 2 ^ 44) (s2 % 2 ^ 42) (omega arith) in
      rw
        (
          bit_and-mask44 t0,
          e0,
          bit_and-mask44 s0,
          middle_limb-mask t0 t1 b0,
          e1,
          bit_and-mask44 s1,
          f2,
          e2,
          bit_and-mask42 s2,
          w0,
          w1,
        )
        refl

  words_sum : low + 2 ^ 64 * high ≡ (value h + (t0 + 2 ^ 64 * t1)) % 2 ^ 128
  unfolding s0 s1 s2 low high
  words_sum = omega (arith, b0, b1, carried.below0, carried.below1, carried.below2)

  low-lt : low < 2 ^ 64
  unfolding low
  low-lt = omega arith

  high-lt : high < 2 ^ 64
  unfolding high
  high-lt = omega arith

  pub add_pad-value : le_value (add_pad h t0 t1) ≡ (value h + (t0 + 2 ^ 64 * t1)) % 2 ^ 128
  add_pad-value =
      ap (λ (xs : Bytes). le_value xs) add_pad_words
      ∙ (le_value-append (store64_le low) (store64_le high)
          ∙ (rw
              (
                length-store64_le low,
                le_value-store64_le low low-lt,
                le_value-store64_le high high-lt,
              )
              words_sum))
