-- ===== src/Fe25519.antt =====
-- src/libsodium/include/sodium/private/ed25519_ref10_fe_51.h and
-- src/libsodium/crypto_core/ed25519/ref10/fe_51/fe.h: the field of Curve25519 in five limbs of 51
-- bits, an `uint64_t` each. `uint128_t` has 128 bits. What a function writes through `h` is its
-- result.
pub mod Field
pub mod Mul
pub mod Square
pub mod Tests
pub mod Power
pub mod Represents
pub mod Congruence
pub mod Canonical
pub mod Encoding
pub mod Reduce
pub mod Select
pub mod Scale
pub mod Sub
pub mod Units
use libsodium.Base.{
  ℕ, zero, suc, ◌+◌, ◌-◌, ◌*◌, ◌/◌, ◌%◌, ◌^◌, bit_and, bit_or, bit_xor, ◌++◌, Option, Bytes, u64,
  u128, sub64, ◌<<<◌, ◌>>>◌, get_or,
}
use libsodium.Endian.{load64_le, store64_le}
use libsodium.Utils.Compare.{sodium_is_zero}

-- `fe25519`.
pub record Fe25519 : Type 0 where
  pub l0 : ℕ
  pub l1 : ℕ
  pub l2 : ℕ
  pub l3 : ℕ
  pub l4 : ℕ

abbrev pub mask51 : ℕ
mask51 = 0x7ffffffffffff

abbrev pub fe25519_0 : Fe25519
fe25519_0 = record { l0 = 0; l1 = 0; l2 = 0; l3 = 0; l4 = 0 }

abbrev pub fe25519_1 : Fe25519
fe25519_1 = record { l0 = 1; l1 = 0; l2 = 0; l3 = 0; l4 = 0 }

unfoldable pub fe25519_add : Fe25519 → Fe25519 → Fe25519
fe25519_add f g = record {
  l0 = u64 (f.l0 + g.l0);
  l1 = u64 (f.l1 + g.l1);
  l2 = u64 (f.l2 + g.l2);
  l3 = u64 (f.l3 + g.l3);
  l4 = u64 (f.l4 + g.l4);
}

unfoldable pub fe25519_sub : Fe25519 → Fe25519 → Fe25519
fe25519_sub f g =
    let h1 = u64 (g.l1 + (g.l0 >>> 51)) in
    let h0 = bit_and g.l0 mask51 in
    let h2 = u64 (g.l2 + (h1 >>> 51)) in
    let h1 = bit_and h1 mask51 in
    let h3 = u64 (g.l3 + (h2 >>> 51)) in
    let h2 = bit_and h2 mask51 in
    let h4 = u64 (g.l4 + (h3 >>> 51)) in
    let h3 = bit_and h3 mask51 in
    let h0 = u64 (h0 + u64 (19 * (h4 >>> 51))) in
    let h4 = bit_and h4 mask51 in
    record {
      l0 = sub64 (u64 (f.l0 + 0xfffffffffffda)) h0;
      l1 = sub64 (u64 (f.l1 + 0xffffffffffffe)) h1;
      l2 = sub64 (u64 (f.l2 + 0xffffffffffffe)) h2;
      l3 = sub64 (u64 (f.l3 + 0xffffffffffffe)) h3;
      l4 = sub64 (u64 (f.l4 + 0xffffffffffffe)) h4;
    }

unfoldable pub fe25519_neg : Fe25519 → Fe25519
fe25519_neg f = fe25519_sub fe25519_0 f

-- `mask = (uint64_t) (-(int64_t) b)`, and `(f ^ g) & mask` of one limb.
unfoldable pub select_mask : ℕ → ℕ
select_mask b = u64 (2 ^ 64 - b)

unfoldable pub masked : ℕ → ℕ → ℕ → ℕ
masked mask x y = bit_and (bit_xor x y) mask

-- The code in C, that is without `HAVE_AMD64_ASM`.
unfoldable pub fe25519_cmov : Fe25519 → Fe25519 → ℕ → Fe25519
fe25519_cmov f g b =
    let mask = select_mask b in
    record {
      l0 = bit_xor f.l0 (masked mask f.l0 g.l0);
      l1 = bit_xor f.l1 (masked mask f.l1 g.l1);
      l2 = bit_xor f.l2 (masked mask f.l2 g.l2);
      l3 = bit_xor f.l3 (masked mask f.l3 g.l3);
      l4 = bit_xor f.l4 (masked mask f.l4 g.l4);
    }

-- Both `f` and `g` are written.
unfoldable pub fe25519_cswap : Fe25519 → Fe25519 → ℕ → Fe25519 × Fe25519
fe25519_cswap f g b =
    let mask = select_mask b in
    let x0 = masked mask f.l0 g.l0 in
    let x1 = masked mask f.l1 g.l1 in
    let x2 = masked mask f.l2 g.l2 in
    let x3 = masked mask f.l3 g.l3 in
    let x4 = masked mask f.l4 g.l4 in
    (
      record {
        l0 = bit_xor f.l0 x0;
        l1 = bit_xor f.l1 x1;
        l2 = bit_xor f.l2 x2;
        l3 = bit_xor f.l3 x3;
        l4 = bit_xor f.l4 x4;
      },
      record {
        l0 = bit_xor g.l0 x0;
        l1 = bit_xor g.l1 x1;
        l2 = bit_xor g.l2 x2;
        l3 = bit_xor g.l3 x3;
        l4 = bit_xor g.l4 x4;
      },
    )

-- The carries at the end of `fe25519_mul`, `fe25519_sq` and `fe25519_sq2`, over the five sums.
unfoldable pub carry_sums : ℕ → ℕ → ℕ → ℕ → ℕ → Fe25519
carry_sums r0 r1 r2 r3 r4 =
    let r00 = bit_and (u64 r0) mask51 in
    let r1 = u128 (r1 + u64 (r0 >>> 51)) in
    let r01 = bit_and (u64 r1) mask51 in
    let r2 = u128 (r2 + u64 (r1 >>> 51)) in
    let r02 = bit_and (u64 r2) mask51 in
    let r3 = u128 (r3 + u64 (r2 >>> 51)) in
    let r03 = bit_and (u64 r3) mask51 in
    let r4 = u128 (r4 + u64 (r3 >>> 51)) in
    let r04 = bit_and (u64 r4) mask51 in
    let r00 = u64 (r00 + u64 (19 * u64 (r4 >>> 51))) in
    let r01 = u64 (r01 + (r00 >>> 51)) in
    let r02 = u64 (r02 + (r01 >>> 51)) in
    record { l0 = bit_and r00 mask51; l1 = bit_and r01 mask51; l2 = r02; l3 = r03; l4 = r04 }

-- A sum of three and of five products, from the left.
unfoldable pub sum3 : ℕ → ℕ → ℕ → ℕ
sum3 a b c = u128 (u128 (u128 a + u128 b) + u128 c)

unfoldable pub sum5 : ℕ → ℕ → ℕ → ℕ → ℕ → ℕ
sum5 a b c d e = u128 (u128 (sum3 a b c + u128 d) + u128 e)

unfoldable pub fe25519_mul : Fe25519 → Fe25519 → Fe25519
fe25519_mul f g =
    let f1_19 = u64 (19 * f.l1) in
    let f2_19 = u64 (19 * f.l2) in
    let f3_19 = u64 (19 * f.l3) in
    let f4_19 = u64 (19 * f.l4) in
    carry_sums (sum5 (f.l0 * g.l0) (f1_19 * g.l4) (f2_19 * g.l3) (f3_19 * g.l2) (f4_19 * g.l1))
      (sum5 (f.l0 * g.l1) (f.l1 * g.l0) (f2_19 * g.l4) (f3_19 * g.l3) (f4_19 * g.l2))
      (sum5 (f.l0 * g.l2) (f.l1 * g.l1) (f.l2 * g.l0) (f3_19 * g.l4) (f4_19 * g.l3))
      (sum5 (f.l0 * g.l3) (f.l1 * g.l2) (f.l2 * g.l1) (f.l3 * g.l0) (f4_19 * g.l4))
      (sum5 (f.l0 * g.l4) (f.l1 * g.l3) (f.l2 * g.l2) (f.l3 * g.l1) (f.l4 * g.l0))

-- The five sums that `fe25519_sq` and `fe25519_sq2` compute.
unfoldable pub square_sums : Fe25519 → (ℕ → ℕ → ℕ → ℕ → ℕ → Fe25519) → Fe25519
square_sums f next =
    let f0_2 = u64 (f.l0 <<< 1) in
    let f1_2 = u64 (f.l1 <<< 1) in
    let f1_38 = u64 (38 * f.l1) in
    let f2_38 = u64 (38 * f.l2) in
    let f3_38 = u64 (38 * f.l3) in
    let f3_19 = u64 (19 * f.l3) in
    let f4_19 = u64 (19 * f.l4) in
    next (sum3 (f.l0 * f.l0) (f1_38 * f.l4) (f2_38 * f.l3))
      (sum3 (f0_2 * f.l1) (f2_38 * f.l4) (f3_19 * f.l3))
      (sum3 (f0_2 * f.l2) (f.l1 * f.l1) (f3_38 * f.l4))
      (sum3 (f0_2 * f.l3) (f1_2 * f.l2) (f4_19 * f.l4))
      (sum3 (f0_2 * f.l4) (f1_2 * f.l3) (f.l2 * f.l2))

unfoldable pub fe25519_sq : Fe25519 → Fe25519
fe25519_sq f = square_sums f carry_sums

-- `r <<= 1` of each sum, then the carries.
unfoldable pub carry_doubled : ℕ → ℕ → ℕ → ℕ → ℕ → Fe25519
carry_doubled r0 r1 r2 r3 r4 =
    carry_sums (u128 (r0 <<< 1)) (u128 (r1 <<< 1)) (u128 (r2 <<< 1)) (u128 (r3 <<< 1))
      (u128 (r4 <<< 1))

unfoldable pub fe25519_sq2 : Fe25519 → Fe25519
fe25519_sq2 f = square_sums f carry_doubled

unfoldable pub fe25519_mul32 : Fe25519 → ℕ → Fe25519
fe25519_mul32 f n =
    let a = u128 (f.l0 * n) in
    let h0 = bit_and (u64 a) mask51 in
    let a = u128 (u128 (f.l1 * n) + u64 (a >>> 51)) in
    let h1 = bit_and (u64 a) mask51 in
    let a = u128 (u128 (f.l2 * n) + u64 (a >>> 51)) in
    let h2 = bit_and (u64 a) mask51 in
    let a = u128 (u128 (f.l3 * n) + u64 (a >>> 51)) in
    let h3 = bit_and (u64 a) mask51 in
    let a = u128 (u128 (f.l4 * n) + u64 (a >>> 51)) in
    let h4 = bit_and (u64 a) mask51 in
    record { l0 = u64 (h0 + u128 ((a >>> 51) * 19)); l1 = h1; l2 = h2; l3 = h3; l4 = h4 }

-- `fe25519_frombytes`, of 32 bytes.
unfoldable pub fe25519_frombytes : Bytes → Fe25519
fe25519_frombytes s = record {
  l0 = bit_and (load64_le s 0) mask51;
  l1 = bit_and (load64_le s 6 >>> 3) mask51;
  l2 = bit_and (load64_le s 12 >>> 6) mask51;
  l3 = bit_and (load64_le s 19 >>> 1) mask51;
  l4 = bit_and (load64_le s 24 >>> 12) mask51;
}

-- The five steps `t[i + 1] += t[i] >> 51; t[i] &= mask;` with `t[0] += 19 * (t[4] >> 51)` last.
unfoldable pub carry_round : Fe25519 → Fe25519
carry_round t =
    let t1 = u128 (t.l1 + (t.l0 >>> 51)) in
    let t0 = bit_and t.l0 mask51 in
    let t2 = u128 (t.l2 + (t1 >>> 51)) in
    let t1 = bit_and t1 mask51 in
    let t3 = u128 (t.l3 + (t2 >>> 51)) in
    let t2 = bit_and t2 mask51 in
    let t4 = u128 (t.l4 + (t3 >>> 51)) in
    let t3 = bit_and t3 mask51 in
    record {
      l0 = u128 (t0 + u128 (19 * (t4 >>> 51)));
      l1 = t1;
      l2 = t2;
      l3 = t3;
      l4 = bit_and t4 mask51;
    }

-- `t[0] += 0x8000000000000 - 19` and the like for the other limbs.
unfoldable pub add_offset : Fe25519 → Fe25519
add_offset t = record {
  l0 = u128 (t.l0 + (0x8000000000000 - 19));
  l1 = u128 (t.l1 + (0x8000000000000 - 1));
  l2 = u128 (t.l2 + (0x8000000000000 - 1));
  l3 = u128 (t.l3 + (0x8000000000000 - 1));
  l4 = u128 (t.l4 + (0x8000000000000 - 1));
}

-- The last carries, which drop 2^255, and the casts to `uint64_t`.
unfoldable pub carry_last : Fe25519 → Fe25519
carry_last t =
    let t1 = u128 (t.l1 + (t.l0 >>> 51)) in
    let t2 = u128 (t.l2 + (t1 >>> 51)) in
    let t3 = u128 (t.l3 + (t2 >>> 51)) in
    let t4 = u128 (t.l4 + (t3 >>> 51)) in
    record {
      l0 = u64 (bit_and t.l0 mask51);
      l1 = u64 (bit_and t1 mask51);
      l2 = u64 (bit_and t2 mask51);
      l3 = u64 (bit_and t3 mask51);
      l4 = u64 (bit_and t4 mask51);
    }

unfoldable pub fe25519_reduce : Fe25519 → Fe25519
fe25519_reduce f =
    let t = carry_round (carry_round f) in
    let t = carry_round (record t { l0 = u128 (t.l0 + 19) }) in carry_last (add_offset t)

unfoldable pub fe25519_tobytes : Fe25519 → Bytes
fe25519_tobytes h =
    let t = fe25519_reduce h in
    let t0 = bit_or t.l0 (u64 (t.l1 <<< 51)) in
    let t1 = bit_or (t.l1 >>> 13) (u64 (t.l2 <<< 38)) in
    let t2 = bit_or (t.l2 >>> 26) (u64 (t.l3 <<< 25)) in
    let t3 = bit_or (t.l3 >>> 39) (u64 (t.l4 <<< 12)) in
    store64_le t0 ++ store64_le t1 ++ store64_le t2 ++ store64_le t3

unfoldable pub fe25519_isnegative : Fe25519 → ℕ
fe25519_isnegative f = bit_and (get_or (fe25519_tobytes f) 0 0) 1

unfoldable pub fe25519_iszero : Fe25519 → Option ℕ
fe25519_iszero f = sodium_is_zero (fe25519_tobytes f) 32
