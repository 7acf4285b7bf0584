-- ===== src/Poly1305/Load.antt =====
-- The loads of src/libsodium/crypto_onetimeauth/poly1305/donna/poly1305_donna64.h: two words as
-- three limbs, a block added to the accumulator, and the clamped key.
use libsodium.Base.{
  ℕ, ◌+◌, ◌*◌, ◌/◌, ◌%◌, ◌^◌, ◌<◌, ◌≤◌, bit_and, bit_or, ◌≡◌, ◌∙◌, arith, u64, ◌<<<◌, ◌>>>◌, Bytes,
  IsBytes, length, le_value, Bool, true, false, if◌then◌else◌,
}
use libsodium.Bits.Or.{bit_or-field, bit_or-zero, bit_or_comm}
use libsodium.Endian.{load64_le}
use libsodium.Endian.Load.{load64_le-lt, load64_le_pair}
use libsodium.Poly1305.{Limbs, add_block, mask44, mask42}
use libsodium.Poly1305.Field.{value, IsReduced, IsLoaded, bit_and-mask44, bit_and-mask42}

-- The 44 bits across the boundary of two words.
pub middle_limb :
    (t0 t1 : ℕ)
    → t0 < 2 ^ 64
    → bit_or (t0 >>> 44) (u64 (t1 <<< 20)) ≡ t1 % 2 ^ 44 * 2 ^ 20 + t0 / 2 ^ 44
middle_limb t0 t1 b0 =
    let moved : u64 (t1 <<< 20) ≡ (t1 % 2 ^ 44) <<< 20 = omega arith in
    rw (moved, bit_or_comm (t0 >>> 44) ((t1 % 2 ^ 44) <<< 20))
      (bit_or-field 20 (t1 % 2 ^ 44) (t0 / 2 ^ 44) (omega arith))

pub middle_limb-mask :
    (t0 t1 : ℕ)
    → t0 < 2 ^ 64
    → bit_and (bit_or (t0 >>> 44) (u64 (t1 <<< 20))) mask44 ≡ t1 % 2 ^ 24 * 2 ^ 20 + t0 / 2 ^ 44
middle_limb-mask t0 t1 b0 =
    rw (middle_limb t0 t1 b0) (bit_and-mask44 (t1 % 2 ^ 44 * 2 ^ 20 + t0 / 2 ^ 44) ∙ omega arith)

-- The top limb with the bit 2^128 of the number, which every block but a last short one carries.
unfoldable pub top_bit : Bool → ℕ
top_bit final = if final then 0 else 1

top_bit-le : (final : Bool) → top_bit final ≤ 1
unfolding top_bit
top_bit-le true = omega arith
top_bit-le false = omega arith

top_limb :
    (t1 : ℕ)
    → (final : Bool) → t1 < 2 ^ 64
    → bit_or (bit_and (t1 >>> 24) mask42) (if final then 0 else 2 ^ 40)
      ≡ t1 / 2 ^ 24 + 2 ^ 40 * top_bit final
unfolding top_bit
top_limb t1 true b1 =
    bit_or-zero (bit_and (t1 >>> 24) mask42) ∙ (bit_and-mask42 (t1 >>> 24) ∙ omega arith)
top_limb t1 false b1 =
    let low : bit_and (t1 >>> 24) mask42 ≡ t1 / 2 ^ 24 = bit_and-mask42 (t1 >>> 24) ∙ omega arith in
    rw (low, bit_or_comm (t1 / 2 ^ 24) (1 <<< 40))
      (bit_or-field 40 1 (t1 / 2 ^ 24) (omega arith) ∙ omega arith)

module _ (h : Limbs) (final : Bool) (m : Bytes) (bytes : IsBytes m) (reduced : IsReduced h) where
  t0 : ℕ
  t0 = load64_le m 0

  t1 : ℕ
  t1 = load64_le m 8

  t0-lt : t0 < 2 ^ 64
  unfolding t0
  t0-lt = load64_le-lt m 0 bytes

  t1-lt : t1 < 2 ^ 64
  unfolding t1
  t1-lt = load64_le-lt m 8 bytes

  limb0 : (add_block h final m).l0 ≡ h.l0 + t0 % 2 ^ 44
  unfolding add_block t0
  limb0 = rw (bit_and-mask44 t0) (omega (arith, reduced.below0))

  limb1 : (add_block h final m).l1 ≡ h.l1 + (t1 % 2 ^ 24 * 2 ^ 20 + t0 / 2 ^ 44)
  unfolding add_block t0 t1
  limb1 = rw (middle_limb-mask t0 t1 t0-lt) (omega (arith, t0-lt, reduced.below1))

  limb2 : (add_block h final m).l2 ≡ h.l2 + (t1 / 2 ^ 24 + 2 ^ 40 * top_bit final)
  unfolding add_block t0 t1
  limb2 = rw (top_limb t1 final t1-lt) (omega (arith, t1-lt, top_bit-le final, reduced.below2))

  pub add_block-IsLoaded : IsLoaded (add_block h final m)
  add_block-IsLoaded = record {
    below0 = omega (arith, limb0, reduced.below0);
    below1 = omega (arith, limb1, t0-lt, reduced.below1);
    below2 = omega (arith, limb2, t1-lt, top_bit-le final, reduced.below2);
  }

  -- A block is added as a number of 17 bytes.
  pub add_block-value :
      length m ≤ 16 → value (add_block h final m) ≡ value h + (le_value m + 2 ^ 128 * top_bit final)
  unfolding t0 t1
  add_block-value short =
      omega (arith, limb0, limb1, limb2, t0-lt, t1-lt, load64_le_pair m bytes short)
