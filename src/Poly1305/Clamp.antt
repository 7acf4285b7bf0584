-- ===== src/Poly1305/Clamp.antt =====
-- The key of src/libsodium/crypto_onetimeauth/poly1305/donna/poly1305_donna64.h: `r` is the number of
-- its first half with the bits of a mask.
use libsodium.Base.{
  ℕ, ◌+◌, ◌*◌, ◌/◌, ◌%◌, ◌^◌, ◌<◌, bit_and, bit_or, ◌≡◌, sym, ap, ◌∙◌, arith, u64, ◌<<<◌, ◌>>>◌,
  Bytes, IsBytes, le_value, take,
}
use libsodium.Bits.And.{bit_and-mod, bit_and-shift, bit_and-lt, bit_and-low_digits}
use libsodium.Endian.{load64_le}
use libsodium.Endian.Load.{load64_le-lt, load64_le_lower}
use libsodium.Poly1305.{poly1305_init}
use libsodium.Poly1305.Field.{value, IsClamped}
use libsodium.Poly1305.Load.{middle_limb}

abbrev pub clamp : ℕ
clamp = 0x0ffffffc0ffffffc0ffffffc0fffffff

module _ (t0 t1 : ℕ) (b0 : t0 < 2 ^ 64) (b1 : t1 < 2 ^ 64) where
  number : ℕ
  number = t0 + 2 ^ 64 * t1

  masked0 : bit_and t0 0xffc0fffffff ≡ bit_and number clamp % 2 ^ 44
  unfolding number
  masked0 =
      bit_and-low_digits 44 t0 0xffc0fffffff (omega arith)
      ∙ (ap (λ (n : ℕ). bit_and n 0xffc0fffffff) (omega arith) ∙ sym (bit_and-mod 44 number clamp))

  masked1 :
      bit_and (bit_or (t0 >>> 44) (u64 (t1 <<< 20))) 0xfffffc0ffff
      ≡ bit_and number clamp / 2 ^ 44 % 2 ^ 44
  unfolding number
  masked1 =
      let middle = t1 % 2 ^ 44 * 2 ^ 20 + t0 / 2 ^ 44 in
      ap (λ (n : ℕ). bit_and n 0xfffffc0ffff) (middle_limb t0 t1 b0)
      ∙ (bit_and-low_digits 44 middle 0xfffffc0ffff (omega arith)
          ∙ (ap (λ (n : ℕ). bit_and n 0xfffffc0ffff) (omega arith)
              ∙ (sym (bit_and-mod 44 (number / 2 ^ 44) (clamp / 2 ^ 44))
                  ∙ ap (λ (n : ℕ). n % 2 ^ 44) (sym (bit_and-shift 44 number clamp)))))

  masked2 : bit_and (t1 >>> 24) 0x00ffffffc0f ≡ bit_and number clamp / 2 ^ 88
  unfolding number
  masked2 =
      ap (λ (n : ℕ). bit_and n 0x00ffffffc0f) (omega arith) ∙ sym (bit_and-shift 88 number clamp)

module _ (key : Bytes) (bytes : IsBytes key) where
  pub poly1305_init-r : value (poly1305_init key).r ≡ bit_and (le_value (take 16 key)) clamp
  unfolding poly1305_init number
  poly1305_init-r =
      let t0 = load64_le key 0 in
      let t1 = load64_le key 8 in
      let b0 = load64_le-lt key 0 bytes in
      let b1 = load64_le-lt key 8 bytes in
      omega (
        arith,
        masked0 t0 t1 b0 b1,
        masked1 t0 t1 b0 b1,
        masked2 t0 t1 b0 b1,
        ap (λ (n : ℕ). bit_and n clamp) (load64_le_lower key bytes),
      )

  pub poly1305_init-IsClamped : IsClamped (poly1305_init key).r
  unfolding poly1305_init
  poly1305_init-IsClamped =
      let t0 = load64_le key 0 in
      let t1 = load64_le key 8 in
      record {
        below0 = bit_and-lt 44 t0 0xffc0fffffff (omega arith);
        below1 = bit_and-lt 44 (bit_or (t0 >>> 44) (u64 (t1 <<< 20))) 0xfffffc0ffff (omega arith);
        below2 = bit_and-lt 36 (t1 >>> 24) 0x00ffffffc0f (omega arith);
      }
