-- ===== src/Codecs/Base64/Length.antt =====
-- The length that `sodium_base64_encoded_len` of src/libsodium/sodium/codecs.c computes without a
-- branch, and the one that `sodium_bin2base64` of the same file writes.
use libsodium.Base.{
  ℕ, zero, suc, ◌+◌, ◌-◌, ◌*◌, ◌/◌, ◌<◌, ◌≤◌, bit_and, bit_or, true, ◌≡◌, refl, ◌∙◌, ap, arith,
  ◌>>>◌, sub32, ok, le→ltb, ◌==◌, if◌then◌else◌,
}
use native.Mathlib.Decide.{ℕ_discrete}
use libsodium.Bits.And.{bit_and-low, bit_and-lt}
use libsodium.Codecs.Hex.{size_max}
use libsodium.Codecs.Base64.{
  is_variant, is_padded, text_len, base64_encoded_len, sodium_base64_encoded_len,
}

-- The characters of the bytes past the last three, in the variants with padding and without.
tail_len : ℕ → ℕ → ℕ
tail_len r b = bit_and (bit_or r (r >>> 1)) 1 * (4 - bit_and (sub32 0 b) (3 - r))

tail_padded : (r : ℕ) → r < 3 → tail_len r 0 ≡ (if r == 0 then 0 else 4)
unfolding tail_len
tail_padded zero h = refl
tail_padded (suc zero) h = refl
tail_padded (suc (suc zero)) h = refl
tail_padded (suc (suc (suc r))) h = absurd (omega arith)

tail_bare : (r : ℕ) → r < 3 → tail_len r 1 ≡ (if r == 0 then 0 else 2 + (r >>> 1))
unfolding tail_len
tail_bare zero h = refl
tail_bare (suc zero) h = refl
tail_bare (suc (suc zero)) h = refl
tail_bare (suc (suc (suc r))) h = absurd (omega arith)

encoded_len_tail :
    (n v : ℕ)
    → base64_encoded_len n v ≡ n / 3 * 4 + tail_len (n - n / 3 * 3) (bit_and v 2 >>> 1) + 1
unfolding base64_encoded_len tail_len
encoded_len_tail n v = refl

encoded_len_lem : (n v : ℕ) → base64_encoded_len n v ≡ text_len n v + 1
unfolding text_len is_padded
encoded_len_lem n v =
    let r = n - n / 3 * 3 in
    let even = bit_and-low v 2 in
    let small = bit_and-lt 2 v 2 (omega arith) in
    let few : r < 3 = omega arith in
    elim (ℕ_discrete (bit_and v 2) 0) [
      | yes padded ↦
          let none_set : bit_and v 2 >>> 1 ≡ 0 = omega arith in
          encoded_len_tail n v
          ∙ (ap (λ (b : ℕ). n / 3 * 4 + tail_len r b + 1) none_set
              ∙ (ground (arith, tail_padded r few)))
      | no bare ↦
          let one_set : bit_and v 2 >>> 1 ≡ 1 = omega arith in
          encoded_len_tail n v
          ∙ (ap (λ (b : ℕ). n / 3 * 4 + tail_len r b + 1) one_set
              ∙ (ground (arith, tail_bare r few)))
    ]

-- For a variant and a length within its bound, the length announced for a byte string is that of the text
-- which `sodium_bin2base64` writes for it and one terminator.
pub sodium_base64_encoded_len_lem :
    (bin_len variant : ℕ)
    → is_variant variant ≡ true
    → bin_len / 3 ≤ (size_max - 5) / 4
    → sodium_base64_encoded_len bin_len variant ≡ ok (text_len bin_len variant + 1)
unfolding sodium_base64_encoded_len
sodium_base64_encoded_len_lem bin_len variant valid small =
    rw (valid, le→ltb ((size_max - 5) / 4) (bin_len / 3) small)
      (ap ok (encoded_len_lem bin_len variant))
