-- ===== src/Utils/Pad/Rounds.antt =====
-- The rounds of the loop of `sodium_pad` of src/libsodium/sodium/utils.c.
use native.Mathlib.Decide.{ℕ_discrete}
use libsodium.Base.{
  ℕ, zero, suc, ◌+◌, ◌-◌, ◌^◌, ◌≤◌, ◌<◌, bit_or, bit_xor, Option, some, ◌≡◌, ◌≢◌, ◌⊎◌, refl, ◌∙◌,
  arith, Bytes, IsBytes, length, get_or, set, length-set, get_elem?-eq-get_or, get_or-set_self,
  get_or-set_ne, All-set, All-get_or, u8, if◌then◌else◌, ltb, ◌==◌,
}
use libsodium.Bits.Xor.{bit_xor-eq-zero, bit_xor-lt, bit_xor_self}
use libsodium.Bits.Or.{bit_or-zero, zero-bit_or}
use libsodium.Bits.And.{bit_and-mask, bit_and-zero}
use libsodium.Utils.Pad.{below, barrier_mask, pad_byte, pad_loop}

abbrev pub byte_at : Bytes → ℕ → ℕ
byte_at buf i = get_or buf i 0

pub below_lem :
    (buf : Bytes) (tail i : ℕ)
    → i ≤ tail
    → tail < length buf
    → below buf tail i ≡ some (byte_at buf (tail - i))
unfolding below
below_lem buf tail i h p = ground (arith, get_elem?-eq-get_or buf (tail - i) 0)

barrier_mask-marker : (x : ℕ) → barrier_mask x x ≡ 255
unfolding barrier_mask
barrier_mask-marker x = rw bit_xor_self refl

barrier_mask-other : (i x : ℕ) → i < 2 ^ 56 → x < 2 ^ 56 → i ≢ x → barrier_mask i x ≡ 0
unfolding barrier_mask
barrier_mask-other i x hi hx ne =
    let bound = bit_xor-lt 56 i x hi hx in
    let some_set : bit_xor i x ≢ 0 = λ e. ne (bit_xor-eq-zero i x e) in omega arith

-- What the round `j` stores in place of `x`.
unfoldable pub padded_byte : ℕ → ℕ → ℕ → ℕ
padded_byte xpadlen j x = if ltb j xpadlen then 0 else if j == xpadlen then 0x80 else x

-- `mask` before the round `i`.
pub mask_at : ℕ → ℕ → ℕ
mask_at xpadlen i = if ltb xpadlen i then 255 else 0

pub mask_start : (x : ℕ) → mask_at x 0 ≡ 0
unfolding mask_at
mask_start x = ground arith

module _ (xpadlen i : ℕ) (hi : i < 2 ^ 56) (hx : xpadlen < 2 ^ 56) where
  mask_step : u8 (bit_or (mask_at xpadlen i) (barrier_mask i xpadlen)) ≡ mask_at xpadlen (i + 1)
  unfolding mask_at
  mask_step = elim (ℕ_discrete i xpadlen) [
    | yes e ↦ rw (e, barrier_mask-marker) (ground (arith, zero-bit_or 255))
    | no ne ↦ rw (barrier_mask-other i xpadlen hi hx ne, bit_or-zero) (ground arith)
  ]

  byte_step :
      (x : ℕ)
      → x < 256
      → pad_byte x (mask_at xpadlen i) (barrier_mask i xpadlen) ≡ padded_byte xpadlen i x
  unfolding mask_at pad_byte padded_byte
  byte_step x h = elim (ℕ_discrete i xpadlen) [
    | yes e ↦ rw (e, barrier_mask-marker) (ground (arith, bit_and-zero x, zero-bit_or 0x80))
    | no ne ↦
        rw (barrier_mask-other i xpadlen hi hx ne, bit_and-zero, bit_or-zero)
          (ground (arith, bit_and-zero x, bit_and-mask 8 x))
  ]

-- The bytes of index `tail - j`, for `j` from `i` on in `left` rounds, are as the rounds store
-- them, and the other bytes are those of `buf`.
pub record Writes (xpadlen tail i left : ℕ) (buf : Bytes) (result : Option Bytes) : Type 0 where
  pub out : Bytes
  pub returns : result ≡ some out
  pub bytes : IsBytes out
  pub same_length : length out ≡ length buf
  pub inside :
      (j : ℕ)
      → i ≤ j
      → j < i + left
      → byte_at out (tail - j) ≡ padded_byte xpadlen j (byte_at buf (tail - j))
  pub outside : (p : ℕ) → (tail < p + i) ⊎ (p + i + left ≤ tail) → byte_at out p ≡ byte_at buf p

module _ (xpadlen tail : ℕ) (hx : xpadlen < 2 ^ 56) where
  Writes-set :
      (i left : ℕ) (buf : Bytes) (result : Option Bytes)
      → i + suc left ≤ tail + 1
      → tail < length buf
      → Writes xpadlen tail
          (i + 1)
          left
          (set buf (tail - i) (padded_byte xpadlen i (byte_at buf (tail - i))))
          result
      → Writes xpadlen tail i (suc left) buf result
  Writes-set i left buf result fits long r =
      let v = padded_byte xpadlen i (byte_at buf (tail - i)) in
      record {
        out = r.out;
        returns = r.returns;
        bytes = r.bytes;
        same_length = r.same_length ∙ length-set buf (tail - i) v;
        inside = λ j lo hi. ground (
          arith,
          r.inside j,
          r.outside (tail - i),
          get_or-set_self buf (tail - i) v 0,
          get_or-set_ne buf (tail - i) (tail - j) v 0,
        );
        outside = λ p away. ground (arith, r.outside p, get_or-set_ne buf (tail - i) p v 0);
      }

  padded_byte-lt : (i x : ℕ) → x < 256 → padded_byte xpadlen i x < 256
  unfolding padded_byte
  padded_byte-lt i x h = ground arith

  pub pad_loop_lem :
      (left i : ℕ) (buf : Bytes)
      → i + left ≤ 2 ^ 56
      → i + left ≤ tail + 1
      → tail < length buf
      → IsBytes buf
      → Writes xpadlen tail i left buf (pad_loop xpadlen tail left i (mask_at xpadlen i) buf)
  unfolding pad_loop
  pad_loop_lem zero i buf small fits long h = record {
    out = buf;
    returns = refl;
    bytes = h;
    same_length = refl;
    inside = λ j lo hi. absurd (omega arith);
    outside = λ p away. refl;
  }
  pad_loop_lem (suc left) i buf small fits long h =
      let x = byte_at buf (tail - i) in
      let v = padded_byte xpadlen i x in
      let hx' : x < 256 = All-get_or (λ y. y < 256) buf (tail - i) 0 h (omega arith) in
      let rest =
        pad_loop_lem left (i + 1) (set buf (tail - i) v) (omega arith) (omega arith)
          (omega (arith, length-set buf (tail - i) v))
          (All-set (λ y. y < 256) buf (tail - i) v h (padded_byte-lt i x hx')) in
      rw
        (
          below_lem buf tail i (omega arith) long,
          byte_step xpadlen i (omega arith) hx x hx',
          mask_step xpadlen i (omega arith) hx,
        )
        (Writes-set i left buf _ fits long rest)
