-- ===== src/Utils/Pad/Unpadding.antt =====
-- What `sodium_unpad` of src/libsodium/sodium/utils.c reads off the end of a buffer.
use native.Mathlib.Decide.{ℕ_discrete}
use native.Mathlib.Nat.{zero-add, add-zero}
use libsodium.Base.{
  ℕ, zero, suc, ◌+◌, ◌-◌, ◌/◌, ◌%◌, ◌^◌, ◌≤◌, ◌<◌, bit_and, bit_or, bit_xor, min, some, ◌≡◌, ◌≢◌,
  ◌⊎◌, inl, inr, refl, ◌∙◌, arith, Bytes, IsBytes, length, All-get_or, u8, sub32, sub64, ok, le→ltb,
}
use libsodium.Bits.Xor.{bit_xor-eq-zero, bit_xor-lt}
use libsodium.Bits.Or.{bit_or-zero, zero-bit_or, bit_or-eq-zero, bit_or-lt}
use libsodium.Bits.And.{bit_and-mask, bit_and-zero, bit_and-shift, bit_and-low}
use libsodium.Utils.Pad.{
  below, is_barrier, negated, unpad_step, unpad_loop, unpadded_result, sodium_unpad, Scan, Unpadded,
}
use libsodium.Utils.Pad.Rounds.{byte_at, below_lem}

is_barrier_bits :
    (s : Scan) (c : ℕ)
    → is_barrier s c
      ≡ min
          (min (sub32 s.acc 1 / 256 % 2) (sub64 s.pad_len 1 / 256 % 2))
          (sub32 (bit_xor c 0x80) 1 / 256 % 2)
unfolding is_barrier
is_barrier_bits s c =
    rw
      (
        bit_and-mask 1,
        bit_and-shift 8 (bit_and (sub32 s.acc 1) (sub64 s.pad_len 1)),
        bit_and-low,
        bit_and-shift 8 (sub32 s.acc 1),
        bit_and-low,
      )
      refl

-- A byte that is not 0 was seen: no barrier any more.
is_barrier_late : (s : Scan) (c : ℕ) → 0 < s.acc → s.acc < 256 → is_barrier s c ≡ 0
is_barrier_late s c pos small = omega (arith, is_barrier_bits s c)

is_barrier-marker : (s : Scan) (c : ℕ) → s.acc ≡ 0 → s.pad_len ≡ 0 → c ≡ 0x80 → is_barrier s c ≡ 1
is_barrier-marker s c a p e = rw (is_barrier_bits, a, p, e) refl

is_barrier-other : (s : Scan) (c : ℕ) → c < 256 → c ≢ 0x80 → is_barrier s c ≡ 0
is_barrier-other s c small ne =
    let bound = bit_xor-lt 8 c 0x80 small (omega arith) in
    let some_set : bit_xor c 0x80 ≢ 0 = λ e. ne (bit_xor-eq-zero c 0x80 e) in
    omega (arith, is_barrier_bits s c)

-- `*(tail - k)` is the marker, and the bytes behind it are 0.
pub record IsMarker (buf : Bytes) (tail k : ℕ) : Type 0 where
  pub marker : byte_at buf (tail - k) ≡ 0x80
  pub zeros : (j : ℕ) → j < k → byte_at buf (tail - j) ≡ 0

-- What the loop has seen before the round `i`.
data Seen (buf : Bytes) (tail i : ℕ) (s : Scan) : Type 0 where
  blank :
      ((j : ℕ) → j < i → byte_at buf (tail - j) ≡ 0)
      → s.acc ≡ 0
      → s.pad_len ≡ 0
      → s.valid ≡ 0
      → Seen buf tail i s
  found :
      (k : ℕ)
      → k < i
      → IsMarker buf tail k
      → 0 < s.acc
      → s.acc < 256
      → s.pad_len ≡ k
      → s.valid ≡ 1
      → Seen buf tail i s
  spoilt :
      (m : ℕ)
      → m < i
      → ((j : ℕ) → j < m → byte_at buf (tail - j) ≡ 0)
      → byte_at buf (tail - m) ≢ 0
      → byte_at buf (tail - m) ≢ 0x80
      → 0 < s.acc
      → s.acc < 256
      → s.pad_len ≡ 0
      → s.valid ≡ 0
      → Seen buf tail i s

bit_or-pos :
    (a b : ℕ)
    → a < 256
    → b < 256
    → (0 < a) ⊎ (0 < b)
    → (0 < u8 (bit_or a b)) × (u8 (bit_or a b) < 256)
bit_or-pos a b ha hb pos =
    let bound = bit_or-lt 8 a b ha hb in
    let some_set : bit_or a b ≢ 0 = λ e. grind (arith, bit_or-eq-zero a b e) in
    (omega arith, omega arith)

module _ (i c : ℕ) (s : Scan) (hc : c < 256) where
  step_late :
      0 < s.acc
      → s.acc < 256
      → s.valid < 2
      → (0 < (unpad_step i c s).acc)
        × ((unpad_step i c s).acc < 256)
        × ((unpad_step i c s).pad_len ≡ s.pad_len)
        × ((unpad_step i c s).valid ≡ s.valid)
  unfolding unpad_step negated
  step_late pos small v =
      let (lo, hi) = bit_or-pos s.acc c small hc (inl pos) in
      (
        lo,
        hi,
        rw (is_barrier_late s c pos small, bit_and-zero, bit_or-zero) refl,
        rw (is_barrier_late s c pos small, bit_or-zero) (omega arith),
      )

  step-marker :
      s.acc ≡ 0
      → s.pad_len ≡ 0
      → s.valid ≡ 0
      → c ≡ 0x80
      → i < 2 ^ 64
      → (0 < (unpad_step i c s).acc)
        × ((unpad_step i c s).acc < 256)
        × ((unpad_step i c s).pad_len ≡ i)
        × ((unpad_step i c s).valid ≡ 1)
  unfolding unpad_step negated
  step-marker a p v e hi =
      let (lo, up) = bit_or-pos s.acc c (omega arith) hc (inr (omega arith)) in
      (
        lo,
        up,
        rw (is_barrier-marker s c a p e, p, zero-bit_or, bit_and-mask 64) (omega arith),
        rw (is_barrier-marker s c a p e, v) refl,
      )

  step-other :
      s.acc ≡ 0
      → s.pad_len ≡ 0
      → s.valid ≡ 0
      → c ≢ 0x80
      → ((unpad_step i c s).acc ≡ c)
        × ((unpad_step i c s).pad_len ≡ 0)
        × ((unpad_step i c s).valid ≡ 0)
  unfolding unpad_step negated
  step-other a p v ne = (
    rw (a, zero-bit_or) (omega arith),
    rw (is_barrier-other s c hc ne, p, bit_and-zero) refl,
    rw (is_barrier-other s c hc ne, v) refl,
  )

-- One round takes what was seen of `i` bytes to what was seen of `i + 1`.
module _ (buf : Bytes) (tail i : ℕ) (s : Scan) (hi : i < 2 ^ 64)
    (h : byte_at buf (tail - i) < 256) where
  zeros-suc :
      ((j : ℕ) → j < i → byte_at buf (tail - j) ≡ 0)
      → byte_at buf (tail - i) ≡ 0
      → (j : ℕ) → j < i + 1
      → byte_at buf (tail - j) ≡ 0
  zeros-suc zeros now j below = elim (ℕ_discrete j i) [
    | yes e ↦ rw e now
    | no ne ↦ zeros j (omega arith)
  ]

  Seen-blank :
      ((j : ℕ) → j < i → byte_at buf (tail - j) ≡ 0)
      → s.acc ≡ 0
      → s.pad_len ≡ 0
      → s.valid ≡ 0
      → Seen buf tail (i + 1) (unpad_step i (byte_at buf (tail - i)) s)
  Seen-blank zeros a p v = elim (ℕ_discrete (byte_at buf (tail - i)) 0x80) [
    | yes e ↦
        let (lo, up, at, ok') = step-marker i (byte_at buf (tail - i)) s h a p v e hi in
        found i (omega arith) (record { marker = e; zeros = zeros }) lo up at ok'
    | no ne ↦
        let (same, none_yet, not_ok) = step-other i (byte_at buf (tail - i)) s h a p v ne in
        elim (ℕ_discrete (byte_at buf (tail - i)) 0) [
          | yes z ↦ blank (zeros-suc zeros z) (same ∙ z) none_yet not_ok
          | no nz ↦ spoilt i (omega arith) zeros nz ne (omega arith) (omega arith) none_yet not_ok
        ]
  ]

  Seen-step : Seen buf tail i s → Seen buf tail (i + 1) (unpad_step i (byte_at buf (tail - i)) s)
  Seen-step (blank zeros a p v) = Seen-blank zeros a p v
  Seen-step (found k below mark lo up p v) =
      let (lo', up', p', v') = step_late i (byte_at buf (tail - i)) s h lo up (omega arith) in
      found k (omega arith) mark lo' up' (p' ∙ p) (v' ∙ v)
  Seen-step (spoilt m below zeros nz nm lo up p v) =
      let (lo', up', p', v') = step_late i (byte_at buf (tail - i)) s h lo up (omega arith) in
      spoilt m (omega arith) zeros nz nm lo' up' (p' ∙ p) (v' ∙ v)

unpad_loop_lem :
    (buf : Bytes) (tail left i : ℕ) (s : Scan)
    → i + left ≤ tail + 1
    → tail < length buf
    → tail < 2 ^ 64
    → IsBytes buf
    → Seen buf tail i s
    → (t : Scan) × (unpad_loop buf tail left i s ≡ some t) × Seen buf tail (i + left) t
unfolding unpad_loop
unpad_loop_lem buf tail zero i s fits long small h seen = (s, refl, rw add-zero seen)
unpad_loop_lem buf tail (suc left) i s fits long small h seen =
    let byte : byte_at buf (tail - i) < 256 =
      All-get_or (λ x. x < 256) buf (tail - i) 0 h (omega arith) in
    let (t, run, last) =
      unpad_loop_lem buf tail left (i + 1) (unpad_step i (byte_at buf (tail - i)) s) (omega arith)
        long small h (Seen-step buf tail i s (omega arith) byte seen) in
    let total : i + suc left ≡ i + 1 + left = omega arith in
    (t, rw (below_lem buf tail i (omega arith) long) run, rw total last)

-- Two markers cannot stand at two places.
IsMarker-unique :
    (buf : Bytes) (tail k m : ℕ)
    → IsMarker buf tail k
    → byte_at buf (tail - m) ≢ 0
    → ((j : ℕ) → j < m → byte_at buf (tail - j) ≡ 0)
    → k ≡ m
IsMarker-unique buf tail k m mark nz zeros = grind (arith, mark.marker, mark.zeros m, zeros k)

-- How `sodium_unpad` ends: at a marker within the last block, with its place and 0; or with -1,
-- where no place there is a marker with zeros behind it.
pub record IsUnpadded (buf : Bytes) (padded_buflen blocksize : ℕ) (u : Unpadded) : Type 0 where
  pub accepts :
      (k : ℕ)
      → k < blocksize
      → IsMarker buf (padded_buflen - 1) k
      → (u.unpadded_buflen ≡ padded_buflen - 1 - k) × (u.ret ≡ 0)
  pub rejects :
      ((k : ℕ) → k < blocksize → ¬ IsMarker buf (padded_buflen - 1) k) → u.ret ≡ 2 ^ 32 - 1

Seen-IsUnpadded :
    (buf : Bytes) (n blocksize : ℕ) (s : Scan)
    → 0 < n
    → n < 2 ^ 64
    → blocksize ≤ n
    → Seen buf (n - 1) blocksize s
    → IsUnpadded buf n blocksize
        (record { unpadded_buflen = sub64 (sub64 n 1) s.pad_len; ret = sub32 s.valid 1 })
Seen-IsUnpadded buf n blocksize s pos small fits (blank zeros a p v) = record {
  accepts = λ k below m. absurd (omega (arith, m.marker, zeros k below));
  rejects = λ none_there. rw v refl;
}
Seen-IsUnpadded buf n blocksize s pos small fits (found k below mark lo up p v) = record {
  accepts = λ k' below' m.
      let same : k' ≡ k =
        IsMarker-unique buf (n - 1) k' k m (omega (arith, mark.marker)) mark.zeros in
      (rw (p, same) (omega arith), rw v refl);
  rejects = λ none_there. absurd (none_there k below mark);
}
Seen-IsUnpadded buf n blocksize s pos small fits (spoilt m below zeros nz nm lo up p v) = record {
  accepts = λ k below' mark.
      let same : k ≡ m = IsMarker-unique buf (n - 1) k m mark nz zeros in
      absurd (nm (rw same at mark.marker));
  rejects = λ none_there. rw v refl;
}

-- `sodium_unpad` of a buffer that has at least a block of `blocksize` bytes before its padded
-- length reads nothing out of range, and ends as `IsUnpadded` says.
pub sodium_unpad_lem :
    (buf : Bytes) (padded_buflen blocksize : ℕ)
    → IsBytes buf
    → 0 < blocksize
    → blocksize ≤ padded_buflen
    → padded_buflen ≤ length buf
    → padded_buflen < 2 ^ 64
    → (u : Unpadded) × (sodium_unpad buf padded_buflen blocksize ≡ ok u)
      × IsUnpadded buf padded_buflen blocksize u
unfolding sodium_unpad unpadded_result
sodium_unpad_lem buf n blocksize h pos fits long small =
    let start : Seen buf (n - 1) 0 (record { acc = 0; pad_len = 0; valid = 0 }) =
      blank (λ j below. absurd (omega arith)) refl refl refl in
    let (t, run, last) =
      unpad_loop_lem buf (n - 1) blocksize 0 (record { acc = 0; pad_len = 0; valid = 0 })
        (omega arith) (omega arith) (omega arith) h start in
    (
      record { unpadded_buflen = sub64 (sub64 n 1) t.pad_len; ret = sub32 t.valid 1 },
      rw (le→ltb n blocksize fits) (ground (arith, run)),
      Seen-IsUnpadded buf n blocksize t (omega arith) small fits (rw zero-add at last),
    )
