-- ===== src/Utils/Pad/Padding.antt =====
-- What `sodium_pad` of src/libsodium/sodium/utils.c writes, index by index.
use native.Mathlib.Decide.{dec_lt}
use native.Mathlib.Nat.{mod-lt, mod-le}
use libsodium.Base.{
  ℕ, ◌+◌, ◌-◌, ◌%◌, ◌^◌, ◌≤◌, ◌<◌, ◌≡◌, ◌⊎◌, inl, inr, refl, arith, Bytes, IsBytes, length, ok,
  error, misuse,
}
use libsodium.Bits.And.{bit_and-pred_mod}
use libsodium.Utils.Pad.{pad_loop, padding_length, sodium_pad, Padded, padded_result}
use libsodium.Utils.Pad.Rounds.{byte_at, padded_byte, mask_start, Writes, pad_loop_lem}

-- The padding brings the length, with the marker, to the next multiple of the block size.
padding_length_lem :
    (n blocksize : ℕ)
    → 0 < blocksize
    → blocksize ≤ 2 ^ 56
    → padding_length n blocksize ≡ blocksize - 1 - n % blocksize
unfolding padding_length
padding_length_lem n blocksize pos small =
    ground (arith, bit_and-pred_mod n blocksize pos, mod-lt n pos)

-- What a successful `sodium_pad` promises about the buffer and the new length.
pub record IsPadded (buf : Bytes) (n blocksize : ℕ) (p : Padded) : Type 0 where
  pub bytes : IsBytes p.buf
  pub same_length : length p.buf ≡ length buf
  pub within : p.padded_buflen ≤ length p.buf
  pub multiple : p.padded_buflen % blocksize ≡ 0
  pub exact_length : p.padded_buflen ≡ n + (blocksize - n % blocksize)
  pub longer : n < p.padded_buflen
  pub next : p.padded_buflen ≤ n + blocksize
  pub kept : (j : ℕ) → (j < n) ⊎ (p.padded_buflen ≤ j) → byte_at p.buf j ≡ byte_at buf j
  pub marker : byte_at p.buf n ≡ 0x80
  pub zeros : (j : ℕ) → n < j → j < p.padded_buflen → byte_at p.buf j ≡ 0

next_multiple : (n b : ℕ) → 0 < b → (n + (b - 1 - n % b) + 1) % b ≡ 0
next_multiple n b pos = grind (arith, mod-lt n pos)

Writes-IsPadded :
    (buf : Bytes) (n blocksize : ℕ)
    → 0 < blocksize
    → n + (blocksize - 1 - n % blocksize) < length buf
    → (w : Writes
        (blocksize - 1 - n % blocksize)
        (n + (blocksize - 1 - n % blocksize))
        0
        blocksize
        buf
        (pad_loop
          (blocksize - 1 - n % blocksize)
          (n + (blocksize - 1 - n % blocksize))
          blocksize
          0
          0
          buf))
    → IsPadded buf n blocksize
        (record { buf = w.out; padded_buflen = n + (blocksize - 1 - n % blocksize) + 1 })
unfolding padded_byte
Writes-IsPadded buf n blocksize pos long w =
    let x = blocksize - 1 - n % blocksize in
    let low : n % blocksize < blocksize = mod-lt n pos in
    let start : n % blocksize ≤ n = mod-le n blocksize in
    record {
      bytes = w.bytes;
      same_length = w.same_length;
      within = omega (arith, w.same_length);
      multiple = next_multiple n blocksize pos;
      exact_length = omega arith;
      longer = omega arith;
      next = omega arith;
      kept = λ j away. ground (arith, w.outside j, w.inside (n + x - j));
      marker = ground (arith, w.inside x);
      zeros = λ j lo hi. ground (arith, w.inside (n + x - j));
    }

-- The guards of `sodium_pad`, at a padding length `x`.
sodium_pad-runs :
    (buf : Bytes) (n blocksize max_buflen x : ℕ)
    → padding_length n blocksize ≡ x
    → 0 < blocksize
    → n + x + 1 < 2 ^ 64
    → n + x < max_buflen
    → sodium_pad buf n blocksize max_buflen
      ≡ padded_result (n + x + 1) (pad_loop x (n + x) blocksize 0 0 buf)
unfolding sodium_pad
sodium_pad-runs buf n blocksize max_buflen x e pos fits room = rw e (ground arith)

sodium_pad-fails :
    (buf : Bytes) (n blocksize max_buflen x : ℕ)
    → padding_length n blocksize ≡ x
    → 0 < blocksize
    → n + x + 1 < 2 ^ 64
    → max_buflen ≤ n + x
    → sodium_pad buf n blocksize max_buflen ≡ error
unfolding sodium_pad
sodium_pad-fails buf n blocksize max_buflen x e pos fits full = rw e (ground arith)

sodium_pad-misuse :
    (buf : Bytes) (n blocksize max_buflen x : ℕ)
    → padding_length n blocksize ≡ x
    → 0 < blocksize
    → 2 ^ 64 ≤ n + x + 1
    → sodium_pad buf n blocksize max_buflen ≡ misuse
unfolding sodium_pad
sodium_pad-misuse buf n blocksize max_buflen x e pos long = rw e (ground arith)

-- `sodium_pad` of `n` bytes, for a block size from 1 to 2^56 and a `max_buflen` within the buffer.
-- Where the next multiple of the block size is below 2^64 and at most `max_buflen`, it succeeds and
-- gives that multiple as the length, and the buffer has a marker 0x80 behind the `n` bytes, then
-- zeros up to that length, and is otherwise as before. Where the multiple is below 2^64 and more than
-- `max_buflen`, the call fails, and where it is 2^64 or more, it is `sodium_misuse`.
pub sodium_pad_lem :
    (buf : Bytes) (n blocksize max_buflen : ℕ)
    → IsBytes buf
    → 0 < blocksize
    → blocksize ≤ 2 ^ 56
    → max_buflen ≤ length buf
    → ((n + (blocksize - n % blocksize) < 2 ^ 64)
        × (((n + (blocksize - n % blocksize) ≤ max_buflen)
              × (p : Padded) × (sodium_pad buf n blocksize max_buflen ≡ ok p)
              × IsPadded buf n blocksize p)
            ⊎ ((max_buflen < n + (blocksize - n % blocksize))
                × (sodium_pad buf n blocksize max_buflen ≡ error))))
      ⊎ ((2 ^ 64 ≤ n + (blocksize - n % blocksize))
          × (sodium_pad buf n blocksize max_buflen ≡ misuse))
unfolding padded_result
sodium_pad_lem buf n blocksize max_buflen h pos small long =
    let x = blocksize - 1 - n % blocksize in
    let low : n % blocksize < blocksize = mod-lt n pos in
    let exact = padding_length_lem n blocksize pos small in
    elim (dec_lt (n + x + 1) (2 ^ 64)) [
      | no over ↦
          inr (omega arith, sodium_pad-misuse buf n blocksize max_buflen x exact pos (omega arith))
      | yes fits ↦ elim (dec_lt (n + x) max_buflen) [
        | yes room ↦
            let w = rw mask_start at (
              pad_loop_lem x (n + x) (omega arith) blocksize 0 buf (omega arith)
                (omega (arith, mod-le n blocksize)) (omega arith) h) in
            inl (
              omega arith,
              inl (
                omega arith,
                record { buf = w.out; padded_buflen = n + x + 1 },
                rw (sodium_pad-runs buf n blocksize max_buflen x exact pos fits room, w.returns)
                    refl,
                Writes-IsPadded buf n blocksize pos (omega arith) w,
              ),
            )
        | no full ↦ inl (
          omega arith,
          inr (
            omega arith,
            sodium_pad-fails buf n blocksize max_buflen x exact pos fits (omega arith),
          ),
        )
      ]
    ]
