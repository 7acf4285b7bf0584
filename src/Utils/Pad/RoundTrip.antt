-- ===== src/Utils/Pad/RoundTrip.antt =====
-- `sodium_unpad` undoes `sodium_pad` (src/libsodium/sodium/utils.c).
use native.Mathlib.Nat.{mod-eq_of_lt}
use libsodium.Base.{
  ℕ, ◌-◌, ◌%◌, ◌^◌, ◌≤◌, ◌<◌, ◌≡◌, inl, inr, sym, ◌∙◌, arith, Bytes, IsBytes, length, Result, ok,
  error, misuse, ◌≢◌,
}
use libsodium.Utils.Pad.{sodium_pad, sodium_unpad, Padded}
use libsodium.Utils.Pad.Padding.{IsPadded, sodium_pad_lem}
use libsodium.Utils.Pad.Unpadding.{IsMarker, sodium_unpad_lem}

le_multiple : (n b : ℕ) → 0 < b → 0 < n → n % b ≡ 0 → b ≤ n
le_multiple n b pos some_left e = grind (arith, mod-eq_of_lt)

module _ (buf : Bytes) (n blocksize : ℕ) (p : Padded) (padded : IsPadded buf n blocksize p) where
  padded-IsMarker : IsMarker p.buf (p.padded_buflen - 1) (p.padded_buflen - 1 - n)
  padded-IsMarker = record {
    marker = ground (arith, padded.marker, padded.longer);
    zeros = λ j below. ground (arith, padded.zeros (p.padded_buflen - 1 - j), padded.longer);
  }

  unpad_padded :
      0 < blocksize
      → p.padded_buflen < 2 ^ 64
      → sodium_unpad p.buf p.padded_buflen blocksize ≡ ok (record { unpadded_buflen = n; ret = 0 })
  unpad_padded pos small =
      let (u, run, ends) =
        sodium_unpad_lem p.buf p.padded_buflen blocksize padded.bytes pos
          (le_multiple p.padded_buflen blocksize pos (omega (arith, padded.longer)) padded.multiple)
          padded.within small in
      let (len, ret) =
        ends.accepts (p.padded_buflen - 1 - n) (omega (arith, padded.next, padded.longer))
          padded-IsMarker in
      ground (arith, run, len, ret, padded.longer)

ok_injective : {p q : Padded} → ◌≡◌ {A = Result Padded} (ok p) (ok q) → p ≡ q
ok_injective h = cc

failed : {p : Padded} → ◌≢◌ {A = Result Padded} error (ok p)
failed h = cc

misused : {p : Padded} → ◌≢◌ {A = Result Padded} misuse (ok p)
misused h = cc

-- What `sodium_pad` pads to a block size from 1 to 2^56, for a `max_buflen` within the buffer,
-- `sodium_unpad` finds again: it returns 0 and the length before padding.
pub sodium_unpad-pad :
    (buf : Bytes) (n blocksize max_buflen : ℕ) (p : Padded)
    → IsBytes buf
    → 0 < blocksize
    → blocksize ≤ 2 ^ 56
    → max_buflen ≤ length buf
    → sodium_pad buf n blocksize max_buflen ≡ ok p
    → sodium_unpad p.buf p.padded_buflen blocksize ≡ ok (record { unpadded_buflen = n; ret = 0 })
sodium_unpad-pad buf n blocksize max_buflen p h pos small long run =
    elim (sodium_pad_lem buf n blocksize max_buflen h pos small long) [
      | inl (fits, inl (room, q, run', padded)) ↦
          let same : q ≡ p = ok_injective (sym run' ∙ run) in
          rw (← same)
            (unpad_padded buf n blocksize q padded pos (omega (arith, padded.exact_length)))
      | inl (fits, inr (full, run')) ↦ absurd (failed (sym run' ∙ run))
      | inr (over, run') ↦ absurd (misused (sym run' ∙ run))
    ]
