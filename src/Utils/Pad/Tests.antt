-- ===== src/Utils/Pad/Tests.antt =====
-- Runs of the padding functions of src/libsodium/sodium/utils.c, and their theorems at inputs.
use libsodium.Base.{
  ◌+◌, ◌-◌, ◌%◌, ◌<◌, ◌^◌, [], ◌∷◌, ◌≡◌, ◌⊎◌, refl, arith, Bytes, ok, misuse, ◌≤◌, error,
}
use libsodium.Utils.Pad.{
  sodium_pad, sodium_unpad, padding_length, pad_loop, below, barrier_mask, pad_byte, unpad_loop,
  unpad_step, is_barrier, negated, Padded, Unpadded,
}
use libsodium.Utils.Pad.Padding.{IsPadded, sodium_pad_lem}
use libsodium.Utils.Pad.Unpadding.{IsUnpadded, sodium_unpad_lem}
use libsodium.Utils.Pad.RoundTrip.{sodium_unpad-pad}

abbrev message : Bytes
message = 10 ∷ 11 ∷ 12 ∷ 99 ∷ 99 ∷ 99 ∷ 99 ∷ []

abbrev in_blocks : Padded
in_blocks = record { buf = 10 ∷ 11 ∷ 12 ∷ 0x80 ∷ 0 ∷ 0 ∷ 99 ∷ []; padded_buflen = 6 }

pad_three : sodium_pad message 3 3 7 ≡ ok in_blocks
unfolding sodium_pad padding_length pad_loop below barrier_mask pad_byte
pad_three = refl

no_room : sodium_pad message 3 4 3 ≡ error
unfolding sodium_pad padding_length
no_room = refl

-- A first byte from the end that is neither 0 nor the marker.
unpad_spoilt : sodium_unpad message 3 3 ≡ ok (record { unpadded_buflen = 2; ret = 2 ^ 32 - 1 })
unfolding sodium_unpad unpad_loop below unpad_step is_barrier negated
unpad_spoilt = refl

sodium_pad_lem_example :
    ((3 + (3 - 3 % 3) < 2 ^ 64)
      × (((3 + (3 - 3 % 3) ≤ 7)
            × (p : Padded) × (sodium_pad message 3 3 7 ≡ ok p)
            × IsPadded message 3 3 p)
          ⊎ ((7 < 3 + (3 - 3 % 3)) × (sodium_pad message 3 3 7 ≡ error))))
    ⊎ ((2 ^ 64 ≤ 3 + (3 - 3 % 3)) × (sodium_pad message 3 3 7 ≡ misuse))
sodium_pad_lem_example =
    sodium_pad_lem message 3 3 7 (omega arith) (omega arith) (omega arith) (omega arith)

sodium_unpad_lem_example :
    (u : Unpadded) × (sodium_unpad in_blocks.buf 6 3 ≡ ok u) × IsUnpadded in_blocks.buf 6 3 u
sodium_unpad_lem_example =
    sodium_unpad_lem in_blocks.buf 6 3 (omega arith) (omega arith) (omega arith) (omega arith)
      (omega arith)

sodium_unpad-pad_example :
    sodium_unpad in_blocks.buf in_blocks.padded_buflen 3
    ≡ ok (record { unpadded_buflen = 3; ret = 0 })
sodium_unpad-pad_example =
    sodium_unpad-pad message 3 3 7 in_blocks (omega arith) (omega arith) (omega arith) (omega arith)
      pad_three
