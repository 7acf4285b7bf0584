-- ===== src/Codecs/Hex/Tests.antt =====
-- Runs of the hexadecimal codec of src/libsodium/sodium/codecs.c, and its theorems at inputs.
use libsodium.Base.{
  some, none, true, false, [], ◌∷◌, ◌++◌, ◌≡◌, refl, arith, Bytes, length, ok, misuse,
}
use libsodium.Codecs.Hex.{
  sodium_bin2hex, sodium_hex2bin, hex_pair, is_hex, c_val, take_digit, ignored, unchanged, erange,
}
use libsodium.Codecs.Hex.RoundTrip.{sodium_hex2bin-sodium_bin2hex}

abbrev data_bytes : Bytes
data_bytes = 0x0f ∷ 0xa5 ∷ []

abbrev upper_text : Bytes
upper_text = b'0' ∷ b'F' ∷ b'A' ∷ b'5' ∷ []

encode_two : sodium_bin2hex 5 data_bytes ≡ ok (b'0' ∷ b'f' ∷ b'a' ∷ b'5' ∷ 0 ∷ [])
unfolding sodium_bin2hex hex_pair
encode_two = refl

no_terminator : sodium_bin2hex 4 data_bytes ≡ misuse
unfolding sodium_bin2hex
no_terminator = refl

-- A colon between two bytes is skipped where it is to be ignored.
decode_colon :
    sodium_hex2bin 2 (b'0' ∷ b'F' ∷ b':' ∷ b'A' ∷ b'5' ∷ []) (some (b':' ∷ [])) false
    ≡ record { ret = 0; bin = data_bytes; bin_len = 2; hex_end = 5; errno = unchanged }
unfolding sodium_hex2bin is_hex c_val take_digit ignored
decode_colon = refl

no_room :
    sodium_hex2bin 1 upper_text none true
    ≡ record { ret = 4294967295; bin = 0x0f ∷ []; bin_len = 0; hex_end = 2; errno = erange }
unfolding sodium_hex2bin is_hex c_val take_digit ignored
no_room = refl

accepted : (sodium_hex2bin 2 upper_text none false).ret ≡ 0
unfolding sodium_hex2bin is_hex c_val take_digit ignored
accepted = refl

sodium_hex2bin-sodium_bin2hex_example :
    (hex : Bytes) × (sodium_bin2hex 9 data_bytes ≡ ok (hex ++ 0 ∷ []))
    × (sodium_hex2bin 2 hex none true ≡ record {
      ret = 0;
      bin = data_bytes;
      bin_len = 2;
      hex_end = length hex;
      errno = unchanged;
    })
sodium_hex2bin-sodium_bin2hex_example =
    sodium_hex2bin-sodium_bin2hex data_bytes 9 2 none true (omega arith) (omega arith) (omega arith)
      (omega arith)
