-- ===== src/Codecs/Base64/Tests.antt =====
-- Base64 of src/libsodium/sodium/codecs.c at inputs.
use libsodium.Base.{◌≡◌, refl, ok, ◌∷◌, [], none, some, Bytes, true, false, replicate, ◌++◌, arith}
use libsodium.Base.{◌-◌, length}
use libsodium.Codecs.Base64.RoundTrip.{sodium_base642bin-sodium_bin2base64}
use libsodium.Codecs.Hex.{unchanged, ignored, strchr}
use libsodium.Codecs.Base64.{
  sodium_bin2base64, sodium_base642bin, eq_mask, gt_mask, ge_mask, lt_mask, le_mask, char_of,
  b64_byte_to_char, byte_of, b64_char_to_byte, to_char, from_char, write_group, write_groups,
  encode_byte, encode_loop, encode_rest, text_len, take_sextet, decode_loop, skip_padding,
  skip_ignored, read_padding, base642bin_finish, is_variant, is_padded, is_urlsafe,
}

hello :
    sodium_bin2base64 10 (b'h' ∷ b'e' ∷ b'l' ∷ b'l' ∷ []) 1
    ≡ ok (b'a' ∷ b'G' ∷ b'V' ∷ b's' ∷ b'b' ∷ b'A' ∷ b'=' ∷ b'=' ∷ 0 ∷ 0 ∷ [])
unfolding sodium_bin2base64 eq_mask gt_mask ge_mask lt_mask char_of b64_byte_to_char to_char
    write_group write_groups encode_byte encode_loop encode_rest text_len is_variant is_padded
    is_urlsafe
hello = refl

back :
    sodium_base642bin 10 (b'a' ∷ b'G' ∷ b'V' ∷ b's' ∷ b'b' ∷ b'A' ∷ b'=' ∷ b'=' ∷ []) none false 1
    ≡ ok (record {
      ret = 0;
      bin = b'h' ∷ b'e' ∷ b'l' ∷ b'l' ∷ [];
      bin_len = 4;
      hex_end = 8;
      errno = unchanged;
    })
unfolding sodium_base642bin eq_mask gt_mask ge_mask le_mask byte_of b64_char_to_byte from_char
    take_sextet decode_loop skip_padding skip_ignored read_padding base642bin_finish ignored
    is_variant is_padded is_urlsafe
back = refl

abbrev four : Bytes
four = 7 ∷ 255 ∷ 0 ∷ 200 ∷ []

sodium_base642bin-sodium_bin2base64_example :
    (text : Bytes) × (length text ≡ text_len 4 5)
    × (sodium_bin2base64 12 four 5 ≡ ok (text ++ replicate (12 - text_len 4 5) 0))
    × (sodium_base642bin 4 text (some (32 ∷ [])) true 5
        ≡ ok
            (record { ret = 0; bin = four; bin_len = 4; hex_end = length text; errno = unchanged }))
unfolding text_len ignored strchr is_variant is_padded
sodium_base642bin-sodium_bin2base64_example =
    sodium_base642bin-sodium_bin2base64 four 12 4 5 (some (32 ∷ [])) true (omega arith) refl
      (omega arith) (omega arith) (omega arith) refl
