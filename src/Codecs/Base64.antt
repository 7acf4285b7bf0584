-- ===== src/Codecs/Base64.antt =====
-- `sodium_bin2base64`, `sodium_base642bin` and `sodium_base64_encoded_len` of
-- src/libsodium/sodium/codecs.c. `size_t` has 64 bits and `unsigned int` has 32. A text buffer is
-- the list of its bytes; an output buffer is what the call writes to it, in order.
mod Sextets
pub mod Text
pub mod Decoding
pub mod RoundTrip
pub mod Length
pub mod Tests
use libsodium.Base.{
  ℕ, zero, suc, ◌+◌, ◌-◌, ◌*◌, ◌/◌, ◌%◌, ◌^◌, bit_and, bit_or, bit_xor, Bool, true, false, ◌&&◌,
  ◌||◌, not, Option, none, some, [], ◌∷◌, ◌++◌, Bytes, length, u8, u32, sub32, sub64, ◌<<<◌, ◌>>>◌,
  Result, ok, misuse, if◌then◌else◌, ltb, leb, ◌==◌, replicate, drop,
}
use libsodium.Codecs.Hex.{
  size_max, not32, ignored, strchr, Errno, unchanged, erange, einval, Decoded,
}

-- The macros `EQ`, `GT`, `GE`, `LT` and `LE`.
pub eq_mask : ℕ → ℕ → ℕ
eq_mask x y = bit_xor (bit_and (sub32 0 (bit_xor x y) >>> 8) 0xff) 0xff

pub gt_mask : ℕ → ℕ → ℕ
gt_mask x y = bit_and (sub32 y x >>> 8) 0xff

pub ge_mask : ℕ → ℕ → ℕ
ge_mask x y = bit_xor (gt_mask y x) 0xff

pub lt_mask : ℕ → ℕ → ℕ
lt_mask x y = gt_mask y x

pub le_mask : ℕ → ℕ → ℕ
le_mask x y = ge_mask y x

-- `b64_byte_to_char` and `b64_byte_to_urlsafe_char`, which differ in the last two characters.
pub char_of : ℕ → ℕ → ℕ → ℕ
char_of c62 c63 x =
    bit_or
      (bit_or
        (bit_or
          (bit_or (bit_and (lt_mask x 26) (u32 (x + b'A')))
            (bit_and (bit_and (ge_mask x 26) (lt_mask x 52)) (u32 (x + 71))))
          (bit_and (bit_and (ge_mask x 52) (lt_mask x 62)) (sub32 x 4)))
        (bit_and (eq_mask x 62) c62))
      (bit_and (eq_mask x 63) c63)

pub b64_byte_to_char : ℕ → ℕ
b64_byte_to_char x = char_of b'+' b'/' x

pub b64_byte_to_urlsafe_char : ℕ → ℕ
b64_byte_to_urlsafe_char x = char_of b'-' b'_' x

-- `b64_char_to_byte` and `b64_urlsafe_char_to_byte`, for `c` the `unsigned char`.
pub byte_of : ℕ → ℕ → ℕ → ℕ
byte_of c62 c63 c =
    let x =
      bit_or
        (bit_or
          (bit_or
            (bit_or (bit_and (bit_and (ge_mask c b'A') (le_mask c b'Z')) (sub32 c b'A'))
              (bit_and (bit_and (ge_mask c b'a') (le_mask c b'z')) (sub32 c 71)))
            (bit_and (bit_and (ge_mask c b'0') (le_mask c b'9')) (u32 (c + 4))))
          (bit_and (eq_mask c c62) 62))
        (bit_and (eq_mask c c63) 63) in
    bit_or x (bit_and (eq_mask x 0) (bit_xor (eq_mask c b'A') 0xff))

pub b64_char_to_byte : ℕ → ℕ
b64_char_to_byte c = byte_of b'+' b'/' c

pub b64_urlsafe_char_to_byte : ℕ → ℕ
b64_urlsafe_char_to_byte c = byte_of b'-' b'_' c

-- `sodium_base64_check_variant`, the two masks, and the choice of an alphabet.
unfoldable pub is_variant : ℕ → Bool
is_variant variant = bit_and variant (not32 6) == 1

unfoldable pub is_padded : ℕ → Bool
is_padded variant = bit_and variant 2 == 0

unfoldable pub is_urlsafe : ℕ → Bool
is_urlsafe variant = not (bit_and variant 4 == 0)

pub to_char : Bool → ℕ → ℕ
to_char urlsafe x = u8 (if urlsafe then b64_byte_to_urlsafe_char x else b64_byte_to_char x)

pub from_char : Bool → ℕ → ℕ
from_char urlsafe c = if urlsafe then b64_urlsafe_char_to_byte c else b64_char_to_byte c

-- `sodium_base64_ENCODED_LEN`, with its terminator.
pub base64_encoded_len : ℕ → ℕ → ℕ
base64_encoded_len bin_len variant =
    let rest = bin_len - bin_len / 3 * 3 in
    bin_len / 3 * 4
    + bit_and (bit_or rest (rest >>> 1)) 1
      * (4 - bit_and (sub32 0 (bit_and variant 2 >>> 1)) (3 - rest))
    + 1

pub sodium_base64_encoded_len : ℕ → ℕ → Result ℕ
sodium_base64_encoded_len bin_len variant =
    if not (is_variant variant) || ltb ((size_max - 5) / 4) (bin_len / 3)
    then misuse
    else ok (base64_encoded_len bin_len variant)

-- The variables of the encoding loop; `b64` is what was written, whose length is `b64_pos`.
pub record Encoder : Type 0 where
  pub acc : ℕ
  pub acc_len : ℕ
  pub b64 : Bytes

-- One round of `while (acc_len >= 6)`, and the loop, whose fuel is a bound on `acc_len`.
pub write_group : Bool → Encoder → Encoder
write_group urlsafe s =
    let acc_len = s.acc_len - 6 in
    record s {
      acc_len = acc_len;
      b64 = s.b64 ++ to_char urlsafe (bit_and (s.acc >>> acc_len) 0x3f) ∷ [];
    }

pub write_groups : ℕ → Bool → Encoder → Encoder
write_groups zero urlsafe s = s
write_groups (suc fuel) urlsafe s =
    let more = write_groups fuel urlsafe (write_group urlsafe s) in
    if ltb s.acc_len 6 then s else more

pub encode_byte : Bool → ℕ → Encoder → Encoder
encode_byte urlsafe byte s =
    let acc_len = s.acc_len + 8 in
    write_groups acc_len urlsafe
      (record s { acc = u32 (u32 (s.acc <<< 8) + byte); acc_len = acc_len })

pub encode_loop : Bool → Bytes → Encoder → Encoder
encode_loop urlsafe [] s = s
encode_loop urlsafe (byte ∷ bin) s = encode_loop urlsafe bin (encode_byte urlsafe byte s)

-- `if (acc_len > 0)` behind the loop.
pub encode_rest : Bool → Encoder → Bytes
encode_rest urlsafe s =
    if s.acc_len == 0
    then s.b64
    else s.b64 ++ to_char urlsafe (bit_and (u32 (s.acc <<< (6 - s.acc_len))) 0x3f) ∷ []

-- `b64_len`.
pub text_len : ℕ → ℕ → ℕ
text_len bin_len variant =
    let nibbles = bin_len / 3 in
    let remainder = bin_len - 3 * nibbles in
    if remainder == 0
    then nibbles * 4
    else if is_padded variant
    then nibbles * 4 + 4
    else nibbles * 4 + (2 + (remainder >>> 1))

-- The buffer of `b64_maxlen` bytes; a failed `assert` aborts as `sodium_misuse` does.
pub sodium_bin2base64 : ℕ → Bytes → ℕ → Result Bytes
sodium_bin2base64 b64_maxlen bin variant =
    let b64_len = text_len (length bin) variant in
    let urlsafe = is_urlsafe variant in
    let b64 =
      encode_rest urlsafe (encode_loop urlsafe bin (record { acc = 0; acc_len = 0; b64 = [] })) in
    if not (is_variant variant) || ltb ((size_max - 5) / 4) (length bin / 3)
    then misuse
    else if leb b64_maxlen b64_len
    then misuse
    else if ltb b64_len (length b64)
    then misuse
    else ok (b64 ++ replicate (b64_len - length b64) b'=' ++ replicate (b64_maxlen - b64_len) 0)

-- The variables of the decoding loop; `bin` is what was written, whose length is `bin_pos`.
pub record Base64Decoder : Type 0 where
  pub b64_pos : ℕ
  pub bin : Bytes
  pub acc : ℕ
  pub acc_len : ℕ
  pub failed : Bool
  pub errno : Errno

module _ (bin_maxlen : ℕ) (ignore : Option Bytes) where
  -- A character of value `d`: six more bits, and a byte where there are eight.
  pub take_sextet : ℕ → Base64Decoder → Base64Decoder
  take_sextet d s =
      let acc = u32 (u32 (s.acc <<< 6) + d) in
      let acc_len = s.acc_len + 6 in
      if ltb acc_len 8
      then record s { acc = acc; acc_len = acc_len; b64_pos = s.b64_pos + 1 }
      else if leb bin_maxlen (length s.bin)
      then record s { acc = acc; acc_len = acc_len - 8; failed = true; errno = erange }
      else record s {
        acc = acc;
        acc_len = acc_len - 8;
        bin = s.bin ++ bit_and (acc >>> (acc_len - 8)) 0xff ∷ [];
        b64_pos = s.b64_pos + 1;
      }

  -- The argument is what is left of the text, from `b64_pos` on.
  pub decode_loop : Bool → Bytes → Base64Decoder → Base64Decoder
  decode_loop urlsafe [] s = s
  decode_loop urlsafe (c ∷ b64) s =
      let d = from_char urlsafe c in
      let next = if d == 0xff then record s { b64_pos = s.b64_pos + 1 } else take_sextet d s in
      let rest = decode_loop urlsafe b64 next in
      if d == 0xff
      then (if ignored ignore c then rest else s)
      else if next.failed
      then next
      else rest

-- `_sodium_base642bin_skip_padding`, over what is left of the text: the characters passed over, and
-- `errno` where it returns -1.
pub skip_padding : Option Bytes → Bytes → ℕ → ℕ → ℕ × Option Errno
skip_padding ignore b64 zero passed = (passed, none)
skip_padding ignore [] (suc padding_len) passed = (passed, some erange)
skip_padding ignore (c ∷ b64) (suc padding_len) passed =
    let found = c == b'=' in
    let left = if found then padding_len else suc padding_len in
    let rest = skip_padding ignore b64 left (passed + 1) in
    if found || ignored ignore c then rest else (passed, some einval)

-- The characters passed over by the last loop; it is not run where `ignore` is `NULL`.
pub skip_ignored : Option Bytes → Bytes → ℕ
skip_ignored ignore [] = 0
skip_ignored ignore (c ∷ b64) =
    let more = skip_ignored ignore b64 in if ignored ignore c then suc more else 0

-- What the padding adds to a state whose spare bits are 0.
pub read_padding : ℕ → Option Bytes → Bytes → Base64Decoder → Base64Decoder
read_padding variant ignore b64 s =
    let (passed, stopped) = skip_padding ignore (drop s.b64_pos b64) (s.acc_len / 2) 0 in
    let pos = s.b64_pos + passed in
    if s.failed || not (is_padded variant) then s else elim stopped [
      | none ↦ record s { b64_pos = pos }
      | some errno ↦ record s { b64_pos = pos; failed = true; errno = errno }
    ]

pub base642bin_finish : Option Bytes → Bytes → Bool → Base64Decoder → Decoded
base642bin_finish ignore b64 has_end s =
    let skipped = if s.failed then 0 else skip_ignored ignore (drop s.b64_pos b64) in
    let pos = s.b64_pos + skipped in
    let rest = not has_end && not (pos == length b64) in
    record {
      ret = if s.failed || rest then 2 ^ 32 - 1 else 0;
      bin = s.bin;
      bin_len = if s.failed then 0 else length s.bin;
      hex_end = pos;
      errno = if rest then einval else s.errno;
    }

-- `hex_end` is `b64_end`.
pub sodium_base642bin : ℕ → Bytes → Option Bytes → Bool → ℕ → Result Decoded
sodium_base642bin bin_maxlen b64 ignore has_end variant =
    let s =
      decode_loop bin_maxlen ignore (is_urlsafe variant) b64 (record {
        b64_pos = 0;
        bin = [];
        acc = 0;
        acc_len = 0;
        failed = false;
        errno = unchanged;
      }) in
    let spare = ltb 4 s.acc_len || not (bit_and s.acc (2 ^ s.acc_len - 1) == 0) in
    let s' = if spare then record s { failed = true } else read_padding variant ignore b64 s in
    if is_variant variant then ok (base642bin_finish ignore b64 has_end s') else misuse
