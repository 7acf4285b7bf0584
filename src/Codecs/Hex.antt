-- ===== src/Codecs/Hex.antt =====
-- `sodium_bin2hex` and `sodium_hex2bin` of src/libsodium/sodium/codecs.c. `size_t` has 64 bits and
-- `unsigned int` has 32. A text buffer is the list of its bytes; an output buffer is what the call
-- writes to it, in order.
pub mod Digits
pub mod RoundTrip
pub mod Tests
use libsodium.Base.{
  ℕ, zero, suc, ◌+◌, ◌-◌, ◌*◌, ◌/◌, ◌%◌, ◌^◌, bit_and, bit_or, bit_xor, Bool, true, false, ◌&&◌,
  ◌||◌, not, Option, none, some, List, [], ◌∷◌, ◌++◌, Bytes, length, u8, u32, sub32, ◌<<<◌, ◌>>>◌,
  Result, ok, misuse, if◌then◌else◌, ltb, leb, ◌==◌,
}

abbrev pub size_max : ℕ
size_max = 2 ^ 64 - 1

-- `~x` in `unsigned int`.
abbrev pub not32 : ℕ → ℕ
not32 x = 2 ^ 32 - 1 - x

-- `(unsigned char) (87U + v + (((v - 10U) >> 8) & ~38U))`.
pub hex_digit : ℕ → ℕ
hex_digit v = u8 (u32 (87 + v + bit_and (sub32 v 10 >>> 8) (not32 38)))

-- `x` in one round: the digit of the low half above that of the high half.
pub hex_pair : ℕ → ℕ
unfolding hex_digit
hex_pair byte = bit_or (hex_digit (bit_and byte 0xf) <<< 8) (hex_digit (byte >>> 4))

pub bin2hex_loop : Bytes → Bytes
bin2hex_loop [] = 0 ∷ []
bin2hex_loop (byte ∷ bin) = let x = hex_pair byte in u8 x ∷ u8 (x >>> 8) ∷ bin2hex_loop bin

pub sodium_bin2hex : ℕ → Bytes → Result Bytes
unfolding bin2hex_loop
sodium_bin2hex hex_maxlen bin =
    if leb (size_max / 2) (length bin) || leb hex_maxlen (length bin * 2)
    then misuse
    else ok (bin2hex_loop bin)

-- The variables that one character of `sodium_hex2bin` sets.
pub c_num : ℕ → ℕ
c_num c = u8 (bit_xor c 48)

pub c_num0 : ℕ → ℕ
c_num0 c = u8 (sub32 (c_num c) 10 >>> 8)

pub c_alpha : ℕ → ℕ
c_alpha c = u8 (sub32 (bit_and c (not32 32)) 55)

pub c_alpha0 : ℕ → ℕ
c_alpha0 c = u8 (bit_xor (sub32 (c_alpha c) 10) (sub32 (c_alpha c) 16) >>> 8)

pub is_hex : ℕ → Bool
unfolding c_num c_num0 c_alpha c_alpha0
is_hex c = not (bit_or (c_num0 c) (c_alpha0 c) == 0)

pub c_val : ℕ → ℕ
unfolding c_num c_num0 c_alpha c_alpha0
c_val c = u8 (bit_or (bit_and (c_num0 c) (c_num c)) (bit_and (c_alpha0 c) (c_alpha c)))

-- `strchr(s, c) != NULL` for a C string `s`, whose terminator is found too.
unfoldable pub strchr : Bytes → ℕ → Bool
strchr [] c = c == 0
strchr (x ∷ s) c = x == c || strchr s c

-- `ignore != NULL && strchr(ignore, c) != NULL`.
unfoldable pub ignored : Option Bytes → ℕ → Bool
unfolding strchr
ignored none c = false
ignored (some s) c = strchr s c

pub data Errno : Type 0 where
  unchanged erange einval : Errno

-- The variables of the loop. `halfway` is `state != 0U`, since `state` is 0 or 255, and `bin` is
-- what was written, whose length is `bin_pos`.
pub record Decoder : Type 0 where
  pub hex_pos : ℕ
  pub bin : Bytes
  pub c_acc : ℕ
  pub halfway : Bool
  pub failed : Bool
  pub errno : Errno

-- One digit of value `v`.
pub take_digit : ℕ → Decoder → Decoder
take_digit v s =
    if s.halfway
    then record s {
      bin = s.bin ++ u8 (bit_or s.c_acc v) ∷ [];
      halfway = false;
      hex_pos = s.hex_pos + 1;
    }
    else record s { c_acc = u8 (v * 16); halfway = true; hex_pos = s.hex_pos + 1 }

module _ (bin_maxlen : ℕ) (ignore : Option Bytes) where
  -- The argument is what is left of the text, from `hex_pos` on.
  pub hex2bin_loop : Bytes → Decoder → Decoder
  hex2bin_loop [] s = s
  hex2bin_loop (c ∷ hex) s =
      let skip = hex2bin_loop hex (record s { hex_pos = s.hex_pos + 1 }) in
      let digit = hex2bin_loop hex (take_digit (c_val c) s) in
      if not (is_hex c)
      then (if not s.halfway && ignored ignore c then skip else s)
      else if leb bin_maxlen (length s.bin)
      then record s { failed = true; errno = erange }
      else digit

pub record Decoded : Type 0 where
  pub ret : ℕ
  pub bin : Bytes
  pub bin_len : ℕ
  pub hex_end : ℕ
  pub errno : Errno

-- What follows the loop: an odd digit, then the check that all was read, where `hex_end` is `NULL`.
pub hex2bin_finish : ℕ → Bool → Decoder → Decoded
hex2bin_finish hex_len has_end s =
    let failed = s.halfway || s.failed in
    let pos = if s.halfway then s.hex_pos - 1 else s.hex_pos in
    let rest = not has_end && not (pos == hex_len) in
    record {
      ret = if failed || rest then 2 ^ 32 - 1 else 0;
      bin = s.bin;
      bin_len = if failed then 0 else length s.bin;
      hex_end = pos;
      errno = if s.halfway || rest then einval else s.errno;
    }

pub sodium_hex2bin : ℕ → Bytes → Option Bytes → Bool → Decoded
unfolding hex2bin_loop hex2bin_finish
sodium_hex2bin bin_maxlen hex ignore has_end = hex2bin_finish (length hex) has_end (
    hex2bin_loop bin_maxlen ignore hex (record {
      hex_pos = 0;
      bin = [];
      c_acc = 0;
      halfway = false;
      failed = false;
      errno = unchanged;
    }))
