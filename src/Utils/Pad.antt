-- ===== src/Utils/Pad.antt =====
-- `sodium_pad` and `sodium_unpad` of src/libsodium/sodium/utils.c. `size_t` has 64 bits. The loops
-- go down from the last byte, `tail`, and read or write `*(tail - i)`; an index below the buffer
-- or past its end is a fault.
pub mod Padding
pub mod Rounds
pub mod Unpadding
pub mod RoundTrip
pub mod Tests
use libsodium.Base.{
  ℕ, zero, suc, ◌+◌, ◌-◌, ◌*◌, ◌/◌, ◌%◌, ◌^◌, bit_and, bit_or, bit_xor, Option, none, some, ◌>>=◌,
  Bytes, u8, u64, sub32, sub64, ◌>>>◌, Result, ok, error, misuse, fault, if◌then◌else◌, ltb, leb,
  ◌==◌, get_elem?, set,
}

-- `*(tail - i)`.
pub below : Bytes → ℕ → ℕ → Option ℕ
below buf tail i = if ltb tail i then none else get_elem? buf (tail - i)

-- `(unsigned char) (((i ^ xpadlen) - 1U) >> 56)`: all ones in the round that writes the marker.
pub barrier_mask : ℕ → ℕ → ℕ
barrier_mask i xpadlen = u8 (sub64 (bit_xor i xpadlen) 1 >>> 56)

pub pad_byte : ℕ → ℕ → ℕ → ℕ
pad_byte x mask barrier = u8 (bit_or (bit_and x mask) (bit_and 0x80 barrier))

module _ (xpadlen tail : ℕ) where
  pub pad_loop : ℕ → ℕ → ℕ → Bytes → Option Bytes
  pad_loop zero i mask buf = some buf
  pad_loop (suc left) i mask buf = do
    x ← below buf tail i
    let barrier = barrier_mask i xpadlen
    pad_loop left (i + 1) (u8 (bit_or mask barrier)) (set buf (tail - i) (pad_byte x mask barrier))

-- `xpadlen`, with the mask in place of `%` where the block size is a power of two.
pub padding_length : ℕ → ℕ → ℕ
padding_length unpadded_buflen blocksize =
    if bit_and blocksize (blocksize - 1) == 0
    then sub64 (blocksize - 1) (bit_and unpadded_buflen (blocksize - 1))
    else sub64 (blocksize - 1) (unpadded_buflen % blocksize)

pub record Padded : Type 0 where
  pub buf : Bytes
  pub padded_buflen : ℕ

size_max : ℕ
size_max = 2 ^ 64 - 1

pub padded_result : ℕ → Option Bytes → Result Padded
padded_result n none = fault
padded_result n (some buf) = ok (record { buf = buf; padded_buflen = n })

pub sodium_pad : Bytes → ℕ → ℕ → ℕ → Result Padded
unfolding size_max padded_result
sodium_pad buf unpadded_buflen blocksize max_buflen =
    let xpadlen = padding_length unpadded_buflen blocksize in
    let xpadded_len = unpadded_buflen + xpadlen in
    if blocksize == 0
    then error
    else if leb (size_max - unpadded_buflen) xpadlen
    then misuse
    else if leb max_buflen xpadded_len
    then error
    else padded_result (xpadded_len + 1) (pad_loop xpadlen xpadded_len blocksize 0 0 buf)

-- The variables of the loop of `sodium_unpad`.
pub record Scan : Type 0 where
  pub acc : ℕ
  pub pad_len : ℕ
  pub valid : ℕ

-- Bit 8 of the three borrows, in the 64 bits of `size_t`.
pub is_barrier : Scan → ℕ → ℕ
is_barrier s c =
    bit_and (bit_and (bit_and (sub32 s.acc 1) (sub64 s.pad_len 1)) (sub32 (bit_xor c 0x80) 1) >>> 8)
      1

-- `1U + ~b` in `size_t`: all ones if `b` is 1, and 0 if it is 0.
pub negated : ℕ → ℕ
negated b = u64 (1 + (2 ^ 64 - 1 - b))

pub unpad_step : ℕ → ℕ → Scan → Scan
unpad_step i c s =
    let b = is_barrier s c in
    record {
      acc = u8 (bit_or s.acc c);
      pad_len = bit_or s.pad_len (bit_and i (negated b));
      valid = u8 (bit_or s.valid (u8 b));
    }

module _ (buf : Bytes) (tail : ℕ) where
  pub unpad_loop : ℕ → ℕ → Scan → Option Scan
  unpad_loop zero i s = some s
  unpad_loop (suc left) i s = do c ← below buf tail i; unpad_loop left (i + 1) (unpad_step i c s)

-- What `sodium_unpad` writes through its pointer, and its return value as an `int`.
pub record Unpadded : Type 0 where
  pub unpadded_buflen : ℕ
  pub ret : ℕ

pub unpadded_result : ℕ → Option Scan → Result Unpadded
unpadded_result n none = fault
unpadded_result n (some s) =
    ok (record { unpadded_buflen = sub64 (sub64 n 1) s.pad_len; ret = sub32 s.valid 1 })

pub sodium_unpad : Bytes → ℕ → ℕ → Result Unpadded
unfolding unpadded_result
sodium_unpad buf padded_buflen blocksize =
    if ltb padded_buflen blocksize
    then error
    else if blocksize == 0
    then error
    else unpadded_result padded_buflen (
        unpad_loop buf (padded_buflen - 1) blocksize 0 (record { acc = 0; pad_len = 0; valid = 0 }))
