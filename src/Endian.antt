-- ===== src/Endian.antt =====
-- The loads, stores and rotations of src/libsodium/include/sodium/private/common.h, in their
-- portable form, over a buffer and an offset. A caller passes arrays that hold the bytes read.
pub mod Laws
pub mod Load
use libsodium.Base.{
  ℕ, zero, suc, ◌+◌, ◌-◌, ◌*◌, ◌/◌, ◌%◌, ◌^◌, bit_or, bit_xor, Bytes, [], ◌∷◌, u8, u32, u64, ◌<<<◌,
  ◌>>>◌, get_or,
}

-- `rotl32(x, b)`, of an `uint32_t` and 0 < b < 32.
unfoldable pub rotl32 : ℕ → ℕ → ℕ
rotl32 x b = bit_or (u32 (x <<< b)) (x >>> (32 - b))

-- The four steps of `load32_le`, on the four bytes.
unfoldable pub load32_bytes : ℕ → ℕ → ℕ → ℕ → ℕ
load32_bytes s0 s1 s2 s3 = bit_or (bit_or (bit_or s0 (s1 <<< 8)) (s2 <<< 16)) (s3 <<< 24)

unfoldable pub load32_le : Bytes → ℕ → ℕ
load32_le src at =
    load32_bytes (get_or src at 0) (get_or src (at + 1) 0) (get_or src (at + 2) 0)
      (get_or src (at + 3) 0)

unfoldable pub store32_le : ℕ → Bytes
store32_le w = u8 w ∷ u8 (w >>> 8) ∷ u8 (w >>> 8 >>> 8) ∷ u8 (w >>> 8 >>> 8 >>> 8) ∷ []

unfoldable pub load64_le : Bytes → ℕ → ℕ
load64_le src at =
    let w0 = get_or src at 0 in
    let w1 = bit_or w0 (get_or src (at + 1) 0 <<< 8) in
    let w2 = bit_or w1 (get_or src (at + 2) 0 <<< 16) in
    let w3 = bit_or w2 (get_or src (at + 3) 0 <<< 24) in
    let w4 = bit_or w3 (get_or src (at + 4) 0 <<< 32) in
    let w5 = bit_or w4 (get_or src (at + 5) 0 <<< 40) in
    let w6 = bit_or w5 (get_or src (at + 6) 0 <<< 48) in bit_or w6 (get_or src (at + 7) 0 <<< 56)

-- `dst[i] = (uint8_t) w; w >>= 8;` for the bytes left.
store_bytes : ℕ → ℕ → Bytes
store_bytes zero w = []
store_bytes (suc left) w = u8 w ∷ store_bytes left (w >>> 8)

unfoldable pub store64_le : ℕ → Bytes
unfolding store_bytes
store64_le w = store_bytes 8 w

-- `xor_buf(out, in, n)`, with the rounds left; a caller passes arrays of `n` bytes or more.
pub xor_buf : ℕ → Bytes → Bytes → Bytes
xor_buf zero out input = out
xor_buf (suc left) (x ∷ out) (y ∷ input) = bit_xor x y ∷ xor_buf left out input
xor_buf (suc left) [] input = []
xor_buf (suc left) (x ∷ out) [] = x ∷ out
