-- ===== src/Endian/Laws.antt =====
-- The loads, stores and rotations of src/libsodium/include/sodium/private/common.h as arithmetic.
use libsodium.Base.{
  Bytes, zero, suc, ap, ℕ, ◌+◌, ◌*◌, ◌^◌, ◌<◌, bit_or, bit_xor, [], ◌∷◌, ◌≡◌, refl, arith, u8,
  IsBytes, length, ◌<<<◌, ◌>>>◌,
}
use libsodium.Bits.Xor.{bit_xor-lt, bit_xor-shift, bit_xor-mod}
use libsodium.Bits.Or.{bit_or-field, bit_or_comm}
use libsodium.Endian.{load32_bytes, store32_le, store64_le, xor_buf}

pub load32_bytes_lem :
    (a b c d : ℕ)
    → a < 256
    → b < 256
    → c < 256
    → d < 256
    → load32_bytes a b c d ≡ a + b * 2 ^ 8 + c * 2 ^ 16 + d * 2 ^ 24
unfolding load32_bytes
load32_bytes_lem a b c d ha hb hc hd =
    let low : bit_or a (b <<< 8) ≡ b * 2 ^ 8 + a = rw bit_or_comm (bit_or-field 8 b a ha) in
    let mid : bit_or (b * 2 ^ 8 + a) (c <<< 16) ≡ c * 2 ^ 16 + (b * 2 ^ 8 + a) =
      rw bit_or_comm (bit_or-field 16 c (b * 2 ^ 8 + a) (omega arith)) in
    let top : bit_or (c * 2 ^ 16 + (b * 2 ^ 8 + a)) (d <<< 24)
        ≡ d * 2 ^ 24 + (c * 2 ^ 16 + (b * 2 ^ 8 + a)) =
      rw bit_or_comm (bit_or-field 24 d (c * 2 ^ 16 + (b * 2 ^ 8 + a)) (omega arith)) in
    rw (low, mid, top) (omega arith)

-- A word xored with four loaded bytes is stored as the bytewise exclusive or.
pub store32_le-xor :
    (w a b c d : ℕ)
    → a < 256
    → b < 256
    → c < 256
    → d < 256
    → store32_le (bit_xor w (load32_bytes a b c d))
      ≡ bit_xor (u8 w) a
        ∷ bit_xor (u8 (w >>> 8)) b
        ∷ bit_xor (u8 (w >>> 8 >>> 8)) c
        ∷ bit_xor (u8 (w >>> 8 >>> 8 >>> 8)) d
        ∷ []
unfolding store32_le
store32_le-xor w a b c d ha hb hc hd =
    let v = load32_bytes a b c d in
    let sum = load32_bytes_lem a b c d ha hb hc hd in
    let e0 : u8 v ≡ a = omega (arith, sum) in
    let e1 : u8 (v >>> 8) ≡ b = omega (arith, sum) in
    let e2 : u8 (v >>> 8 >>> 8) ≡ c = omega (arith, sum) in
    let e3 : u8 (v >>> 8 >>> 8 >>> 8) ≡ d = omega (arith, sum) in
    rw
      (
        bit_xor-shift 8 w v,
        bit_xor-shift 8 (w >>> 8) (v >>> 8),
        bit_xor-shift 8 (w >>> 8 >>> 8) (v >>> 8 >>> 8),
      )
      (rw
        (
          bit_xor-mod 8 w v,
          bit_xor-mod 8 (w >>> 8) (v >>> 8),
          bit_xor-mod 8 (w >>> 8 >>> 8) (v >>> 8 >>> 8),
          bit_xor-mod 8 (w >>> 8 >>> 8 >>> 8) (v >>> 8 >>> 8 >>> 8),
        )
        (rw (e0, e1, e2, e3) refl))

pub length-store64_le : (w : ℕ) → length (store64_le w) ≡ 8
unfolding store64_le
length-store64_le w = refl

pub store64_le-IsBytes : (w : ℕ) → IsBytes (store64_le w)
unfolding store64_le
store64_le-IsBytes w = omega arith

pub length-xor_buf : (n : ℕ) (a b : Bytes) → length (xor_buf n a b) ≡ length a
unfolding xor_buf
length-xor_buf zero a b = refl
length-xor_buf (suc n) [] b = refl
length-xor_buf (suc n) (x ∷ a) [] = refl
length-xor_buf (suc n) (x ∷ a) (y ∷ b) = ap suc (length-xor_buf n a b)

pub xor_buf-IsBytes : (n : ℕ) (a b : Bytes) → IsBytes a → IsBytes b → IsBytes (xor_buf n a b)
unfolding xor_buf
xor_buf-IsBytes zero a b ha hb = ha
xor_buf-IsBytes (suc n) [] b ha hb = ha
xor_buf-IsBytes (suc n) (x ∷ a) [] ha hb = ha
xor_buf-IsBytes (suc n) (x ∷ a) (y ∷ b) (hx, ha) (hy, hb) =
    (bit_xor-lt 8 x y hx hy, xor_buf-IsBytes n a b ha hb)
