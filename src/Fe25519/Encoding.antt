-- ===== src/Fe25519/Encoding.antt =====
-- `fe25519_frombytes`, `fe25519_tobytes`, `fe25519_isnegative` and `fe25519_iszero`: field elements
-- as 32 bytes.
use native.Mathlib.Nat.{add-mul-div_left, div-eq_of_lt}
use libsodium.Base.{
  ℕ, ◌+◌, ◌*◌, ◌/◌, ◌%◌, ◌^◌, ◌<◌, bit_or, ◌≡◌, refl, ap, ◌∙◌, arith, u64, ◌<<<◌, ◌>>>◌, Bytes,
  IsBytes, le_value, le_value-take-lt, length, drop, take, ◌++◌,
}
use libsodium.Bits.Or.{bit_or-field, bit_or_comm}
use libsodium.Endian.{load64_le, store64_le}
use libsodium.Endian.Laws.{length-store64_le}
use libsodium.Endian.Load.{
  word_at, digits, load64_le_lem, load64_le-lt, digits_split, le_value-store64_le, le_value-append,
  le_value-take,
}
use libsodium.Fe25519.{Fe25519, fe25519_frombytes, fe25519_tobytes, fe25519_reduce}
use libsodium.Fe25519.Field.{value, residue, IsBelow, bit_and-mask51}
use libsodium.Fe25519.Reduce.{fe25519_reduce_lem}

shifted : (k a b v : ℕ) → v ≡ a + k * b → a < k → v / k ≡ b
shifted k a b v e small =
    ap (λ (n : ℕ). n / k) e
    ∙ (add-mul-div_left a b (omega arith) ∙ omega (arith, div-eq_of_lt small))

-- A load at a fixed index is a window of the number that the string stands for.
window :
    (s : Bytes) (at : ℕ)
    → IsBytes s
    → word_at s at ≡ digits 8 s at
    → load64_le s at ≡ le_value s / 256 ^ at % 2 ^ 64
window s at h same =
    let moved =
      shifted (256 ^ at) (le_value (take at s)) (le_value (drop at s)) (le_value s)
        (le_value-take at s) (le_value-take-lt at s h) in
    rw moved (omega (arith, load64_le_lem s at h, load64_le-lt s at h, digits_split 8 s at, same))

-- `fe25519_frombytes` of 32 bytes ignores the top bit and writes limbs of 51 bits that stand for
-- the number of the other bits.
pub fe25519_frombytes_lem :
    (s : Bytes)
    → IsBytes s
    → IsBelow (2 ^ 51) (fe25519_frombytes s) × (value (fe25519_frombytes s) ≡ le_value s % 2 ^ 255)
unfolding fe25519_frombytes
fe25519_frombytes_lem s h =
    let v = le_value s in
    let e0 : load64_le s 0 % 2 ^ 51 ≡ v % 2 ^ 51 = omega (arith, window s 0 h (omega arith)) in
    let e1 : (load64_le s 6 >>> 3) % 2 ^ 51 ≡ v / 2 ^ 51 % 2 ^ 51 =
      omega (arith, window s 6 h (omega arith)) in
    let e2 : (load64_le s 12 >>> 6) % 2 ^ 51 ≡ v / 2 ^ 102 % 2 ^ 51 =
      omega (arith, window s 12 h (omega arith)) in
    let e3 : (load64_le s 19 >>> 1) % 2 ^ 51 ≡ v / 2 ^ 153 % 2 ^ 51 =
      omega (arith, window s 19 h (omega arith)) in
    let e4 : (load64_le s 24 >>> 12) % 2 ^ 51 ≡ v / 2 ^ 204 % 2 ^ 51 =
      omega (arith, window s 24 h (omega arith)) in
    rw
      (
        bit_and-mask51 (load64_le s 0),
        bit_and-mask51 (load64_le s 6 >>> 3),
        bit_and-mask51 (load64_le s 12 >>> 6),
        bit_and-mask51 (load64_le s 19 >>> 1),
        bit_and-mask51 (load64_le s 24 >>> 12),
        e0,
        e1,
        e2,
        e3,
        e4,
      )
      (
        record {
          below0 = omega arith;
          below1 = omega arith;
          below2 = omega arith;
          below3 = omega arith;
          below4 = omega arith;
        },
        omega arith,
      )

-- Two limbs share a word: the low digits of the upper one stand above the lower one.
word_of :
    (k low high kept : ℕ)
    → low < 2 ^ k
    → u64 (high <<< k) ≡ kept <<< k
    → bit_or low (u64 (high <<< k)) ≡ low + kept * 2 ^ k
word_of k low high kept small moved =
    ap (λ (n : ℕ). bit_or low n) moved
    ∙ (bit_or_comm low (kept <<< k) ∙ (bit_or-field k kept low small ∙ omega arith))

store4 : ℕ → ℕ → ℕ → ℕ → Bytes
store4 t0 t1 t2 t3 = store64_le t0 ++ store64_le t1 ++ store64_le t2 ++ store64_le t3

length-store4 : (t0 t1 t2 t3 : ℕ) → length (store4 t0 t1 t2 t3) ≡ 32
unfolding store4 store64_le
length-store4 t0 t1 t2 t3 = refl

store4-IsBytes : (t0 t1 t2 t3 : ℕ) → IsBytes (store4 t0 t1 t2 t3)
unfolding store4 store64_le
store4-IsBytes t0 t1 t2 t3 = omega arith

le_value_word :
    (t : ℕ) (rest : Bytes)
    → t < 2 ^ 64
    → le_value (store64_le t ++ rest) ≡ t + 2 ^ 64 * le_value rest
le_value_word t rest small =
    le_value-append (store64_le t) rest ∙ rw (length-store64_le t, le_value-store64_le t small) refl

le_value-store4 :
    (t0 t1 t2 t3 : ℕ)
    → t0 < 2 ^ 64
    → t1 < 2 ^ 64
    → t2 < 2 ^ 64
    → t3 < 2 ^ 64
    → le_value (store4 t0 t1 t2 t3) ≡ t0 + 2 ^ 64 * t1 + 2 ^ 128 * t2 + 2 ^ 192 * t3
unfolding store4 store64_le
le_value-store4 t0 t1 t2 t3 b0 b1 b2 b3 = omega (
  arith,
  le_value_word t0 (store64_le t1 ++ store64_le t2 ++ store64_le t3) b0,
  le_value_word t1 (store64_le t2 ++ store64_le t3) b1,
  le_value_word t2 (store64_le t3) b2,
  le_value-store64_le t3 b3,
)

module _ (t : Fe25519) (h : IsBelow (2 ^ 51) t) where
  w0 : ℕ
  w0 = t.l0 + t.l1 % 2 ^ 13 * 2 ^ 51

  w1 : ℕ
  w1 = t.l1 / 2 ^ 13 + t.l2 % 2 ^ 26 * 2 ^ 38

  w2 : ℕ
  w2 = t.l2 / 2 ^ 26 + t.l3 % 2 ^ 39 * 2 ^ 25

  w3 : ℕ
  w3 = t.l3 / 2 ^ 39 + t.l4 * 2 ^ 12

  words :
      store4
        (bit_or t.l0 (u64 (t.l1 <<< 51)))
        (bit_or (t.l1 >>> 13) (u64 (t.l2 <<< 38)))
        (bit_or (t.l2 >>> 26) (u64 (t.l3 <<< 25)))
        (bit_or (t.l3 >>> 39) (u64 (t.l4 <<< 12)))
      ≡ store4 w0 w1 w2 w3
  unfolding w0 w1 w2 w3
  words =
      let e0 = word_of 51 t.l0 t.l1 (t.l1 % 2 ^ 13) h.below0 (omega arith) in
      let e1 =
        word_of 38 (t.l1 >>> 13) t.l2 (t.l2 % 2 ^ 26) (omega (arith, h.below1)) (omega arith) in
      let e2 =
        word_of 25 (t.l2 >>> 26) t.l3 (t.l3 % 2 ^ 39) (omega (arith, h.below2)) (omega arith) in
      let e3 =
        word_of 12 (t.l3 >>> 39) t.l4 t.l4 (omega (arith, h.below3)) (omega (arith, h.below4)) in
      rw (e0, e1, e2, e3) refl

  words-value : le_value (store4 w0 w1 w2 w3) ≡ value t
  unfolding w0 w1 w2 w3
  words-value =
      let b0 = h.below0 in
      let b1 = h.below1 in
      let b2 = h.below2 in
      let b3 = h.below3 in
      let b4 = h.below4 in
      le_value-store4 w0 w1 w2 w3 (omega arith) (omega arith) (omega arith) (omega arith)
      ∙ omega arith

-- For limbs of 64 bits, `fe25519_tobytes` writes 32 bytes, the little-endian digits of the remainder
-- by 2^255 - 19.
pub fe25519_tobytes_lem :
    (f : Fe25519)
    → IsBelow (2 ^ 64) f
    → (le_value (fe25519_tobytes f) ≡ residue f)
      × (length (fe25519_tobytes f) ≡ 32)
      × IsBytes (fe25519_tobytes f)
unfolding fe25519_tobytes store4
fe25519_tobytes_lem f h =
    let t = fe25519_reduce f in
    let (below, remainder) = fe25519_reduce_lem f h in
    rw (words t below) (
      words-value t below ∙ remainder,
      length-store4 (w0 t below) (w1 t below) (w2 t below) (w3 t below),
      store4-IsBytes (w0 t below) (w1 t below) (w2 t below) (w3 t below),
    )
