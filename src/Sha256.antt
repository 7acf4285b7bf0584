-- ===== src/Sha256.antt =====
-- src/libsodium/crypto_hash/sha256/cp/hash_sha256_cp.c, without the vector variant. An
-- `unsigned long long` has 64 bits.
mod Blocks
pub mod Stream
pub mod Digest
pub mod Hmac
pub mod Hkdf
pub mod Tests
use libsodium.Base.{
  ℕ, zero, suc, ◌+◌, ◌-◌, ◌*◌, ◌/◌, ◌%◌, ◌^◌, bit_and, bit_or, bit_xor, Bool, true, false, [], ◌∷◌,
  ◌++◌, List, Bytes, u8, u32, u64, length, take, drop, replicate, get_or, set, if◌then◌else◌, ltb,
  leb, ◌==◌, ◌<<<◌, ◌>>>◌,
}

-- `rotr32`, `load32_be`, `store32_be` and `store64_be` of include/sodium/private/common.h.
pub rotr32 : ℕ → ℕ → ℕ
rotr32 x b = bit_or (x >>> b) (u32 (x <<< (32 - b)))

pub load32_be : Bytes → ℕ → ℕ
load32_be src at =
    bit_or
      (bit_or (bit_or (get_or src (at + 3) 0) (get_or src (at + 2) 0 <<< 8))
        (get_or src (at + 1) 0 <<< 16))
      (get_or src at 0 <<< 24)

unfoldable pub store32_be : ℕ → Bytes
store32_be w = u8 (w >>> 8 >>> 8 >>> 8) ∷ u8 (w >>> 8 >>> 8) ∷ u8 (w >>> 8) ∷ u8 w ∷ []

unfoldable pub store64_be : ℕ → Bytes
store64_be w =
    u8 (w >>> 8 >>> 8 >>> 8 >>> 8 >>> 8 >>> 8 >>> 8)
    ∷ u8 (w >>> 8 >>> 8 >>> 8 >>> 8 >>> 8 >>> 8)
    ∷ u8 (w >>> 8 >>> 8 >>> 8 >>> 8 >>> 8)
    ∷ u8 (w >>> 8 >>> 8 >>> 8 >>> 8)
    ∷ u8 (w >>> 8 >>> 8 >>> 8)
    ∷ u8 (w >>> 8 >>> 8)
    ∷ u8 (w >>> 8)
    ∷ u8 w
    ∷ []

pub record Sha256State : Type 0 where
  pub state : List ℕ
  pub count : ℕ
  pub buf : Bytes

-- `Krnd`.
abbrev pub krnd : List ℕ
krnd =
    0x428a2f98 ∷ 0x71374491 ∷ 0xb5c0fbcf ∷ 0xe9b5dba5 ∷ 0x3956c25b ∷ 0x59f111f1 ∷ 0x923f82a4
    ∷ 0xab1c5ed5 ∷ 0xd807aa98 ∷ 0x12835b01 ∷ 0x243185be ∷ 0x550c7dc3 ∷ 0x72be5d74 ∷ 0x80deb1fe
    ∷ 0x9bdc06a7 ∷ 0xc19bf174 ∷ 0xe49b69c1 ∷ 0xefbe4786 ∷ 0x0fc19dc6 ∷ 0x240ca1cc ∷ 0x2de92c6f
    ∷ 0x4a7484aa ∷ 0x5cb0a9dc ∷ 0x76f988da ∷ 0x983e5152 ∷ 0xa831c66d ∷ 0xb00327c8 ∷ 0xbf597fc7
    ∷ 0xc6e00bf3 ∷ 0xd5a79147 ∷ 0x06ca6351 ∷ 0x14292967 ∷ 0x27b70a85 ∷ 0x2e1b2138 ∷ 0x4d2c6dfc
    ∷ 0x53380d13 ∷ 0x650a7354 ∷ 0x766a0abb ∷ 0x81c2c92e ∷ 0x92722c85 ∷ 0xa2bfe8a1 ∷ 0xa81a664b
    ∷ 0xc24b8b70 ∷ 0xc76c51a3 ∷ 0xd192e819 ∷ 0xd6990624 ∷ 0xf40e3585 ∷ 0x106aa070 ∷ 0x19a4c116
    ∷ 0x1e376c08 ∷ 0x2748774c ∷ 0x34b0bcb5 ∷ 0x391c0cb3 ∷ 0x4ed8aa4a ∷ 0x5b9cca4f ∷ 0x682e6ff3
    ∷ 0x748f82ee ∷ 0x78a5636f ∷ 0x84c87814 ∷ 0x8cc70208 ∷ 0x90befffa ∷ 0xa4506ceb ∷ 0xbef9a3f7
    ∷ 0xc67178f2 ∷ []

pub ch : ℕ → ℕ → ℕ → ℕ
ch x y z = bit_xor (bit_and x (bit_xor y z)) z

pub maj : ℕ → ℕ → ℕ → ℕ
maj x y z = bit_or (bit_and x (bit_or y z)) (bit_and y z)

pub big_sigma0 : ℕ → ℕ
big_sigma0 x = bit_xor (bit_xor (rotr32 x 2) (rotr32 x 13)) (rotr32 x 22)

pub big_sigma1 : ℕ → ℕ
big_sigma1 x = bit_xor (bit_xor (rotr32 x 6) (rotr32 x 11)) (rotr32 x 25)

pub sigma0 : ℕ → ℕ
sigma0 x = bit_xor (bit_xor (rotr32 x 7) (rotr32 x 18)) (x >>> 3)

pub sigma1 : ℕ → ℕ
sigma1 x = bit_xor (bit_xor (rotr32 x 17) (rotr32 x 19)) (x >>> 10)

-- `be32dec_vect`, with the words left, from an index on.
pub be32dec_vect : ℕ → Bytes → ℕ → List ℕ
be32dec_vect zero src at = []
be32dec_vect (suc left) src at = load32_be src at ∷ be32dec_vect left src (at + 4)

-- `be32enc_vect`, with the words left.
unfoldable pub be32enc_vect : ℕ → List ℕ → Bytes
be32enc_vect zero src = []
be32enc_vect (suc left) src = store32_be (get_or src 0 0) ++ be32enc_vect left (drop 1 src)

-- `RNDr(S, W, i, ii)`: the eight variables stay where they are, and their names move.
pub rnd : List ℕ → List ℕ → ℕ → ℕ → List ℕ
rnd s w i ii =
    let at : ℕ → ℕ = λ j. (64 + j - i) % 8 in
    let a = get_or s (at 0) 0 in
    let b = get_or s (at 1) 0 in
    let c = get_or s (at 2) 0 in
    let d = get_or s (at 3) 0 in
    let e = get_or s (at 4) 0 in
    let f = get_or s (at 5) 0 in
    let g = get_or s (at 6) 0 in
    let k = u32 (get_or w (i + ii) 0 + get_or krnd (i + ii) 0) in
    let h = u32 (get_or s (at 7) 0 + (big_sigma1 e + ch e f g + k)) in
    set (set s (at 3) (u32 (d + h))) (at 7) (u32 (h + (big_sigma0 a + maj a b c)))

-- `MSCH(W, ii, i)`; `w` is the part of the array that has been written.
pub msch : List ℕ → ℕ → ℕ → List ℕ
msch w ii i =
    w
    ++ u32 (
        sigma1 (get_or w (i + ii + 14) 0)
        + get_or w (i + ii + 9) 0
        + sigma0 (get_or w (i + ii + 1) 0)
        + get_or w (i + ii) 0)
      ∷ []

-- The sixteen lines of either macro, with those left.
pub sha256_rounds : ℕ → List ℕ → List ℕ → ℕ → ℕ → List ℕ
sha256_rounds zero s w i ii = s
sha256_rounds (suc left) s w i ii = sha256_rounds left (rnd s w i ii) w (i + 1) ii

pub schedule : ℕ → List ℕ → ℕ → ℕ → List ℕ
schedule zero w ii i = w
schedule (suc left) w ii i = schedule left (msch w ii i) (ii + 1) i

-- The loop `for (i = 0; i < 64; i += 16)` with the rounds behind this one.
pub transform_loop : ℕ → List ℕ → List ℕ → ℕ → List ℕ
transform_loop zero s w i = sha256_rounds 16 s w 0 i
transform_loop (suc left) s w i =
    transform_loop left (sha256_rounds 16 s w 0 i) (schedule 16 w 0 i) (i + 16)

-- `state[i] += S[i]`.
pub add_words : List ℕ → List ℕ → List ℕ
add_words [] s = []
add_words (x ∷ state) [] = []
add_words (x ∷ state) (y ∷ s) = u32 (x + y) ∷ add_words state s

pub sha256_transform : List ℕ → Bytes → List ℕ
sha256_transform state block = add_words state (transform_loop 3 state (be32dec_vect 16 block 0) 0)

pub sha256_initial_state : List ℕ
sha256_initial_state =
    0x6a09e667 ∷ 0xbb67ae85 ∷ 0x3c6ef372 ∷ 0xa54ff53a ∷ 0x510e527f ∷ 0x9b05688c ∷ 0x1f83d9ab
    ∷ 0x5be0cd19 ∷ []

-- `PAD`.
abbrev pub pad : Bytes
pad = 0x80 ∷ replicate 63 0

-- `r`, the bytes that wait in the buffer. `buf` need not hold more.
unfoldable pub waiting : Sha256State → ℕ
waiting st = bit_and (st.count >>> 3) 0x3f

unfoldable pub crypto_hash_sha256_init : Sha256State
crypto_hash_sha256_init = record { state = sha256_initial_state; count = 0; buf = [] }

-- The loop `while (inlen >= 64)`, with the rounds left.
unfoldable pub whole_blocks : ℕ → List ℕ → Bytes → List ℕ
whole_blocks zero state input = state
whole_blocks (suc left) state input =
    whole_blocks left (sha256_transform state (take 64 input)) (drop 64 input)

-- A first block is full: it is transformed, then the blocks behind it, and the rest is kept.
unfoldable pub update_blocks : Sha256State → ℕ → Bytes → Sha256State
update_blocks st r input =
    let first = sha256_transform st.state (take r st.buf ++ take (64 - r) input) in
    let rest = drop (64 - r) input in
    let left = length rest / 64 in
    record st {
      state = whole_blocks left first rest;
      buf = take (bit_and (length rest) 63) (drop (left * 64) rest);
    }

unfoldable pub crypto_hash_sha256_update : Sha256State → Bytes → Sha256State
crypto_hash_sha256_update st input =
    let r = waiting st in
    let st' = record st { count = u64 (st.count + u64 (length input <<< 3)) } in
    if length input == 0
    then st
    else if ltb (length input) (64 - r)
    then record st' { buf = take r st.buf ++ input }
    else update_blocks st' r input

-- `SHA256_Pad`, which ends in the transformed state.
unfoldable pub sha256_pad : Sha256State → List ℕ
sha256_pad st =
    let r = waiting st in
    let short = ltb r 56 in
    let state =
      if short then st.state else sha256_transform st.state (take r st.buf ++ take (64 - r) pad) in
    let head = if short then take r st.buf ++ take (56 - r) pad else replicate 56 0 in
    sha256_transform state (head ++ store64_be st.count)

unfoldable pub crypto_hash_sha256_final : Sha256State → Bytes
crypto_hash_sha256_final st = be32enc_vect 8 (sha256_pad st)

pub crypto_hash_sha256 : Bytes → Bytes
crypto_hash_sha256 input =
    crypto_hash_sha256_final (crypto_hash_sha256_update crypto_hash_sha256_init input)
