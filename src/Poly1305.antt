-- ===== src/Poly1305.antt =====
-- src/libsodium/crypto_onetimeauth/poly1305/donna: `poly1305_donna.c` with the 64-bit limbs of
-- `poly1305_donna64.h`. An `unsigned long long` has 64 bits and `uint128_t` 128.
pub mod Feed
pub mod Update
pub mod Finish
pub mod Field
pub mod Load
pub mod Reduce
pub mod Sum
pub mod Polynomial
pub mod Mac
pub mod Clamp
pub mod Tests
use libsodium.Base.{
  ℕ, zero, suc, ◌+◌, ◌-◌, ◌*◌, ◌/◌, ◌%◌, ◌^◌, min, bit_and, bit_or, Bool, true, false, Option, [],
  ◌∷◌, ◌++◌, Bytes, u64, u128, length, take, drop, replicate, if◌then◌else◌, ltb, leb, ◌==◌, ◌<<<◌,
  ◌>>>◌,
}
use libsodium.Endian.{load64_le, store64_le}
use libsodium.Verify.{crypto_verify_16}

-- `r` and `h`: limbs of 44, 44 and 42 bits.
pub record Limbs : Type 0 where
  pub l0 : ℕ
  pub l1 : ℕ
  pub l2 : ℕ

-- `buffer` holds the first `leftover` bytes of `st->buffer`; no byte behind them is read.
pub record State : Type 0 where
  pub r : Limbs
  pub h : Limbs
  pub pad0 : ℕ
  pub pad1 : ℕ
  pub buffer : Bytes
  pub final : Bool

abbrev pub mask44 : ℕ
mask44 = 0xfffffffffff

abbrev pub mask42 : ℕ
mask42 = 0x3ffffffffff

unfoldable pub poly1305_init : Bytes → State
poly1305_init key =
    let t0 = load64_le key 0 in
    let t1 = load64_le key 8 in
    record {
      r = record {
        l0 = bit_and t0 0xffc0fffffff;
        l1 = bit_and (bit_or (t0 >>> 44) (u64 (t1 <<< 20))) 0xfffffc0ffff;
        l2 = bit_and (t1 >>> 24) 0x00ffffffc0f;
      };
      h = record { l0 = 0; l1 = 0; l2 = 0 };
      pad0 = load64_le key 16;
      pad1 = load64_le key 24;
      buffer = [];
      final = false;
    }

-- `h += m[i]`, for a block of 16 bytes.
unfoldable pub add_block : Limbs → Bool → Bytes → Limbs
add_block h final m =
    let hibit = if final then 0 else 2 ^ 40 in
    let t0 = load64_le m 0 in
    let t1 = load64_le m 8 in
    record {
      l0 = u64 (h.l0 + bit_and t0 mask44);
      l1 = u64 (h.l1 + bit_and (bit_or (t0 >>> 44) (u64 (t1 <<< 20))) mask44);
      l2 = u64 (h.l2 + bit_or (bit_and (t1 >>> 24) mask42) hibit);
    }

-- `h *= r`, and the partial reduction modulo 2^130 - 5.
unfoldable pub multiply : Limbs → Limbs → Limbs
multiply r h =
    let s1 = u64 (r.l1 * 20) in
    let s2 = u64 (r.l2 * 20) in
    let d0 = u128 (u128 (h.l0 * r.l0 + h.l1 * s2) + h.l2 * s1) in
    let d1 = u128 (u128 (h.l0 * r.l1 + h.l1 * r.l0) + h.l2 * s2) in
    let d2 = u128 (u128 (h.l0 * r.l2 + h.l1 * r.l1) + h.l2 * r.l0) in
    let c0 = u64 (d0 >>> 44) in
    let h0 = bit_and (u64 d0) mask44 in
    let d1 = u128 (d1 + c0) in
    let c1 = u64 (d1 >>> 44) in
    let h1 = bit_and (u64 d1) mask44 in
    let d2 = u128 (d2 + c1) in
    let c2 = u64 (d2 >>> 42) in
    let h2 = bit_and (u64 d2) mask42 in
    let h0 = u64 (h0 + u64 (c2 * 5)) in
    let c3 = h0 >>> 44 in record { l0 = bit_and h0 mask44; l1 = u64 (h1 + c3); l2 = h2 }

-- One round of the loop of `poly1305_blocks`, and the loop with the rounds left.
unfoldable pub block_round : State → Bytes → State
block_round st m = record st { h = multiply st.r (add_block st.h st.final m) }

pub blocks_loop : ℕ → State → Bytes → State
blocks_loop zero st m = st
blocks_loop (suc left) st m = blocks_loop left (block_round st (take 16 m)) (drop 16 m)

-- The loop runs while at least 16 bytes are left.
unfoldable pub poly1305_blocks : State → Bytes → State
unfolding blocks_loop
poly1305_blocks st m = blocks_loop (length m / 16) st m

-- The full blocks, then the leftover, of an input that begins at a block boundary.
unfoldable pub update_aligned : State → Bytes → State
update_aligned st m =
    let want = bit_and (length m) (2 ^ 64 - 1 - 15) in
    let full = leb 16 (length m) in
    let st' = if full then poly1305_blocks st (take want m) else st in
    let rest = if full then drop want m else m in
    if length rest == 0 then st' else record st' { buffer = st'.buffer ++ rest }

unfoldable pub poly1305_update : State → Bytes → State
poly1305_update st m =
    let want = min (16 - length st.buffer) (length m) in
    let filled = record st { buffer = st.buffer ++ take want m } in
    if length st.buffer == 0
    then update_aligned st m
    else if ltb (length filled.buffer) 16
    then filled
    else update_aligned (record (poly1305_blocks filled filled.buffer) { buffer = [] })
        (drop want m)

-- The last block, with its byte 1 and zeros in place of the high bit.
unfoldable pub finish_block : State → State
finish_block st =
    if length st.buffer == 0
    then st
    else let block = st.buffer ++ 1 ∷ replicate (15 - length st.buffer) 0 in
      poly1305_blocks (record st { buffer = block; final = true }) block

-- The carries behind the last block.
unfoldable pub carry_fully : Limbs → Limbs
carry_fully h =
    let c = h.l1 >>> 44 in
    let h1 = bit_and h.l1 mask44 in
    let h2 = u64 (h.l2 + c) in
    let c = h2 >>> 42 in
    let h2 = bit_and h2 mask42 in
    let h0 = u64 (h.l0 + u64 (c * 5)) in
    let c = h0 >>> 44 in
    let h0 = bit_and h0 mask44 in
    let h1 = u64 (h1 + c) in
    let c = h1 >>> 44 in
    let h1 = bit_and h1 mask44 in
    let h2 = u64 (h2 + c) in
    let c = h2 >>> 42 in
    let h2 = bit_and h2 mask42 in
    let h0 = u64 (h0 + u64 (c * 5)) in
    let c = h0 >>> 44 in
    let h0 = bit_and h0 mask44 in record { l0 = h0; l1 = u64 (h1 + c); l2 = h2 }

-- `h` if it is below 2^130 - 5, and `h - (2^130 - 5)` if it is not, chosen by a mask.
unfoldable pub select_reduced : Limbs → Limbs
select_reduced h =
    let g0 = u64 (h.l0 + 5) in
    let c = g0 >>> 44 in
    let g0 = bit_and g0 mask44 in
    let g1 = u64 (h.l1 + c) in
    let c = g1 >>> 44 in
    let g1 = bit_and g1 mask44 in
    let g2 = u64 (u64 (h.l2 + c) + (2 ^ 64 - 2 ^ 42)) in
    let mask = u64 ((g2 >>> 63) + (2 ^ 64 - 1)) in
    let other = 2 ^ 64 - 1 - mask in
    record {
      l0 = bit_or (bit_and h.l0 other) (bit_and g0 mask);
      l1 = bit_or (bit_and h.l1 other) (bit_and g1 mask);
      l2 = bit_or (bit_and h.l2 other) (bit_and g2 mask);
    }

-- `h + pad` modulo 2^128, as 16 bytes.
unfoldable pub add_pad : Limbs → ℕ → ℕ → Bytes
add_pad h t0 t1 =
    let h0 = u64 (h.l0 + bit_and t0 mask44) in
    let c = h0 >>> 44 in
    let h0 = bit_and h0 mask44 in
    let h1 = u64 (h.l1 + (bit_and (bit_or (t0 >>> 44) (u64 (t1 <<< 20))) mask44 + c)) in
    let c = h1 >>> 44 in
    let h1 = bit_and h1 mask44 in
    let h2 = u64 (h.l2 + (bit_and (t1 >>> 24) mask42 + c)) in
    let h2 = bit_and h2 mask42 in
    let low = bit_or h0 (u64 (h1 <<< 44)) in
    let high = bit_or (h1 >>> 20) (u64 (h2 <<< 24)) in store64_le low ++ store64_le high

unfoldable pub poly1305_finish : State → Bytes
poly1305_finish st =
    let st' = finish_block st in add_pad (select_reduced (carry_fully st'.h)) st'.pad0 st'.pad1

pub crypto_onetimeauth_poly1305_donna : Bytes → Bytes → Bytes
crypto_onetimeauth_poly1305_donna m key = poly1305_finish (poly1305_update (poly1305_init key) m)

-- The streaming interface.
abbrev pub crypto_onetimeauth_poly1305_donna_init : Bytes → State
crypto_onetimeauth_poly1305_donna_init key = poly1305_init key

abbrev pub crypto_onetimeauth_poly1305_donna_update : State → Bytes → State
crypto_onetimeauth_poly1305_donna_update state input = poly1305_update state input

abbrev pub crypto_onetimeauth_poly1305_donna_final : State → Bytes
crypto_onetimeauth_poly1305_donna_final state = poly1305_finish state

pub crypto_onetimeauth_poly1305_donna_verify : Bytes → Bytes → Bytes → Option ℕ
crypto_onetimeauth_poly1305_donna_verify h m k =
    crypto_verify_16 h (crypto_onetimeauth_poly1305_donna m k)
