-- ===== src/Secretstream.antt =====
-- src/libsodium/crypto_secretstream/xchacha20poly1305/secretstream_xchacha20poly1305.c: a stream of
-- authenticated messages. A call takes the state and returns the state that it leaves.
pub mod Advance
pub mod Messages
pub mod Opening
pub mod Session
pub mod Tests
use libsodium.Base.{
  ℕ, ◌+◌, ◌-◌, ◌*◌, ◌^◌, min, bit_and, Bool, Option, none, some, [], ◌∷◌, ◌++◌, ◌||◌, not, Bytes,
  u64, sub64, length, get_or, set, take, drop, replicate, if◌then◌else◌, ltb, ◌==◌, Result, ok,
  misuse,
}
use libsodium.Endian.{store64_le, xor_buf}
use libsodium.Utils.Compare.{minus_one, sodium_memcmp, sodium_is_zero}
use libsodium.Utils.Arith.{sodium_increment}
use libsodium.Chacha20.Api.{
  sodium_size_max, outcome, crypto_stream_chacha20_ietf, crypto_stream_chacha20_ietf_xor,
  crypto_stream_chacha20_ietf_xor_ic,
}
use libsodium.Xchacha20.{crypto_core_hchacha20}
use libsodium.Poly1305.{
  crypto_onetimeauth_poly1305_donna_update, crypto_onetimeauth_poly1305_donna_final,
}
use libsodium.Aead.{◌>>=◌, ietf_begin_tag}

-- The key and the 12 bytes of the nonce: `STATE_COUNTER` is its first 4, `STATE_INONCE` the others.
pub record StreamState : Type 0 where
  pub k : Bytes
  pub nonce : Bytes

abbrev pub abytes : ℕ
abytes = 17

abbrev pub messagebytes_max : ℕ
messagebytes_max = min (sodium_size_max - abytes) (64 * (2 ^ 32 - 2))

abbrev pub tag_rekey : ℕ
tag_rekey = 2

pub counter_reset : StreamState → StreamState
counter_reset state = record state { nonce = 1 ∷ 0 ∷ 0 ∷ 0 ∷ drop 4 state.nonce }

-- The two ends begin alike; `header` is what `randombytes_buf` gives to `init_push`, which also
-- writes it to `out`.
pub crypto_secretstream_xchacha20poly1305_init_push : Bytes → Bytes → StreamState × Bytes
crypto_secretstream_xchacha20poly1305_init_push header k = (
  record {
    k = crypto_core_hchacha20 header k none;
    nonce = 1 ∷ 0 ∷ 0 ∷ 0 ∷ take 8 (drop 16 header);
  },
  header,
)

pub crypto_secretstream_xchacha20poly1305_init_pull : Bytes → Bytes → StreamState
crypto_secretstream_xchacha20poly1305_init_pull header k = record {
  k = crypto_core_hchacha20 header k none;
  nonce = 1 ∷ 0 ∷ 0 ∷ 0 ∷ take 8 (drop 16 header);
}

pub crypto_secretstream_xchacha20poly1305_rekey : StreamState → Result StreamState
unfolding counter_reset
crypto_secretstream_xchacha20poly1305_rekey state = do
  new_key_and_inonce ←
      crypto_stream_chacha20_ietf_xor (state.k ++ drop 4 state.nonce) state.nonce state.k
  ok (
      counter_reset (record {
        k = take 32 new_key_and_inonce;
        nonce = take 4 state.nonce ++ drop 32 new_key_and_inonce;
      }))

-- The authenticator, which `push` and `pull` run alike, from the block of the tag and the
-- ciphertext. The length of the padding is the one that the source has, and its comment regrets.
pub stream_mac : Bytes → Bytes → Bytes → Bytes → Bytes
stream_mac block0 ad block c =
    let state = crypto_onetimeauth_poly1305_donna_update (ietf_begin_tag block0 ad) block in
    let state = crypto_onetimeauth_poly1305_donna_update state c in
    let padding = replicate (bit_and (u64 (sub64 0x10 64 + length c)) 0xf) 0 in
    let state = crypto_onetimeauth_poly1305_donna_update state padding in
    let state = crypto_onetimeauth_poly1305_donna_update state (store64_le (length ad)) in
    let state = crypto_onetimeauth_poly1305_donna_update state (store64_le (u64 (64 + length c))) in
    crypto_onetimeauth_poly1305_donna_final state

-- How both ends go on behind a message: the tag asks for a new key, or the counter has run over.
pub advance : StreamState → Bytes → ℕ → Result StreamState
advance state mac tag = do
  let inonce = xor_buf 8 (drop 4 state.nonce) mac
  counter ← outcome (sodium_increment (take 4 state.nonce) 4)
  zero_counter ← outcome (sodium_is_zero counter 4)
  let state' = record state { nonce = counter ++ inonce }
  let needed = not (bit_and tag tag_rekey == 0) || not (zero_counter == 0)
  if needed then crypto_secretstream_xchacha20poly1305_rekey state' else ok state'

pub crypto_secretstream_xchacha20poly1305_push :
    StreamState → Bytes → Bytes → ℕ → Result (StreamState × Bytes)
crypto_secretstream_xchacha20poly1305_push state m ad tag =
    let sealed = (do
      block0 ← crypto_stream_chacha20_ietf 64 state.nonce state.k
      block ← crypto_stream_chacha20_ietf_xor_ic (tag ∷ replicate 63 0) state.nonce 1 state.k
      c ← crypto_stream_chacha20_ietf_xor_ic m state.nonce 2 state.k
      let mac = stream_mac block0 ad block c
      state' ← advance state mac tag
      ok (state', take 1 block ++ (c ++ mac))) in
    if ltb messagebytes_max (length m) then misuse else sealed

-- What is written to `m`, if anything, `*mlen_p`, `*tag_p` and the value that is returned.
pub record Pulled : Type 0 where
  pub m : Option Bytes
  pub mlen : ℕ
  pub tag : ℕ
  pub ret : ℕ

pub not_pulled : Pulled
not_pulled = record { m = none; mlen = 0; tag = 0xff; ret = minus_one }

-- `pull` behind the comparison of the tags.
pub finish_pull : StreamState → ℕ → Bytes → Bytes → ℕ → Result (StreamState × Pulled)
finish_pull state ret c mac tag =
    let accepted = (do
      m ← crypto_stream_chacha20_ietf_xor_ic c state.nonce 2 state.k
      state' ← advance state mac tag
      ok (state', record { m = some m; mlen = length c; tag = tag; ret = 0 })) in
    if ret == 0 then accepted else ok (state, not_pulled)

pub crypto_secretstream_xchacha20poly1305_pull :
    StreamState → Bytes → Bytes → Result (StreamState × Pulled)
crypto_secretstream_xchacha20poly1305_pull state input ad =
    let mlen = length input - abytes in
    let first = get_or input 0 0 in
    let opened = (do
      block0 ← crypto_stream_chacha20_ietf 64 state.nonce state.k
      block ← crypto_stream_chacha20_ietf_xor_ic (first ∷ replicate 63 0) state.nonce 1 state.k
      let tag = get_or block 0 0
      let c = take mlen (drop 1 input)
      let mac = stream_mac block0 ad (set block 0 first) c
      ret ← outcome (sodium_memcmp mac (drop (1 + mlen) input) 16)
      finish_pull state ret c mac tag) in
    if ltb (length input) abytes
    then ok (state, not_pulled)
    else if ltb messagebytes_max mlen
    then misuse
    else opened
