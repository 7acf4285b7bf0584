-- ===== src/Poly1305/Mac.antt =====
-- src/libsodium/crypto_onetimeauth/poly1305/donna/poly1305_donna.c: the one-shot
-- function and the number that Poly1305 gives a message and a key.

use libsodium.Base.{
  ℕ, ◌+◌, ◌*◌, ◌/◌, ◌%◌, ◌^◌, ◌<◌, bit_and, ◌≡◌, refl, sym, ap, ◌∙◌, arith, Bytes, IsBytes, length,
  le_value, take, drop,
}
use libsodium.Endian.Load.{load64_le-lt, load64_le_upper}
use libsodium.Poly1305.{
  State, poly1305_init, finish_block, carry_fully, select_reduced, add_pad, poly1305_finish,
  crypto_onetimeauth_poly1305_donna,
}
use libsodium.Poly1305.Feed.{feed_all}
use libsodium.Poly1305.Update.{poly1305_update_lem}
use libsodium.Poly1305.Finish.{poly1305_init-buffer}
use libsodium.Poly1305.Field.{value, prime, IsReduced}
use libsodium.Poly1305.Reduce.{select_reduced-carry_fully}
use libsodium.Poly1305.Polynomial.{evaluate, Absorbs, feed_all-Absorbs}
use libsodium.Poly1305.Sum.{add_pad-value}
use libsodium.Poly1305.Clamp.{clamp, poly1305_init-r, poly1305_init-IsClamped}

-- Poly1305 of a message under a key of 32 bytes, as a number.
abbrev pub poly1305_mac : Bytes → Bytes → ℕ
poly1305_mac m key =
    let r = bit_and (le_value (take 16 key)) clamp in
    (evaluate r 0 (length m / 16) m % prime + le_value (drop 16 key)) % 2 ^ 128

module _ (st : State) (sum : ℕ) where
  -- The tag of a state whose last block is in.
  tag_of_sum :
      (out : State)
      → Absorbs st sum out
      → st.pad0 < 2 ^ 64
      → st.pad1 < 2 ^ 64
      → le_value (add_pad (select_reduced (carry_fully out.h)) out.pad0 out.pad1)
        ≡ (sum % prime + (st.pad0 + 2 ^ 64 * st.pad1)) % 2 ^ 128
  tag_of_sum out done b0 b1 =
      let last = select_reduced (carry_fully out.h) in
      let (carried, reduced) = select_reduced-carry_fully out.h done.reduced in
      rw (done.pad0_kept, done.pad1_kept)
        (add_pad-value last st.pad0 st.pad1 b0 b1 carried
          ∙ ap (λ (v : ℕ). (v + (st.pad0 + 2 ^ 64 * st.pad1)) % 2 ^ 128) (reduced ∙ done.same))

poly1305_init-pad :
    (key : Bytes)
    → IsBytes key
    → length key ≡ 32
    → (poly1305_init key).pad0 + 2 ^ 64 * (poly1305_init key).pad1 ≡ le_value (drop 16 key)
unfolding poly1305_init
poly1305_init-pad key bytes whole = load64_le_upper key bytes (omega arith)

poly1305_init-pad0 : (key : Bytes) → IsBytes key → (poly1305_init key).pad0 < 2 ^ 64
unfolding poly1305_init
poly1305_init-pad0 key bytes = load64_le-lt key 16 bytes

poly1305_init-pad1 : (key : Bytes) → IsBytes key → (poly1305_init key).pad1 < 2 ^ 64
unfolding poly1305_init
poly1305_init-pad1 key bytes = load64_le-lt key 24 bytes

-- The key's number is the point, and the sum starts at 0.
init-Absorbs :
    (m key : Bytes)
    → IsBytes m
    → IsBytes key
    → Absorbs
        (poly1305_init key)
        (evaluate (bit_and (le_value (take 16 key)) clamp) 0 (length m / 16) m)
        (finish_block (feed_all (poly1305_init key) m))
unfolding poly1305_init
init-Absorbs m key bytes key_bytes =
    let st = poly1305_init key in
    let n = length m / 16 in
    let start : IsReduced st.h = record {
      below0 = omega arith;
      below1 = omega arith;
      below2 = omega arith;
    } in
    let clamped = poly1305_init-IsClamped key key_bytes in
    let at_point : evaluate (value st.r) 0 n m
        ≡ evaluate (bit_and (le_value (take 16 key)) clamp) 0 n m =
      ap (λ (r : ℕ). evaluate r 0 n m) (poly1305_init-r key key_bytes) in
    rw (sym at_point) (feed_all-Absorbs n st m refl refl clamped start bytes refl)

-- The one-shot function, on a key of 32 bytes, returns the 16-byte little-endian tag of Poly1305:
-- the polynomial of the blocks at the clamped key modulo 2^130 - 5, plus the second half of the key
-- modulo 2^128. No addition or product of the limbs wraps around on the way.
pub crypto_onetimeauth_poly1305_donna_lem :
    (m key : Bytes)
    → IsBytes m
    → IsBytes key
    → length key ≡ 32
    → length m < 2 ^ 64
    → le_value (crypto_onetimeauth_poly1305_donna m key) ≡ poly1305_mac m key
unfolding crypto_onetimeauth_poly1305_donna poly1305_finish
crypto_onetimeauth_poly1305_donna_lem m key bytes key_bytes whole small =
    let st = poly1305_init key in
    let r = bit_and (le_value (take 16 key)) clamp in
    let sum = evaluate r 0 (length m / 16) m in
    let out = finish_block (feed_all st m) in
    rw (poly1305_update_lem st m (poly1305_init-buffer key) small) (
      tag_of_sum st sum out (init-Absorbs m key bytes key_bytes) (poly1305_init-pad0 key key_bytes)
        (poly1305_init-pad1 key key_bytes)
      ∙ ap (λ (v : ℕ). (sum % prime + v) % 2 ^ 128) (poly1305_init-pad key key_bytes whole))
