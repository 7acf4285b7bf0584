-- ===== src/Poly1305/Update.antt =====
-- `poly1305_update` of src/libsodium/crypto_onetimeauth/poly1305/donna/poly1305_donna.c is the same
-- as feeding its input byte by byte, so it does not matter how an input is cut into calls.

use native.Mathlib.Decide.{dec_lt, ℕ_discrete}
use libsodium.Base.{
  ℕ, zero, suc, ◌+◌, ◌-◌, ◌*◌, ◌/◌, ◌%◌, ◌^◌, ◌≤◌, ◌<◌, min, bit_and, true, false, [], ◌∷◌, ◌++◌,
  append-nil, ◌≡◌, refl, sym, ap, ◌∙◌, arith, Bytes, length, length-append, length-take,
  length-drop, take, drop, take-append-drop, take_all, if◌then◌else◌, ◌==◌, ltb, leb, le→ltb,
  lt→ltb, le→leb, lt→leb, pos→==0,
}
use libsodium.Bits.And.{bit_and-shift, bit_and-mod, bit_and-mask, bit_and-zero}
use libsodium.Poly1305.{
  State, block_round, blocks_loop, poly1305_blocks, update_aligned, poly1305_update,
}
use libsodium.Poly1305.Feed.{
  feed_all, feed_all-append, feed_short, feed_block, feed_blocks, feed_all-buffer,
}

-- `bytes & ~(poly1305_block_size - 1)` rounds down to whole blocks.
whole_blocks : (n : ℕ) → n < 2 ^ 64 → bit_and n (2 ^ 64 - 1 - 15) ≡ n / 16 * 16
whole_blocks n small =
    let upper : bit_and n (2 ^ 64 - 1 - 15) / 2 ^ 4 ≡ n / 2 ^ 4 =
      bit_and-shift 4 n (2 ^ 64 - 1 - 15) ∙ (bit_and-mask 60 (n / 2 ^ 4) ∙ omega arith) in
    let lower : bit_and n (2 ^ 64 - 1 - 15) % 2 ^ 4 ≡ 0 =
      bit_and-mod 4 n (2 ^ 64 - 1 - 15) ∙ bit_and-zero (n % 2 ^ 4) in
    omega arith

nil_of_length : (m : Bytes) → length m ≡ 0 → m ≡ []
nil_of_length [] e = refl
nil_of_length (x ∷ m) e = absurd (omega arith)

-- The bytes behind the last full block, none or some, are kept in the buffer.
leftover : State → Bytes → State
leftover st m = if length m == 0 then st else record st { buffer = st.buffer ++ m }

leftover_lem : (st : State) (m : Bytes) → leftover st m ≡ record st { buffer = st.buffer ++ m }
unfolding leftover
leftover_lem st [] = ap (λ (b : Bytes). record st { buffer = b }) (sym (append-nil st.buffer))
leftover_lem st (x ∷ m) =
    let some_left : (length (x ∷ m) == 0) ≡ false = pos→==0 (length (x ∷ m)) (omega arith) in
    rw some_left refl

leftover-feed_all :
    (st : State) (m : Bytes) → length st.buffer + length m < 16 → leftover st m ≡ feed_all st m
leftover-feed_all st m room = leftover_lem st m ∙ sym (feed_short st m room)

blocks_loop-keeps : (n : ℕ) (st : State) (m : Bytes) → (blocks_loop n st m).buffer ≡ st.buffer
unfolding blocks_loop block_round
blocks_loop-keeps zero st m = refl
blocks_loop-keeps (suc n) st m = blocks_loop-keeps n (block_round st (take 16 m)) (drop 16 m)

blocks_loop-empty :
    (n : ℕ) (st : State) (m : Bytes)
    → st.buffer ≡ []
    → record (blocks_loop n st m) { buffer = [] } ≡ blocks_loop n st m
blocks_loop-empty n st m empty =
    ap (λ (b : Bytes). record (blocks_loop n st m) { buffer = b })
      (sym (blocks_loop-keeps n st m ∙ empty))

module _ (st : State) (m : Bytes) (empty : st.buffer ≡ []) (small : length m < 2 ^ 64) where
  -- Fewer bytes than a block.
  aligned_short : length m < 16 → update_aligned st m ≡ feed_all st m
  unfolding update_aligned leftover
  aligned_short short =
      let none_full : leb 16 (length m) ≡ false = lt→leb (length m) 16 short in
      let none_kept : length st.buffer ≡ 0 = ap (λ (b : Bytes). length b) empty in
      rw none_full (leftover-feed_all st m (omega arith))

  aligned_long : 16 ≤ length m → update_aligned st m ≡ feed_all st m
  unfolding update_aligned poly1305_blocks leftover
  aligned_long long =
      let some_full : leb 16 (length m) ≡ true = le→leb 16 (length m) long in
      let want = bit_and (length m) (2 ^ 64 - 1 - 15) in
      let n = length m / 16 in
      let first = take want m in
      let rest = drop want m in
      let n = length first / 16 in
      let rounded = whole_blocks (length m) small in
      let blocks = blocks_loop n st first in
      let first_length : length first ≡ length m / 16 * 16 = omega (arith, length-take want m) in
      let rest_short : length rest < 16 = omega (arith, length-drop want m) in
      let done : feed_all st first ≡ blocks =
        feed_blocks n st first empty (omega arith) ∙ blocks_loop-empty n st first empty in
      rw some_full (
        leftover-feed_all blocks rest
          (omega (arith, ap (λ (b : Bytes). length b) (blocks_loop-keeps n st first ∙ empty)))
        ∙ (ap (λ (s : State). feed_all s rest) (sym done)
            ∙ (sym (feed_all-append st first rest) ∙ ap (feed_all st) (take-append-drop want m))))

aligned_lem :
    (st : State) (m : Bytes)
    → st.buffer ≡ []
    → length m < 2 ^ 64
    → update_aligned st m ≡ feed_all st m
aligned_lem st m empty small = elim (dec_lt (length m) 16) [
  | yes short ↦ aligned_short st m empty small short
  | no long ↦ aligned_long st m empty small (omega arith)
]

-- A buffer that `update` has just filled is one block.
pub one_block : (st : State) (b : Bytes) → length b ≡ 16 → poly1305_blocks st b ≡ block_round st b
unfolding poly1305_blocks blocks_loop
one_block st b full =
    ap (λ (n : ℕ). blocks_loop (n / 16) st b) full
    ∙ ap (block_round st) (take_all 16 b (omega arith))

module _ (st : State) (m : Bytes) (open_ : length st.buffer < 16) (kept : 0 < length st.buffer)
    (small : length m < 2 ^ 64) where
  update_within : length m < 16 - length st.buffer → poly1305_update st m ≡ feed_all st m
  unfolding poly1305_update
  update_within short =
      let some_kept : (length st.buffer == 0) ≡ false = pos→==0 (length st.buffer) kept in
      let all_taken : min (16 - length st.buffer) (length m) ≡ length m = ground arith in
      let whole : take (length m) m ≡ m = take_all (length m) m (omega arith) in
      let below : ltb (length (st.buffer ++ m)) 16 ≡ true =
        lt→ltb (length (st.buffer ++ m)) 16 (omega (arith, length-append st.buffer m)) in
      rw (some_kept, all_taken, whole, below) (sym (feed_short st m (omega arith)))

  update_past : 16 - length st.buffer ≤ length m → poly1305_update st m ≡ feed_all st m
  unfolding poly1305_update block_round
  update_past long =
      let want = 16 - length st.buffer in
      let some_kept : (length st.buffer == 0) ≡ false = pos→==0 (length st.buffer) kept in
      let cut : min (16 - length st.buffer) (length m) ≡ want = ground arith in
      let full : length (st.buffer ++ take want m) ≡ 16 =
        omega (arith, length-append st.buffer (take want m), length-take want m) in
      let filled : ltb (length (st.buffer ++ take want m)) 16 ≡ false =
        le→ltb (length (st.buffer ++ take want m)) 16 (omega arith) in
      let buf = st.buffer ++ take want m in
      let st' = record (block_round st buf) { buffer = [] } in
      let block : feed_all st (take want m) ≡ st' =
        feed_block st (take want m) (omega (arith, length-take want m))
          (omega (arith, length-take want m)) in
      rw (some_kept, cut, filled)
        (ap (λ (s : State). update_aligned (record s { buffer = [] }) (drop want m))
            (one_block (record st { buffer = buf }) buf full)
          ∙ (aligned_lem st' (drop want m) refl (omega (arith, length-drop want m))
              ∙ (ap (λ (s : State). feed_all s (drop want m)) (sym block)
                  ∙ (sym (feed_all-append st (take want m) (drop want m))
                      ∙ ap (feed_all st) (take-append-drop want m)))))

-- With less than a block kept from earlier calls, an update feeds its bytes one after the other.
pub poly1305_update_lem :
    (st : State) (m : Bytes)
    → length st.buffer < 16
    → length m < 2 ^ 64
    → poly1305_update st m ≡ feed_all st m
unfolding poly1305_update
poly1305_update_lem st m open_ small = elim (ℕ_discrete (length st.buffer) 0) [
  | yes none_kept ↦ rw none_kept (aligned_lem st m (nil_of_length st.buffer none_kept) small)
  | no some_kept ↦ elim (dec_lt (length m) (16 - length st.buffer)) [
    | yes short ↦ update_within st m open_ (omega arith) small short
    | no long ↦ update_past st m open_ (omega arith) small (omega arith)
  ]
]

-- How an input is cut into two calls does not matter, from a state that keeps less than a block.
pub poly1305_update-append :
    (st : State) (a b : Bytes)
    → length st.buffer < 16
    → length a + length b < 2 ^ 64
    → poly1305_update (poly1305_update st a) b ≡ poly1305_update st (a ++ b)
poly1305_update-append st a b open_ small =
    ap (λ (s : State). poly1305_update s b) (poly1305_update_lem st a open_ (omega arith))
    ∙ (poly1305_update_lem (feed_all st a) b (feed_all-buffer st a open_) (omega arith)
        ∙ (sym (feed_all-append st a b)
            ∙ sym (poly1305_update_lem st (a ++ b) open_ (omega (arith, length-append a b)))))
