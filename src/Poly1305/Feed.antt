-- ===== src/Poly1305/Feed.antt =====
-- A plain description of `poly1305_update` of
-- src/libsodium/crypto_onetimeauth/poly1305/donna/poly1305_donna.c: one byte at a time goes into the
-- buffer, and each full buffer is a block.

use libsodium.Base.{
  ℕ, zero, suc, ◌+◌, ◌*◌, ◌<◌, [], ◌∷◌, ◌++◌, append-nil, append_assoc, ◌≡◌, refl, sym, ap, ◌∙◌,
  arith, Bytes, length, length-append, length-take, length-drop, take, drop, take-append-drop,
  if◌then◌else◌, ◌==◌, true, false,
}
use native.Mathlib.Decide.{ℕ_discrete}
use libsodium.Poly1305.{State, block_round, blocks_loop}

pub feed : State → ℕ → State
feed st b =
    let buf = st.buffer ++ b ∷ [] in
    if length buf == 16
    then record (block_round st buf) { buffer = [] }
    else record st { buffer = buf }

unfoldable pub feed_all : State → Bytes → State
feed_all st [] = st
feed_all st (b ∷ m) = feed_all (feed st b) m

pub feed_all-append : (st : State) (a b : Bytes) → feed_all st (a ++ b) ≡ feed_all (feed_all st a) b
unfolding feed_all
feed_all-append st [] b = refl
feed_all-append st (x ∷ a) b = feed_all-append (feed st x) a b

feed_room :
    (st : State) (b : ℕ)
    → length st.buffer + 1 < 16
    → feed st b ≡ record st { buffer = st.buffer ++ b ∷ [] }
unfolding feed
feed_room st b room =
    let open_ : (length (st.buffer ++ b ∷ []) == 16) ≡ false =
      ground (arith, length-append st.buffer (b ∷ [])) in
    rw open_ refl

feed_last :
    (st : State) (b : ℕ)
    → length st.buffer + 1 ≡ 16
    → feed st b ≡ record (block_round st (st.buffer ++ b ∷ [])) { buffer = [] }
unfolding feed
feed_last st b full =
    let done : (length (st.buffer ++ b ∷ []) == 16) ≡ true =
      ground (arith, length-append st.buffer (b ∷ [])) in
    rw done refl

-- Bytes that do not fill the buffer are kept.
pub feed_short :
    (st : State) (m : Bytes)
    → length st.buffer + length m < 16
    → feed_all st m ≡ record st { buffer = st.buffer ++ m }
unfolding feed_all
feed_short st [] room = ap (λ (b : Bytes). record st { buffer = b }) (sym (append-nil st.buffer))
feed_short st (x ∷ m) room =
    let st' = record st { buffer = st.buffer ++ x ∷ [] } in
    ap (λ (s : State). feed_all s m) (feed_room st x (omega arith))
    ∙ (feed_short st' m (omega (arith, length-append st.buffer (x ∷ [])))
        ∙ ap (λ (b : Bytes). record st { buffer = b }) (append_assoc st.buffer (x ∷ []) m))

-- A round does not look at the buffer of the state.
block_round-buffer :
    (st : State) (b m : Bytes)
    → block_round (record st { buffer = b }) m ≡ record (block_round st m) { buffer = b }
unfolding block_round
block_round-buffer st b m = refl

-- Bytes that just fill the buffer make a block.
pub feed_block :
    (st : State) (m : Bytes)
    → 0 < length m
    → length st.buffer + length m ≡ 16
    → feed_all st m ≡ record (block_round st (st.buffer ++ m)) { buffer = [] }
unfolding feed_all block_round
feed_block st [] some_left full = absurd (omega arith)
feed_block st (x ∷ []) some_left full = unfold block_round in feed_last st x (omega arith)
feed_block st (x ∷ y ∷ m) some_left full =
    let st' = record st { buffer = st.buffer ++ x ∷ [] } in
    ap (λ (s : State). feed_all (feed s y) m) (feed_room st x (omega arith))
    ∙ (feed_block st' (y ∷ m) (omega arith) (omega (arith, length-append st.buffer (x ∷ [])))
        ∙ ap (λ (b : Bytes). record (block_round st b) { buffer = [] })
            (append_assoc st.buffer (x ∷ []) (y ∷ m)))

pub block_round_empty :
    (st : State) (m : Bytes)
    → st.buffer ≡ []
    → record (block_round st (st.buffer ++ m)) { buffer = [] } ≡ block_round st m
unfolding block_round
block_round_empty st m e =
    ap (λ (b : Bytes). record (block_round st (b ++ m)) { buffer = [] }) e
    ∙ ap (λ (b : Bytes). record (block_round st m) { buffer = b }) (sym e)

pub block_round-keeps : (st : State) (m : Bytes) → (block_round st m).buffer ≡ st.buffer
unfolding block_round
block_round-keeps st m = refl

-- Whole blocks from an empty buffer on are the rounds of the loop.
pub feed_blocks :
    (n : ℕ) (st : State) (m : Bytes)
    → st.buffer ≡ []
    → length m ≡ n * 16
    → feed_all st m ≡ record (blocks_loop n st m) { buffer = [] }
unfolding blocks_loop
feed_blocks zero st [] none_kept whole =
    unfold feed_all in ap (λ (b : Bytes). record st { buffer = b }) none_kept
feed_blocks zero st (x ∷ m) none_kept whole = absurd (omega arith)
feed_blocks (suc n) st m none_kept whole =
    let first = take 16 m in
    let rest = drop 16 m in
    let none_left : length st.buffer ≡ 0 = ap (λ (b : Bytes). length b) none_kept in
    let sixteen : length first ≡ 16 = omega (arith, length-take 16 m) in
    ap (feed_all st) (sym (take-append-drop 16 m))
    ∙ (feed_all-append st first rest
        ∙ (ap (λ (s : State). feed_all s rest)
              (feed_block st first (omega arith) (omega arith)
                ∙ block_round_empty st first none_kept)
            ∙ feed_blocks n (block_round st first) rest (block_round-keeps st first ∙ none_kept)
                (omega (arith, length-drop 16 m))))

feed-buffer : (st : State) (b : ℕ) → length st.buffer < 16 → length (feed st b).buffer < 16
feed-buffer st b open_ = elim (ℕ_discrete (length st.buffer + 1) 16) [
  | yes full ↦ rw (feed_last st b full) omega arith
  | no room ↦ rw (feed_room st b (omega arith)) (omega (arith, length-append st.buffer (b ∷ [])))
]

pub feed_all-buffer :
    (st : State) (m : Bytes) → length st.buffer < 16 → length (feed_all st m).buffer < 16
unfolding feed_all
feed_all-buffer st [] open_ = open_
feed_all-buffer st (b ∷ m) open_ = feed_all-buffer (feed st b) m (feed-buffer st b open_)
