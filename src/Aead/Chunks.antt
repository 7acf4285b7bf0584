-- ===== src/Aead/Chunks.antt =====
-- The loop of src/libsodium/crypto_aead/chacha20poly1305/aead_chacha20poly1305.c over the chunks of a
-- message, from what it needs of the stream cipher: it encrypts and authenticates as if the message
-- were one chunk.
use mathlib.Core.Path.{fun_ext, subst}
use native.Mathlib.Decide.{dec_lt}
use libsodium.Base.{
  ℕ, zero, suc, false, ◌+◌, ◌-◌, ◌^◌, ◌≤◌, ◌<◌, min, [], ◌∷◌, ◌++◌, append-nil, ◌≡◌, refl, sym, ap,
  ap₂, ◌∙◌, arith, Bytes, IsBytes, length, length-take, length-drop, take, drop, take-append-drop,
  take_all, All-take, All-drop, ◌==◌, pos→==0, Result, ok,
}
use libsodium.Stream.{xor_stream, xor_stream-append, length-xor_stream}
use libsodium.Poly1305.{State, crypto_onetimeauth_poly1305_donna_update}
use libsodium.Poly1305.Feed.{feed_all, feed_all-append, feed_all-buffer}
use libsodium.Poly1305.Update.{poly1305_update_lem}
use libsodium.Aead.{◌>>=◌, encrypt_chunks}

-- `Fits ic n`: the cipher takes `n` bytes from the counter `ic` on.
pub record StreamLaws (xor_ic : Bytes → ℕ → Result Bytes) (wrap : ℕ → ℕ) (key : ℕ → ℕ → ℕ)
    (Fits : ℕ → ℕ → Type 0) : Type 0 where
  pub run :
      (m : Bytes) (ic : ℕ)
      → IsBytes m
      → Fits ic (length m)
      → xor_ic m ic ≡ ok (xor_stream (key ic) m)
  pub first : (ic n : ℕ) → Fits ic (131072 + n) → Fits ic 131072
  pub rest : (ic n : ℕ) → 0 < n → Fits ic (131072 + n) → Fits (wrap (ic + 2048)) n
  pub move :
      (ic n i : ℕ) → 0 < n → Fits ic (131072 + n) → key ic (131072 + i) ≡ key (wrap (ic + 2048)) i

update_feed :
    (st : State) (m : Bytes)
    → length st.buffer < 16
    → length m < 2 ^ 64
    → crypto_onetimeauth_poly1305_donna_update st m ≡ feed_all st m
update_feed st m open_ small = poly1305_update_lem st m open_ small

nil_of_length : (m : Bytes) → length m ≡ 0 → m ≡ []
nil_of_length [] e = refl
nil_of_length (x ∷ m) e = absurd (omega arith)

-- A message that is one chunk.
pub one_chunk :
    (chunk : ℕ) (xor_ic : Bytes → ℕ → Result Bytes) (wrap : ℕ → ℕ) (fuel : ℕ) (m c : Bytes) (ic : ℕ)
    (st : State)
    → 0 < length m
    → length m ≤ chunk
    → xor_ic m ic ≡ ok c
    → length c < 2 ^ 64
    → length st.buffer < 16
    → encrypt_chunks chunk xor_ic wrap (suc (suc fuel)) m ic st ≡ ok (c, feed_all st c)
unfolding encrypt_chunks
one_chunk chunk xor_ic wrap fuel m c ic st pos short run small open_ =
    let some_left : (length m == 0) ≡ false = pos→==0 (length m) pos in
    let cl : min (length m) chunk ≡ length m = ground arith in
    let whole : take (length m) m ≡ m = take_all (length m) m (omega arith) in
    let none_left : drop (length m) m ≡ [] =
      nil_of_length (drop (length m) m) (omega (arith, length-drop (length m) m)) in
    rw (some_left, cl, whole, none_left, run)
      (ap₂ (λ (c : Bytes) (s : State). ok (c, s)) (append-nil c) (update_feed st c open_ small))

module _ {xor_ic : Bytes → ℕ → Result Bytes} {wrap : ℕ → ℕ} {key : ℕ → ℕ → ℕ}
    {Fits : ℕ → ℕ → Type 0} (laws : StreamLaws xor_ic wrap key Fits) where
  chunks_none :
      (fuel ic : ℕ) (st : State)
      → encrypt_chunks 131072 xor_ic wrap (suc fuel) [] ic st ≡ ok ([], st)
  unfolding encrypt_chunks
  chunks_none fuel ic st = refl

  chunks_last :
      (fuel : ℕ) (m : Bytes) (ic : ℕ) (st : State)
      → IsBytes m
      → 0 < length m
      → length m ≤ 131072
      → Fits ic (length m)
      → length st.buffer < 16
      → encrypt_chunks 131072 xor_ic wrap (suc (suc fuel)) m ic st
        ≡ ok (xor_stream (key ic) m, feed_all st (xor_stream (key ic) m))
  chunks_last fuel m ic st h pos short fits open_ =
      one_chunk 131072 xor_ic wrap fuel m (xor_stream (key ic) m) ic st pos short
        (laws.run m ic h fits) (omega (arith, length-xor_stream (key ic) m)) open_

  -- A first chunk and the rest are encrypted by one key stream.
  chunk_and_rest :
      (m : Bytes) (ic : ℕ)
      → 131072 < length m
      → Fits ic (131072 + (length m - 131072))
      → xor_stream (key ic) (take 131072 m) ++ xor_stream (key (wrap (ic + 2048))) (drop 131072 m)
        ≡ xor_stream (key ic) m
  chunk_and_rest m ic long fits =
      let first = take 131072 m in
      let whole : length first ≡ 131072 = omega (arith, length-take 131072 m) in
      ap (λ (k : ℕ → ℕ). xor_stream (key ic) first ++ xor_stream k (drop 131072 m))
        (fun_ext (λ (i : ℕ).
          sym (laws.move ic (length m - 131072) i (omega arith) fits)
          ∙ ap (λ (t : ℕ). key ic (t + i)) (sym whole)))
      ∙ (sym (xor_stream-append (key ic) first (drop 131072 m))
          ∙ ap (xor_stream (key ic)) (take-append-drop 131072 m))

  chunks_more :
      (fuel : ℕ) (m : Bytes) (ic : ℕ) (st : State)
      → IsBytes m
      → 131072 < length m
      → Fits ic 131072
      → length st.buffer < 16
      → encrypt_chunks 131072 xor_ic wrap (suc fuel) m ic st
        ≡ encrypt_chunks 131072 xor_ic wrap fuel
            (drop 131072 m)
            (wrap (ic + 2048))
            (feed_all st (xor_stream (key ic) (take 131072 m)))
          >>= λ (rest, last). ok (xor_stream (key ic) (take 131072 m) ++ rest, last)
  unfolding encrypt_chunks
  chunks_more fuel m ic st h long fits open_ =
      let first = take 131072 m in
      let some_left : (length m == 0) ≡ false = pos→==0 (length m) (omega arith) in
      let cl : min (length m) 131072 ≡ 131072 = ground arith in
      let whole : length first ≡ 131072 = omega (arith, length-take 131072 m) in
      let c = xor_stream (key ic) first in
      rw
        (
          some_left,
          cl,
          laws.run first ic (All-take (λ x. x < 256) 131072 m h) (subst (Fits ic) (sym whole) fits),
          update_feed st c open_ (omega (arith, length-xor_stream (key ic) first)),
        )
        refl

  -- The loop encrypts the message with one key stream, and feeds the ciphertext to the authenticator.
  pub encrypt_chunks_lem :
      (fuel : ℕ) (m : Bytes) (ic : ℕ) (st : State)
      → IsBytes m
      → length m < fuel
      → Fits ic (length m)
      → length st.buffer < 16
      → encrypt_chunks 131072 xor_ic wrap fuel m ic st
        ≡ ok (xor_stream (key ic) m, feed_all st (xor_stream (key ic) m))
  encrypt_chunks_lem zero m ic st h enough fits open_ = absurd (omega arith)
  encrypt_chunks_lem (suc fuel) [] ic st h enough fits open_ =
      unfold encrypt_chunks xor_stream feed_all in refl
  encrypt_chunks_lem (suc zero) (x ∷ m) ic st h enough fits open_ = absurd (omega arith)
  encrypt_chunks_lem (suc (suc fuel)) (x ∷ m) ic st h enough fits open_ =
      elim (dec_lt 131072 (length (x ∷ m))) [
        | no last ↦ chunks_last fuel (x ∷ m) ic st h (omega arith) (omega arith) fits open_
        | yes long ↦
            let first = take 131072 (x ∷ m) in
            let rest = drop 131072 (x ∷ m) in
            let c = xor_stream (key ic) first in
            let next = wrap (ic + 2048) in
            let left : length rest ≡ length (x ∷ m) - 131072 = length-drop 131072 (x ∷ m) in
            let split : length (x ∷ m) ≡ 131072 + (length (x ∷ m) - 131072) = omega arith in
            let fits' = subst (Fits ic) split fits in
            let go_on =
              encrypt_chunks_lem (suc fuel) rest next (feed_all st c)
                (All-drop (λ x. x < 256) 131072 (x ∷ m) h) (omega arith)
                (subst (Fits next) (sym left)
                  (laws.rest ic (length (x ∷ m) - 131072) (omega arith) fits'))
                (feed_all-buffer st c open_) in
            let one_stream = chunk_and_rest (x ∷ m) ic long fits' in
            chunks_more (suc fuel) (x ∷ m) ic st h long
              (laws.first ic (length (x ∷ m) - 131072) fits') open_
            ∙ (ap (λ (r : Result (Bytes × State)). r >>= λ (rest, last). ok (c ++ rest, last)) go_on
                ∙ ap₂ (λ (c : Bytes) (s : State). ok (c, s)) one_stream
                    (sym (feed_all-append st c (xor_stream (key next) rest))
                      ∙ ap (feed_all st) one_stream))
      ]
