-- ===== src/Secretstream/Messages.antt =====
-- One message of src/libsodium/crypto_secretstream/xchacha20poly1305/secretstream_xchacha20poly1305.c:
-- the run of `push` and that of `pull`, with the key streams of the state.

use libsodium.Base.{
  ℕ, suc, ◌+◌, ◌-◌, ◌*◌, ◌^◌, ◌≤◌, ◌<◌, false, some, none, ◌∷◌, ◌++◌, ◌≡◌, ◌≢◌, ◌⊎◌, inl, inr, refl,
  sym, ap, ◌∙◌, arith, Bytes, IsBytes, length, length-append, take, take_all, take-append,
  drop-append, replicate, ltb, le→ltb, Result, ok, bit_xor,
}
use libsodium.Bits.Xor.{bit_xor-lt, bit_xor_cancel}
use libsodium.Stream.{xor_stream, length-xor_stream, xor_stream-IsBytes, xor_stream_twice}
use libsodium.Chacha20.{chacha_ietf_context}
use libsodium.Chacha20.Counter.{key_at, key_at-lt}
use libsodium.Chacha20.Context.{ietf_context}
use libsodium.Chacha20.Api.{outcome}
use libsodium.Chacha20.Api.Ietf.{ietf_xor_ic_lem, crypto_stream_chacha20_ietf_block0}
use libsodium.Poly1305.Finish.{length-poly1305_finish, poly1305_finish-IsBytes}
use libsodium.Utils.Compare.{sodium_memcmp}
use libsodium.Utils.Compare.Memcmp.{sodium_memcmp_lem}
use libsodium.Aead.{◌>>=◌}
use libsodium.Secretstream.{
  StreamState, stream_mac, advance, Pulled, not_pulled, finish_pull,
  crypto_secretstream_xchacha20poly1305_push, crypto_secretstream_xchacha20poly1305_pull,
}
use libsodium.Secretstream.Advance.{IsValid, advance-IsValid}

-- `MESSAGEBYTES_MAX`, which the 32-bit counter of the cipher sets.
abbrev pub longest : ℕ
longest = 64 * (2 ^ 32 - 2)

length-stream_mac : (block0 ad block c : Bytes) → length (stream_mac block0 ad block c) ≡ 16
unfolding stream_mac
length-stream_mac block0 ad block c = length-poly1305_finish _

pub stream_mac-IsBytes : (block0 ad block c : Bytes) → IsBytes (stream_mac block0 ad block c)
unfolding stream_mac
stream_mac-IsBytes block0 ad block c = poly1305_finish-IsBytes _

module _ (state : StreamState) where
  block0 : Bytes
  block0 = xor_stream (key_at (chacha_ietf_context state.k state.nonce none)) (replicate 64 0)

  abbrev pub key : ℕ → ℕ → ℕ
  key ic = key_at (ietf_context state.k state.nonce ic)

  -- The block of a tag, and what stands behind its first byte.
  block : ℕ → Bytes
  block t = xor_stream (key 1) (t ∷ replicate 63 0)

  block_rest : Bytes
  block_rest = xor_stream (λ i. key 1 (suc i)) (replicate 63 0)

  block_lem : (t : ℕ) → block t ≡ bit_xor t (key 1 0) ∷ block_rest
  unfolding block block_rest xor_stream
  block_lem t = refl

  -- The first byte masked twice is the tag.
  block_twice : (t : ℕ) → block (bit_xor t (key 1 0)) ≡ t ∷ block_rest
  block_twice t =
      block_lem (bit_xor t (key 1 0)) ∙ ap (λ (b : ℕ). b ∷ block_rest) (bit_xor_cancel t (key 1 0))

  pub cipher : Bytes → Bytes
  cipher m = xor_stream (key 2) m

  pub push_mac : Bytes → ℕ → Bytes → Bytes
  push_mac ad t c = stream_mac block0 ad (block t) c

  pub pushed : Bytes → Bytes → ℕ → Bytes
  unfolding cipher push_mac
  pushed m ad t = bit_xor t (key 1 0) ∷ (cipher m ++ push_mac ad t (cipher m))

  pub pushed_lem :
      (m ad : Bytes) (t : ℕ)
      → pushed m ad t ≡ bit_xor t (key 1 0) ∷ (cipher m ++ push_mac ad t (cipher m))
  unfolding pushed
  pushed_lem m ad t = refl

  block_run : (t : ℕ) → t < 256 → IsBytes (t ∷ replicate 63 0)
  block_run t small = (small, omega arith)

  -- All but the last step of `push`.
  push_run :
      (m ad : Bytes) (t : ℕ)
      → IsBytes m
      → length m ≤ longest
      → t < 256
      → crypto_secretstream_xchacha20poly1305_push state m ad t
        ≡ (advance state (push_mac ad t (cipher m)) t >>= λ next. ok (next, pushed m ad t))
  unfolding crypto_secretstream_xchacha20poly1305_push block0 block push_mac pushed cipher
      xor_stream
  push_run m ad t h short small =
      rw
        (
          le→ltb (64 * (2 ^ 32 - 2)) (length m) (omega arith),
          crypto_stream_chacha20_ietf_block0 state.nonce state.k,
          ietf_xor_ic_lem (t ∷ replicate 63 0) state.nonce 1 state.k (block_run t small)
              (omega arith) (omega arith),
          ietf_xor_ic_lem m state.nonce 2 state.k h (omega arith) (omega arith),
        )
        refl

  -- `pull` up to the comparison of the tags.
  pull_run :
      (f : ℕ) (c t ad : Bytes)
      → f < 256
      → length c ≤ longest
      → length t ≡ 16
      → crypto_secretstream_xchacha20poly1305_pull state (f ∷ (c ++ t)) ad ≡ (
          outcome (sodium_memcmp (push_mac ad (bit_xor f (key 1 0)) c) t 16) >>= λ ret.
          finish_pull state ret c (push_mac ad (bit_xor f (key 1 0)) c) (bit_xor f (key 1 0)))
  unfolding crypto_secretstream_xchacha20poly1305_pull block0 push_mac
  pull_run f c t ad small short sixteen =
      let total = length-append c t in
      let enough : ltb (length (f ∷ (c ++ t))) 17 ≡ false =
        le→ltb (length (f ∷ (c ++ t))) 17 (omega arith) in
      let mlen : length (f ∷ (c ++ t)) - 17 ≡ length c = omega arith in
      let first_block : xor_stream (key 1) (f ∷ replicate 63 0) ≡ bit_xor f (key 1 0) ∷ block_rest =
        unfold block in block_lem f in
      let behind : 1 + length c ≡ suc (length c) = omega arith in
      rw
        (
          enough,
          mlen,
          le→ltb (64 * (2 ^ 32 - 2)) (length c) (omega arith),
          crypto_stream_chacha20_ietf_block0 state.nonce state.k,
          ietf_xor_ic_lem (f ∷ replicate 63 0) state.nonce 1 state.k (block_run f small)
              (omega arith) (omega arith),
          behind,
          take-append c t,
          drop-append c t,
          first_block,
          block_twice f,
        )
        refl

  push_mac-IsBytes : (ad : Bytes) (t : ℕ) (c : Bytes) → IsBytes (push_mac ad t c)
  unfolding push_mac
  push_mac-IsBytes ad t c = stream_mac-IsBytes block0 ad (block t) c

  length-push_mac : (ad : Bytes) (t : ℕ) (c : Bytes) → length (push_mac ad t c) ≡ 16
  unfolding push_mac
  length-push_mac ad t c = length-stream_mac block0 ad (block t) c

  pub cipher-IsBytes : (m : Bytes) → IsBytes m → IsBytes (cipher m)
  unfolding cipher
  cipher-IsBytes m h =
      xor_stream-IsBytes (key 2) m (key_at-lt (ietf_context state.k state.nonce 2)) h

  pub length-cipher : (m : Bytes) → length (cipher m) ≡ length m
  unfolding cipher
  length-cipher m = length-xor_stream (key 2) m

  pub cipher_twice : (m : Bytes) → cipher (cipher m) ≡ m
  unfolding cipher
  cipher_twice m = xor_stream_twice (key 2) m

  pub masked-IsByte : (t : ℕ) → t < 256 → bit_xor t (key 1 0) < 256
  masked-IsByte t small =
      bit_xor-lt 8 t (key 1 0) small (key_at-lt (ietf_context state.k state.nonce 1) 0)

  -- What both ends make of the message that is accepted.
  pub accepted : Bytes → Bytes → ℕ → Result (StreamState × Pulled)
  accepted mac m t = advance state mac t >>= λ next.
      ok (next, record { m = some m; mlen = length m; tag = t; ret = 0 })

  finish_pull_lem :
      (c mac t : Bytes) (tag : ℕ)
      → IsBytes c
      → length c ≤ longest
      → IsBytes mac
      → IsBytes t
      → length mac ≡ 16
      → length t ≡ 16
      → ((mac ≡ t)
          × ((outcome (sodium_memcmp mac t 16) >>= λ ret. finish_pull state ret c mac tag)
              ≡ accepted mac (cipher c) tag))
        ⊎ ((mac ≢ t)
            × ((outcome (sodium_memcmp mac t 16) >>= λ ret. finish_pull state ret c mac tag)
                ≡ ok (state, not_pulled)))
  unfolding finish_pull accepted cipher
  finish_pull_lem c mac t tag hc short hmac ht lmac lt =
      let same_mac : take 16 mac ≡ mac = take_all 16 mac (omega arith) in
      let same_t : take 16 t ≡ t = take_all 16 t (omega arith) in
      elim (sodium_memcmp_lem mac t 16 hmac ht (omega arith) (omega arith)) [
        | inl (agree, zero_) ↦ inl (
          sym same_mac ∙ (agree ∙ same_t),
          rw
              (
                zero_,
                ietf_xor_ic_lem c state.nonce 2 state.k hc (omega arith) (omega arith),
                length-xor_stream (key 2) c,
              )
              refl,
        )
        | inr (differ, minus) ↦ inr (λ e. differ (ap (take 16) e), rw minus refl)
      ]

  -- What `pull` makes of 17 bytes or more, taken apart.
  pub pull_verdict :
      (f : ℕ) (c t ad : Bytes)
      → f < 256
      → IsBytes c
      → IsBytes t
      → length c ≤ longest
      → length t ≡ 16
      → ((push_mac ad (bit_xor f (key 1 0)) c ≡ t)
          × (crypto_secretstream_xchacha20poly1305_pull state (f ∷ (c ++ t)) ad
              ≡ accepted (push_mac ad (bit_xor f (key 1 0)) c) (cipher c) (bit_xor f (key 1 0))))
        ⊎ ((push_mac ad (bit_xor f (key 1 0)) c ≢ t)
            × (crypto_secretstream_xchacha20poly1305_pull state (f ∷ (c ++ t)) ad
                ≡ ok (state, not_pulled)))
  pull_verdict f c t ad small hc ht short sixteen =
      let tag = bit_xor f (key 1 0) in
      rw (pull_run f c t ad small short sixteen) (
        finish_pull_lem c (push_mac ad tag c) t tag hc short (push_mac-IsBytes ad tag c) ht
          (length-push_mac ad tag c) sixteen)

  -- `pull` at what `push` has sealed.
  pub pull_pushed :
      (m ad : Bytes) (t : ℕ)
      → IsBytes m
      → length m ≤ longest
      → t < 256
      → crypto_secretstream_xchacha20poly1305_pull state (pushed m ad t) ad
        ≡ accepted (push_mac ad t (cipher m)) m t
  unfolding pushed
  pull_pushed m ad t h short small =
      let c = cipher m in
      let back : bit_xor (bit_xor t (key 1 0)) (key 1 0) ≡ t = bit_xor_cancel t (key 1 0) in
      let mac = push_mac ad t c in
      elim (pull_verdict (bit_xor t (key 1 0)) c mac ad (masked-IsByte t small) (cipher-IsBytes m h)
        (push_mac-IsBytes ad t c) (omega (arith, length-cipher m)) (length-push_mac ad t c)) [
          | inl (same, run) ↦
              run
              ∙ (ap (λ (b : ℕ). accepted (push_mac ad b c) (cipher c) b) back
                  ∙ ap (λ (x : Bytes). accepted mac x t) (cipher_twice m))
          | inr (differ, run) ↦ absurd (differ (ap (λ (b : ℕ). push_mac ad b c) back))
        ]

  -- All that `push` can make, it makes, and the state that it leaves is valid.
  pub push_accepted :
      (m ad : Bytes) (t : ℕ)
      → IsValid state
      → IsBytes m
      → length m ≤ longest
      → t < 256
      → (next : StreamState) × (crypto_secretstream_xchacha20poly1305_push state m ad t
          ≡ ok (next, pushed m ad t))
        × IsValid next
        × (accepted (push_mac ad t (cipher m)) m t
            ≡ ok (next, record { m = some m; mlen = length m; tag = t; ret = 0 }))
  unfolding accepted
  push_accepted m ad t v h short small =
      let (next, run, v') =
        advance-IsValid state (push_mac ad t (cipher m)) t v (push_mac-IsBytes ad t (cipher m)) in
      (next, rw (push_run m ad t h short small, run) refl, v', rw run refl)

  pub length-pushed : (m ad : Bytes) (t : ℕ) → length (pushed m ad t) ≡ length m + 17
  unfolding pushed
  length-pushed m ad t = omega (
    arith,
    length-append (cipher m) (push_mac ad t (cipher m)),
    length-cipher m,
    length-push_mac ad t (cipher m),
  )
