-- ===== src/Secretstream/Advance.antt =====
-- How the state of src/libsodium/crypto_secretstream/xchacha20poly1305/secretstream_xchacha20poly1305.c
-- moves on: a valid state stays valid, and its counter is never 0.
use libsodium.Base.{
  ℕ, ◌<◌, bit_and, ◌∷◌, ◌++◌, ◌≡◌, ◌≢◌, inl, inr, refl, sym, ap, ◌∙◌, arith, Bytes, IsBytes, length,
  length-append, length-take, length-drop, All-append, All-take, All-drop, take, drop, take_all,
  take-append, replicate, ◌==◌, ok, Bool-cases,
}
use libsodium.Stream.{xor_stream, length-xor_stream, xor_stream-IsBytes}
use libsodium.Endian.{xor_buf}
use libsodium.Chacha20.Counter.{key_at, key_at-lt}
use libsodium.Chacha20.Context.{ietf_context}
use libsodium.Utils.Compare.Memcmp.{sodium_is_zero_lem}
use libsodium.Utils.Arith.Carry.{sodium_increment_lem}
use libsodium.Chacha20.Api.Ietf.{ietf_xor_lem}
use libsodium.Endian.Laws.{length-xor_buf, xor_buf-IsBytes}
use libsodium.Secretstream.{
  StreamState, counter_reset, crypto_secretstream_xchacha20poly1305_rekey, advance,
}

-- What holds of a state between two calls.
pub record IsValid (state : StreamState) : Type 0 where
  pub key_bytes : IsBytes state.k
  pub key_length : length state.k ≡ 32
  pub nonce_bytes : IsBytes state.nonce
  pub nonce_length : length state.nonce ≡ 12
  pub counter_pos : take 4 state.nonce ≢ replicate 4 0

pub reset_pos : (inonce : Bytes) → take 4 (1 ∷ 0 ∷ 0 ∷ 0 ∷ inonce) ≢ replicate 4 0
reset_pos inonce e = cc

-- A new key and nonce of the old lengths, and the counter 1.
pub rekey-IsValid :
    (state : StreamState)
    → IsBytes state.k
    → length state.k ≡ 32
    → IsBytes state.nonce
    → length state.nonce ≡ 12
    → (state' : StreamState) × (crypto_secretstream_xchacha20poly1305_rekey state ≡ ok state')
      × IsValid state'
unfolding crypto_secretstream_xchacha20poly1305_rekey counter_reset
rekey-IsValid state kb kl nb nl =
    let old = state.k ++ drop 4 state.nonce in
    let key = key_at (ietf_context state.k state.nonce 0) in
    let new = xor_stream key old in
    let old_bytes : IsBytes old =
      All-append (λ x. x < 256) state.k (drop 4 state.nonce) kb
        (All-drop (λ x. x < 256) 4 state.nonce nb) in
    let old_length : length old ≡ 40 =
      omega (arith, length-append state.k (drop 4 state.nonce), length-drop 4 state.nonce) in
    let new_length : length new ≡ 40 = length-xor_stream key old ∙ old_length in
    let new_bytes : IsBytes new =
      xor_stream-IsBytes key old (key_at-lt (ietf_context state.k state.nonce 0)) old_bytes in
    let inonce = drop 4 (take 4 state.nonce ++ drop 32 new) in
    let joined = length-append (take 4 state.nonce) (drop 32 new) in
    (
      record { k = take 32 new; nonce = 1 ∷ 0 ∷ 0 ∷ 0 ∷ inonce },
      rw (ietf_xor_lem old state.nonce state.k old_bytes (omega arith)) refl,
      record {
        key_bytes = All-take (λ x. x < 256) 32 new new_bytes;
        key_length = omega (arith, length-take 32 new);
        nonce_bytes = (
          omega arith,
          (
            omega arith,
            (
              omega arith,
              (
                omega arith,
                All-drop (λ x. x < 256) 4 (take 4 state.nonce ++ drop 32 new)
                    (All-append (λ x. x < 256) (take 4 state.nonce) (drop 32 new)
                      (All-take (λ x. x < 256) 4 state.nonce nb)
                      (All-drop (λ x. x < 256) 32 new new_bytes)),
              ),
            ),
          ),
        );
        nonce_length = omega (
          arith,
          length-drop 4 (take 4 state.nonce ++ drop 32 new),
          joined,
          length-drop 32 new,
          length-take 4 state.nonce,
        );
        counter_pos = reset_pos inonce;
      },
    )

-- Behind every message, and whatever its tag, the next state is there and is valid.
pub advance-IsValid :
    (state : StreamState) (mac : Bytes) (tag : ℕ)
    → IsValid state
    → IsBytes mac
    → (state' : StreamState) × (advance state mac tag ≡ ok state') × IsValid state'
unfolding advance
advance-IsValid state mac tag v mb =
    let count = take 4 state.nonce in
    let count_bytes = All-take (λ x. x < 256) 4 state.nonce v.nonce_bytes in
    let count_length : length count ≡ 4 =
      omega (arith, length-take 4 state.nonce, v.nonce_length) in
    let next = sodium_increment_lem count 4 count_bytes (omega arith) in
    let new_length : length next.out ≡ 4 = next.same_length ∙ count_length in
    let inonce = xor_buf 8 (drop 4 state.nonce) mac in
    let inonce_length : length inonce ≡ 8 = omega (
      arith,
      length-xor_buf 8 (drop 4 state.nonce) mac,
      length-drop 4 state.nonce,
      v.nonce_length,
    ) in
    let moved : StreamState = record { k = state.k; nonce = next.out ++ inonce } in
    let nb : IsBytes moved.nonce =
      All-append (λ x. x < 256) next.out inonce next.bytes
        (xor_buf-IsBytes 8 (drop 4 state.nonce) mac
          (All-drop (λ x. x < 256) 4 state.nonce v.nonce_bytes) mb) in
    let nl : length moved.nonce ≡ 12 = omega (arith, length-append next.out inonce) in
    let all : take 4 next.out ≡ next.out = take_all 4 next.out (omega arith) in
    let first : take 4 moved.nonce ≡ next.out =
      ap (λ (n : ℕ). take n moved.nonce) (sym new_length) ∙ take-append next.out inonce in
    let (fresh, run, fresh_valid) = rekey-IsValid moved v.key_bytes v.key_length nb nl in
    elim (sodium_is_zero_lem next.out 4 next.bytes (omega arith)) [
      | inl (wrapped, flag) ↦ elim (Bool-cases (bit_and tag 2 == 0)) [
        | inl plain ↦ (fresh, rw (next.returns, flag, plain) run, fresh_valid)
        | inr asked ↦ (fresh, rw (next.returns, flag, asked) run, fresh_valid)
      ]
      | inr (counting, flag) ↦ elim (Bool-cases (bit_and tag 2 == 0)) [
        | inl plain ↦ (
          moved,
          rw (next.returns, flag, plain) refl,
          record {
            key_bytes = v.key_bytes;
            key_length = v.key_length;
            nonce_bytes = nb;
            nonce_length = nl;
            counter_pos = λ e. counting (all ∙ (sym first ∙ e));
          },
        )
        | inr asked ↦ (fresh, rw (next.returns, flag, asked) run, fresh_valid)
      ]
    ]
