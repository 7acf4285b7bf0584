-- ===== src/Secretstream/Session.antt =====
-- Sessions of src/libsodium/crypto_secretstream/xchacha20poly1305/secretstream_xchacha20poly1305.c:
-- both ends from `init` on, and the states that calls can lead to.
use mathlib.Core.Path.{subst}
use libsodium.Base.{
  ℕ, ◌+◌, ◌-◌, ◌*◌, ◌^◌, ◌≤◌, ◌<◌, some, none, inl, inr, List, [], ◌∷◌, ◌≡◌, refl, arith, Bytes,
  IsBytes, All, All-take, All-drop, length, length-take, length-drop, take, drop, Result, ok, map,
}
use libsodium.Aead.{◌>>=◌}
use libsodium.Xchacha20.Laws.{length-crypto_core_hchacha20, crypto_core_hchacha20-IsBytes}
use libsodium.Secretstream.{
  StreamState, Pulled, crypto_secretstream_xchacha20poly1305_init_push,
  crypto_secretstream_xchacha20poly1305_init_pull, crypto_secretstream_xchacha20poly1305_rekey,
  crypto_secretstream_xchacha20poly1305_push, crypto_secretstream_xchacha20poly1305_pull,
}
use libsodium.Secretstream.Advance.{IsValid, rekey-IsValid, reset_pos}
use libsodium.Secretstream.Opening.{
  crypto_secretstream_xchacha20poly1305_pull-push, crypto_secretstream_xchacha20poly1305_pull_lem,
}

-- A message as its sender has it.
pub record Message : Type 0 where
  pub text : Bytes
  pub ad : Bytes
  pub tag : ℕ

abbrev pub IsMessage : Message → Type 0
IsMessage x = IsBytes x.text × (length x.text ≤ 64 * (2 ^ 32 - 2)) × (x.tag < 256)

-- A sender that pushes its messages one after the other, and a receiver that pulls what it gets, each
-- input with its additional data.
pub push_all : StreamState → List Message → Result (StreamState × List (Bytes × Bytes))
push_all state [] = ok (state, [])
push_all state (x ∷ xs) = do
  (next, out) ← crypto_secretstream_xchacha20poly1305_push state x.text x.ad x.tag
  (last, outs) ← push_all next xs
  ok (last, (out, x.ad) ∷ outs)

pub pull_all : StreamState → List (Bytes × Bytes) → Result (StreamState × List Pulled)
pull_all state [] = ok (state, [])
pull_all state ((input, ad) ∷ inputs) = do
  (next, got) ← crypto_secretstream_xchacha20poly1305_pull state input ad
  (last, gots) ← pull_all next inputs
  ok (last, got ∷ gots)

-- What the receiver has of a message.
pub received : Message → Pulled
received x = record { m = some x.text; mlen = length x.text; tag = x.tag; ret = 0 }

pull_all-push_all :
    (state : StreamState) (xs : List Message)
    → IsValid state
    → All IsMessage xs
    → (last : StreamState) × (sealed : List (Bytes × Bytes)) × (push_all state xs
        ≡ ok (last, sealed))
      × (pull_all state sealed ≡ ok (last, map received xs))
unfolding push_all pull_all received
pull_all-push_all state [] v h = (state, [], refl, refl)
pull_all-push_all state (x ∷ xs) v ((text, short, small), h) =
    let (next, out, run, long, v', took) =
      crypto_secretstream_xchacha20poly1305_pull-push state x.text x.ad x.tag v text short small in
    let (last, sealed, pushes, pulls) = pull_all-push_all next xs v' h in
    (last, (out, x.ad) ∷ sealed, rw (run, pushes) refl, rw (took, pulls) refl)

init-IsValid :
    (header k : Bytes)
    → IsBytes header
    → length header ≡ 24
    → IsValid (crypto_secretstream_xchacha20poly1305_init_pull header k)
unfolding crypto_secretstream_xchacha20poly1305_init_pull
init-IsValid header k h long =
    let inonce = take 8 (drop 16 header) in
    record {
      key_bytes = crypto_core_hchacha20-IsBytes header k none;
      key_length = length-crypto_core_hchacha20 header k none;
      nonce_bytes = (
        omega arith,
        (
          omega arith,
          (
            omega arith,
            (
              omega arith,
              All-take (λ x. x < 256) 8 (drop 16 header) (All-drop (λ x. x < 256) 16 header h),
            ),
          ),
        ),
      );
      nonce_length = omega (arith, length-take 8 (drop 16 header), length-drop 16 header);
      counter_pos = reset_pos inonce;
    }

-- Two ends that begin with one key and one header of 24 bytes stay in step: whatever messages of
-- permitted length the sender pushes, with whatever tags, the pushes succeed, the pulls of what they
-- make give the messages and tags back in order, and both ends are left in the same state.
pub session_lem :
    (header k : Bytes) (xs : List Message)
    → IsBytes header
    → length header ≡ 24
    → All IsMessage xs
    → (last : StreamState) × (sealed : List (Bytes × Bytes)) × (push_all
          (crypto_secretstream_xchacha20poly1305_init_push header k).0
          xs
        ≡ ok (last, sealed))
      × (pull_all (crypto_secretstream_xchacha20poly1305_init_pull header k) sealed
          ≡ ok (last, map received xs))
unfolding crypto_secretstream_xchacha20poly1305_init_push
    crypto_secretstream_xchacha20poly1305_init_pull
session_lem header k xs h long hs =
    pull_all-push_all (crypto_secretstream_xchacha20poly1305_init_pull header k) xs
      (init-IsValid header k h long) hs

-- The calls that move a state on, for inputs of permitted length.
pub data Step : StreamState → StreamState → Type 0 where
  pushes :
      {state next : StreamState} {out : Bytes} (m ad : Bytes) (t : ℕ)
      → IsBytes m
      → length m ≤ 64 * (2 ^ 32 - 2)
      → t < 256
      → crypto_secretstream_xchacha20poly1305_push state m ad t ≡ ok (next, out)
      → Step state next
  pulls :
      {state next : StreamState} {got : Pulled} (input ad : Bytes)
      → IsBytes input
      → length input ≤ 17 + 64 * (2 ^ 32 - 2)
      → crypto_secretstream_xchacha20poly1305_pull state input ad ≡ ok (next, got)
      → Step state next
  rekeys :
      {state next : StreamState}
      → crypto_secretstream_xchacha20poly1305_rekey state ≡ ok next
      → Step state next

pub data Reachable (start : StreamState) : StreamState → Type 0 where
  here : Reachable start start
  next :
      {state after : StreamState} → Reachable start state → Step state after → Reachable start after

Step-IsValid : {state after : StreamState} → Step state after → IsValid state → IsValid after
Step-IsValid {state} {after} (pushes m ad t h short small run) v =
    let (after', out, run', long, v', took) =
      crypto_secretstream_xchacha20poly1305_pull-push state m ad t v h short small in
    let same : after' ≡ after = cc in subst IsValid same v'
Step-IsValid {state} {after} (pulls input ad h short run) v =
    elim (crypto_secretstream_xchacha20poly1305_pull_lem state input ad v h short) [
      | inl (after', m, t, hm, fits, small, made, run') ↦
          let (next', out, made', long, v', took) =
            crypto_secretstream_xchacha20poly1305_pull-push state m ad t v hm fits small in
          let same : next' ≡ after = cc in subst IsValid same v'
      | inr (none_made, run') ↦ let same : state ≡ after = cc in subst IsValid same v
    ]
Step-IsValid {state} {after} (rekeys run) v =
    let (after', run', v') =
      rekey-IsValid state v.key_bytes v.key_length v.nonce_bytes v.nonce_length in
    let same : after' ≡ after = cc in subst IsValid same v'

-- Every state that pushes, pulls, accepted or refused, and rekeyings lead to from a state that
-- `init_pull` makes of a header of 24 bytes has a key of 32 bytes, a nonce of 12 and a counter that is
-- not 0.
pub Reachable-IsValid :
    (header k : Bytes) {state : StreamState}
    → IsBytes header
    → length header ≡ 24
    → Reachable (crypto_secretstream_xchacha20poly1305_init_pull header k) state
    → IsValid state
Reachable-IsValid header k h long here = init-IsValid header k h long
Reachable-IsValid header k h long (next before st) =
    Step-IsValid st (Reachable-IsValid header k h long before)
