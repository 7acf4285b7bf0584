-- ===== src/Secretstream/Opening.antt =====
-- One message of src/libsodium/crypto_secretstream/xchacha20poly1305/secretstream_xchacha20poly1305.c:
-- what `push` seals, `pull` opens, and nothing else.
use mathlib.Core.Path.{subst}
use native.Mathlib.Decide.{dec_lt}
use libsodium.Base.{
  ℕ, ◌+◌, ◌-◌, ◌*◌, ◌^◌, ◌≤◌, ◌<◌, some, [], ◌∷◌, ◌++◌, ◌≡◌, ◌⊎◌, inl, inr, refl, sym, ap, ap₂, ◌∙◌,
  arith, Bytes, IsBytes, length, length-take, length-drop, All-take, All-drop, take, drop,
  take-append-drop, lt→ltb, ok, bit_xor,
}
use libsodium.Bits.Xor.{bit_xor_cancel}
use libsodium.Secretstream.{
  StreamState, not_pulled, crypto_secretstream_xchacha20poly1305_push,
  crypto_secretstream_xchacha20poly1305_pull,
}
use libsodium.Secretstream.Advance.{IsValid}
use libsodium.Secretstream.Messages.{
  longest, key, cipher, push_mac, pushed, pushed_lem, accepted, masked-IsByte, cipher-IsBytes,
  length-cipher, cipher_twice, pull_verdict, pull_pushed, push_accepted, length-pushed,
}

-- From a valid state, `push` seals every message of at most 64 * (2^32 - 2) bytes in 17 bytes more and
-- leaves a valid state; `pull` from the same state, with the same additional data, writes the
-- message, its length and its tag, returns 0 and leaves the same state as `push`.
pub crypto_secretstream_xchacha20poly1305_pull-push :
    (state : StreamState) (m ad : Bytes) (t : ℕ)
    → IsValid state
    → IsBytes m
    → length m ≤ 64 * (2 ^ 32 - 2)
    → t < 256
    → (next : StreamState) × (out : Bytes) × (crypto_secretstream_xchacha20poly1305_push state m ad
          t
        ≡ ok (next, out))
      × (length out ≡ length m + 17)
      × IsValid next
      × (crypto_secretstream_xchacha20poly1305_pull state out ad
          ≡ ok (next, record { m = some m; mlen = length m; tag = t; ret = 0 }))
crypto_secretstream_xchacha20poly1305_pull-push state m ad t v h short small =
    let (next, run, v', took) = push_accepted state m ad t v h short small in
    (
      next,
      pushed state m ad t,
      run,
      length-pushed state m ad t,
      v',
      pull_pushed state m ad t h short small ∙ took,
    )

-- What `pull` can do with an input, as two cases.
abbrev PullOutcome : StreamState → Bytes → Bytes → Type 0
PullOutcome state ad input =
    ((next : StreamState) × (m : Bytes) × (t : ℕ) × IsBytes m
      × (length m ≤ 64 * (2 ^ 32 - 2))
      × (t < 256)
      × (crypto_secretstream_xchacha20poly1305_push state m ad t ≡ ok (next, input))
      × (crypto_secretstream_xchacha20poly1305_pull state input ad
          ≡ ok (next, record { m = some m; mlen = length m; tag = t; ret = 0 })))
    ⊎ ((¬ (
          (next : StreamState) × (m : Bytes) × (t : ℕ) × IsBytes m
          × (length m ≤ 64 * (2 ^ 32 - 2))
          × (t < 256)
          × (crypto_secretstream_xchacha20poly1305_push state m ad t ≡ ok (next, input))))
        × (crypto_secretstream_xchacha20poly1305_pull state input ad ≡ ok (state, not_pulled)))

module _ (state : StreamState) (ad : Bytes) (v : IsValid state) where
  -- A refused input is none that `push` makes.
  refused_outcome :
      (input : Bytes)
      → crypto_secretstream_xchacha20poly1305_pull state input ad ≡ ok (state, not_pulled)
      → PullOutcome state ad input
  unfolding not_pulled
  refused_outcome input run = inr (
    λ (next, m, t, h, short, small, made).
        let (next', out, made', long, v', took) =
          crypto_secretstream_xchacha20poly1305_pull-push state m ad t v h short small in
        let same : input ≡ out = cc in
        let both =
          sym run
          ∙ (ap (λ (i : Bytes). crypto_secretstream_xchacha20poly1305_pull state i ad) same
              ∙ took) in
        cc,
    run,
  )

  split_outcome :
      (f : ℕ) (c t : Bytes)
      → f < 256
      → IsBytes c
      → IsBytes t
      → length c ≤ longest
      → length t ≡ 16
      → PullOutcome state ad (f ∷ (c ++ t))
  split_outcome f c t small hc ht short sixteen =
      let tag = bit_xor f (key state 1 0) in
      let m = cipher state c in
      let hm = cipher-IsBytes state c hc in
      let tag_small = masked-IsByte state f small in
      elim (pull_verdict state f c t ad small hc ht short sixteen) [
        | inr (differ, run) ↦ refused_outcome (f ∷ (c ++ t)) run
        | inl (same, run) ↦
            let (next, made, v', took) =
              push_accepted state m ad tag v hm (omega (arith, length-cipher state c)) tag_small in
            let twice = cipher_twice state c in
            let again : pushed state m ad tag ≡ f ∷ (c ++ t) =
              pushed_lem state m ad tag
              ∙ (ap₂ (λ (b : ℕ) (x : Bytes). b ∷ (x ++ push_mac state ad tag x))
                    (bit_xor_cancel f (key state 1 0)) twice
                  ∙ ap (λ (y : Bytes). f ∷ (c ++ y)) same) in
            inl (
              next,
              m,
              tag,
              hm,
              omega (arith, length-cipher state c),
              tag_small,
              made ∙ ap (λ (y : Bytes). ok (next, y)) again,
              run
                  ∙ (ap (λ (x : Bytes). accepted state (push_mac state ad tag x) m tag) (sym twice)
                      ∙ took),
            )
      ]

  short_outcome : (input : Bytes) → length input < 17 → PullOutcome state ad input
  short_outcome input short = refused_outcome input pull_short
    where
      pull_short :
          crypto_secretstream_xchacha20poly1305_pull state input ad ≡ ok (state, not_pulled)
      pull_short =
          unfold crypto_secretstream_xchacha20poly1305_pull in
          rw (lt→ltb (length input) 17 short) refl

-- From a valid state and for an input of at most 17 + 64 * (2^32 - 2) bytes, `pull` returns 0 exactly
-- where `push` from the same state, with the same additional data, makes this input: then it writes
-- the message, its length and its tag, and leaves the state that `push` leaves. Else it returns -1
-- with length 0 and tag 255, writes no message and leaves its state as it was.
pub crypto_secretstream_xchacha20poly1305_pull_lem :
    (state : StreamState) (input ad : Bytes)
    → IsValid state
    → IsBytes input
    → length input ≤ 17 + 64 * (2 ^ 32 - 2)
    → ((next : StreamState) × (m : Bytes) × (t : ℕ) × IsBytes m
        × (length m ≤ 64 * (2 ^ 32 - 2))
        × (t < 256)
        × (crypto_secretstream_xchacha20poly1305_push state m ad t ≡ ok (next, input))
        × (crypto_secretstream_xchacha20poly1305_pull state input ad
            ≡ ok (next, record { m = some m; mlen = length m; tag = t; ret = 0 })))
      ⊎ ((¬ (
            (next : StreamState) × (m : Bytes) × (t : ℕ) × IsBytes m
            × (length m ≤ 64 * (2 ^ 32 - 2))
            × (t < 256)
            × (crypto_secretstream_xchacha20poly1305_push state m ad t ≡ ok (next, input))))
          × (crypto_secretstream_xchacha20poly1305_pull state input ad ≡ ok (state, not_pulled)))
crypto_secretstream_xchacha20poly1305_pull_lem state [] ad v h fits =
    short_outcome state ad v [] (omega arith)
crypto_secretstream_xchacha20poly1305_pull_lem state (f ∷ rest) ad v (small, h) fits =
    elim (dec_lt (length (f ∷ rest)) 17) [
      | yes short ↦ short_outcome state ad v (f ∷ rest) short
      | no long ↦
          let n = length rest - 16 in
          let c = take n rest in
          let t = drop n rest in
          subst (λ (r : Bytes). PullOutcome state ad (f ∷ r)) (take-append-drop n rest)
            (split_outcome state ad v f c t small (All-take (λ x. x < 256) n rest h)
              (All-drop (λ x. x < 256) n rest h) (omega (arith, length-take n rest))
              (omega (arith, length-drop n rest)))
    ]
