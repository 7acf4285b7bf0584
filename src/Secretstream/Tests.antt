-- ===== src/Secretstream/Tests.antt =====
-- The theorems about
-- src/libsodium/crypto_secretstream/xchacha20poly1305/secretstream_xchacha20poly1305.c at inputs.
use libsodium.Base.{
  ℕ, ◌+◌, ◌-◌, ◌*◌, ◌^◌, ◌≤◌, ◌<◌, some, List, [], ◌∷◌, ◌≡◌, ◌⊎◌, refl, arith, Bytes, IsBytes,
  length, replicate, ok, map,
}
use libsodium.Secretstream.{
  StreamState, not_pulled, crypto_secretstream_xchacha20poly1305_init_push,
  crypto_secretstream_xchacha20poly1305_init_pull, crypto_secretstream_xchacha20poly1305_push,
  crypto_secretstream_xchacha20poly1305_pull,
}
use libsodium.Secretstream.Advance.{IsValid}
use libsodium.Secretstream.Opening.{
  crypto_secretstream_xchacha20poly1305_pull-push, crypto_secretstream_xchacha20poly1305_pull_lem,
}
use libsodium.Secretstream.Session.{
  Message, push_all, pull_all, received, session_lem, here, next, pulls, Reachable-IsValid,
}

abbrev key : Bytes
key = 8 ∷ replicate 31 7

abbrev header : Bytes
header = 9 ∷ replicate 23 6

-- The counter is at its last value, so that the next message has a new key.
abbrev state : StreamState
state = record { k = key; nonce = 255 ∷ 255 ∷ 255 ∷ 255 ∷ replicate 8 1 }

state-IsValid : IsValid state
state-IsValid = record {
  key_bytes = omega arith;
  key_length = refl;
  nonce_bytes = omega arith;
  nonce_length = refl;
  counter_pos = λ e. cc;
}

abbrev text : Bytes
text = 104 ∷ 105 ∷ []

abbrev twenty : Bytes
twenty = replicate 20 3

crypto_secretstream_xchacha20poly1305_pull-push_example :
    (next : StreamState) × (out : Bytes) × (crypto_secretstream_xchacha20poly1305_push state text
        key 3
      ≡ ok (next, out))
    × (length out ≡ 2 + 17)
    × IsValid next
    × (crypto_secretstream_xchacha20poly1305_pull state out key
        ≡ ok (next, record { m = some text; mlen = 2; tag = 3; ret = 0 }))
crypto_secretstream_xchacha20poly1305_pull-push_example =
    crypto_secretstream_xchacha20poly1305_pull-push state text key 3 state-IsValid (omega arith)
      (omega arith) (omega arith)

crypto_secretstream_xchacha20poly1305_pull_lem_example :
    ((next : StreamState) × (m : Bytes) × (t : ℕ) × IsBytes m
      × (length m ≤ 64 * (2 ^ 32 - 2))
      × (t < 256)
      × (crypto_secretstream_xchacha20poly1305_push state m [] t ≡ ok (next, twenty))
      × (crypto_secretstream_xchacha20poly1305_pull state twenty []
          ≡ ok (next, record { m = some m; mlen = length m; tag = t; ret = 0 })))
    ⊎ ((¬ (
          (next : StreamState) × (m : Bytes) × (t : ℕ) × IsBytes m
          × (length m ≤ 64 * (2 ^ 32 - 2))
          × (t < 256)
          × (crypto_secretstream_xchacha20poly1305_push state m [] t ≡ ok (next, twenty))))
        × (crypto_secretstream_xchacha20poly1305_pull state twenty [] ≡ ok (state, not_pulled)))
crypto_secretstream_xchacha20poly1305_pull_lem_example =
    crypto_secretstream_xchacha20poly1305_pull_lem state twenty [] state-IsValid (omega arith)
      (omega arith)

-- A message, one that rekeys, and the last.
abbrev messages : List Message
messages =
    record { text = text; ad = key; tag = 0 }
    ∷ record { text = []; ad = []; tag = 2 }
    ∷ record { text = twenty; ad = []; tag = 3 }
    ∷ []

session_lem_example :
    (last : StreamState) × (sealed : List (Bytes × Bytes)) × (push_all
        (crypto_secretstream_xchacha20poly1305_init_push header key).0
        messages
      ≡ ok (last, sealed))
    × (pull_all (crypto_secretstream_xchacha20poly1305_init_pull header key) sealed
        ≡ ok (last, map received messages))
session_lem_example = session_lem header key messages (omega arith) refl (omega arith)

abbrev start : StreamState
start = crypto_secretstream_xchacha20poly1305_init_pull header key

refused_pull : crypto_secretstream_xchacha20poly1305_pull start [] [] ≡ ok (start, not_pulled)
unfolding crypto_secretstream_xchacha20poly1305_pull
refused_pull = refl

Reachable-IsValid_example : IsValid start
Reachable-IsValid_example =
    Reachable-IsValid header key (omega arith) refl
      (next here (pulls [] [] (omega arith) (omega arith) refused_pull))
