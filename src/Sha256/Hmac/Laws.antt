-- ===== src/Sha256/Hmac/Laws.antt =====
-- What src/libsodium/crypto_auth/hmacsha256/auth_hmacsha256.c computes: streamed input, and the
-- verification of a tag.
use libsodium.Base.{
  ◌>>=◌, append-nil, ℕ, zero, suc, ◌+◌, ◌*◌, ◌^◌, ◌<◌, bit_or, Option, some, ◌≡◌, ◌≢◌, ◌⊎◌, inl,
  inr, refl, sym, ap, ◌∙◌, arith, Bytes, [], ◌++◌, IsBytes, length, length-append, take, drop,
  replicate, take_all, if◌then◌else◌, ltb, List, append_assoc, ◌≤◌, ap₂,
}
use libsodium.Verify.Equivalence.{crypto_verify_32_lem}
use libsodium.Utils.Compare.{minus_one}
use libsodium.Utils.Compare.Memcmp.{sodium_memcmp_lem}
use libsodium.Sha256.{
  Sha256State, store32_be, be32enc_vect, crypto_hash_sha256_init, crypto_hash_sha256_update,
  crypto_hash_sha256_final,
}
use libsodium.Sha256.Stream.{
  state_of, crypto_hash_sha256_update_lem, crypto_hash_sha256_init-state_of,
}
use libsodium.Sha256.Digest.{sha256, crypto_hash_sha256_final-state_of}
use libsodium.Sha256.Hmac.Pads.{length-xor_key, xor_key_lem}
use libsodium.Sha256.Hmac.{
  HmacSha256State, xor_key, crypto_auth_hmacsha256_init, crypto_auth_hmacsha256_update,
  crypto_auth_hmacsha256_final, crypto_auth_hmacsha256, crypto_auth_hmacsha256_verify, hmac,
}

length-be32enc_vect : (n : ℕ) (src : List ℕ) → length (be32enc_vect n src) ≡ n * 4
unfolding be32enc_vect store32_be
length-be32enc_vect zero src = refl
length-be32enc_vect (suc n) src = omega (arith, length-be32enc_vect n (drop 1 src))

be32enc_vect-IsBytes : (n : ℕ) (src : List ℕ) → IsBytes (be32enc_vect n src)
unfolding be32enc_vect store32_be
be32enc_vect-IsBytes zero src = record {}
be32enc_vect-IsBytes (suc n) src =
    (omega arith, (omega arith, (omega arith, (omega arith, be32enc_vect-IsBytes n (drop 1 src)))))

length-sha256 : (m : Bytes) → length (sha256 m) ≡ 32
unfolding sha256
length-sha256 m = length-be32enc_vect 8 _

-- A context that has taken in one input.
begun :
    (m : Bytes)
    → length m < 2 ^ 61
    → crypto_hash_sha256_update crypto_hash_sha256_init m ≡ state_of m
begun m small =
    ap (λ (st : Sha256State). crypto_hash_sha256_update st m) crypto_hash_sha256_init-state_of
    ∙ crypto_hash_sha256_update_lem [] m (omega arith)

key_hash :
    (key : Bytes)
    → length key < 2 ^ 61
    → crypto_hash_sha256_final (crypto_hash_sha256_update crypto_hash_sha256_init key) ≡ sha256 key
key_hash key small =
    ap crypto_hash_sha256_final (begun key small) ∙ crypto_hash_sha256_final-state_of key small

-- Both contexts hold their padded key.
init-state_of :
    (key : Bytes)
    → length key < 2 ^ 61
    → crypto_auth_hmacsha256_init key ≡ (
        let k = if ltb 64 (length key) then sha256 key else key in
        record {
          ictx = state_of (xor_key (replicate 64 0x36) k);
          octx = state_of (xor_key (replicate 64 0x5c) k);
        })
unfolding crypto_auth_hmacsha256_init
init-state_of key small =
    let k = if ltb 64 (length key) then sha256 key else key in
    let inner =
      begun (xor_key (replicate 64 0x36) k) (omega (arith, length-xor_key (replicate 64 0x36) k)) in
    let outer =
      begun (xor_key (replicate 64 0x5c) k) (omega (arith, length-xor_key (replicate 64 0x5c) k)) in
    rw (key_hash key small, inner, outer) refl

-- The state that has taken in a message.
abbrev pub hmac_state : Bytes → Bytes → HmacSha256State
hmac_state key m =
    let k = if ltb 64 (length key) then sha256 key else key in
    record {
      ictx = state_of (xor_key (replicate 64 0x36) k ++ m);
      octx = state_of (xor_key (replicate 64 0x5c) k);
    }

pub init-hmac_state :
    (key : Bytes) → length key < 2 ^ 61 → crypto_auth_hmacsha256_init key ≡ hmac_state key []
init-hmac_state key small =
    let k = if ltb 64 (length key) then sha256 key else key in
    init-state_of key small
    ∙ ap
        (λ (x : Bytes). record {
          ictx = state_of x;
          octx = state_of (xor_key (replicate 64 0x5c) k);
        })
        (sym (append-nil (xor_key (replicate 64 0x36) k)))

pub update-hmac_state :
    (key m x : Bytes)
    → 64 + length m + length x < 2 ^ 61
    → crypto_auth_hmacsha256_update (hmac_state key m) x ≡ hmac_state key (m ++ x)
unfolding crypto_auth_hmacsha256_update
update-hmac_state key m x small =
    let k = if ltb 64 (length key) then sha256 key else key in
    let ipad = xor_key (replicate 64 0x36) k in
    let l0 = length-xor_key (replicate 64 0x36) k in
    let l1 = length-append ipad m in
    ap (λ (st : Sha256State). record { ictx = st; octx = state_of (xor_key (replicate 64 0x5c) k) })
      (crypto_hash_sha256_update_lem (ipad ++ m) x (omega arith)
        ∙ ap state_of (append_assoc ipad m x))

-- A key that is hashed where it is long has at most 64 bytes.
short_key : (key : Bytes) → length (if ltb 64 (length key) then sha256 key else key) ≤ 64
short_key key = ground (arith, length-sha256 key)

pub final-hmac_state :
    (key m : Bytes)
    → 64 + length m < 2 ^ 61
    → crypto_auth_hmacsha256_final (hmac_state key m) ≡ hmac key m
unfolding crypto_auth_hmacsha256_final hmac
final-hmac_state key m small =
    let k = if ltb 64 (length key) then sha256 key else key in
    let ipad = xor_key (replicate 64 0x36) k in
    let opad = xor_key (replicate 64 0x5c) k in
    let ihash = sha256 (ipad ++ m) in
    let l0 = length-xor_key (replicate 64 0x36) k in
    let l1 = length-xor_key (replicate 64 0x5c) k in
    let l2 = length-append ipad m in
    let l3 = length-sha256 (ipad ++ m) in
    let l4 = length-append opad ihash in
    let inner = crypto_hash_sha256_final-state_of (ipad ++ m) (omega arith) in
    let outer = crypto_hash_sha256_update_lem opad ihash (omega arith) in
    let short = short_key key in
    rw (inner, outer, crypto_hash_sha256_final-state_of (opad ++ ihash) (omega arith))
      (ap₂ (λ (o i : Bytes). sha256 (o ++ sha256 (i ++ m))) (xor_key_lem 0x5c 64 k short)
        (xor_key_lem 0x36 64 k short))

-- For a key of less than 2^61 bytes and a message of less than 2^61 - 64, the tag of a message that
-- comes in two parts is HMAC-SHA256 of the whole message: the key is hashed first where it has more
-- than 64 bytes, filled up with zeros to 64, and every byte taken with 0x36 inside and 0x5c outside.
pub crypto_auth_hmacsha256_final-append :
    (key a b : Bytes)
    → length key < 2 ^ 61
    → 64 + length a + length b < 2 ^ 61
    → crypto_auth_hmacsha256_final (
        crypto_auth_hmacsha256_update
          (crypto_auth_hmacsha256_update (crypto_auth_hmacsha256_init key) a)
          b)
      ≡ hmac key (a ++ b)
crypto_auth_hmacsha256_final-append key a b small_key small =
    let l = length-append a b in
    rw
      (
        init-hmac_state key small_key,
        update-hmac_state key [] a (omega arith),
        update-hmac_state key a b (omega arith),
      )
      (final-hmac_state key (a ++ b) (omega arith))

crypto_auth_hmacsha256_lem :
    (m key : Bytes)
    → length key < 2 ^ 61
    → 64 + length m < 2 ^ 61
    → crypto_auth_hmacsha256 m key ≡ hmac key m
unfolding crypto_auth_hmacsha256 crypto_auth_hmacsha256_update crypto_hash_sha256_update
crypto_auth_hmacsha256_lem m key small_key small =
    crypto_auth_hmacsha256_final-append key m [] small_key (omega arith)
    ∙ ap (hmac key) (append-nil m)

hmac-IsBytes : (key m : Bytes) → IsBytes (hmac key m)
unfolding hmac sha256
hmac-IsBytes key m = be32enc_vect-IsBytes 8 _

pub length-hmac : (key m : Bytes) → length (hmac key m) ≡ 32
unfolding hmac
length-hmac key m = length-sha256 _

-- Both comparisons give the same flag.
flags :
    (a b : Option ℕ) (n : ℕ)
    → a ≡ some n
    → b ≡ some n
    → bit_or n n ≡ n
    → (do x ← a; y ← b; some (bit_or x y)) ≡ some n
flags a b n p q same = rw (p, q) (ap some same)

-- Verification of 32 bytes returns 0 where they are HMAC-SHA256 of the message, and -1 where they are not.
pub crypto_auth_hmacsha256_verify_lem :
    (h m key : Bytes)
    → IsBytes h
    → length h ≡ 32
    → length key < 2 ^ 61
    → 64 + length m < 2 ^ 61
    → ((h ≡ hmac key m) × (crypto_auth_hmacsha256_verify h m key ≡ some 0))
      ⊎ ((h ≢ hmac key m) × (crypto_auth_hmacsha256_verify h m key ≡ some minus_one))
unfolding crypto_auth_hmacsha256_verify
crypto_auth_hmacsha256_verify_lem h m key bytes whole small_key small =
    let tag = hmac key m in
    let tag_bytes = hmac-IsBytes key m in
    let tag_whole = length-hmac key m in
    let again : (take 32 tag ≡ tag) = take_all 32 tag (omega arith) in
    let again' : (take 32 h ≡ h) = take_all 32 h (omega arith) in
    rw (crypto_auth_hmacsha256_lem m key small_key small)
      (elim (crypto_verify_32_lem h tag bytes tag_bytes whole tag_whole) [
        | inl (same, a) ↦
            elim (sodium_memcmp_lem tag h 32 tag_bytes bytes (omega arith) (omega arith)) [
              | inl (same', b) ↦ inl (same, flags _ _ 0 a b refl)
              | inr (differ, b) ↦ absurd (differ (ap (take 32) (sym same)))
            ]
        | inr (differ, a) ↦
            elim (sodium_memcmp_lem tag h 32 tag_bytes bytes (omega arith) (omega arith)) [
              | inl (same, b) ↦ absurd (differ (sym again' ∙ (sym same ∙ again)))
              | inr (differ', b) ↦ inr (differ, flags _ _ minus_one a b refl)
            ]
      ])
