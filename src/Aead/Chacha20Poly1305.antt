-- ===== src/Aead/Chacha20Poly1305.antt =====
-- The variant of src/libsodium/crypto_aead/chacha20poly1305/aead_chacha20poly1305.c with a nonce of 8
-- bytes.
use libsodium.Base.{
  ℕ, suc, ◌+◌, ◌-◌, ◌^◌, ◌≤◌, ◌<◌, true, some, none, ◌++◌, ◌≡◌, ◌≢◌, ◌⊎◌, inl, inr, refl, sym, ap,
  ap₂, ◌∙◌, arith, Bytes, IsBytes, length, length-append, take-append, drop-append, replicate, ok,
  leb, le→ltb, le→leb,
}
use libsodium.Stream.{xor_stream, xor_stream_twice, length-xor_stream, xor_stream-IsBytes}
use libsodium.Utils.Compare.{minus_one}
use libsodium.Chacha20.{chacha_context}
use libsodium.Chacha20.Counter.{key_at, key_at-lt}
use libsodium.Chacha20.Context.{counter_context}
use libsodium.Chacha20.Api.{outcome}
use libsodium.Chacha20.Api.Laws.{crypto_stream_chacha20_block0, xor_ic_lem}
use libsodium.Poly1305.Feed.{feed_all}
use libsodium.Poly1305.Update.{poly1305_update_lem}
use libsodium.Verify.{crypto_verify_16}
use libsodium.Aead.{
  ◌>>=◌, begin_tag, end_tag, finish_open, crypto_aead_chacha20poly1305_encrypt_detached,
  crypto_aead_chacha20poly1305_decrypt_detached, crypto_aead_chacha20poly1305_encrypt,
  crypto_aead_chacha20poly1305_decrypt,
}
use libsodium.Aead.Chunks.{encrypt_chunks_lem}
use libsodium.Aead.Ciphers.{chacha20_key, chacha20_laws}
use libsodium.Aead.Tags.{begin_tag-buffer, length-end_tag, end_tag-IsBytes}
use libsodium.Aead.Opening.{opened, refused, finish_open_lem}

module _ (npub k ad : Bytes) where
  block0 : Bytes
  block0 = xor_stream (key_at (chacha_context k npub none)) (replicate 64 0)

  cipher : Bytes → Bytes
  cipher m = xor_stream (chacha20_key npub k 1) m

  tag : Bytes → Bytes
  tag c = end_tag (feed_all (begin_tag block0 ad) c) (length c)

  cipher_twice : (m : Bytes) → cipher (cipher m) ≡ m
  unfolding cipher
  cipher_twice m = xor_stream_twice (chacha20_key npub k 1) m

  length-cipher : (m : Bytes) → length (cipher m) ≡ length m
  unfolding cipher
  length-cipher m = length-xor_stream (chacha20_key npub k 1) m

  cipher-IsBytes : (m : Bytes) → IsBytes m → IsBytes (cipher m)
  unfolding cipher
  cipher-IsBytes m h =
      xor_stream-IsBytes (chacha20_key npub k 1) m (key_at-lt (counter_context k npub 1)) h

  encrypt_detached_run :
      (m : Bytes)
      → IsBytes m
      → length m < 2 ^ 64
      → length ad < 2 ^ 64
      → crypto_aead_chacha20poly1305_encrypt_detached m ad npub k ≡ ok (cipher m, tag (cipher m))
  unfolding crypto_aead_chacha20poly1305_encrypt_detached block0 cipher tag
  encrypt_detached_run m h small ad_small =
      let st = begin_tag block0 ad in
      rw
        (
          crypto_stream_chacha20_block0 npub k,
          encrypt_chunks_lem (chacha20_laws npub k) (suc (length m)) m 1 st h (omega arith) small
              (begin_tag-buffer block0 ad ad_small),
          length-xor_stream (chacha20_key npub k 1) m,
        )
        refl

  decrypt_detached_run :
      (c mac : Bytes)
      → IsBytes c
      → length c < 2 ^ 64
      → length ad < 2 ^ 64
      → crypto_aead_chacha20poly1305_decrypt_detached true c mac ad npub k
        ≡ outcome (crypto_verify_16 (tag c) mac) >>= λ ret.
            finish_open true (length c) ret (ok (cipher c))
  unfolding crypto_aead_chacha20poly1305_decrypt_detached block0 cipher tag
  decrypt_detached_run c mac h small ad_small =
      let st = begin_tag block0 ad in
      rw
        (
          crypto_stream_chacha20_block0 npub k,
          xor_ic_lem c npub 1 k h small,
          poly1305_update_lem st c (begin_tag-buffer block0 ad ad_small) small,
        )
        refl

  tag-IsBytes : (c : Bytes) → IsBytes (tag c)
  unfolding tag
  tag-IsBytes c = end_tag-IsBytes (feed_all (begin_tag block0 ad) c) (length c)

  length-tag : (c : Bytes) → length (tag c) ≡ 16
  unfolding tag
  length-tag c = length-end_tag (feed_all (begin_tag block0 ad) c) (length c)

  decrypt_detached_verdict :
      (c mac : Bytes)
      → IsBytes c
      → length c < 2 ^ 64
      → length ad < 2 ^ 64
      → IsBytes mac
      → length mac ≡ 16
      → ((tag c ≡ mac)
          × (crypto_aead_chacha20poly1305_decrypt_detached true c mac ad npub k
              ≡ opened (cipher c)))
        ⊎ ((tag c ≢ mac)
            × (crypto_aead_chacha20poly1305_decrypt_detached true c mac ad npub k
                ≡ refused (length c)))
  decrypt_detached_verdict c mac h small ad_small hmac sixteen =
      rw (decrypt_detached_run c mac h small ad_small) (
        finish_open_lem (tag c) mac (cipher c) (length c) (tag-IsBytes c) hmac (length-tag c)
          sixteen)

  encrypt_run :
      (m : Bytes)
      → IsBytes m
      → length m ≤ 2 ^ 64 - 17
      → length ad < 2 ^ 64
      → crypto_aead_chacha20poly1305_encrypt m ad npub k
        ≡ ok (cipher m ++ tag (cipher m), length m + 16)
  unfolding crypto_aead_chacha20poly1305_encrypt
  encrypt_run m h small ad_small =
      rw
        (
          le→ltb (2 ^ 64 - 1 - 16) (length m) (omega arith),
          encrypt_detached_run m h (omega arith) ad_small,
        )
        refl

  -- `decrypt` splits what `encrypt` puts together.
  decrypt_run :
      (c mac : Bytes) {m : Bytes}
      → length mac ≡ 16
      → crypto_aead_chacha20poly1305_decrypt_detached true c mac ad npub k ≡ opened m
      → crypto_aead_chacha20poly1305_decrypt true (c ++ mac) ad npub k
        ≡ ok (record { m = some m; ret = 0 }, length c)
  unfolding crypto_aead_chacha20poly1305_decrypt
  decrypt_run c mac sixteen run =
      let enough : leb 16 (length (c ++ mac)) ≡ true =
        le→leb 16 (length (c ++ mac)) (omega (arith, length-append c mac)) in
      let at : length (c ++ mac) - 16 ≡ length c = omega (arith, length-append c mac) in
      rw (enough, at, take-append c mac, drop-append c mac, run) refl

-- For a ciphertext of less than 2^64 bytes, additional data of less than 2^64 and a tag
-- of 16, `decrypt_detached` writes a message and returns 0 exactly where `encrypt_detached` makes
-- this ciphertext and tag, and then it is that message; else it writes zeros and returns -1.
pub crypto_aead_chacha20poly1305_decrypt_detached_lem :
    (c mac ad npub k : Bytes)
    → IsBytes c
    → length c < 2 ^ 64
    → length ad < 2 ^ 64
    → IsBytes mac
    → length mac ≡ 16
    → ((m : Bytes) × IsBytes m
        × (crypto_aead_chacha20poly1305_encrypt_detached m ad npub k ≡ ok (c, mac))
        × (crypto_aead_chacha20poly1305_decrypt_detached true c mac ad npub k
            ≡ ok (record { m = some m; ret = 0 })))
      ⊎ ((¬ (
            (m : Bytes) × IsBytes m
            × (length m < 2 ^ 64)
            × (crypto_aead_chacha20poly1305_encrypt_detached m ad npub k ≡ ok (c, mac))))
          × (crypto_aead_chacha20poly1305_decrypt_detached true c mac ad npub k
              ≡ ok (record { m = some (replicate (length c) 0); ret = minus_one })))
crypto_aead_chacha20poly1305_decrypt_detached_lem c mac ad npub k h small ad_small hmac sixteen =
    let m = cipher npub k ad c in
    let short : length m < 2 ^ 64 = omega (arith, length-cipher npub k ad c) in
    elim (decrypt_detached_verdict npub k ad c mac h small ad_small hmac sixteen) [
      | inl (same, run) ↦ inl (
        m,
        cipher-IsBytes npub k ad c h,
        encrypt_detached_run npub k ad m (cipher-IsBytes npub k ad c h) short ad_small
            ∙ ap₂ (λ (c' mac' : Bytes). ok (c', mac')) (cipher_twice npub k ad c)
                (ap (tag npub k ad) (cipher_twice npub k ad c) ∙ same),
        run,
      )
      | inr (differ, run) ↦ inr (
        λ (m', h', short', made).
            let both = sym (encrypt_detached_run npub k ad m' h' short' ad_small) ∙ made in
            differ cc,
        run,
      )
    ]

-- A message of at most 2^64 - 17 bytes, with additional data of less than 2^64, is encrypted to
-- one of 16 bytes more, which `decrypt` with the same data, nonce and key opens: it writes the
-- message and its length and returns 0.
pub crypto_aead_chacha20poly1305_decrypt-encrypt :
    (m ad npub k : Bytes)
    → IsBytes m
    → length m ≤ 2 ^ 64 - 17
    → length ad < 2 ^ 64
    → (c : Bytes) × (crypto_aead_chacha20poly1305_encrypt m ad npub k ≡ ok (c, length m + 16))
      × (length c ≡ length m + 16)
      × (crypto_aead_chacha20poly1305_decrypt true c ad npub k
          ≡ ok (record { m = some m; ret = 0 }, length m))
crypto_aead_chacha20poly1305_decrypt-encrypt m ad npub k h small ad_small =
    let c = cipher npub k ad m in
    let mac = tag npub k ad c in
    let total : length (c ++ mac) ≡ length m + 16 =
      length-append c mac
      ∙ ap₂ (λ (a b : ℕ). a + b) (length-cipher npub k ad m) (length-tag npub k ad c) in
    let hc = cipher-IsBytes npub k ad m h in
    let opens : crypto_aead_chacha20poly1305_decrypt_detached true c mac ad npub k ≡ opened m =
      elim (decrypt_detached_verdict npub k ad c mac hc (omega (arith, length-cipher npub k ad m))
        ad_small (tag-IsBytes npub k ad c) (length-tag npub k ad c)) [
          | inl (same, run) ↦ run ∙ ap opened (cipher_twice npub k ad m)
          | inr (differ, run) ↦ absurd (differ refl)
        ] in
    (
      c ++ mac,
      encrypt_run npub k ad m h small ad_small,
      total,
      decrypt_run npub k ad c mac (length-tag npub k ad c) opens
          ∙ ap (λ (n : ℕ). ok (record { m = some m; ret = 0 }, n)) (length-cipher npub k ad m),
    )
