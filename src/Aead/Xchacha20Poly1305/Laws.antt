-- ===== src/Aead/Xchacha20Poly1305/Laws.antt =====
-- The variant of src/libsodium/crypto_aead/xchacha20poly1305/aead_xchacha20poly1305.c opens what it
-- seals, messages that run over the 32-bit counter included.
use native.Mathlib.Decide.{dec_lt}
use libsodium.Base.{
  ℕ, suc, ◌+◌, ◌-◌, ◌*◌, ◌^◌, ◌≤◌, ◌<◌, true, some, none, [], ◌∷◌, ◌++◌, ◌≡◌, ◌≢◌, ◌⊎◌, inl, inr,
  refl, sym, ap, ap₂, ◌∙◌, arith, Bytes, IsBytes, length, length-append, take-append, drop-append,
  replicate, u32, ok, leb, le→ltb, le→leb, lt→leb,
}
use libsodium.Stream.{xor_stream, xor_stream_twice, length-xor_stream, xor_stream-IsBytes}
use libsodium.Utils.Compare.{minus_one}
use libsodium.Verify.{crypto_verify_16}
use libsodium.Chacha20.{chacha_ietf_context}
use libsodium.Chacha20.Counter.{key_at, key_at-lt}
use libsodium.Chacha20.Context.{ietf_context}
use libsodium.Chacha20.Api.{outcome, crypto_stream_chacha20_ietf_ext_xor_ic}
use libsodium.Chacha20.Api.Ietf.{ext_block0, ext_xor_ic_lem}
use libsodium.Poly1305.{State}
use libsodium.Poly1305.Feed.{feed_all}
use libsodium.Poly1305.Update.{poly1305_update_lem}
use libsodium.Xchacha20.{crypto_core_hchacha20}
use libsodium.Aead.{◌>>=◌, encrypt_chunks, ietf_begin_tag, ietf_end_tag, finish_open}
use libsodium.Aead.Chunks.{encrypt_chunks_lem, one_chunk}
use libsodium.Aead.Ciphers.{ietf_key, ext_laws}
use libsodium.Aead.Tags.{ietf_begin_tag-buffer, length-ietf_end_tag, ietf_end_tag-IsBytes}
use libsodium.Aead.Opening.{opened, refused, finish_open_lem}
use libsodium.Aead.Xchacha20Poly1305.{
  ext_chunk, ext_encrypt_detached, ext_decrypt_detached, npub2,
  crypto_aead_xchacha20poly1305_ietf_encrypt_detached,
  crypto_aead_xchacha20poly1305_ietf_decrypt_detached, crypto_aead_xchacha20poly1305_ietf_encrypt,
  crypto_aead_xchacha20poly1305_ietf_decrypt,
}

abbrev k2 : Bytes → Bytes → Bytes
k2 npub k = crypto_core_hchacha20 npub k none

-- One chunk where the counter would run over.
ext_one_chunk :
    (npub k m : Bytes) (st : State)
    → IsBytes m
    → 64 * (0xffffffff - 1) < length m
    → length m < 2 ^ 64
    → length st.buffer < 16
    → encrypt_chunks
        (ext_chunk (length m))
        (λ part ic. crypto_stream_chacha20_ietf_ext_xor_ic part npub ic k)
        u32
        (suc (length m))
        m
        1
        st
      ≡ ok (xor_stream (ietf_key npub k 1) m, feed_all st (xor_stream (ietf_key npub k 1) m))
unfolding ext_chunk
ext_one_chunk npub k [] st h long small open_ = absurd (omega arith)
ext_one_chunk npub k (x ∷ m) st h long small open_ =
    rw (lt→leb (64 * (0xffffffff - 1)) (length (x ∷ m)) long) (
      one_chunk (length (x ∷ m)) (λ part ic. crypto_stream_chacha20_ietf_ext_xor_ic part npub ic k)
        u32 (length m) (x ∷ m) (xor_stream (ietf_key npub k 1) (x ∷ m)) 1 st (omega arith)
        (omega arith) (ext_xor_ic_lem (x ∷ m) npub 1 k h small)
        (omega (arith, length-xor_stream (ietf_key npub k 1) (x ∷ m))) open_)

ext_chunks :
    (npub k m : Bytes) (st : State)
    → IsBytes m
    → length m < 2 ^ 64
    → length st.buffer < 16
    → encrypt_chunks
        (ext_chunk (length m))
        (λ part ic. crypto_stream_chacha20_ietf_ext_xor_ic part npub ic k)
        u32
        (suc (length m))
        m
        1
        st
      ≡ ok (xor_stream (ietf_key npub k 1) m, feed_all st (xor_stream (ietf_key npub k 1) m))
unfolding ext_chunk
ext_chunks npub k m st h small open_ = elim (dec_lt (64 * (0xffffffff - 1)) (length m)) [
  | yes long ↦ ext_one_chunk npub k m st h long small open_
  | no short ↦ rw (le→leb (length m) (64 * (0xffffffff - 1)) (omega arith)) (
      encrypt_chunks_lem (ext_laws npub k) (suc (length m)) m 1 st h (omega arith)
        (omega arith, omega arith) open_)
]

module _ (npub k ad : Bytes) where
  block0 : Bytes
  block0 = xor_stream (key_at (chacha_ietf_context (k2 npub k) (npub2 npub) none)) (replicate 64 0)

  cipher : Bytes → Bytes
  cipher m = xor_stream (ietf_key (npub2 npub) (k2 npub k) 1) m

  tag : Bytes → Bytes
  tag c = ietf_end_tag (feed_all (ietf_begin_tag block0 ad) c) (length ad) (length c)

  cipher_twice : (m : Bytes) → cipher (cipher m) ≡ m
  unfolding cipher
  cipher_twice m = xor_stream_twice (ietf_key (npub2 npub) (k2 npub k) 1) m

  length-cipher : (m : Bytes) → length (cipher m) ≡ length m
  unfolding cipher
  length-cipher m = length-xor_stream (ietf_key (npub2 npub) (k2 npub k) 1) m

  cipher-IsBytes : (m : Bytes) → IsBytes m → IsBytes (cipher m)
  unfolding cipher
  cipher-IsBytes m h =
      xor_stream-IsBytes (ietf_key (npub2 npub) (k2 npub k) 1) m
        (key_at-lt (ietf_context (k2 npub k) (npub2 npub) 1)) h

  encrypt_detached_run :
      (m : Bytes)
      → IsBytes m
      → length m < 2 ^ 64
      → length ad < 2 ^ 64
      → crypto_aead_xchacha20poly1305_ietf_encrypt_detached m ad npub k
        ≡ ok (cipher m, tag (cipher m))
  unfolding crypto_aead_xchacha20poly1305_ietf_encrypt_detached ext_encrypt_detached block0 cipher
      tag
  encrypt_detached_run m h small ad_small =
      let st = ietf_begin_tag block0 ad in
      rw
        (
          ext_block0 (npub2 npub) (k2 npub k),
          ext_chunks (npub2 npub) (k2 npub k) m st h small
              (ietf_begin_tag-buffer block0 ad ad_small),
          length-xor_stream (ietf_key (npub2 npub) (k2 npub k) 1) m,
        )
        refl

  decrypt_detached_run :
      (c mac : Bytes)
      → IsBytes c
      → length c < 2 ^ 64
      → length ad < 2 ^ 64
      → crypto_aead_xchacha20poly1305_ietf_decrypt_detached true c mac ad npub k
        ≡ outcome (crypto_verify_16 (tag c) mac) >>= λ ret.
            finish_open true (length c) ret (ok (cipher c))
  unfolding crypto_aead_xchacha20poly1305_ietf_decrypt_detached ext_decrypt_detached block0 cipher
      tag
  decrypt_detached_run c mac h small ad_small =
      let st = ietf_begin_tag block0 ad in
      rw
        (
          ext_block0 (npub2 npub) (k2 npub k),
          ext_xor_ic_lem c (npub2 npub) 1 (k2 npub k) h small,
          poly1305_update_lem st c (ietf_begin_tag-buffer block0 ad ad_small) (omega arith),
        )
        refl

  tag-IsBytes : (c : Bytes) → IsBytes (tag c)
  unfolding tag
  tag-IsBytes c =
      ietf_end_tag-IsBytes (feed_all (ietf_begin_tag block0 ad) c) (length ad) (length c)

  length-tag : (c : Bytes) → length (tag c) ≡ 16
  unfolding tag
  length-tag c = length-ietf_end_tag (feed_all (ietf_begin_tag block0 ad) c) (length ad) (length c)

  decrypt_detached_verdict :
      (c mac : Bytes)
      → IsBytes c
      → length c < 2 ^ 64
      → length ad < 2 ^ 64
      → IsBytes mac
      → length mac ≡ 16
      → ((tag c ≡ mac)
          × (crypto_aead_xchacha20poly1305_ietf_decrypt_detached true c mac ad npub k
              ≡ opened (cipher c)))
        ⊎ ((tag c ≢ mac)
            × (crypto_aead_xchacha20poly1305_ietf_decrypt_detached true c mac ad npub k
                ≡ refused (length c)))
  decrypt_detached_verdict c mac h small ad_small hmac sixteen =
      rw (decrypt_detached_run c mac h small ad_small) (
        finish_open_lem (tag c) mac (cipher c) (length c) (tag-IsBytes c) hmac (length-tag c)
          sixteen)

  encrypt_run :
      (m : Bytes)
      → IsBytes m
      → length m ≤ 2 ^ 64 - 17
      → length ad < 2 ^ 64
      → crypto_aead_xchacha20poly1305_ietf_encrypt m ad npub k
        ≡ ok (cipher m ++ tag (cipher m), length m + 16)
  unfolding crypto_aead_xchacha20poly1305_ietf_encrypt
  encrypt_run m h small ad_small =
      rw
        (
          le→ltb (2 ^ 64 - 1 - 16) (length m) (omega arith),
          encrypt_detached_run m h (omega arith) ad_small,
        )
        refl

  -- `decrypt` splits what `encrypt` puts together.
  decrypt_run :
      (c mac : Bytes) {m : Bytes}
      → length mac ≡ 16
      → crypto_aead_xchacha20poly1305_ietf_decrypt_detached true c mac ad npub k ≡ opened m
      → crypto_aead_xchacha20poly1305_ietf_decrypt true (c ++ mac) ad npub k
        ≡ ok (record { m = some m; ret = 0 }, length c)
  unfolding crypto_aead_xchacha20poly1305_ietf_decrypt
  decrypt_run c mac sixteen run =
      let enough : leb 16 (length (c ++ mac)) ≡ true =
        le→leb 16 (length (c ++ mac)) (omega (arith, length-append c mac)) in
      let at : length (c ++ mac) - 16 ≡ length c = omega (arith, length-append c mac) in
      rw (enough, at, take-append c mac, drop-append c mac, run) refl

-- For a ciphertext of less than 2^64 bytes, additional data of less than 2^64 and a tag
-- of 16, `decrypt_detached` writes a message and returns 0 exactly where `encrypt_detached` makes
-- this ciphertext and tag, and then it is that message; else it writes zeros and returns -1.
pub crypto_aead_xchacha20poly1305_ietf_decrypt_detached_lem :
    (c mac ad npub k : Bytes)
    → IsBytes c
    → length c < 2 ^ 64
    → length ad < 2 ^ 64
    → IsBytes mac
    → length mac ≡ 16
    → ((m : Bytes) × IsBytes m
        × (crypto_aead_xchacha20poly1305_ietf_encrypt_detached m ad npub k ≡ ok (c, mac))
        × (crypto_aead_xchacha20poly1305_ietf_decrypt_detached true c mac ad npub k
            ≡ ok (record { m = some m; ret = 0 })))
      ⊎ ((¬ (
            (m : Bytes) × IsBytes m
            × (length m < 2 ^ 64)
            × (crypto_aead_xchacha20poly1305_ietf_encrypt_detached m ad npub k ≡ ok (c, mac))))
          × (crypto_aead_xchacha20poly1305_ietf_decrypt_detached true c mac ad npub k
              ≡ ok (record { m = some (replicate (length c) 0); ret = minus_one })))
crypto_aead_xchacha20poly1305_ietf_decrypt_detached_lem c mac ad npub k h small ad_small hmac
      sixteen =
    let m = cipher npub k ad c in
    let short : length m < 2 ^ 64 = omega (arith, length-cipher npub k ad c) in
    elim (decrypt_detached_verdict npub k ad c mac h small ad_small hmac sixteen) [
      | inl (same, run) ↦ inl (
        m,
        cipher-IsBytes npub k ad c h,
        encrypt_detached_run npub k ad m (cipher-IsBytes npub k ad c h) short ad_small
            ∙ ap₂ (λ (c' mac' : Bytes). ok (c', mac')) (cipher_twice npub k ad c)
                (ap (tag npub k ad) (cipher_twice npub k ad c) ∙ same),
        run,
      )
      | inr (differ, run) ↦ inr (
        λ (m', h', short', made).
            let both = sym (encrypt_detached_run npub k ad m' h' short' ad_small) ∙ made in
            differ cc,
        run,
      )
    ]

-- A message of at most 2^64 - 17 bytes, with additional data of less than 2^64, is encrypted to
-- one of 16 bytes more, which `decrypt` with the same data, nonce and key opens: it writes the
-- message and its length and returns 0.
pub crypto_aead_xchacha20poly1305_ietf_decrypt-encrypt :
    (m ad npub k : Bytes)
    → IsBytes m
    → length m ≤ 2 ^ 64 - 17
    → length ad < 2 ^ 64
    → (c : Bytes) × (crypto_aead_xchacha20poly1305_ietf_encrypt m ad npub k ≡ ok (c, length m + 16))
      × (length c ≡ length m + 16)
      × (crypto_aead_xchacha20poly1305_ietf_decrypt true c ad npub k
          ≡ ok (record { m = some m; ret = 0 }, length m))
crypto_aead_xchacha20poly1305_ietf_decrypt-encrypt m ad npub k h small ad_small =
    let c = cipher npub k ad m in
    let mac = tag npub k ad c in
    let total : length (c ++ mac) ≡ length m + 16 =
      length-append c mac
      ∙ ap₂ (λ (a b : ℕ). a + b) (length-cipher npub k ad m) (length-tag npub k ad c) in
    let hc = cipher-IsBytes npub k ad m h in
    let opens : crypto_aead_xchacha20poly1305_ietf_decrypt_detached true c mac ad npub k
        ≡ opened m =
      elim (decrypt_detached_verdict npub k ad c mac hc (omega (arith, length-cipher npub k ad m))
        ad_small (tag-IsBytes npub k ad c) (length-tag npub k ad c)) [
          | inl (same, run) ↦ run ∙ ap opened (cipher_twice npub k ad m)
          | inr (differ, run) ↦ absurd (differ refl)
        ] in
    (
      c ++ mac,
      encrypt_run npub k ad m h small ad_small,
      total,
      decrypt_run npub k ad c mac (length-tag npub k ad c) opens
          ∙ ap (λ (n : ℕ). ok (record { m = some m; ret = 0 }, n)) (length-cipher npub k ad m),
    )
