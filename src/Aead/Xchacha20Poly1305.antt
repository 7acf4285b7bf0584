-- ===== src/Aead/Xchacha20Poly1305.antt =====
-- src/libsodium/crypto_aead/xchacha20poly1305/aead_xchacha20poly1305.c: the construction with a nonce
-- of 24 bytes. The authenticator, the loop and the end of decryption read as in the other file.
pub mod Laws
pub mod Tests
use libsodium.Base.{
  ℕ, suc, ◌+◌, ◌-◌, ◌*◌, ◌^◌, Bool, none, some, ◌++◌, Bytes, u32, length, take, drop, replicate,
  if◌then◌else◌, ltb, leb, ◌==◌, Result, ok, misuse,
}
use libsodium.Utils.Compare.{minus_one}
use libsodium.Verify.{crypto_verify_16}
use libsodium.Chacha20.Api.{
  outcome, crypto_stream_chacha20_ietf_ext, crypto_stream_chacha20_ietf_ext_xor_ic,
}
use libsodium.Poly1305.{crypto_onetimeauth_poly1305_donna_update}
use libsodium.Xchacha20.{crypto_core_hchacha20}
use libsodium.Aead.{
  ◌>>=◌, stream_poly1305_chunk, abytes, messagebytes_max, encrypt_chunks, ietf_begin_tag,
  ietf_end_tag, Opened, finish_open,
}

-- A message whose blocks would run over the 32-bit counter is one chunk.
pub ext_chunk : ℕ → ℕ
ext_chunk mlen = if leb mlen (64 * (0xffffffff - 1)) then stream_poly1305_chunk else mlen

-- `_encrypt_detached` and `_decrypt_detached`.
pub ext_encrypt_detached : Bytes → Bytes → Bytes → Bytes → Result (Bytes × Bytes)
unfolding ext_chunk
ext_encrypt_detached m ad npub k = do
  block0 ← crypto_stream_chacha20_ietf_ext 64 npub k
  (c, state) ←
      encrypt_chunks (ext_chunk (length m))
        (λ part ic. crypto_stream_chacha20_ietf_ext_xor_ic part npub ic k) u32 (suc (length m)) m 1
        (ietf_begin_tag block0 ad)
  ok (c, ietf_end_tag state (length ad) (length m))

pub ext_decrypt_detached : Bool → Bytes → Bytes → Bytes → Bytes → Bytes → Result Opened
ext_decrypt_detached wanted c mac ad npub k = do
  block0 ← crypto_stream_chacha20_ietf_ext 64 npub k
  ret ← outcome (
      crypto_verify_16
        (ietf_end_tag (crypto_onetimeauth_poly1305_donna_update (ietf_begin_tag block0 ad) c)
          (length ad) (length c))
        mac)
  finish_open wanted (length c) ret (crypto_stream_chacha20_ietf_ext_xor_ic c npub 1 k)

-- `npub2`: four zeros and the last eight bytes of the nonce.
pub npub2 : Bytes → Bytes
npub2 npub = replicate 4 0 ++ take 8 (drop 16 npub)

pub crypto_aead_xchacha20poly1305_ietf_encrypt_detached :
    Bytes → Bytes → Bytes → Bytes → Result (Bytes × Bytes)
unfolding npub2 ext_encrypt_detached
crypto_aead_xchacha20poly1305_ietf_encrypt_detached m ad npub k =
    ext_encrypt_detached m ad (npub2 npub) (crypto_core_hchacha20 npub k none)

pub crypto_aead_xchacha20poly1305_ietf_encrypt : Bytes → Bytes → Bytes → Bytes → Result (Bytes × ℕ)
crypto_aead_xchacha20poly1305_ietf_encrypt m ad npub k =
    let sealed = (do
      (c, mac) ← crypto_aead_xchacha20poly1305_ietf_encrypt_detached m ad npub k
      ok (c ++ mac, length m + abytes)) in
    if ltb messagebytes_max (length m) then misuse else sealed

pub crypto_aead_xchacha20poly1305_ietf_decrypt_detached :
    Bool → Bytes → Bytes → Bytes → Bytes → Bytes → Result Opened
unfolding npub2 ext_decrypt_detached
crypto_aead_xchacha20poly1305_ietf_decrypt_detached wanted c mac ad npub k =
    ext_decrypt_detached wanted c mac ad (npub2 npub) (crypto_core_hchacha20 npub k none)

pub crypto_aead_xchacha20poly1305_ietf_decrypt :
    Bool → Bytes → Bytes → Bytes → Bytes → Result (Opened × ℕ)
crypto_aead_xchacha20poly1305_ietf_decrypt wanted c ad npub k =
    let at = length c - abytes in
    let opened = (do
      out ←
          crypto_aead_xchacha20poly1305_ietf_decrypt_detached wanted (take at c) (drop at c) ad npub
            k
      ok (out, if out.ret == 0 then at else 0)) in
    if leb abytes (length c) then opened else ok (record { m = none; ret = minus_one }, 0)
