-- ===== src/Aead.antt =====
-- src/libsodium/crypto_aead/chacha20poly1305/aead_chacha20poly1305.c: authenticated encryption with
-- ChaCha20 and Poly1305, over the portable implementations of both. Arguments are in the order of
-- the source, without `nsec`, which it ignores, and without lengths, which the byte strings have.
pub mod Chunks
pub mod Ciphers
pub mod Tags
pub mod Opening
pub mod Chacha20Poly1305
pub mod Ietf
pub mod Xchacha20Poly1305
pub mod Tests
use libsodium.Base.{
  ℕ, zero, suc, ◌+◌, ◌-◌, ◌*◌, ◌/◌, ◌%◌, ◌^◌, min, bit_and, Bool, true, false, Option, none, some,
  [], ◌∷◌, ◌++◌, Bytes, u32, u64, sub64, length, take, drop, replicate, if◌then◌else◌, ltb, leb,
  ◌==◌, Result, ok, error, misuse, fault,
}
use libsodium.Endian.{store64_le}
use libsodium.Utils.Compare.{minus_one}
use libsodium.Verify.{crypto_verify_16}
use libsodium.Chacha20.Api.{
  sodium_size_max, outcome, crypto_stream_chacha20, crypto_stream_chacha20_xor_ic,
  crypto_stream_chacha20_ietf, crypto_stream_chacha20_ietf_xor_ic,
}
use libsodium.Poly1305.{
  State, crypto_onetimeauth_poly1305_donna_init, crypto_onetimeauth_poly1305_donna_update,
  crypto_onetimeauth_poly1305_donna_final,
}

-- A call that ends in `sodium_misuse` ends its caller.
infixl 5 ◌>>=◌
abbrev pub ◌>>=◌ {ℓ κ} : {A : Type ℓ} {B : Type κ} → Result A → (A → Result B) → Result B
ok a >>= f = f a
error >>= f = error
misuse >>= f = misuse
fault >>= f = fault

abbrev pub stream_poly1305_chunk : ℕ
stream_poly1305_chunk = 131072

abbrev pub abytes : ℕ
abytes = 16

abbrev pub messagebytes_max : ℕ
messagebytes_max = sodium_size_max - abytes

abbrev pub ietf_messagebytes_max : ℕ
ietf_messagebytes_max = min (sodium_size_max - abytes) (64 * (2 ^ 32 - 1))

-- The loop over the chunks of the message, in all variants: `chunk` is the size of a chunk,
-- `xor_ic` takes a chunk and the counter, and `wrap` is the width of the counter. `fault` also
-- stands for fuel that ran out, of which every round and the last test take one.
pub encrypt_chunks :
    ℕ → (Bytes → ℕ → Result Bytes) → (ℕ → ℕ) → ℕ → Bytes → ℕ → State → Result (Bytes × State)
encrypt_chunks chunk xor_ic wrap zero m ic state = fault
encrypt_chunks chunk xor_ic wrap (suc fuel) m ic state =
    let cl = min (length m) chunk in
    let round = (do
      c ← xor_ic (take cl m) ic
      (rest, last) ←
          encrypt_chunks chunk xor_ic wrap fuel (drop cl m) (wrap (ic + cl / 64))
            (crypto_onetimeauth_poly1305_donna_update state c)
      ok (c ++ rest, last)) in
    if length m == 0 then ok ([], state) else round

-- The authenticator before the ciphertext, and its tag behind it.
pub begin_tag : Bytes → Bytes → State
begin_tag block0 ad =
    let state = crypto_onetimeauth_poly1305_donna_init block0 in
    let state = crypto_onetimeauth_poly1305_donna_update state ad in
    crypto_onetimeauth_poly1305_donna_update state (store64_le (length ad))

pub end_tag : State → ℕ → Bytes
end_tag state mlen =
    crypto_onetimeauth_poly1305_donna_final
      (crypto_onetimeauth_poly1305_donna_update state (store64_le mlen))

pub crypto_aead_chacha20poly1305_encrypt_detached :
    Bytes → Bytes → Bytes → Bytes → Result (Bytes × Bytes)
unfolding begin_tag end_tag encrypt_chunks
crypto_aead_chacha20poly1305_encrypt_detached m ad npub k = do
  block0 ← crypto_stream_chacha20 64 npub k
  (c, state) ←
      encrypt_chunks stream_poly1305_chunk (λ part ic. crypto_stream_chacha20_xor_ic part npub ic k)
        u64 (suc (length m)) m 1 (begin_tag block0 ad)
  ok (c, end_tag state (length m))

-- The ciphertext with its tag, and `*clen_p`.
pub crypto_aead_chacha20poly1305_encrypt : Bytes → Bytes → Bytes → Bytes → Result (Bytes × ℕ)
crypto_aead_chacha20poly1305_encrypt m ad npub k =
    let sealed = (do
      (c, mac) ← crypto_aead_chacha20poly1305_encrypt_detached m ad npub k
      ok (c ++ mac, length m + abytes)) in
    if ltb messagebytes_max (length m) then misuse else sealed

-- What is left in `m`, if it is written, and the value that is returned.
pub record Opened : Type 0 where
  pub m : Option Bytes
  pub ret : ℕ

-- The end of both variants: nothing is written if `m` is `NULL` (`wanted` is false), zeros if the
-- tag is wrong.
pub finish_open : Bool → ℕ → ℕ → Result Bytes → Result Opened
finish_open wanted mlen ret message =
    let open_ = (do m ← message; ok (record { m = some m; ret = 0 })) in
    if wanted
    then (if ret == 0 then open_ else ok (record { m = some (replicate mlen 0); ret = minus_one }))
    else ok (record { m = none; ret = ret })

pub crypto_aead_chacha20poly1305_decrypt_detached :
    Bool → Bytes → Bytes → Bytes → Bytes → Bytes → Result Opened
unfolding begin_tag end_tag finish_open
crypto_aead_chacha20poly1305_decrypt_detached wanted c mac ad npub k = do
  block0 ← crypto_stream_chacha20 64 npub k
  ret ← outcome (
      crypto_verify_16
        (end_tag (crypto_onetimeauth_poly1305_donna_update (begin_tag block0 ad) c) (length c)) mac)
  finish_open wanted (length c) ret (crypto_stream_chacha20_xor_ic c npub 1 k)

-- As `Opened`, with `*mlen_p`.
pub crypto_aead_chacha20poly1305_decrypt :
    Bool → Bytes → Bytes → Bytes → Bytes → Result (Opened × ℕ)
crypto_aead_chacha20poly1305_decrypt wanted c ad npub k =
    let at = length c - abytes in
    let opened = (do
      out ← crypto_aead_chacha20poly1305_decrypt_detached wanted (take at c) (drop at c) ad npub k
      ok (out, if out.ret == 0 then at else 0)) in
    if leb abytes (length c) then opened else ok (record { m = none; ret = minus_one }, 0)

-- `(0x10 - len) & 0xf` bytes of `_pad0`.
pub pad0 : ℕ → Bytes
pad0 len = replicate (bit_and (sub64 0x10 len) 0xf) 0

pub ietf_begin_tag : Bytes → Bytes → State
unfolding pad0
ietf_begin_tag block0 ad =
    let state = crypto_onetimeauth_poly1305_donna_init block0 in
    let state = crypto_onetimeauth_poly1305_donna_update state ad in
    crypto_onetimeauth_poly1305_donna_update state (pad0 (length ad))

pub ietf_end_tag : State → ℕ → ℕ → Bytes
unfolding pad0
ietf_end_tag state adlen mlen =
    let state = crypto_onetimeauth_poly1305_donna_update state (pad0 mlen) in
    let state = crypto_onetimeauth_poly1305_donna_update state (store64_le adlen) in
    let state = crypto_onetimeauth_poly1305_donna_update state (store64_le mlen) in
    crypto_onetimeauth_poly1305_donna_final state

pub crypto_aead_chacha20poly1305_ietf_encrypt_detached :
    Bytes → Bytes → Bytes → Bytes → Result (Bytes × Bytes)
unfolding ietf_begin_tag ietf_end_tag encrypt_chunks
crypto_aead_chacha20poly1305_ietf_encrypt_detached m ad npub k = do
  block0 ← crypto_stream_chacha20_ietf 64 npub k
  (c, state) ←
      encrypt_chunks stream_poly1305_chunk
        (λ part ic. crypto_stream_chacha20_ietf_xor_ic part npub ic k) u32 (suc (length m)) m 1
        (ietf_begin_tag block0 ad)
  ok (c, ietf_end_tag state (length ad) (length m))

pub crypto_aead_chacha20poly1305_ietf_encrypt : Bytes → Bytes → Bytes → Bytes → Result (Bytes × ℕ)
crypto_aead_chacha20poly1305_ietf_encrypt m ad npub k =
    let sealed = (do
      (c, mac) ← crypto_aead_chacha20poly1305_ietf_encrypt_detached m ad npub k
      ok (c ++ mac, length m + abytes)) in
    if ltb ietf_messagebytes_max (length m) then misuse else sealed

pub crypto_aead_chacha20poly1305_ietf_decrypt_detached :
    Bool → Bytes → Bytes → Bytes → Bytes → Bytes → Result Opened
unfolding ietf_begin_tag ietf_end_tag finish_open
crypto_aead_chacha20poly1305_ietf_decrypt_detached wanted c mac ad npub k = do
  block0 ← crypto_stream_chacha20_ietf 64 npub k
  ret ← outcome (
      crypto_verify_16
        (ietf_end_tag (crypto_onetimeauth_poly1305_donna_update (ietf_begin_tag block0 ad) c)
          (length ad) (length c))
        mac)
  finish_open wanted (length c) ret (crypto_stream_chacha20_ietf_xor_ic c npub 1 k)

pub crypto_aead_chacha20poly1305_ietf_decrypt :
    Bool → Bytes → Bytes → Bytes → Bytes → Result (Opened × ℕ)
crypto_aead_chacha20poly1305_ietf_decrypt wanted c ad npub k =
    let at = length c - abytes in
    let opened = (do
      out ←
          crypto_aead_chacha20poly1305_ietf_decrypt_detached wanted (take at c) (drop at c) ad npub
            k
      ok (out, if out.ret == 0 then at else 0)) in
    if leb abytes (length c) then opened else ok (record { m = none; ret = minus_one }, 0)
