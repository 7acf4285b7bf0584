-- ===== src/Aead/Tags.antt =====
-- The authenticators of src/libsodium/crypto_aead/chacha20poly1305/aead_chacha20poly1305.c keep less
-- than a block between two calls, and their tags have 16 bytes.
use libsodium.Base.{
  ℕ, ◌^◌, ◌<◌, bit_and, ◌≡◌, arith, Bytes, IsBytes, sub64, length, length-replicate,
}
use libsodium.Bits.And.{bit_and-mask}
use libsodium.Endian.{store64_le}
use libsodium.Endian.Laws.{length-store64_le}
use libsodium.Poly1305.{State, poly1305_init, poly1305_update}
use libsodium.Poly1305.Finish.{
  length-poly1305_finish, poly1305_finish-IsBytes, poly1305_update-buffer, poly1305_init-buffer,
}
use libsodium.Aead.{begin_tag, end_tag, pad0, ietf_begin_tag, ietf_end_tag}

-- The padding is shorter than a block.
length-pad0 : (n : ℕ) → length (pad0 n) < 16
unfolding pad0
length-pad0 n =
    let few = bit_and-mask 4 (sub64 0x10 n) in
    omega (arith, length-replicate {A = ℕ} (bit_and (sub64 0x10 n) 0xf) 0, few)

pub begin_tag-buffer :
    (block0 ad : Bytes) → length ad < 2 ^ 64 → length (begin_tag block0 ad).buffer < 16
unfolding begin_tag
begin_tag-buffer block0 ad small =
    let st = poly1305_init block0 in
    poly1305_update-buffer (poly1305_update st ad) (store64_le (length ad))
      (poly1305_update-buffer st ad (poly1305_init-buffer block0) small)
      (omega (arith, length-store64_le (length ad)))

pub ietf_begin_tag-buffer :
    (block0 ad : Bytes) → length ad < 2 ^ 64 → length (ietf_begin_tag block0 ad).buffer < 16
unfolding ietf_begin_tag
ietf_begin_tag-buffer block0 ad small =
    let st = poly1305_init block0 in
    poly1305_update-buffer (poly1305_update st ad) (pad0 (length ad))
      (poly1305_update-buffer st ad (poly1305_init-buffer block0) small)
      (omega (arith, length-pad0 (length ad)))

pub length-end_tag : (st : State) (n : ℕ) → length (end_tag st n) ≡ 16
unfolding end_tag
length-end_tag st n = length-poly1305_finish (poly1305_update st (store64_le n))

pub end_tag-IsBytes : (st : State) (n : ℕ) → IsBytes (end_tag st n)
unfolding end_tag
end_tag-IsBytes st n = poly1305_finish-IsBytes (poly1305_update st (store64_le n))

pub length-ietf_end_tag : (st : State) (a n : ℕ) → length (ietf_end_tag st a n) ≡ 16
unfolding ietf_end_tag
length-ietf_end_tag st a n =
    length-poly1305_finish (
      poly1305_update (poly1305_update (poly1305_update st (pad0 n)) (store64_le a)) (store64_le n))

pub ietf_end_tag-IsBytes : (st : State) (a n : ℕ) → IsBytes (ietf_end_tag st a n)
unfolding ietf_end_tag
ietf_end_tag-IsBytes st a n =
    poly1305_finish-IsBytes (
      poly1305_update (poly1305_update (poly1305_update st (pad0 n)) (store64_le a)) (store64_le n))
