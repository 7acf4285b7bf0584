-- ===== src/Poly1305/Finish.antt =====
-- What `poly1305_finish` of src/libsodium/crypto_onetimeauth/poly1305/donna/poly1305_donna64.h writes
-- is 16 bytes, and the buffer is never full between two calls.
use libsodium.Base.{ℕ, ◌^◌, ◌<◌, ◌≡◌, refl, arith, Bytes, IsBytes, length, All-append}
use libsodium.Endian.{store64_le}
use libsodium.Endian.Laws.{store64_le-IsBytes}
use libsodium.Poly1305.{
  State, Limbs, poly1305_init, poly1305_update, poly1305_finish, finish_block, carry_fully,
  select_reduced, add_pad,
}
use libsodium.Poly1305.Feed.{feed_all-buffer}
use libsodium.Poly1305.Update.{poly1305_update_lem}

length-add_pad : (h : Limbs) (t0 t1 : ℕ) → length (add_pad h t0 t1) ≡ 16
unfolding add_pad store64_le
length-add_pad h t0 t1 = refl

add_pad-IsBytes : (h : Limbs) (t0 t1 : ℕ) → IsBytes (add_pad h t0 t1)
unfolding add_pad
add_pad-IsBytes h t0 t1 =
    All-append (λ x. x < 256) (store64_le _) (store64_le _) (store64_le-IsBytes _)
      (store64_le-IsBytes _)

pub length-poly1305_finish : (st : State) → length (poly1305_finish st) ≡ 16
unfolding poly1305_finish
length-poly1305_finish st =
    let st' = finish_block st in
    length-add_pad (select_reduced (carry_fully st'.h)) st'.pad0 st'.pad1

pub poly1305_finish-IsBytes : (st : State) → IsBytes (poly1305_finish st)
unfolding poly1305_finish
poly1305_finish-IsBytes st =
    let st' = finish_block st in
    add_pad-IsBytes (select_reduced (carry_fully st'.h)) st'.pad0 st'.pad1

pub poly1305_init-buffer : (key : Bytes) → length (poly1305_init key).buffer < 16
unfolding poly1305_init
poly1305_init-buffer key = omega arith

pub poly1305_update-buffer :
    (st : State) (m : Bytes)
    → length st.buffer < 16
    → length m < 2 ^ 64
    → length (poly1305_update st m).buffer < 16
poly1305_update-buffer st m open_ small =
    rw (poly1305_update_lem st m open_ small) (feed_all-buffer st m open_)
