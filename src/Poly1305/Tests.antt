-- ===== src/Poly1305/Tests.antt =====
-- The tag of RFC 8439, 2.5.2, from the model of
-- src/libsodium/crypto_onetimeauth/poly1305/donna, and its theorems at inputs.
use Prim.Native.Char.{code}
use Prim.Native.String.{String}
use libsodium.Base.{le_value}
use libsodium.Poly1305.Mac.{poly1305_mac, crypto_onetimeauth_poly1305_donna_lem}
use libsodium.Poly1305.Update.{poly1305_update-append}
use libsodium.Base.{◌++◌, arith, replicate, [], ◌∷◌, ◌≡◌, refl, Bytes}
use libsodium.Endian.{load64_le, store64_le}
use libsodium.Poly1305.{
  crypto_onetimeauth_poly1305_donna, poly1305_init, poly1305_update, poly1305_finish,
  poly1305_blocks, update_aligned, block_round, add_block, multiply, finish_block, carry_fully,
  select_reduced, add_pad,
}

abbrev codes : String → Bytes
codes String.[] = []
codes (String.◌∷◌ c s) = code c ∷ codes s

abbrev key : Bytes
key =
    0x85 ∷ 0xd6 ∷ 0xbe ∷ 0x78 ∷ 0x57 ∷ 0x55 ∷ 0x6d ∷ 0x33 ∷ 0x7f ∷ 0x44 ∷ 0x52 ∷ 0xfe ∷ 0x42 ∷ 0xd5
    ∷ 0x06 ∷ 0xa8 ∷ 0x01 ∷ 0x03 ∷ 0x80 ∷ 0x8a ∷ 0xfb ∷ 0x0d ∷ 0xb2 ∷ 0xfd ∷ 0x4a ∷ 0xbf ∷ 0xf6
    ∷ 0xaf ∷ 0x41 ∷ 0x49 ∷ 0xf5 ∷ 0x1b ∷ []

tag_of_text :
    crypto_onetimeauth_poly1305_donna (codes "Cryptographic Forum Research Group") key
    ≡ 0xa8 ∷ 0x06 ∷ 0x1d ∷ 0xc1 ∷ 0x30 ∷ 0x51 ∷ 0x36 ∷ 0xc6 ∷ 0xc2 ∷ 0x2b ∷ 0x8b ∷ 0xaf ∷ 0x0c
      ∷ 0x01 ∷ 0x27 ∷ 0xa9 ∷ []
unfolding crypto_onetimeauth_poly1305_donna poly1305_init poly1305_update poly1305_finish
    poly1305_blocks block_round add_block multiply finish_block carry_fully select_reduced add_pad
    load64_le store64_le update_aligned
tag_of_text = refl

abbrev fifteen : Bytes
fifteen = 9 ∷ replicate 14 8

-- The first call leaves 15 bytes in the buffer, the second completes one block and another.
poly1305_update-append_example :
    poly1305_update (poly1305_update (poly1305_init key) fifteen) (replicate 20 6)
    ≡ poly1305_update (poly1305_init key) (fifteen ++ replicate 20 6)
unfolding poly1305_init
poly1305_update-append_example =
    poly1305_update-append (poly1305_init key) fifteen (replicate 20 6) (omega arith) (omega arith)

-- Two blocks and two bytes.
crypto_onetimeauth_poly1305_donna_lem_example :
    le_value (crypto_onetimeauth_poly1305_donna (codes "Cryptographic Forum Research Group") key)
    ≡ poly1305_mac (codes "Cryptographic Forum Research Group") key
crypto_onetimeauth_poly1305_donna_lem_example =
    crypto_onetimeauth_poly1305_donna_lem (codes "Cryptographic Forum Research Group") key
      (omega arith) (omega arith) refl (omega arith)
