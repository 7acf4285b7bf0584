-- ===== src/Sha256/Hmac.antt =====
-- src/libsodium/crypto_auth/hmacsha256/auth_hmacsha256.c. A key that is `NULL` has no bytes here.
pub mod Laws
pub mod Pads
use libsodium.Base.{
  ◌>>=◌, ℕ, bit_or, bit_xor, Option, some, Bytes, [], ◌∷◌, ◌++◌, length, replicate, if◌then◌else◌,
  ltb, map, ◌-◌,
}
use libsodium.Verify.{crypto_verify_32}
use libsodium.Utils.Compare.{sodium_memcmp}
use libsodium.Sha256.{
  Sha256State, crypto_hash_sha256_init, crypto_hash_sha256_update, crypto_hash_sha256_final,
}
use libsodium.Sha256.Digest.{sha256}

pub record HmacSha256State : Type 0 where
  pub ictx : Sha256State
  pub octx : Sha256State

-- `pad[i] ^= key[i]` for the bytes of the key.
pub xor_key : Bytes → Bytes → Bytes
xor_key [] key = []
xor_key (x ∷ pad) [] = x ∷ pad
xor_key (x ∷ pad) (k ∷ key) = bit_xor x k ∷ xor_key pad key

unfoldable pub crypto_auth_hmacsha256_init : Bytes → HmacSha256State
crypto_auth_hmacsha256_init key =
    let khash = crypto_hash_sha256_final (crypto_hash_sha256_update crypto_hash_sha256_init key) in
    let key = if ltb 64 (length key) then khash else key in
    record {
      ictx = crypto_hash_sha256_update crypto_hash_sha256_init (xor_key (replicate 64 0x36) key);
      octx = crypto_hash_sha256_update crypto_hash_sha256_init (xor_key (replicate 64 0x5c) key);
    }

unfoldable pub crypto_auth_hmacsha256_update : HmacSha256State → Bytes → HmacSha256State
crypto_auth_hmacsha256_update st input = record st {
  ictx = crypto_hash_sha256_update st.ictx input;
}

unfoldable pub crypto_auth_hmacsha256_final : HmacSha256State → Bytes
crypto_auth_hmacsha256_final st =
    let ihash = crypto_hash_sha256_final st.ictx in
    crypto_hash_sha256_final (crypto_hash_sha256_update st.octx ihash)

unfoldable pub crypto_auth_hmacsha256 : Bytes → Bytes → Bytes
crypto_auth_hmacsha256 input k =
    crypto_auth_hmacsha256_final
      (crypto_auth_hmacsha256_update (crypto_auth_hmacsha256_init k) input)

-- The caller's `h` is not the local array `correct`, so the comparison of the addresses adds 0.
unfoldable pub crypto_auth_hmacsha256_verify : Bytes → Bytes → Bytes → Option ℕ
crypto_auth_hmacsha256_verify h input k = do
  let correct = crypto_auth_hmacsha256 input k
  a ← crypto_verify_32 h correct
  b ← sodium_memcmp correct h 32
  some (bit_or a b)

-- HMAC of RFC 2104 over SHA-256: the key, or its hash where it has more than 64 bytes, is filled up
-- with zeros to 64 bytes, and every byte of that block is taken with 0x36 inside and 0x5c outside.
unfoldable pub hmac : Bytes → Bytes → Bytes
hmac key m =
    let k = if ltb 64 (length key) then sha256 key else key in
    let block = k ++ replicate (64 - length k) 0 in
    let inner = sha256 (map (λ (b : ℕ). bit_xor b 0x36) block ++ m) in
    sha256 (map (λ (b : ℕ). bit_xor b 0x5c) block ++ inner)
