-- ===== src/Lib.antt =====
-- libsodium: a model of parts of its portable C code, with theorems about them.
--
-- A byte is a number, and `IsBytes` says that a list holds numbers below 256. A w-bit unsigned
-- value is a number with its wrap-around written out (`u8`, `u32`, `u64`, `sub32`, `sub64`), and an
-- `int` result is its 32-bit pattern, so that -1 is 2^32 - 1. `size_t`, `uint_fast16_t` and
-- `unsigned long long` have 64 bits. A function that writes a buffer returns what it writes; one that
-- updates a buffer in place returns the buffer. A read or write past a buffer is `none` or `fault`,
-- and a call of `sodium_misuse`, which aborts, is `misuse`.
--
-- The parts, with paths below libsodium/ in the repository's src/:
--
-- - Base, Bits: shared names, lists, words, and the bit operations as arithmetic.
-- - Utils/Compare, Utils/Arith, Utils/Pad (sodium/utils.c): `sodium_memcmp`, `sodium_is_zero`,
--   `sodium_compare`; `sodium_increment`, `sodium_add`, `sodium_sub`; `sodium_pad`, `sodium_unpad`.
--   A loop over an index is a recursion on the rounds left. The assembler paths are not modelled.
-- - Verify (crypto_verify/verify.c): the portable `crypto_verify_n` and its three callers.
-- - Codecs/Base64 (sodium/codecs.c): both directions in the four variants, a byte at a time.
-- - Codecs/Hex (sodium/codecs.c): `sodium_bin2hex` and `sodium_hex2bin`, with `errno`, the ignored
--   characters and the end pointer.
-- - Endian (include/sodium/private/common.h): little-endian loads and stores, rotation.
-- - Stream: the key stream, as what a stream cipher promises. It is no code of the library.
-- - Chacha20 (crypto_stream/chacha20/ref/chacha20_ref.c) and Chacha20/Api
--   (crypto_stream/chacha20/stream_chacha20.c): the cipher, a context being its sixteen words, and
--   the calls with their bounds. Chacha20/Block, Counter, Encrypt and Context relate the loop to the
--   key stream of the context. The fuel of the loop is the length of the input, and every round
--   takes 64 bytes.
-- - Xchacha20 (crypto_core/hchacha20/core_hchacha20.c, crypto_stream/xchacha20/stream_xchacha20.c):
--   HChaCha20, and ChaCha20 with a nonce of 24 bytes.
-- - Poly1305 (crypto_onetimeauth/poly1305/donna): the authenticator with 64-bit limbs. The state's
--   buffer holds its `leftover` bytes. Poly1305/Feed is a description byte by byte, to which
--   Poly1305/Update relates the buffering. Poly1305/Field, Load, Reduce, Sum and Clamp read the limbs
--   as numbers, and Poly1305/Polynomial and Mac put them together.
-- - Aead (crypto_aead/chacha20poly1305/aead_chacha20poly1305.c): both variants of the construction.
--   It calls Chacha20/Api for the first block and for each chunk, feeds the ciphertext to Poly1305
--   and compares tags by Verify. Aead/Chunks treats the loop over chunks for every cipher that has
--   the laws of `StreamLaws`; its fuel is one more than the length of the message, and every round
--   but the last test takes at least one byte. Aead/Ciphers gives the laws of the ciphers.
-- - Aead/Xchacha20Poly1305 (crypto_aead/xchacha20poly1305/aead_xchacha20poly1305.c): the variant over
--   HChaCha20, which seals a message that would run over the 32-bit counter in one chunk.
-- - Sha256 (crypto_hash/sha256/cp/hash_sha256_cp.c): the compression function, streamed input and
--   padding. `buf` is the part of the buffer that is filled; what the C array holds behind it is not
--   read. The loop over blocks is given the number of blocks. Sha256/Stream says which state stands
--   for the bytes seen so far, Sha256/Digest is about the padding.
-- - Sha256/Hmac (crypto_auth/hmacsha256/auth_hmacsha256.c): HMAC over it, and Sha256/Hkdf
--   (crypto_kdf/hkdf/kdf_hkdf_sha256.c) the key derivation over HMAC.
-- - Randombytes (randombytes/randombytes.c): `randombytes_uniform`. The draws are a parameter, and the
--   fuel bounds their number: no number of draws is enough for every source.
-- - Secretstream (crypto_secretstream/xchacha20poly1305/secretstream_xchacha20poly1305.c): both ends of
--   a stream of messages. A call returns the state that it leaves. Secretstream/Advance is about the
--   state, Messages and Opening about one message, Session about sequences of calls.
-- - Fe25519 (include/sodium/private/ed25519_ref10_fe_51.h, crypto_core/ed25519/ref10/fe_51): the field
--   of Curve25519 in five limbs. Fe25519/Field says which number limbs stand for, Congruence is the
--   arithmetic modulo 2^255 - 19, Units the numbers with an inverse, and Represents has one rule
--   for each operation, from which the rules of composed operations follow. Fe25519/Power
--   (crypto_core/ed25519/ref10/ed25519_ref10.c) has the fixed powers and square roots; a power is
--   never computed, since its exponent has 250 bits.
-- - Ge25519 (the same file): points in their coordinate systems, and Ge25519/Subgroup the multiple by
--   the order and the tests on points, Ge25519/Scalarmult the multiple by a secret scalar; its last
--   loop is a recursion on the digits, the last one first. Ge25519/Edwards states the affine addition
--   law and what coordinates stand for; Z and the denominators of the law have inverses modulo
--   2^255 - 19 (Fe25519/Units). Addition, Tables and Points say that the formulas follow the law.
--   Multiples takes a family of points that the law relates as the multiples of the first: that the
--   curve is a group, and that no denominator is 0 on it, is taken there and not proved.
--
-- The functions take buffers as long as the source documents: keys of 32 bytes, nonces of 8, 12 or 24.
-- A loaded byte past such a buffer reads as 0, which no caller with arrays of these lengths meets.
-- Wiping of memory, `volatile` and compiler barriers have no meaning in the model. Vector and
-- assembler implementations, and the choice between implementations by CPU features, are not
-- modelled; nor are the inversion and the scalars of Curve25519 with the signatures and key exchanges
-- above them, the other ciphers and hashes, password hashing, guarded
-- memory, the sources of random numbers and the text of IP addresses.
pub mod Base
pub mod Bits
pub mod Utils
pub mod Verify
pub mod Codecs
pub mod Endian
pub mod Fe25519
pub mod Ge25519
pub mod Stream
pub mod Chacha20
pub mod Xchacha20
pub mod Poly1305
pub mod Aead
pub mod Secretstream
pub mod Randombytes
pub mod Sha256
