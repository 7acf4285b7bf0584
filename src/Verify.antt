-- ===== src/Verify.antt =====
-- The portable `crypto_verify_n` of src/libsodium/crypto_verify/verify.c and the three functions
-- that call it. `optblocker_u16` is a static variable that nothing writes: it is 0.
pub mod Equivalence
pub mod Tests
use libsodium.Base.{
  ℕ, zero, suc, ◌+◌, ◌-◌, ◌%◌, ◌^◌, bit_or, bit_xor, Option, none, some, ◌>>=◌, [], ◌∷◌, Bytes,
  sub32, ◌>>>◌,
}

-- `d` is an `uint16_t`.
pub verify_loop : ℕ → ℕ → Bytes → Bytes → Option ℕ
verify_loop zero d x y = some d
verify_loop (suc n) d [] y = none
verify_loop (suc n) d (a ∷ x) [] = none
verify_loop (suc n) d (a ∷ x) (b ∷ y) = verify_loop n (bit_or d (bit_xor a b) % 2 ^ 16) x y

optblocker_u16 : ℕ
optblocker_u16 = 0

pub verify_flag : ℕ → ℕ
unfolding optblocker_u16
verify_flag d = bit_xor (((d + 2 ^ 16 - 1) % 2 ^ 16) >>> 13) optblocker_u16 >>> 2

pub crypto_verify_n : Bytes → Bytes → ℕ → Option ℕ
unfolding verify_loop
crypto_verify_n x y n = do d ← verify_loop n 0 x y; some (sub32 (verify_flag d) 1)

pub crypto_verify_16 : Bytes → Bytes → Option ℕ
crypto_verify_16 x y = crypto_verify_n x y 16

pub crypto_verify_32 : Bytes → Bytes → Option ℕ
crypto_verify_32 x y = crypto_verify_n x y 32

pub crypto_verify_64 : Bytes → Bytes → Option ℕ
crypto_verify_64 x y = crypto_verify_n x y 64
