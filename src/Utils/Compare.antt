-- ===== src/Utils/Compare.antt =====
-- `sodium_memcmp`, `sodium_compare` and `sodium_is_zero` of
-- src/libsodium/sodium/utils.c. Each loop is a function of its variables and of the rounds left,
-- and a read past the end of a buffer is the fault `none`.
pub mod Memcmp
pub mod Ordering
pub mod Tests
use libsodium.Base.{
  ℕ, zero, suc, ◌+◌, ◌-◌, ◌*◌, ◌%◌, ◌^◌, bit_and, bit_or, bit_xor, Option, none, some, ◌>>=◌, [],
  ◌∷◌, Bytes, get_elem?, u8, u32, sub32, ◌>>>◌,
}

-- What the three functions return, as the bit pattern of an `int`.
abbrev pub minus_one : ℕ
minus_one = 2 ^ 32 - 1

-- `d |= b1[i] ^ b2[i]` for `len` rounds.
unfoldable pub memcmp_loop : ℕ → ℕ → Bytes → Bytes → Option ℕ
memcmp_loop zero d b1 b2 = some d
memcmp_loop (suc len) d [] b2 = none
memcmp_loop (suc len) d (x ∷ b1) [] = none
memcmp_loop (suc len) d (x ∷ b1) (y ∷ b2) = memcmp_loop len (u8 (bit_or d (bit_xor x y))) b1 b2

-- `1 & ((e - 1) >> 8)` in `int`: bit 8 of `e - 1`, which the arithmetic shift brings down.
unfoldable pub is_zero_bit : ℕ → ℕ
is_zero_bit e = bit_and 1 (sub32 e 1 >>> 8)

unfoldable pub sodium_memcmp : Bytes → Bytes → ℕ → Option ℕ
unfolding memcmp_loop
sodium_memcmp b1 b2 len = do d ← memcmp_loop len 0 b1 b2; some (sub32 (is_zero_bit d) 1)

pub is_zero_loop : ℕ → ℕ → Bytes → Option ℕ
is_zero_loop zero d n = some d
is_zero_loop (suc nlen) d [] = none
is_zero_loop (suc nlen) d (x ∷ n) = is_zero_loop nlen (u8 (bit_or d x)) n

pub sodium_is_zero : Bytes → ℕ → Option ℕ
unfolding is_zero_loop
sodium_is_zero n nlen = do d ← is_zero_loop nlen 0 n; some (is_zero_bit d)

-- The two flags of `sodium_compare`, both of type `unsigned char`.
pub record Flags : Type 0 where
  pub gt : ℕ
  pub eq : ℕ

-- One round, from the bytes at index `i`. The sum is in `unsigned int`.
pub compare_step : ℕ → ℕ → Flags → Flags
compare_step x1 x2 f = record {
  gt = u8 (bit_or f.gt (bit_and (sub32 x2 x1 >>> 8) f.eq));
  eq = u8 (bit_and f.eq (sub32 (bit_xor x2 x1) 1 >>> 8));
}

-- The rounds left are the indices below `i`, from the last to the first.
pub compare_loop : ℕ → Flags → Bytes → Bytes → Option Flags
compare_loop zero f b1 b2 = some f
compare_loop (suc i) f b1 b2 = do
  x1 ← get_elem? b1 i
  x2 ← get_elem? b2 i
  compare_loop i (compare_step x1 x2 f) b1 b2

pub sodium_compare : Bytes → Bytes → ℕ → Option ℕ
unfolding compare_loop
sodium_compare b1 b2 len = do
  f ← compare_loop len (record { gt = 0; eq = 1 }) b1 b2
  some (sub32 (f.gt + f.gt + f.eq) 1)
