-- ===== src/Utils/Arith.antt =====
-- `sodium_increment`, `sodium_add` and `sodium_sub` of src/libsodium/sodium/utils.c: the portable
-- loops, in place. `uint_fast16_t` has 64 bits here, as with glibc on 64-bit targets; the theorems
-- show that no carry comes near any bound of 16 bits or more.
pub mod Carry
pub mod Tests
use libsodium.Base.{
  ℕ, zero, suc, ◌+◌, ◌-◌, ◌*◌, ◌%◌, ◌^◌, bit_and, Option, none, some, ◌>>=◌, [], ◌∷◌, Bytes, u8,
  u64, sub64, ◌>>>◌,
}

pub increment_loop : ℕ → ℕ → Bytes → Option Bytes
increment_loop zero c n = some n
increment_loop (suc left) c [] = none
increment_loop (suc left) c (x ∷ n) =
    let c' = u64 (c + x) in do rest ← increment_loop left (c' >>> 8) n; some (u8 c' ∷ rest)

pub sodium_increment : Bytes → ℕ → Option Bytes
unfolding increment_loop
sodium_increment n nlen = increment_loop nlen 1 n

pub add_loop : ℕ → ℕ → Bytes → Bytes → Option Bytes
add_loop zero c a b = some a
add_loop (suc left) c [] b = none
add_loop (suc left) c (x ∷ a) [] = none
add_loop (suc left) c (x ∷ a) (y ∷ b) =
    let c' = u64 (c + u64 (x + y)) in do rest ← add_loop left (c' >>> 8) a b; some (u8 c' ∷ rest)

pub sodium_add : Bytes → Bytes → ℕ → Option Bytes
unfolding add_loop
sodium_add a b len = add_loop len 0 a b

pub sub_loop : ℕ → ℕ → Bytes → Bytes → Option Bytes
sub_loop zero c a b = some a
sub_loop (suc left) c [] b = none
sub_loop (suc left) c (x ∷ a) [] = none
sub_loop (suc left) c (x ∷ a) (y ∷ b) =
    let c' = sub64 (sub64 x y) c in
    do rest ← sub_loop left (bit_and (c' >>> 8) 1) a b; some (u8 c' ∷ rest)

pub sodium_sub : Bytes → Bytes → ℕ → Option Bytes
unfolding sub_loop
sodium_sub a b len = sub_loop len 0 a b
