-- ===== src/Base/Words.antt =====
-- Bytes, fixed-width unsigned integers and the little-endian numbers that byte strings stand for.
use Prim.Native.Nat.{ℕ, zero, suc, ◌+◌, ◌-◌, ◌*◌, ◌/◌, ◌%◌, ◌^◌, ◌<◌}
use mathlib.Core.List.{List, [], ◌∷◌}
use native.Mathlib.Omega.{arith}
use native.Mathlib.Nat.{pow-suc, one-le-pow}
use libsodium.Base.Lists.{take, All}

-- A buffer; its elements are bytes where `IsBytes` says so.
abbrev pub Bytes : Type 0
Bytes = List ℕ

abbrev pub IsByte : ℕ → Type 0
IsByte x = x < 256

abbrev pub IsBytes : Bytes → Type 0
IsBytes = All IsByte

abbrev pub u8 : ℕ → ℕ
u8 n = n % 2 ^ 8

abbrev pub u32 : ℕ → ℕ
u32 n = n % 2 ^ 32

abbrev pub u64 : ℕ → ℕ
u64 n = n % 2 ^ 64

abbrev pub u128 : ℕ → ℕ
u128 n = n % 2 ^ 128

-- `a - b` in `unsigned int` and in `uint64_t` or `size_t`; `-` on ℕ stops at 0.
abbrev pub sub32 : ℕ → ℕ → ℕ
sub32 a b = (a + 2 ^ 32 - b) % 2 ^ 32

abbrev pub sub64 : ℕ → ℕ → ℕ
sub64 a b = (a + 2 ^ 64 - b) % 2 ^ 64

infixl 75 ◌<<<◌ ◌>>>◌
abbrev pub ◌<<<◌ : ℕ → ℕ → ℕ
x <<< k = x * 2 ^ k

abbrev pub ◌>>>◌ : ℕ → ℕ → ℕ
x >>> k = x / 2 ^ k

-- The number that a byte string stands for, least significant byte first.
abbrev pub le_value : Bytes → ℕ
le_value [] = 0
le_value (x ∷ xs) = x + 256 * le_value xs

pub le_value-take-lt : (n : ℕ) (xs : Bytes) → IsBytes xs → le_value (take n xs) < 256 ^ n
le_value-take-lt zero xs h = omega arith
le_value-take-lt (suc n) [] h = one-le-pow (suc n) 256 (omega arith)
le_value-take-lt (suc n) (x ∷ xs) (p, h) = omega (arith, le_value-take-lt n xs h, pow-suc 256 n)
