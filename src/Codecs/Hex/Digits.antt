-- ===== src/Codecs/Hex/Digits.antt =====
-- The branch-free arithmetic on one character in src/libsodium/sodium/codecs.c, against plain
-- descriptions of it. Each fact is checked at all 256 bytes by evaluation.
use libsodium.Base.{
  ℕ, ◌+◌, ◌*◌, ◌/◌, ◌%◌, ◌<◌, bit_or, Bool, true, ◌&&◌, ◌||◌, not, ◌≡◌, refl, arith, u8, ◌>>>◌, ltb,
  leb, ◌==◌, if◌then◌else◌,
}
use libsodium.Codecs.Table.{passes_below, passes_below-at}
use libsodium.Codecs.Hex.{hex_digit, hex_pair, is_hex, c_val}

-- `0` to `9`, `A` to `F` and `a` to `f`.
unfoldable pub is_hex_digit : ℕ → Bool
is_hex_digit c = leb b'0' c && leb c b'9' || leb b'A' c && leb c b'F' || leb b'a' c && leb c b'f'

-- The digits that `sodium_bin2hex` writes are lower case.
unfoldable pub to_lower : ℕ → ℕ
to_lower c = if leb b'A' c && leb c b'Z' then c + 32 else c

eq_of_== : (a b : ℕ) → (a == b) ≡ true → a ≡ b
eq_of_== a b h = ground arith

and_parts : (a b : Bool) → (a && b) ≡ true → (a ≡ true) × (b ≡ true)
and_parts a b h = ground arith

-- Both digits that stand for a byte.
unfoldable pub high_digit : ℕ → ℕ
high_digit byte = u8 (hex_pair byte)

unfoldable pub low_digit : ℕ → ℕ
low_digit byte = u8 (hex_pair byte >>> 8)

round_trip_test : ℕ → Bool
unfolding high_digit low_digit hex_pair is_hex c_val
round_trip_test b =
    is_hex (high_digit b)
    && (is_hex (low_digit b)
        && (u8 (bit_or (u8 (c_val (high_digit b) * 16)) (c_val (low_digit b))) == b))

round_trip_table : passes_below round_trip_test 256 ≡ true
unfolding passes_below round_trip_test
round_trip_table = refl

-- The two digits of a byte are digits, and their values give the byte back.
pub digits_round_trip :
    (b : ℕ)
    → b < 256
    → (is_hex (high_digit b) ≡ true)
      × (is_hex (low_digit b) ≡ true)
      × (u8 (bit_or (u8 (c_val (high_digit b) * 16)) (c_val (low_digit b))) ≡ b)
unfolding round_trip_test
digits_round_trip b h =
    let all = passes_below-at round_trip_test 256 b round_trip_table h in
    let (high, more) = and_parts _ _ all in
    let (low, value) = and_parts _ _ more in (high, low, eq_of_== _ b value)

class_test : ℕ → Bool
unfolding is_hex is_hex_digit
class_test c = if is_hex c then is_hex_digit c else not (is_hex_digit c)

class_table : passes_below class_test 256 ≡ true
unfolding passes_below class_test
class_table = refl

-- The two masks are 0 together at every byte but the 22 digits.
is_hex-is_hex_digit : (c : ℕ) → c < 256 → is_hex c ≡ is_hex_digit c
is_hex-is_hex_digit c h =
    go (is_hex c) (is_hex_digit c)
      (unfold class_test in passes_below-at class_test 256 c class_table h)
  where
    go : (a b : Bool) → (if a then b else not b) ≡ true → a ≡ b
    go a b e = ground arith

value_test : ℕ → Bool
unfolding is_hex c_val hex_digit to_lower
value_test c = if is_hex c then ltb (c_val c) 16 && (hex_digit (c_val c) == to_lower c) else true

value_table : passes_below value_test 256 ≡ true
unfolding passes_below value_test
value_table = refl

-- The value of a digit is below 16, and is printed as that digit in lower case.
pub hex_digit-c_val :
    (c : ℕ) → c < 256 → is_hex c ≡ true → (c_val c < 16) × (hex_digit (c_val c) ≡ to_lower c)
hex_digit-c_val c h e =
    go (is_hex c) e (unfold value_test in passes_below-at value_test 256 c value_table h)
  where
    go :
        (a : Bool)
        → a ≡ true
        → (if a then ltb (c_val c) 16 && (hex_digit (c_val c) == to_lower c) else true) ≡ true
        → (c_val c < 16) × (hex_digit (c_val c) ≡ to_lower c)
    go a p q = ground arith

pair_test : ℕ → Bool
unfolding high_digit low_digit hex_pair hex_digit
pair_test b = (high_digit b == hex_digit (b / 16)) && (low_digit b == hex_digit (b % 16))

pair_table : passes_below pair_test 256 ≡ true
unfolding passes_below pair_test
pair_table = refl

-- The first digit of a byte is that of its high half, the second that of its low half.
pub pair_digits :
    (b : ℕ) → b < 256 → (high_digit b ≡ hex_digit (b / 16)) × (low_digit b ≡ hex_digit (b % 16))
pair_digits b h =
    let all : (high_digit b == hex_digit (b / 16)) && (low_digit b == hex_digit (b % 16)) ≡ true =
      unfold pair_test in passes_below-at pair_test 256 b pair_table h in
    let (high, low) = and_parts _ _ all in (eq_of_== _ _ high, eq_of_== _ _ low)
