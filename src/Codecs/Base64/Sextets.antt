-- ===== src/Codecs/Base64/Sextets.antt =====
-- The branch-free alphabets of src/libsodium/sodium/codecs.c, checked at all values by evaluation,
-- and the six bits that the encoder takes from its accumulator.
use libsodium.Base.{
  ℕ, ◌%◌, ◌<◌, bit_and, Bool, true, false, ◌≡◌, refl, arith, ◌==◌, ltb, ◌&&◌, if◌then◌else◌,
}
use libsodium.Bits.And.{bit_and-mask}
use libsodium.Codecs.Table.{passes_below, passes_below-at}
use libsodium.Codecs.Base64.{
  to_char, from_char, eq_mask, gt_mask, ge_mask, lt_mask, le_mask, char_of, byte_of,
  b64_byte_to_char, b64_byte_to_urlsafe_char, b64_char_to_byte, b64_urlsafe_char_to_byte,
}

round_trip_test : Bool → ℕ → Bool
unfolding eq_mask gt_mask ge_mask lt_mask le_mask char_of byte_of b64_byte_to_char
    b64_byte_to_urlsafe_char b64_char_to_byte b64_urlsafe_char_to_byte to_char from_char
round_trip_test u x = from_char u (to_char u x) == x

round_trip_table : (u : Bool) → passes_below (round_trip_test u) 64 ≡ true
unfolding passes_below round_trip_test
round_trip_table true = refl
round_trip_table false = refl

-- A character stands for the value that it was written for.
pub from_char-to_char : (u : Bool) (x : ℕ) → x < 64 → from_char u (to_char u x) ≡ x
unfolding round_trip_test
from_char-to_char u x small =
    let all : (from_char u (to_char u x) == x) ≡ true =
      passes_below-at (round_trip_test u) 64 x (round_trip_table u) small in
    ground arith

pub from_char_padding : (u : Bool) → from_char u b'=' ≡ 0xff
unfolding eq_mask gt_mask ge_mask lt_mask le_mask char_of byte_of b64_byte_to_char
    b64_byte_to_urlsafe_char b64_char_to_byte b64_urlsafe_char_to_byte from_char
from_char_padding true = refl
from_char_padding false = refl

canonical_test : Bool → ℕ → Bool
unfolding eq_mask gt_mask ge_mask lt_mask le_mask char_of byte_of b64_byte_to_char
    b64_byte_to_urlsafe_char b64_char_to_byte b64_urlsafe_char_to_byte to_char from_char
canonical_test u c =
    if from_char u c == 0xff
    then true
    else ltb (from_char u c) 64 && (to_char u (from_char u c) == c)

canonical_table : (u : Bool) → passes_below (canonical_test u) 256 ≡ true
unfolding passes_below canonical_test
canonical_table true = refl
canonical_table false = refl

-- A character of the alphabet is the one that is written for its value.
pub to_char-from_char :
    (u : Bool) (c : ℕ)
    → c < 256
    → (from_char u c == 0xff) ≡ false
    → (from_char u c < 64) × (to_char u (from_char u c) ≡ c)
to_char-from_char u c small known =
    go (from_char u c == 0xff) known
      (unfold canonical_test in passes_below-at (canonical_test u) 256 c (canonical_table u) small)
  where
    go :
        (a : Bool)
        → a ≡ false
        → (if a then true else ltb (from_char u c) 64 && (to_char u (from_char u c) == c)) ≡ true
        → (from_char u c < 64) × (to_char u (from_char u c) ≡ c)
    go a p q = ground arith

pub sextet : (a : ℕ) → bit_and a 0x3f ≡ a % 64
sextet a = bit_and-mask 6 a

pub octet : (a : ℕ) → bit_and a 0xff ≡ a % 256
octet a = bit_and-mask 8 a
