-- ===== src/Utils/Arith/Carry.antt =====
-- The three loops of src/libsodium/sodium/utils.c compute with the little-endian numbers that
-- the first `len` bytes stand for, modulo `256 ^ len`, and leave the other bytes alone.
use native.Mathlib.Nat.{pow-suc, one-le-pow, zero-add, add-zero}
use libsodium.Base.{
  ℕ, zero, suc, ◌+◌, ◌-◌, ◌*◌, ◌/◌, ◌%◌, ◌^◌, ◌≤◌, ◌<◌, bit_and, Option, some, [], ◌∷◌, ◌≡◌, refl,
  ◌⊎◌, ap, arith, Bytes, IsBytes, length, take, drop, u8, u64, sub64, ◌>>>◌, le_value,
  le_value-take-lt,
}
use libsodium.Bits.And.{bit_and-mask}
use libsodium.Utils.Arith.{
  increment_loop, sodium_increment, add_loop, sodium_add, sub_loop, sodium_sub,
}

-- The result of a loop over `len` bytes of `a`: its first `len` bytes stand for `v` modulo
-- `256 ^ len`, and the other bytes are those of `a`.
pub record Computes (len v : ℕ) (a : Bytes) (result : Option Bytes) : Type 0 where
  pub out : Bytes
  pub returns : result ≡ some out
  pub bytes : IsBytes out
  pub same_length : length out ≡ length a
  pub value : le_value (take len out) ≡ v % 256 ^ len
  pub rest : drop len out ≡ drop len a

-- A number by its last byte and the bytes above it.
mod_by_byte : (v m : ℕ) → 0 < m → v % (m * 256) ≡ v % 256 + 256 * (v / 256 % m)
mod_by_byte v m pos = grind arith

value_cons :
    (len v byte c rest : ℕ)
    → byte ≡ v % 256
    → v / 256 ≡ c
    → rest ≡ c % 256 ^ len
    → byte + 256 * rest ≡ v % 256 ^ suc len
value_cons len v byte c rest hb hc hr =
    rw (hb, hr, ← hc, pow-suc 256 len, mod_by_byte v (256 ^ len) (one-le-pow len 256 (omega arith)))
      refl

-- One round puts a byte in front of the rounds after it.
Computes-cons :
    (len v byte c x : ℕ) (a : Bytes) (result : Option Bytes) (r : Computes len c a result)
    → byte ≡ v % 256
    → v / 256 ≡ c
    → Computes (suc len) v (x ∷ a) (some (byte ∷ r.out))
Computes-cons len v byte c x a result r hb hc = record {
  out = byte ∷ r.out;
  returns = refl;
  bytes = (omega arith, r.bytes);
  same_length = ap suc r.same_length;
  value = value_cons len v byte c (le_value (take len r.out)) hb hc r.value;
  rest = r.rest;
}

Computes-nil : (v : ℕ) (a : Bytes) → IsBytes a → Computes 0 v a (some a)
Computes-nil v a h = record {
  out = a;
  returns = refl;
  bytes = h;
  same_length = refl;
  value = omega arith;
  rest = refl;
}

increment_loop_lem :
    (len c : ℕ) (n : Bytes)
    → c < 256
    → IsBytes n
    → len ≤ length n
    → Computes len (c + le_value (take len n)) n (increment_loop len c n)
unfolding increment_loop
increment_loop_lem zero c n hc h p = Computes-nil _ n h
increment_loop_lem (suc len) c [] hc h p = absurd (omega arith)
increment_loop_lem (suc len) c (x ∷ n) hc (hx, h) p =
    let next = increment_loop_lem len (u64 (c + x) >>> 8) n (omega arith) h (omega arith) in
    rw next.returns
      (Computes-cons len _ (u8 (u64 (c + x))) _ x n _ next (omega arith) (omega arith))

-- `sodium_increment` adds 1 to the number that the first `nlen` bytes stand for, modulo
-- `256 ^ nlen`; the other bytes stay.
pub sodium_increment_lem :
    (n : Bytes) (nlen : ℕ)
    → IsBytes n
    → nlen ≤ length n
    → Computes nlen (1 + le_value (take nlen n)) n (sodium_increment n nlen)
unfolding sodium_increment
sodium_increment_lem n nlen h p = increment_loop_lem nlen 1 n (omega arith) h p

add_loop_lem :
    (len c : ℕ) (a b : Bytes)
    → c < 256
    → IsBytes a
    → IsBytes b
    → len ≤ length a
    → len ≤ length b
    → Computes len (c + le_value (take len a) + le_value (take len b)) a (add_loop len c a b)
unfolding add_loop
add_loop_lem zero c a b hc ha hb p q = Computes-nil _ a ha
add_loop_lem (suc len) c [] b hc ha hb p q = absurd (omega arith)
add_loop_lem (suc len) c (x ∷ a) [] hc ha hb p q = absurd (omega arith)
add_loop_lem (suc len) c (x ∷ a) (y ∷ b) hc (hx, ha) (hy, hb) p q =
    let next =
      add_loop_lem len (u64 (c + u64 (x + y)) >>> 8) a b (omega arith) ha hb (omega arith)
        (omega arith) in
    rw next.returns
      (Computes-cons len _ (u8 (u64 (c + u64 (x + y)))) _ x a _ next (omega arith) (omega arith))

-- `sodium_add` adds the numbers that the first `len` bytes of two buffers stand for, modulo
-- `256 ^ len`, in the first buffer; its other bytes stay.
pub sodium_add_lem :
    (a b : Bytes) (len : ℕ)
    → IsBytes a
    → IsBytes b
    → len ≤ length a
    → len ≤ length b
    → Computes len (le_value (take len a) + le_value (take len b)) a (sodium_add a b len)
unfolding sodium_add
sodium_add_lem a b len ha hb p q = rw zero-add at (add_loop_lem len 0 a b (omega arith) ha hb p q)

-- The borrow that one round passes on.
borrow : ℕ → ℕ → ℕ → ℕ
borrow x y c = bit_and (sub64 (sub64 x y) c >>> 8) 1

borrow_lem :
    (x y c : ℕ)
    → x < 256
    → y < 256
    → c < 2
    → ((y + c ≤ x) × (borrow x y c ≡ 0)) ⊎ ((x < y + c) × (borrow x y c ≡ 1))
unfolding borrow
borrow_lem x y c hx hy hc = omega (arith, bit_and-mask 1 (sub64 (sub64 x y) c >>> 8))

-- One round of `sodium_sub`, on the numbers above the two bytes.
sub_round :
    (x y c upper_a upper_b m : ℕ)
    → x < 256
    → y < 256
    → c < 2
    → upper_b < m
    → (u8 (sub64 (sub64 x y) c) ≡ (x + 256 * upper_a + m * 256 - (y + 256 * upper_b + c)) % 256)
      × ((x + 256 * upper_a + m * 256 - (y + 256 * upper_b + c)) / 256
          ≡ upper_a + m - (upper_b + borrow x y c))
sub_round x y c upper_a upper_b m hx hy hc hm = omega (arith, borrow_lem x y c hx hy hc)

sub_loop_lem :
    (len c : ℕ) (a b : Bytes)
    → c < 2
    → IsBytes a
    → IsBytes b
    → len ≤ length a
    → len ≤ length b
    → Computes len
        (le_value (take len a) + 256 ^ len - (le_value (take len b) + c))
        a
        (sub_loop len c a b)
unfolding sub_loop borrow
sub_loop_lem zero c a b hc ha hb p q = Computes-nil _ a ha
sub_loop_lem (suc len) c [] b hc ha hb p q = absurd (omega arith)
sub_loop_lem (suc len) c (x ∷ a) [] hc ha hb p q = absurd (omega arith)
sub_loop_lem (suc len) c (x ∷ a) (y ∷ b) hc (hx, ha) (hy, hb) p q =
    let next =
      sub_loop_lem len (borrow x y c) a b (omega (arith, borrow_lem x y c)) ha hb (omega arith)
        (omega arith) in
    let (byte, above) =
      sub_round x y c (le_value (take len a)) (le_value (take len b)) (256 ^ len) hx hy hc
        (le_value-take-lt len b hb) in
    rw next.returns (
      Computes-cons len _ (u8 (sub64 (sub64 x y) c)) _ x a _ next (rw (pow-suc 256 len) byte)
        (rw (pow-suc 256 len) above))

-- `sodium_sub` subtracts the number that the first `len` bytes of the second buffer stand for from
-- that of the first, modulo `256 ^ len`, in the first buffer; its other bytes stay.
pub sodium_sub_lem :
    (a b : Bytes) (len : ℕ)
    → IsBytes a
    → IsBytes b
    → len ≤ length a
    → len ≤ length b
    → Computes len
        (le_value (take len a) + 256 ^ len - le_value (take len b))
        a
        (sodium_sub a b len)
unfolding sodium_sub
sodium_sub_lem a b len ha hb p q = rw add-zero at (sub_loop_lem len 0 a b (omega arith) ha hb p q)
