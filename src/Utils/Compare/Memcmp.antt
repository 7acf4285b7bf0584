-- ===== src/Utils/Compare/Memcmp.antt =====
-- What `sodium_memcmp` and `sodium_is_zero` of src/libsodium/sodium/utils.c decide.
use native.Mathlib.Decide.{ℕ_discrete}
use libsodium.Base.{
  ℕ, zero, suc, ◌%◌, ◌≤◌, ◌<◌, bit_and, bit_or, bit_xor, Option, some, [], ◌∷◌, ◌≡◌, ◌≢◌, ◌⊎◌, inl,
  inr, refl, ap, ap₂, arith, Bytes, IsBytes, length, take, u8, sub32, ◌>>>◌, replicate,
  length-replicate, sym, ◌∙◌,
}
use libsodium.Bits.Xor.{bit_xor-eq-zero, bit_xor-lt, bit_xor-zero, bit_xor_self}
use libsodium.Bits.Or.{bit_or-eq-zero, bit_or-lt}
use libsodium.Bits.And.{bit_and-mask, bit_and_comm}
use libsodium.Utils.Compare.{
  memcmp_loop, is_zero_bit, sodium_memcmp, is_zero_loop, sodium_is_zero, minus_one,
}

bit_and_one : (a : ℕ) → bit_and 1 a ≡ a % 2
bit_and_one a = rw bit_and_comm (bit_and-mask 1 a)

-- The flag is 1 at 0 and 0 at every other byte.
pub is_zero_bit-zero : is_zero_bit 0 ≡ 1
unfolding is_zero_bit
is_zero_bit-zero = refl

pub is_zero_bit-pos : (e : ℕ) → 0 < e → e < 256 → is_zero_bit e ≡ 0
unfolding is_zero_bit
is_zero_bit-pos e pos h = omega (arith, bit_and_one (sub32 e 1 >>> 8))

-- One round keeps the accumulator at 0 exactly where it was 0 and the two bytes are equal.
round_zero :
    (d x y : ℕ) → d < 256 → x < 256 → y < 256 → u8 (bit_or d (bit_xor x y)) ≡ 0 → (d ≡ 0) × (x ≡ y)
round_zero d x y hd hx hy h =
    let bound = bit_or-lt 8 d (bit_xor x y) hd (bit_xor-lt 8 x y hx hy) in
    let (old, new) = bit_or-eq-zero d (bit_xor x y) (omega arith) in (old, bit_xor-eq-zero x y new)

round_equal : (d x y : ℕ) → d ≡ 0 → x ≡ y → u8 (bit_or d (bit_xor x y)) ≡ 0
round_equal d x y hd e = rw (hd, e, bit_xor_self) refl

cons_parts : {x y : ℕ} {xs ys : Bytes} → x ∷ xs ≡ y ∷ ys → (x ≡ y) × (xs ≡ ys)
cons_parts h = ground arith

-- The accumulator that `memcmp_loop` returns: 0 exactly where it began as 0 and the bytes agree.
record IsDifference (len d : ℕ) (b1 b2 : Bytes) (result : Option ℕ) : Type 0 where
  acc : ℕ
  returns : result ≡ some acc
  bound : acc < 256
  agree : acc ≡ 0 → (d ≡ 0) × (take len b1 ≡ take len b2)
  equal : d ≡ 0 → take len b1 ≡ take len b2 → acc ≡ 0

memcmp_loop_lem :
    (len d : ℕ) (b1 b2 : Bytes)
    → d < 256
    → IsBytes b1
    → IsBytes b2
    → len ≤ length b1
    → len ≤ length b2
    → IsDifference len d b1 b2 (memcmp_loop len d b1 b2)
unfolding memcmp_loop
memcmp_loop_lem zero d b1 b2 hd h1 h2 p q = record {
  acc = d;
  returns = refl;
  bound = hd;
  agree = λ e. (e, refl);
  equal = λ e _. e;
}
memcmp_loop_lem (suc len) d [] b2 hd h1 h2 p q = absurd (omega arith)
memcmp_loop_lem (suc len) d (x ∷ b1) [] hd h1 h2 p q = absurd (omega arith)
memcmp_loop_lem (suc len) d (x ∷ b1) (y ∷ b2) hd (hx, h1) (hy, h2) p q =
    let rest =
      memcmp_loop_lem len (u8 (bit_or d (bit_xor x y))) b1 b2 (omega arith) h1 h2 (omega arith)
        (omega arith) in
    record {
      acc = rest.acc;
      returns = rest.returns;
      bound = rest.bound;
      agree = λ e.
          let (z, same) = rest.agree e in
          let (old, head) = round_zero d x y hd hx hy z in (old, ap₂ ◌∷◌ head same);
      equal = λ e same.
          let (head, tails) = cons_parts same in rest.equal (round_equal d x y e head) tails;
    }

-- `sodium_memcmp` returns 0 where the first `len` bytes of both buffers agree, and -1 where they do
-- not; it reads nothing past two buffers of at least `len` bytes.
pub sodium_memcmp_lem :
    (b1 b2 : Bytes) (len : ℕ)
    → IsBytes b1
    → IsBytes b2
    → len ≤ length b1
    → len ≤ length b2
    → ((take len b1 ≡ take len b2) × (sodium_memcmp b1 b2 len ≡ some 0))
      ⊎ ((take len b1 ≢ take len b2) × (sodium_memcmp b1 b2 len ≡ some minus_one))
unfolding sodium_memcmp
sodium_memcmp_lem b1 b2 len h1 h2 p q =
    let run = memcmp_loop_lem len 0 b1 b2 (omega arith) h1 h2 p q in
    elim (ℕ_discrete run.acc 0) [
      | yes e ↦ inl ((run.agree e).1, rw (run.returns, e, is_zero_bit-zero) refl)
      | no ne ↦ inr (
        λ same. ne (run.equal refl same),
        rw (run.returns, is_zero_bit-pos run.acc (omega arith) run.bound) refl,
      )
    ]

is_zero_loop_lem :
    (nlen d : ℕ) (n : Bytes)
    → d < 256
    → IsBytes n
    → nlen ≤ length n
    → is_zero_loop nlen d n ≡ memcmp_loop nlen d n (replicate nlen 0)
unfolding is_zero_loop memcmp_loop
is_zero_loop_lem zero d n hd h p = refl
is_zero_loop_lem (suc nlen) d [] hd h p = refl
is_zero_loop_lem (suc nlen) d (x ∷ n) hd (hx, h) p =
    rw bit_xor-zero (is_zero_loop_lem nlen (u8 (bit_or d x)) n (omega arith) h (omega arith))

take-replicate : (n : ℕ) → take {A = ℕ} n (replicate n 0) ≡ replicate n 0
take-replicate zero = refl
take-replicate (suc n) = ap (λ t. 0 ∷ t) (take-replicate n)

pub replicate-IsBytes : (n : ℕ) → IsBytes (replicate n 0)
replicate-IsBytes zero = tt
replicate-IsBytes (suc n) = (omega arith, replicate-IsBytes n)

-- `sodium_is_zero` returns 1 where the first `nlen` bytes are all 0, and 0 where one is not.
pub sodium_is_zero_lem :
    (n : Bytes) (nlen : ℕ)
    → IsBytes n
    → nlen ≤ length n
    → ((take nlen n ≡ replicate nlen 0) × (sodium_is_zero n nlen ≡ some 1))
      ⊎ ((take nlen n ≢ replicate nlen 0) × (sodium_is_zero n nlen ≡ some 0))
unfolding sodium_is_zero
sodium_is_zero_lem n nlen h p =
    let all = take-replicate nlen in
    let run =
      memcmp_loop_lem nlen 0 n (replicate nlen 0) (omega arith) h (replicate-IsBytes nlen) p
        (omega (arith, length-replicate {A = ℕ} nlen 0)) in
    elim (ℕ_discrete run.acc 0) [
      | yes e ↦ inl (
        (run.agree e).1 ∙ all,
        rw (is_zero_loop_lem nlen 0 n (omega arith) h p, run.returns, e) is_zero_bit-zero',
      )
      | no ne ↦ inr (
        λ same. ne (run.equal refl (same ∙ sym all)),
        rw
            (
              is_zero_loop_lem nlen 0 n (omega arith) h p,
              run.returns,
              is_zero_bit-pos run.acc (omega arith) run.bound,
            )
            refl,
      )
    ]
  where
    is_zero_bit-zero' : ◌≡◌ {A = Option ℕ} (some (is_zero_bit 0)) (some 1)
    is_zero_bit-zero' = ap some is_zero_bit-zero
