-- ===== src/Utils/Compare/Ordering.antt =====
-- What `sodium_compare` of src/libsodium/sodium/utils.c decides.
use native.Mathlib.Decide.{ℕ_discrete}
use libsodium.Base.{
  ℕ, zero, suc, ◌+◌, ◌*◌, ◌%◌, ◌≤◌, ◌<◌, bit_and, bit_xor, some, [], ◌∷◌, ◌≡◌, ◌≢◌, ◌⊎◌, inl, inr,
  refl, arith, Bytes, IsBytes, length, take, drop, get_elem?, sub32, ◌>>>◌, sym, le_value,
}
use libsodium.Bits.Xor.{bit_xor-eq-zero, bit_xor-lt, bit_xor_self}
use libsodium.Bits.Or.{bit_or-zero, zero-bit_or}
use libsodium.Bits.And.{bit_and-mask, bit_and-zero, zero-bit_and, bit_and_comm}
use libsodium.Utils.Compare.{Flags, compare_step, compare_loop, sodium_compare, minus_one}

-- The flags of a comparison of `a` with `b` that is decided so far.
abbrev Decides : Flags → ℕ → ℕ → Type 0
Decides f a b =
    ((a ≡ b) × (f.gt ≡ 0) × (f.eq ≡ 1))
    ⊎ (((b < a) × (f.gt ≡ 1) × (f.eq ≡ 0)) ⊎ ((a < b) × (f.gt ≡ 0) × (f.eq ≡ 0)))

bit_and-one : (a : ℕ) → bit_and a 1 ≡ a % 2
bit_and-one a = bit_and-mask 1 a

module _ (x1 x2 : ℕ) (f : Flags) (h1 : x1 < 256) (h2 : x2 < 256) where
  -- While no difference was met, the flags are the borrow of a subtraction and a zero test.
  step_gt : f.gt ≡ 0 → f.eq ≡ 1 → (compare_step x1 x2 f).gt ≡ (sub32 x2 x1 >>> 8) % 2
  unfolding compare_step
  step_gt g e = rw (g, e, bit_and-one, zero-bit_or) (omega arith)

  step_eq : f.eq ≡ 1 → (compare_step x1 x2 f).eq ≡ (sub32 (bit_xor x2 x1) 1 >>> 8) % 2
  unfolding compare_step
  step_eq e = rw (e, bit_and_comm, bit_and-one) (omega arith)

  step_undecided : f.gt ≡ 0 → f.eq ≡ 1 → Decides (compare_step x1 x2 f) x1 x2
  step_undecided g e = elim (ℕ_discrete x1 x2) [
    | yes same ↦
        let none_set : bit_xor x2 x1 ≡ 0 = rw same (bit_xor_self x2) in
        inl (same, omega (arith, step_gt g e), omega (arith, step_eq e))
    | no differ ↦
        let small : bit_xor x2 x1 < 256 = bit_xor-lt 8 x2 x1 h2 h1 in
        let some_set : bit_xor x2 x1 ≢ 0 = λ z. differ (sym (bit_xor-eq-zero x2 x1 z)) in
        inr (ground (arith, step_gt g e, step_eq e))
  ]

  -- A decided comparison stays as it is.
  step_decided :
      f.eq ≡ 0 → f.gt < 256 → ((compare_step x1 x2 f).gt ≡ f.gt) × ((compare_step x1 x2 f).eq ≡ 0)
  unfolding compare_step
  step_decided e g =
      (rw (e, bit_and-zero, bit_or-zero) (omega arith), rw (e, zero-bit_and) (omega arith))

-- One round adds a more significant byte... read below it: the numbers are read from the top.
compare_step-Decides :
    (x1 x2 a b : ℕ) (f : Flags)
    → x1 < 256
    → x2 < 256
    → Decides f a b
    → Decides (compare_step x1 x2 f) (x1 + 256 * a) (x2 + 256 * b)
compare_step-Decides x1 x2 a b f h1 h2 (inl (same, g, e)) =
    ground (arith, step_undecided x1 x2 f h1 h2 g e)
compare_step-Decides x1 x2 a b f h1 h2 (inr (inl (more, g, e))) = inr (
    inl (
      omega arith,
      omega (arith, step_decided x1 x2 f h1 h2 e (omega arith)),
      omega (arith, step_decided x1 x2 f h1 h2 e (omega arith)),
    ))
compare_step-Decides x1 x2 a b f h1 h2 (inr (inr (less, g, e))) = inr (
    inr (
      omega arith,
      omega (arith, step_decided x1 x2 f h1 h2 e (omega arith)),
      omega (arith, step_decided x1 x2 f h1 h2 e (omega arith)),
    ))

-- The bytes from index `i` on, within the first `len`.
abbrev upper : ℕ → ℕ → Bytes → ℕ
upper i len b = le_value (drop i (take len b))

record HasByte (i : ℕ) (b : Bytes) (len : ℕ) : Type 0 where
  byte : ℕ
  reads : get_elem? b i ≡ some byte
  small : byte < 256
  value : upper i len b ≡ byte + 256 * upper (suc i) len b

has_byte : (i len : ℕ) (b : Bytes) → i < len → len ≤ length b → IsBytes b → HasByte i b len
has_byte i zero b p q h = absurd (omega arith)
has_byte i (suc len) [] p q h = absurd (omega arith)
has_byte zero (suc len) (x ∷ b) p q (hx, h) = record {
  byte = x;
  reads = refl;
  small = hx;
  value = refl;
}
has_byte (suc i) (suc len) (x ∷ b) p q (hx, h) =
    let r = has_byte i len b (omega arith) (omega arith) h in
    record { byte = r.byte; reads = r.reads; small = r.small; value = r.value }

module _ (b1 b2 : Bytes) (len : ℕ) (h1 : IsBytes b1) (h2 : IsBytes b2) (p : len ≤ length b1)
    (q : len ≤ length b2) where
  compare_loop_lem :
      (i : ℕ) (f : Flags)
      → i ≤ len
      → Decides f (upper i len b1) (upper i len b2)
      → (g : Flags) × (compare_loop i f b1 b2 ≡ some g)
        × Decides g (upper 0 len b1) (upper 0 len b2)
  unfolding compare_loop
  compare_loop_lem zero f below d = (f, refl, d)
  compare_loop_lem (suc i) f below d =
      let r1 = has_byte i len b1 below p h1 in
      let r2 = has_byte i len b2 below q h2 in
      let next : Decides (compare_step r1.byte r2.byte f) (upper i len b1) (upper i len b2) =
        rw (r1.value, r2.value) (compare_step-Decides r1.byte r2.byte _ _ f r1.small r2.small d) in
      let (g, run, done) = compare_loop_lem i (compare_step r1.byte r2.byte f) (omega arith) next in
      (g, rw (r1.reads, r2.reads) run, done)

drop_all : (n : ℕ) (b : Bytes) → drop n (take n b) ≡ []
drop_all zero b = refl
drop_all (suc n) [] = refl
drop_all (suc n) (x ∷ b) = drop_all n b

-- `sodium_compare` compares the first `len` bytes of two buffers as little-endian numbers: it
-- returns 0 where they are equal, 1 where the first is greater and -1 where it is less.
pub sodium_compare_lem :
    (b1 b2 : Bytes) (len : ℕ)
    → IsBytes b1
    → IsBytes b2
    → len ≤ length b1
    → len ≤ length b2
    → ((le_value (take len b1) ≡ le_value (take len b2)) × (sodium_compare b1 b2 len ≡ some 0))
      ⊎ (((le_value (take len b2) < le_value (take len b1)) × (sodium_compare b1 b2 len ≡ some 1))
          ⊎ ((le_value (take len b1) < le_value (take len b2))
              × (sodium_compare b1 b2 len ≡ some minus_one)))
unfolding sodium_compare
sodium_compare_lem b1 b2 len h1 h2 p q =
    let start : Decides (record { gt = 0; eq = 1 }) (upper len len b1) (upper len len b2) =
      inl (rw (drop_all len b1, drop_all len b2) refl, refl, refl) in
    let (g, run, done) =
      compare_loop_lem b1 b2 len h1 h2 p q len (record { gt = 0; eq = 1 }) (omega arith) start in
    rw run (finish g done)
  where
    finish :
        (g : Flags)
        → Decides g (le_value (take len b1)) (le_value (take len b2))
        → ((le_value (take len b1) ≡ le_value (take len b2))
            × (some (sub32 (g.gt + g.gt + g.eq) 1) ≡ some 0))
          ⊎ (((le_value (take len b2) < le_value (take len b1))
                × (some (sub32 (g.gt + g.gt + g.eq) 1) ≡ some 1))
              ⊎ ((le_value (take len b1) < le_value (take len b2))
                  × (some (sub32 (g.gt + g.gt + g.eq) 1) ≡ some minus_one)))
    finish g (inl (v, a, b)) = inl (v, rw (a, b) refl)
    finish g (inr (inl (v, a, b))) = inr (inl (v, rw (a, b) refl))
    finish g (inr (inr (v, a, b))) = inr (inr (v, rw (a, b) refl))
