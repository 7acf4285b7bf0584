-- ===== src/Poly1305/Polynomial.antt =====
-- src/libsodium/crypto_onetimeauth/poly1305/donna/poly1305_donna.c against Poly1305 as a polynomial:
-- the blocks of a message, each with a bit behind it, are the coefficients, the clamped first half
-- of the key is the point, and the second half is added modulo 2^128.
use native.Mathlib.Nat.{mod-add-div'}
use libsodium.Base.{
  ℕ, zero, suc, ◌+◌, ◌-◌, ◌*◌, ◌/◌, ◌%◌, ◌^◌, ◌<◌, ◌≤◌, ◌≡◌, refl, sym, ap, ◌∙◌, arith, Bytes,
  IsBytes, length, length-take, length-drop, length-append, length-replicate, IsByte, All-append,
  All-take, All-drop, pos→==0, le_value, take, drop, [], ◌∷◌, ◌++◌, take-append-drop, replicate,
  Bool, true, false,
}
use libsodium.Endian.Load.{le_value-append}
use libsodium.Poly1305.{State, add_block, block_round, finish_block}
use libsodium.Poly1305.Feed.{
  feed_all, feed_all-append, feed_short, feed_block, block_round_empty, block_round-keeps,
}
use libsodium.Poly1305.Update.{one_block}
use libsodium.Poly1305.Field.{
  value, prime, mod_drop, IsReduced, IsClamped, multiply-value, multiply-IsReduced,
}
use libsodium.Poly1305.Load.{top_bit, add_block-value, add_block-IsLoaded}

-- The polynomial at `r`, from the sum so far, over `n` blocks of 16 bytes and a shorter one.
unfoldable pub evaluate : ℕ → ℕ → ℕ → Bytes → ℕ
evaluate r acc zero [] = acc
evaluate r acc zero (x ∷ m) = (acc + (le_value (x ∷ m) + 256 ^ length (x ∷ m))) * r
evaluate r acc (suc n) m = evaluate r ((acc + (le_value (take 16 m) + 2 ^ 128)) * r) n (drop 16 m)

-- Numbers with one remainder by 2^130 - 5.
abbrev pub Same : ℕ → ℕ → Type 0
Same a b = a % prime ≡ b % prime

rest-Same : (a c r : ℕ) → Same ((a + c) * r) ((a % prime + c) * r)
rest-Same a c r = sym (
    mod_drop ((a % prime + c) * r) (a / prime * r)
      (omega (arith, ap (λ (t : ℕ). t * r) (mod-add-div' a prime))))

step-Same : (a b c r : ℕ) → Same a b → Same ((a + c) * r) ((b + c) * r)
step-Same a b c r same =
    rest-Same a c r ∙ (ap (λ (t : ℕ). (t + c) * r % prime) same ∙ sym (rest-Same b c r))

evaluate-Same : (r a b n : ℕ) (m : Bytes) → Same a b → Same (evaluate r a n m) (evaluate r b n m)
unfolding evaluate
evaluate-Same r a b zero [] same = same
evaluate-Same r a b zero (x ∷ m) same =
    step-Same a b (le_value (x ∷ m) + 256 ^ length (x ∷ m)) r same
evaluate-Same r a b (suc n) m same =
    let c = le_value (take 16 m) + 2 ^ 128 in
    evaluate-Same r ((a + c) * r) ((b + c) * r) n (drop 16 m) (step-Same a b c r same)

-- A state whose accumulator stands for a sum, with the key's parts as they were.
pub record Absorbs (st : State) (sum : ℕ) (out : State) : Type 0 where
  pub reduced : IsReduced out.h
  pub same : Same (value out.h) sum
  pub pad0_kept : out.pad0 ≡ st.pad0
  pub pad1_kept : out.pad1 ≡ st.pad1

module _ (st : State) (m : Bytes) (clamped : IsClamped st.r) (reduced : IsReduced st.h)
    (bytes : IsBytes m) (short : length m ≤ 16) where
  round-Absorbs :
      Absorbs st
        ((value st.h + (le_value m + 2 ^ 128 * top_bit st.final)) * value st.r)
        (block_round st m)
  unfolding block_round
  round-Absorbs =
      let h = add_block st.h st.final m in
      let loaded = add_block-IsLoaded st.h st.final m bytes reduced in
      record {
        reduced = multiply-IsReduced st.r h clamped loaded;
        same =
            multiply-value st.r h clamped loaded
            ∙ ap (λ (v : ℕ). v * value st.r % prime)
                (add_block-value st.h st.final m bytes reduced short);
        pad0_kept = refl;
        pad1_kept = refl;
      }

zeros-value : (n : ℕ) → le_value (replicate n 0) ≡ 0
zeros-value zero = refl
zeros-value (suc n) = omega (arith, zeros-value n)

zeros-IsBytes : (n : ℕ) → IsBytes (replicate n 0)
zeros-IsBytes zero = record {}
zeros-IsBytes (suc n) = (omega arith, zeros-IsBytes n)

-- A short block, with its byte 1 and zeros behind it.
padded : Bytes → Bytes
padded b = b ++ 1 ∷ replicate (15 - length b) 0

length-padded : (b : Bytes) → length b < 16 → length (padded b) ≡ 16
unfolding padded
length-padded b short = omega (
  arith,
  length-append b (1 ∷ replicate (15 - length b) 0),
  length-replicate {A = ℕ} (15 - length b) 0,
)

padded-value : (b : Bytes) → le_value (padded b) ≡ le_value b + 256 ^ length b
unfolding padded
padded-value b = omega (
  arith,
  le_value-append b (1 ∷ replicate (15 - length b) 0),
  ap (λ (v : ℕ). 256 ^ length b * (1 + 256 * v)) (zeros-value (15 - length b)),
)

padded-IsBytes : (b : Bytes) → IsBytes b → IsBytes (padded b)
unfolding padded
padded-IsBytes b bytes =
    All-append IsByte b (1 ∷ replicate (15 - length b) 0) bytes
      (omega arith, zeros-IsBytes (15 - length b))

finish_block-Absorbs :
    (st : State) (b : Bytes)
    → IsClamped st.r
    → IsReduced st.h
    → IsBytes b
    → length b < 16
    → Absorbs st (evaluate (value st.r) (value st.h) 0 b) (finish_block (record st { buffer = b }))
unfolding finish_block evaluate padded top_bit
finish_block-Absorbs st [] clamped reduced bytes short = record {
  reduced = reduced;
  same = refl;
  pad0_kept = refl;
  pad1_kept = refl;
}
finish_block-Absorbs st (x ∷ b) clamped reduced bytes short =
    let block = padded (x ∷ b) in
    let st' = record st { buffer = block; final = true } in
    let sixteen = length-padded (x ∷ b) short in
    let done =
      round-Absorbs st' block clamped reduced (padded-IsBytes (x ∷ b) bytes) (omega arith) in
    let sum : le_value block + 2 ^ 128 * top_bit true ≡ le_value (x ∷ b) + 256 ^ length (x ∷ b) =
      omega (arith, padded-value (x ∷ b)) in
    rw (pos→==0 (length (x ∷ b)) (omega arith), one_block st' block sixteen)
      (record {
        reduced = done.reduced;
        same = done.same ∙ ap (λ (v : ℕ). (value st.h + v) * value st.r % prime) sum;
        pad0_kept = done.pad0_kept;
        pad1_kept = done.pad1_kept;
      })

trans-Absorbs :
    (st mid out : State) (a b : ℕ)
    → mid.pad0 ≡ st.pad0
    → mid.pad1 ≡ st.pad1
    → Same a b
    → Absorbs mid a out
    → Absorbs st b out
trans-Absorbs st mid out a b p0 p1 same done = record {
  reduced = done.reduced;
  same = done.same ∙ same;
  pad0_kept = done.pad0_kept ∙ p0;
  pad1_kept = done.pad1_kept ∙ p1;
}

-- A message from a block boundary on, then the last block.
pub feed_all-Absorbs :
    (n : ℕ) (st : State) (m : Bytes)
    → st.buffer ≡ []
    → st.final ≡ false
    → IsClamped st.r
    → IsReduced st.h
    → IsBytes m
    → length m / 16 ≡ n
    → Absorbs st (evaluate (value st.r) (value st.h) n m) (finish_block (feed_all st m))
unfolding evaluate block_round top_bit
feed_all-Absorbs zero st m empty open_ clamped reduced bytes few =
    let none_kept : length st.buffer ≡ 0 = ap (λ (b : Bytes). length b) empty in
    let kept : feed_all st m ≡ record st { buffer = m } =
      feed_short st m (omega arith) ∙ ap (λ (b : Bytes). record st { buffer = b ++ m }) empty in
    rw kept (finish_block-Absorbs st m clamped reduced bytes (omega arith))
feed_all-Absorbs (suc n) st m empty open_ clamped reduced bytes many =
    let first = take 16 m in
    let rest = drop 16 m in
    let st' = block_round st first in
    let none_kept : length st.buffer ≡ 0 = ap (λ (b : Bytes). length b) empty in
    let sixteen : length first ≡ 16 = omega (arith, length-take 16 m) in
    let step : feed_all st m ≡ feed_all st' rest =
      ap (feed_all st) (sym (take-append-drop 16 m))
      ∙ (feed_all-append st first rest
          ∙ ap (λ (s : State). feed_all s rest)
              (feed_block st first (omega arith) (omega arith)
                ∙ block_round_empty st first empty)) in
    let once = round-Absorbs st first clamped reduced (All-take IsByte 16 m bytes) (omega arith) in
    let sum =
      evaluate-Same (value st.r) (value st'.h)
        ((value st.h + (le_value first + 2 ^ 128)) * value st.r) n rest
        (once.same
          ∙ ap
              (λ (f : Bool).
                (value st.h + (le_value first + 2 ^ 128 * top_bit f)) * value st.r % prime)
              open_) in
    rw step (
      trans-Absorbs st st' (finish_block (feed_all st' rest))
        (evaluate (value st.r) (value st'.h) n rest) (evaluate (value st.r) (value st.h) (suc n) m)
        once.pad0_kept once.pad1_kept sum
        (feed_all-Absorbs n st' rest (block_round-keeps st first ∙ empty) open_ clamped once.reduced
          (All-drop IsByte 16 m bytes) (omega (arith, length-drop 16 m))))
