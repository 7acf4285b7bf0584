-- ===== src/Poly1305/Field.antt =====
-- src/libsodium/crypto_onetimeauth/poly1305/donna/poly1305_donna64.h as arithmetic modulo 2^130 - 5:
-- the number that three limbs stand for, and one product with its partial reduction.
use native.Mathlib.Nat.{mul-le-mul, add-mul-mod_self_right}
use libsodium.Base.{
  ℕ, ◌+◌, ◌*◌, ◌/◌, ◌%◌, ◌^◌, ◌<◌, ◌≤◌, bit_and, ◌≡◌, refl, sym, ap, ◌∙◌, arith, u64, u128, ◌>>>◌,
}
use libsodium.Bits.And.{bit_and-mask}
use libsodium.Poly1305.{Limbs, multiply, mask44, mask42}

-- 2^130 - 5.
abbrev pub prime : ℕ
prime = 0x3fffffffffffffffffffffffffffffffb

abbrev pub value : Limbs → ℕ
value h = h.l0 + 2 ^ 44 * h.l1 + 2 ^ 88 * h.l2

-- The limbs between two rounds, those with a block added, and those of a clamped key.
pub record IsReduced (h : Limbs) : Type 0 where
  pub below0 : h.l0 < 2 ^ 44
  pub below1 : h.l1 < 2 ^ 44 + 2 ^ 9
  pub below2 : h.l2 < 2 ^ 42

pub record IsLoaded (h : Limbs) : Type 0 where
  pub below0 : h.l0 < 2 ^ 45
  pub below1 : h.l1 < 2 ^ 46
  pub below2 : h.l2 < 2 ^ 43

pub record IsClamped (r : Limbs) : Type 0 where
  pub below0 : r.l0 < 2 ^ 44
  pub below1 : r.l1 < 2 ^ 44
  pub below2 : r.l2 < 2 ^ 36

pub bit_and-mask44 : (a : ℕ) → bit_and a mask44 ≡ a % 2 ^ 44
bit_and-mask44 a = bit_and-mask 44 a

pub bit_and-mask42 : (a : ℕ) → bit_and a mask42 ≡ a % 2 ^ 42
bit_and-mask42 a = bit_and-mask 42 a

pub mod_drop : (a k : ℕ) {b : ℕ} → a + k * prime ≡ b → a % prime ≡ b % prime
mod_drop a k e = sym (add-mul-mod_self_right a k prime) ∙ ap (λ (n : ℕ). n % prime) e

-- The carries of `multiply`, over the three sums of products.
carries : ℕ → ℕ → ℕ → Limbs
carries d0 d1 d2 =
    let c0 = d0 / 2 ^ 44 in
    let c1 = (d1 + c0) / 2 ^ 44 in
    let c2 = (d2 + c1) / 2 ^ 42 in
    let h0 = d0 % 2 ^ 44 + c2 * 5 in
    record { l0 = h0 % 2 ^ 44; l1 = (d1 + c0) % 2 ^ 44 + h0 / 2 ^ 44; l2 = (d2 + c1) % 2 ^ 42 }

word_carries : ℕ → ℕ → ℕ → Limbs
word_carries d0 d1 d2 =
    let c0 = u64 (d0 >>> 44) in
    let h0 = bit_and (u64 d0) mask44 in
    let d1 = u128 (d1 + c0) in
    let c1 = u64 (d1 >>> 44) in
    let h1 = bit_and (u64 d1) mask44 in
    let d2 = u128 (d2 + c1) in
    let c2 = u64 (d2 >>> 42) in
    let h2 = bit_and (u64 d2) mask42 in
    let h0 = u64 (h0 + u64 (c2 * 5)) in
    let c3 = h0 >>> 44 in record { l0 = bit_and h0 mask44; l1 = u64 (h1 + c3); l2 = h2 }

pub limbs_≡ : {a b : Limbs} → a.l0 ≡ b.l0 → a.l1 ≡ b.l1 → a.l2 ≡ b.l2 → a ≡ b
limbs_≡ p q r i = record { l0 = p i; l1 = q i; l2 = r i }

word_carries_lem :
    (d0 d1 d2 : ℕ)
    → d0 < 2 ^ 93
    → d1 < 2 ^ 93
    → d2 < 2 ^ 92
    → word_carries d0 d1 d2 ≡ carries d0 d1 d2
unfolding word_carries carries
word_carries_lem d0 d1 d2 b0 b1 b2 =
    let c0 = d0 / 2 ^ 44 in
    let c1 = (d1 + c0) / 2 ^ 44 in
    let c2 = (d2 + c1) / 2 ^ 42 in
    let h0 = d0 % 2 ^ 44 + c2 * 5 in
    let e0 : u64 (d0 >>> 44) ≡ c0 = omega arith in
    let f0 : bit_and (u64 d0) mask44 ≡ d0 % 2 ^ 44 = bit_and-mask44 (u64 d0) ∙ omega arith in
    let g1 : u128 (d1 + c0) ≡ d1 + c0 = omega arith in
    let e1 : u64 ((d1 + c0) >>> 44) ≡ c1 = omega arith in
    let f1 : bit_and (u64 (d1 + c0)) mask44 ≡ (d1 + c0) % 2 ^ 44 =
      bit_and-mask44 (u64 (d1 + c0)) ∙ omega arith in
    let g2 : u128 (d2 + c1) ≡ d2 + c1 = omega arith in
    let e2 : u64 ((d2 + c1) >>> 42) ≡ c2 = omega arith in
    let f2 : bit_and (u64 (d2 + c1)) mask42 ≡ (d2 + c1) % 2 ^ 42 =
      bit_and-mask42 (u64 (d2 + c1)) ∙ omega arith in
    let e3 : u64 (d0 % 2 ^ 44 + u64 (c2 * 5)) ≡ h0 = omega arith in
    let e4 : u64 ((d1 + c0) % 2 ^ 44 + h0 / 2 ^ 44) ≡ (d1 + c0) % 2 ^ 44 + h0 / 2 ^ 44 =
      omega arith in
    rw (e0, f0, g1, e1, f1, g2, e2, f2, e3, e4, bit_and-mask44 h0) refl

carries-IsReduced :
    (d0 d1 d2 : ℕ) → d0 < 2 ^ 93 → d1 < 2 ^ 93 → d2 < 2 ^ 92 → IsReduced (carries d0 d1 d2)
unfolding carries
carries-IsReduced d0 d1 d2 b0 b1 b2 = record {
  below0 = omega arith;
  below1 = omega arith;
  below2 = omega arith;
}

-- What the carries remove is a multiple of 2^130 - 5.
carries-value :
    (d0 d1 d2 : ℕ)
    → value (carries d0 d1 d2) + (d2 + (d1 + d0 / 2 ^ 44) / 2 ^ 44) / 2 ^ 42 * prime
      ≡ d0 + 2 ^ 44 * d1 + 2 ^ 88 * d2
unfolding carries
carries-value d0 d1 d2 = omega arith

-- The three sums of products, which fit 128 bits.
dot : ℕ → ℕ → ℕ → ℕ → ℕ → ℕ → ℕ
dot a0 b0 a1 b1 a2 b2 = a0 * b0 + a1 * b1 + a2 * b2

dot-lt :
    (a0 b0 a1 b1 a2 b2 : ℕ) {m0 n0 m1 n1 m2 n2 : ℕ}
    → a0 ≤ m0
    → b0 ≤ n0
    → a1 ≤ m1
    → b1 ≤ n1
    → a2 ≤ m2
    → b2 ≤ n2
    → dot a0 b0 a1 b1 a2 b2 ≤ m0 * n0 + m1 * n1 + m2 * n2
unfolding dot
dot-lt a0 b0 a1 b1 a2 b2 x0 y0 x1 y1 x2 y2 =
    omega (arith, mul-le-mul x0 y0, mul-le-mul x1 y1, mul-le-mul x2 y2)

u128-dot :
    (a0 b0 a1 b1 a2 b2 : ℕ)
    → dot a0 b0 a1 b1 a2 b2 < 2 ^ 128
    → u128 (u128 (a0 * b0 + a1 * b1) + a2 * b2) ≡ dot a0 b0 a1 b1 a2 b2
unfolding dot
u128-dot a0 b0 a1 b1 a2 b2 small =
    let inner : u128 (a0 * b0 + a1 * b1) ≡ a0 * b0 + a1 * b1 = omega arith in rw inner omega arith

module _ (r h : Limbs) (clamped : IsClamped r) (loaded : IsLoaded h) where
  sum0 : ℕ
  sum0 = dot h.l0 r.l0 h.l1 (r.l2 * 20) h.l2 (r.l1 * 20)

  sum1 : ℕ
  sum1 = dot h.l0 r.l1 h.l1 r.l0 h.l2 (r.l2 * 20)

  sum2 : ℕ
  sum2 = dot h.l0 r.l2 h.l1 r.l1 h.l2 r.l0

  sum0-lt : sum0 < 2 ^ 93
  unfolding sum0
  sum0-lt = omega (
    arith,
    dot-lt h.l0 r.l0 h.l1 (r.l2 * 20) h.l2 (r.l1 * 20) {m0 = 2 ^ 45} {n0 = 2 ^ 44} {m1 = 2 ^ 46}
        {n1 = 2 ^ 41} {m2 = 2 ^ 43} {n2 = 2 ^ 49} (omega arith) (omega arith) (omega arith)
        (omega arith) (omega arith) (omega arith),
  )

  sum1-lt : sum1 < 2 ^ 93
  unfolding sum1
  sum1-lt = omega (
    arith,
    dot-lt h.l0 r.l1 h.l1 r.l0 h.l2 (r.l2 * 20) {m0 = 2 ^ 45} {n0 = 2 ^ 44} {m1 = 2 ^ 46}
        {n1 = 2 ^ 44} {m2 = 2 ^ 43} {n2 = 2 ^ 41} (omega arith) (omega arith) (omega arith)
        (omega arith) (omega arith) (omega arith),
  )

  sum2-lt : sum2 < 2 ^ 92
  unfolding sum2
  sum2-lt = omega (
    arith,
    dot-lt h.l0 r.l2 h.l1 r.l1 h.l2 r.l0 {m0 = 2 ^ 45} {n0 = 2 ^ 36} {m1 = 2 ^ 46} {n1 = 2 ^ 44}
        {m2 = 2 ^ 43} {n2 = 2 ^ 44} (omega arith) (omega arith) (omega arith) (omega arith)
        (omega arith) (omega arith),
  )

  multiply-carries : multiply r h ≡ carries sum0 sum1 sum2
  unfolding multiply word_carries sum0 sum1 sum2
  multiply-carries =
      let s1 : u64 (r.l1 * 20) ≡ r.l1 * 20 = omega arith in
      let s2 : u64 (r.l2 * 20) ≡ r.l2 * 20 = omega arith in
      let d0 = u128-dot h.l0 r.l0 h.l1 (r.l2 * 20) h.l2 (r.l1 * 20) (omega (arith, sum0-lt)) in
      let d1 = u128-dot h.l0 r.l1 h.l1 r.l0 h.l2 (r.l2 * 20) (omega (arith, sum1-lt)) in
      let d2 = u128-dot h.l0 r.l2 h.l1 r.l1 h.l2 r.l0 (omega (arith, sum2-lt)) in
      rw (s1, s2, d0, d1, d2) (word_carries_lem sum0 sum1 sum2 sum0-lt sum1-lt sum2-lt)

  pub multiply-IsReduced : IsReduced (multiply r h)
  multiply-IsReduced =
      rw multiply-carries (carries-IsReduced sum0 sum1 sum2 sum0-lt sum1-lt sum2-lt)

  -- The two sides differ by a multiple of 2^130 - 5 = (2^132 - 20) / 4.
  sums-value :
      sum0
        + 2 ^ 44 * sum1
        + 2 ^ 88 * sum2
        + 4 * (h.l1 * r.l2 + h.l2 * r.l1 + 2 ^ 44 * (h.l2 * r.l2)) * prime
      ≡ value h * value r
  unfolding sum0 sum1 sum2 dot
  sums-value = omega arith

  pub multiply-value : value (multiply r h) % prime ≡ value h * value r % prime
  multiply-value =
      let q = (sum2 + (sum1 + sum0 / 2 ^ 44) / 2 ^ 44) / 2 ^ 42 in
      let k = 4 * (h.l1 * r.l2 + h.l2 * r.l1 + 2 ^ 44 * (h.l2 * r.l2)) in
      ap (λ (l : Limbs). value l % prime) multiply-carries
      ∙ (mod_drop (value (carries sum0 sum1 sum2)) q (carries-value sum0 sum1 sum2)
          ∙ mod_drop (sum0 + 2 ^ 44 * sum1 + 2 ^ 88 * sum2) k sums-value)

-- For a clamped key and an accumulator with a block added, `multiply` keeps the limbs within the
-- bounds between two rounds and gives the product modulo 2^130 - 5.
pub multiply_lem :
    (r h : Limbs)
    → IsClamped r
    → IsLoaded h
    → IsReduced (multiply r h) × (value (multiply r h) % prime ≡ value h * value r % prime)
multiply_lem r h clamped loaded =
    (multiply-IsReduced r h clamped loaded, multiply-value r h clamped loaded)
