-- ===== src/Endian/Load.antt =====
-- The loads of src/libsodium/include/sodium/private/common.h as little-endian numbers.
use libsodium.Base.{
  ℕ, zero, suc, ◌+◌, ◌*◌, ◌^◌, ◌<◌, ◌≤◌, bit_or, [], ◌∷◌, ◌≡◌, refl, sym, ap, ◌∙◌, arith, Bytes,
  IsBytes, length, drop, take, ◌++◌, get_or, le_value, ◌<<<◌,
}
use native.Mathlib.Nat.{pow-suc, zero-add, suc-add, add-suc}
use libsodium.Bits.Or.{bit_or-field, bit_or_comm}
use libsodium.Endian.{load64_le, store64_le}

-- The number of the `n` bytes from an index on, those past the end being 0.
abbrev pub digits : ℕ → Bytes → ℕ → ℕ
digits zero src at = 0
digits (suc n) src at = get_or src at 0 + 256 * digits n src (suc at)

pub get_or-lt : (src : Bytes) (at : ℕ) → IsBytes src → get_or src at 0 < 256
get_or-lt [] at h = omega arith
get_or-lt (x ∷ src) zero (hx, h) = hx
get_or-lt (x ∷ src) (suc at) (hx, h) = get_or-lt src at h

-- One more byte on top of `width` bits.
load_step : (width low b : ℕ) → low < 2 ^ width → bit_or low (b <<< width) ≡ low + 2 ^ width * b
load_step width low b small =
    bit_or_comm low (b <<< width) ∙ (bit_or-field width b low small ∙ omega arith)

-- The eight bytes of a 64-bit load.
abbrev pub word_at : Bytes → ℕ → ℕ
word_at src at =
    get_or src at 0
    + 2 ^ 8 * get_or src (at + 1) 0
    + 2 ^ 16 * get_or src (at + 2) 0
    + 2 ^ 24 * get_or src (at + 3) 0
    + 2 ^ 32 * get_or src (at + 4) 0
    + 2 ^ 40 * get_or src (at + 5) 0
    + 2 ^ 48 * get_or src (at + 6) 0
    + 2 ^ 56 * get_or src (at + 7) 0

pub load64_le_lem : (src : Bytes) (at : ℕ) → IsBytes src → load64_le src at ≡ word_at src at
unfolding load64_le
load64_le_lem src at h =
    let h0 = get_or-lt src at h in
    let h1 = get_or-lt src (at + 1) h in
    let h2 = get_or-lt src (at + 2) h in
    let h3 = get_or-lt src (at + 3) h in
    let h4 = get_or-lt src (at + 4) h in
    let h5 = get_or-lt src (at + 5) h in
    let h6 = get_or-lt src (at + 6) h in
    let b0 = get_or src at 0 in
    let b1 = get_or src (at + 1) 0 in
    let b2 = get_or src (at + 2) 0 in
    let b3 = get_or src (at + 3) 0 in
    let b4 = get_or src (at + 4) 0 in
    let b5 = get_or src (at + 5) 0 in
    let b6 = get_or src (at + 6) 0 in
    let w1 = b0 + 2 ^ 8 * b1 in
    let e1 : bit_or b0 (b1 <<< 8) ≡ w1 = load_step 8 b0 b1 (omega arith) in
    let w2 = w1 + 2 ^ 16 * b2 in
    let e2 : bit_or w1 (b2 <<< 16) ≡ w2 = load_step 16 w1 b2 (omega arith) in
    let w3 = w2 + 2 ^ 24 * b3 in
    let e3 : bit_or w2 (b3 <<< 24) ≡ w3 = load_step 24 w2 b3 (omega arith) in
    let w4 = w3 + 2 ^ 32 * b4 in
    let e4 : bit_or w3 (b4 <<< 32) ≡ w4 = load_step 32 w3 b4 (omega arith) in
    let w5 = w4 + 2 ^ 40 * b5 in
    let e5 : bit_or w4 (b5 <<< 40) ≡ w5 = load_step 40 w4 b5 (omega arith) in
    let w6 = w5 + 2 ^ 48 * b6 in
    let e6 : bit_or w5 (b6 <<< 48) ≡ w6 = load_step 48 w5 b6 (omega arith) in
    rw (e1, e2, e3, e4, e5, e6) (load_step 56 w6 (get_or src (at + 7) 0) (omega arith))

pub load64_le-lt : (src : Bytes) (at : ℕ) → IsBytes src → load64_le src at < 2 ^ 64
load64_le-lt src at h = omega (
  arith,
  load64_le_lem src at h,
  get_or-lt src at h,
  get_or-lt src (at + 1) h,
  get_or-lt src (at + 2) h,
  get_or-lt src (at + 3) h,
  get_or-lt src (at + 4) h,
  get_or-lt src (at + 5) h,
  get_or-lt src (at + 6) h,
  get_or-lt src (at + 7) h,
)

drop_step :
    (xs : Bytes) (at : ℕ)
    → le_value (drop at xs) ≡ get_or xs at 0 + 256 * le_value (drop (suc at) xs)
drop_step [] zero = refl
drop_step [] (suc at) = refl
drop_step (x ∷ xs) zero = refl
drop_step (x ∷ xs) (suc at) = drop_step xs at

-- A string is its first `n` bytes and the rest.
pub digits_split :
    (n : ℕ) (xs : Bytes) (at : ℕ)
    → le_value (drop at xs) ≡ digits n xs at + 256 ^ n * le_value (drop (n + at) xs)
digits_split zero xs at = omega (arith, ap (λ (k : ℕ). le_value (drop k xs)) (zero-add at))
digits_split (suc n) xs at =
    let rest = le_value (drop (suc n + at) xs) in
    let next : le_value (drop (n + suc at) xs) ≡ rest =
      ap (λ (k : ℕ). le_value (drop k xs)) (add-suc n at ∙ sym (suc-add n at)) in
    omega (
      arith,
      drop_step xs at,
      digits_split n xs (suc at),
      ap (λ (t : ℕ). 256 ^ n * t) next,
      ap (λ (p : ℕ). p * rest) (pow-suc 256 n),
    )

drop_all : (n : ℕ) (xs : Bytes) → length xs ≤ n → drop n xs ≡ []
drop_all zero [] h = refl
drop_all zero (x ∷ xs) h = absurd (omega arith)
drop_all (suc n) [] h = refl
drop_all (suc n) (x ∷ xs) h = drop_all n xs (omega arith)

-- Two loads read a string of at most 16 bytes, zeros following it.
pub load64_le_pair :
    (m : Bytes) → IsBytes m → length m ≤ 16 → load64_le m 0 + 2 ^ 64 * load64_le m 8 ≡ le_value m
load64_le_pair m h short =
    let nothing : le_value (drop 16 m) ≡ 0 =
      ap (λ (xs : Bytes). le_value xs) (drop_all 16 m short) in
    rw (load64_le_lem m 0 h, load64_le_lem m 8 h)
      (omega (arith, digits_split 8 m 0, digits_split 8 m 8))

pub le_value-store64_le : (w : ℕ) → w < 2 ^ 64 → le_value (store64_le w) ≡ w
unfolding store64_le
le_value-store64_le w small = omega arith

pub le_value-append : (a b : Bytes) → le_value (a ++ b) ≡ le_value a + 256 ^ length a * le_value b
le_value-append [] b = omega arith
le_value-append (x ∷ a) b =
    omega (arith, le_value-append a b, ap (λ (p : ℕ). p * le_value b) (pow-suc 256 (length a)))

pub le_value-take :
    (n : ℕ) (xs : Bytes) → le_value xs ≡ le_value (take n xs) + 256 ^ n * le_value (drop n xs)
le_value-take zero xs = omega arith
le_value-take (suc n) [] = omega arith
le_value-take (suc n) (x ∷ xs) =
    omega (arith, le_value-take n xs, ap (λ (p : ℕ). p * le_value (drop n xs)) (pow-suc 256 n))

-- The two loads from an index on, where at least 16 bytes follow or the string ends.
pub load64_le_lower :
    (m : Bytes) → IsBytes m → load64_le m 0 + 2 ^ 64 * load64_le m 8 ≡ le_value (take 16 m)
load64_le_lower m h =
    rw (load64_le_lem m 0 h, load64_le_lem m 8 h)
      (omega (arith, digits_split 8 m 0, digits_split 8 m 8, le_value-take 16 m))

pub load64_le_upper :
    (m : Bytes)
    → IsBytes m
    → length m ≤ 32
    → load64_le m 16 + 2 ^ 64 * load64_le m 24 ≡ le_value (drop 16 m)
load64_le_upper m h short =
    let nothing : le_value (drop 32 m) ≡ 0 =
      ap (λ (xs : Bytes). le_value xs) (drop_all 32 m short) in
    rw (load64_le_lem m 16 h, load64_le_lem m 24 h)
      (omega (arith, digits_split 8 m 16, digits_split 8 m 24))
