-- ===== src/Fe25519/Power/Laws.antt =====
-- The addition chains of `fe25519_pow22523` and `fe25519_notsquare`: the exponents they reach.
use native.Mathlib.Nat.{pow-suc, add-suc, add-zero}
use libsodium.Base.{ℕ, zero, suc, ◌+◌, ◌-◌, ◌*◌, ◌^◌, ◌≡◌, refl, ap, arith}
use libsodium.Fe25519.{Fe25519, fe25519_mul, fe25519_sq}
use libsodium.Fe25519.Congruence.{◌≋◌, of_≡, transitive, mul_cong}
use libsodium.Fe25519.Represents.{Represents, product_bound, change, mul_rule, sq_rule}
use libsodium.Fe25519.Power.{sq_times, fe25519_sqmul, fe25519_pow22523, notsquare_power}

-- `a` multiplied `n` times, a number that is never computed.
pub power : ℕ → ℕ → ℕ
power a zero = 1
power a (suc n) = power a n * a

pub power-add : (a m n : ℕ) → power a m * power a n ≡ power a (m + n)
unfolding power
power-add a m zero = omega (arith, ap (λ (k : ℕ). power a k) (add-zero m))
power-add a m (suc n) =
    omega (arith, ap (λ (t : ℕ). t * a) (power-add a m n), ap (λ (k : ℕ). power a k) (add-suc m n))

pub power-zero : (a : ℕ) → power a 0 ≡ 1
unfolding power
power-zero a = refl

pub power-one : (a : ℕ) → power a 1 ≡ a
unfolding power
power-one a = omega arith

-- The powers of a square root of 1 square to 1.
pub power-square : (a n : ℕ) → a * a ≋ 1 → power a n * power a n ≋ 1
unfolding power
power-square a zero root = of_≡ refl
power-square a (suc n) root =
    let apart : power a n * a * (power a n * a) ≡ power a n * power a n * (a * a) = omega arith in
    transitive (of_≡ apart) (mul_cong (power-square a n root) root)

-- The limbs `f` stand for the power `n` of `a`.
pub record HasPower (a n : ℕ) (f : Fe25519) : Type 0 where
  pub run : Represents product_bound f (power a n)

pub mul_power :
    {a m n : ℕ} {f g : Fe25519}
    → HasPower a m f
    → HasPower a n g
    → HasPower a (m + n) (fe25519_mul f g)
mul_power {a = a} {m = m} {n = n} p q = record {
  run = change (of_≡ (power-add a m n)) (mul_rule (omega arith) (omega arith) p.run q.run);
}

sq_power : {a n : ℕ} {f : Fe25519} → HasPower a n f → HasPower a (n + n) (fe25519_sq f)
sq_power {a = a} {n = n} p = record {
  run = change (of_≡ (power-add a n n)) (sq_rule (omega arith) p.run);
}

-- A sum of exponents may be written another way.
exponent : {a m n : ℕ} {f : Fe25519} → m ≡ n → HasPower a m f → HasPower a n f
exponent {a = a} e p = record { run = change (of_≡ (ap (λ (k : ℕ). power a k) e)) p.run }

sq_times_power :
    (k : ℕ) {a n : ℕ} {f : Fe25519} → HasPower a n f → HasPower a (2 ^ k * n) (sq_times k f)
unfolding sq_times
sq_times_power zero p = exponent (omega arith) p
sq_times_power (suc k) {n = n} p =
    exponent (omega (arith, ap (λ (t : ℕ). t * n) (pow-suc 2 k))) (sq_times_power k (sq_power p))

sqmul_power :
    (k : ℕ) {a m n : ℕ} {f g : Fe25519}
    → HasPower a m f
    → HasPower a n g
    → HasPower a (2 ^ k * m + n) (fe25519_sqmul f k g)
unfolding fe25519_sqmul
sqmul_power k p q = mul_power (sq_times_power k p) q

-- `fe25519_pow22523` raises to the power 2^252 - 3, which is (p - 5) / 8.
pub pow22523_chain :
    {z : Fe25519} {a : ℕ} → HasPower a 1 z → HasPower a (2 ^ 252 - 3) (fe25519_pow22523 z)
unfolding fe25519_pow22523
pow22523_chain z =
    let t0 = sq_power z in
    let t1 = sq_power (sq_power t0) in
    let t1 = mul_power z t1 in
    let t0 = mul_power t0 t1 in
    let t0 = sq_power t0 in
    let t0 = mul_power t1 t0 in
    let t1 = sq_times_power 4 (sq_power t0) in
    let t0 = mul_power t1 t0 in
    let t1 = sq_times_power 9 (sq_power t0) in
    let t1 = mul_power t1 t0 in
    let t2 = sq_times_power 19 (sq_power t1) in
    let t1 = mul_power t2 t1 in
    let t1 = sq_times_power 10 t1 in
    let t0 = mul_power t1 t0 in
    let t1 = sq_times_power 49 (sq_power t0) in
    let t1 = mul_power t1 t0 in
    let t2 = sq_times_power 99 (sq_power t1) in
    let t1 = mul_power t2 t1 in
    let t1 = sq_times_power 50 t1 in
    let t0 = mul_power t1 t0 in let t0 = sq_power (sq_power t0) in mul_power t0 z

-- `fe25519_notsquare` raises to the power 2^254 - 10, which is (p - 1) / 2.
pub notsquare_chain :
    {x : Fe25519} {a : ℕ} → HasPower a 1 x → HasPower a (2 ^ 254 - 10) (notsquare_power x)
unfolding notsquare_power
notsquare_chain x =
    let two = mul_power x x in
    let three = mul_power x two in
    let twelve = sq_power (sq_power three) in
    let fifteen = mul_power three twelve in
    let shifted = sq_power (sq_power (sq_power (sq_power fifteen))) in
    let t = mul_power fifteen shifted in
    let u = sqmul_power 2 t three in
    let t = sqmul_power 10 u u in
    let t = sqmul_power 10 t u in
    let t = sqmul_power 30 t t in
    let t = sqmul_power 60 t t in
    let t = sqmul_power 120 t t in
    let t = sqmul_power 10 t u in let t = sqmul_power 3 t three in sq_power t
