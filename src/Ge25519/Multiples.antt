-- ===== src/Ge25519/Multiples.antt =====
-- `ge25519_p3_dbladd`, `ge25519_mul_l` and `ge25519_is_on_main_subgroup` of
-- src/libsodium/crypto_core/ed25519/ref10/ed25519_ref10.c over the multiples of a point.
use native.Mathlib.Nat.{pow-suc}
use mathlib.Core.Path.{subst}
use libsodium.Base.{ℕ, zero, suc, ◌+◌, ◌-◌, ◌*◌, ◌^◌, ◌≤◌, ◌≡◌, ap, arith}
use libsodium.Ge25519.{
  Ge25519P2, Ge25519P3, Ge25519P1p1, ge25519_p3p3_dbl, ge25519_p3_add, ge25519_p3_dbladd, dbl_times,
}
use libsodium.Ge25519.Subgroup.{ge25519_mul_l}
use libsodium.Ge25519.Edwards.{IsOnCurve, IsSum, IsPoint, IsPoint2, IsCompleted}
use libsodium.Ge25519.Addition.{p1p1_to_p3-IsPoint, p1p1_to_p2-IsPoint2}
use libsodium.Ge25519.Points.{
  ge25519_p3_add_lem, ge25519_p3p3_dbl_lem, p2_dbl_double, p3_to_p2-IsPoint2,
}

-- The multiples of a point of the curve: (x n, y n) is n times (x 1, y 1) by the addition law, whose
-- denominators are all invertible.
pub record AreMultiples (x y : ℕ → ℕ) : Type 0 where
  pub curve : (n : ℕ) → IsOnCurve (x n) (y n)
  pub sum : (m n : ℕ) → IsSum (x m) (y m) (x n) (y n) (x (m + n)) (y (m + n))

pub record IsMultiple (x y : ℕ → ℕ) (n : ℕ) (p : Ge25519P3) : Type 0 where
  pub point : IsPoint (x n) (y n) p

pub record IsMultiple2 (x y : ℕ → ℕ) (n : ℕ) (p : Ge25519P2) : Type 0 where
  pub point : IsPoint2 (x n) (y n) p

pub record IsCompletedMultiple (x y : ℕ → ℕ) (n : ℕ) (p : Ge25519P1p1) : Type 0 where
  pub point : IsCompleted (x n) (y n) p

module _ {x y : ℕ → ℕ} (multiples : AreMultiples x y) where
  pub add-IsMultiple :
      {m n : ℕ} {p q : Ge25519P3}
      → IsMultiple x y m p
      → IsMultiple x y n q
      → IsMultiple x y (m + n) (ge25519_p3_add p q)
  add-IsMultiple {m = m} {n = n} a b = record {
    point = ge25519_p3_add_lem (multiples.sum m n) a.point b.point;
  }

  pub dbl-IsMultiple :
      {n : ℕ} {p : Ge25519P3} → IsMultiple x y n p → IsMultiple x y (n + n) (ge25519_p3p3_dbl p)
  dbl-IsMultiple {n = n} a = record {
    point = ge25519_p3p3_dbl_lem (multiples.curve n) (multiples.sum n n) a.point;
  }

  renamed :
      {m n : ℕ} {p : Ge25519P1p1}
      → m ≡ n
      → IsCompletedMultiple x y m p
      → IsCompletedMultiple x y n p
  renamed {p = p} e a = subst (λ (k : ℕ). IsCompletedMultiple x y k p) e a

  pub dbl_times-IsMultiple :
      (left : ℕ) {n : ℕ} {p : Ge25519P2}
      → IsMultiple2 x y n p
      → IsCompletedMultiple x y (2 ^ suc left * n) (dbl_times left p)
  unfolding dbl_times
  dbl_times-IsMultiple zero {n = n} a =
      renamed {m = n + n} (omega arith)
        (record { point = p2_dbl_double (multiples.curve n) (multiples.sum n n) a.point })
  dbl_times-IsMultiple (suc left) {n = n} a =
      renamed {m = 2 ^ suc left * (n + n)}
        (omega (arith, ap (λ (t : ℕ). t * n) (pow-suc 2 (suc left))))
        (dbl_times-IsMultiple left (record {
          point =
              p1p1_to_p2-IsPoint2 (p2_dbl_double (multiples.curve n) (multiples.sum n n) a.point);
        }))

  -- r = r * 2^n + q.
  dbladd-IsMultiple :
      (k : ℕ) {m n : ℕ} {r q : Ge25519P3}
      → 1 ≤ k
      → IsMultiple x y m r
      → IsMultiple x y n q
      → IsMultiple x y (2 ^ k * m + n) (ge25519_p3_dbladd r k q)
  unfolding ge25519_p3_dbladd
  dbladd-IsMultiple k {m = m} {n = n} some_round a b =
      let rounds : suc (k - 1) ≡ k = omega arith in
      let doubled =
        renamed (ap (λ (j : ℕ). 2 ^ j * m) rounds)
          (dbl_times-IsMultiple (k - 1) (record { point = p3_to_p2-IsPoint2 a.point })) in
      add-IsMultiple (record { point = p1p1_to_p3-IsPoint doubled.point }) b

-- The order of the main subgroup.
abbrev pub order : ℕ
order = 2 ^ 252 + 27742317777372353535851937790883648493

-- Over the multiples of a point of the curve, related by the addition law with invertible
-- denominators, `ge25519_mul_l` leads from the point to its multiple by the order of the main
-- subgroup, with an invertible Z.
pub ge25519_mul_l_lem :
    {x y : ℕ → ℕ} {p : Ge25519P3}
    → AreMultiples x y
    → IsMultiple x y 1 p
    → IsMultiple x y order (ge25519_mul_l p)
unfolding ge25519_mul_l
ge25519_mul_l_lem multiples point =
    let m2 = dbl-IsMultiple multiples point in
    let m3 = add-IsMultiple multiples point m2 in
    let m4 = add-IsMultiple multiples point m3 in
    let m6 = add-IsMultiple multiples m2 m4 in
    let m8 = add-IsMultiple multiples m2 m6 in
    let m11 = add-IsMultiple multiples m3 m8 in
    let m16 = dbl-IsMultiple multiples m8 in
    let m32 = dbl-IsMultiple multiples m16 in
    let m38 = add-IsMultiple multiples m6 m32 in
    let m64 = dbl-IsMultiple multiples m32 in
    let m80 = add-IsMultiple multiples m16 m64 in
    let m83 = add-IsMultiple multiples m3 m80 in
    let m99 = add-IsMultiple multiples m16 m83 in
    let m103 = add-IsMultiple multiples m4 m99 in
    let m107 = add-IsMultiple multiples m4 m103 in
    let m147 = add-IsMultiple multiples m64 m83 in
    let m151 = add-IsMultiple multiples m4 m147 in
    let m189 = add-IsMultiple multiples m38 m151 in
    let m211 = add-IsMultiple multiples m64 m147 in
    let m231 = add-IsMultiple multiples m80 m151 in
    let m237 = add-IsMultiple multiples m6 m231 in
    let m245 = add-IsMultiple multiples m8 m237 in
    let r = add-IsMultiple multiples m11 m245 in
    let r = dbladd-IsMultiple multiples 126 (omega arith) r m83 in
    let r = dbladd-IsMultiple multiples 9 (omega arith) r m2 in
    let r = add-IsMultiple multiples r m245 in
    let r = dbladd-IsMultiple multiples 7 (omega arith) r m103 in
    let r = dbladd-IsMultiple multiples 9 (omega arith) r m245 in
    let r = dbladd-IsMultiple multiples 11 (omega arith) r m189 in
    let r = dbladd-IsMultiple multiples 8 (omega arith) r m231 in
    let r = dbladd-IsMultiple multiples 9 (omega arith) r m107 in
    let r = dbladd-IsMultiple multiples 6 (omega arith) r m11 in
    let r = dbladd-IsMultiple multiples 14 (omega arith) r m147 in
    let r = dbladd-IsMultiple multiples 10 (omega arith) r m99 in
    let r = dbladd-IsMultiple multiples 9 (omega arith) r m151 in
    let r = dbladd-IsMultiple multiples 10 (omega arith) r m245 in
    let r = dbladd-IsMultiple multiples 8 (omega arith) r m211 in
    dbladd-IsMultiple multiples 8 (omega arith) r m237
