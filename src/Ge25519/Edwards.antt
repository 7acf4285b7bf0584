-- ===== src/Ge25519/Edwards.antt =====
-- The twisted Edwards curve -x^2 + y^2 = 1 + d x^2 y^2 over the numbers modulo 2^255 - 19, and what
-- the coordinate systems of src/libsodium/include/sodium/private/ed25519_ref10.h stand for.
use libsodium.Base.{ℕ, ◌+◌, ◌-◌, ◌*◌, ◌^◌, ◌≡◌, refl, arith}
use libsodium.Fe25519.Field.{prime, value}
use libsodium.Fe25519.Congruence.{◌≋◌, minus, opposite, minus_unit, multiple, symmetric}
use libsodium.Fe25519.Units.{IsUnit}
use libsodium.Fe25519.Represents.{Represents}
use libsodium.Ge25519.{
  Ge25519P2, Ge25519P3, Ge25519P1p1, Ge25519Precomp, Ge25519Cached, ed25519_d, ed25519_d2,
}

abbrev pub edwards_d : ℕ
edwards_d = value ed25519_d

-- d = -121665 / 121666, and the second constant is its double.
pub edwards_d_lem : edwards_d * 121666 ≋ opposite 121665
edwards_d_lem = record { same = refl }

pub edwards_d2_lem : value ed25519_d2 ≋ 2 * edwards_d
edwards_d2_lem = record { same = refl }

pub record IsOnCurve (x y : ℕ) : Type 0 where
  pub equation : minus (y * y) (x * x) ≋ 1 + edwards_d * (x * x * (y * y))

-- The affine addition law: (x3, y3) is the sum of (x1, y1) and (x2, y2), and both denominators of
-- the law have an inverse.
pub record IsSum (x1 y1 x2 y2 x3 y3 : ℕ) : Type 0 where
  pub law_x : x3 * (1 + edwards_d * (x1 * x2 * (y1 * y2))) ≋ x1 * y2 + y1 * x2
  pub law_y : y3 * minus 1 (edwards_d * (x1 * x2 * (y1 * y2))) ≋ y1 * y2 + x1 * x2
  pub unit_x : IsUnit (1 + edwards_d * (x1 * x2 * (y1 * y2)))
  pub unit_y : IsUnit (minus 1 (edwards_d * (x1 * x2 * (y1 * y2))))

-- The bound of the coordinates of a point.
abbrev pub point_bound : ℕ
point_bound = 2 ^ 52 + 1

-- (X : Y : Z) with x = X / Z and y = Y / Z, where Z has an inverse.
pub record IsPoint2 (x y : ℕ) (p : Ge25519P2) : Type 0 where
  pub at_x : Represents point_bound p.x (x * value p.z)
  pub at_y : Represents point_bound p.y (y * value p.z)
  pub at_z : Represents point_bound p.z (value p.z)
  pub unit_z : IsUnit (value p.z)

-- (X : Y : Z : T) with x = X / Z, y = Y / Z and x y = T / Z, where Z has an inverse.
pub record IsPoint (x y : ℕ) (p : Ge25519P3) : Type 0 where
  pub at_x : Represents point_bound p.x (x * value p.z)
  pub at_y : Represents point_bound p.y (y * value p.z)
  pub at_z : Represents point_bound p.z (value p.z)
  pub unit_z : IsUnit (value p.z)
  pub at_t : Represents point_bound p.t (x * y * value p.z)

-- ((X : Z), (Y : T)) with x = X / Z and y = Y / T, where Z and T have inverses.
pub record IsCompleted (x y : ℕ) (p : Ge25519P1p1) : Type 0 where
  pub at_x : Represents (2 ^ 54) p.x (x * value p.z)
  pub at_y : Represents (2 ^ 54) p.y (y * value p.t)
  pub at_z : Represents (2 ^ 54) p.z (value p.z)
  pub at_t : Represents (2 ^ 54) p.t (value p.t)
  pub unit_z : IsUnit (value p.z)
  pub unit_t : IsUnit (value p.t)

-- (Y + X, Y - X, Z, 2 d T), where Z has an inverse.
pub record IsCached (x y : ℕ) (p : Ge25519Cached) : Type 0 where
  pub at_plus : Represents (2 ^ 54) p.yplusx (y * value p.z + x * value p.z)
  pub at_minus : Represents (2 ^ 54) p.yminusx (minus (y * value p.z) (x * value p.z))
  pub at_z : Represents (2 ^ 54) p.z (value p.z)
  pub unit_z : IsUnit (value p.z)
  pub at_t2d : Represents (2 ^ 54) p.t2d (x * y * value p.z * (2 * edwards_d))

-- (y + x, y - x, 2 d x y).
pub record IsPrecomp (x y : ℕ) (p : Ge25519Precomp) : Type 0 where
  pub at_plus : Represents (2 ^ 54) p.yplusx (y + x)
  pub at_minus : Represents (2 ^ 54) p.yminusx (minus y x)
  pub at_xy2d : Represents (2 ^ 54) p.xy2d (x * y * (2 * edwards_d))

-- The product of the sums and that of the differences, taken away and added.
module _ (x1 y1 z1 x2 y2 z2 : ℕ) where
  unfoldable pub plus_product : ℕ
  plus_product = (y1 * z1 + x1 * z1) * (y2 * z2 + x2 * z2)

  unfoldable pub minus_product : ℕ
  minus_product = minus (y1 * z1) (x1 * z1) * minus (y2 * z2) (x2 * z2)

  pub products_minus : minus plus_product minus_product ≋ (z1 * z2 + z1 * z2) * (x1 * y2 + y1 * x2)
  unfolding plus_product minus_product
  products_minus =
      let k =
        z1
        * z2
        * (y1 * y2
            + (prime - 2) * (x1 * y2 + y1 * x2)
            + (minus_unit * minus_unit - minus_unit + 1) * (x1 * x2)) in
      let exact : (z1 * z2 + z1 * z2) * (x1 * y2 + y1 * x2) + k * prime
          ≡ minus plus_product minus_product =
        omega arith in
      symmetric (multiple ((z1 * z2 + z1 * z2) * (x1 * y2 + y1 * x2)) k exact)

  pub products_plus : plus_product + minus_product ≋ (z1 * z2 + z1 * z2) * (y1 * y2 + x1 * x2)
  unfolding plus_product minus_product
  products_plus =
      let k = z1 * z2 * (x1 * y2 + y1 * x2 + (prime - 2) * (x1 * x2)) in
      let exact : (z1 * z2 + z1 * z2) * (y1 * y2 + x1 * x2) + k * prime
          ≡ plus_product + minus_product =
        omega arith in
      symmetric (multiple ((z1 * z2 + z1 * z2) * (y1 * y2 + x1 * x2)) k exact)
