-- ===== src/Ge25519/Subgroup.antt =====
-- The multiple by the order of the main subgroup and the tests on a point in
-- src/libsodium/crypto_core/ed25519/ref10/ed25519_ref10.c.
use libsodium.Base.{ℕ, Option, some, ◌>>=◌, bit_and, bit_or}
use libsodium.Fe25519.{Fe25519, fe25519_add, fe25519_sub, fe25519_mul, fe25519_sq, fe25519_iszero}
use libsodium.Fe25519.Power.{fe25519_sqrtm1}
use libsodium.Ge25519.{Ge25519P3, ed25519_d, ge25519_p3p3_dbl, ge25519_p3_add, ge25519_p3_dbladd}

-- `ge25519_mul_l`; the points are named for their multiples of `p`, in decimal.
unfoldable pub ge25519_mul_l : Ge25519P3 → Ge25519P3
ge25519_mul_l p =
    let p2 = ge25519_p3p3_dbl p in
    let p3 = ge25519_p3_add p p2 in
    let p4 = ge25519_p3_add p p3 in
    let p6 = ge25519_p3_add p2 p4 in
    let p8 = ge25519_p3_add p2 p6 in
    let p11 = ge25519_p3_add p3 p8 in
    let p16 = ge25519_p3p3_dbl p8 in
    let p32 = ge25519_p3p3_dbl p16 in
    let p38 = ge25519_p3_add p6 p32 in
    let p64 = ge25519_p3p3_dbl p32 in
    let p80 = ge25519_p3_add p16 p64 in
    let p83 = ge25519_p3_add p3 p80 in
    let p99 = ge25519_p3_add p16 p83 in
    let p103 = ge25519_p3_add p4 p99 in
    let p107 = ge25519_p3_add p4 p103 in
    let p147 = ge25519_p3_add p64 p83 in
    let p151 = ge25519_p3_add p4 p147 in
    let p189 = ge25519_p3_add p38 p151 in
    let p211 = ge25519_p3_add p64 p147 in
    let p231 = ge25519_p3_add p80 p151 in
    let p237 = ge25519_p3_add p6 p231 in
    let p245 = ge25519_p3_add p8 p237 in
    let r = ge25519_p3_add p11 p245 in
    let r = ge25519_p3_dbladd r 126 p83 in
    let r = ge25519_p3_dbladd r 9 p2 in
    let r = ge25519_p3_add r p245 in
    let r = ge25519_p3_dbladd r 7 p103 in
    let r = ge25519_p3_dbladd r 9 p245 in
    let r = ge25519_p3_dbladd r 11 p189 in
    let r = ge25519_p3_dbladd r 8 p231 in
    let r = ge25519_p3_dbladd r 9 p107 in
    let r = ge25519_p3_dbladd r 6 p11 in
    let r = ge25519_p3_dbladd r 14 p147 in
    let r = ge25519_p3_dbladd r 10 p99 in
    let r = ge25519_p3_dbladd r 9 p151 in
    let r = ge25519_p3_dbladd r 10 p245 in
    let r = ge25519_p3_dbladd r 8 p211 in ge25519_p3_dbladd r 8 p237

-- `ge25519_is_on_curve`.
unfoldable pub curve_difference : Ge25519P3 → Fe25519
curve_difference p =
    let x2 = fe25519_sq p.x in
    let y2 = fe25519_sq p.y in
    let z2 = fe25519_sq p.z in
    let t0 = fe25519_mul (fe25519_sub y2 x2) z2 in
    let t1 = fe25519_mul (fe25519_mul x2 y2) ed25519_d in
    let t1 = fe25519_add t1 (fe25519_sq z2) in fe25519_sub t0 t1

unfoldable pub ge25519_is_on_curve : Ge25519P3 → Option ℕ
ge25519_is_on_curve p = fe25519_iszero (curve_difference p)

unfoldable pub ge25519_is_on_main_subgroup : Ge25519P3 → Option ℕ
ge25519_is_on_main_subgroup p =
    let pl = ge25519_mul_l p in
    let t = fe25519_sub pl.y pl.z in
    do a ← fe25519_iszero pl.x; b ← fe25519_iszero t; some (bit_and a b)

unfoldable pub ge25519_has_small_order : Ge25519P3 → Option ℕ
ge25519_has_small_order p =
    let y_sqrtm1 = fe25519_mul p.y fe25519_sqrtm1 in
    do
      a ← fe25519_iszero p.x
      b ← fe25519_iszero p.y
      c ← fe25519_iszero p.z
      d ← fe25519_iszero (fe25519_sub y_sqrtm1 p.x)
      e ← fe25519_iszero (fe25519_add y_sqrtm1 p.x)
      some (bit_or (bit_or (bit_or (bit_or a b) c) d) e)
