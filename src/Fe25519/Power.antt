-- ===== src/Fe25519/Power.antt =====
-- The fixed powers of src/libsodium/crypto_core/ed25519/ref10/ed25519_ref10.c: `fe25519_sqmul`,
-- `fe25519_pow22523` and `fe25519_notsquare`, and the square root that rests on them.
pub mod Laws
pub mod Root
use libsodium.Base.{
  ℕ, zero, suc, ◌+◌, ◌-◌, ◌*◌, ◌%◌, ◌^◌, ◌≡◌, refl, ap, ◌∙◌, arith, bit_and, get_or, Option, some,
  ◌>>=◌, u32,
}
use libsodium.Fe25519.{
  Fe25519, fe25519_neg, fe25519_sub, fe25519_mul, fe25519_sq, fe25519_cmov, fe25519_iszero,
  fe25519_isnegative, fe25519_tobytes,
}

-- `fe25519_sqrtm1` of src/libsodium/crypto_core/ed25519/ref10/fe_51/constants.h.
abbrev pub fe25519_sqrtm1 : Fe25519
fe25519_sqrtm1 = record {
  l0 = 1718705420411056;
  l1 = 234908883556509;
  l2 = 2233514472574048;
  l3 = 2117202627021982;
  l4 = 765476049583133;
}

-- A loop of squarings in place, with the rounds left.
unfoldable pub sq_times : ℕ → Fe25519 → Fe25519
sq_times zero s = s
sq_times (suc left) s = sq_times left (fe25519_sq s)

-- `s` is written.
unfoldable pub fe25519_sqmul : Fe25519 → ℕ → Fe25519 → Fe25519
fe25519_sqmul s n a = fe25519_mul (sq_times n s) a

unfoldable pub fe25519_pow22523 : Fe25519 → Fe25519
fe25519_pow22523 z =
    let t0 = fe25519_sq z in
    let t1 = fe25519_sq t0 in
    let t1 = fe25519_sq t1 in
    let t1 = fe25519_mul z t1 in
    let t0 = fe25519_mul t0 t1 in
    let t0 = fe25519_sq t0 in
    let t0 = fe25519_mul t1 t0 in
    let t1 = sq_times 4 (fe25519_sq t0) in
    let t0 = fe25519_mul t1 t0 in
    let t1 = sq_times 9 (fe25519_sq t0) in
    let t1 = fe25519_mul t1 t0 in
    let t2 = sq_times 19 (fe25519_sq t1) in
    let t1 = fe25519_mul t2 t1 in
    let t1 = sq_times 10 t1 in
    let t0 = fe25519_mul t1 t0 in
    let t1 = sq_times 49 (fe25519_sq t0) in
    let t1 = fe25519_mul t1 t0 in
    let t2 = sq_times 99 (fe25519_sq t1) in
    let t1 = fe25519_mul t2 t1 in
    let t1 = sq_times 50 t1 in
    let t0 = fe25519_mul t1 t0 in let t0 = fe25519_sq (fe25519_sq t0) in fe25519_mul t0 z

unfoldable pub fe25519_cneg : Fe25519 → ℕ → Fe25519
fe25519_cneg h b = fe25519_cmov h (fe25519_neg h) b

unfoldable pub fe25519_abs : Fe25519 → Fe25519
fe25519_abs h = fe25519_cneg h (fe25519_isnegative h)

unfoldable pub fe25519_unchecked_sqrt : Fe25519 → Option Fe25519
fe25519_unchecked_sqrt x2 =
    let p_root = fe25519_mul (fe25519_pow22523 x2) x2 in
    let m_root = fe25519_mul p_root fe25519_sqrtm1 in
    let e = fe25519_sub x2 (fe25519_sq m_root) in
    do b ← fe25519_iszero e; some (fe25519_cmov p_root m_root b)

-- What `fe25519_sqrt` returns, as the bit pattern of an `int`, and the root that it writes.
unfoldable pub fe25519_sqrt : Fe25519 → Option (ℕ × Fe25519)
fe25519_sqrt x2 = do
  x ← fe25519_unchecked_sqrt x2
  z ← fe25519_iszero (fe25519_sub (fe25519_sq x) x2)
  some (u32 (z + (2 ^ 32 - 1)), x)

-- `fe25519_notsquare`.
unfoldable pub notsquare_power : Fe25519 → Fe25519
notsquare_power x =
    let two = fe25519_mul x x in
    let three = fe25519_mul x two in
    let twelve = fe25519_sq (fe25519_sq three) in
    let fifteen = fe25519_mul three twelve in
    let shifted = fe25519_sq (fe25519_sq (fe25519_sq (fe25519_sq fifteen))) in
    let t = fe25519_mul fifteen shifted in
    let t = fe25519_sqmul t 2 three in
    let u = t in
    let t = fe25519_sqmul t 10 u in
    let t = fe25519_sqmul t 10 u in
    let t = fe25519_sqmul t 30 t in
    let t = fe25519_sqmul t 60 t in
    let t = fe25519_sqmul t 120 t in
    let t = fe25519_sqmul t 10 u in let t = fe25519_sqmul t 3 three in fe25519_sq t

unfoldable pub fe25519_notsquare : Fe25519 → ℕ
fe25519_notsquare x = bit_and (get_or (fe25519_tobytes (notsquare_power x)) 1 0) 1
