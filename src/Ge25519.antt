-- ===== src/Ge25519.antt =====
-- The group of Ed25519 in src/libsodium/crypto_core/ed25519/ref10/ed25519_ref10.c, with the types of
-- src/libsodium/include/sodium/private/ed25519_ref10.h and the constants of
-- src/libsodium/crypto_core/ed25519/ref10/fe_51/constants.h. What a function writes through `r` or
-- `h` is its result.
pub mod Subgroup
pub mod Edwards
pub mod Addition
pub mod Scalarmult
pub mod Tests
pub mod Membership
pub mod Tables
pub mod Multiples
pub mod Points
use libsodium.Base.{ℕ, zero, suc, ◌-◌}
use libsodium.Fe25519.{
  Fe25519, fe25519_0, fe25519_1, fe25519_add, fe25519_sub, fe25519_neg, fe25519_mul, fe25519_sq,
  fe25519_sq2,
}

pub record Ge25519P2 : Type 0 where
  pub x : Fe25519
  pub y : Fe25519
  pub z : Fe25519

pub record Ge25519P3 : Type 0 where
  pub x : Fe25519
  pub y : Fe25519
  pub z : Fe25519
  pub t : Fe25519

pub record Ge25519P1p1 : Type 0 where
  pub x : Fe25519
  pub y : Fe25519
  pub z : Fe25519
  pub t : Fe25519

pub record Ge25519Precomp : Type 0 where
  pub yplusx : Fe25519
  pub yminusx : Fe25519
  pub xy2d : Fe25519

pub record Ge25519Cached : Type 0 where
  pub yplusx : Fe25519
  pub yminusx : Fe25519
  pub z : Fe25519
  pub t2d : Fe25519

abbrev pub ed25519_d : Fe25519
ed25519_d = record {
  l0 = 929955233495203;
  l1 = 466365720129213;
  l2 = 1662059464998953;
  l3 = 2033849074728123;
  l4 = 1442794654840575;
}

abbrev pub ed25519_d2 : Fe25519
ed25519_d2 = record {
  l0 = 1859910466990425;
  l1 = 932731440258426;
  l2 = 1072319116312658;
  l3 = 1815898335770999;
  l4 = 633789495995903;
}

unfoldable pub ge25519_add_cached : Ge25519P3 → Ge25519Cached → Ge25519P1p1
ge25519_add_cached p q =
    let sum = fe25519_add p.y p.x in
    let difference = fe25519_sub p.y p.x in
    let rz = fe25519_mul sum q.yplusx in
    let ry = fe25519_mul difference q.yminusx in
    let rt = fe25519_mul q.t2d p.t in
    let rx = fe25519_mul p.z q.z in
    let t0 = fe25519_add rx rx in
    record {
      x = fe25519_sub rz ry;
      y = fe25519_add rz ry;
      z = fe25519_add t0 rt;
      t = fe25519_sub t0 rt;
    }

unfoldable pub ge25519_sub_cached : Ge25519P3 → Ge25519Cached → Ge25519P1p1
ge25519_sub_cached p q =
    let sum = fe25519_add p.y p.x in
    let difference = fe25519_sub p.y p.x in
    let rz = fe25519_mul sum q.yminusx in
    let ry = fe25519_mul difference q.yplusx in
    let rt = fe25519_mul q.t2d p.t in
    let rx = fe25519_mul p.z q.z in
    let t0 = fe25519_add rx rx in
    record {
      x = fe25519_sub rz ry;
      y = fe25519_add rz ry;
      z = fe25519_sub t0 rt;
      t = fe25519_add t0 rt;
    }

unfoldable pub ge25519_add_precomp : Ge25519P3 → Ge25519Precomp → Ge25519P1p1
ge25519_add_precomp p q =
    let sum = fe25519_add p.y p.x in
    let difference = fe25519_sub p.y p.x in
    let rz = fe25519_mul sum q.yplusx in
    let ry = fe25519_mul difference q.yminusx in
    let rt = fe25519_mul q.xy2d p.t in
    let t0 = fe25519_add p.z p.z in
    record {
      x = fe25519_sub rz ry;
      y = fe25519_add rz ry;
      z = fe25519_add t0 rt;
      t = fe25519_sub t0 rt;
    }

unfoldable pub ge25519_sub_precomp : Ge25519P3 → Ge25519Precomp → Ge25519P1p1
ge25519_sub_precomp p q =
    let sum = fe25519_add p.y p.x in
    let difference = fe25519_sub p.y p.x in
    let rz = fe25519_mul sum q.yminusx in
    let ry = fe25519_mul difference q.yplusx in
    let rt = fe25519_mul q.xy2d p.t in
    let t0 = fe25519_add p.z p.z in
    record {
      x = fe25519_sub rz ry;
      y = fe25519_add rz ry;
      z = fe25519_sub t0 rt;
      t = fe25519_add t0 rt;
    }

unfoldable pub ge25519_p1p1_to_p2 : Ge25519P1p1 → Ge25519P2
ge25519_p1p1_to_p2 p = record {
  x = fe25519_mul p.x p.t;
  y = fe25519_mul p.y p.z;
  z = fe25519_mul p.z p.t;
}

unfoldable pub ge25519_p1p1_to_p3 : Ge25519P1p1 → Ge25519P3
ge25519_p1p1_to_p3 p = record {
  x = fe25519_mul p.x p.t;
  y = fe25519_mul p.y p.z;
  z = fe25519_mul p.z p.t;
  t = fe25519_mul p.x p.y;
}

unfoldable pub ge25519_p2_to_p3 : Ge25519P2 → Ge25519P3
ge25519_p2_to_p3 p = record { x = p.x; y = p.y; z = p.z; t = fe25519_mul p.x p.y }

abbrev pub ge25519_p2_0 : Ge25519P2
ge25519_p2_0 = record { x = fe25519_0; y = fe25519_1; z = fe25519_1 }

unfoldable pub ge25519_p2_dbl : Ge25519P2 → Ge25519P1p1
ge25519_p2_dbl p =
    let xx = fe25519_sq p.x in
    let yy = fe25519_sq p.y in
    let zz2 = fe25519_sq2 p.z in
    let t0 = fe25519_sq (fe25519_add p.x p.y) in
    let ry = fe25519_add yy xx in
    let rz = fe25519_sub yy xx in
    record { x = fe25519_sub t0 ry; y = ry; z = rz; t = fe25519_sub zz2 rz }

abbrev pub ge25519_p3_0 : Ge25519P3
ge25519_p3_0 = record { x = fe25519_0; y = fe25519_1; z = fe25519_1; t = fe25519_0 }

abbrev pub ge25519_cached_0 : Ge25519Cached
ge25519_cached_0 = record {
  yplusx = fe25519_1;
  yminusx = fe25519_1;
  z = fe25519_1;
  t2d = fe25519_0;
}

abbrev pub ge25519_precomp_0 : Ge25519Precomp
ge25519_precomp_0 = record { yplusx = fe25519_1; yminusx = fe25519_1; xy2d = fe25519_0 }

unfoldable pub ge25519_p3_to_cached : Ge25519P3 → Ge25519Cached
ge25519_p3_to_cached p = record {
  yplusx = fe25519_add p.y p.x;
  yminusx = fe25519_sub p.y p.x;
  z = p.z;
  t2d = fe25519_mul p.t ed25519_d2;
}

unfoldable pub ge25519_p3_to_p2 : Ge25519P3 → Ge25519P2
ge25519_p3_to_p2 p = record { x = p.x; y = p.y; z = p.z }

unfoldable pub ge25519_p3_dbl : Ge25519P3 → Ge25519P1p1
ge25519_p3_dbl p = ge25519_p2_dbl (ge25519_p3_to_p2 p)

unfoldable pub ge25519_p3p3_dbl : Ge25519P3 → Ge25519P3
ge25519_p3p3_dbl p = ge25519_p1p1_to_p3 (ge25519_p3_dbl p)

unfoldable pub ge25519_p3_neg : Ge25519P3 → Ge25519P3
ge25519_p3_neg p = record { x = fe25519_neg p.x; y = p.y; z = p.z; t = fe25519_neg p.t }

unfoldable pub ge25519_p3_add : Ge25519P3 → Ge25519P3 → Ge25519P3
ge25519_p3_add p q = ge25519_p1p1_to_p3 (ge25519_add_cached p (ge25519_p3_to_cached q))

unfoldable pub ge25519_p3_sub : Ge25519P3 → Ge25519P3 → Ge25519P3
ge25519_p3_sub p q = ge25519_p3_add p (ge25519_p3_neg q)

-- The loop of `ge25519_p3_dbladd`, with the rounds left behind this one.
unfoldable pub dbl_times : ℕ → Ge25519P2 → Ge25519P1p1
dbl_times zero p2 = ge25519_p2_dbl p2
dbl_times (suc left) p2 = dbl_times left (ge25519_p1p1_to_p2 (ge25519_p2_dbl p2))

-- A caller passes 0 < n; `r` is read and written.
unfoldable pub ge25519_p3_dbladd : Ge25519P3 → ℕ → Ge25519P3 → Ge25519P3
ge25519_p3_dbladd r n q =
    ge25519_p3_add (ge25519_p1p1_to_p3 (dbl_times (n - 1) (ge25519_p3_to_p2 r))) q
