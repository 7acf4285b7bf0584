-- ===== src/Ge25519/Scalarmult.antt =====
-- `ge25519_scalarmult` of src/libsodium/crypto_core/ed25519/ref10/ed25519_ref10.c, in its portable
-- form: the table of multiples, its look-up in constant time, the signed digits of the scalar and
-- the loop over them. A `signed char` is its pattern of 8 bits.
pub mod Digits
pub mod Lookup
pub mod Product
use libsodium.Base.{
  ℕ, zero, suc, ◌+◌, ◌-◌, ◌*◌, ◌^◌, bit_and, bit_xor, List, [], ◌∷◌, Bytes, u8, u32, ◌>>>◌,
}
use libsodium.Fe25519.{fe25519_cmov, fe25519_neg}
use libsodium.Ge25519.{
  Ge25519P2, Ge25519P3, Ge25519P1p1, Ge25519Cached, ge25519_cached_0, ge25519_p3_0,
  ge25519_p3_to_cached, ge25519_p3_dbl, ge25519_p1p1_to_p2, ge25519_p1p1_to_p3, ge25519_add_cached,
  dbl_times,
}

-- `optblocker_u8`, which is never written.
abbrev pub optblocker_u8 : ℕ
optblocker_u8 = 0

unfoldable pub equal : ℕ → ℕ → ℕ
equal b c =
    let x = bit_xor b c in
    let y = u32 (x + (2 ^ 32 - 1)) in u8 (bit_xor (y >>> 29) optblocker_u8 >>> 2)

unfoldable pub negative : ℕ → ℕ
negative b = bit_xor (b >>> 5) optblocker_u8 >>> 2

unfoldable pub ge25519_cmov_cached : Ge25519Cached → Ge25519Cached → ℕ → Ge25519Cached
ge25519_cmov_cached t u b = record {
  yplusx = fe25519_cmov t.yplusx u.yplusx b;
  yminusx = fe25519_cmov t.yminusx u.yminusx b;
  z = fe25519_cmov t.z u.z b;
  t2d = fe25519_cmov t.t2d u.t2d b;
}

-- `babs`: the products and differences of `int` are cut to 8 bits.
unfoldable pub absolute : ℕ → ℕ → ℕ
absolute b bnegative = u8 (b + (256 - u8 (bit_and (u8 (256 - bnegative)) b * 2)))

-- The eight entries of the table, `cached[0]` first.
pub record Table : Type 0 where
  pub c1 : Ge25519Cached
  pub c2 : Ge25519Cached
  pub c3 : Ge25519Cached
  pub c4 : Ge25519Cached
  pub c5 : Ge25519Cached
  pub c6 : Ge25519Cached
  pub c7 : Ge25519Cached
  pub c8 : Ge25519Cached

-- The eight moves of `ge25519_cmov8_cached`.
unfoldable pub select_entry : Table → ℕ → Ge25519Cached
select_entry cached babs =
    let t = ge25519_cmov_cached ge25519_cached_0 cached.c1 (equal babs 1) in
    let t = ge25519_cmov_cached t cached.c2 (equal babs 2) in
    let t = ge25519_cmov_cached t cached.c3 (equal babs 3) in
    let t = ge25519_cmov_cached t cached.c4 (equal babs 4) in
    let t = ge25519_cmov_cached t cached.c5 (equal babs 5) in
    let t = ge25519_cmov_cached t cached.c6 (equal babs 6) in
    let t = ge25519_cmov_cached t cached.c7 (equal babs 7) in
    ge25519_cmov_cached t cached.c8 (equal babs 8)

unfoldable pub ge25519_cmov8_cached : Table → ℕ → Ge25519Cached
ge25519_cmov8_cached cached b =
    let bnegative = negative b in
    let t = select_entry cached (absolute b bnegative) in
    let minust : Ge25519Cached = record {
      yplusx = t.yminusx;
      yminusx = t.yplusx;
      z = t.z;
      t2d = fe25519_neg t.t2d;
    } in
    ge25519_cmov_cached t minust bnegative

-- `pi`.
unfoldable pub multiples_table : Ge25519P3 → Table
multiples_table p =
    let c1 = ge25519_p3_to_cached p in
    let p2 = ge25519_p1p1_to_p3 (ge25519_p3_dbl p) in
    let c2 = ge25519_p3_to_cached p2 in
    let p3 = ge25519_p1p1_to_p3 (ge25519_add_cached p c2) in
    let p4 = ge25519_p1p1_to_p3 (ge25519_p3_dbl p2) in
    let c4 = ge25519_p3_to_cached p4 in
    let p5 = ge25519_p1p1_to_p3 (ge25519_add_cached p c4) in
    let p6 = ge25519_p1p1_to_p3 (ge25519_p3_dbl p3) in
    let c6 = ge25519_p3_to_cached p6 in
    let p7 = ge25519_p1p1_to_p3 (ge25519_add_cached p c6) in
    let p8 = ge25519_p1p1_to_p3 (ge25519_p3_dbl p4) in
    record {
      c1 = c1;
      c2 = c2;
      c3 = ge25519_p3_to_cached p3;
      c4 = c4;
      c5 = ge25519_p3_to_cached p5;
      c6 = c6;
      c7 = ge25519_p3_to_cached p7;
      c8 = ge25519_p3_to_cached p8;
    }

-- The digits `e` of four bits.
unfoldable pub nibbles : Bytes → List ℕ
nibbles [] = []
nibbles (x ∷ a) = bit_and x 15 ∷ bit_and (x >>> 4) 15 ∷ nibbles a

-- The loop that carries, over the digits behind this one: the last digit takes the carry. No digit
-- reaches 2^7 before it is lowered.
unfoldable pub carry_digits : ℕ → List ℕ → List ℕ
carry_digits carry [] = []
carry_digits carry (e ∷ []) = u8 (e + carry) ∷ []
carry_digits carry (e ∷ f ∷ es) =
    let raised = u8 (e + carry) in
    let carry = u8 (raised + 8) >>> 4 in
    u8 (raised + (256 - carry * 16)) ∷ carry_digits carry (f ∷ es)

-- The loop `for (i = 63; i != 0; i--)`, from the last digit down to the first of the list.
unfoldable pub scalarmult_loop : Table → List ℕ → Ge25519P3 → Ge25519P3
scalarmult_loop pi [] h = h
scalarmult_loop pi (e ∷ es) h =
    let h = scalarmult_loop pi es h in
    let r = ge25519_add_cached h (ge25519_cmov8_cached pi e) in
    ge25519_p1p1_to_p3 (dbl_times 3 (ge25519_p1p1_to_p2 r))

-- The digit `e[0]` comes last; `a` has 32 bytes.
unfoldable pub finish_digits : Table → List ℕ → Ge25519P3
finish_digits pi [] = ge25519_p3_0
finish_digits pi (e ∷ es) =
    let h = scalarmult_loop pi es ge25519_p3_0 in
    ge25519_p1p1_to_p3 (ge25519_add_cached h (ge25519_cmov8_cached pi e))

unfoldable pub ge25519_scalarmult : Bytes → Ge25519P3 → Ge25519P3
ge25519_scalarmult a p = finish_digits (multiples_table p) (carry_digits 0 (nibbles a))
