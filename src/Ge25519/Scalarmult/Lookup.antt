-- ===== src/Ge25519/Scalarmult/Lookup.antt =====
-- `ge25519_cmov8_cached` of src/libsodium/crypto_core/ed25519/ref10/ed25519_ref10.c: the entry for a
-- signed digit.
use native.Mathlib.Decide.{ℕ_discrete}
use libsodium.Base.{
  ℕ, zero, suc, ◌+◌, ◌-◌, ◌^◌, ◌<◌, ◌≤◌, ◌≡◌, ◌≢◌, refl, ap, ◌∙◌, arith, Bool, true, false,
  if◌then◌else◌, ◌==◌, ==_iff, pos→==0, sym, bit_and, bit_xor, u8, u32, ◌>>>◌,
}
use libsodium.Bits.Xor.{bit_xor_self, bit_xor-zero, bit_xor-lt, bit_xor-eq-zero}
use libsodium.Bits.And.{zero-bit_and, bit_and_comm, bit_and-mask}
use libsodium.Fe25519.{fe25519_neg}
use libsodium.Fe25519.Field.{IsBelow, IsBelow-by}
use libsodium.Fe25519.Select.{bit, fe25519_cmov_lem}
use libsodium.Ge25519.{Ge25519Cached, ge25519_cached_0}
use libsodium.Ge25519.Scalarmult.{
  Table, equal, ge25519_cmov_cached, select_entry, negative, absolute, ge25519_cmov8_cached,
}

-- Whether two bytes are equal, without a branch.
equal_word : (x : ℕ) → x < 256 → u8 (bit_xor (u32 (x + (2 ^ 32 - 1)) >>> 29) 0 >>> 2) ≡ bit (x == 0)
equal_word zero small = refl
equal_word (suc x) small =
    let high : u32 (suc x + (2 ^ 32 - 1)) >>> 29 ≡ 0 = omega arith in
    rw (high, pos→==0 (suc x) (omega arith)) refl

differ : (a b : ℕ) → a ≢ b → (a == b) ≡ false
differ a b apart = ground arith

equal_lem : (b c : ℕ) → b < 256 → c < 256 → equal b c ≡ bit (b == c)
unfolding equal
equal_lem b c hb hc =
    equal_word (bit_xor b c) (bit_xor-lt 8 b c hb hc)
    ∙ ap (λ (t : Bool). bit t) (same (ℕ_discrete b c))
  where
    same : Dec (b ≡ c) → (bit_xor b c == 0) ≡ (b == c)
    same (yes e) =
        ap (λ (n : ℕ). bit_xor n c == 0) e
        ∙ (ap (λ (n : ℕ). n == 0) (bit_xor_self c)
            ∙ sym (ap (λ (n : ℕ). n == c) e ∙ (==_iff c c).1 refl))
    same (no apart) =
        differ (bit_xor b c) 0 (λ z. apart (bit_xor-eq-zero b c z)) ∙ sym (differ b c apart)

-- The bounds that the moves ask for.
pub record Fits (q : Ge25519Cached) : Type 0 where
  pub fits_plus : IsBelow (2 ^ 64) q.yplusx
  pub fits_minus : IsBelow (2 ^ 64) q.yminusx
  pub fits_z : IsBelow (2 ^ 64) q.z
  pub fits_t2d : IsBelow (2 ^ 64) q.t2d

pick : Bool → Ge25519Cached → Ge25519Cached → Ge25519Cached
pick b t u = if b then u else t

pub cmov_cached_lem :
    (b : Bool) (t u : Ge25519Cached)
    → Fits t
    → Fits u
    → ge25519_cmov_cached t u (bit b) ≡ (if b then u else t)
unfolding ge25519_cmov_cached
cmov_cached_lem true t u ht hu =
    rw
      (
        fe25519_cmov_lem true t.yplusx u.yplusx ht.fits_plus hu.fits_plus,
        fe25519_cmov_lem true t.yminusx u.yminusx ht.fits_minus hu.fits_minus,
        fe25519_cmov_lem true t.z u.z ht.fits_z hu.fits_z,
        fe25519_cmov_lem true t.t2d u.t2d ht.fits_t2d hu.fits_t2d,
      )
      refl
cmov_cached_lem false t u ht hu =
    rw
      (
        fe25519_cmov_lem false t.yplusx u.yplusx ht.fits_plus hu.fits_plus,
        fe25519_cmov_lem false t.yminusx u.yminusx ht.fits_minus hu.fits_minus,
        fe25519_cmov_lem false t.z u.z ht.fits_z hu.fits_z,
        fe25519_cmov_lem false t.t2d u.t2d ht.fits_t2d hu.fits_t2d,
      )
      refl

pick-Fits : (b : Bool) {t u : Ge25519Cached} → Fits t → Fits u → Fits (pick b t u)
unfolding pick
pick-Fits true ht hu = hu
pick-Fits false ht hu = ht

cached_0-Fits : Fits ge25519_cached_0
cached_0-Fits = record {
  fits_plus = IsBelow-by refl;
  fits_minus = IsBelow-by refl;
  fits_z = IsBelow-by refl;
  fits_t2d = IsBelow-by refl;
}

pub record TableFits (pi : Table) : Type 0 where
  pub f1 : Fits pi.c1
  pub f2 : Fits pi.c2
  pub f3 : Fits pi.c3
  pub f4 : Fits pi.c4
  pub f5 : Fits pi.c5
  pub f6 : Fits pi.c6
  pub f7 : Fits pi.c7
  pub f8 : Fits pi.c8

module _ (pi : Table) (k : ℕ) where
  t1 : Ge25519Cached
  t1 = pick (k == 1) ge25519_cached_0 pi.c1

  t2 : Ge25519Cached
  t2 = pick (k == 2) t1 pi.c2

  t3 : Ge25519Cached
  t3 = pick (k == 3) t2 pi.c3

  t4 : Ge25519Cached
  t4 = pick (k == 4) t3 pi.c4

  t5 : Ge25519Cached
  t5 = pick (k == 5) t4 pi.c5

  t6 : Ge25519Cached
  t6 = pick (k == 6) t5 pi.c6

  t7 : Ge25519Cached
  t7 = pick (k == 7) t6 pi.c7

  pub entry : Ge25519Cached
  entry = pick (k == 8) t7 pi.c8

  module _ (small : k < 256) (fits : TableFits pi) where
    move :
        (j : ℕ) (t u : Ge25519Cached)
        → j < 256
        → Fits t
        → Fits u
        → ge25519_cmov_cached t u (equal k j) ≡ pick (k == j) t u
    unfolding pick
    move j t u hj ht hu =
        ap (λ (b : ℕ). ge25519_cmov_cached t u b) (equal_lem k j small hj)
        ∙ cmov_cached_lem (k == j) t u ht hu

    pub select_entry_lem : select_entry pi k ≡ entry
    unfolding select_entry t1 t2 t3 t4 t5 t6 t7 entry
    select_entry_lem =
        let h1 = pick-Fits (k == 1) cached_0-Fits fits.f1 in
        let h2 = pick-Fits (k == 2) h1 fits.f2 in
        let h3 = pick-Fits (k == 3) h2 fits.f3 in
        let h4 = pick-Fits (k == 4) h3 fits.f4 in
        let h5 = pick-Fits (k == 5) h4 fits.f5 in
        let h6 = pick-Fits (k == 6) h5 fits.f6 in
        let h7 = pick-Fits (k == 7) h6 fits.f7 in
        rw
          (
            move 1 ge25519_cached_0 pi.c1 (omega arith) cached_0-Fits fits.f1,
            move 2 t1 pi.c2 (omega arith) h1 fits.f2,
            move 3 t2 pi.c3 (omega arith) h2 fits.f3,
            move 4 t3 pi.c4 (omega arith) h3 fits.f4,
            move 5 t4 pi.c5 (omega arith) h4 fits.f5,
            move 6 t5 pi.c6 (omega arith) h5 fits.f6,
            move 7 t6 pi.c7 (omega arith) h6 fits.f7,
          )
          (move 8 t7 pi.c8 (omega arith) h7 fits.f8)

-- The entry for each of the nine digits.
pub entry-elim :
    (P : ℕ → Ge25519Cached → Type 0) (pi : Table)
    → P 0 ge25519_cached_0
    → P 1 pi.c1
    → P 2 pi.c2
    → P 3 pi.c3
    → P 4 pi.c4
    → P 5 pi.c5
    → P 6 pi.c6
    → P 7 pi.c7
    → P 8 pi.c8
    → (k : ℕ) → k ≤ 8
    → P k (entry pi k)
unfolding entry t1 t2 t3 t4 t5 t6 t7 pick
entry-elim P pi p0 p1 p2 p3 p4 p5 p6 p7 p8 zero h = p0
entry-elim P pi p0 p1 p2 p3 p4 p5 p6 p7 p8 (suc zero) h = p1
entry-elim P pi p0 p1 p2 p3 p4 p5 p6 p7 p8 (suc (suc zero)) h = p2
entry-elim P pi p0 p1 p2 p3 p4 p5 p6 p7 p8 (suc (suc (suc zero))) h = p3
entry-elim P pi p0 p1 p2 p3 p4 p5 p6 p7 p8 (suc (suc (suc (suc zero)))) h = p4
entry-elim P pi p0 p1 p2 p3 p4 p5 p6 p7 p8 (suc (suc (suc (suc (suc zero))))) h = p5
entry-elim P pi p0 p1 p2 p3 p4 p5 p6 p7 p8 (suc (suc (suc (suc (suc (suc zero)))))) h = p6
entry-elim P pi p0 p1 p2 p3 p4 p5 p6 p7 p8 (suc (suc (suc (suc (suc (suc (suc zero))))))) h = p7
entry-elim P pi p0 p1 p2 p3 p4 p5 p6 p7 p8 (suc (suc (suc (suc (suc (suc (suc (suc zero)))))))) h =
    p8
entry-elim P pi p0 p1 p2 p3 p4 p5 p6 p7 p8 (suc (suc (suc (suc (suc (suc (suc (suc (suc k)))))))))
      h =
    absurd (omega arith)

-- The sign and the amount of a digit.
negative_plus : (e : ℕ) → e ≤ 8 → negative e ≡ 0
unfolding negative
negative_plus e small = rw (bit_xor-zero (e >>> 5)) (omega arith)

negative_less : (k : ℕ) → k ≤ 8 → 1 ≤ k → negative (256 - k) ≡ 1
unfolding negative
negative_less k small pos = rw (bit_xor-zero ((256 - k) >>> 5)) (omega arith)

absolute_plus : (e : ℕ) → e ≤ 8 → absolute e 0 ≡ e
unfolding absolute
absolute_plus e small = rw (zero-bit_and e) (omega arith)

absolute_less : (k : ℕ) → k ≤ 8 → 1 ≤ k → absolute (256 - k) 1 ≡ k
unfolding absolute
absolute_less k small pos =
    let kept : bit_and 255 (256 - k) ≡ 256 - k =
      bit_and_comm 255 (256 - k) ∙ (bit_and-mask 8 (256 - k) ∙ omega arith) in
    rw kept (omega arith)

-- The negative of an entry.
unfoldable pub swapped : Ge25519Cached → Ge25519Cached
swapped t = record { yplusx = t.yminusx; yminusx = t.yplusx; z = t.z; t2d = fe25519_neg t.t2d }

pub cmov8_cached_plus :
    (pi : Table) (e : ℕ)
    → TableFits pi
    → e ≤ 8
    → Fits (entry pi e)
    → Fits (swapped (entry pi e))
    → ge25519_cmov8_cached pi e ≡ entry pi e
unfolding ge25519_cmov8_cached swapped
cmov8_cached_plus pi e fits small ht hu =
    rw (negative_plus e small, absolute_plus e small, select_entry_lem pi e (omega arith) fits)
      (cmov_cached_lem false (entry pi e) (swapped (entry pi e)) ht hu)

pub cmov8_cached_less :
    (pi : Table) (k : ℕ)
    → TableFits pi
    → k ≤ 8
    → 1 ≤ k
    → Fits (entry pi k)
    → Fits (swapped (entry pi k))
    → ge25519_cmov8_cached pi (256 - k) ≡ swapped (entry pi k)
unfolding ge25519_cmov8_cached swapped
cmov8_cached_less pi k fits small pos ht hu =
    rw
      (
        negative_less k small pos,
        absolute_less k small pos,
        select_entry_lem pi k (omega arith) fits,
      )
      (cmov_cached_lem true (entry pi k) (swapped (entry pi k)) ht hu)
