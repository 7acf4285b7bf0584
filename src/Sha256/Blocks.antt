-- ===== src/Sha256/Blocks.antt =====
-- The loop over whole blocks of src/libsodium/crypto_hash/sha256/cp/hash_sha256_cp.c on strings that
-- are put together, and lemmas on their parts.
use native.Mathlib.Nat.{zero-add, suc-add, add-zero}
use libsodium.Base.{
  ℕ, zero, suc, ◌+◌, ◌*◌, ◌≤◌, ◌≡◌, refl, sym, ap, ap₂, ◌∙◌, arith, List, Bytes, [], ◌∷◌, ◌++◌,
  length, take, take_all, drop, length-drop, replicate,
}
use libsodium.Sha256.{whole_blocks, sha256_transform}

module _ {ℓ} {A : Type ℓ} where
  pub take-append_le : (n : ℕ) (xs ys : List A) → n ≤ length xs → take n (xs ++ ys) ≡ take n xs
  take-append_le zero xs ys h = refl
  take-append_le (suc n) [] ys h = absurd (omega arith)
  take-append_le (suc n) (x ∷ xs) ys h = ap (λ t. x ∷ t) (take-append_le n xs ys (omega arith))

  pub drop-append_le :
      (n : ℕ) (xs ys : List A) → n ≤ length xs → drop n (xs ++ ys) ≡ drop n xs ++ ys
  drop-append_le zero xs ys h = refl
  drop-append_le (suc n) [] ys h = absurd (omega arith)
  drop-append_le (suc n) (x ∷ xs) ys h = drop-append_le n xs ys (omega arith)

  pub drop_exact : (n : ℕ) (xs : List A) → length xs ≡ n → drop n xs ≡ []
  drop_exact zero [] h = refl
  drop_exact zero (x ∷ xs) h = absurd (omega arith)
  drop_exact (suc n) [] h = refl
  drop_exact (suc n) (x ∷ xs) h = drop_exact n xs (omega arith)

  pub take-replicate : (n m : ℕ) (a : A) → n ≤ m → take n (replicate m a) ≡ replicate n a
  take-replicate zero m a h = refl
  take-replicate (suc n) zero a h = absurd (omega arith)
  take-replicate (suc n) (suc m) a h = ap (λ t. a ∷ t) (take-replicate n m a (omega arith))

  pub replicate_add : (n m : ℕ) (a : A) → replicate n a ++ replicate m a ≡ replicate (n + m) a
  replicate_add zero m a = ap (λ k. replicate k a) (sym (zero-add m))
  replicate_add (suc n) m a =
      ap (λ t. a ∷ t) (replicate_add n m a) ∙ ap (λ k. replicate k a) (sym (suc-add n m))

-- The blocks of a first part, then those of what follows it.
pub whole_blocks-append :
    (n k : ℕ) (state : List ℕ) (first rest : Bytes)
    → length first ≡ n * 64
    → whole_blocks (n + k) state (first ++ rest) ≡ whole_blocks k (whole_blocks n state first) rest
unfolding whole_blocks
whole_blocks-append zero k state [] rest h = ap (λ j. whole_blocks j state rest) (zero-add k)
whole_blocks-append zero k state (x ∷ first) rest h = absurd (omega arith)
whole_blocks-append (suc n) k state first rest h =
    let s = sha256_transform state (take 64 first) in
    ap (λ j. whole_blocks j state (first ++ rest)) (suc-add n k)
    ∙ (ap₂ (λ (a b : Bytes). whole_blocks (n + k) (sha256_transform state a) b)
          (take-append_le 64 first rest (omega arith)) (drop-append_le 64 first rest (omega arith))
        ∙ whole_blocks-append n k s (drop 64 first) rest (omega (arith, length-drop 64 first)))

-- Blocks behind the last one that is read do not matter.
pub whole_blocks-prefix :
    (n : ℕ) (state : List ℕ) (first rest : Bytes)
    → length first ≡ n * 64
    → whole_blocks n state (first ++ rest) ≡ whole_blocks n state first
unfolding whole_blocks
whole_blocks-prefix n state first rest h =
    ap (λ j. whole_blocks j state (first ++ rest)) (sym (add-zero n))
    ∙ whole_blocks-append n 0 state first rest h

-- One block of 64 bytes.
pub whole_blocks_one :
    (state : List ℕ) (block : Bytes)
    → length block ≡ 64
    → whole_blocks 1 state block ≡ sha256_transform state block
unfolding whole_blocks
whole_blocks_one state block h = ap (sha256_transform state) (take_all 64 block (omega arith))
