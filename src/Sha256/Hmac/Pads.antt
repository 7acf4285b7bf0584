-- ===== src/Sha256/Hmac/Pads.antt =====
-- The padded keys of src/libsodium/crypto_auth/hmacsha256/auth_hmacsha256.c.
use libsodium.Base.{
  ℕ, zero, suc, ◌≡◌, refl, ap, ◌∙◌, arith, Bytes, [], ◌∷◌, ◌++◌, length, replicate, ◌≤◌, ◌-◌,
  bit_xor, map, ap₂,
}
use libsodium.Bits.Xor.{bit_xor_comm, zero-bit_xor}
use libsodium.Sha256.Hmac.{xor_key}

pub length-xor_key : (pad key : Bytes) → length (xor_key pad key) ≡ length pad
unfolding xor_key
length-xor_key [] key = refl
length-xor_key (x ∷ pad) [] = refl
length-xor_key (x ∷ pad) (k ∷ key) = ap suc (length-xor_key pad key)

xor_key_none : (pad : Bytes) → xor_key pad [] ≡ pad
unfolding xor_key
xor_key_none [] = refl
xor_key_none (x ∷ pad) = refl

-- Zeros taken with a byte.
zeros_xor : (c n : ℕ) → replicate n c ≡ map (λ (b : ℕ). bit_xor b c) (replicate n 0)
zeros_xor c zero = refl
zeros_xor c (suc n) = rw zero-bit_xor (ap (λ (bs : Bytes). c ∷ bs) (zeros_xor c n))

-- `xor_key` is every byte of the filled-up key taken with the byte of the pad.
pub xor_key_lem :
    (c n : ℕ) (k : Bytes)
    → length k ≤ n
    → xor_key (replicate n c) k ≡ map (λ (b : ℕ). bit_xor b c) (k ++ replicate (n - length k) 0)
unfolding xor_key
xor_key_lem c n [] le =
    let all : n - 0 ≡ n = omega arith in rw all (xor_key_none (replicate n c) ∙ zeros_xor c n)
xor_key_lem c zero (x ∷ k) le = absurd (omega arith)
xor_key_lem c (suc n) (x ∷ k) le =
    let fewer : n - length k ≡ suc n - suc (length k) = omega arith in
    ap₂ (λ (b : ℕ) (bs : Bytes). b ∷ bs) (bit_xor_comm c x)
      (xor_key_lem c n k (omega arith)
        ∙ ap (λ (j : ℕ). map (λ (b : ℕ). bit_xor b c) (k ++ replicate j 0)) fewer)
