-- ===== src/Sha256/Digest.antt =====
-- The end of src/libsodium/crypto_hash/sha256/cp/hash_sha256_cp.c, against SHA-256 of the whole
-- message: padding, then one block after the other.
use libsodium.Base.{
  ℕ, suc, ◌+◌, ◌-◌, ◌*◌, ◌/◌, ◌%◌, ◌^◌, ◌<◌, ◌≤◌, true, false, ◌≡◌, refl, sym, ap, ap₂, ◌∙◌, arith,
  List, Bytes, [], ◌∷◌, ◌++◌, append_assoc, length, take, drop, replicate, take_all,
  take-append-drop, length-take, length-drop, length-append, length-replicate, lt→ltb, le→ltb, ltb,
}
use native.Mathlib.Decide.{dec_lt}
use libsodium.Sha256.{
  Sha256State, whole_blocks, sha256_transform, sha256_initial_state, sha256_pad, pad, be32enc_vect,
  store64_be, crypto_hash_sha256_init, crypto_hash_sha256_update, crypto_hash_sha256_final,
  crypto_hash_sha256,
}
use libsodium.Sha256.Blocks.{take-replicate, replicate_add, whole_blocks-append, whole_blocks_one}
use libsodium.Sha256.Stream.{
  holds, state_of, waiting-holds, crypto_hash_sha256_update_lem, crypto_hash_sha256_init-state_of,
}

-- What SHA-256 puts behind a message of a length: a bit, zeros up to 8 bytes before the end of a
-- block, and the number of bits.
unfoldable pub suffix : ℕ → Bytes
suffix n = (0x80 ∷ replicate ((119 - n % 64) % 64) 0) ++ store64_be (n * 8)

unfoldable pub padded : Bytes → Bytes
padded m = m ++ suffix (length m)

unfoldable pub sha256 : Bytes → Bytes
sha256 m = be32enc_vect 8 (whole_blocks (length (padded m) / 64) sha256_initial_state (padded m))

length-store64_be : (w : ℕ) → length (store64_be w) ≡ 8
unfolding store64_be
length-store64_be w = refl

take-pad : (n : ℕ) → n ≤ 63 → take (suc n) pad ≡ 0x80 ∷ replicate n 0
take-pad n h = ap (λ t. 0x80 ∷ t) (take-replicate n 63 0 h)

module _ (whole rest : Bytes) (full : length whole % 64 ≡ 0)
    (small : length whole + length rest < 2 ^ 61) where
  r : ℕ
  r = length rest

  bits : Bytes
  bits = store64_be ((length whole + length rest) * 8)

  state : List ℕ
  state = whole_blocks (length whole / 64) sha256_initial_state whole

  -- Behind whole blocks, the states of whole blocks.
  behind :
      (k : ℕ) (tail : Bytes)
      → length tail ≡ k * 64
      → whole_blocks (length (whole ++ tail) / 64) sha256_initial_state (whole ++ tail)
        ≡ whole_blocks k state tail
  unfolding state
  behind k tail whole_tail =
      let count : length (whole ++ tail) / 64 ≡ length whole / 64 + k =
        omega (arith, length-append whole tail) in
      ap (λ n. whole_blocks n sha256_initial_state (whole ++ tail)) count
      ∙ whole_blocks-append (length whole / 64) k sha256_initial_state whole tail (omega arith)

  pad_short :
      (n : ℕ)
      → r + n ≡ 55
      → sha256_pad (holds whole rest)
        ≡ sha256_transform state ((rest ++ 0x80 ∷ replicate n 0) ++ bits)
  unfolding sha256_pad r bits state
  pad_short n room =
      let here = waiting-holds whole rest full (omega arith) small in
      let short : ltb (length rest) 56 ≡ true = lt→ltb (length rest) 56 (omega arith) in
      let all = take_all (length rest) rest (omega arith) in
      let fill : 56 - length rest ≡ suc n = omega arith in
      rw (here, short, all, fill, take-pad n (omega arith)) refl

  pad_long :
      (n : ℕ)
      → r + n ≡ 63
      → n < 8
      → sha256_pad (holds whole rest)
        ≡ sha256_transform
            (sha256_transform state (rest ++ 0x80 ∷ replicate n 0))
            (replicate 56 0 ++ bits)
  unfolding sha256_pad r bits state
  pad_long n room few =
      let here = waiting-holds whole rest full (omega arith) small in
      let long : ltb (length rest) 56 ≡ false = le→ltb (length rest) 56 (omega arith) in
      let all = take_all (length rest) rest (omega arith) in
      let fill : 64 - length rest ≡ suc n = omega arith in
      rw (here, long, all, fill, take-pad n (omega arith)) refl

  padded-parts :
      (z : ℕ)
      → (119 - length (whole ++ rest) % 64) % 64 ≡ z
      → padded (whole ++ rest) ≡ whole ++ ((rest ++ 0x80 ∷ replicate z 0) ++ bits)
  unfolding padded suffix bits
  padded-parts z zeros =
      ap₂ (λ (k n : ℕ). (whole ++ rest) ++ ((0x80 ∷ replicate k 0) ++ store64_be (n * 8))) zeros
        (length-append whole rest)
      ∙ (append_assoc whole rest ((0x80 ∷ replicate z 0) ++ bits)
          ∙ ap (λ (x : Bytes). whole ++ x) (sym (append_assoc rest (0x80 ∷ replicate z 0) bits)))

  abbrev pub EndsPadded : Type 0
  EndsPadded =
      sha256_pad (holds whole rest)
      ≡ whole_blocks (length (padded (whole ++ rest)) / 64) sha256_initial_state
          (padded (whole ++ rest))

  length-bits : length bits ≡ 8
  unfolding bits
  length-bits = length-store64_be ((length whole + length rest) * 8)

  padded_short : (n : ℕ) → r + n ≡ 55 → EndsPadded
  unfolding r
  padded_short n room =
      let block = (rest ++ 0x80 ∷ replicate n 0) ++ bits in
      let l0 = length-append (rest ++ 0x80 ∷ replicate n 0) bits in
      let l1 = length-append rest (0x80 ∷ replicate n 0) in
      let l2 = length-replicate {A = ℕ} n 0 in
      let sixty_four : length block ≡ 64 = omega (arith, l0, l1, l2, length-bits) in
      let text = padded-parts n (omega (arith, length-append whole rest)) in
      rw text (
        pad_short n room
        ∙ (sym (whole_blocks_one state block sixty_four) ∙ sym (behind 1 block (omega arith))))

  padded_long : (n : ℕ) → r + n ≡ 63 → n < 8 → EndsPadded
  unfolding r
  padded_long n room few =
      let first = rest ++ 0x80 ∷ replicate n 0 in
      let second = replicate 56 0 ++ bits in
      let next = sha256_transform state first in
      let l0 = length-append rest (0x80 ∷ replicate n 0) in
      let l1 = length-replicate {A = ℕ} n 0 in
      let l2 = length-append (replicate 56 0) bits in
      let sixty_four : length first ≡ 64 = omega (arith, l0, l1) in
      let sixty_four' : length second ≡ 64 = omega (arith, l2, length-bits) in
      let zeros : 0x80 ∷ replicate (n + 56) 0 ≡ (0x80 ∷ replicate n 0) ++ replicate 56 0 =
        ap (λ (t : Bytes). 0x80 ∷ t) (sym (replicate_add n 56 0)) in
      let grouped : (rest ++ 0x80 ∷ replicate (n + 56) 0) ++ bits ≡ first ++ second =
        ap (λ (t : Bytes). (rest ++ t) ++ bits) zeros
        ∙ (ap (λ (t : Bytes). t ++ bits)
              (sym (append_assoc rest (0x80 ∷ replicate n 0) (replicate 56 0)))
            ∙ append_assoc first (replicate 56 0) bits) in
      let short : (119 - length (whole ++ rest) % 64) % 64 ≡ n + 56 =
        omega (arith, length-append whole rest) in
      let text = padded-parts (n + 56) short ∙ ap (λ (t : Bytes). whole ++ t) grouped in
      rw text (
        pad_long n room few
        ∙ (sym (whole_blocks_one next second sixty_four')
            ∙ (ap (λ s. whole_blocks 1 s second) (sym (whole_blocks_one state first sixty_four))
                ∙ (sym (whole_blocks-append 1 1 state first second sixty_four)
                    ∙ sym
                        (behind 2 (first ++ second) (omega (arith, length-append first second)))))))

  pub sha256_pad-holds : length rest < 64 → EndsPadded
  unfolding r
  sha256_pad-holds short = elim (dec_lt r 56) [
    | yes few ↦ padded_short (55 - r) (omega arith)
    | no many ↦ padded_long (63 - r) (omega arith) (omega arith)
  ]

-- The digest of the state of a message is that of the message.
pub crypto_hash_sha256_final-state_of :
    (m : Bytes) → length m < 2 ^ 61 → crypto_hash_sha256_final (state_of m) ≡ sha256 m
unfolding state_of crypto_hash_sha256_final sha256
crypto_hash_sha256_final-state_of m small =
    let n = length m / 64 * 64 in
    let whole = take n m in
    let rest = drop n m in
    let l0 = length-take n m in
    let l1 = length-drop n m in
    let same = take-append-drop n m in
    let end = sha256_pad-holds whole rest (omega arith) (omega arith) (omega arith) in
    ap (be32enc_vect 8) (
      end
      ∙ ap (λ (x : Bytes). whole_blocks (length (padded x) / 64) sha256_initial_state (padded x))
          same)

at_once : (m : Bytes) → length m < 2 ^ 61 → crypto_hash_sha256 m ≡ sha256 m
unfolding crypto_hash_sha256
at_once m small =
    ap (λ (st : Sha256State). crypto_hash_sha256_final (crypto_hash_sha256_update st m))
      crypto_hash_sha256_init-state_of
    ∙ (ap crypto_hash_sha256_final (crypto_hash_sha256_update_lem [] m (omega arith))
        ∙ crypto_hash_sha256_final-state_of m small)

in_parts :
    (a b : Bytes)
    → length a + length b < 2 ^ 61
    → crypto_hash_sha256_final
        (crypto_hash_sha256_update (crypto_hash_sha256_update crypto_hash_sha256_init a) b)
      ≡ sha256 (a ++ b)
in_parts a b small =
    ap
      (λ (st : Sha256State).
        crypto_hash_sha256_final (crypto_hash_sha256_update (crypto_hash_sha256_update st a) b))
      crypto_hash_sha256_init-state_of
    ∙ (ap (λ (st : Sha256State). crypto_hash_sha256_final (crypto_hash_sha256_update st b))
          (crypto_hash_sha256_update_lem [] a (omega arith))
        ∙ (ap crypto_hash_sha256_final (crypto_hash_sha256_update_lem a b small)
            ∙ crypto_hash_sha256_final-state_of (a ++ b) (omega (arith, length-append a b))))

-- Hashing at once and in two parts both give SHA-256 of the whole message, of less than 2^61 bytes.
pub crypto_hash_sha256_lem :
    (a b : Bytes)
    → length a + length b < 2 ^ 61
    → (crypto_hash_sha256 (a ++ b) ≡ sha256 (a ++ b))
      × (crypto_hash_sha256_final
            (crypto_hash_sha256_update (crypto_hash_sha256_update crypto_hash_sha256_init a) b)
          ≡ sha256 (a ++ b))
crypto_hash_sha256_lem a b small =
    (at_once (a ++ b) (omega (arith, length-append a b)), in_parts a b small)
