-- ===== src/Sha256/Stream.antt =====
-- Streamed input in src/libsodium/crypto_hash/sha256/cp/hash_sha256_cp.c: the state that stands for
-- the bytes seen so far.
use libsodium.Base.{
  ℕ, ◌+◌, ◌-◌, ◌*◌, ◌/◌, ◌%◌, ◌^◌, ◌<◌, ◌≤◌, bit_and, true, false, ◌≡◌, refl, sym, ap, ap₂, ◌∙◌,
  arith, Bytes, [], ◌∷◌, ◌++◌, append-nil, append_assoc, u64, ◌<<<◌, ◌>>>◌, length, take, drop,
  take_all, take-append, drop-append, take-append-drop, length-take, length-drop, length-append,
  pos→==0, lt→ltb, le→ltb, ltb,
}
use native.Mathlib.Decide.{dec_lt, ℕ_discrete}
use libsodium.Bits.And.{bit_and-mask}
use libsodium.Sha256.{
  Sha256State, waiting, whole_blocks, sha256_transform, sha256_initial_state, update_blocks,
  crypto_hash_sha256_init, crypto_hash_sha256_update,
}
use libsodium.Sha256.Blocks.{whole_blocks-append, whole_blocks-prefix, whole_blocks_one}

-- The state behind whole blocks and a shorter rest.
abbrev pub holds : Bytes → Bytes → Sha256State
holds whole rest = record {
  state = whole_blocks (length whole / 64) sha256_initial_state whole;
  count = (length whole + length rest) * 8;
  buf = rest;
}

state_≡ : {a b : Sha256State} → a.state ≡ b.state → a.count ≡ b.count → a.buf ≡ b.buf → a ≡ b
state_≡ p q r i = record { state = p i; count = q i; buf = r i }

-- The state of a message: its whole blocks are in, and the rest is kept.
unfoldable pub state_of : Bytes → Sha256State
state_of m = holds (take (length m / 64 * 64) m) (drop (length m / 64 * 64) m)

pub state_of-append :
    (whole rest : Bytes)
    → length whole % 64 ≡ 0
    → length rest < 64
    → state_of (whole ++ rest) ≡ holds whole rest
unfolding state_of
state_of-append whole rest full short =
    let cut : length (whole ++ rest) / 64 * 64 ≡ length whole =
      omega (arith, length-append whole rest) in
    ap₂ holds (ap (λ n. take n (whole ++ rest)) cut ∙ take-append whole rest)
      (ap (λ n. drop n (whole ++ rest)) cut ∙ drop-append whole rest)

nil_of_length : (m : Bytes) → length m ≡ 0 → m ≡ []
nil_of_length [] e = refl
nil_of_length (x ∷ m) e = absurd (omega arith)

module _ (whole rest : Bytes) (full : length whole % 64 ≡ 0) (short : length rest < 64) where
  pub waiting-holds : length whole + length rest < 2 ^ 61 → waiting (holds whole rest) ≡ length rest
  unfolding waiting
  waiting-holds small =
      let n = ((length whole + length rest) * 8) >>> 3 in
      let low : bit_and n 0x3f ≡ n % 64 = bit_and-mask 6 n in omega (arith, low)

  module _ (input : Bytes) (small : length whole + length rest + length input < 2 ^ 61) where
    counted :
        u64 ((length whole + length rest) * 8 + u64 (length input <<< 3))
        ≡ (length whole + length rest + length input) * 8
    counted = omega arith

    -- The input does not fill the buffer.
    update_short :
        0 < length input
        → length rest + length input < 64
        → crypto_hash_sha256_update (holds whole rest) input ≡ holds whole (rest ++ input)
    unfolding crypto_hash_sha256_update
    update_short some_input room =
        let here = waiting-holds (omega arith) in
        let nonempty = pos→==0 (length input) some_input in
        let fits : ltb (length input) (64 - length rest) ≡ true =
          lt→ltb (length input) (64 - length rest) (omega arith) in
        let all = take_all (length rest) rest (omega arith) in
        let total : (length whole + length rest + length input) * 8
            ≡ (length whole + length (rest ++ input)) * 8 =
          omega (arith, length-append rest input) in
        rw (here, nonempty, fits, counted, all, total) refl

    -- The block that the input completes, the blocks behind it and what is left.
    block : Bytes
    block = rest ++ take (64 - length rest) input

    behind : Bytes
    behind = drop (64 - length rest) input

    left : ℕ
    left = length behind / 64

    length-block : 64 ≤ length rest + length input → length block ≡ 64
    unfolding block
    length-block room = omega (
      arith,
      length-append rest (take (64 - length rest) input),
      length-take (64 - length rest) input,
    )

    length-behind :
        64 ≤ length rest + length input → length behind + 64 ≡ length rest + length input
    unfolding behind
    length-behind room = omega (arith, length-drop (64 - length rest) input)

    length-blocks : length (take (left * 64) behind) ≡ left * 64
    unfolding left
    length-blocks = omega (arith, length-take (left * 64) behind)

    length-left : length (drop (left * 64) behind) ≡ length behind % 64
    unfolding left
    length-left = omega (arith, length-drop (left * 64) behind)

    parts : Bytes
    parts = block ++ take (left * 64) behind

    blocks_in :
        64 ≤ length rest + length input
        → whole_blocks (length (whole ++ parts) / 64) sha256_initial_state (whole ++ parts)
          ≡ whole_blocks left
              (sha256_transform (whole_blocks (length whole / 64) sha256_initial_state whole) block)
              behind
    unfolding parts
    blocks_in room =
        let q = length whole / 64 in
        let state = whole_blocks q sha256_initial_state whole in
        let blocks = take (left * 64) behind in
        let next = sha256_transform state block in
        let sixty_four = length-block room in
        let count : length (whole ++ parts) / 64 ≡ q + (1 + left) =
          omega (arith, length-append whole parts, length-append block blocks, length-blocks) in
        ap (λ n. whole_blocks n sha256_initial_state (whole ++ parts)) count
        ∙ (whole_blocks-append q (1 + left) sha256_initial_state whole parts (omega arith)
            ∙ (whole_blocks-append 1 left state block blocks sixty_four
                ∙ (ap (λ s. whole_blocks left s blocks) (whole_blocks_one state block sixty_four)
                    ∙ (sym (
                          whole_blocks-prefix left next blocks (drop (left * 64) behind)
                            length-blocks)
                        ∙ ap (whole_blocks left next) (take-append-drop (left * 64) behind)))))

    count_in :
        64 ≤ length rest + length input
        → (length whole + length rest + length input) * 8
          ≡ (length (whole ++ parts) + length (drop (left * 64) behind)) * 8
    unfolding parts left
    count_in room = omega (
      arith,
      length-append whole parts,
      length-append block (take (left * 64) behind),
      length-blocks,
      length-left,
      length-block room,
      length-behind room,
    )

    rest_in : take (bit_and (length behind) 63) (drop (left * 64) behind) ≡ drop (left * 64) behind
    rest_in =
        let low : bit_and (length behind) 63 ≡ length behind % 64 =
          bit_and-mask 6 (length behind) in
        take_all (bit_and (length behind) 63) (drop (left * 64) behind)
          (omega (arith, low, length-left))

    whole_parts : 64 ≤ length rest + length input → length (whole ++ parts) % 64 ≡ 0
    unfolding parts
    whole_parts room = omega (
      arith,
      length-append whole parts,
      length-append block (take (left * 64) behind),
      length-blocks,
      length-block room,
    )

    update_long :
        64 ≤ length rest + length input
        → crypto_hash_sha256_update (holds whole rest) input
          ≡ holds (whole ++ parts) (drop (left * 64) behind)
    unfolding crypto_hash_sha256_update update_blocks block behind left parts
    update_long room =
        let here = waiting-holds (omega arith) in
        let nonempty = pos→==0 (length input) (omega arith) in
        let over : ltb (length input) (64 - length rest) ≡ false =
          le→ltb (length input) (64 - length rest) (omega arith) in
        let all = take_all (length rest) rest (omega arith) in
        rw (here, nonempty, over, counted, all)
          (state_≡ (sym (blocks_in room)) (count_in room) rest_in)

    update_empty :
        length input ≡ 0
        → crypto_hash_sha256_update (holds whole rest) input ≡ state_of (whole ++ (rest ++ input))
    unfolding crypto_hash_sha256_update
    update_empty empty =
        let nothing : input ≡ [] = nil_of_length input empty in
        let same : rest ++ input ≡ rest = ap (λ (x : Bytes). rest ++ x) nothing ∙ append-nil rest in
        rw empty (
          sym (state_of-append whole rest full short)
          ∙ ap (λ (x : Bytes). state_of (whole ++ x)) (sym same))

    regrouped :
        64 ≤ length rest + length input
        → (whole ++ parts) ++ drop (left * 64) behind ≡ whole ++ (rest ++ input)
    unfolding parts block behind
    regrouped room =
        let n = 64 - length rest in
        let blocks = take (left * 64) behind in
        append_assoc whole parts (drop (left * 64) behind)
        ∙ ap (λ (x : Bytes). whole ++ x)
            (append_assoc block blocks (drop (left * 64) behind)
              ∙ (ap (λ (x : Bytes). block ++ x) (take-append-drop (left * 64) behind)
                  ∙ (append_assoc rest (take n input) (drop n input)
                      ∙ ap (λ (x : Bytes). rest ++ x) (take-append-drop n input))))

    -- The bytes taken in stand behind those seen before.
    pub update-holds :
        crypto_hash_sha256_update (holds whole rest) input ≡ state_of (whole ++ (rest ++ input))
    update-holds = elim (ℕ_discrete (length input) 0) [
      | yes empty ↦ update_empty empty
      | no nonempty ↦ elim (dec_lt (length rest + length input) 64) [
        | yes room ↦
            update_short (omega arith) room
            ∙ sym (
                state_of-append whole (rest ++ input) full
                  (omega (arith, length-append rest input)))
        | no over ↦
            update_long (omega arith)
            ∙ (sym (
                  state_of-append (whole ++ parts) (drop (left * 64) behind)
                    (whole_parts (omega arith)) (omega (arith, length-left)))
                ∙ ap state_of (regrouped (omega arith)))
      ]
    ]

-- The state of a message takes in more bytes and is the state of the longer message.
pub crypto_hash_sha256_update_lem :
    (m input : Bytes)
    → length m + length input < 2 ^ 61
    → crypto_hash_sha256_update (state_of m) input ≡ state_of (m ++ input)
unfolding state_of
crypto_hash_sha256_update_lem m input small =
    let n = length m / 64 * 64 in
    let whole = take n m in
    let rest = drop n m in
    let l0 = length-take n m in
    let l1 = length-drop n m in
    let full : length whole % 64 ≡ 0 = omega arith in
    let short : length rest < 64 = omega arith in
    update-holds whole rest full short input (omega arith)
    ∙ ap state_of (
        sym (append_assoc whole rest input) ∙ ap (λ (x : Bytes). x ++ input) (take-append-drop n m))

pub crypto_hash_sha256_init-state_of : crypto_hash_sha256_init ≡ state_of []
unfolding crypto_hash_sha256_init state_of whole_blocks
crypto_hash_sha256_init-state_of = refl
