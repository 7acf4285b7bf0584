-- ===== src/Sha256/Hkdf.antt =====
-- src/libsodium/crypto_kdf/hkdf/kdf_hkdf_sha256.c: the extraction calls HMAC as it is, and the
-- expansion is a loop over blocks of 32 bytes.
use libsodium.Base.{
  ℕ, zero, suc, ◌+◌, ◌-◌, ◌*◌, ◌/◌, ◌%◌, ◌^◌, ◌<◌, ◌≤◌, bit_and, false, ◌≡◌, ◌⊎◌, inl, inr, refl,
  sym, ap, ap₂, ◌∙◌, arith, Bytes, [], ◌∷◌, ◌++◌, append-nil, append_assoc, u8, length,
  length-append, take, drop, drop-append, if◌then◌else◌, ltb, ◌==◌, pos→==0, lt→ltb, le→ltb, Result,
  ok, error,
}
use native.Mathlib.Nat.{zero-add, suc-add, add-zero}
use native.Mathlib.Decide.{ℕ_discrete, dec_lt}
use libsodium.Bits.And.{bit_and-mask}
use libsodium.Sha256.Hmac.{
  HmacSha256State, crypto_auth_hmacsha256_init, crypto_auth_hmacsha256_update,
  crypto_auth_hmacsha256_final, hmac,
}
use libsodium.Sha256.Hmac.Laws.{
  length-hmac, hmac_state, init-hmac_state, update-hmac_state, final-hmac_state,
}

abbrev pub crypto_kdf_hkdf_sha256_extract_init : Bytes → HmacSha256State
crypto_kdf_hkdf_sha256_extract_init salt = crypto_auth_hmacsha256_init salt

abbrev pub crypto_kdf_hkdf_sha256_extract_update : HmacSha256State → Bytes → HmacSha256State
crypto_kdf_hkdf_sha256_extract_update st ikm = crypto_auth_hmacsha256_update st ikm

abbrev pub crypto_kdf_hkdf_sha256_extract_final : HmacSha256State → Bytes
crypto_kdf_hkdf_sha256_extract_final st = crypto_auth_hmacsha256_final st

unfoldable pub crypto_kdf_hkdf_sha256_extract : Bytes → Bytes → Bytes
crypto_kdf_hkdf_sha256_extract salt ikm =
    crypto_kdf_hkdf_sha256_extract_final
      (crypto_kdf_hkdf_sha256_extract_update (crypto_kdf_hkdf_sha256_extract_init salt) ikm)

take_add : (xs ys : Bytes) (k : ℕ) → take (length xs + k) (xs ++ ys) ≡ xs ++ take k ys
take_add [] ys k = ap (λ n. take n ys) (zero-add k)
take_add (x ∷ xs) ys k =
    ap (λ n. take n (x ∷ (xs ++ ys))) (suc-add (length xs) k) ∙ ap (λ t. x ∷ t) (take_add xs ys k)

module _ (ctx prk : Bytes) where
  -- One tag, over the last 32 bytes of what was written, if any, the context and the counter.
  unfoldable pub expand_block : Bytes → ℕ → Bytes
  expand_block out counter =
      let st = crypto_auth_hmacsha256_init prk in
      let previous = drop (length out - 32) out in
      let st' = if length out == 0 then st else crypto_auth_hmacsha256_update st previous in
      crypto_auth_hmacsha256_final
        (crypto_auth_hmacsha256_update (crypto_auth_hmacsha256_update st' ctx) (counter ∷ []))

  -- The loop over whole blocks, with the rounds left: what was written and the counter.
  unfoldable pub expand_loop : ℕ → Bytes → ℕ → Bytes × ℕ
  expand_loop zero out counter = (out, counter)
  expand_loop (suc left) out counter =
      expand_loop left (out ++ expand_block out counter) (u8 (counter + 1))

  unfoldable pub crypto_kdf_hkdf_sha256_expand : ℕ → Result Bytes
  crypto_kdf_hkdf_sha256_expand out_len =
      let (out, counter) = expand_loop (out_len / 32) [] 1 in
      let left = bit_and out_len (32 - 1) in
      if ltb (0xff * 32) out_len
      then error
      else if left == 0
      then ok out
      else ok (out ++ take left (expand_block out counter))

  -- HKDF of RFC 5869: the chained tags, and their concatenation.
  unfoldable pub chained : ℕ → Bytes
  chained zero = []
  chained (suc n) = hmac prk (chained n ++ (ctx ++ suc n ∷ []))

  unfoldable pub stream : ℕ → Bytes
  stream zero = []
  stream (suc n) = stream n ++ chained (suc n)

  length-stream : (n : ℕ) → length (stream n) ≡ n * 32
  unfolding stream chained
  length-stream zero = refl
  length-stream (suc n) = omega (
    arith,
    length-append (stream n) (chained (suc n)),
    length-stream n,
    length-hmac prk (chained n ++ (ctx ++ suc n ∷ [])),
  )

  length-chained : (n : ℕ) → length (chained n) ≤ 32
  unfolding chained
  length-chained zero = omega arith
  length-chained (suc n) = omega (arith, length-hmac prk (chained n ++ (ctx ++ suc n ∷ [])))

  module _ (small_ctx : length ctx < 2 ^ 60) (small_prk : length prk < 2 ^ 61) where
    -- Two updates behind what the tag begins with.
    tag_of :
        (m : Bytes) (c : ℕ)
        → length m ≤ 32
        → crypto_auth_hmacsha256_final (
            crypto_auth_hmacsha256_update
              (crypto_auth_hmacsha256_update (hmac_state prk m) ctx)
              (c ∷ []))
          ≡ hmac prk (m ++ (ctx ++ c ∷ []))
    tag_of m c short =
        let l0 = length-append m ctx in
        let l1 = length-append (m ++ ctx) (c ∷ []) in
        ap
          (λ (st : HmacSha256State).
            crypto_auth_hmacsha256_final (crypto_auth_hmacsha256_update st (c ∷ [])))
          (update-hmac_state prk m ctx (omega arith))
        ∙ (ap crypto_auth_hmacsha256_final (update-hmac_state prk (m ++ ctx) (c ∷ []) (omega arith))
            ∙ (final-hmac_state prk ((m ++ ctx) ++ c ∷ []) (omega arith)
                ∙ ap (hmac prk) (append_assoc m ctx (c ∷ []))))

    block_first : (c : ℕ) → expand_block [] c ≡ hmac prk (ctx ++ c ∷ [])
    unfolding expand_block
    block_first c = rw (init-hmac_state prk small_prk) (tag_of [] c (omega arith))

    block_behind :
        (out last : Bytes) (c : ℕ)
        → length last ≡ 32
        → expand_block (out ++ last) c ≡ hmac prk (last ++ (ctx ++ c ∷ []))
    unfolding expand_block
    block_behind out last c whole =
        let all = length-append out last in
        let some_written : (length (out ++ last) == 0) ≡ false =
          pos→==0 (length (out ++ last)) (omega arith) in
        let place : length (out ++ last) - 32 ≡ length out = omega arith in
        let previous : drop (length (out ++ last) - 32) (out ++ last) ≡ last =
          ap (λ k. drop k (out ++ last)) place ∙ drop-append out last in
        rw
          (
            some_written,
            previous,
            init-hmac_state prk small_prk,
            update-hmac_state prk [] last (omega arith),
          )
          (tag_of last c (omega arith))

    expand_block-stream : (n : ℕ) → expand_block (stream n) (suc n) ≡ chained (suc n)
    unfolding stream chained
    expand_block-stream zero = block_first 1
    expand_block-stream (suc n) =
        block_behind (stream n) (chained (suc n)) (suc (suc n))
          (length-hmac prk (chained n ++ (ctx ++ suc n ∷ [])))

    expand_loop-stream :
        (left n : ℕ)
        → n + left ≤ 255
        → expand_loop left (stream n) (u8 (suc n)) ≡ (stream (n + left), u8 (suc (n + left)))
    unfolding expand_loop stream
    expand_loop-stream zero n few = ap (λ (k : ℕ). (stream k, u8 (suc k))) (sym (add-zero n))
    expand_loop-stream (suc left) n few =
        let counter : u8 (suc n) ≡ suc n = omega arith in
        let next : u8 (u8 (suc n) + 1) ≡ u8 (suc (suc n)) = omega arith in
        let block : expand_block (stream n) (u8 (suc n)) ≡ chained (suc n) =
          ap (expand_block (stream n)) counter ∙ expand_block-stream n in
        let place : suc n + left ≡ n + suc left = omega arith in
        ap₂ (λ (b : Bytes) (c : ℕ). expand_loop left (stream n ++ b) c) block next
        ∙ (expand_loop-stream left (suc n) (omega arith)
            ∙ ap (λ (k : ℕ). (stream k, u8 (suc k))) place)

    whole_or_part :
        (q left : ℕ)
        → take (q * 32 + left) (stream (suc q)) ≡ stream q ++ take left (chained (suc q))
    unfolding stream
    whole_or_part q left =
        ap (λ k. take (k + left) (stream q ++ chained (suc q))) (sym (length-stream q))
        ∙ take_add (stream q) (chained (suc q)) left

    from_start : (q : ℕ) → q ≤ 255 → expand_loop q [] 1 ≡ (stream q, u8 (suc q))
    unfolding stream
    from_start q few =
        expand_loop-stream q 0 (omega arith) ∙ ap (λ (k : ℕ). (stream k, u8 (suc k))) (zero-add q)

    -- What follows the loop writes the rest of a block, if any.
    expanded :
        (out_len : ℕ)
        → out_len ≤ 255 * 32
        → (let (out, counter) = expand_loop (out_len / 32) [] 1 in
            let left = bit_and out_len (32 - 1) in
            if left == 0 then ok out else ok (out ++ take left (expand_block out counter)))
          ≡ ok (take out_len (stream (suc (out_len / 32))))
    expanded out_len few =
        let q = out_len / 32 in
        let left = out_len % 32 in
        let low : bit_and out_len (32 - 1) ≡ left = bit_and-mask 5 out_len in
        let whole : q * 32 + left ≡ out_len = omega arith in
        let parts : stream q ++ take left (chained (suc q)) ≡ take out_len (stream (suc q)) =
          sym (whole_or_part q left) ∙ ap (λ k. take k (stream (suc q))) whole in
        rw (from_start q (omega arith), low)
          (elim (ℕ_discrete left 0) [
            | yes none_left ↦
                let nothing : take left (chained (suc q)) ≡ [] =
                  ap (λ k. take k (chained (suc q))) none_left in
                rw none_left (
                  ap ok (
                    sym (append-nil (stream q))
                    ∙ (ap (λ (t : Bytes). stream q ++ t) (sym nothing) ∙ parts)))
            | no some_left ↦
                let counter : u8 (suc q) ≡ suc q = omega arith in
                rw (pos→==0 left (omega arith), counter, expand_block-stream q) (ap ok parts)
          ])

    -- For a context of less than 2^60 bytes and a key of less than 2^61, the expansion writes the
    -- beginning of HKDF's output where at most 255 blocks are asked for, and fails where more are.
    pub crypto_kdf_hkdf_sha256_expand_lem :
        (out_len : ℕ)
        → ((out_len ≤ 255 * 32)
            × (crypto_kdf_hkdf_sha256_expand out_len
                ≡ ok (take out_len (stream (suc (out_len / 32))))))
          ⊎ ((255 * 32 < out_len) × (crypto_kdf_hkdf_sha256_expand out_len ≡ error))
    unfolding crypto_kdf_hkdf_sha256_expand
    crypto_kdf_hkdf_sha256_expand_lem out_len = elim (dec_lt (255 * 32) out_len) [
      | yes large ↦ inr (large, rw (lt→ltb (0xff * 32) out_len large) refl)
      | no small ↦
          let fits : ltb (0xff * 32) out_len ≡ false = le→ltb (0xff * 32) out_len (omega arith) in
          inl (omega arith, rw fits (expanded out_len (omega arith)))
    ]
