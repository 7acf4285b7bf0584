-- ===== src/Chacha20/Encrypt.antt =====
-- `chacha20_encrypt_bytes` of src/libsodium/crypto_stream/chacha20/ref/chacha20_ref.c xors its
-- input with the key stream of its context, for inputs of every length.
use mathlib.Core.Path.{fun_ext}
use native.Mathlib.Decide.{dec_lt}
use libsodium.Base.{
  ℕ, zero, suc, ◌+◌, ◌-◌, ◌*◌, ◌≤◌, ◌<◌, some, [], ◌∷◌, ◌++◌, ◌≡◌, refl, sym, ap, ◌∙◌, arith, Bytes,
  IsBytes, length, take, drop, replicate, length-append, length-replicate, length-take, length-drop,
  take-append, take-append-drop, take_all, All-append, All-take, All-drop, lt→ltb, le→ltb, le→leb,
  lt→leb, pos→==0,
}
use libsodium.Stream.{xor_stream, length-xor_stream, xor_stream-append, xor_stream_ext}
use libsodium.Chacha20.{
  Words, key_words, xor_words, next_counter, write_first, encrypt_rounds, chacha20_encrypt_bytes,
  written,
}
use libsodium.Chacha20.Block.{block_byte, xor_block}
use libsodium.Chacha20.Counter.{key_at, key_at-first, key_at-next}

zeros-IsBytes : (n : ℕ) → IsBytes (replicate n 0)
zeros-IsBytes zero = tt
zeros-IsBytes (suc n) = (omega arith, zeros-IsBytes n)

xor_block-key_at :
    (j : Words) (m : Bytes)
    → IsBytes m
    → length m ≡ 64
    → xor_words (key_words j) m ≡ xor_stream (key_at j) m
xor_block-key_at j m h e =
    xor_block j m h e
    ∙ xor_stream_ext (block_byte j) (key_at j) m (λ i below. sym (key_at-first j i (omega arith)))

-- A short last block goes through `tmp`, and only its first bytes come out.
xor_block_short :
    (j : Words) (m : Bytes)
    → IsBytes m
    → length m < 64
    → take (length m) (xor_words (key_words j) (m ++ replicate (64 - length m) 0))
      ≡ xor_stream (key_at j) m
xor_block_short j m h short =
    let pad : Bytes = replicate (64 - length m) 0 in
    let full : length (m ++ pad) ≡ 64 =
      omega (arith, length-append m pad, length-replicate {A = ℕ} (64 - length m) 0) in
    let run =
      xor_block-key_at j (m ++ pad)
        (All-append (λ x. x < 256) m pad h (zeros-IsBytes (64 - length m))) full in
    let out = xor_stream (key_at j) m in
    rw (run, xor_stream-append)
      (ap (λ (n : ℕ). take n (out ++ xor_stream (λ i. key_at j (length m + i)) pad))
          (sym (length-xor_stream (key_at j) m))
        ∙ take-append out _)

-- A later round's key stream goes on where the block ended.
xor_stream_after_block :
    (j : Words) (m : Bytes)
    → 64 ≤ length m
    → xor_stream (key_at j) (take 64 m) ++ xor_stream (key_at (next_counter j)) (drop 64 m)
      ≡ xor_stream (key_at j) m
xor_stream_after_block j m long =
    let whole : length (take 64 m) ≡ 64 = omega (arith, length-take 64 m) in
    ap (λ (key : ℕ → ℕ). xor_stream (key_at j) (take 64 m) ++ xor_stream key (drop 64 m))
      (fun_ext (λ (i : ℕ). key_at-next j i ∙ ap (λ (n : ℕ). key_at j (n + i)) (sym whole)))
    ∙ (sym (xor_stream-append (key_at j) (take 64 m) (drop 64 m))
        ∙ ap (xor_stream (key_at j)) (take-append-drop 64 m))

module _ (fuel : ℕ) (j : Words) (m : Bytes) (h : IsBytes m) where
  rounds_short :
      length m < 64 → encrypt_rounds (suc fuel) j m ≡ some (xor_stream (key_at j) m, next_counter j)
  unfolding encrypt_rounds
  rounds_short short =
      rw
        (
          lt→ltb (length m) 64 short,
          le→leb (length m) 64 (omega arith),
          xor_block_short j m h short,
        )
        refl

  rounds_full :
      length m ≡ 64 → encrypt_rounds (suc fuel) j m ≡ some (xor_stream (key_at j) m, next_counter j)
  unfolding encrypt_rounds
  rounds_full full =
      let all : take 64 m ≡ m = take_all 64 m (omega arith) in
      rw (full, all, xor_block-key_at j m h full)
        (ap (λ (c : Bytes). some (c, next_counter j))
          (take_all 64 _ (omega (arith, length-xor_stream (key_at j) m))))

  rounds_more :
      64 < length m
      → encrypt_rounds (suc fuel) j m
        ≡ write_first
            (xor_stream (key_at j) (take 64 m))
            (encrypt_rounds fuel (next_counter j) (drop 64 m))
  unfolding encrypt_rounds
  rounds_more long =
      let whole : length (take 64 m) ≡ 64 = omega (arith, length-take 64 m) in
      rw
        (
          le→ltb (length m) 64 (omega arith),
          lt→leb 64 (length m) long,
          xor_block-key_at j (take 64 m) (All-take (λ x. x < 256) 64 m h) whole,
        )
        refl

-- With fuel for every block, the loop writes the input xored with the key stream.
encrypt_rounds_lem :
    (fuel : ℕ) (j : Words) (m : Bytes)
    → IsBytes m
    → 0 < length m
    → length m ≤ fuel * 64
    → (last : Words) × (encrypt_rounds fuel j m ≡ some (xor_stream (key_at j) m, last))
unfolding write_first
encrypt_rounds_lem zero j m h pos enough = absurd (omega arith)
encrypt_rounds_lem (suc fuel) j m h pos enough = elim (dec_lt (length m) 64) [
  | yes short ↦ (next_counter j, rounds_short fuel j m h short)
  | no long ↦ elim (dec_lt 64 (length m)) [
    | no not_more ↦ (next_counter j, rounds_full fuel j m h (omega arith))
    | yes more ↦
        let (last, run) =
          encrypt_rounds_lem fuel (next_counter j) (drop 64 m) (All-drop (λ x. x < 256) 64 m h)
            (omega (arith, length-drop 64 m)) (omega (arith, length-drop 64 m)) in
        (
          last,
          rounds_more fuel j m h more
              ∙ (ap (write_first (xor_stream (key_at j) (take 64 m))) run
                  ∙ ap (λ (c : Bytes). some (c, last)) (xor_stream_after_block j m (omega arith))),
        )
  ]
]

-- `chacha20_encrypt_bytes` never runs out of its fuel, and what it writes is its input xored with
-- the key stream of the context: byte `i` of the stream lies in the block of the 64-bit counter
-- advanced `i / 64` times.
pub chacha20_encrypt_bytes_lem :
    (ctx : Words) (m : Bytes)
    → IsBytes m
    → written (chacha20_encrypt_bytes ctx m) ≡ some (xor_stream (key_at ctx) m)
unfolding chacha20_encrypt_bytes written
chacha20_encrypt_bytes_lem ctx [] h = unfold xor_stream in refl
chacha20_encrypt_bytes_lem ctx (x ∷ m) h =
    let (last, run) =
      encrypt_rounds_lem (length (x ∷ m)) ctx (x ∷ m) h (omega arith) (omega arith) in
    rw (pos→==0 (length (x ∷ m)) (omega arith)) (ap written run)
