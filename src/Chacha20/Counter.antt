-- ===== src/Chacha20/Counter.antt =====
-- The key stream of src/libsodium/crypto_stream/chacha20/ref/chacha20_ref.c as a function of the
-- position: the block that a position lies in is that of the counter advanced so often.
use libsodium.Base.{ℕ, zero, suc, ◌+◌, ◌*◌, ◌/◌, ◌%◌, ◌<◌, ◌≡◌, refl, ap, ◌∙◌, arith}
use libsodium.Chacha20.{Words, next_counter}
use libsodium.Chacha20.Block.{block_byte, block_byte-lt}

unfoldable pub advance : ℕ → Words → Words
advance zero j = j
advance (suc k) j = advance k (next_counter j)

pub key_at : Words → ℕ → ℕ
key_at j i = block_byte (advance (i / 64) j) (i % 64)

pub key_at-lt : (j : Words) (i : ℕ) → key_at j i < 256
unfolding key_at
key_at-lt j i = block_byte-lt (advance (i / 64) j) (i % 64)

pub key_at-first : (j : Words) (i : ℕ) → i < 64 → key_at j i ≡ block_byte j i
unfolding key_at advance
key_at-first j i h =
    let none_passed : i / 64 ≡ 0 = omega arith in
    let same : i % 64 ≡ i = omega arith in rw (none_passed, same) refl

pub key_at-next : (j : Words) (i : ℕ) → key_at (next_counter j) i ≡ key_at j (64 + i)
unfolding key_at advance
key_at-next j i =
    let one_more : (64 + i) / 64 ≡ suc (i / 64) = omega arith in
    let same : (64 + i) % 64 ≡ i % 64 = omega arith in rw (one_more, same) refl

pub key_at-advance : (k : ℕ) (j : Words) (i : ℕ) → key_at (advance k j) i ≡ key_at j (k * 64 + i)
unfolding advance
key_at-advance zero j i = ap (key_at j) (omega arith)
key_at-advance (suc k) j i =
    key_at-advance k (next_counter j) i ∙ (key_at-next j (k * 64 + i) ∙ ap (key_at j) (omega arith))
