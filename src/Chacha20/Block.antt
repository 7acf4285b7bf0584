-- ===== src/Chacha20/Block.antt =====
-- One block of src/libsodium/crypto_stream/chacha20/ref/chacha20_ref.c: the words that are loaded,
-- xored and stored are a bytewise exclusive or with the stored key words.
use libsodium.Base.{
  ℕ, ◌*◌, ◌<◌, bit_xor, List, [], ◌∷◌, ◌++◌, ◌≡◌, refl, ap, ap₂, ◌∙◌, arith, Bytes, IsBytes, length,
  get_or, All-get_or, u8, ◌>>>◌,
}
use libsodium.Bits.Xor.{bit_xor_comm}
use libsodium.Endian.{store32_le}
use libsodium.Endian.Laws.{store32_le-xor}
use libsodium.Stream.{xor_stream}
use libsodium.Chacha20.{Words, key_words, xor_words}

pub store_words : List ℕ → Bytes
store_words [] = []
store_words (w ∷ ws) = store32_le w ++ store_words ws

-- The byte `i` of the key block.
pub block_byte : Words → ℕ → ℕ
block_byte j i = get_or (store_words (key_words j)) i 0

four_bytes :
    (w : ℕ) (m0 m1 m2 m3 : ℕ) (ks tail : Bytes)
    → tail ≡ ks
    → bit_xor (u8 w) m0
        ∷ bit_xor (u8 (w >>> 8)) m1
        ∷ bit_xor (u8 (w >>> 8 >>> 8)) m2
        ∷ bit_xor (u8 (w >>> 8 >>> 8 >>> 8)) m3
        ∷ tail
      ≡ bit_xor m0 (u8 w)
        ∷ bit_xor m1 (u8 (w >>> 8))
        ∷ bit_xor m2 (u8 (w >>> 8 >>> 8))
        ∷ bit_xor m3 (u8 (w >>> 8 >>> 8 >>> 8))
        ∷ ks
four_bytes w m0 m1 m2 m3 ks tail e =
    ap₂ ◌∷◌ (bit_xor_comm _ m0)
      (ap₂ ◌∷◌ (bit_xor_comm _ m1) (ap₂ ◌∷◌ (bit_xor_comm _ m2) (ap₂ ◌∷◌ (bit_xor_comm _ m3) e)))

xor_words-xor_stream :
    (ws : List ℕ) (m : Bytes)
    → IsBytes m
    → length m ≡ 4 * length ws
    → xor_words ws m ≡ xor_stream (λ i. get_or (store_words ws) i 0) m
unfolding xor_words xor_stream store_words store32_le
xor_words-xor_stream [] [] h e = refl
xor_words-xor_stream [] (x ∷ m) h e = absurd (omega arith)
xor_words-xor_stream (w ∷ ws) [] h e = absurd (omega arith)
xor_words-xor_stream (w ∷ ws) (m0 ∷ []) h e = absurd (omega arith)
xor_words-xor_stream (w ∷ ws) (m0 ∷ m1 ∷ []) h e = absurd (omega arith)
xor_words-xor_stream (w ∷ ws) (m0 ∷ m1 ∷ m2 ∷ []) h e = absurd (omega arith)
xor_words-xor_stream (w ∷ ws) (m0 ∷ m1 ∷ m2 ∷ m3 ∷ m) (h0, (h1, (h2, (h3, h)))) e =
    ap (λ (t : Bytes). t ++ xor_words ws m) (store32_le-xor w m0 m1 m2 m3 h0 h1 h2 h3)
    ∙ four_bytes w m0 m1 m2 m3 _ _ (xor_words-xor_stream ws m h (omega arith))

length-key_words : (j : Words) → length (key_words j) ≡ 16
unfolding key_words
length-key_words j = refl

-- A whole block: 64 bytes.
pub xor_block :
    (j : Words) (m : Bytes)
    → IsBytes m
    → length m ≡ 64
    → xor_words (key_words j) m ≡ xor_stream (block_byte j) m
unfolding block_byte
xor_block j m h e = xor_words-xor_stream (key_words j) m h (omega (arith, length-key_words j))

store_words-lt : (ws : List ℕ) → IsBytes (store_words ws)
unfolding store_words store32_le
store_words-lt [] = tt
store_words-lt (w ∷ ws) =
    (omega arith, (omega arith, (omega arith, (omega arith, store_words-lt ws))))

pub block_byte-lt : (j : Words) (i : ℕ) → block_byte j i < 256
unfolding block_byte
block_byte-lt j i =
    All-get_or (λ x. x < 256) (store_words (key_words j)) i 0 (store_words-lt (key_words j))
      (omega arith)
