-- ===== src/Stream.antt =====
-- What every stream cipher of the library promises: the output is the input xored with a key
-- stream, byte by byte. A key stream is a function from positions to bytes.
use libsodium.Base.{
  ℕ, suc, ◌+◌, ◌<◌, bit_xor, [], ◌∷◌, ◌++◌, ◌≡◌, refl, ap, ap₂, ◌∙◌, arith, Bytes, IsBytes, length,
}
use mathlib.Core.Path.{fun_ext}
use libsodium.Bits.Xor.{bit_xor_cancel, bit_xor-lt}

unfoldable pub xor_stream : (ℕ → ℕ) → Bytes → Bytes
xor_stream key [] = []
xor_stream key (x ∷ m) = bit_xor x (key 0) ∷ xor_stream (λ i. key (suc i)) m

pub length-xor_stream : (key : ℕ → ℕ) (m : Bytes) → length (xor_stream key m) ≡ length m
unfolding xor_stream
length-xor_stream key [] = refl
length-xor_stream key (x ∷ m) = ap suc (length-xor_stream (λ i. key (suc i)) m)

-- Applying the same key stream twice gives the message back.
pub xor_stream_twice : (key : ℕ → ℕ) (m : Bytes) → xor_stream key (xor_stream key m) ≡ m
unfolding xor_stream
xor_stream_twice key [] = refl
xor_stream_twice key (x ∷ m) =
    ap₂ ◌∷◌ (bit_xor_cancel x (key 0)) (xor_stream_twice (λ i. key (suc i)) m)

-- The second part of a message is xored with the key stream from its own position on.
pub xor_stream-append :
    (key : ℕ → ℕ) (a b : Bytes)
    → xor_stream key (a ++ b) ≡ xor_stream key a ++ xor_stream (λ i. key (length a + i)) b
unfolding xor_stream
xor_stream-append key [] b =
    ap (λ (k : ℕ → ℕ). xor_stream k b) (fun_ext (λ (i : ℕ). ap key (omega arith)))
xor_stream-append key (x ∷ a) b =
    ap (λ t. bit_xor x (key 0) ∷ t)
      (xor_stream-append (λ i. key (suc i)) a b
        ∙ ap (λ (k : ℕ → ℕ). xor_stream (λ i. key (suc i)) a ++ xor_stream k b)
            (fun_ext (λ (i : ℕ). ap key (omega arith))))

pub xor_stream-IsBytes :
    (key : ℕ → ℕ) (m : Bytes) → ((i : ℕ) → key i < 256) → IsBytes m → IsBytes (xor_stream key m)
unfolding xor_stream
xor_stream-IsBytes key [] k h = tt
xor_stream-IsBytes key (x ∷ m) k (hx, h) =
    (bit_xor-lt 8 x (key 0) hx (k 0), xor_stream-IsBytes (λ i. key (suc i)) m (λ i. k (suc i)) h)

-- Two key streams that agree encrypt alike.
pub xor_stream_ext :
    (key key' : ℕ → ℕ) (m : Bytes)
    → ((i : ℕ) → i < length m → key i ≡ key' i)
    → xor_stream key m ≡ xor_stream key' m
unfolding xor_stream
xor_stream_ext key key' [] h = refl
xor_stream_ext key key' (x ∷ m) h =
    ap₂ ◌∷◌ (ap (bit_xor x) (h 0 (omega arith)))
      (xor_stream_ext (λ i. key (suc i)) (λ i. key' (suc i)) m (λ i below. h (suc i) (omega arith)))
