-- ===== src/Chacha20.antt =====
-- src/libsodium/crypto_stream/chacha20/ref/chacha20_ref.c: the portable ChaCha20. A context is its
-- sixteen words, each an `uint32_t`.
pub mod Block
pub mod Counter
pub mod Encrypt
pub mod Context
pub mod Api
pub mod Tests
use libsodium.Base.{
  ℕ, zero, suc, ◌+◌, ◌-◌, ◌*◌, ◌/◌, ◌%◌, ◌^◌, bit_xor, Option, none, some, ◌>>=◌, [], ◌∷◌, ◌++◌,
  List, Bytes, u32, length, take, drop, replicate, if◌then◌else◌, ltb, leb, ◌==◌, ◌>>>◌,
}
use libsodium.Endian.{rotl32, load32_bytes, load32_le, store32_le}

pub record Words : Type 0 where
  pub x0 : ℕ
  pub x1 : ℕ
  pub x2 : ℕ
  pub x3 : ℕ
  pub x4 : ℕ
  pub x5 : ℕ
  pub x6 : ℕ
  pub x7 : ℕ
  pub x8 : ℕ
  pub x9 : ℕ
  pub x10 : ℕ
  pub x11 : ℕ
  pub x12 : ℕ
  pub x13 : ℕ
  pub x14 : ℕ
  pub x15 : ℕ

-- `PLUS` and `PLUSONE`.
abbrev pub plus : ℕ → ℕ → ℕ
plus v w = u32 (v + w)

-- `QUARTERROUND(a, b, c, d)`, which sets the four variables.
unfoldable pub quarter_round : ℕ → ℕ → ℕ → ℕ → ℕ × ℕ × ℕ × ℕ
quarter_round a b c d =
    let a1 = plus a b in
    let d1 = rotl32 (bit_xor d a1) 16 in
    let c1 = plus c d1 in
    let b1 = rotl32 (bit_xor b c1) 12 in
    let a2 = plus a1 b1 in
    let d2 = rotl32 (bit_xor d1 a2) 8 in
    let c2 = plus c1 d2 in let b2 = rotl32 (bit_xor b1 c2) 7 in (a2, b2, c2, d2)

-- The body of the loop: four column rounds and four diagonal rounds.
unfoldable pub double_round : Words → Words
unfolding quarter_round
double_round w =
    let (a0, a4, a8, a12) = quarter_round w.x0 w.x4 w.x8 w.x12 in
    let (a1, a5, a9, a13) = quarter_round w.x1 w.x5 w.x9 w.x13 in
    let (a2, a6, a10, a14) = quarter_round w.x2 w.x6 w.x10 w.x14 in
    let (a3, a7, a11, a15) = quarter_round w.x3 w.x7 w.x11 w.x15 in
    let (b0, b5, b10, b15) = quarter_round a0 a5 a10 a15 in
    let (b1, b6, b11, b12) = quarter_round a1 a6 a11 a12 in
    let (b2, b7, b8, b13) = quarter_round a2 a7 a8 a13 in
    let (b3, b4, b9, b14) = quarter_round a3 a4 a9 a14 in
    record {
      x0 = b0;
      x1 = b1;
      x2 = b2;
      x3 = b3;
      x4 = b4;
      x5 = b5;
      x6 = b6;
      x7 = b7;
      x8 = b8;
      x9 = b9;
      x10 = b10;
      x11 = b11;
      x12 = b12;
      x13 = b13;
      x14 = b14;
      x15 = b15;
    }

-- The loop, with the double rounds left.
unfoldable pub rounds : ℕ → Words → Words
rounds zero w = w
rounds (suc left) w = rounds left (double_round w)

-- The words behind the additions `x0 = PLUS(x0, j0)` and so on.
unfoldable pub key_words : Words → List ℕ
key_words j =
    let x = rounds 10 j in
    plus x.x0 j.x0
    ∷ plus x.x1 j.x1
    ∷ plus x.x2 j.x2
    ∷ plus x.x3 j.x3
    ∷ plus x.x4 j.x4
    ∷ plus x.x5 j.x5
    ∷ plus x.x6 j.x6
    ∷ plus x.x7 j.x7
    ∷ plus x.x8 j.x8
    ∷ plus x.x9 j.x9
    ∷ plus x.x10 j.x10
    ∷ plus x.x11 j.x11
    ∷ plus x.x12 j.x12
    ∷ plus x.x13 j.x13
    ∷ plus x.x14 j.x14
    ∷ plus x.x15 j.x15
    ∷ []

-- `XOR(x, LOAD32_LE(m + 4 * i))` and `STORE32_LE(c + 4 * i, x)` for each word.
unfoldable pub xor_words : List ℕ → Bytes → Bytes
xor_words (w ∷ ws) (m0 ∷ m1 ∷ m2 ∷ m3 ∷ m) =
    store32_le (bit_xor w (load32_bytes m0 m1 m2 m3)) ++ xor_words ws m
xor_words _ _ = []

-- `j12 = PLUSONE(j12)` and the carry into `j13`.
unfoldable pub next_counter : Words → Words
next_counter j =
    let j12 = plus j.x12 1 in record j { x12 = j12; x13 = if j12 == 0 then plus j.x13 1 else j.x13 }

-- `c += 64`: what the later rounds write stands behind the block `c`.
unfoldable pub write_first : Bytes → Option (Bytes × Words) → Option (Bytes × Words)
write_first c none = none
write_first c (some (rest, last)) = some (c ++ rest, last)

-- What the endless loop writes, and the words that it leaves in the context. A round takes 64
-- bytes; the last takes the `bytes` that are left through `tmp`. `none` means that the fuel, one
-- for each round, ran out.
pub encrypt_rounds : ℕ → Words → Bytes → Option (Bytes × Words)
encrypt_rounds zero j m = none
encrypt_rounds (suc fuel) j m =
    let bytes = length m in
    let block = if ltb bytes 64 then m ++ replicate (64 - bytes) 0 else take 64 m in
    let c = xor_words (key_words j) block in
    let more = write_first c (encrypt_rounds fuel (next_counter j) (drop 64 m)) in
    if leb bytes 64 then some (take bytes c, next_counter j) else more

-- `chacha20_encrypt_bytes`: nothing is written and the context stays, if there are no bytes.
unfoldable pub chacha20_encrypt_bytes : Words → Bytes → Option (Bytes × Words)
unfolding encrypt_rounds
chacha20_encrypt_bytes ctx m =
    if length m == 0 then some ([], ctx) else encrypt_rounds (length m) ctx m

-- `chacha_keysetup` fills the first twelve words; `chacha_ivsetup` or `chacha_ietf_ivsetup` gives the
-- last four.
unfoldable pub chacha_setup : Bytes → ℕ → ℕ → ℕ → ℕ → Words
chacha_setup k j12 j13 j14 j15 = record {
  x0 = 0x61707865;
  x1 = 0x3320646e;
  x2 = 0x79622d32;
  x3 = 0x6b206574;
  x4 = load32_le k 0;
  x5 = load32_le k 4;
  x6 = load32_le k 8;
  x7 = load32_le k 12;
  x8 = load32_le k 16;
  x9 = load32_le k 20;
  x10 = load32_le k 24;
  x11 = load32_le k 28;
  x12 = j12;
  x13 = j13;
  x14 = j14;
  x15 = j15;
}

-- The context of the original cipher, with the bytes of its counter, or `NULL`.
pub chacha_context : Bytes → Bytes → Option Bytes → Words
unfolding chacha_setup
chacha_context k iv none = chacha_setup k 0 0 (load32_le iv 0) (load32_le iv 4)
chacha_context k iv (some counter) =
    chacha_setup k (load32_le counter 0) (load32_le counter 4) (load32_le iv 0) (load32_le iv 4)

unfoldable pub chacha_ietf_context : Bytes → Bytes → Option Bytes → Words
unfolding chacha_setup
chacha_ietf_context k iv none = chacha_setup k 0 (load32_le iv 0) (load32_le iv 4) (load32_le iv 8)
chacha_ietf_context k iv (some counter) =
    chacha_setup k (load32_le counter 0) (load32_le iv 0) (load32_le iv 4) (load32_le iv 8)

-- The bytes that a run of the loop writes, without the context.
pub written : Option (Bytes × Words) → Option Bytes
written none = none
written (some (c, ctx)) = some c

-- The four entry points of the implementation; each returns what it writes to `c`.
pub stream_ref : ℕ → Bytes → Bytes → Option Bytes
unfolding written
stream_ref clen n k =
    if clen == 0
    then some []
    else written (chacha20_encrypt_bytes (chacha_context k n none) (replicate clen 0))

unfoldable pub stream_ietf_ext_ref : ℕ → Bytes → Bytes → Option Bytes
unfolding written
stream_ietf_ext_ref clen n k =
    if clen == 0
    then some []
    else written (chacha20_encrypt_bytes (chacha_ietf_context k n none) (replicate clen 0))

pub stream_ref_xor_ic : Bytes → Bytes → ℕ → Bytes → Option Bytes
unfolding written
stream_ref_xor_ic m n ic k =
    let ic_high = u32 (ic >>> 32) in
    let ic_low = u32 ic in
    if length m == 0
    then some []
    else written (
        chacha20_encrypt_bytes (chacha_context k n (some (store32_le ic_low ++ store32_le ic_high)))
          m)

unfoldable pub stream_ietf_ext_ref_xor_ic : Bytes → Bytes → ℕ → Bytes → Option Bytes
unfolding written
stream_ietf_ext_ref_xor_ic m n ic k =
    if length m == 0
    then some []
    else written (chacha20_encrypt_bytes (chacha_ietf_context k n (some (store32_le ic))) m)
