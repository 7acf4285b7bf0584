-- ===== src/Codecs/Base64/RoundTrip.antt =====
-- Decoding what was encoded (src/libsodium/sodium/codecs.c), in the four variants of Base64.
use libsodium.Base.{
  ℕ, zero, suc, ◌+◌, ◌-◌, ◌*◌, ◌/◌, ◌%◌, ◌^◌, ◌<◌, ◌≤◌, bit_and, Bool, true, false, ◌≡◌, refl, sym,
  ap, ◌∙◌, arith, Bytes, IsBytes, length, length-append, length-replicate, [], ◌∷◌, ◌++◌,
  append-nil, append_assoc, Option, none, ◌==◌, if◌then◌else◌, ltb, le→ltb, lt→leb, replicate, drop,
  drop-append, ok, Bool-cases, inl, inr,
}
use native.Mathlib.Nat.{add-zero, zero-add}
use libsodium.Bits.And.{bit_and-mask}
use libsodium.Codecs.Hex.{unchanged, ignored, size_max}
use libsodium.Codecs.Base64.{
  is_variant, is_padded, is_urlsafe, text_len, Base64Decoder, decode_loop, skip_padding,
  skip_ignored, read_padding, base642bin_finish, sodium_bin2base64, sodium_base642bin,
}
use libsodium.Codecs.Base64.Sextets.{from_char_padding}
use libsodium.Codecs.Base64.Text.{b64_text, encode_loop-text}
use libsodium.Codecs.Base64.Decoding.{spare, decoder, decode_loop-b64_text}

-- Six bits for each character, those to spare included.
length-b64_text :
    (u : Bool) (bin : Bytes)
    → (length (b64_text u bin) * 6 ≡ length bin * 8 + spare bin)
      × (spare bin ≡ length bin % 3 * 4 % 6)
unfolding b64_text spare
length-b64_text u [] = (refl, refl)
length-b64_text u (a ∷ []) = (refl, refl)
length-b64_text u (a ∷ b ∷ []) = (refl, refl)
length-b64_text u (a ∷ b ∷ c ∷ bin) =
    let (bits, left) = length-b64_text u bin in (omega arith, omega arith)

padding : ℕ → Bytes → ℕ
padding variant bin = if is_padded variant then spare bin / 2 else 0

text_len_lem :
    (variant : ℕ) (u : Bool) (bin : Bytes)
    → text_len (length bin) variant ≡ length (b64_text u bin) + padding variant bin
unfolding text_len padding
text_len_lem variant u bin = let (bits, left) = length-b64_text u bin in ground arith

module _ (bin_maxlen : ℕ) (ignore : Option Bytes) (kept : ignored ignore b'=' ≡ false) where
  padding_stops :
      (u : Bool) (n : ℕ) (s : Base64Decoder)
      → decode_loop bin_maxlen ignore u (replicate n b'=') s ≡ s
  unfolding decode_loop
  padding_stops u zero s = refl
  padding_stops u (suc n) s = rw (from_char_padding u, kept) refl

skip_padding-replicate :
    (ignore : Option Bytes) (n passed : ℕ)
    → skip_padding ignore (replicate n b'=') n passed ≡ (passed + n, none)
unfolding skip_padding
skip_padding-replicate ignore zero passed = ap (λ (p : ℕ). (p, none)) (sym (add-zero passed))
skip_padding-replicate ignore (suc n) passed =
    let place : passed + 1 + n ≡ passed + suc n = omega arith in
    skip_padding-replicate ignore n (passed + 1) ∙ ap (λ (p : ℕ). (p, none)) place

-- The text of a byte string in a variant, its padding included.
pub base64_text : ℕ → Bytes → Bytes
base64_text variant bin = b64_text (is_urlsafe variant) bin ++ replicate (padding variant bin) b'='

pub length-base64_text :
    (variant : ℕ) (bin : Bytes) → length (base64_text variant bin) ≡ text_len (length bin) variant
unfolding base64_text
length-base64_text variant bin =
    let u = is_urlsafe variant in
    omega (
      arith,
      text_len_lem variant u bin,
      length-append (b64_text u bin) (replicate (padding variant bin) b'='),
      length-replicate {A = ℕ} (padding variant bin) b'=',
    )

bin2base64-text :
    (b64_maxlen : ℕ) (bin : Bytes) (variant : ℕ)
    → IsBytes bin
    → is_variant variant ≡ true
    → length bin / 3 ≤ (size_max - 5) / 4
    → text_len (length bin) variant < b64_maxlen
    → sodium_bin2base64 b64_maxlen bin variant
      ≡ ok (base64_text variant bin ++ replicate (b64_maxlen - text_len (length bin) variant) 0)
unfolding sodium_bin2base64 base64_text
bin2base64-text b64_maxlen bin variant bytes valid small fits =
    let u = is_urlsafe variant in
    let len = text_len (length bin) variant in
    let few = le→ltb ((size_max - 5) / 4) (length bin / 3) small in
    let room = lt→leb len b64_maxlen fits in
    let short = le→ltb len (length (b64_text u bin)) (omega (arith, text_len_lem variant u bin)) in
    let gap : len - length (b64_text u bin) ≡ padding variant bin =
      omega (arith, text_len_lem variant u bin) in
    rw (encode_loop-text u bin 0 [] bytes, valid, few, room, short, gap, append_assoc) refl

-- A text whose spare bits are 0 and whose padding is there.
module _ (bin_maxlen variant : ℕ) (ignore : Option Bytes) (has_end : Bool) (bin : Bytes) where
  read_padding-text :
      (acc : ℕ)
      → read_padding variant ignore
          (base64_text variant bin)
          (decoder (length (b64_text (is_urlsafe variant) bin)) acc (spare bin) bin)
        ≡ decoder (length (base64_text variant bin)) acc (spare bin) bin
  unfolding read_padding
  read_padding-text acc =
      let u = is_urlsafe variant in
      let text = b64_text u bin in
      let len = length text in
      elim (Bool-cases (is_padded variant)) [
        | inl padded ↦
            let n = spare bin / 2 in
            let whole : base64_text variant bin ≡ text ++ replicate n b'=' =
              unfold base64_text padding in rw padded refl in
            let all : length (base64_text variant bin) ≡ len + n = rw whole (
              length-append text (replicate n b'=')
              ∙ ap (λ (k : ℕ). len + k) (length-replicate {A = ℕ} n b'=')) in
            let skip : skip_padding ignore (drop len (base64_text variant bin)) n 0
                ≡ (0 + n, none) =
              rw (whole, drop-append text (replicate n b'=')) (skip_padding-replicate ignore n 0) in
            rw (all, skip, padded, skip)
              (ap (λ (k : ℕ). decoder (len + k) acc (spare bin) bin) (zero-add n))
        | inr bare ↦
            let whole : base64_text variant bin ≡ text =
              unfold base64_text padding in rw (bare, append-nil) refl in
            rw (whole, bare) refl
      ]

  finish-text :
      (acc : ℕ)
      → base642bin_finish ignore
          (base64_text variant bin)
          has_end
          (decoder (length (base64_text variant bin)) acc (spare bin) bin)
        ≡ record {
          ret = 0;
          bin = bin;
          bin_len = length bin;
          hex_end = length (base64_text variant bin);
          errno = unchanged;
        }
  unfolding base642bin_finish skip_ignored
  finish-text acc =
      let text = base64_text variant bin in
      let nothing : drop (length text) text ≡ [] =
        ap (drop (length text)) (sym (append-nil text)) ∙ drop-append text [] in
      let place : length text + 0 ≡ length text = add-zero (length text) in
      let same : (length text == length text) ≡ true = ground arith in
      rw (nothing, place, same) (ground arith)

decode_loop-base64_text :
    (bin_maxlen variant : ℕ) (ignore : Option Bytes) (bin : Bytes)
    → IsBytes bin
    → length bin ≤ bin_maxlen
    → ignored ignore b'=' ≡ false
    → (acc : ℕ) × (bit_and acc (2 ^ spare bin - 1) ≡ 0)
      × (decode_loop bin_maxlen ignore
            (is_urlsafe variant)
            (base64_text variant bin)
            (decoder 0 0 0 [])
          ≡ decoder (length (b64_text (is_urlsafe variant) bin)) acc (spare bin) bin)
unfolding base64_text
decode_loop-base64_text bin_maxlen variant ignore bin bytes room kept =
    let u = is_urlsafe variant in
    let n = padding variant bin in
    let (acc, clean, run) =
      decode_loop-b64_text bin_maxlen ignore u (replicate n b'=')
        (padding_stops bin_maxlen ignore kept u n) bin 0 0 [] bytes (omega arith) in
    (
      acc,
      bit_and-mask (spare bin) acc ∙ clean,
      run ∙ ap (λ (p : ℕ). decoder p acc (spare bin) bin) (zero-add (length (b64_text u bin))),
    )

-- Encoding bytes and decoding the text, without its terminator, gives the bytes back, in each
-- variant and whether or not the caller asks for the end, unless `=` is to be ignored. The text has
-- the length that was computed beforehand.
pub sodium_base642bin-sodium_bin2base64 :
    (bin : Bytes) (b64_maxlen bin_maxlen variant : ℕ) (ignore : Option Bytes) (has_end : Bool)
    → IsBytes bin
    → is_variant variant ≡ true
    → length bin / 3 ≤ (size_max - 5) / 4
    → text_len (length bin) variant < b64_maxlen
    → length bin ≤ bin_maxlen
    → ignored ignore b'=' ≡ false
    → (text : Bytes) × (length text ≡ text_len (length bin) variant)
      × (sodium_bin2base64 b64_maxlen bin variant
          ≡ ok (text ++ replicate (b64_maxlen - text_len (length bin) variant) 0))
      × (sodium_base642bin bin_maxlen text ignore has_end variant
          ≡ ok (record {
            ret = 0;
            bin = bin;
            bin_len = length bin;
            hex_end = length text;
            errno = unchanged;
          }))
unfolding sodium_base642bin
sodium_base642bin-sodium_bin2base64 bin b64_maxlen bin_maxlen variant ignore has_end bytes valid
      small fits room kept =
    let (acc, zeros, loop) =
      decode_loop-base64_text bin_maxlen variant ignore bin bytes room kept in
    let (bits, left) = length-b64_text (is_urlsafe variant) bin in
    let few : ltb 4 (spare bin) ≡ false = le→ltb 4 (spare bin) (omega arith) in
    (
      base64_text variant bin,
      length-base64_text variant bin,
      bin2base64-text b64_maxlen bin variant bytes valid small fits,
      rw
          (
            loop,
            few,
            zeros,
            read_padding-text bin_maxlen variant ignore has_end bin acc,
            finish-text bin_maxlen variant ignore has_end bin acc,
            valid,
          )
          refl,
    )
