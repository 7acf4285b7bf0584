-- ===== src/Codecs/Hex/RoundTrip.antt =====
-- Decoding what was encoded, and encoding what was decoded (src/libsodium/sodium/codecs.c).
use native.Mathlib.Nat.{add-zero}
use native.Mathlib.Decide.{dec_lt}
use libsodium.Base.{
  ℕ, suc, ◌+◌, ◌*◌, ◌/◌, ◌%◌, ◌≤◌, ◌<◌, bit_or, Bool, true, false, Option, none, [], ◌∷◌, ◌++◌, map,
  append-nil, append_assoc, ◌≡◌, refl, ◌⊎◌, sym, ap, ap₂, ◌∙◌, arith, Bytes, IsBytes, length,
  length-append, u8, ok, misuse, ◌||◌, Bool-cases, inl, inr, leb, if◌then◌else◌,
}
use libsodium.Bits.Or.{bit_or-field}
use libsodium.Codecs.Hex.{
  bin2hex_loop, sodium_bin2hex, is_hex, c_val, take_digit, ignored, hex2bin_loop, hex2bin_finish,
  sodium_hex2bin, Decoder, unchanged, size_max,
}
use libsodium.Codecs.Hex.Digits.{
  high_digit, low_digit, digits_round_trip, pair_digits, hex_digit-c_val, to_lower,
}

-- The text of a byte string, with no terminator.
pub hex_text : Bytes → Bytes
hex_text [] = []
hex_text (b ∷ bin) = high_digit b ∷ low_digit b ∷ hex_text bin

hex_text-append : (xs ys : Bytes) → hex_text (xs ++ ys) ≡ hex_text xs ++ hex_text ys
unfolding hex_text
hex_text-append [] ys = refl
hex_text-append (x ∷ xs) ys = rw (hex_text-append xs ys) refl

length-hex_text : (bin : Bytes) → length (hex_text bin) ≡ length bin * 2
unfolding hex_text
length-hex_text [] = refl
length-hex_text (b ∷ bin) = omega (arith, length-hex_text bin)

bin2hex_loop-hex_text : (bin : Bytes) → bin2hex_loop bin ≡ hex_text bin ++ 0 ∷ []
unfolding bin2hex_loop hex_text high_digit low_digit
bin2hex_loop-hex_text [] = refl
bin2hex_loop-hex_text (b ∷ bin) = rw (bin2hex_loop-hex_text bin) refl

-- A decoder that waits for a first digit and has met no error.
abbrev ready : ℕ → Bytes → ℕ → Decoder
ready pos out acc = record {
  hex_pos = pos;
  bin = out;
  c_acc = acc;
  halfway = false;
  failed = false;
  errno = unchanged;
}

module _ (bin_maxlen : ℕ) (ignore : Option Bytes) where
  -- Two digits and room for a byte: one byte is written.
  decode_pair :
      (c d : ℕ) (rest : Bytes) (pos acc : ℕ) (out : Bytes)
      → is_hex c ≡ true
      → is_hex d ≡ true
      → length out < bin_maxlen
      → hex2bin_loop bin_maxlen ignore (c ∷ d ∷ rest) (ready pos out acc)
        ≡ hex2bin_loop bin_maxlen ignore rest (
            ready
              (pos + 1 + 1)
              (out ++ u8 (bit_or (u8 (c_val c * 16)) (c_val d)) ∷ [])
              (u8 (c_val c * 16)))
  unfolding hex2bin_loop take_digit
  decode_pair c d rest pos acc out hc hd room = rw (hc, hd) (ground arith)

  decode_text :
      (bin : Bytes) (pos acc : ℕ) (out : Bytes)
      → IsBytes bin
      → length out + length bin ≤ bin_maxlen
      → (acc' : ℕ) × (hex2bin_loop bin_maxlen ignore (hex_text bin) (ready pos out acc)
          ≡ ready (pos + length bin * 2) (out ++ bin) acc')
  unfolding hex2bin_loop hex_text
  decode_text [] pos acc out h room = (acc, rw (append-nil, add-zero) refl)
  decode_text (b ∷ bin) pos acc out (hb, h) room =
      let (high, low, value) = digits_round_trip b hb in
      let (acc', run) =
        decode_text bin (pos + 1 + 1) (u8 (c_val (high_digit b) * 16)) (out ++ b ∷ []) h
          (omega (arith, length-append out (b ∷ []))) in
      let place : pos + 1 + 1 + length bin * 2 ≡ pos + suc (length bin) * 2 = omega arith in
      (
        acc',
        decode_pair (high_digit b) (low_digit b) (hex_text bin) pos acc out high low (omega arith)
            ∙ (rw value (
                run
                ∙ ap₂ (λ (p : ℕ) (o : Bytes). ready p o acc') place
                    (append_assoc out (b ∷ []) bin))),
      )

-- Encoding bytes and decoding the text, without its terminator, gives the bytes back: whatever is
-- to be ignored, and whether or not the caller asks for the end.
pub sodium_hex2bin-sodium_bin2hex :
    (bin : Bytes) (hex_maxlen bin_maxlen : ℕ) (ignore : Option Bytes) (has_end : Bool)
    → IsBytes bin
    → length bin < size_max / 2
    → length bin * 2 < hex_maxlen
    → length bin ≤ bin_maxlen
    → (hex : Bytes) × (sodium_bin2hex hex_maxlen bin ≡ ok (hex ++ 0 ∷ []))
      × (sodium_hex2bin bin_maxlen hex ignore has_end ≡ record {
        ret = 0;
        bin = bin;
        bin_len = length bin;
        hex_end = length hex;
        errno = unchanged;
      })
unfolding sodium_bin2hex sodium_hex2bin hex2bin_finish
sodium_hex2bin-sodium_bin2hex bin hex_maxlen bin_maxlen ignore has_end h small fits room =
    let (acc, run) = decode_text bin_maxlen ignore bin 0 0 [] h (omega arith) in
    (
      hex_text bin,
      ground (arith, bin2hex_loop-hex_text bin),
      rw run (ground (arith, length-hex_text bin)),
    )

-- All of the text was read, and no digit is left over.
abbrev AllRead : ℕ → Bytes → Decoder → Type 0
AllRead pos hex t = (t.halfway ≡ false) × (t.failed ≡ false) × (t.hex_pos ≡ pos + length hex)

-- The byte of two digits is printed as the two digits in lower case.
pair_text :
    (c d : ℕ)
    → c < 256
    → d < 256
    → is_hex c ≡ true
    → is_hex d ≡ true
    → (out : Bytes)
    → hex_text (out ++ u8 (bit_or (u8 (c_val c * 16)) (c_val d)) ∷ [])
      ≡ hex_text out ++ to_lower c ∷ to_lower d ∷ []
unfolding hex_text
pair_text c d hc hd c_hex d_hex out =
    let (c_small, c_text) = hex_digit-c_val c hc c_hex in
    let (d_small, d_text) = hex_digit-c_val d hd d_hex in
    let scaled : u8 (c_val c * 16) ≡ c_val c * 16 = omega arith in
    let byte : u8 (bit_or (u8 (c_val c * 16)) (c_val d)) ≡ c_val c * 16 + c_val d =
      rw (scaled, bit_or-field 4 (c_val c) (c_val d) d_small) (omega arith) in
    let (high, low) = pair_digits (c_val c * 16 + c_val d) (omega arith) in
    let quotient : (c_val c * 16 + c_val d) / 16 ≡ c_val c = omega arith in
    let remainder : (c_val c * 16 + c_val d) % 16 ≡ c_val d = omega arith in
    rw (hex_text-append, byte, high, low, quotient, remainder, c_text, d_text) refl

module _ (bin_maxlen : ℕ) where
  abbrev scan : Bytes → ℕ → Bytes → ℕ → Decoder
  scan hex pos out acc = hex2bin_loop bin_maxlen none hex (ready pos out acc)

  refused_first :
      (c : ℕ) (hex : Bytes) (pos acc : ℕ) (out : Bytes)
      → (is_hex c ≡ false) ⊎ (bin_maxlen ≤ length out)
      → ¬ AllRead pos (c ∷ hex) (scan (c ∷ hex) pos out acc)
  unfolding hex2bin_loop ignored
  refused_first c hex pos acc out h read = ground arith

  refused_second :
      (c d : ℕ) (hex : Bytes) (pos acc : ℕ) (out : Bytes)
      → is_hex c ≡ true
      → length out < bin_maxlen
      → is_hex d ≡ false
      → ¬ AllRead pos (c ∷ d ∷ hex) (scan (c ∷ d ∷ hex) pos out acc)
  unfolding hex2bin_loop ignored take_digit
  refused_second c d hex pos acc out hc room hd read = ground arith

  odd_digit :
      (c : ℕ) (pos acc : ℕ) (out : Bytes) → ¬ AllRead pos (c ∷ []) (scan (c ∷ []) pos out acc)
  unfolding hex2bin_loop ignored take_digit
  odd_digit c pos acc out read = ground arith

  scan-hex_text :
      (hex : Bytes) (pos acc : ℕ) (out : Bytes)
      → IsBytes hex
      → AllRead pos hex (scan hex pos out acc)
      → hex_text (scan hex pos out acc).bin ≡ hex_text out ++ map to_lower hex
  scan-hex_text [] pos acc out h read = unfold hex2bin_loop in sym (append-nil (hex_text out))
  scan-hex_text (c ∷ []) pos acc out h read = absurd (odd_digit c pos acc out read)
  scan-hex_text (c ∷ d ∷ hex) pos acc out (hc, (hd, h)) read = elim (Bool-cases (is_hex c)) [
    | inr no_digit ↦ absurd (refused_first c (d ∷ hex) pos acc out (inl no_digit) read)
    | inl c_hex ↦ elim (dec_lt (length out) bin_maxlen) [
      | no full ↦ absurd (refused_first c (d ∷ hex) pos acc out (inr (omega arith)) read)
      | yes room ↦ elim (Bool-cases (is_hex d)) [
        | inr no_digit ↦ absurd (refused_second c d hex pos acc out c_hex room no_digit read)
        | inl d_hex ↦
            let step = decode_pair bin_maxlen none c d hex pos acc out c_hex d_hex room in
            let rest =
              scan-hex_text hex (pos + 1 + 1) (u8 (c_val c * 16))
                (out ++ u8 (bit_or (u8 (c_val c * 16)) (c_val d)) ∷ []) h (all_read step read) in
            rw (step, rest, pair_text c d hc hd c_hex d_hex out, append_assoc) refl
      ]
    ]
  ]
    where
      all_read : {s t : Decoder} → s ≡ t → AllRead pos (c ∷ d ∷ hex) s → AllRead (pos + 1 + 1) hex t
      all_read e (a, b, n) = (
        sym (ap (λ (x : Decoder). x.halfway) e) ∙ a,
        sym (ap (λ (x : Decoder). x.failed) e) ∙ b,
        omega (arith, ap (λ (x : Decoder). x.hex_pos) e, n),
      )

length-map : (f : ℕ → ℕ) (xs : Bytes) → length (map f xs) ≡ length xs
length-map f [] = refl
length-map f (x ∷ xs) = ap suc (length-map f xs)

-- What `ret` says when the caller asks for no end.
finish_accepts :
    (n : ℕ) (s : Decoder)
    → (hex2bin_finish n false s).ret ≡ 0
    → (s.halfway ≡ false)
      × (s.failed ≡ false)
      × (s.hex_pos ≡ n)
      × ((hex2bin_finish n false s).bin_len ≡ length s.bin)
unfolding hex2bin_finish
finish_accepts n s h = ground arith

-- A text that `sodium_hex2bin` accepts whole, with nothing to ignore, is the text that
-- `sodium_bin2hex` writes for the decoded bytes, up to the case of its letters.
pub sodium_bin2hex-sodium_hex2bin :
    (hex : Bytes) (bin_maxlen hex_maxlen : ℕ)
    → IsBytes hex
    → length hex + 1 < size_max
    → length hex < hex_maxlen
    → (sodium_hex2bin bin_maxlen hex none false).ret ≡ 0
    → (sodium_bin2hex hex_maxlen (sodium_hex2bin bin_maxlen hex none false).bin
        ≡ ok (map to_lower hex ++ 0 ∷ []))
      × ((sodium_hex2bin bin_maxlen hex none false).bin_len * 2 ≡ length hex)
unfolding sodium_bin2hex sodium_hex2bin hex_text
sodium_bin2hex-sodium_hex2bin hex bin_maxlen hex_maxlen h small fits accepted =
    let s = hex2bin_loop bin_maxlen none hex (ready 0 [] 0) in
    let (a, b, n, len) = finish_accepts (length hex) s accepted in
    let text = scan-hex_text bin_maxlen hex 0 0 [] h (a, b, omega (arith, n)) in
    let double : length s.bin * 2 ≡ length hex =
      omega (
        arith,
        length-hex_text s.bin,
        ap (λ (t : Bytes). length t) text,
        length-map to_lower hex,
      ) in
    (written s hex hex_maxlen small fits text double, omega (arith, len, double))
  where
    written :
        (s : Decoder) (hex : Bytes) (hex_maxlen : ℕ)
        → length hex + 1 < size_max
        → length hex < hex_maxlen
        → hex_text s.bin ≡ map to_lower hex
        → length s.bin * 2 ≡ length hex
        → (if leb (size_max / 2) (length s.bin) || leb hex_maxlen (length s.bin * 2)
            then misuse
            else ok (bin2hex_loop s.bin))
          ≡ ok (map to_lower hex ++ 0 ∷ [])
    written s hex hex_maxlen small fits text double =
        rw (bin2hex_loop-hex_text s.bin, text) (ground arith)
