-- ===== src/Codecs/Base64/Decoding.antt =====
-- The loop of `sodium_base642bin` of src/libsodium/sodium/codecs.c on text that was written by
-- `sodium_bin2base64`.
use libsodium.Base.{
  ℕ, suc, ◌+◌, ◌*◌, ◌/◌, ◌%◌, ◌^◌, ◌<◌, ◌≤◌, Bool, false, ◌≡◌, refl, sym, ap, ap₂, ◌∙◌, arith, u32,
  ◌<<<◌, ◌>>>◌, Bytes, IsBytes, length, length-append, [], ◌∷◌, ◌++◌, append-nil, append_assoc,
  Option, lt→leb, ◌==◌,
}
use native.Mathlib.Nat.{add-zero}
use libsodium.Codecs.Hex.{unchanged}
use libsodium.Codecs.Base64.{to_char, Base64Decoder, take_sextet, decode_loop}
use libsodium.Codecs.Base64.Sextets.{from_char-to_char, octet}
use libsodium.Codecs.Base64.Text.{b64_text}

abbrev pub decoder : ℕ → ℕ → ℕ → Bytes → Base64Decoder
decoder pos acc acc_len out = record {
  b64_pos = pos;
  bin = out;
  acc = acc;
  acc_len = acc_len;
  failed = false;
  errno = unchanged;
}

abbrev shifted : ℕ → ℕ → ℕ
shifted acc d = u32 (u32 (acc <<< 6) + d)

-- The bits that the last character of a text has to spare.
unfoldable pub spare : Bytes → ℕ
spare [] = 0
spare (a ∷ []) = 4
spare (a ∷ b ∷ []) = 2
spare (a ∷ b ∷ c ∷ bin) = spare bin

module _ (bin_maxlen : ℕ) (ignore : Option Bytes) (u : Bool) where
  abbrev run : Bytes → Base64Decoder → Base64Decoder
  run b64 s = decode_loop bin_maxlen ignore u b64 s

  decode_char :
      (x : ℕ) (rest : Bytes) (s next : Base64Decoder)
      → x < 64
      → take_sextet bin_maxlen ignore x s ≡ next
      → next.failed ≡ false
      → run (to_char u x ∷ rest) s ≡ run rest next
  unfolding decode_loop
  decode_char x rest s next small step going =
      let known : (x == 0xff) ≡ false = ground arith in
      rw (from_char-to_char u x small, known, step, going) refl

  module _ (x pos acc : ℕ) (out : Bytes) where
    sextet_first :
        take_sextet bin_maxlen ignore x (decoder pos acc 0 out)
        ≡ decoder (pos + 1) (shifted acc x) 6 out
    unfolding take_sextet
    sextet_first = refl

    module _ (room : length out < bin_maxlen) where
      sextet_second :
          take_sextet bin_maxlen ignore x (decoder pos acc 6 out)
          ≡ decoder (pos + 1) (shifted acc x) 4 (out ++ (shifted acc x / 16 % 256) ∷ [])
      unfolding take_sextet
      sextet_second = rw (lt→leb (length out) bin_maxlen room, octet (shifted acc x >>> 4)) refl

      sextet_third :
          take_sextet bin_maxlen ignore x (decoder pos acc 4 out)
          ≡ decoder (pos + 1) (shifted acc x) 2 (out ++ (shifted acc x / 4 % 256) ∷ [])
      unfolding take_sextet
      sextet_third = rw (lt→leb (length out) bin_maxlen room, octet (shifted acc x >>> 2)) refl

      sextet_fourth :
          take_sextet bin_maxlen ignore x (decoder pos acc 2 out)
          ≡ decoder (pos + 1) (shifted acc x) 0 (out ++ (shifted acc x / 1 % 256) ∷ [])
      unfolding take_sextet
      sextet_fourth = rw (lt→leb (length out) bin_maxlen room, octet (shifted acc x >>> 0)) refl

  -- A byte is complete where the bits before it are in the accumulator; `y` begins the next one.
  first_byte :
      (a y pos acc : ℕ) (out rest : Bytes)
      → a < 256
      → y < 16
      → length out < bin_maxlen
      → (acc' : ℕ) × (acc' % 16 ≡ y)
        × (run (to_char u (a / 4) ∷ to_char u (a % 4 * 16 + y) ∷ rest) (decoder pos acc 0 out)
            ≡ run rest (decoder (pos + 1 + 1) acc' 4 (out ++ a ∷ [])))
  first_byte a y pos acc out rest ha hy room =
      let acc1 = shifted acc (a / 4) in
      let acc2 = shifted acc1 (a % 4 * 16 + y) in
      let byte : acc2 / 16 % 256 ≡ a = omega arith in
      let next : take_sextet bin_maxlen ignore (a % 4 * 16 + y) (decoder (pos + 1) acc1 6 out)
          ≡ decoder (pos + 1 + 1) acc2 4 (out ++ a ∷ []) =
        sextet_second (a % 4 * 16 + y) (pos + 1) acc1 out room
        ∙ ap (λ (b : ℕ). decoder (pos + 1 + 1) acc2 4 (out ++ b ∷ [])) byte in
      (
        acc2,
        omega arith,
        decode_char (a / 4) (to_char u (a % 4 * 16 + y) ∷ rest) (decoder pos acc 0 out)
              (decoder (pos + 1) acc1 6 out) (omega arith) (sextet_first (a / 4) pos acc out) refl
            ∙ decode_char (a % 4 * 16 + y) rest (decoder (pos + 1) acc1 6 out)
                (decoder (pos + 1 + 1) acc2 4 (out ++ a ∷ [])) (omega arith) next refl,
      )

  second_byte :
      (b y pos acc : ℕ) (out rest : Bytes)
      → b < 256
      → y < 4
      → acc % 16 ≡ b / 16
      → length out < bin_maxlen
      → (acc' : ℕ) × (acc' % 4 ≡ y)
        × (run (to_char u (b % 16 * 4 + y) ∷ rest) (decoder pos acc 4 out)
            ≡ run rest (decoder (pos + 1) acc' 2 (out ++ b ∷ [])))
  second_byte b y pos acc out rest hb hy high room =
      let acc' = shifted acc (b % 16 * 4 + y) in
      let byte : acc' / 4 % 256 ≡ b = omega arith in
      let next =
        sextet_third (b % 16 * 4 + y) pos acc out room
        ∙ ap (λ (b : ℕ). decoder (pos + 1) acc' 2 (out ++ b ∷ [])) byte in
      (
        acc',
        omega arith,
        decode_char (b % 16 * 4 + y) rest (decoder pos acc 4 out)
            (decoder (pos + 1) acc' 2 (out ++ b ∷ [])) (omega arith) next refl,
      )

  third_byte :
      (c pos acc : ℕ) (out rest : Bytes)
      → c < 256
      → acc % 4 ≡ c / 64
      → length out < bin_maxlen
      → run (to_char u (c % 64) ∷ rest) (decoder pos acc 2 out)
        ≡ run rest (decoder (pos + 1) (shifted acc (c % 64)) 0 (out ++ c ∷ []))
  third_byte c pos acc out rest hc high room =
      let acc' = shifted acc (c % 64) in
      let byte : acc' / 1 % 256 ≡ c = omega arith in
      let next =
        sextet_fourth (c % 64) pos acc out room
        ∙ ap (λ (b : ℕ). decoder (pos + 1) acc' 0 (out ++ b ∷ [])) byte in
      decode_char (c % 64) rest (decoder pos acc 2 out) (decoder (pos + 1) acc' 0 (out ++ c ∷ []))
        (omega arith) next refl

  -- The written text, followed by nothing that the loop goes on with.
  module _ (rest : Bytes) (stops : (s : Base64Decoder) → run rest s ≡ s) where
    pub decode_loop-b64_text :
        (bin : Bytes) (pos acc : ℕ) (out : Bytes)
        → IsBytes bin
        → length out + length bin ≤ bin_maxlen
        → (acc' : ℕ) × (acc' % 2 ^ spare bin ≡ 0)
          × (run (b64_text u bin ++ rest) (decoder pos acc 0 out)
              ≡ decoder (pos + length (b64_text u bin)) acc' (spare bin) (out ++ bin))
    unfolding spare b64_text
    decode_loop-b64_text [] pos acc out h room =
        (acc, omega arith, rw (add-zero, append-nil) (stops (decoder pos acc 0 out)))
    decode_loop-b64_text (a ∷ []) pos acc out (ha, h) room =
        let s0 = decoder pos acc 0 out in
        let (acc', low, first) = first_byte a 0 pos acc out rest ha (omega arith) (omega arith) in
        let place : pos + 1 + 1 ≡ pos + 2 = omega arith in
        let end = decoder (pos + 1 + 1) acc' 4 (out ++ a ∷ []) in
        (
          acc',
          low,
          ap (λ (x : ℕ). run (to_char u (a / 4) ∷ to_char u x ∷ rest) s0)
                (sym (add-zero (a % 4 * 16)))
              ∙ (first ∙ (stops end ∙ ap (λ (p : ℕ). decoder p acc' 4 (out ++ a ∷ [])) place)),
        )
    decode_loop-b64_text (a ∷ b ∷ []) pos acc out (ha, (hb, h)) room =
        let s0 = decoder pos acc 0 out in
        let head = to_char u (a / 4) ∷ to_char u (a % 4 * 16 + b / 16) ∷ [] in
        let out1 = out ++ a ∷ [] in
        let room1 = length-append out (a ∷ []) in
        let (acc1, low1, first) =
          first_byte a (b / 16) pos acc out (to_char u (b % 16 * 4 + 0) ∷ rest) ha (omega arith)
            (omega arith) in
        let (acc2, low2, second) =
          second_byte b 0 (pos + 1 + 1) acc1 out1 rest hb (omega arith) low1 (omega arith) in
        let end = decoder (pos + 1 + 1 + 1) acc2 2 (out1 ++ b ∷ []) in
        let place : pos + 1 + 1 + 1 ≡ pos + 3 = omega arith in
        (
          acc2,
          low2,
          ap (λ (x : ℕ). run (head ++ to_char u x ∷ rest) s0) (sym (add-zero (b % 16 * 4)))
              ∙ (first
                  ∙ (second
                      ∙ (stops end
                          ∙ ap₂ (λ (p : ℕ) (o : Bytes). decoder p acc2 2 o) place
                              (append_assoc out (a ∷ []) (b ∷ []))))),
        )
    decode_loop-b64_text (a ∷ b ∷ c ∷ bin) pos acc out (ha, (hb, (hc, h))) room =
        let out1 = out ++ a ∷ [] in
        let out2 = out1 ++ b ∷ [] in
        let out3 = out2 ++ c ∷ [] in
        let room1 = length-append out (a ∷ []) in
        let room2 = length-append out1 (b ∷ []) in
        let room3 = length-append out2 (c ∷ []) in
        let tail = b64_text u bin ++ rest in
        let tail1 = to_char u (c % 64) ∷ tail in
        let tail2 = to_char u (b % 16 * 4 + c / 64) ∷ tail1 in
        let (acc1, low1, first) =
          first_byte a (b / 16) pos acc out tail2 ha (omega arith) (omega arith) in
        let (acc2, low2, second) =
          second_byte b (c / 64) (pos + 1 + 1) acc1 out1 tail1 hb (omega arith) low1
            (omega arith) in
        let third = third_byte c (pos + 1 + 1 + 1) acc2 out2 tail hc low2 (omega arith) in
        let (acc', low, more) =
          decode_loop-b64_text bin (pos + 1 + 1 + 1 + 1) (shifted acc2 (c % 64)) out3 h
            (omega arith) in
        let place : pos + 1 + 1 + 1 + 1 + length (b64_text u bin)
            ≡ pos + suc (suc (suc (suc (length (b64_text u bin))))) =
          omega arith in
        let written : out3 ++ bin ≡ out ++ a ∷ b ∷ c ∷ bin =
          rw (append_assoc, append_assoc, append_assoc) refl in
        (
          acc',
          low,
          first
              ∙ (second
                  ∙ (third
                      ∙ (more
                          ∙ ap₂ (λ (p : ℕ) (o : Bytes). decoder p acc' (spare bin) o) place
                              written))),
        )
