-- ===== src/Codecs/Base64/Text.antt =====
-- What `sodium_bin2base64` of src/libsodium/sodium/codecs.c writes, as a plain description of it.
use libsodium.Base.{
  ℕ, ◌+◌, ◌*◌, ◌/◌, ◌%◌, ◌<◌, bit_and, Bool, ◌≡◌, refl, ap, ap₂, ◌∙◌, arith, u32, ◌<<<◌, ◌>>>◌,
  Bytes, IsBytes, [], ◌∷◌, ◌++◌, append-nil, append_assoc,
}
use libsodium.Codecs.Base64.{
  write_group, write_groups, to_char, Encoder, encode_byte, encode_loop, encode_rest,
}
use libsodium.Codecs.Base64.Sextets.{sextet}

-- Three bytes as four characters, and what is left as two or three.
unfoldable pub b64_text : Bool → Bytes → Bytes
b64_text u [] = []
b64_text u (a ∷ []) = to_char u (a / 4) ∷ to_char u (a % 4 * 16) ∷ []
b64_text u (a ∷ b ∷ []) =
    to_char u (a / 4) ∷ to_char u (a % 4 * 16 + b / 16) ∷ to_char u (b % 16 * 4) ∷ []
b64_text u (a ∷ b ∷ c ∷ bin) =
    to_char u (a / 4)
    ∷ to_char u (a % 4 * 16 + b / 16)
    ∷ to_char u (b % 16 * 4 + c / 64)
    ∷ to_char u (c % 64)
    ∷ b64_text u bin

abbrev state : ℕ → ℕ → Bytes → Encoder
state acc acc_len out = record { acc = acc; acc_len = acc_len; b64 = out }

abbrev shifted : ℕ → ℕ → ℕ
shifted acc byte = u32 (u32 (acc <<< 8) + byte)

module _ (u : Bool) (acc : ℕ) (out : Bytes) where
  byte_first :
      (a : ℕ)
      → a < 256
      → encode_byte u a (state acc 0 out) ≡ state (shifted acc a) 2 (out ++ to_char u (a / 4) ∷ [])
  unfolding encode_byte write_groups write_group
  byte_first a ha =
      let s : bit_and (shifted acc a >>> 2) 0x3f ≡ a / 4 =
        sextet (shifted acc a >>> 2) ∙ omega arith in
      ap (λ (x : ℕ). state (shifted acc a) 2 (out ++ to_char u x ∷ [])) s

  byte_second :
      (b : ℕ)
      → b < 256
      → encode_byte u b (state acc 2 out)
        ≡ state (shifted acc b) 4 (out ++ to_char u (acc % 4 * 16 + b / 16) ∷ [])
  unfolding encode_byte write_groups write_group
  byte_second b hb =
      let s : bit_and (shifted acc b >>> 4) 0x3f ≡ acc % 4 * 16 + b / 16 =
        sextet (shifted acc b >>> 4) ∙ omega arith in
      ap (λ (x : ℕ). state (shifted acc b) 4 (out ++ to_char u x ∷ [])) s

  byte_third :
      (c : ℕ)
      → c < 256
      → encode_byte u c (state acc 4 out)
        ≡ state
            (shifted acc c)
            0
            ((out ++ to_char u (acc % 16 * 4 + c / 64) ∷ []) ++ to_char u (c % 64) ∷ [])
  unfolding encode_byte write_groups write_group
  byte_third c hc =
      let s : bit_and (shifted acc c >>> 6) 0x3f ≡ acc % 16 * 4 + c / 64 =
        sextet (shifted acc c >>> 6) ∙ omega arith in
      let t : bit_and (shifted acc c >>> 0) 0x3f ≡ c % 64 =
        sextet (shifted acc c >>> 0) ∙ omega arith in
      ap₂ (λ (x y : ℕ). state (shifted acc c) 0 ((out ++ to_char u x ∷ []) ++ to_char u y ∷ [])) s t

-- Written from a boundary of three bytes on.
pub encode_loop-text :
    (u : Bool) (bin : Bytes) (acc : ℕ) (out : Bytes)
    → IsBytes bin
    → encode_rest u (encode_loop u bin (state acc 0 out)) ≡ out ++ b64_text u bin
unfolding encode_loop encode_rest b64_text
encode_loop-text u [] acc out h = rw append-nil refl
encode_loop-text u (a ∷ []) acc out (ha, h) =
    let last : bit_and (u32 (shifted acc a <<< 4)) 0x3f ≡ a % 4 * 16 =
      sextet (u32 (shifted acc a <<< 4)) ∙ omega arith in
    rw (byte_first u acc out a ha, last, append_assoc) refl
encode_loop-text u (a ∷ b ∷ []) acc out (ha, (hb, h)) =
    let acc1 = shifted acc a in
    let low : acc1 % 4 ≡ a % 4 = omega arith in
    let last : bit_and (u32 (shifted acc1 b <<< 2)) 0x3f ≡ b % 16 * 4 =
      sextet (u32 (shifted acc1 b <<< 2)) ∙ omega arith in
    rw
      (
        byte_first u acc out a ha,
        byte_second u acc1 (out ++ to_char u (a / 4) ∷ []) b hb,
        low,
        last,
        append_assoc,
        append_assoc,
      )
      refl
encode_loop-text u (a ∷ b ∷ c ∷ bin) acc out (ha, (hb, (hc, h))) =
    let acc1 = shifted acc a in
    let acc2 = shifted acc1 b in
    let out1 = out ++ to_char u (a / 4) ∷ [] in
    let out2 = out1 ++ to_char u (acc1 % 4 * 16 + b / 16) ∷ [] in
    let out3 = (out2 ++ to_char u (acc2 % 16 * 4 + c / 64) ∷ []) ++ to_char u (c % 64) ∷ [] in
    let low : acc1 % 4 ≡ a % 4 = omega arith in
    let low2 : acc2 % 16 ≡ b % 16 = omega arith in
    let run : encode_byte u c (encode_byte u b (encode_byte u a (state acc 0 out)))
        ≡ state (shifted acc2 c) 0 out3 =
      rw (byte_first u acc out a ha, byte_second u acc1 out1 b hb) (byte_third u acc2 out2 c hc) in
    let written : out3
        ≡ out
          ++ to_char u (a / 4)
            ∷ to_char u (a % 4 * 16 + b / 16)
            ∷ to_char u (b % 16 * 4 + c / 64)
            ∷ to_char u (c % 64)
            ∷ [] =
      rw (low, low2, append_assoc, append_assoc, append_assoc) refl in
    ap (λ (s : Encoder). encode_rest u (encode_loop u bin s)) run
    ∙ (encode_loop-text u bin (shifted acc2 c) out3 h ∙ (rw (written, append_assoc) refl))
