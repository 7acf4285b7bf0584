-- ===== src/Aead/Ciphers.antt =====
-- The two stream ciphers of src/libsodium/crypto_aead/chacha20poly1305/aead_chacha20poly1305.c give
-- what its loop needs.
use libsodium.Base.{ℕ, ◌+◌, ◌/◌, ◌^◌, ◌≤◌, ◌<◌, ◌≡◌, sym, ap, ◌∙◌, arith, Bytes, u32, u64}
use libsodium.Chacha20.{Words}
use libsodium.Chacha20.Counter.{key_at}
use libsodium.Chacha20.Context.{
  counter_context, ietf_context, key_at-counter_context, key_at-ietf_context, counter_wraps,
}
use libsodium.Chacha20.Api.{
  crypto_stream_chacha20_xor_ic, crypto_stream_chacha20_ietf_xor_ic,
  crypto_stream_chacha20_ietf_ext_xor_ic,
}
use libsodium.Chacha20.Api.Laws.{xor_ic_lem}
use libsodium.Chacha20.Api.Ietf.{ietf_xor_ic_lem, ext_xor_ic_lem}
use libsodium.Aead.Chunks.{StreamLaws}

abbrev pub chacha20_key : Bytes → Bytes → ℕ → ℕ → ℕ
chacha20_key npub k ic = key_at (counter_context k npub ic)

abbrev pub Chacha20Fits : ℕ → ℕ → Type 0
Chacha20Fits ic n = n < 2 ^ 64

pub chacha20_laws :
    (npub k : Bytes)
    → StreamLaws
        (λ chunk ic. crypto_stream_chacha20_xor_ic chunk npub ic k)
        u64
        (chacha20_key npub k)
        Chacha20Fits
chacha20_laws npub k = record {
  run = λ m ic h fits. xor_ic_lem m npub ic k h fits;
  first = λ ic n fits. omega arith;
  rest = λ ic n pos fits. omega arith;
  move = λ ic n i pos fits.
      key_at-counter_context k npub 2048 ic i
      ∙ ap (λ (w : Words). key_at w i) (sym (counter_wraps k npub (ic + 2048)));
}

abbrev pub ietf_key : Bytes → Bytes → ℕ → ℕ → ℕ
ietf_key npub k ic = key_at (ietf_context k npub ic)

-- All blocks of the message have a counter of 32 bits.
abbrev pub IetfFits : ℕ → ℕ → Type 0
IetfFits ic n = (n + 63 < 2 ^ 64) × (ic + (n + 63) / 64 ≤ 2 ^ 32)

pub ietf_laws :
    (npub k : Bytes)
    → StreamLaws
        (λ chunk ic. crypto_stream_chacha20_ietf_xor_ic chunk npub ic k)
        u32
        (ietf_key npub k)
        IetfFits
ietf_laws npub k = record {
  run = λ m ic h fits. ietf_xor_ic_lem m npub ic k h fits.0 fits.1;
  first = λ ic n fits. (omega arith, omega (arith, fits.1));
  rest = λ ic n pos fits. (omega (arith, fits.0), omega (arith, fits.1));
  move = λ ic n i pos fits.
      let small : ic + 2048 < 2 ^ 32 = omega (arith, fits.1) in
      let same : u32 (ic + 2048) ≡ ic + 2048 = omega arith in
      key_at-ietf_context k npub 2048 ic i small
      ∙ ap (λ (c : ℕ). key_at (ietf_context k npub c) i) (sym same);
}

pub ext_laws :
    (npub k : Bytes)
    → StreamLaws
        (λ chunk ic. crypto_stream_chacha20_ietf_ext_xor_ic chunk npub ic k)
        u32
        (ietf_key npub k)
        IetfFits
ext_laws npub k = record {
  run = λ m ic h fits. ext_xor_ic_lem m npub ic k h (omega (arith, fits.0));
  first = λ ic n fits. (omega arith, omega (arith, fits.1));
  rest = λ ic n pos fits. (omega (arith, fits.0), omega (arith, fits.1));
  move = λ ic n i pos fits.
      let small : ic + 2048 < 2 ^ 32 = omega (arith, fits.1) in
      let same : u32 (ic + 2048) ≡ ic + 2048 = omega arith in
      key_at-ietf_context k npub 2048 ic i small
      ∙ ap (λ (c : ℕ). key_at (ietf_context k npub c) i) (sym same);
}
