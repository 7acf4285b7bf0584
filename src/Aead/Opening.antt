-- ===== src/Aead/Opening.antt =====
-- The end of decryption in src/libsodium/crypto_aead/chacha20poly1305/aead_chacha20poly1305.c, the
-- same in both variants: the tag decides.
use libsodium.Base.{
  ℕ, true, some, ◌≡◌, ◌≢◌, ◌⊎◌, inl, inr, refl, Bytes, IsBytes, length, replicate, Result, ok,
}
use libsodium.Utils.Compare.{minus_one}
use libsodium.Verify.{crypto_verify_16}
use libsodium.Verify.Equivalence.{crypto_verify_16_lem}
use libsodium.Chacha20.Api.{outcome}
use libsodium.Aead.{◌>>=◌, Opened, finish_open}

abbrev pub opened : Bytes → Result Opened
opened m = ok (record { m = some m; ret = 0 })

abbrev pub refused : ℕ → Result Opened
refused mlen = ok (record { m = some (replicate mlen 0); ret = minus_one })

pub finish_open_lem :
    (t mac m : Bytes) (mlen : ℕ)
    → IsBytes t
    → IsBytes mac
    → length t ≡ 16
    → length mac ≡ 16
    → ((t ≡ mac)
        × ((outcome (crypto_verify_16 t mac) >>= λ ret. finish_open true mlen ret (ok m))
            ≡ opened m))
      ⊎ ((t ≢ mac)
          × ((outcome (crypto_verify_16 t mac) >>= λ ret. finish_open true mlen ret (ok m))
              ≡ refused mlen))
unfolding finish_open
finish_open_lem t mac m mlen ht hmac lt lmac = elim (crypto_verify_16_lem t mac ht hmac lt lmac) [
  | inl (same, zero_) ↦ inl (same, rw zero_ refl)
  | inr (differ, minus) ↦ inr (differ, rw minus refl)
]
