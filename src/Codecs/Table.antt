-- ===== src/Codecs/Table.antt =====
-- Facts about single bytes, checked at every byte by evaluation.
use libsodium.Base.{ℕ, zero, suc, ◌<◌, Bool, true, false, if◌then◌else◌, ◌≡◌, arith}

-- The test passes at every number below the bound.
unfoldable pub passes_below : (ℕ → Bool) → ℕ → Bool
passes_below test zero = true
passes_below test (suc bound) =
    let below = passes_below test bound in if test bound then below else false

pub passes_below-at :
    (test : ℕ → Bool) (bound x : ℕ) → passes_below test bound ≡ true → x < bound → test x ≡ true
unfolding passes_below
passes_below-at test zero x passes inside = elim inside [ ]
passes_below-at test (suc bound) x passes inside = ground (arith, passes_below-at test bound x)
