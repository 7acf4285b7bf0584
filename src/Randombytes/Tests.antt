-- ===== src/Randombytes/Tests.antt =====
-- `randombytes_uniform` at draws.
use libsodium.Base.{ℕ, zero, suc, ◌+◌, ◌%◌, ◌-◌, ◌^◌, ◌≤◌, ◌<◌, none, some, ◌≡◌, refl, arith}
use libsodium.Randombytes.{uniform_min, uniform_loop, randombytes_uniform}
use libsodium.Randombytes.Uniform.{randombytes_uniform_lem}

-- Small numbers, then a large one.
abbrev draws : ℕ → ℕ
draws zero = 5
draws (suc zero) = 7
draws (suc (suc i)) = 2 ^ 31 + 10

-- `2^32 % (2^31 + 1)` is `2^31 - 1`: the first two draws are refused.
third_draw : randombytes_uniform draws 5 none (2 ^ 31 + 1) ≡ some 9
unfolding randombytes_uniform uniform_loop uniform_min
third_draw = refl

randombytes_uniform_lem_example :
    (n : ℕ) × (n ≤ 2)
    × (uniform_min 1000 ≤ draws n)
    × ((k : ℕ) → k < n → draws k < uniform_min 1000)
    × (randombytes_uniform draws 5 none 1000 ≡ some (draws n % 1000))
    × (draws n % 1000 < 1000)
    × ((2 ^ 32 - uniform_min 1000) % 1000 ≡ 0)
randombytes_uniform_lem_example =
    randombytes_uniform_lem draws 1000 5 2 (omega arith) (omega arith) (omega arith) (omega arith)
