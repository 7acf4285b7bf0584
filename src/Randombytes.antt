-- ===== src/Randombytes.antt =====
-- `randombytes_uniform` of src/libsodium/randombytes/randombytes.c. The implementation behind it is a
-- parameter: `uniform` is its own function of that name, if it has one, and `random i` is the value
-- of the i-th call of `randombytes_random`, an `uint32_t`.
pub mod Uniform
mod Tests
use libsodium.Base.{
  ℕ, zero, suc, ◌+◌, ◌-◌, ◌%◌, ◌^◌, Bool, true, false, Option, none, some, u32, if◌then◌else◌, ltb,
}

-- `(1U + ~upper_bound) % upper_bound`.
unfoldable pub uniform_min : ℕ → ℕ
uniform_min upper_bound = u32 (1 + (2 ^ 32 - 1 - upper_bound)) % upper_bound

module _ (random : ℕ → ℕ) where
  -- `do { r = randombytes_random(); } while (r < min);` from a call on. Fuel bounds the calls.
  unfoldable pub uniform_loop : ℕ → ℕ → ℕ → Option ℕ
  uniform_loop zero i min = none
  uniform_loop (suc fuel) i min =
      let r = random i in
      let more = uniform_loop fuel (i + 1) min in if ltb r min then more else some r

  unfoldable pub randombytes_uniform : ℕ → Option (ℕ → ℕ) → ℕ → Option ℕ
  randombytes_uniform fuel (some uniform) upper_bound = some (uniform upper_bound)
  randombytes_uniform fuel none upper_bound =
      if ltb upper_bound 2 then some 0 else elim (uniform_loop fuel 0 (uniform_min upper_bound)) [
        | none ↦ none
        | some r ↦ some (r % upper_bound)
      ]
