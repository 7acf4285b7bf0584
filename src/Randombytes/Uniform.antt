-- ===== src/Randombytes/Uniform.antt =====
-- When `randombytes_uniform` of src/libsodium/randombytes/randombytes.c returns, and from which draw.
use native.Mathlib.Nat.{mod-lt, mod-add-div, mul-mod_right, mod-le}
use native.Mathlib.Decide.{dec_lt, ℕ_discrete}
use libsodium.Base.{
  ℕ, zero, suc, ◌+◌, ◌-◌, ◌*◌, ◌/◌, ◌%◌, ◌^◌, ◌<◌, ◌≤◌, ◌≡◌, ◌≢◌, false, refl, ap, ◌∙◌, arith, none,
  some, u32, ltb, lt→ltb, le→ltb,
}
use libsodium.Randombytes.{uniform_min, uniform_loop, randombytes_uniform}

module _ (random : ℕ → ℕ) (min : ℕ) where
  -- The first draw from a call on that is not below `min`.
  record First (from index : ℕ) : Type 0 where
    later : from ≤ index
    accepted : min ≤ random index
    refused : (k : ℕ) → from ≤ k → k < index → random k < min

  uniform_loop_lem :
      (fuel i j : ℕ)
      → i ≤ j
      → j < i + fuel
      → min ≤ random j
      → (n : ℕ) × First i n × (n ≤ j) × (uniform_loop random fuel i min ≡ some (random n))
  unfolding uniform_loop
  uniform_loop_lem zero i j from room large = absurd (omega arith)
  uniform_loop_lem (suc fuel) i j from room large = elim (dec_lt (random i) min) [
    | no over ↦
        let accepted : min ≤ random i = omega arith in
        (
          i,
          record {
            later = omega arith;
            accepted = accepted;
            refused = λ k p q. absurd (omega arith);
          },
          from,
          rw (le→ltb (random i) min accepted) refl,
        )
    | yes under ↦
        let other : i ≢ j = λ e. absurd (omega (arith, ap random e)) in
        let (n, first, bound, run) =
          uniform_loop_lem fuel (i + 1) j (omega arith) (omega arith) large in
        let later = first.later in
        (
          n,
          record {
            later = omega arith;
            accepted = first.accepted;
            refused = λ k p q. elim (ℕ_discrete k i) [
              | yes same ↦ omega (arith, ap random same)
              | no differ ↦ first.refused k (omega arith) q
            ];
          },
          bound,
          rw (lt→ltb (random i) min under) run,
        )
  ]

module _ (upper_bound : ℕ) (two : 2 ≤ upper_bound) (word : upper_bound < 2 ^ 32) where
  uniform_min_lem :
      (uniform_min upper_bound < 2 ^ 31) × ((2 ^ 32 - uniform_min upper_bound) % upper_bound ≡ 0)
  unfolding uniform_min
  uniform_min_lem =
      let n = 2 ^ 32 - upper_bound in
      let q = n / upper_bound in
      let negated : u32 (1 + (2 ^ 32 - 1 - upper_bound)) ≡ n = omega arith in
      let below = mod-lt n {m = upper_bound} (omega arith) in
      let small = mod-le n upper_bound in
      let parts = mod-add-div n upper_bound in
      let multiple : 2 ^ 32 - n % upper_bound ≡ upper_bound * (q + 1) = omega (arith, parts) in
      rw negated (
        omega (arith, below, small),
        ap (λ (k : ℕ). k % upper_bound) multiple ∙ mul-mod_right upper_bound (q + 1),
      )

-- For a bound of at least 2, without an own function of the implementation: where one of the first
-- `fuel` draws is at least 2^31, the loop ends, at the first draw that is not below `min`, and
-- returns its remainder by the bound. The draws that it accepts are as many as a multiple of the
-- bound, so that each remainder stands for equally many of them.
pub randombytes_uniform_lem :
    (random : ℕ → ℕ) (upper_bound fuel j : ℕ)
    → 2 ≤ upper_bound
    → upper_bound < 2 ^ 32
    → j < fuel
    → 2 ^ 31 ≤ random j
    → (n : ℕ) × (n ≤ j)
      × (uniform_min upper_bound ≤ random n)
      × ((k : ℕ) → k < n → random k < uniform_min upper_bound)
      × (randombytes_uniform random fuel none upper_bound ≡ some (random n % upper_bound))
      × (random n % upper_bound < upper_bound)
      × ((2 ^ 32 - uniform_min upper_bound) % upper_bound ≡ 0)
unfolding randombytes_uniform
randombytes_uniform_lem random upper_bound fuel j two word room large =
    let min = uniform_min upper_bound in
    let (small, multiple) = uniform_min_lem upper_bound two word in
    let (n, first, bound, run) =
      uniform_loop_lem random min fuel 0 j (omega arith) (omega arith) (omega arith) in
    let over : ltb upper_bound 2 ≡ false = le→ltb upper_bound 2 two in
    (
      n,
      bound,
      first.accepted,
      (λ k p. first.refused k (omega arith) p),
      rw (over, run) refl,
      mod-lt (random n) (omega arith),
      multiple,
    )
