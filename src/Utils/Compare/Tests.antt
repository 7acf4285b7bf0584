-- ===== src/Utils/Compare/Tests.antt =====
-- Runs of the comparison functions of src/libsodium/sodium/utils.c, and their theorems at inputs.
use libsodium.Base.{◌<◌, some, none, [], ◌∷◌, ◌≡◌, ◌⊎◌, refl, arith, Bytes, le_value, take}
use libsodium.Utils.Compare.{sodium_memcmp, sodium_compare, compare_loop, compare_step, minus_one}
use libsodium.Utils.Compare.Ordering.{sodium_compare_lem}

abbrev small : Bytes
small = 255 ∷ 1 ∷ 7 ∷ []

abbrev large : Bytes
large = 0 ∷ 2 ∷ 7 ∷ []

-- The last byte counts most: 0x0001ff is below 0x000200.
compare_small : sodium_compare small large 3 ≡ some minus_one
unfolding sodium_compare compare_loop compare_step
compare_small = refl

past_the_end : sodium_memcmp small large 4 ≡ none
unfolding sodium_memcmp
past_the_end = refl

sodium_compare_lem_example :
    ((le_value (take 3 small) ≡ le_value (take 3 large)) × (sodium_compare small large 3 ≡ some 0))
    ⊎ (((le_value (take 3 large) < le_value (take 3 small))
          × (sodium_compare small large 3 ≡ some 1))
        ⊎ ((le_value (take 3 small) < le_value (take 3 large))
            × (sodium_compare small large 3 ≡ some minus_one)))
sodium_compare_lem_example =
    sodium_compare_lem small large 3 (omega arith) (omega arith) (omega arith) (omega arith)
