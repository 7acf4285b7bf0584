-- ===== src/Utils/Arith/Tests.antt =====
-- Runs of the arithmetic of src/libsodium/sodium/utils.c, and its theorems at inputs.
use libsodium.Base.{◌+◌, some, [], ◌∷◌, ◌≡◌, refl, arith, Bytes, le_value, take}
use libsodium.Utils.Arith.{sodium_increment, sodium_add, sodium_sub}
use libsodium.Utils.Arith.Carry.{Computes, sodium_add_lem}

abbrev nonce : Bytes
nonce = 255 ∷ 255 ∷ 3 ∷ 9 ∷ []

abbrev step : Bytes
step = 2 ∷ 0 ∷ 0 ∷ 0 ∷ []

increment_carries : sodium_increment nonce 3 ≡ some (0 ∷ 0 ∷ 4 ∷ 9 ∷ [])
unfolding sodium_increment
increment_carries = refl

sub_borrows : sodium_sub (1 ∷ 1 ∷ []) (2 ∷ 1 ∷ []) 2 ≡ some (255 ∷ 255 ∷ [])
unfolding sodium_sub
sub_borrows = refl

sodium_add_lem_example :
    Computes 3 (le_value (take 3 nonce) + le_value (take 3 step)) nonce (sodium_add nonce step 3)
sodium_add_lem_example =
    sodium_add_lem nonce step 3 (omega arith) (omega arith) (omega arith) (omega arith)
