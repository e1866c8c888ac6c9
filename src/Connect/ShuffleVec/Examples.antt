-- ===== src/Connect/ShuffleVec/Examples.antt =====
-- A shuffle with a generator that counts up.
use mathlib.Core.List.{Perm}
use librespot.Base.{ℕ, ◌+◌, ◌%◌, ◌<◌, ◌≡◌, refl, List, [], ◌∷◌, some, ◌==◌, length, arith}
use librespot.Connect.ShuffleVec.{Rng, ShuffleVec, from_vec, shuffle_with_rng, unshuffle}
use librespot.Connect.ShuffleVec.RoundTrip.{DrawsInRange, IsLed, unshuffle-shuffle_with_rng}

abbrev counter : Rng
counter = record { State = ℕ; seed_from_u64 = λ n. n; random_below = λ s n. (s % n, s + 3) }

counter-DrawsInRange : DrawsInRange counter
counter-DrawsInRange s n h = omega arith

abbrev letters : List ℕ
letters = 10 ∷ 11 ∷ 12 ∷ 13 ∷ []

shuffle_runs :
    shuffle_with_rng counter 1 (λ n. n == 12) (from_vec letters)
    ≡ some (record {
      vec = 12 ∷ 10 ∷ 13 ∷ 11 ∷ [];
      indices = some (1 ∷ 1 ∷ 1 ∷ []);
      original_first_position = some 1;
    })
unfolding shuffle_with_rng from_vec
shuffle_runs = refl

unshuffle-shuffle_with_rng_example :
    (v : ShuffleVec ℕ) × (shuffle_with_rng counter 1 (λ n. n == 12) (from_vec letters) ≡ some v)
    × Perm letters v.vec
    × (1 < length letters → IsLed (λ n. n == 12) v.vec)
    × (unshuffle v ≡ some (from_vec letters))
unshuffle-shuffle_with_rng_example =
    unshuffle-shuffle_with_rng counter counter-DrawsInRange 1 (λ n. n == 12) letters
