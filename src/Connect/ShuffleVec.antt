-- ===== src/Connect/ShuffleVec.antt =====
-- connect/src/shuffle_vec.rs: a vector that can be shuffled and put back. `none` is a panic: an
-- index out of range in `swap`. The random number generator is the crate `rand`: the record `Rng`.
pub mod Swap
pub mod RoundTrip
mod Examples
use librespot.Base.{
  ℕ, zero, suc, ◌+◌, ◌-◌, Bool, List, [], ◌∷◌, Option, none, some, leb, if◌then◌else◌, length,
  get_elem?, set,
}

pub record Rng : Type 1 where
  pub State : Type 0
  pub seed_from_u64 : ℕ → State
  -- `random_range(0..n)`
  pub random_below : State → ℕ → ℕ × State

pub record ShuffleVec {ℓ} (A : Type ℓ) : Type ℓ where
  pub vec : List A
  pub indices : Option (List ℕ)
  pub original_first_position : Option ℕ

module _ {ℓ} {A : Type ℓ} where
  unfoldable pub from_vec : List A → ShuffleVec A
  from_vec vec = record { vec = vec; indices = none; original_first_position = none }

  -- `slice::swap`.
  unfoldable pub swap : List A → ℕ → ℕ → Option (List A)
  swap xs i j = elim (get_elem? xs i) [
    | none ↦ none
    | some a ↦ elim (get_elem? xs j) [ none ↦ none | some b ↦ some (set (set xs i b) j a) ]
  ]

  abbrev pub and_then {κ} : {B : Type κ} → Option A → (A → Option B) → Option B
  and_then (some found) next = next found
  and_then none next = none

module _ {ℓ} {A : Type ℓ} where
  -- `for (i, &rnd_ind) in (1..len).rev().zip(&indices)`: `i` falls to 1.
  unfoldable pub swap_down : ℕ → List ℕ → List A → Option (List A)
  swap_down zero ds xs = some xs
  swap_down (suc i) [] xs = some xs
  swap_down (suc i) (d ∷ ds) xs = and_then (swap xs (suc i) d) (swap_down i ds)

  -- `iter().position(is_first)`, counted from `at`.
  unfoldable pub position_from : (A → Bool) → ℕ → List A → Option ℕ
  position_from test at [] = none
  position_from test at (x ∷ xs) =
      let rest = position_from test (at + 1) xs in if test x then some at else rest

  -- `for i in 1..len` of `unshuffle`, with `rounds` left: a missing index ends the function.
  unfoldable pub swap_up : ℕ → List ℕ → ℕ → List A → Option (List A)
  swap_up zero indices i xs = some xs
  swap_up (suc rounds) indices i xs = elim (get_elem? indices (length xs - i - 1)) [
    | none ↦ some xs
    | some n ↦ and_then (swap xs n i) (swap_up rounds indices (i + 1))
  ]

  abbrev swap_first : Option ℕ → List A → Option (List A)
  swap_first none xs = some xs
  swap_first (some first_pos) xs = swap xs 0 first_pos

  unfoldable pub unshuffle : ShuffleVec A → Option (ShuffleVec A)
  unfolding swap_up swap
  unshuffle v = elim v.indices [
    | none ↦ some v
    | some indices ↦ and_then (swap_first v.original_first_position v.vec) (λ vec.
        and_then (swap_up (length vec - 1) indices 1 vec)
          (λ vec. some (record { vec = vec; indices = none; original_first_position = none })))
  ]

-- `(1..len).rev().map(|i| rng.random_range(0..i + 1))`
unfoldable pub draw_indices : (rng : Rng) → ℕ → rng.State → List ℕ
draw_indices rng zero s = []
draw_indices rng (suc i) s =
    let (n, s') = rng.random_below s (suc i + 1) in n ∷ draw_indices rng i s'

module _ {ℓ} {A : Type ℓ} where
  -- The part of `shuffle_with_rng` behind the first `unshuffle`.
  unfoldable pub shuffle_indices : List ℕ → (A → Bool) → List A → Option (ShuffleVec A)
  unfolding swap_down swap position_from
  shuffle_indices indices is_first vec = and_then (swap_down (length vec - 1) indices vec) (λ mixed.
      let first = position_from is_first 0 mixed in
      and_then (swap_first first mixed) (λ vec.
        some (record { vec = vec; indices = some indices; original_first_position = first })))

module _ {ℓ} {A : Type ℓ} (rng : Rng) where
  unfoldable pub shuffle_with_rng : rng.State → (A → Bool) → ShuffleVec A → Option (ShuffleVec A)
  unfolding unshuffle draw_indices shuffle_indices
  shuffle_with_rng s is_first v =
      if leb (length v.vec) 1
      then some v
      else and_then (unshuffle v)
          (λ v'. shuffle_indices (draw_indices rng (length v'.vec - 1) s) is_first v'.vec)

  unfoldable pub shuffle_with_seed : ℕ → (A → Bool) → ShuffleVec A → Option (ShuffleVec A)
  unfolding shuffle_with_rng
  shuffle_with_seed seed is_first v = shuffle_with_rng (rng.seed_from_u64 seed) is_first v
