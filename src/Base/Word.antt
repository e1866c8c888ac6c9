-- ===== src/Base/Word.antt =====
-- Rust's `usize` on a 64-bit target: a number below 2 ^ 64. Sums and differences wrap, as they do
-- in a release build. Both are used through their laws.
use librespot.Base.{ℕ, ◌+◌, ◌-◌, ◌%◌, ◌^◌, ◌≤◌, ◌<◌, ◌≡◌, arith}

abbrev pub usize_mod : ℕ
usize_mod = 2 ^ 64

unfoldable pub wrapping_add : ℕ → ℕ → ℕ
wrapping_add a b = (a + b) % usize_mod

unfoldable pub wrapping_sub : ℕ → ℕ → ℕ
wrapping_sub a b = (a + usize_mod - b) % usize_mod

pub wrapping_add-lt : (a b : ℕ) → wrapping_add a b < usize_mod
unfolding wrapping_add
wrapping_add-lt a b = omega arith

pub wrapping_add_exact : (a b : ℕ) → a + b < usize_mod → wrapping_add a b ≡ a + b
unfolding wrapping_add
wrapping_add_exact a b h = omega arith

pub wrapping_sub_exact : (a b : ℕ) → b ≤ a → a < usize_mod → wrapping_sub a b ≡ a - b
unfolding wrapping_sub
wrapping_sub_exact a b h k = omega arith
