-- ===== src/Audio/RangeSet/Order.antt =====
-- The invariant of a `RangeSet`, and membership under it.
use librespot.Base.{
  ℕ, suc, ◌+◌, ◌≤◌, ◌<◌, ◌≡◌, refl, Bool, false, [], ◌∷◌, ◌&&◌, ◌||◌, ltb, leb, arith,
}
use librespot.Base.Word.{usize_mod, wrapping_add_exact}
use librespot.Audio.RangeSet.{Range, RangeSet, end, contains}

-- A range of at least one byte whose end does not wrap.
pub record IsProper (r : Range) : Type 0 where
  pub nonempty : 0 < r.length
  pub ends : end r ≡ r.start + r.length
  pub fits : r.start + r.length < usize_mod

-- Proper ranges in order from `lo` on, with at least one byte free between two of them.
abbrev pub IsSeparated : ℕ → RangeSet → Type 0
IsSeparated lo [] = Unit {0}
IsSeparated lo (x ∷ xs) = (lo ≤ x.start) × IsProper x × IsSeparated (suc (end x)) xs

abbrev pub IsValid : RangeSet → Type 0
IsValid s = IsSeparated 0 s

-- Whether a range covers a byte.
abbrev pub covers : Range → ℕ → Bool
covers r v = leb r.start v && ltb v (end r)

pub IsProper-of_length : (r : Range) → 0 < r.length → r.start + r.length < usize_mod → IsProper r
unfolding end
IsProper-of_length r h k = record {
  nonempty = h;
  ends = wrapping_add_exact r.start r.length k;
  fits = k;
}

pub IsSeparated-mono : {lo hi : ℕ} (s : RangeSet) → lo ≤ hi → IsSeparated hi s → IsSeparated lo s
IsSeparated-mono [] h v = tt
IsSeparated-mono (x ∷ xs) h v = (omega arith, v.1, v.2)

-- Below the first range nothing is contained.
pub contains_below : (lo v : ℕ) (s : RangeSet) → IsSeparated lo s → v < lo → contains s v ≡ false
unfolding contains
contains_below lo v [] h k = refl
contains_below lo v (x ∷ xs) h k = ground arith

-- The early exit of `contains` loses nothing: it is the disjunction over the ranges.
pub contains-cons :
    (lo v : ℕ) (x : Range) (xs : RangeSet)
    → IsSeparated lo (x ∷ xs)
    → contains (x ∷ xs) v ≡ (covers x v || contains xs v)
unfolding contains
contains-cons lo v x xs h = ground (arith, contains_below (suc (end x)) v xs h.2)
