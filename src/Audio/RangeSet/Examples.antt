-- ===== src/Audio/RangeSet/Examples.antt =====
-- The range set theorems at concrete sets.
use librespot.Base.{ℕ, ◌≡◌, refl, true, false, [], ◌∷◌, ◌+◌, ◌<◌, ◌&&◌, ◌||◌, not, arith}
use librespot.Base.Word.{wrapping_add, wrapping_sub}
use librespot.Audio.RangeSet.{
  Range, RangeSet, end, contains, contained_length_from_value, add_range, subtract_range,
  intersection, add_from, absorb, merge, subtract_from, remove_covered, cut_front, intersect_from,
  overlap,
}
use librespot.Audio.RangeSet.Order.{IsValid, covers}
use librespot.Audio.RangeSet.Add.{add_range_lem}
use librespot.Audio.RangeSet.Subtract.{subtract_range_lem}
use librespot.Audio.RangeSet.Intersection.{contains-intersection}
use librespot.Audio.RangeSet.Length.{contained_length_from_value_lem}

abbrev bytes : ℕ → ℕ → Range
bytes s n = record { start = s; length = n }

abbrev two_ranges : RangeSet
two_ranges = bytes 2 3 ∷ bytes 10 4 ∷ []

abbrev middle : RangeSet
middle = bytes 4 8 ∷ []

two_ranges-IsValid : IsValid two_ranges
unfolding end wrapping_add
two_ranges-IsValid = omega arith

middle-IsValid : IsValid middle
unfolding end wrapping_add
middle-IsValid = omega arith

-- Adding a range that bridges the gap leaves one range.
add_range_bridges : add_range two_ranges (bytes 5 5) ≡ bytes 2 12 ∷ []
unfolding add_range add_from absorb merge end wrapping_add wrapping_sub
add_range_bridges = refl

-- Subtracting the inside of a range punches a hole.
subtract_range_hole :
    subtract_range two_ranges (bytes 11 2) ≡ bytes 2 3 ∷ bytes 10 1 ∷ bytes 13 1 ∷ []
unfolding subtract_range subtract_from remove_covered cut_front end wrapping_add wrapping_sub
subtract_range_hole = refl

intersection_parts : intersection two_ranges middle ≡ bytes 4 1 ∷ bytes 10 2 ∷ []
unfolding intersection intersect_from overlap add_range add_from absorb merge end wrapping_add
    wrapping_sub
intersection_parts = refl

add_range_lem_example :
    IsValid (add_range two_ranges (bytes 5 5))
    × ((v : ℕ)
        → contains (add_range two_ranges (bytes 5 5)) v
          ≡ (covers (bytes 5 5) v || contains two_ranges v))
add_range_lem_example = add_range_lem two_ranges (bytes 5 5) two_ranges-IsValid (omega arith)

subtract_range_lem_example :
    IsValid (subtract_range two_ranges (bytes 4 8))
    × ((v : ℕ)
        → contains (subtract_range two_ranges (bytes 4 8)) v
          ≡ (contains two_ranges v && not (covers (bytes 4 8) v)))
subtract_range_lem_example =
    subtract_range_lem two_ranges (bytes 4 8) two_ranges-IsValid (omega arith)

contains-intersection_example :
    IsValid (intersection two_ranges middle)
    × ((v : ℕ)
        → contains (intersection two_ranges middle) v
          ≡ (contains two_ranges v && contains middle v))
contains-intersection_example =
    contains-intersection two_ranges middle two_ranges-IsValid middle-IsValid

contained_length_from_value_example :
    ((k : ℕ) → k < contained_length_from_value two_ranges 11 → contains two_ranges (11 + k) ≡ true)
    × (contains two_ranges (11 + contained_length_from_value two_ranges 11) ≡ false)
contained_length_from_value_example =
    contained_length_from_value_lem two_ranges 11 two_ranges-IsValid
