-- ===== src/Audio/RangeSet.antt =====
-- audio/src/range_set.rs: sets of byte offsets as sorted, separated ranges. The `Vec` is a list; a
-- loop over `index` that inserts or removes at `index` is a recursion on the rest of the list.
-- `usize` arithmetic wraps at 2 ^ 64. `Display` and `iter` are left out.
pub mod Order
pub mod Add
pub mod Subtract
pub mod Intersection
pub mod Length
mod Examples
use librespot.Base.{
  ℕ, ◌+◌, Bool, true, false, List, [], ◌∷◌, Option, get_elem?, ◌&&◌, ltb, leb, ◌==◌, if◌then◌else◌,
  min, max,
}
use librespot.Base.Word.{wrapping_add, wrapping_sub}

pub record Range : Type 0 where
  pub start : ℕ
  pub length : ℕ

unfoldable pub end : Range → ℕ
end r = wrapping_add r.start r.length

abbrev pub RangeSet : Type 0
RangeSet = List Range

unfoldable pub new : RangeSet
new = []

unfoldable pub is_empty : RangeSet → Bool
is_empty [] = true
is_empty (x ∷ xs) = false

unfoldable pub len : RangeSet → ℕ
len [] = 0
len (x ∷ xs) = wrapping_add x.length (len xs)

-- `self.ranges[index]` panics out of range: `none`.
unfoldable pub get_range : RangeSet → ℕ → Option Range
get_range s index = get_elem? s index

unfoldable pub contains : RangeSet → ℕ → Bool
contains [] value = false
contains (x ∷ xs) value =
    if ltb value x.start
    then false
    else if leb x.start value && ltb value (end x)
    then true
    else contains xs value

unfoldable pub contained_length_from_value : RangeSet → ℕ → ℕ
contained_length_from_value [] value = 0
contained_length_from_value (x ∷ xs) value =
    if ltb value x.start
    then 0
    else if leb x.start value && ltb value (end x)
    then wrapping_sub (end x) value
    else contained_length_from_value xs value

unfoldable pub contains_range_set : RangeSet → RangeSet → Bool
contains_range_set s [] = true
contains_range_set s (x ∷ other) =
    if ltb (contained_length_from_value s x.start) x.length
    then false
    else contains_range_set s other

-- One round of the `while` loop of `add_range`: the new range takes in the range at `index`.
unfoldable pub merge : Range → Range → Range
merge new_range x =
    let new_end = max (end new_range) (end x) in
    let new_start = min new_range.start x.start in
    record { start = new_start; length = wrapping_sub new_end new_start }

-- The `while` loop and the `insert` after it, on the ranges from `index` on.
unfoldable pub absorb : Range → RangeSet → RangeSet
absorb new_range [] = new_range ∷ []
absorb new_range (x ∷ xs) = elim (leb x.start (end new_range)) [
  | true ↦ absorb (merge new_range x) xs
  | false ↦ new_range ∷ x ∷ xs
]

-- The `for` loop of `add_range`, on the ranges from `index` on.
unfoldable pub add_from : Range → RangeSet → RangeSet
add_from range [] = range ∷ []
add_from range (x ∷ xs) =
    let rest = add_from range xs in
    if ltb (end range) x.start
    then range ∷ x ∷ xs
    else if leb range.start (end x) && leb x.start (end range)
    then absorb range (x ∷ xs)
    else x ∷ rest

unfoldable pub add_range : RangeSet → Range → RangeSet
add_range s range = if range.length == 0 then s else add_from range s

unfoldable pub add_range_set : RangeSet → RangeSet → RangeSet
add_range_set s [] = s
add_range_set s (x ∷ other) = add_range_set (add_range s x) other

unfoldable pub union : RangeSet → RangeSet → RangeSet
union s other = add_range_set s other

-- The front of `range` is cut off up to `at`: `length -= at - start; start = at`.
unfoldable pub cut_front : ℕ → Range → Range
cut_front at x = record { start = at; length = wrapping_sub x.length (wrapping_sub at x.start) }

-- The second branch of `subtract_range`: the `while` loop that removes whole ranges, then the
-- range that the subtracted one only reaches into.
unfoldable pub remove_covered : Range → RangeSet → RangeSet
remove_covered range [] = []
remove_covered range (x ∷ xs) =
    let rest = remove_covered range xs in
    if leb (end x) (end range)
    then rest
    else if ltb x.start (end range)
    then cut_front (end range) x ∷ xs
    else x ∷ xs

-- The `for` loop of `subtract_range`, on the ranges from `index` on.
unfoldable pub subtract_from : Range → RangeSet → RangeSet
subtract_from range [] = []
subtract_from range (x ∷ xs) =
    let rest = subtract_from range xs in
    let truncated : Range = record x { length = wrapping_sub range.start x.start } in
    if leb (end range) x.start
    then x ∷ xs
    else if leb range.start x.start && ltb x.start (end range)
    then remove_covered range (x ∷ xs)
    else if ltb (end range) (end x)
    then truncated ∷ cut_front (end range) x ∷ xs
    else if ltb range.start (end x)
    then truncated ∷ rest
    else x ∷ rest

unfoldable pub subtract_range : RangeSet → Range → RangeSet
subtract_range s range = if range.length == 0 then s else subtract_from range s

unfoldable pub subtract_range_set : RangeSet → RangeSet → RangeSet
subtract_range_set s [] = s
subtract_range_set s (x ∷ other) = subtract_range_set (subtract_range s x) other

unfoldable pub minus : RangeSet → RangeSet → RangeSet
minus s other = subtract_range_set s other

-- The overlap that the third branch of the `intersection` loop adds.
unfoldable pub overlap : Range → Range → Range
overlap a b =
    let new_start = max a.start b.start in
    let new_end = min (end a) (end b) in
    record { start = new_start; length = wrapping_sub new_end new_start }

-- The two indices are the two lists that are left; a round moves on in one of them.
unfoldable pub intersect_from : RangeSet → RangeSet → RangeSet → RangeSet
intersect_from result [] other = result
intersect_from result (a ∷ as') [] = result
intersect_from result (a ∷ as') (b ∷ bs) = elim (leb (end a) b.start) [
  | true ↦ intersect_from result as' (b ∷ bs)
  | false ↦ elim (leb (end b) a.start) [
    | true ↦ intersect_from result (a ∷ as') bs
    | false ↦ elim (leb (end a) (end b)) [
      | true ↦ intersect_from (add_range result (overlap a b)) as' (b ∷ bs)
      | false ↦ intersect_from (add_range result (overlap a b)) (a ∷ as') bs
    ]
  ]
]

unfoldable pub intersection : RangeSet → RangeSet → RangeSet
unfolding new
intersection s other = intersect_from new s other
