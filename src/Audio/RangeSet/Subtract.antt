-- ===== src/Audio/RangeSet/Subtract.antt =====
-- `subtract_range` and `minus`: they keep the invariant, and remove exactly the bytes of the range.
use librespot.Base.{ℕ, suc, ◌-◌, ◌≤◌, ◌<◌, ◌≡◌, refl, not, [], ◌∷◌, ◌&&◌, arith}
use librespot.Base.Word.{wrapping_sub, wrapping_sub_exact}
use librespot.Audio.RangeSet.{
  Range, RangeSet, end, cut_front, remove_covered, subtract_from, subtract_range,
  subtract_range_set, minus, contains,
}
use librespot.Audio.RangeSet.Order.{
  IsProper, IsSeparated, IsValid, covers, IsProper-of_length, IsSeparated-mono, contains-cons,
  contains_below,
}
use librespot.Audio.RangeSet.Add.{IsRange, covers_empty}

cut_front-IsProper :
    (at : ℕ) (x : Range)
    → IsProper x
    → x.start ≤ at
    → at < end x
    → IsProper (cut_front at x) × (end (cut_front at x) ≡ end x)
cut_front-IsProper at x p h k = (proper, omega (arith, proper.ends, short, starts, p.ends))
  where
    starts : (cut_front at x).start ≡ at
    starts = unfold cut_front in refl

    short : (cut_front at x).length ≡ x.length - (at - x.start)
    short =
        unfold cut_front in
        (rw (wrapping_sub_exact at x.start h (omega (arith, p.ends, p.fits))) (
          wrapping_sub_exact x.length (at - x.start) (omega (arith, p.ends))
            (omega (arith, p.fits))))

    proper : IsProper (cut_front at x)
    proper =
        IsProper-of_length (cut_front at x) (omega (arith, short, p.ends))
          (omega (arith, starts, short, p.ends, p.fits))

cut_front-start : (at : ℕ) (x : Range) → (cut_front at x).start ≡ at
unfolding cut_front
cut_front-start at x = refl

-- The front part of a range that `subtract_range` leaves.
abbrev truncate : ℕ → Range → Range
truncate at x = record x { length = wrapping_sub at x.start }

truncate-IsProper :
    (at : ℕ) (x : Range)
    → IsProper x
    → x.start < at
    → at ≤ end x
    → IsProper (truncate at x) × (end (truncate at x) ≡ at)
truncate-IsProper at x p h k = (proper, omega (arith, proper.ends, short, p.ends))
  where
    short : (truncate at x).length ≡ at - x.start
    short = wrapping_sub_exact at x.start (omega arith) (omega (arith, p.ends, p.fits))

    proper : IsProper (truncate at x)
    proper =
        IsProper-of_length (truncate at x) (omega (arith, short))
          (omega (arith, short, p.ends, p.fits))

remove_covered-IsSeparated :
    (lo : ℕ) (r : Range) (s : RangeSet) → IsSeparated lo s → IsSeparated lo (remove_covered r s)
unfolding remove_covered
remove_covered-IsSeparated lo r [] w = tt
remove_covered-IsSeparated lo r (x ∷ xs) w = ground (
  arith,
  remove_covered-IsSeparated lo r xs (IsSeparated-mono xs (omega (arith, w.1.ends)) w.2),
  cut_front-IsProper (end r) x w.1,
  cut_front-start (end r) x,
)

-- A range that ends before the first byte of a set covers nothing of it.
contains_clear :
    (r : Range) (lo : ℕ) (s : RangeSet) (v : ℕ)
    → end r ≤ lo
    → IsSeparated lo s
    → contains s v ≡ (contains s v && not (covers r v))
contains_clear r lo s v h w = ground (arith, contains_below lo v s w)

contains-remove_covered :
    (lo : ℕ) (r : Range) (s : RangeSet) (v : ℕ)
    → r.start ≤ lo
    → IsSeparated lo s
    → contains (remove_covered r s) v ≡ (contains s v && not (covers r v))
unfolding remove_covered
contains-remove_covered lo r [] v h w = unfold contains in refl
contains-remove_covered lo r (x ∷ xs) v h w = ground (
  arith,
  contains-remove_covered (suc (end x)) r xs v (omega (arith, w.1.ends)) w.2,
  contains_clear r (suc (end x)) xs v,
  contains_clear r x.start (x ∷ xs) v,
  contains-cons lo v x xs w,
  contains-cons (end r) v (cut_front (end r) x) xs,
  cut_front-IsProper (end r) x w.1,
  cut_front-start (end r) x,
)

subtract_from-IsSeparated :
    (lo : ℕ) (r : Range) (s : RangeSet)
    → IsProper r
    → IsSeparated lo s
    → IsSeparated lo (subtract_from r s)
unfolding subtract_from
subtract_from-IsSeparated lo r [] p w = tt
subtract_from-IsSeparated lo r (x ∷ xs) p w = ground (
  arith,
  subtract_from-IsSeparated (suc (end x)) r xs p w.2,
  remove_covered-IsSeparated lo r (x ∷ xs) w,
  cut_front-IsProper (end r) x w.1,
  cut_front-start (end r) x,
  truncate-IsProper r.start x w.1,
  IsSeparated-mono {lo = suc r.start} {hi = suc (end x)} (subtract_from r xs),
  p.ends,
  p.nonempty,
)

contains-subtract_from :
    (lo : ℕ) (r : Range) (s : RangeSet) (v : ℕ)
    → IsProper r
    → IsSeparated lo s
    → contains (subtract_from r s) v ≡ (contains s v && not (covers r v))
unfolding subtract_from
contains-subtract_from lo r [] v p w = unfold contains in refl
contains-subtract_from lo r (x ∷ xs) v p w = ground (
  arith,
  contains-subtract_from (suc (end x)) r xs v p w.2,
  subtract_from-IsSeparated (suc (end x)) r xs p w.2,
  IsSeparated-mono {lo = suc r.start} {hi = suc (end x)} (subtract_from r xs),
  contains-remove_covered x.start r (x ∷ xs) v,
  contains_clear r x.start (x ∷ xs) v,
  contains_clear r (suc (end x)) xs v,
  contains-cons lo v x xs w,
  contains-cons lo v x (subtract_from r xs),
  contains-cons lo v (truncate r.start x) (subtract_from r xs),
  contains-cons lo v (truncate r.start x) (cut_front (end r) x ∷ xs),
  contains-cons (end r) v (cut_front (end r) x) xs,
  cut_front-IsProper (end r) x w.1,
  cut_front-start (end r) x,
  truncate-IsProper r.start x w.1,
  p.ends,
  p.nonempty,
)

pub subtract_range-IsValid :
    (s : RangeSet) (r : Range) → IsValid s → IsRange r → IsValid (subtract_range s r)
unfolding subtract_range
subtract_range-IsValid s r w h =
    ground (arith, subtract_from-IsSeparated 0 r s, IsProper-of_length r)

pub contains-subtract_range :
    (s : RangeSet) (r : Range) (v : ℕ)
    → IsValid s
    → IsRange r
    → contains (subtract_range s r) v ≡ (contains s v && not (covers r v))
unfolding subtract_range
contains-subtract_range s r v w h =
    ground (arith, covers_empty r v h, contains-subtract_from 0 r s v, IsProper-of_length r)

-- `subtract_range` keeps the ranges sorted, apart from one another and nonempty, and a byte is in
-- the set afterwards exactly when it was before and is not in the range.
pub subtract_range_lem :
    (s : RangeSet) (r : Range)
    → IsValid s
    → IsRange r
    → IsValid (subtract_range s r)
      × ((v : ℕ) → contains (subtract_range s r) v ≡ (contains s v && not (covers r v)))
subtract_range_lem s r w h =
    (subtract_range-IsValid s r w h, λ v. contains-subtract_range s r v w h)

subtract_range_set-IsValid :
    (s : RangeSet) (lo : ℕ) (other : RangeSet)
    → IsValid s
    → IsSeparated lo other
    → IsValid (subtract_range_set s other)
unfolding subtract_range_set
subtract_range_set-IsValid s lo [] w h = w
subtract_range_set-IsValid s lo (x ∷ other) w h =
    subtract_range_set-IsValid (subtract_range s x) (suc (end x)) other
      (subtract_range-IsValid s x w h.1.fits) h.2

contains-subtract_range_set :
    (s : RangeSet) (lo : ℕ) (other : RangeSet) (v : ℕ)
    → IsValid s
    → IsSeparated lo other
    → contains (subtract_range_set s other) v ≡ (contains s v && not (contains other v))
unfolding subtract_range_set
contains-subtract_range_set s lo [] v w h = unfold contains in ground arith
contains-subtract_range_set s lo (x ∷ other) v w h = ground (
  arith,
  contains-subtract_range_set (subtract_range s x) (suc (end x)) other v
      (subtract_range-IsValid s x w h.1.fits) h.2,
  contains-subtract_range s x v w h.1.fits,
  contains-cons lo v x other h,
)

-- The difference of two valid sets is valid, and contains the bytes of the first that the second
-- lacks, and no other.
pub contains-minus :
    (s other : RangeSet)
    → IsValid s
    → IsValid other
    → IsValid (minus s other)
      × ((v : ℕ) → contains (minus s other) v ≡ (contains s v && not (contains other v)))
unfolding minus
contains-minus s other w h =
    (subtract_range_set-IsValid s 0 other w h, λ v. contains-subtract_range_set s 0 other v w h)
