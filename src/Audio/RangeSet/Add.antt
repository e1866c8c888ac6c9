-- ===== src/Audio/RangeSet/Add.antt =====
-- `add_range` and `union`: they keep the invariant, and add exactly the bytes of the new range.
use librespot.Base.{
  ℕ, suc, ◌+◌, ◌-◌, ◌≤◌, ◌<◌, ◌≡◌, refl, false, inl, inr, [], ◌∷◌, ◌||◌, leb, min, max, leb→le,
  Bool-cases, arith,
}
use librespot.Base.Word.{usize_mod, wrapping_add_exact, wrapping_sub_exact}
use librespot.Audio.RangeSet.{
  Range, RangeSet, end, merge, absorb, add_from, add_range, add_range_set, union, contains,
}
use librespot.Audio.RangeSet.Order.{
  IsProper, IsSeparated, IsValid, covers, IsProper-of_length, IsSeparated-mono, contains-cons,
}

pub merge-IsProper :
    (r x : Range)
    → IsProper r
    → IsProper x
    → IsProper (merge r x)
      × ((merge r x).start ≡ min r.start x.start)
      × (end (merge r x) ≡ max (end r) (end x))
merge-IsProper r x p q = (proper, refl', ends)
  where
    m : Range
    m = merge r x

    refl' : m.start ≡ min r.start x.start
    refl' = unfold merge in refl

    long : m.length ≡ max (end r) (end x) - min r.start x.start
    long =
        unfold merge in
        wrapping_sub_exact (max (end r) (end x)) (min r.start x.start)
          (omega (arith, p.ends, q.ends)) (omega (arith, p.ends, q.ends, p.fits, q.fits))

    proper : IsProper m
    proper =
        IsProper-of_length m (omega (arith, long, p.ends, q.ends, p.nonempty))
          (omega (arith, refl', long, p.ends, q.ends, p.fits, q.fits))

    ends : end m ≡ max (end r) (end x)
    ends = omega (arith, proper.ends, long, refl', p.ends, q.ends)

-- The first range does not end before `a`.
abbrev Reaches : ℕ → RangeSet → Type 0
Reaches a [] = Unit {0}
Reaches a (x ∷ xs) = a ≤ end x

Reaches-of_IsSeparated : (a lo : ℕ) (s : RangeSet) → a ≤ lo → IsSeparated lo s → Reaches a s
Reaches-of_IsSeparated a lo [] h v = tt
Reaches-of_IsSeparated a lo (x ∷ xs) h v = omega (arith, v.1.ends)

absorb-IsSeparated :
    (lo : ℕ) (r : Range) (s : RangeSet)
    → lo ≤ r.start
    → IsProper r
    → IsSeparated lo s
    → IsSeparated lo (absorb r s)
unfolding absorb
absorb-IsSeparated lo r [] h p v = (h, p, tt)
absorb-IsSeparated lo r (x ∷ xs) h p v = elim (Bool-cases (leb x.start (end r))) [
  | inl e ↦
      rw (e, absorb)
        (absorb-IsSeparated lo (merge r x) xs (omega (arith, m.1)) m.0
          (IsSeparated-mono xs (omega (arith, v.1.ends)) v.2))
  | inr e ↦ rw (e, absorb) (h, p, (ground arith, v.1, v.2))
]
  where
    m :
        IsProper (merge r x)
        × ((merge r x).start ≡ min r.start x.start)
        × (end (merge r x) ≡ max (end r) (end x))
    m = merge-IsProper r x p v.1

covers-merge :
    (r x : Range) (v : ℕ)
    → IsProper r
    → IsProper x
    → x.start ≤ end r
    → r.start ≤ end x
    → covers (merge r x) v ≡ (covers r v || covers x v)
covers-merge r x v p q h k =
    let m = merge-IsProper r x p q in ground (arith, m.1, m.2, p.ends, q.ends)

contains-absorb :
    (lo : ℕ) (r : Range) (s : RangeSet) (v : ℕ)
    → lo ≤ r.start
    → IsProper r
    → IsSeparated lo s
    → Reaches r.start s
    → contains (absorb r s) v ≡ (covers r v || contains s v)
unfolding absorb
contains-absorb lo r [] v h p w k = contains-cons lo v r [] (h, p, tt)
contains-absorb lo r (x ∷ xs) v h p w k = elim (Bool-cases (leb x.start (end r))) [
  | inl e ↦
      rw (e, absorb)
        (ground (
          arith,
          contains-absorb lo (merge r x) xs v (omega (arith, m.1)) m.0
              (IsSeparated-mono xs (omega (arith, w.1.ends)) w.2)
              (Reaches-of_IsSeparated (merge r x).start (suc (end x)) xs
                (omega (arith, m.1, w.1.ends)) w.2),
          covers-merge r x v p w.1 (leb→le x.start (end r) e) k,
          contains-cons lo v x xs w,
        ))
  | inr e ↦ rw (e, absorb) (contains-cons lo v r (x ∷ xs) (h, p, (ground arith, w.1, w.2)))
]
  where
    m :
        IsProper (merge r x)
        × ((merge r x).start ≡ min r.start x.start)
        × (end (merge r x) ≡ max (end r) (end x))
    m = merge-IsProper r x p w.1

add_from-IsSeparated :
    (lo : ℕ) (r : Range) (s : RangeSet)
    → lo ≤ r.start
    → IsProper r
    → IsSeparated lo s
    → IsSeparated lo (add_from r s)
unfolding add_from
add_from-IsSeparated lo r [] h p w = (h, p, tt)
add_from-IsSeparated lo r (x ∷ xs) h p w =
    ground (
      arith,
      absorb-IsSeparated lo r (x ∷ xs) h p w,
      add_from-IsSeparated (suc (end x)) r xs,
      p.ends,
    )

contains-add_from :
    (lo : ℕ) (r : Range) (s : RangeSet) (v : ℕ)
    → lo ≤ r.start
    → IsProper r
    → IsSeparated lo s
    → contains (add_from r s) v ≡ (covers r v || contains s v)
unfolding add_from
contains-add_from lo r [] v h p w = contains-cons lo v r [] (h, p, tt)
contains-add_from lo r (x ∷ xs) v h p w = ground (
  arith,
  contains-absorb lo r (x ∷ xs) v h p w,
  contains-add_from (suc (end x)) r xs v,
  add_from-IsSeparated (suc (end x)) r xs,
  contains-cons lo v x xs w,
  contains-cons lo v x (add_from r xs),
  contains-cons lo v r (x ∷ xs),
)

-- A range is empty, or proper.
abbrev pub IsRange : Range → Type 0
IsRange r = r.start + r.length < usize_mod

pub covers_empty : (r : Range) (v : ℕ) → IsRange r → r.length ≡ 0 → covers r v ≡ false
unfolding end
covers_empty r v h e = ground (arith, wrapping_add_exact r.start r.length h)

pub add_range-IsValid : (s : RangeSet) (r : Range) → IsValid s → IsRange r → IsValid (add_range s r)
unfolding add_range
add_range-IsValid s r w h = ground (arith, add_from-IsSeparated 0 r s, IsProper-of_length r)

pub contains-add_range :
    (s : RangeSet) (r : Range) (v : ℕ)
    → IsValid s
    → IsRange r
    → contains (add_range s r) v ≡ (covers r v || contains s v)
unfolding add_range
contains-add_range s r v w h =
    ground (arith, covers_empty r v h, contains-add_from 0 r s v, IsProper-of_length r)

-- `add_range` keeps the ranges sorted, apart from one another and nonempty, and a byte is in the
-- set afterwards exactly when it was before or is in the range.
pub add_range_lem :
    (s : RangeSet) (r : Range)
    → IsValid s
    → IsRange r
    → IsValid (add_range s r)
      × ((v : ℕ) → contains (add_range s r) v ≡ (covers r v || contains s v))
add_range_lem s r w h = (add_range-IsValid s r w h, λ v. contains-add_range s r v w h)

add_range_set-IsValid :
    (s : RangeSet) (lo : ℕ) (other : RangeSet)
    → IsValid s
    → IsSeparated lo other
    → IsValid (add_range_set s other)
unfolding add_range_set
add_range_set-IsValid s lo [] w h = w
add_range_set-IsValid s lo (x ∷ other) w h =
    add_range_set-IsValid (add_range s x) (suc (end x)) other (add_range-IsValid s x w h.1.fits) h.2

contains-add_range_set :
    (s : RangeSet) (lo : ℕ) (other : RangeSet) (v : ℕ)
    → IsValid s
    → IsSeparated lo other
    → contains (add_range_set s other) v ≡ (contains other v || contains s v)
unfolding add_range_set
contains-add_range_set s lo [] v w h = unfold contains in refl
contains-add_range_set s lo (x ∷ other) v w h = ground (
  arith,
  contains-add_range_set (add_range s x) (suc (end x)) other v (add_range-IsValid s x w h.1.fits)
      h.2,
  contains-add_range s x v w h.1.fits,
  contains-cons lo v x other h,
)

-- The union of two valid sets is valid, and contains the bytes of either and no other.
pub contains-union :
    (s other : RangeSet)
    → IsValid s
    → IsValid other
    → IsValid (union s other)
      × ((v : ℕ) → contains (union s other) v ≡ (contains other v || contains s v))
unfolding union
contains-union s other w h =
    (add_range_set-IsValid s 0 other w h, λ v. contains-add_range_set s 0 other v w h)
