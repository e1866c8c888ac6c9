-- ===== src/Audio/RangeSet/Intersection.antt =====
-- `intersection`: the sweep over two sets yields exactly the bytes in both.
use librespot.Base.{
  ℕ, suc, ◌-◌, ◌≤◌, ◌<◌, ◌≡◌, refl, Bool, false, inl, inr, [], ◌∷◌, ◌&&◌, ◌||◌, leb, min, max,
  leb→le, Bool-cases, arith,
}
use librespot.Base.Word.{wrapping_sub_exact}
use librespot.Audio.RangeSet.{
  Range, RangeSet, end, overlap, add_range, intersect_from, intersection, contains,
}
use librespot.Audio.RangeSet.Order.{
  IsProper, IsSeparated, IsValid, covers, IsProper-of_length, contains-cons, contains_below,
}
use librespot.Audio.RangeSet.Add.{IsRange, add_range-IsValid, contains-add_range}

overlap-IsProper :
    (a b : Range)
    → IsProper a
    → IsProper b
    → b.start < end a
    → a.start < end b
    → IsProper (overlap a b)
      × ((overlap a b).start ≡ max a.start b.start)
      × (end (overlap a b) ≡ min (end a) (end b))
overlap-IsProper a b p q h k = (
  proper,
  starts,
  omega (arith, proper.ends, long, starts, p.ends, q.ends, p.nonempty, q.nonempty),
)
  where
    starts : (overlap a b).start ≡ max a.start b.start
    starts = unfold overlap in refl

    long : (overlap a b).length ≡ min (end a) (end b) - max a.start b.start
    long =
        unfold overlap in
        wrapping_sub_exact (min (end a) (end b)) (max a.start b.start)
          (omega (arith, p.ends, q.ends, p.nonempty, q.nonempty))
          (omega (arith, p.ends, q.ends, p.fits, q.fits))

    proper : IsProper (overlap a b)
    proper =
        IsProper-of_length (overlap a b)
          (omega (arith, long, p.ends, q.ends, p.nonempty, q.nonempty))
          (omega (arith, starts, long, p.ends, q.ends, p.fits, q.fits, p.nonempty, q.nonempty))

covers-overlap :
    (a b : Range) (v : ℕ)
    → IsProper a
    → IsProper b
    → b.start < end a
    → a.start < end b
    → covers (overlap a b) v ≡ (covers a v && covers b v)
covers-overlap a b v p q h k = let o = overlap-IsProper a b p q h k in ground (arith, o.1, o.2)

-- What the loop has still to add, after a round in which the two heads overlap.
abbrev both : RangeSet → RangeSet → ℕ → Bool
both s other v = contains s v && contains other v

-- What a state of the loop has to end with.
abbrev Meets : RangeSet → RangeSet → RangeSet → RangeSet → Type 0
Meets result s other r =
    IsValid r × ((v : ℕ) → contains r v ≡ (contains result v || both s other v))

skip_left :
    (lo ho v : ℕ) (a b : Range) (as' bs : RangeSet)
    → IsSeparated lo (a ∷ as')
    → IsSeparated ho (b ∷ bs)
    → end a ≤ b.start
    → both (a ∷ as') (b ∷ bs) v ≡ both as' (b ∷ bs) v
skip_left lo ho v a b as' bs w u h =
    ground (arith, contains-cons lo v a as' w, contains_below b.start v (b ∷ bs))

skip_right :
    (lo ho v : ℕ) (a b : Range) (as' bs : RangeSet)
    → IsSeparated lo (a ∷ as')
    → IsSeparated ho (b ∷ bs)
    → end b ≤ a.start
    → both (a ∷ as') (b ∷ bs) v ≡ both (a ∷ as') bs v
skip_right lo ho v a b as' bs w u h =
    ground (arith, contains-cons ho v b bs u, contains_below a.start v (a ∷ as'))

drop_left :
    (lo ho v : ℕ) (a b : Range) (as' bs : RangeSet)
    → IsSeparated lo (a ∷ as')
    → IsSeparated ho (b ∷ bs)
    → b.start < end a
    → a.start < end b
    → end a ≤ end b
    → both (a ∷ as') (b ∷ bs) v ≡ (covers (overlap a b) v || both as' (b ∷ bs) v)
drop_left lo ho v a b as' bs w u h k l = ground (
  arith,
  contains-cons lo v a as' w,
  contains-cons ho v b bs u,
  covers-overlap a b v w.1 u.1 h k,
  contains_below (suc (end b)) v bs u.2,
)

drop_right :
    (lo ho v : ℕ) (a b : Range) (as' bs : RangeSet)
    → IsSeparated lo (a ∷ as')
    → IsSeparated ho (b ∷ bs)
    → b.start < end a
    → a.start < end b
    → end b ≤ end a
    → both (a ∷ as') (b ∷ bs) v ≡ (covers (overlap a b) v || both (a ∷ as') bs v)
drop_right lo ho v a b as' bs w u h k l = ground (
  arith,
  contains-cons lo v a as' w,
  contains-cons ho v b bs u,
  covers-overlap a b v w.1 u.1 h k,
  contains_below (suc (end a)) v as' w.2,
)

module _ (result : RangeSet) (valid : IsValid result) where
  no_left : (other : RangeSet) → Meets result [] other result
  no_left other = (valid, λ v. unfold contains in ground arith)

  no_right : (s : RangeSet) → Meets result s [] result
  no_right s = (valid, λ v. unfold contains in ground arith)

-- A round that only moves on keeps what is to be met.
Meets-of_eq :
    (result s other s' other' r : RangeSet)
    → ((v : ℕ) → both s other v ≡ both s' other' v)
    → Meets result s' other' r
    → Meets result s other r
Meets-of_eq result s other s' other' r e m = (m.0, λ v. ground (arith, e v, m.1 v))

-- A round that adds the overlap.
Meets-of_add :
    (result s other s' other' r : RangeSet) (x : Range)
    → IsValid result
    → IsRange x
    → ((v : ℕ) → both s other v ≡ (covers x v || both s' other' v))
    → Meets (add_range result x) s' other' r
    → Meets result s other r
Meets-of_add result s other s' other' r x w k e m =
    (m.0, λ v. ground (arith, e v, m.1 v, contains-add_range result x v w k))

intersect_from-Meets :
    (result : RangeSet) (lo ho : ℕ) (s other : RangeSet)
    → IsValid result
    → IsSeparated lo s
    → IsSeparated ho other
    → Meets result s other (intersect_from result s other)
unfolding intersect_from
intersect_from-Meets result lo ho [] other r w u = no_left result r other
intersect_from-Meets result lo ho (a ∷ as') [] r w u = no_right result r (a ∷ as')
intersect_from-Meets result lo ho (a ∷ as') (b ∷ bs) r w u =
    elim (Bool-cases (leb (end a) b.start)) [
      | inl e ↦
          rw (e, intersect_from)
            (Meets-of_eq result _ _ as' (b ∷ bs) _
              (λ v. skip_left lo ho v a b as' bs w u (leb→le _ _ e))
              (intersect_from-Meets result (suc (end a)) ho as' (b ∷ bs) r w.2 u))
      | inr e ↦
          rw (e, intersect_from)
            (elim (Bool-cases (leb (end b) a.start)) [
              | inl f ↦
                  rw (f, intersect_from)
                    (Meets-of_eq result _ _ (a ∷ as') bs _
                      (λ v. skip_right lo ho v a b as' bs w u (leb→le _ _ f))
                      (intersect_from-Meets result lo (suc (end b)) (a ∷ as') bs r w u.2))
              | inr f ↦
                  rw (f, intersect_from)
                    (elim (Bool-cases (leb (end a) (end b))) [
                      | inl g ↦
                          rw (g, intersect_from)
                            (Meets-of_add result _ _ as' (b ∷ bs) _ (overlap a b) r (meet e f).fits
                              (λ v.
                                drop_left lo ho v a b as' bs w u (ground arith) (ground arith)
                                  (ground arith))
                              (intersect_from-Meets (add_range result (overlap a b)) (suc (end a))
                                ho as' (b ∷ bs)
                                (add_range-IsValid result (overlap a b) r (meet e f).fits) w.2 u))
                      | inr g ↦
                          rw (g, intersect_from)
                            (Meets-of_add result _ _ (a ∷ as') bs _ (overlap a b) r (meet e f).fits
                              (λ v.
                                drop_right lo ho v a b as' bs w u (ground arith) (ground arith)
                                  (ground arith))
                              (intersect_from-Meets (add_range result (overlap a b)) lo
                                (suc (end b)) (a ∷ as') bs
                                (add_range-IsValid result (overlap a b) r (meet e f).fits) w u.2))
                    ])
            ])
    ]
  where
    meet : leb (end a) b.start ≡ false → leb (end b) a.start ≡ false → IsProper (overlap a b)
    meet e f = (overlap-IsProper a b w.1 u.1 (ground arith) (ground arith)).0

-- The intersection of two valid sets is valid, and contains the bytes in both and no other.
pub contains-intersection :
    (s other : RangeSet)
    → IsValid s
    → IsValid other
    → IsValid (intersection s other)
      × ((v : ℕ) → contains (intersection s other) v ≡ (contains s v && contains other v))
unfolding intersection
contains-intersection s other w u = (m.0, λ v. unfold contains in m.1 v)
  where
    m : Meets [] s other (intersect_from [] s other)
    m = intersect_from-Meets [] 0 0 s other tt w u
