-- ===== src/Audio/RangeSet/Length.antt =====
-- `len`, `contained_length_from_value` and `contains_range_set` measured against membership.
use librespot.Base.{
  ℕ, zero, suc, ◌+◌, ◌-◌, ◌≤◌, ◌<◌, ◌≡◌, refl, sym, ◌↔◌, ◌⊎◌, subst, Bool, true, false, inl, inr,
  [], ◌∷◌, ◌&&◌, ◌||◌, ltb, min, max, Bool-cases, if◌then◌else◌, All, arith,
}
use librespot.Base.Word.{usize_mod, wrapping_add_exact, wrapping_sub_exact}
use librespot.Audio.RangeSet.{
  Range, RangeSet, end, len, contained_length_from_value, contains_range_set, contains,
}
use librespot.Audio.RangeSet.Order.{
  IsProper, IsSeparated, IsValid, covers, contains-cons, contains_below,
}

-- How many of the numbers below `n` pass a test.
pub count_below : ℕ → (ℕ → Bool) → ℕ
count_below zero p = 0
count_below (suc n) p = (if p n then 1 else 0) + count_below n p

count_below_none : (n : ℕ) (p : ℕ → Bool) → ((v : ℕ) → v < n → p v ≡ false) → count_below n p ≡ 0
unfolding count_below
count_below_none zero p h = refl
count_below_none (suc n) p h = ground (arith, h n, count_below_none n p (λ v k. h v (omega arith)))

count_below-or :
    (n : ℕ) (p q r : ℕ → Bool)
    → ((v : ℕ) → r v ≡ (p v || q v))
    → ((v : ℕ) → (p v && q v) ≡ false)
    → count_below n r ≡ count_below n p + count_below n q
unfolding count_below
count_below-or zero p q r e d = omega arith
count_below-or (suc n) p q r e d = ground (arith, e n, d n, count_below-or n p q r e d)

count_below-covers :
    (n : ℕ) (x : Range) → IsProper x → count_below n (covers x) ≡ min n (end x) - min n x.start
unfolding count_below
count_below-covers zero x p = omega arith
count_below-covers (suc n) x p = ground (arith, count_below-covers n x p, p.ends)

-- Every range ends at `n` or before.
abbrev EndsBy : ℕ → RangeSet → Type 0
EndsBy n s = All (λ x. end x ≤ n) s

pub disjoint-cons :
    (lo v : ℕ) (x : Range) (xs : RangeSet)
    → IsSeparated lo (x ∷ xs)
    → (covers x v && contains xs v) ≡ false
disjoint-cons lo v x xs w = ground (arith, contains_below (suc (end x)) v xs w.2)

-- The head's bytes are counted, once.
count-cons :
    (lo n : ℕ) (x : Range) (xs : RangeSet)
    → IsSeparated lo (x ∷ xs)
    → end x ≤ n
    → count_below n (contains (x ∷ xs)) ≡ x.length + count_below n (contains xs)
count-cons lo n x xs w b = omega (
  arith,
  count_below-or n (covers x) (contains xs) (contains (x ∷ xs)) (λ v. contains-cons lo v x xs w)
      (λ v. disjoint-cons lo v x xs w),
  count_below-covers n x w.1,
  w.1.ends,
)

-- The sum does not wrap, since the ranges are disjoint below `n`.
len-count :
    (lo n : ℕ) (s : RangeSet)
    → n < usize_mod
    → IsSeparated lo s
    → EndsBy n s
    → (len s ≡ count_below n (contains s)) × (len s + lo ≤ max n lo)
unfolding len
len-count lo n [] u w b =
    (sym (count_below_none n (contains []) (λ v h. unfold contains in refl)), omega arith)
len-count lo n (x ∷ xs) u w b =
    let ih = len-count (suc (end x)) n xs u w.2 b.1 in
    let room : x.length + len xs + lo ≤ n = omega (arith, ih.1, b.0, w.1.ends, w.0) in
    let exact = wrapping_add_exact x.length (len xs) (omega (arith, room, u)) in
    (omega (arith, exact, count-cons lo n x xs w b.0, ih.0), omega (arith, exact, room))

-- `len` is the number of bytes that the set contains, for a valid set in a file of `n` bytes.
pub len_counts :
    (s : RangeSet) (n : ℕ)
    → n < usize_mod
    → IsValid s
    → EndsBy n s
    → len s ≡ count_below n (contains s)
len_counts s n u w b = (len-count 0 n s u w b).0

contained_from :
    (lo : ℕ) (s : RangeSet) (v : ℕ)
    → IsSeparated lo s
    → ((w : ℕ) → w < contained_length_from_value s v → contains s (v + w) ≡ true)
      × (contains s (v + contained_length_from_value s v) ≡ false)
unfolding contained_length_from_value
contained_from lo [] v w = ((λ k h. absurd (omega arith)), unfold contains in refl)
contained_from lo (x ∷ xs) v w =
    let ih = contained_from (suc (end x)) xs v w.2 in
    (
      (λ k h. ground (
        arith,
        ih.0 k,
        contains-cons lo (v + k) x xs w,
        wrapping_sub_exact (end x) v,
        w.1.ends,
        w.1.fits,
      )),
      ground (
        arith,
        ih.1,
        contains-cons lo (v + contained_length_from_value (x ∷ xs) v) x xs w,
        contains_below (suc (end x)) (end x) xs w.2,
        contains_below lo v (x ∷ xs) w,
        contains_below x.start (v + 0) (x ∷ xs),
        wrapping_sub_exact (end x) v,
        w.1.ends,
        w.1.fits,
      ),
    )

-- The run of contained bytes from `value` on: each of the bytes that the function counts is
-- contained, and the one after them is not.
pub contained_length_from_value_lem :
    (s : RangeSet) (value : ℕ)
    → IsValid s
    → ((k : ℕ) → k < contained_length_from_value s value → contains s (value + k) ≡ true)
      × (contains s (value + contained_length_from_value s value) ≡ false)
contained_length_from_value_lem s value w = contained_from 0 s value w

-- A range is contained as a whole exactly when the run from its start is as long as it is.
contains_whole :
    (s : RangeSet) (x : Range)
    → IsValid s
    → IsProper x
    → (ltb (contained_length_from_value s x.start) x.length ≡ false)
      ↔ ((v : ℕ) → covers x v ≡ true → contains s v ≡ true)
contains_whole s x w p = (every, λ h. short h (Bool-cases (ltb n x.length)))
  where
    n : ℕ
    n = contained_length_from_value s x.start

    every : ltb n x.length ≡ false → (v : ℕ) → covers x v ≡ true → contains s v ≡ true
    every e v c =
        let at : x.start + (v - x.start) ≡ v = ground (arith, p.ends) in
        subst (λ u. contains s u ≡ true) at
          ((contained_from 0 s x.start w).0 (v - x.start) (ground (arith, p.ends)))

    short :
        ((v : ℕ) → covers x v ≡ true → contains s v ≡ true)
        → (ltb n x.length ≡ true) ⊎ (ltb n x.length ≡ false)
        → ltb n x.length ≡ false
    short h (inl e) = ground (arith, h (x.start + n), (contained_from 0 s x.start w).1, p.ends)
    short h (inr e) = e

contains_range_set_from :
    (s : RangeSet) (lo : ℕ) (other : RangeSet)
    → IsValid s
    → IsSeparated lo other
    → (contains_range_set s other ≡ true)
      ↔ ((v : ℕ) → contains other v ≡ true → contains s v ≡ true)
unfolding contains_range_set
contains_range_set_from s lo [] w u = ((λ e v h. unfold contains in ground arith), λ h. refl)
contains_range_set_from s lo (x ∷ other) w u =
    let ih = contains_range_set_from s (suc (end x)) other w u.2 in
    let head = contains_whole s x w u.1 in
    (
      (λ e v h. ground (
        arith,
        ih.0,
        ih.0 (ground arith) v,
        head.0 (ground arith) v,
        contains-cons lo v x other u,
      )),
      λ h.
          let first = head.1 (λ v c. h v (ground (arith, contains-cons lo v x other u))) in
          let rest = ih.1 (λ v c. h v (ground (arith, contains-cons lo v x other u))) in
          ground (arith, first, rest),
    )

-- `contains_range_set` decides inclusion: it holds exactly when every byte of the other set is in
-- this one.
pub contains_range_set_lem :
    (s other : RangeSet)
    → IsValid s
    → IsValid other
    → (contains_range_set s other ≡ true)
      ↔ ((v : ℕ) → contains other v ≡ true → contains s v ≡ true)
contains_range_set_lem s other w u = contains_range_set_from s 0 other w u
