-- ===== src/Connect/ShuffleVec/Swap.antt =====
-- `swap` undoes itself, keeps the length, and is defined in range.
use mathlib.Core.List.{Perm}
use mathlib.Core.List.Perm
use librespot.Base.{
  ℕ, zero, suc, ◌<◌, ◌≡◌, refl, ap, ap₂, ◌∙◌, inl, inr, Option-cases, List, [], ◌∷◌, Option, none,
  some, ◌==◌, if◌then◌else◌, length, length-set, get_elem?, set, arith,
}
use librespot.Connect.ShuffleVec.{swap}

module _ {ℓ} {A : Type ℓ} where
  -- A value put in the place of one that is there.
  abbrev pub replaced : A → Option A → Option A
  replaced v none = none
  replaced v (some _) = some v

  pub get_elem?-set :
      (xs : List A) (i k : ℕ) (v : A)
      → get_elem? (set xs i v) k ≡ (if i == k then replaced v (get_elem? xs k) else get_elem? xs k)
  get_elem?-set [] i k v = ground arith
  get_elem?-set (x ∷ xs) zero zero v = ground arith
  get_elem?-set (x ∷ xs) zero (suc k) v = ground arith
  get_elem?-set (x ∷ xs) (suc i) zero v = ground arith
  get_elem?-set (x ∷ xs) (suc i) (suc k) v = ground (arith, get_elem?-set xs i k v)

  pub get_elem?-ext : (xs ys : List A) → ((k : ℕ) → get_elem? xs k ≡ get_elem? ys k) → xs ≡ ys
  get_elem?-ext [] [] h = refl
  get_elem?-ext [] (y ∷ ys) h = ground (arith, h 0)
  get_elem?-ext (x ∷ xs) [] h = ground (arith, h 0)
  get_elem?-ext (x ∷ xs) (y ∷ ys) h =
      ap₂ ◌∷◌ (ground (arith, h 0)) (get_elem?-ext xs ys (λ k. h (suc k)))

  pub get_elem?_total : (xs : List A) (i : ℕ) → i < length xs → (a : A) × (get_elem? xs i ≡ some a)
  get_elem?_total [] i h = absurd (omega arith)
  get_elem?_total (x ∷ xs) zero h = (x, refl)
  get_elem?_total (x ∷ xs) (suc i) h = get_elem?_total xs i (omega arith)

  -- What a swap that does not panic has read and written.
  pub swap_parts :
      (xs ys : List A) (i j : ℕ)
      → swap xs i j ≡ some ys
      → (a : A) × (b : A) × (get_elem? xs i ≡ some a)
        × (get_elem? xs j ≡ some b)
        × (ys ≡ set (set xs i b) j a)
  unfolding swap
  swap_parts xs ys i j e = elim (Option-cases (get_elem? xs i)) [
    | inl p ↦ absurd (ground arith)
    | inr (a, p) ↦ elim (Option-cases (get_elem? xs j)) [
      | inl q ↦ absurd (ground arith)
      | inr (b, q) ↦ (a, b, p, q, ground arith)
    ]
  ]

  pub swap_of_parts :
      (xs : List A) (i j : ℕ) (a b : A)
      → get_elem? xs i ≡ some a
      → get_elem? xs j ≡ some b
      → swap xs i j ≡ some (set (set xs i b) j a)
  unfolding swap
  swap_of_parts xs i j a b p q = ground arith

  -- Every place after a swap.
  pub get_elem?-swap :
      (xs ys : List A) (i j k : ℕ)
      → swap xs i j ≡ some ys
      → get_elem? ys k
        ≡ (if j == k then get_elem? xs i else if i == k then get_elem? xs j else get_elem? xs k)
  get_elem?-swap xs ys i j k e =
      let (a, b, p, q, r) = swap_parts xs ys i j e in
      rw r (
        ground (
          arith,
          get_elem?-set (set xs i b) j k a,
          get_elem?-set xs i k b,
          ap (get_elem? xs) {x = i} {y = k},
          ap (get_elem? xs) {x = j} {y = k},
        ))

  pub length-swap : (xs ys : List A) (i j : ℕ) → swap xs i j ≡ some ys → length ys ≡ length xs
  length-swap xs ys i j e =
      let (a, b, p, q, r) = swap_parts xs ys i j e in
      rw (r, length-set (set xs i b) j a) (length-set xs i b)

  pub swap_total :
      (xs : List A) (i j : ℕ)
      → i < length xs
      → j < length xs
      → (ys : List A) × (swap xs i j ≡ some ys)
  swap_total xs i j h k =
      let (a, p) = get_elem?_total xs i h in
      let (b, q) = get_elem?_total xs j k in (set (set xs i b) j a, swap_of_parts xs i j a b p q)

  -- A swap, and the same swap again with its places in either order.
  pub swap_back : (xs ys : List A) (i j : ℕ) → swap xs i j ≡ some ys → swap ys j i ≡ some xs
  swap_back xs ys i j e =
      let (a, b, p, q, r) = swap_parts xs ys i j e in
      let at_j : get_elem? ys j ≡ some a = ground (arith, get_elem?-swap xs ys i j j e) in
      let at_i : get_elem? ys i ≡ some b =
        ground (arith, get_elem?-swap xs ys i j i e, ap (get_elem? xs) {x = i} {y = j}) in
      swap_of_parts ys j i a b at_j at_i
      ∙ ap some (
          get_elem?-ext _ xs (λ k. ground (
            arith,
            get_elem?-set (set ys j b) i k a,
            get_elem?-set ys j k b,
            get_elem?-swap xs ys i j k e,
            ap (get_elem? xs) {x = i} {y = k},
            ap (get_elem? xs) {x = j} {y = k},
          )))

  -- The places of a swap may be given in either order.
  pub swap_comm : (xs ys : List A) (i j : ℕ) → swap xs i j ≡ some ys → swap xs j i ≡ some ys
  swap_comm xs ys i j e =
      let (a, b, p, q, r) = swap_parts xs ys i j e in
      swap_of_parts xs j i b a q p
      ∙ ap some (
          get_elem?-ext _ ys (λ k. ground (
            arith,
            get_elem?-set (set xs j a) i k b,
            get_elem?-set xs j k a,
            get_elem?-swap xs ys i j k e,
            ap (get_elem? xs) {x = i} {y = k},
            ap (get_elem? xs) {x = j} {y = k},
          )))

module _ {ℓ} {A : Type ℓ} where
  head-perm :
      (x y : A) (xs : List A) (j : ℕ) → get_elem? xs j ≡ some y → Perm (x ∷ xs) (y ∷ set xs j x)
  head-perm x y [] j e = cc
  head-perm x y (z ∷ zs) zero e = let same : z ≡ y = ground arith in rw same (Perm.swap y x zs)
  head-perm x y (z ∷ zs) (suc j) e =
      Perm.trans (Perm.swap z x zs)
        (Perm.trans (Perm.cons z (head-perm x y zs j e)) (Perm.swap y z (set zs j x)))

  set-perm :
      (xs : List A) (i j : ℕ) (a b : A)
      → get_elem? xs i ≡ some a
      → get_elem? xs j ≡ some b
      → Perm xs (set (set xs i b) j a)
  set-perm [] i j a b p q = cc
  set-perm (x ∷ xs) zero zero a b p q =
      let same : x ≡ a = ground arith in rw same (Perm.refl (a ∷ xs))
  set-perm (x ∷ xs) zero (suc j) a b p q =
      let same : x ≡ a = ground arith in rw same (head-perm a b xs j q)
  set-perm (x ∷ xs) (suc i) zero a b p q =
      let same : x ≡ b = ground arith in rw same (head-perm b a xs i p)
  set-perm (x ∷ xs) (suc i) (suc j) a b p q = Perm.cons x (set-perm xs i j a b p q)

  -- A swap rearranges.
  pub swap-perm : (xs ys : List A) (i j : ℕ) → swap xs i j ≡ some ys → Perm xs ys
  swap-perm xs ys i j e =
      let (a, b, p, q, r) = swap_parts xs ys i j e in rw r (set-perm xs i j a b p q)
