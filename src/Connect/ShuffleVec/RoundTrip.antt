-- ===== src/Connect/ShuffleVec/RoundTrip.antt =====
-- `unshuffle` after a shuffle, for a generator that draws in range.
use mathlib.Core.List.{Perm}
use mathlib.Core.List.Perm
use librespot.Base.{
  ◌⊎◌, subst, ℕ, zero, suc, ◌+◌, ◌-◌, ◌≤◌, ◌<◌, ◌≡◌, refl, sym, ap, ap₂, ◌∙◌, inl, inr,
  Option-cases, Bool, true, false, Bool-cases, List, [], ◌∷◌, Option, none, some, ◌==◌, ==_iff,
  if◌then◌else◌, length, get_elem?, drop, leb, All, arith,
}
use librespot.Connect.ShuffleVec.{
  Rng, ShuffleVec, from_vec, swap, and_then, swap_down, swap_up, swap_first, position_from,
  unshuffle, draw_indices, shuffle_indices, shuffle_with_rng,
}
use librespot.Connect.ShuffleVec.Swap.{
  swap-perm, swap_back, swap_comm, swap_total, length-swap, get_elem?-swap,
}

module _ {ℓ κ} {A : Type ℓ} {B : Type κ} where
  and_then-eq-some :
      (m : Option A) (f : A → Option B) (b : B)
      → and_then m f ≡ some b
      → (a : A) × (m ≡ some a) × (f a ≡ some b)
  and_then-eq-some none f b e = cc
  and_then-eq-some (some a) f b e = (a, refl, e)

drop-cons :
    (k : ℕ) (ds : List ℕ) (d : ℕ) (rest : List ℕ)
    → drop k ds ≡ d ∷ rest
    → (get_elem? ds k ≡ some d) × (drop (suc k) ds ≡ rest)
drop-cons zero [] d rest e = cc
drop-cons zero (x ∷ ds) d rest e = (cc, cc)
drop-cons (suc k) [] d rest e = cc
drop-cons (suc k) (x ∷ ds) d rest e = drop-cons k ds d rest e

module _ {ℓ} {A : Type ℓ} where
  length-swap_down :
      (n : ℕ) (ds : List ℕ) (xs ys : List A) → swap_down n ds xs ≡ some ys → length ys ≡ length xs
  unfolding swap_down
  length-swap_down zero ds xs ys e = ground arith
  length-swap_down (suc n) [] xs ys e = ground arith
  length-swap_down (suc n) (d ∷ ds) xs ys e =
      let (xs', s, e') = and_then-eq-some (swap xs (suc n) d) (swap_down n ds) ys e in
      length-swap_down n ds xs' ys e' ∙ length-swap xs xs' (suc n) d s

  last_round :
      (all : List ℕ) (k n r x : ℕ) (xs xs' : List A)
      → get_elem? all k ≡ some x
      → k + suc n + 1 ≡ length xs'
      → swap xs' x (suc n) ≡ some xs
      → swap_up (suc r) all (suc n) xs' ≡ swap_up r all (suc (suc n)) xs
  unfolding swap_up
  last_round all k n r x xs xs' g h s =
      let index : length xs' - suc n - 1 ≡ k = omega arith in
      let at_k : get_elem? all (length xs' - suc n - 1) ≡ some x = rw index g in
      rw (at_k, swap_up, s) (ap (λ i. swap_up r all i xs) (omega arith))

  -- After `n` rounds of `swap_up` the swaps of the last `n` rounds of `swap_down` are undone.
  swap_up_undoes :
      (all : List ℕ) (k n r t : ℕ) (ds : List ℕ) (xs ys : List A)
      → drop k all ≡ ds
      → length ds ≡ n
      → k + n + 1 ≡ length xs
      → t ≡ n + r
      → swap_down n ds xs ≡ some ys
      → swap_up t all 1 ys ≡ swap_up r all (suc n) xs
  unfolding swap_down
  swap_up_undoes all k zero r t ds xs ys d l h e s =
      ap₂ (λ t v. swap_up t all 1 v) (omega arith) (ground arith)
  swap_up_undoes all k (suc n) r t [] xs ys d l h e s = absurd (omega arith)
  swap_up_undoes all k (suc n) r t (x ∷ ds) xs ys d l h e s =
      let (xs', p, q) = and_then-eq-some (swap xs (suc n) x) (swap_down n ds) ys s in
      let (at_k, rest) = drop-cons k all x ds d in
      let same = length-swap xs xs' (suc n) x p in
      swap_up_undoes all (suc k) n (suc r) t ds xs' ys rest (omega arith) (omega (arith, same))
        (omega arith) q
      ∙ last_round all k n r x xs xs' at_k (omega (arith, same)) (swap_back xs xs' (suc n) x p)

  swap_first_back :
      (p : Option ℕ) (xs ys : List A) → swap_first p xs ≡ some ys → swap_first p ys ≡ some xs
  swap_first_back none xs ys e = ground arith
  swap_first_back (some i) xs ys e = swap_comm ys xs i 0 (swap_back xs ys 0 i e)

  length-swap_first :
      (p : Option ℕ) (xs ys : List A) → swap_first p xs ≡ some ys → length ys ≡ length xs
  length-swap_first none xs ys e = ground arith
  length-swap_first (some i) xs ys e = length-swap xs ys 0 i e

  -- The state after a shuffle by the indices `ds`.
  abbrev shuffled : List ℕ → Option ℕ → List A → ShuffleVec A
  shuffled ds first final = record {
    vec = final;
    indices = some ds;
    original_first_position = first;
  }

  unshuffle-shuffled :
      (ds : List ℕ) (first : Option ℕ) (vec mixed final : List A)
      → 1 < length vec
      → length ds ≡ length vec - 1
      → swap_down (length vec - 1) ds vec ≡ some mixed
      → swap_first first mixed ≡ some final
      → unshuffle (shuffled ds first final) ≡ some (from_vec vec)
  unfolding unshuffle from_vec
  unshuffle-shuffled ds first vec mixed final h l s p =
      let whole = length-swap_down (length vec - 1) ds vec mixed s in
      let undone =
        swap_up_undoes ds 0 (length vec - 1) 0 (length mixed - 1) ds vec mixed refl l (omega arith)
          (omega (arith, whole)) s in
      rw (swap_first_back first mixed final p, undone) refl

  swap_down_total :
      (n : ℕ) (ds : List ℕ) (xs : List A)
      → n < length xs
      → All (λ d. d < length xs) ds
      → (ys : List A) × (swap_down n ds xs ≡ some ys)
  unfolding swap_down
  swap_down_total zero ds xs h b = (xs, refl)
  swap_down_total (suc n) [] xs h b = (xs, refl)
  swap_down_total (suc n) (d ∷ ds) xs h b =
      let (xs', e) = swap_total xs (suc n) d h b.0 in
      let same = length-swap xs xs' (suc n) d e in
      let (ys, p) = swap_down_total n ds xs' (omega (arith, same)) (rw same b.1) in (ys, rw e p)

  position_from_total :
      (test : A → Bool) (at : ℕ) (xs : List A) (p : ℕ)
      → position_from test at xs ≡ some p
      → (at ≤ p)
        × (p < at + length xs)
        × (x : A) × (get_elem? xs (p - at) ≡ some x)
        × (test x ≡ true)
  unfolding position_from
  position_from_total test at [] p e = cc
  position_from_total test at (x ∷ xs) p e = elim (Bool-cases (test x)) [
    | inl t ↦
        let here : p ≡ at = ground arith in
        (omega arith, omega arith, x, (let z : p - at ≡ 0 = omega arith in rw z refl), t)
    | inr t ↦
        let (l, h, y, g, q) = position_from_total test (at + 1) xs p (ground arith) in
        (
          omega arith,
          omega arith,
          y,
          (let z : p - at ≡ suc (p - (at + 1)) = omega arith in rw z g),
          q,
        )
  ]

  position_from-none :
      (test : A → Bool) (at : ℕ) (xs : List A)
      → position_from test at xs ≡ none
      → All (λ x. test x ≡ false) xs
  unfolding position_from
  position_from-none test at [] e = tt
  position_from-none test at (x ∷ xs) e =
      (ground arith, position_from-none test (at + 1) xs (ground arith))

  shuffle_indices_total :
      (ds : List ℕ) (is_first : A → Bool) (vec : List A)
      → 1 < length vec
      → All (λ d. d < length vec) ds
      → (mixed : List A) × (final : List A) × (swap_down (length vec - 1) ds vec ≡ some mixed)
        × (swap_first (position_from is_first 0 mixed) mixed ≡ some final)
        × (shuffle_indices ds is_first vec
            ≡ some (shuffled ds (position_from is_first 0 mixed) final))
  unfolding shuffle_indices
  shuffle_indices_total ds is_first vec h b =
      let (mixed, s) = swap_down_total (length vec - 1) ds vec (omega arith) b in
      let whole = length-swap_down (length vec - 1) ds vec mixed s in
      elim (Option-cases (position_from is_first 0 mixed)) [
        | inl e ↦ (mixed, mixed, s, (rw e refl), (rw (s, e) refl))
        | inr (p, e) ↦
            let (l, r, x, g, q) = position_from_total is_first 0 mixed p e in
            let (final, f) = swap_total mixed 0 p (omega (arith, whole)) (omega arith) in
            (mixed, final, s, (rw e f), (rw (s, e, f) refl))
      ]

-- What the shuffle relies on of the generator: a draw from `0..n` is below `n`.
abbrev pub DrawsInRange : Rng → Type 0
DrawsInRange rng = (s : rng.State) (n : ℕ) → 0 < n → (rng.random_below s n).0 < n

module _ (rng : Rng) (draws : DrawsInRange rng) where
  length-draw_indices : (n : ℕ) (s : rng.State) → length (draw_indices rng n s) ≡ n
  unfolding draw_indices
  length-draw_indices zero s = refl
  length-draw_indices (suc n) s = ap suc (length-draw_indices n (rng.random_below s (suc n + 1)).1)

  draw_indices-below :
      (n bound : ℕ) (s : rng.State) → n < bound → All (λ d. d < bound) (draw_indices rng n s)
  unfolding draw_indices
  draw_indices-below zero bound s h = tt
  draw_indices-below (suc n) bound s h = (
    omega (arith, draws s (suc n + 1) (omega arith)),
    draw_indices-below n bound (rng.random_below s (suc n + 1)).1 (omega arith),
  )

module _ {ℓ} {A : Type ℓ} where
  swap_down-perm : (n : ℕ) (ds : List ℕ) (xs ys : List A) → swap_down n ds xs ≡ some ys → Perm xs ys
  unfolding swap_down
  swap_down-perm zero ds xs ys e = let same : xs ≡ ys = ground arith in rw same (Perm.refl ys)
  swap_down-perm (suc n) [] xs ys e = let same : xs ≡ ys = ground arith in rw same (Perm.refl ys)
  swap_down-perm (suc n) (d ∷ ds) xs ys e =
      let (xs', s, e') = and_then-eq-some (swap xs (suc n) d) (swap_down n ds) ys e in
      Perm.trans (swap-perm xs xs' (suc n) d s) (swap_down-perm n ds xs' ys e')

  -- The chosen track stands first, or there is none to choose.
  abbrev pub IsLed : (A → Bool) → List A → Type ℓ
  IsLed is_first xs =
      ((x : A) × (get_elem? xs 0 ≡ some x) × (is_first x ≡ true)) ⊎ All (λ x. is_first x ≡ false) xs

  head_test :
      (n : ℕ) (a b c : Option A)
      → (n ≡ 0 → a ≡ b)
      → (if n == 0 then a else if 0 == 0 then b else c) ≡ b
  head_test n a b c h = elim (Bool-cases (n == 0)) [
    | inl e ↦ rw e (h ((==_iff n 0).0 e))
    | inr e ↦ rw e refl
  ]

  swap_first-IsLed :
      (is_first : A → Bool) (xs ys : List A)
      → swap_first (position_from is_first 0 xs) xs ≡ some ys
      → Perm xs ys × IsLed is_first ys
  swap_first-IsLed is_first xs ys e = elim (Option-cases (position_from is_first 0 xs)) [
    | inl p ↦
        let same : xs ≡ ys = ground arith in
        (
          rw same (Perm.refl ys),
          inr (subst (All (λ x. is_first x ≡ false)) same (position_from-none is_first 0 xs p)),
        )
    | inr (n, p) ↦
        let s : swap xs 0 n ≡ some ys = ground arith in
        let (l, h, x, g, q) = position_from_total is_first 0 xs n p in
        (
          swap-perm xs ys 0 n s,
          inl (
            x,
            get_elem?-swap xs ys 0 n 0 s
                ∙ head_test n (get_elem? xs 0) (get_elem? xs n) (get_elem? xs 0)
                    (λ z. ap (get_elem? xs) (sym z))
                ∙ (let z : n - 0 ≡ n = omega arith in rw z at g),
            q,
          ),
        )
  ]

module _ {ℓ} {A : Type ℓ} (rng : Rng) (draws : DrawsInRange rng) where
  -- Shuffling a vector that is not shuffled does not panic and rearranges it; with two entries or
  -- more a chosen one, if there is one, comes first; and `unshuffle` then restores the vector.
  pub unshuffle-shuffle_with_rng :
      (s : rng.State) (is_first : A → Bool) (vec : List A)
      → (v : ShuffleVec A) × (shuffle_with_rng rng s is_first (from_vec vec) ≡ some v)
        × Perm vec v.vec
        × (1 < length vec → IsLed is_first v.vec)
        × (unshuffle v ≡ some (from_vec vec))
  unfolding shuffle_with_rng from_vec
  unshuffle-shuffle_with_rng s is_first vec = elim (Bool-cases (leb (length vec) 1)) [
    | inl e ↦ (from_vec vec, rw e refl, Perm.refl vec, (λ h. absurd (ground arith)), refl)
    | inr e ↦
        let ds = draw_indices rng (length vec - 1) s in
        let (mixed, final, p, q, r) =
          shuffle_indices_total ds is_first vec (ground arith)
            (draw_indices-below rng draws (length vec - 1) (length vec) s (ground arith)) in
        let (perm, led) = swap_first-IsLed is_first mixed final q in
        (
          shuffled ds (position_from is_first 0 mixed) final,
          rw (e, r) refl,
          Perm.trans (swap_down-perm (length vec - 1) ds vec mixed p) perm,
          (λ h. led),
          unshuffle-shuffled ds (position_from is_first 0 mixed) vec mixed final (ground arith)
              (length-draw_indices rng draws (length vec - 1) s) p q,
        )
  ]
