-- ===== src/Connect/State/FillUp/Rounds.antt =====
-- What each round of `fill_up_next_tracks` does.
use librespot.Base.{
  ℕ, zero, suc, ◌+◌, ◌≤◌, ◌<◌, ◌≡◌, refl, sym, ◌∙◌, ◌⊎◌, inl, inr, false, List, [], ◌∷◌, Option,
  none, some, length, get_elem?, All, Option-cases, arith,
}
use librespot.Connect.Track.{ProvidedTrack, is_unavailable, new_delimiter}
use librespot.Connect.State.{ContextType, autoplay, StateError, StateContext, ConnectState}
use librespot.Connect.State.Context.{context_at, get_context, update_context_index, repeat_context}
use librespot.Connect.State.FillUp.{
  push, skip, break, fail, to_autoplay, at_end, fill_round, longest,
}

-- Two states with the same player and the same tracks in their contexts.
abbrev pub vec_of : Option StateContext → Option (List ProvidedTrack)
vec_of none = none
vec_of (some c) = some c.tracks.vec

abbrev pub vec_at : ContextType → ConnectState → Option (List ProvidedTrack)
vec_at ty s = vec_of (context_at ty s)

abbrev pub SameTracks : ConnectState → ConnectState → Type 0
SameTracks s s' = (ty : ContextType) → vec_at ty s' ≡ vec_at ty s

abbrev pub IsDelimiter : ProvidedTrack → Type 0
IsDelimiter t = (n : ℕ) × (t ≡ new_delimiter n)

-- A track of a context that is not marked as unavailable.
abbrev pub IsFrom : ConnectState → ProvidedTrack → Type 0
IsFrom s t =
    (ty : ContextType) × (xs : List ProvidedTrack) × (i : ℕ) × (vec_at ty s ≡ some xs)
    × (get_elem? xs i ≡ some t)
    × (is_unavailable t ≡ false)

abbrev pub IsFitting : ConnectState → ProvidedTrack → Type 0
IsFitting s t = IsDelimiter t ⊎ IsFrom s t

pub get_elem?-lt {ℓ} :
    {A : Type ℓ} (xs : List A) (i : ℕ) {a : A} → get_elem? xs i ≡ some a → i < length xs
get_elem?-lt [] i e = cc
get_elem?-lt (x ∷ xs) zero e = omega arith
get_elem?-lt (x ∷ xs) (suc i) e = omega (arith, get_elem?-lt xs i e)

pub get_elem?-none {ℓ} : {A : Type ℓ} (xs : List A) (i : ℕ) → get_elem? xs i ≡ none → length xs ≤ i
get_elem?-none [] i e = omega arith
get_elem?-none (x ∷ xs) zero e = cc
get_elem?-none (x ∷ xs) (suc i) e = omega (arith, get_elem?-none xs i e)

pub fill_round-skip :
    (s : ConnectState) (i it i' : ℕ) → fill_round s i it ≡ skip i' → (i' ≡ i + 1) × (i < longest s)
unfolding fill_round get_context at_end to_autoplay update_context_index
fill_round-skip s i it i' e = elim (Option-cases (context_at s.fill_up_context s)) [
  | inl n ↦ ground arith
  | inr (c, m) ↦ elim (Option-cases (get_elem? c.tracks.vec i)) [
    | inl n ↦ ground arith
    | inr (t, g) ↦ ground (arith, get_elem?-lt c.tracks.vec i g)
  ]
]

-- The loop ends: there is no track left, no repetition, and no other context.
abbrev pub IsExhausted : ConnectState → ℕ → Type 0
IsExhausted s i =
    (repeat_context s ≡ false)
    × ((s.fill_up_context ≡ autoplay) ⊎ (s.autoplay_context ≡ none))
    × (xs : List ProvidedTrack) × (vec_at s.fill_up_context s ≡ some xs)
    × (length xs ≤ i)

module _ (s : ConnectState) (i it : ℕ) where
  pub fill_round-fail :
      (e : StateError) (s' : ConnectState)
      → fill_round s i it ≡ fail e s'
      → context_at s.fill_up_context s ≡ none
  unfolding fill_round get_context at_end to_autoplay update_context_index
  fill_round-fail e s' h = elim (Option-cases (context_at s.fill_up_context s)) [
    | inl n ↦ n
    | inr (c, m) ↦ elim (Option-cases (get_elem? c.tracks.vec i)) [
      | inl n ↦ ground arith
      | inr (t, g) ↦ ground arith
    ]
  ]

  pub fill_round-push-player :
      (t : ProvidedTrack) (s' : ConnectState) (i' it' : ℕ)
      → fill_round s i it ≡ push t s' i' it'
      → s'.player ≡ s.player
  unfolding fill_round get_context at_end to_autoplay update_context_index
  fill_round-push-player t s' i' it' h = elim (Option-cases (context_at s.fill_up_context s)) [
    | inl n ↦ ground arith
    | inr (c, m) ↦ elim (Option-cases (get_elem? c.tracks.vec i)) [
      | inl n ↦ ground arith
      | inr (t, g) ↦ ground arith
    ]
  ]

  pub fill_round-push-tracks :
      (t : ProvidedTrack) (s' : ConnectState) (i' it' : ℕ)
      → fill_round s i it ≡ push t s' i' it'
      → SameTracks s s'
  unfolding fill_round get_context at_end to_autoplay update_context_index
  fill_round-push-tracks t s' i' it' h ty = elim (Option-cases (context_at s.fill_up_context s)) [
    | inl n ↦ ground arith
    | inr (c, m) ↦ elim (Option-cases (get_elem? c.tracks.vec i)) [
      | inl n ↦ ground arith
      | inr (t, g) ↦ ground arith
    ]
  ]

  pub fill_round-push-IsFitting :
      (t : ProvidedTrack) (s' : ConnectState) (i' it' : ℕ)
      → fill_round s i it ≡ push t s' i' it'
      → IsFitting s t
  unfolding fill_round get_context at_end to_autoplay update_context_index
  fill_round-push-IsFitting t s' i' it' h = elim (Option-cases (context_at s.fill_up_context s)) [
    | inl n ↦ ground arith
    | inr (c, m) ↦ elim (Option-cases (get_elem? c.tracks.vec i)) [
      | inl n ↦ inl (it, ground arith)
      | inr (t', g) ↦
          inr (s.fill_up_context, c.tracks.vec, i, rw m refl, ground arith, ground arith)
    ]
  ]

  pub fill_round-break : fill_round s i it ≡ break → IsExhausted s i
  unfolding fill_round get_context at_end to_autoplay update_context_index
  fill_round-break h = elim (Option-cases (context_at s.fill_up_context s)) [
    | inl n ↦ ground arith
    | inr (c, m) ↦ elim (Option-cases (get_elem? c.tracks.vec i)) [
      | inl n ↦
          (ground arith, ground arith, c.tracks.vec, rw m refl, get_elem?-none c.tracks.vec i n)
      | inr (t, g) ↦ ground arith
    ]
  ]

abbrev pub HasContext : ConnectState → Type 0
HasContext s = (c : StateContext) × (context_at s.fill_up_context s ≡ some c)

pub fill_round-push-HasContext :
    (s : ConnectState) (i it : ℕ) (t : ProvidedTrack) (s' : ConnectState) (i' it' : ℕ)
    → fill_round s i it ≡ push t s' i' it'
    → HasContext s'
unfolding fill_round get_context at_end to_autoplay update_context_index
fill_round-push-HasContext s i it t s' i' it' h =
    elim (Option-cases (context_at s'.fill_up_context s')) [
      | inr (c, m) ↦ (c, m)
      | inl n ↦ elim (Option-cases (context_at s.fill_up_context s)) [
        | inl n' ↦ ground arith
        | inr (c, m) ↦ elim (Option-cases (get_elem? c.tracks.vec i)) [
          | inl n'' ↦ ground arith
          | inr (t', g) ↦ ground arith
        ]
      ]
    ]

pub IsFitting-same :
    (s s' : ConnectState) → SameTracks s s' → (x : ProvidedTrack) → IsFitting s' x → IsFitting s x
IsFitting-same s s' same x (inl d) = inl d
IsFitting-same s s' same x (inr (ty, xs, i, m, g, u)) = inr (ty, xs, i, sym (same ty) ∙ m, g, u)

pub All-map {ℓ κ μ} :
    {A : Type ℓ} {P : A → Type κ} {Q : A → Type μ}
    → ((x : A) → P x → Q x)
    → (xs : List A) → All P xs
    → All Q xs
All-map f [] h = tt
All-map f (x ∷ xs) h = (f x h.0, All-map f xs h.1)
