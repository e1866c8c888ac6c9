-- ===== src/Base/Dict.antt =====
-- Rust's `HashMap` with text keys as a list of entries with one entry for a key.
use librespot.Base.{
  ◌≡◌, refl, false, List, [], ◌∷◌, Option, none, some, if◌then◌else◌, Bool-cases, inl, inr, arith,
}
use librespot.Base.Text.{Text, text_eq, text_eq_refl, text_eq→eq}

module _ {ℓ} {V : Type ℓ} where
  unfoldable pub find_entry : Text → List (Text × V) → Option V
  find_entry key [] = none
  find_entry key ((name, value) ∷ entries) =
      let later = find_entry key entries in if text_eq name key then some value else later

  -- The value of the key is replaced where it stands; a new key is last.
  unfoldable pub put_entry : Text → V → List (Text × V) → List (Text × V)
  put_entry key v [] = (key, v) ∷ []
  put_entry key v ((name, value) ∷ entries) =
      let later = put_entry key v entries in
      if text_eq name key then (key, v) ∷ entries else (name, value) ∷ later

  unfoldable pub remove_entry : Text → List (Text × V) → List (Text × V)
  remove_entry key [] = []
  remove_entry key ((name, value) ∷ entries) =
      let later = remove_entry key entries in
      if text_eq name key then later else (name, value) ∷ later

  pub find_entry-put_entry :
      (key : Text) (v : V) (entries : List (Text × V))
      → find_entry key (put_entry key v entries) ≡ some v
  unfolding find_entry put_entry
  find_entry-put_entry key v [] = rw (text_eq_refl key) refl
  find_entry-put_entry key v ((name, value) ∷ entries) =
      ground (arith, text_eq_refl key, find_entry-put_entry key v entries)

  pub find_entry-put_entry_other :
      (key other : Text) (v : V) (entries : List (Text × V))
      → text_eq key other ≡ false
      → find_entry other (put_entry key v entries) ≡ find_entry other entries
  unfolding find_entry put_entry
  find_entry-put_entry_other key other v [] h = rw h refl
  find_entry-put_entry_other key other v ((name, value) ∷ entries) h =
      elim (Bool-cases (text_eq name key)) [
        | inl e ↦ let same = text_eq→eq name key e in rw e (rw h (rw same (rw h refl)))
        | inr e ↦ rw e (ground (arith, find_entry-put_entry_other key other v entries h))
      ]

  pub find_entry-put :
      (file k : Text) (v : V) (es : List (Text × V))
      → find_entry k (put_entry file v es) ≡ (if text_eq file k then some v else find_entry k es)
  unfolding find_entry put_entry
  find_entry-put file k v [] = refl
  find_entry-put file k v ((name, size) ∷ es) = elim (Bool-cases (text_eq name file)) [
    | inl e ↦ rw e (rw (text_eq→eq name file e) ground arith)
    | inr e ↦ rw e (
        ground
          (arith, find_entry-put file k v es, text_eq→eq name k, text_eq→eq file k, text_eq_refl k))
  ]

  pub find_entry-remove :
      (file k : Text) (es : List (Text × V))
      → find_entry k (remove_entry file es) ≡ (if text_eq file k then none else find_entry k es)
  unfolding find_entry remove_entry
  find_entry-remove file k [] = ground arith
  find_entry-remove file k ((name, size) ∷ es) = elim (Bool-cases (text_eq name file)) [
    | inl e ↦ rw e (rw (text_eq→eq name file e) (ground (arith, find_entry-remove file k es)))
    | inr e ↦ rw e (
        ground (
          arith,
          find_entry-remove file k es,
          text_eq→eq name k,
          text_eq→eq file k,
          text_eq_refl k,
        ))
  ]
