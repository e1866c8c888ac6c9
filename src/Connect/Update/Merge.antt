-- ===== src/Connect/Update/Merge.antt =====
-- connect/src/state/context.rs: `merge_context`.
use librespot.Base.{
  ℕ, zero, suc, ◌+◌, ◌≡◌, refl, sym, ap, subst, ◌∙◌, Bool, true, false, not, ◌&&◌, ◌||◌, List, [],
  ◌∷◌, Option, none, some, if◌then◌else◌, Bool-cases, inl, inr, arith,
}
use librespot.Base.Text.{Text, text_eq, text_eq→eq, text_eq_refl}
use librespot.Connect.Track.{ProvidedTrack}
use librespot.Connect.ShuffleVec.{position_from}
use librespot.Connect.State.{StateContext, ConnectState}
use librespot.Connect.Update.{
  ContextTrack, ContextPage, is_nil, not_empty, unwrap_or, put_all, contains_uri,
}

abbrev pub is_some {ℓ} : {A : Type ℓ} → Option A → Bool
is_some none = false
is_some (some a) = true

-- `new_track.uid.is_some() || matches!(new_track.uid, Some(ref uid) if uid.is_empty())`.
unfoldable pub takes_uid : Option Text → Bool
takes_uid uid = is_some uid || (is_some uid && is_nil (unwrap_or [] uid))

unfoldable pub merge_track : ContextTrack → ProvidedTrack → ProvidedTrack
merge_track new_track t = record t {
  metadata = put_all new_track.track_metadata t.metadata;
  uid = if takes_uid new_track.track_uid then unwrap_or [] new_track.track_uid else t.uid;
}

-- `get_mut(position)`.
unfoldable pub modify_at {ℓ} : {A : Type ℓ} → ℕ → (A → A) → List A → List A
modify_at i f [] = []
modify_at zero f (x ∷ xs) = f x ∷ xs
modify_at (suc i) f (x ∷ xs) = x ∷ modify_at i f xs

-- The first track with the uri takes the new entries.
unfoldable pub merge_found : ContextTrack → Option ℕ → List ProvidedTrack → List ProvidedTrack
merge_found new_track none tracks = tracks
merge_found new_track (some position) tracks = modify_at position (merge_track new_track) tracks

unfoldable pub merge_one : ContextTrack → List ProvidedTrack → List ProvidedTrack
merge_one new_track tracks =
    let uri = unwrap_or [] new_track.track_uri in
    if not (not_empty new_track.track_uri)
    then tracks
    else merge_found new_track (position_from (λ t. text_eq t.uri uri) 0 tracks) tracks

unfoldable pub merge_tracks : List ContextTrack → List ProvidedTrack → List ProvidedTrack
merge_tracks [] tracks = tracks
merge_tracks (new_track ∷ new_tracks) tracks = merge_tracks new_tracks (merge_one new_track tracks)

unfoldable pub merge_page : Option ContextPage → StateContext → Option (Unit {0}) × StateContext
merge_page none c = (none, c)
merge_page (some page) c = (
  some tt,
  record c { tracks = record c.tracks { vec = merge_tracks page.page_tracks c.tracks.vec } },
)

unfoldable pub merge_into :
    Option ContextPage → ConnectState → Option StateContext → Option (Unit {0}) × ConnectState
merge_into new_page s none = (none, s)
merge_into new_page s (some c) =
    let merged = merge_page new_page c in (merged.0, record s { context = some merged.1 })

unfoldable pub merge_context : Option ContextPage → ConnectState → Option (Unit {0}) × ConnectState
merge_context new_page s = merge_into new_page s s.context

-- The uris of the tracks of a page.
abbrev pub page_uris : List ContextTrack → List Text
page_uris [] = []
page_uris (t ∷ ts) = unwrap_or [] t.track_uri ∷ page_uris ts

-- What merging leaves of each track: the uri and the provider, and all of a track that is not in
-- the page.
abbrev pub IsMerged : List Text → List ProvidedTrack → List ProvidedTrack → Type 0
IsMerged uris [] [] = Unit {0}
IsMerged uris [] (y ∷ ys) = ⊥
IsMerged uris (x ∷ xs) [] = ⊥
IsMerged uris (x ∷ xs) (y ∷ ys) =
    (y.uri ≡ x.uri)
    × (y.provider ≡ x.provider)
    × (contains_uri x.uri uris ≡ false → y ≡ x)
    × IsMerged uris xs ys

IsMerged-refl : (uris : List Text) (xs : List ProvidedTrack) → IsMerged uris xs xs
IsMerged-refl uris [] = tt
IsMerged-refl uris (x ∷ xs) = (refl, refl, (λ h. refl), IsMerged-refl uris xs)

IsMerged-trans :
    (uris : List Text) (xs ys zs : List ProvidedTrack)
    → IsMerged uris xs ys
    → IsMerged uris ys zs
    → IsMerged uris xs zs
IsMerged-trans uris [] [] [] p q = tt
IsMerged-trans uris [] [] (z ∷ zs) p q = q
IsMerged-trans uris [] (y ∷ ys) zs p q = absurd p
IsMerged-trans uris (x ∷ xs) [] zs p q = absurd p
IsMerged-trans uris (x ∷ xs) (y ∷ ys) [] p q = q
IsMerged-trans uris (x ∷ xs) (y ∷ ys) (z ∷ zs) (a, b, c, d) (e, f, g, h) = (
  e ∙ a,
  f ∙ b,
  (λ out. g (subst (λ u. contains_uri u uris ≡ false) (sym a) out) ∙ c out),
  IsMerged-trans uris xs ys zs d h,
)

abbrev up : Option ℕ → Option ℕ
up none = none
up (some i) = some (suc i)

position-up :
    (f : ProvidedTrack → Bool) (at : ℕ) (tracks : List ProvidedTrack)
    → position_from f (suc at) tracks ≡ up (position_from f at tracks)
unfolding position_from
position-up f at [] = refl
position-up f at (t ∷ ts) = elim (Bool-cases (f t)) [
  | inl e ↦ rw e refl
  | inr e ↦ rw e (ap (λ n. position_from f n ts) (omega arith) ∙ position-up f (at + 1) ts)
]

merge_found-up :
    (new_track : ContextTrack) (o : Option ℕ) (t : ProvidedTrack) (ts : List ProvidedTrack)
    → merge_found new_track (up o) (t ∷ ts) ≡ t ∷ merge_found new_track o ts
unfolding merge_found modify_at
merge_found-up new_track none t ts = refl
merge_found-up new_track (some i) t ts = refl

-- The first track with a uri of the page takes its entries.
merge_found-IsMerged :
    (new_track : ContextTrack) (uri : Text) (uris : List Text) (tracks : List ProvidedTrack)
    → contains_uri uri uris ≡ true
    → IsMerged uris tracks
        (merge_found new_track (position_from (λ t. text_eq t.uri uri) 0 tracks) tracks)
unfolding position_from
merge_found-IsMerged new_track uri uris [] h = unfold merge_found in tt
merge_found-IsMerged new_track uri uris (t ∷ ts) h = elim (Bool-cases (text_eq t.uri uri)) [
  | inl e ↦ rw e (
      unfold merge_found modify_at merge_track in
      (refl, refl, (λ out. absurd (differs e out)), IsMerged-refl uris ts))
  | inr e ↦
      let later = merge_found new_track (position_from (λ u. text_eq u.uri uri) 0 ts) ts in
      let shifted =
        ap (λ o. merge_found new_track o (t ∷ ts)) (position-up (λ u. text_eq u.uri uri) 0 ts)
        ∙ merge_found-up new_track (position_from (λ u. text_eq u.uri uri) 0 ts) t ts in
      rw e (
        subst (IsMerged uris (t ∷ ts)) (sym shifted)
          (refl, refl, (λ out. refl), merge_found-IsMerged new_track uri uris ts h))
]
  where
    differs : text_eq t.uri uri ≡ true → contains_uri t.uri uris ≡ false → ⊥
    differs e out =
        let same = ap (λ u. contains_uri u uris) (text_eq→eq t.uri uri e) in
        ground (arith, same, out, h)

merge_one-IsMerged :
    (new_track : ContextTrack) (uris : List Text) (tracks : List ProvidedTrack)
    → contains_uri (unwrap_or [] new_track.track_uri) uris ≡ true
    → IsMerged uris tracks (merge_one new_track tracks)
unfolding merge_one
merge_one-IsMerged new_track uris tracks h = elim (Bool-cases (not_empty new_track.track_uri)) [
  | inl e ↦ rw e (merge_found-IsMerged new_track (unwrap_or [] new_track.track_uri) uris tracks h)
  | inr e ↦ rw e (IsMerged-refl uris tracks)
]

-- Every track of the page stands among its uris.
abbrev AllIn : List Text → List ContextTrack → Type 0
AllIn uris [] = Unit {0}
AllIn uris (t ∷ ts) = (contains_uri (unwrap_or [] t.track_uri) uris ≡ true) × AllIn uris ts

AllIn-later :
    (u : Text) (uris : List Text) (ts : List ContextTrack) → AllIn uris ts → AllIn (u ∷ uris) ts
AllIn-later u uris [] h = tt
AllIn-later u uris (t ∷ ts) h = (ground (arith, h.0), AllIn-later u uris ts h.1)

page-AllIn : (ts : List ContextTrack) → AllIn (page_uris ts) ts
page-AllIn [] = tt
page-AllIn (t ∷ ts) =
    let u = unwrap_or [] t.track_uri in
    (ground (arith, text_eq_refl u), AllIn-later u (page_uris ts) ts (page-AllIn ts))

merge_tracks-IsMerged :
    (uris : List Text) (new_tracks : List ContextTrack) (tracks : List ProvidedTrack)
    → AllIn uris new_tracks
    → IsMerged uris tracks (merge_tracks new_tracks tracks)
unfolding merge_tracks
merge_tracks-IsMerged uris [] tracks h = IsMerged-refl uris tracks
merge_tracks-IsMerged uris (t ∷ ts) tracks h =
    let first = merge_one-IsMerged t uris tracks h.0 in
    let rest = merge_tracks-IsMerged uris ts (merge_one t tracks) h.1 in
    IsMerged-trans uris tracks (merge_one t tracks) (merge_tracks ts (merge_one t tracks)) first
      rest

-- Merging a page into a context keeps the number and the order of its tracks, their uris and
-- their providers, and every track whose uri is not in the page as it is.
pub merge_context_lem :
    (page : ContextPage) (s : ConnectState) (c : StateContext)
    → s.context ≡ some c
    → (c' : StateContext) × ((merge_context (some page) s).1.context ≡ some c')
      × ((merge_context (some page) s).0 ≡ some tt)
      × IsMerged (page_uris page.page_tracks) c.tracks.vec c'.tracks.vec
unfolding merge_context merge_into merge_page
merge_context_lem page s c e =
    let tracks = merge_tracks page.page_tracks c.tracks.vec in
    let c' : StateContext = record c { tracks = record c.tracks { vec = tracks } } in
    (
      c',
      ap (λ o. (merge_into (some page) s o).1.context) e,
      ap (λ o. (merge_into (some page) s o).0) e,
      merge_tracks-IsMerged (page_uris page.page_tracks) page.page_tracks c.tracks.vec
          (page-AllIn page.page_tracks),
    )
