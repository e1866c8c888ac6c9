-- ===== src/Connect/State/Back.antt =====
-- Skipping back: which track `prev_track` plays and what is left in the queue.
use mathlib.Core.List.{reverse, reverse-cons}
use librespot.Base.{
  ◌-◌, ◌≡◌, refl, ap, ◌∙◌, inl, inr, false, List, [], ◌∷◌, ◌++◌, Option, none, some, if◌then◌else◌,
  length, length-append, take, take-append, get_elem?, All, Bool-cases, arith,
}
use librespot.Base.Result.{ok}
use librespot.Connect.Track.{ProvidedTrack, is_delimiter}
use librespot.Connect.State.{
  ContextType, default, autoplay, StateContext, ConnectState, Step, and_next, Host, max_next_tracks,
  with_next_tracks, with_prev_tracks, set_track, update_current_index,
}
use librespot.Connect.State.Context.{context_at, set_active_context}
use librespot.Connect.State.Restrict.{update_restrictions}
use librespot.Connect.State.FillUp.Outcome.{fill_up_next_tracks_lem}
use librespot.Connect.State.FillUp.Rounds.{IsFitting, vec_of, IsFitting-same, All-map}
use librespot.Connect.State.Move.{
  from_our_context, insert_old, move_delimiter, last_of, without_last, step_back, leave_autoplay,
  index_back, play_prev, return_to, prev_track, take_current,
}
use librespot.Connect.State.Bounds.{index_back-same, leave_autoplay-same}

get_elem?-first {ℓ} :
    {A : Type ℓ} (xs ys : List A) (x : A)
    → get_elem? xs 0 ≡ some x
    → get_elem? (xs ++ ys) 0 ≡ some x
get_elem?-first [] ys x e = cc
get_elem?-first (y ∷ xs) ys x e = e

last_of-snoc :
    (before : List ProvidedTrack) (t : ProvidedTrack) → last_of (before ++ t ∷ []) ≡ some t
last_of-snoc [] t = refl
last_of-snoc (x ∷ before) t =
    ap (λ r. get_elem? r 0) (reverse-cons x (before ++ t ∷ []))
    ∙ get_elem?-first (reverse (before ++ t ∷ [])) (x ∷ []) t (last_of-snoc before t)

without_last-snoc :
    (before : List ProvidedTrack) (t : ProvidedTrack) → without_last (before ++ t ∷ []) ≡ before
without_last-snoc before t =
    take-append (length (before ++ t ∷ []) - 1) before (t ∷ [])
      (omega (arith, length-append before (t ∷ [])))

leave_autoplay-kept :
    (t : ProvidedTrack) (s : ConnectState)
    → ((leave_autoplay t s).fill_up_context ≡ s.fill_up_context)
      × ((ty : ContextType) → context_at ty (leave_autoplay t s) ≡ context_at ty s)
unfolding leave_autoplay set_active_context
leave_autoplay-kept t s = (ground arith, λ ty. ground arith)

-- The current track before the next tracks, if it is of a context.
abbrev pub with_old : Option ProvidedTrack → List ProvidedTrack → List ProvidedTrack
with_old none next = next
with_old (some t) next = if from_our_context t then t ∷ next else next

insert_old-eq :
    (o : Option ProvidedTrack) (s : ConnectState)
    → insert_old o s ≡ with_next_tracks (with_old o s.player.next_tracks) s
unfolding insert_old
insert_old-eq none s = refl
insert_old-eq (some t) s = elim (Bool-cases (from_our_context t)) [
  | inl e ↦ rw (insert_old, e) refl
  | inr e ↦ rw (insert_old, e) refl
]

no_delimiter :
    (t : ProvidedTrack) (s : ConnectState) → is_delimiter t ≡ false → move_delimiter (some t) s ≡ s
unfolding move_delimiter
no_delimiter t s d = rw (move_delimiter, d) refl

step_back_lem :
    (s : ConnectState) (before : List ProvidedTrack) (t : ProvidedTrack)
    → s.player.prev_tracks ≡ before ++ t ∷ []
    → is_delimiter t ≡ false
    → step_back s
      ≡ with_next_tracks
          (take max_next_tracks (with_old s.player.current s.player.next_tracks))
          (take_current s)
unfolding step_back move_delimiter
step_back_lem s before t p d =
    let cut : ConnectState → ConnectState =
      λ s. with_next_tracks (take max_next_tracks s.player.next_tracks) s in
    let back : ConnectState → ConnectState =
      λ s. cut (move_delimiter (last_of s.player.prev_tracks) s) in
    let left = with_next_tracks (with_old s.player.current s.player.next_tracks) (take_current s) in
    ap back (insert_old-eq s.player.current (take_current s))
    ∙ ap (λ o. cut (move_delimiter o left)) (ap last_of p ∙ last_of-snoc before t)
    ∙ ap cut (no_delimiter t left d)

back_current :
    (t : ProvidedTrack) (s : ConnectState)
    → (update_restrictions (index_back (set_track t s))).player.current ≡ some t
unfolding update_restrictions index_back set_track update_current_index
back_current t s = ground arith

ready_context :
    (ty : ContextType) (next prev : List ProvidedTrack) (s : ConnectState)
    → context_at ty (with_prev_tracks prev (with_next_tracks next (take_current s)))
      ≡ context_at ty s
ready_context default next prev s = refl
ready_context autoplay next prev s = refl

module _ (host : Host) where
  -- With a context to fill up from, and a previous track that is no delimiter, `prev_track` succeeds:
  -- the last previous track becomes the current one and the others stay; the track that was current
  -- is put before the next tracks if it is of a context; these are cut at 80 tracks, and only
  -- tracks of the fill-up follow them.
  pub prev_track_lem :
      (s : ConnectState) (c : StateContext) (before : List ProvidedTrack) (t : ProvidedTrack)
      → context_at s.fill_up_context s ≡ some c
      → s.player.prev_tracks ≡ before ++ t ∷ []
      → is_delimiter t ≡ false
      → (s' : ConnectState) × (added : List ProvidedTrack) × (prev_track host s ≡ (ok (some t), s'))
        × (s'.player.current ≡ some t)
        × (s'.player.prev_tracks ≡ before)
        × (s'.player.next_tracks
            ≡ take 80 (with_old s.player.current s.player.next_tracks) ++ added)
        × All (IsFitting s) added
  unfolding prev_track play_prev return_to
  prev_track_lem s c before t m p d =
      let next = take max_next_tracks (with_old s.player.current s.player.next_tracks) in
      let stepped = with_next_tracks next (take_current s) in
      let ready = with_prev_tracks (without_last s.player.prev_tracks) stepped in
      let left = leave_autoplay t ready in
      let (fill_up, kept) = leave_autoplay-kept t ready in
      let same : (ty : ContextType) → context_at ty left ≡ context_at ty s =
        λ ty. kept ty ∙ ready_context ty next (without_last s.player.prev_tracks) s in
      let there : context_at left.fill_up_context left ≡ some c =
        same left.fill_up_context ∙ ap (λ ty. context_at ty s) fill_up ∙ m in
      let start : prev_track host s ≡ play_prev host (some t) stepped =
        ap (λ s'. play_prev host (last_of s'.player.prev_tracks) s') (step_back_lem s before t p d)
        ∙ ap (λ o. play_prev host o stepped) (ap last_of p ∙ last_of-snoc before t) in
      elim (fill_up_next_tracks_lem host left) [
        | inl (n, r) ↦ cc
        | inr (s', added, r, player, fit, tracks, bound, last) ↦
            let back = update_restrictions (index_back (set_track t s')) in
            let (prevs, nexts) = index_back-same (set_track t s') in
            let (prevs', nexts') = leave_autoplay-same t ready in
            (
              back,
              added,
              start
                  ∙ ap (λ r. and_next r (return_to t)) r
                  ∙ ap {B = Step (Option ProvidedTrack)} (λ o. (ok o, back)) (back_current t s'),
              back_current t s',
              prevs
                  ∙ ap (λ p. p.prev_tracks) player
                  ∙ prevs'
                  ∙ ap without_last p
                  ∙ without_last-snoc before t,
              nexts ∙ ap (λ p. p.next_tracks) player ∙ ap (λ tracks. tracks ++ added) nexts',
              All-map (IsFitting-same s left (λ ty. ap vec_of (same ty))) added fit,
            )
      ]
