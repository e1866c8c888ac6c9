-- ===== src/Connect/State/Skip.antt =====
-- Skipping to the next track: which track `next_track` plays and what is left in the queue.
use librespot.Base.{
  ℕ, ◌≡◌, refl, ap, ◌∙◌, inl, inr, Bool, true, false, List, [], ◌∷◌, ◌++◌, Option, none, some, ◌||◌,
  if◌then◌else◌, All, Bool-cases, arith,
}
use librespot.Base.Result.{ok}
use librespot.Connect.Track.{ProvidedTrack, is_unavailable, is_delimiter}
use librespot.Connect.State.{
  ContextType, default, autoplay, StateContext, ConnectState, and_next, Host, with_next_tracks,
  with_prev_tracks, set_track, index_track,
}
use librespot.Connect.State.Context.{context_at, repeat_track, set_repeat_track}
use librespot.Connect.State.Restrict.{update_restrictions}
use librespot.Connect.State.FillUp.Outcome.{fill_up_next_tracks_lem}
use librespot.Connect.State.Move.{
  play_next, push_prev, find_next, take_current, push_old, leave_track, index_next, next_track,
}
use librespot.Connect.State.FillUp.Rounds.{IsFitting, vec_of, IsFitting-same, All-map}
use librespot.Connect.State.Move.{arrive}
use librespot.Connect.State.Bounds.{index_next-same}

-- `next_track` passes over delimiters and unavailable tracks.
abbrev pub IsPassed : ProvidedTrack → Type 0
IsPassed t = (is_delimiter t || is_unavailable t) ≡ true

find_next_lem :
    (passed : List ProvidedTrack) (t : ProvidedTrack) (rest prev : List ProvidedTrack)
    → All IsPassed passed
    → (is_delimiter t || is_unavailable t) ≡ false
    → (prev' : List ProvidedTrack) × (find_next (passed ++ t ∷ rest) prev ≡ (some t, rest, prev'))
unfolding find_next
find_next_lem [] t rest prev h p = (prev, ground arith)
find_next_lem (x ∷ passed) t rest prev (h, hs) p =
    let before = if is_delimiter x then push_prev x prev else prev in
    let (prev', q) = find_next_lem passed t rest before hs p in (prev', rw h q)

push_old-kept :
    (o : Option ProvidedTrack) (s : ConnectState)
    → ((push_old o s).player.next_tracks ≡ s.player.next_tracks)
      × ((push_old o s).fill_up_context ≡ s.fill_up_context)
      × ((ty : ContextType) → context_at ty (push_old o s) ≡ context_at ty s)
unfolding push_old
push_old-kept none s = (refl, refl, λ ty. refl)
push_old-kept (some t) s = (ground arith, ground arith, λ ty. ground arith)

no_repeat_context :
    (ty : ContextType) (b : Bool) (s : ConnectState)
    → context_at ty (take_current (if b then set_repeat_track false s else s)) ≡ context_at ty s
unfolding set_repeat_track
no_repeat_context default true s = refl
no_repeat_context default false s = refl
no_repeat_context autoplay true s = refl
no_repeat_context autoplay false s = refl

leave_track-kept :
    (s : ConnectState)
    → ((leave_track s).player.next_tracks ≡ s.player.next_tracks)
      × ((leave_track s).fill_up_context ≡ s.fill_up_context)
      × ((ty : ContextType) → context_at ty (leave_track s) ≡ context_at ty s)
unfolding leave_track set_repeat_track
leave_track-kept s =
    let s' = if repeat_track s then set_repeat_track false s else s in
    let (n, f, c) = push_old-kept s'.player.current (take_current s') in
    elim (Bool-cases (repeat_track s)) [
      | inl e ↦ (n ∙ rw e refl, f ∙ rw e refl, λ ty. c ty ∙ no_repeat_context ty (repeat_track s) s)
      | inr e ↦ (n ∙ rw e refl, f ∙ rw e refl, λ ty. c ty ∙ no_repeat_context ty (repeat_track s) s)
    ]

ready_context :
    (ty : ContextType) (next prev : List ProvidedTrack) (s : ConnectState)
    → context_at ty (with_next_tracks next (with_prev_tracks prev s)) ≡ context_at ty s
ready_context default next prev s = refl
ready_context autoplay next prev s = refl

module _ (host : Host) where
  -- With a context to fill up from, `next_track` passes over delimiters and unavailable tracks and
  -- succeeds: the first other track becomes the current one, the tracks behind it stay first in the
  -- queue, and only tracks of the fill-up follow them.
  pub next_track_lem :
      (s : ConnectState) (c : StateContext) (passed : List ProvidedTrack) (t : ProvidedTrack)
      (rest : List ProvidedTrack)
      → context_at s.fill_up_context s ≡ some c
      → s.player.next_tracks ≡ passed ++ t ∷ rest
      → All IsPassed passed
      → (is_delimiter t || is_unavailable t) ≡ false
      → (s' : ConnectState) × (added : List ProvidedTrack) × (index : ℕ) × (next_track host s
          ≡ (ok (some index), s'))
        × (s'.player.current ≡ some t)
        × (s'.player.next_tracks ≡ rest ++ added)
        × All (IsFitting s) added
  unfolding next_track play_next arrive set_track
  next_track_lem s c passed t rest m e h p =
      let left = leave_track s in
      let (n, f, kept) = leave_track-kept s in
      let (prev', q) = find_next_lem passed t rest left.player.prev_tracks h p in
      let found : find_next left.player.next_tracks left.player.prev_tracks
          ≡ (some t, rest, prev') =
        ap (λ tracks. find_next tracks left.player.prev_tracks) (n ∙ e) ∙ q in
      let ready = with_next_tracks rest (with_prev_tracks prev' left) in
      let same : (ty : ContextType) → context_at ty ready ≡ context_at ty s =
        λ ty. ready_context ty rest prev' left ∙ kept ty in
      let there : context_at ready.fill_up_context ready ≡ some c =
        same left.fill_up_context ∙ ap (λ ty. context_at ty s) f ∙ m in
      elim (fill_up_next_tracks_lem host ready) [
        | inl (none_there, r) ↦ cc
        | inr (s', added, r, player, fit, tracks, bound, last) ↦ (
          update_restrictions (set_track t (index_next t s')),
          added,
          index_track (update_restrictions (set_track t (index_next t s'))),
          ap (λ r. play_next host r.0 (with_next_tracks r.1 (with_prev_tracks r.2 left))) found
              ∙ ap (λ r. and_next r (arrive t)) r,
          refl,
          (index_next-same t s').1 ∙ ap (λ p. p.next_tracks) player,
          All-map (IsFitting-same s ready (λ ty. ap vec_of (same ty))) added fit,
        )
      ]
