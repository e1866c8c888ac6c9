-- ===== src/Connect/State/Handle.antt =====
-- connect/src/state/handle.rs, and shuffle_new and shuffle_restore of connect/src/state/options.rs.
-- The new seed is an argument.
use librespot.Base.{
  arith, length-map, suc, ap, ◌+◌, ◌%◌, ◌^◌, ◌≤◌, ◌≡◌, [], ◌∷◌, Bool-cases, ℕ, refl, Bool, true,
  false, List, Option, none, some, ◌&&◌, length, Option-cases, inl, inr,
}
use librespot.Base.Text.{Text, text_eq}
use librespot.Base.Result.{Result, ok, err}
use librespot.Connect.Track.{ProvidedTrack, is_from_queue, get_context_index}
use librespot.Connect.ShuffleVec.{Rng}
use librespot.Connect.State.{
  max_next_tracks, max_prev_tracks, default, can_not_find_track, StateError, StateContext,
  ConnectState, Step, and_next, Host, current_track, with_prev_tracks, is_autoplay_type,
}
use librespot.Connect.State.Context.{
  get_context, set_shuffle, set_repeat_context, reset_context, default_index,
}
use librespot.Connect.State.FillUp.{update_queue_revision}
use librespot.Connect.State.Edit.{
  set_next_tracks, name_queued, name_empty, validate_shuffle_allowed, shuffle,
  reset_playback_to_position,
}
use librespot.Connect.State.Bounds.{
  IsBounded, SameQueues, IsBounded-same, reset_context-same, and_next-IsBounded,
}
use librespot.Connect.State.Preserved.{reset-IsBounded, shuffle-IsBounded}
use librespot.Connect.Update.Pages.{find_index_in_context}

-- The default is put in place of an autoplay context that the queue is filled up from.
unfoldable pub leave_fill_up : Bool → ConnectState → ConnectState
leave_fill_up false s = s
leave_fill_up true s = record s { fill_up_context = default }

module _ (host : Host) where
  unfoldable pub reset_to_index : StateContext → Option ℕ → ConnectState → Step (Unit {0})
  reset_to_index c none s = (err (can_not_find_track none (length c.tracks.vec)), s)
  reset_to_index c (some i) s = reset_playback_to_position host (some i) s

  -- The position of the current track, by its uri, in the default context.
  unfoldable pub reset_in : Result StateError StateContext → ConnectState → Step (Unit {0})
  reset_in (err e) s = (err e, s)
  reset_in (ok c) s =
      reset_to_index c (find_index_in_context c (λ t. text_eq t.uri (current_track s).uri)) s

  unfoldable pub reset_to_current : ConnectState → Step (Unit {0})
  reset_to_current s = reset_in (get_context default s) s

  -- After `reset_context`: the position that the metadata of the current track names.
  unfoldable pub go_on_at : Option ProvidedTrack → ConnectState → Step (Unit {0})
  go_on_at none s = (ok tt, s)
  go_on_at (some t) s = elim (get_context_index t) [
    | none ↦ reset_to_current s
    | some i ↦ reset_playback_to_position host (some i) s
  ]

  unfoldable pub handle_set_queue :
      List ProvidedTrack → List ProvidedTrack → ConnectState → ConnectState
  handle_set_queue next_tracks prev_tracks s =
      update_queue_revision host (with_prev_tracks prev_tracks (set_next_tracks next_tracks s))

  unfoldable pub handle_set_repeat_context : Bool → ConnectState → Step (Unit {0})
  handle_set_repeat_context repeat s =
      reset_to_current
        (leave_fill_up (repeat && is_autoplay_type s.fill_up_context) (set_repeat_context repeat s))

  module _ (rng : Rng) where
    unfoldable pub shuffle_if :
        Result StateError (Unit {0}) → ℕ → Text → ConnectState → Step (Unit {0})
    shuffle_if (err e) seed initial_track s = (err e, s)
    shuffle_if (ok u) seed initial_track s = shuffle host rng seed initial_track s

    unfoldable pub shuffle_restore : ℕ → Text → ConnectState → Step (Unit {0})
    shuffle_restore seed initial_track s =
        shuffle_if (validate_shuffle_allowed s) seed initial_track s

    unfoldable pub shuffle_new : ℕ → ConnectState → Step (Unit {0})
    shuffle_new new_seed s =
        shuffle_if (validate_shuffle_allowed s) new_seed (current_track s).uri s

    -- The result of `reset_context` is not used but for a panic.
    unfoldable pub handle_shuffle : ℕ → Bool → ConnectState → Step (Unit {0})
    handle_shuffle new_seed true s = shuffle_new new_seed (set_shuffle true s)
    handle_shuffle new_seed false s =
        and_next (reset_context default_index (set_shuffle false s))
          (λ u s'. go_on_at s'.player.current s')

length-name_queued :
    (count : ℕ) (tracks : List ProvidedTrack) → length (name_queued count tracks).0 ≡ length tracks
unfolding name_queued
length-name_queued count [] = refl
length-name_queued count (t ∷ tracks) = elim (Bool-cases (is_from_queue t)) [
  | inl e ↦ rw (e, name_queued) (ap suc (length-name_queued ((count + 1) % 2 ^ 64) tracks))
  | inr e ↦ rw (e, name_queued) (ap suc (length-name_queued count tracks))
]

leave_fill_up-same : (b : Bool) (s : ConnectState) → SameQueues s (leave_fill_up b s)
unfolding leave_fill_up
leave_fill_up-same false s = (refl, refl)
leave_fill_up-same true s = (refl, refl)

module _ (host : Host) where
  reset_to_index-IsBounded :
      (c : StateContext) (i : Option ℕ) (s : ConnectState)
      → IsBounded s
      → IsBounded (reset_to_index host c i s).1
  unfolding reset_to_index
  reset_to_index-IsBounded c none s b = b
  reset_to_index-IsBounded c (some i) s b = reset-IsBounded host (some i) s b

  reset_in-IsBounded :
      (c : Result StateError StateContext) (s : ConnectState)
      → IsBounded s
      → IsBounded (reset_in host c s).1
  unfolding reset_in
  reset_in-IsBounded (err e) s b = b
  reset_in-IsBounded (ok c) s b =
      reset_to_index-IsBounded c
        (find_index_in_context c (λ t. text_eq t.uri (current_track s).uri)) s b

  reset_to_current-IsBounded :
      (s : ConnectState) → IsBounded s → IsBounded (reset_to_current host s).1
  unfolding reset_to_current
  reset_to_current-IsBounded s b = reset_in-IsBounded (get_context default s) s b

  go_on_at-IsBounded :
      (t : Option ProvidedTrack) (s : ConnectState) → IsBounded s → IsBounded (go_on_at host t s).1
  unfolding go_on_at
  go_on_at-IsBounded none s b = b
  go_on_at-IsBounded (some t) s b = elim (Option-cases (get_context_index t)) [
    | inl e ↦ rw (e, go_on_at) (reset_to_current-IsBounded s b)
    | inr (i, e) ↦ rw (e, go_on_at) (reset-IsBounded host (some i) s b)
  ]

  -- The bounds of the queue after `handle_set_queue` are those of the lists it sets.
  pub handle_set_queue-IsBounded :
      (next prev : List ProvidedTrack) (s : ConnectState)
      → (length next ≤ max_next_tracks) × (length prev ≤ max_prev_tracks)
      → IsBounded (handle_set_queue host next prev s)
  unfolding handle_set_queue update_queue_revision set_next_tracks
  handle_set_queue-IsBounded next prev s (n, p) =
      let named = (name_queued s.queue_count next).0 in
      (
        p,
        omega (
          arith,
          n,
          length-map (name_empty (current_track s).uri) named,
          length-name_queued s.queue_count next,
        ),
      )

  pub handle_set_repeat_context-IsBounded :
      (repeat : Bool) (s : ConnectState)
      → IsBounded s
      → IsBounded (handle_set_repeat_context host repeat s).1
  unfolding handle_set_repeat_context set_repeat_context
  handle_set_repeat_context-IsBounded repeat s b =
      let s' : ConnectState = set_repeat_context repeat s in
      let left : Bool = repeat && is_autoplay_type s.fill_up_context in
      reset_to_current-IsBounded (leave_fill_up left s')
        (IsBounded-same s' (leave_fill_up left s') (leave_fill_up-same left s') b)

  module _ (rng : Rng) where
    shuffle_if-IsBounded :
        (allowed : Result StateError (Unit {0})) (seed : ℕ) (uri : Text) (s : ConnectState)
        → IsBounded s
        → IsBounded (shuffle_if host rng allowed seed uri s).1
    unfolding shuffle_if
    shuffle_if-IsBounded (err e) seed uri s b = b
    shuffle_if-IsBounded (ok u) seed uri s b = shuffle-IsBounded host rng seed uri s b

    pub handle_shuffle-IsBounded :
        (seed : ℕ) (on : Bool) (s : ConnectState)
        → IsBounded s
        → IsBounded (handle_shuffle host rng seed on s).1
    unfolding handle_shuffle shuffle_new set_shuffle
    handle_shuffle-IsBounded seed true s b =
        let s' : ConnectState = set_shuffle true s in
        shuffle_if-IsBounded (validate_shuffle_allowed s') seed (current_track s').uri s' b
    handle_shuffle-IsBounded seed false s b =
        let s' : ConnectState = set_shuffle false s in
        and_next-IsBounded (reset_context default_index s')
          (λ u t. go_on_at host t.player.current t)
          (IsBounded-same s' (reset_context default_index s').1 (reset_context-same s') b)
          (λ u t c. go_on_at-IsBounded t.player.current t c)
