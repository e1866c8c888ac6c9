-- ===== src/Connect/State/Move.antt =====
-- connect/src/state/tracks.rs and connect/src/state.rs: skipping to the next and the previous
-- track, and setting the current one.
use mathlib.Core.List.{reverse}
use librespot.Base.{
  ℕ, ◌-◌, Bool, false, List, [], ◌∷◌, ◌++◌, Option, none, some, ◌&&◌, ◌||◌, ◌==◌, leb,
  if◌then◌else◌, length, get_elem?, take, drop,
}
use librespot.Base.Result.{ok, err}
use librespot.Connect.Track.{
  ProvidedTrack, is_autoplay, is_context, is_queue, is_unavailable, is_delimiter, get_context_index,
}
use librespot.Connect.State.{
  default, autoplay, can_not_find_track, ConnectState, Step, and_next, as_u32, max_prev_tracks,
  max_next_tracks, is_autoplay_type, Host, with_next_tracks, with_prev_tracks, set_track,
  index_track, update_current_index,
}
use librespot.Connect.State.Context.{
  get_context, set_active_context, repeat_track, set_repeat_track,
}
use librespot.Connect.State.Restrict.{update_restrictions}
use librespot.Connect.State.FillUp.{fill_up_next_tracks}

-- The last of `prev_tracks` is the previous track; at 10 the first is removed.
unfoldable pub push_prev : ProvidedTrack → List ProvidedTrack → List ProvidedTrack
push_prev t prev =
    if leb max_prev_tracks (length prev) then drop 1 prev ++ t ∷ [] else prev ++ t ∷ []

-- The loop of `next_track`: the track found, the tracks behind it, and the previous tracks.
unfoldable pub find_next :
    List ProvidedTrack
    → List ProvidedTrack
    → Option ProvidedTrack × List ProvidedTrack × List ProvidedTrack
unfolding push_prev is_delimiter is_unavailable
find_next [] prev = (none, [], prev)
find_next (t ∷ next) prev =
    let passed = if is_delimiter t then push_prev t prev else prev in
    let later = find_next next passed in
    if is_delimiter t || is_unavailable t then later else (some t, next, prev)

-- `track.take()`.
abbrev pub take_current : ConnectState → ConnectState
take_current s = record s { player = record s.player { current = none } }

unfoldable pub from_our_context : ProvidedTrack → Bool
unfolding is_context is_autoplay
from_our_context t = is_context t || is_autoplay t

unfoldable pub push_old : Option ProvidedTrack → ConnectState → ConnectState
unfolding push_prev from_our_context
push_old none s = s
push_old (some t) s =
    if from_our_context t then with_prev_tracks (push_prev t s.player.prev_tracks) s else s

-- The steps before the loop.
unfoldable pub leave_track : ConnectState → ConnectState
unfolding repeat_track set_repeat_track push_old
leave_track s =
    let s' = if repeat_track s then set_repeat_track false s else s in
    push_old s'.player.current (take_current s')

abbrev clear_index : ConnectState → ConnectState
clear_index s = record s { player = record s.player { player_index = none } }

abbrev set_index : Option ℕ → ConnectState → ConnectState
unfolding update_current_index
set_index none s = clear_index s
set_index (some i) s = update_current_index (λ index. record index { track = as_u32 i }) s

-- The index behind the new track; an autoplay track makes its context the active one.
unfoldable pub index_next : ProvidedTrack → ConnectState → ConnectState
unfolding is_queue is_autoplay set_active_context get_context_index set_index
index_next t s =
    if is_queue t
    then clear_index s
    else if is_autoplay t
    then clear_index (set_active_context autoplay s)
    else set_index (get_context_index t) s

-- `iter_index.track -= 1`, where the index is not 0.
unfoldable pub index_back : ConnectState → ConnectState
unfolding update_current_index
index_back s =
    if index_track s == 0
    then s
    else update_current_index (λ index. record index { track = index.track - 1 }) s

unfoldable pub insert_old : Option ProvidedTrack → ConnectState → ConnectState
unfolding from_our_context
insert_old none s = s
insert_old (some t) s =
    if from_our_context t then with_next_tracks (t ∷ s.player.next_tracks) s else s

-- `Vec::pop`, from the tracks in reverse.
abbrev pub last_of : List ProvidedTrack → Option ProvidedTrack
last_of prev = get_elem? (reverse prev) 0

abbrev pub without_last : List ProvidedTrack → List ProvidedTrack
without_last tracks = take (length tracks - 1) tracks

abbrev delimiter_last : Option ProvidedTrack → Bool
unfolding is_delimiter
delimiter_last none = false
delimiter_last (some t) = is_delimiter t

-- A delimiter that stands before the track goes back to the next tracks.
unfoldable pub move_delimiter : Option ProvidedTrack → ConnectState → ConnectState
unfolding is_delimiter
move_delimiter none s = s
move_delimiter (some t) s =
    let next =
      if leb max_next_tracks (length s.player.next_tracks)
      then without_last s.player.next_tracks
      else s.player.next_tracks in
    if is_delimiter t
    then with_next_tracks (t ∷ next) (with_prev_tracks (without_last s.player.prev_tracks) s)
    else s

-- The steps of `prev_track` before it takes the previous track.
unfoldable pub step_back : ConnectState → ConnectState
unfolding insert_old move_delimiter
step_back s =
    let s' = insert_old s.player.current (take_current s) in
    let s'' = move_delimiter (last_of s'.player.prev_tracks) s' in
    with_next_tracks (take max_next_tracks s''.player.next_tracks) s''

-- Back from autoplay to the context.
unfoldable pub leave_autoplay : ProvidedTrack → ConnectState → ConnectState
unfolding is_context set_active_context
leave_autoplay t s =
    if is_autoplay_type s.active_context && is_context t then set_active_context default s else s

unfoldable pub set_current_track : ℕ → ConnectState → Step (Unit {0})
unfolding get_context set_track update_current_index
set_current_track index s = elim (get_context s.active_context s) [
  | err e ↦ (err e, s)
  | ok c ↦ elim (get_elem? c.tracks.vec index) [
    | none ↦ (err (can_not_find_track (some index) (length c.tracks.vec)), s)
    | some t ↦
        (ok tt, update_current_index (λ i. record i { track = as_u32 index }) (set_track t s))
  ]
]

-- The steps behind `fill_up_next_tracks`.
unfoldable pub arrive : ProvidedTrack → Unit {0} → ConnectState → Step (Option ℕ)
unfolding index_next set_track update_restrictions
arrive t u s =
    let s' = update_restrictions (set_track t (index_next t s)) in (ok (some (index_track s')), s')

unfoldable pub return_to : ProvidedTrack → Unit {0} → ConnectState → Step (Option ProvidedTrack)
unfolding set_track index_back update_restrictions
return_to t u s =
    let s' = update_restrictions (index_back (set_track t s)) in (ok s'.player.current, s')

module _ (host : Host) where
  unfoldable pub play_next : Option ProvidedTrack → ConnectState → Step (Option ℕ)
  unfolding fill_up_next_tracks arrive
  play_next none s = (ok none, s)
  play_next (some t) s = and_next (fill_up_next_tracks host s) (arrive t)

  unfoldable pub next_track : ConnectState → Step (Option ℕ)
  unfolding leave_track find_next play_next
  next_track s =
      let s' = leave_track s in
      let (found, next, prev) = find_next s'.player.next_tracks s'.player.prev_tracks in
      play_next found (with_next_tracks next (with_prev_tracks prev s'))

  unfoldable pub play_prev : Option ProvidedTrack → ConnectState → Step (Option ProvidedTrack)
  unfolding leave_autoplay fill_up_next_tracks return_to
  play_prev none s = (ok none, s)
  play_prev (some t) s =
      let s' = with_prev_tracks (without_last s.player.prev_tracks) s in
      and_next (fill_up_next_tracks host (leave_autoplay t s')) (return_to t)

  unfoldable pub prev_track : ConnectState → Step (Option ProvidedTrack)
  unfolding step_back play_prev
  prev_track s = let s' = step_back s in play_prev (last_of s'.player.prev_tracks) s'
