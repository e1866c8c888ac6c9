-- ===== src/Connect/State/Edit.antt =====
-- connect/src/state/tracks.rs, connect/src/state/options.rs and connect/src/state.rs: changes of the
-- queue, shuffling, the status, and the reset to a position.
use mathlib.Core.List.{reverse}
use librespot.Base.{
  ℕ, ◌+◌, ◌-◌, ◌%◌, ◌^◌, Bool, true, false, not, List, [], ◌∷◌, ◌++◌, map, Option, none, some, ◌||◌,
  ◌==◌, ltb, leb, if◌then◌else◌, length, take, drop,
}
use librespot.Base.Text.{Text, codes, text_eq}
use librespot.Base.Dict.{put_entry}
use librespot.Base.Result.{Result, ok, err}
use librespot.Core.SpotifyUri.{format_u64}
use librespot.Connect.Track.{
  ProvidedTrack, from_queue, unavailable, set_provider, is_from_queue, set_from_queue, is_queue,
  shuffle_seed, initial_track_key,
}
use librespot.Connect.ShuffleVec.{Rng, position_from, shuffle_with_seed}
use librespot.Connect.State.{
  default, StateError, currently_disallowed, panicked, ConnectState, Step, and_next, as_u32,
  max_prev_tracks, max_next_tracks, Host, with_next_tracks, with_prev_tracks, current_track,
  update_current_index,
}
use librespot.Connect.State.Context.{
  get_context, set_context_at, update_context_index, is_skip_track, default_index, reset_context,
}
use librespot.Connect.State.Restrict.{update_restrictions}
use librespot.Connect.State.FillUp.{fill_up_next_tracks, update_queue_revision}
use librespot.Connect.State.Move.{set_current_track}

unfoldable pub has_next_tracks : Option ℕ → ConnectState → Bool
has_next_tracks none s = not (length s.player.next_tracks == 0)
has_next_tracks (some least) s = leb least (length s.player.next_tracks)

unfoldable pub recent_track_uris : ConnectState → List Text
recent_track_uris s = map (λ t. t.uri) s.player.prev_tracks ++ (current_track s).uri ∷ []

unfoldable pub queue_uid : ℕ → Text
unfolding format_u64
queue_uid count = b'q' ∷ format_u64 count

-- The first pass of `set_next_tracks`: a queued track is given its provider and a new uid.
unfoldable pub name_queued : ℕ → List ProvidedTrack → List ProvidedTrack × ℕ
unfolding is_from_queue set_provider queue_uid
name_queued count [] = ([], count)
name_queued count (t ∷ tracks) =
    let next = if is_from_queue t then (count + 1) % 2 ^ 64 else count in
    let (named, last) = name_queued next tracks in
    let renamed = record (set_provider from_queue t) { uid = queue_uid count } in
    ((if is_from_queue t then renamed else t) ∷ named, last)

-- The second pass: a track without a uri is the current one.
abbrev pub name_empty : Text → ProvidedTrack → ProvidedTrack
name_empty uri t = if length t.uri == 0 then record t { uri = uri } else t

unfoldable pub set_next_tracks : List ProvidedTrack → ConnectState → ConnectState
unfolding name_queued
set_next_tracks tracks s =
    let (named, count) = name_queued s.queue_count tracks in
    record (with_next_tracks (map (name_empty (current_track s).uri) named) s) {
      queue_count = count;
    }

-- `position(|t| !t.is_queue())`.
abbrev pub first_not_queued : List ProvidedTrack → Option ℕ
unfolding position_from is_queue
first_not_queued tracks = position_from (λ t. not (is_queue t)) 0 tracks

unfoldable pub clear_next_tracks : ConnectState → ConnectState
unfolding first_not_queued
clear_next_tracks s = elim (first_not_queued s.player.next_tracks) [
  | none ↦ s
  | some n ↦ with_next_tracks (take n s.player.next_tracks) s
]

-- `Vec::insert`.
abbrev insert_at : ℕ → ProvidedTrack → List ProvidedTrack → List ProvidedTrack
insert_at n t tracks = take n tracks ++ t ∷ drop n tracks

unfoldable pub insert_queued : ProvidedTrack → List ProvidedTrack → List ProvidedTrack
unfolding first_not_queued
insert_queued t tracks = elim (first_not_queued tracks) [
  | none ↦ tracks ++ t ∷ []
  | some n ↦ insert_at n t tracks
]

unfoldable pub queued_track : ℕ → ProvidedTrack → ProvidedTrack
unfolding queue_uid set_provider is_from_queue set_from_queue
queued_track count t =
    let t' = set_provider from_queue (record t { uid = queue_uid count }) in
    if is_from_queue t' then t' else set_from_queue t'

-- `while let Some(pos) = tracks.iter().position(|t| t.uri == uri)`: every match is removed.
unfoldable pub remove_uri : Text → List ProvidedTrack → List ProvidedTrack
remove_uri uri [] = []
remove_uri uri (t ∷ tracks) =
    let rest = remove_uri uri tracks in if text_eq t.uri uri then rest else t ∷ rest

unfoldable pub mark_as_unavailable_for_match : Text → ProvidedTrack → ProvidedTrack
unfolding set_provider
mark_as_unavailable_for_match uri t = if text_eq t.uri uri then set_provider unavailable t else t

-- Both queues of `mark_unavailable`: first the removal, then the loop that marks.
unfoldable pub without_uri : Text → List ProvidedTrack → List ProvidedTrack
unfolding remove_uri mark_as_unavailable_for_match
without_uri uri tracks = map (mark_as_unavailable_for_match uri) (remove_uri uri tracks)

unfoldable pub validate_shuffle_allowed : ConnectState → Result StateError (Unit {0})
validate_shuffle_allowed s = elim s.player.player_restrictions [
  | none ↦ ok tt
  | some r ↦ elim r.disallow_toggling_shuffle [
    | [] ↦ ok tt
    | reason ∷ reasons ↦ err (currently_disallowed (codes "shuffle") reason)
  ]
]

pub data PlayStatus : Type 0 where
  stopped loading_play playing loading_pause paused : PlayStatus

-- Whether the status counts as paused, as loading, and as playing.
abbrev counts_as_paused : PlayStatus → Bool
counts_as_paused loading_pause = true
counts_as_paused paused = true
counts_as_paused stopped = true
counts_as_paused _ = false

abbrev counts_as_loading : PlayStatus → Bool
counts_as_loading loading_pause = true
counts_as_loading loading_play = true
counts_as_loading _ = false

abbrev counts_as_playing : PlayStatus → Bool
counts_as_playing loading_play = true
counts_as_playing playing = true
counts_as_playing _ = false

unfoldable pub set_status : PlayStatus → ConnectState → ConnectState
unfolding update_restrictions
set_status status s =
    let is_paused = counts_as_paused status in
    update_restrictions (record s {
      player = record s.player {
        paused = is_paused;
        buffering = is_paused || counts_as_loading status;
        playing = is_paused || counts_as_playing status;
      };
    })

-- `context.tracks.iter().rev().skip(len - n).take(10).rev()`.
unfoldable pub tracks_before : ℕ → List ProvidedTrack → List ProvidedTrack
tracks_before n tracks = reverse (take max_prev_tracks (drop (length tracks - n) (reverse tracks)))

-- The current track stays when it is queued, or when it is the one that the context started with.
unfoldable pub keeps_track : ConnectState → Bool
unfolding is_queue is_skip_track
keeps_track s = is_queue (current_track s) || is_skip_track s (current_track s) none

-- `context.tracks.len() - new_index` wraps around when the index is behind the end, and then all
-- tracks are left out.
unfoldable pub load_prev : ℕ → ConnectState → Step (Unit {0})
unfolding get_context tracks_before
load_prev new_index s = elim (get_context s.active_context s) [
  | err e ↦ (err e, s)
  | ok c ↦
      if ltb (length c.tracks.vec) new_index
      then (ok tt, with_prev_tracks [] s)
      else (ok tt, with_prev_tracks (tracks_before new_index c.tracks.vec) s)
]

-- Both queues without the track, which is noted as unavailable.
unfoldable pub note_unavailable : Text → ConnectState → ConnectState
unfolding without_uri
note_unavailable uri s =
    let s' =
      with_prev_tracks (without_uri uri s.player.prev_tracks)
        (with_next_tracks (without_uri uri s.player.next_tracks) s) in
    record s' { unavailable_uri = s.unavailable_uri ++ uri ∷ [] }

-- The last step of `reset_playback_to_position`.
unfoldable pub restrict : Unit {0} → ConnectState → Step (Unit {0})
unfolding update_restrictions
restrict u s = (ok tt, update_restrictions s)

module _ (rng : Rng) where
  -- The context is shuffled, and its metadata keeps the seed and the first track.
  unfoldable pub shuffle_default : ℕ → Text → ConnectState → Step (Unit {0})
  unfolding get_context shuffle_with_seed put_entry format_u64
  shuffle_default seed initial_track s = elim (get_context default s) [
    | err e ↦ (err e, s)
    | ok c ↦ elim (shuffle_with_seed rng seed (λ t. text_eq t.uri initial_track) c.tracks) [
      | none ↦ (err panicked, s)
      | some tracks ↦
          let metadata =
            put_entry shuffle_seed (format_u64 seed)
              (put_entry initial_track_key initial_track c.metadata) in
          (ok tt, set_context_at default (record c { tracks = tracks; metadata = metadata }) s)
    ]
  ]

module _ (host : Host) where
  unfoldable pub revise : Unit {0} → ConnectState → Step (Unit {0})
  unfolding update_queue_revision
  revise u s = (ok tt, update_queue_revision host s)

  unfoldable pub mark_unavailable : Text → ConnectState → Step (Unit {0})
  unfolding note_unavailable fill_up_next_tracks revise
  mark_unavailable uri s = and_next (fill_up_next_tracks host (note_unavailable uri s)) revise

  unfoldable pub add_to_queue : ProvidedTrack → Bool → ConnectState → ConnectState
  unfolding insert_queued queued_track update_queue_revision update_restrictions
  add_to_queue t rev_update s =
      let queue = insert_queued (queued_track s.queue_count t) s.player.next_tracks in
      let s' = record (with_next_tracks (take max_next_tracks queue) s) {
        queue_count = (s.queue_count + 1) % 2 ^ 64;
      } in
      update_restrictions (if rev_update then update_queue_revision host s' else s')

  -- The steps of `reset_playback_to_position`, the last one first.
  unfoldable pub reset_queue : Unit {0} → ConnectState → Step (Unit {0})
  unfolding clear_next_tracks fill_up_next_tracks restrict
  reset_queue u s = and_next (fill_up_next_tracks host (clear_next_tracks s)) restrict

  unfoldable pub reset_prev : ℕ → Unit {0} → ConnectState → Step (Unit {0})
  unfolding load_prev reset_queue
  reset_prev new_index u s =
      let s' = with_prev_tracks [] s in
      and_next (if new_index == 0 then (ok tt, s') else load_prev new_index s') reset_queue

  unfoldable pub reset_track : ℕ → Unit {0} → ConnectState → Step (Unit {0})
  unfolding keeps_track set_current_track reset_prev
  reset_track new_index u s =
      let s' = record s { fill_up_context = s.active_context } in
      and_next (if keeps_track s' then (ok tt, s') else set_current_track new_index s')
        (reset_prev new_index)

  unfoldable pub reset_playback_to_position : Option ℕ → ConnectState → Step (Unit {0})
  unfolding update_current_index update_context_index reset_track
  reset_playback_to_position index s =
      let new_index : ℕ = elim index [ none ↦ 0 | some i ↦ i ] in
      let s' = update_current_index (λ i. record i { track = as_u32 new_index }) s in
      and_next (update_context_index s'.active_context (new_index + 1) s') (reset_track new_index)

  module _ (rng : Rng) where
    unfoldable pub shuffle_and_fill : ℕ → Text → Unit {0} → ConnectState → Step (Unit {0})
    unfolding shuffle_default fill_up_next_tracks
    shuffle_and_fill seed initial_track u s =
        and_next (shuffle_default rng seed initial_track s) (λ u s'. fill_up_next_tracks host s')

    unfoldable pub shuffle : ℕ → Text → ConnectState → Step (Unit {0})
    unfolding clear_next_tracks reset_context shuffle_and_fill
    shuffle seed initial_track s =
        and_next (reset_context default_index (clear_next_tracks (with_prev_tracks [] s)))
          (shuffle_and_fill seed initial_track)
