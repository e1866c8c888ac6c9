-- ===== src/Connect/State/FillUp.antt =====
-- connect/src/state/tracks.rs, `fill_up_next_tracks`: the queue of next tracks is filled up from the
-- context, then from the autoplay context.
pub mod Rounds
pub mod Filled
pub mod Unavailable
pub mod Outcome
use mathlib.Core.List.{map}
use librespot.Base.{
  ℕ, zero, suc, ◌+◌, ◌-◌, ◌*◌, ◌%◌, ◌^◌, max, Bool, true, false, not, List, [], ◌∷◌, ◌++◌, Option,
  none, some, ◌&&◌, ◌||◌, ◌==◌, ltb, leb, if◌then◌else◌, length, get_elem?,
}
use librespot.Base.Result.{Result, ok, err}
use librespot.Connect.Track.{ProvidedTrack, is_unavailable, new_delimiter}
use librespot.Connect.ShuffleVec.{ShuffleVec}
use librespot.Connect.State.{
  ContextType, default, autoplay, StateError, no_context, ContextIndex, StateContext, ConnectState,
  Step, and_next, as_u32, max_next_tracks, is_autoplay_type, Host, with_next_tracks,
}
use librespot.Connect.State.Context.{
  context_at, set_context_at, get_context, update_context_index, is_skip_track, repeat_context,
}

-- What one round of the loop does: it adds a track, skips one, or ends the loop.
pub data Round : Type 0 where
  push : ProvidedTrack → ConnectState → ℕ → ℕ → Round
  skip : ℕ → Round
  break : Round
  fail : StateError → ConnectState → Round

abbrev enter_autoplay : Step (Unit {0}) → ℕ → Round
unfolding get_context new_delimiter
enter_autoplay (err e, s) iteration = fail e s
enter_autoplay (ok u, s) iteration =
    let s' = record s { fill_up_context = autoplay } in
    elim (get_context autoplay s') [
      | err e ↦ fail e s'
      | ok c ↦ push (new_delimiter iteration) s' c.index.track iteration
    ]

-- The context ends and the autoplay context takes its place.
unfoldable pub to_autoplay : ConnectState → ℕ → ℕ → Round
unfolding update_context_index enter_autoplay
to_autoplay s new_index iteration =
    enter_autoplay (update_context_index s.fill_up_context new_index s) iteration

abbrev is_set : Option StateContext → Bool
is_set none = false
is_set (some c) = true

-- `autoplay_context.tracks.get(new_index)`.
abbrev from_autoplay : ConnectState → ℕ → ℕ → Round
unfolding get_context
from_autoplay s new_index iteration = elim (get_context autoplay s) [
  | err e ↦ fail e s
  | ok c ↦ elim (get_elem? c.tracks.vec new_index) [
    | none ↦ break
    | some t ↦ push t s (new_index + 1) iteration
  ]
]

-- The arms of the loop's `match` without a track.
unfoldable pub at_end : ConnectState → ℕ → ℕ → Round
unfolding to_autoplay repeat_context new_delimiter get_context
at_end s new_index iteration =
    if repeat_context s
    then push (new_delimiter iteration) s 0 (as_u32 (iteration + 1))
    else if not (is_autoplay_type s.fill_up_context) && is_set s.autoplay_context
    then to_autoplay s new_index iteration
    else if is_set s.autoplay_context
    then from_autoplay s new_index iteration
    else break

unfoldable pub fill_round : ConnectState → ℕ → ℕ → Round
unfolding at_end get_context is_skip_track is_unavailable
fill_round s new_index iteration = elim (get_context s.fill_up_context s) [
  | err e ↦ fail e s
  | ok c ↦ elim (get_elem? c.tracks.vec new_index) [
    | none ↦ at_end s new_index iteration
    | some t ↦
        if is_unavailable t || is_skip_track s t (some iteration)
        then skip (new_index + 1)
        else push t s (new_index + 1) iteration
  ]
]

abbrev pub add_next : ProvidedTrack → ConnectState → ConnectState
add_next t s = with_next_tracks (s.player.next_tracks ++ t ∷ []) s

-- The loop, whose value is the last `new_index`.
unfoldable pub fill_loop : ℕ → ConnectState → ℕ → ℕ → Step ℕ
unfolding fill_round
fill_loop zero s new_index iteration = (ok new_index, s)
fill_loop (suc fuel) s new_index iteration =
    if leb max_next_tracks (length s.player.next_tracks)
    then (ok new_index, s)
    else elim (fill_round s new_index iteration) [
      | push t s' index iteration' ↦ fill_loop fuel (add_next t s') index iteration'
      | skip index ↦ fill_loop fuel s index iteration
      | break ↦ (ok new_index, s)
      | fail e s' ↦ (err e, s')
    ]

abbrev pub tracks_in : Option StateContext → ℕ
tracks_in none = 0
tracks_in (some c) = length c.tracks.vec

-- A bound on the tracks of either context.
abbrev pub longest : ConnectState → ℕ
longest s = max (tracks_in s.context) (tracks_in s.autoplay_context)

-- Rounds that are left at most: between two additions each track of a context is skipped once.
abbrev pub rounds_left : ConnectState → ℕ → ℕ
rounds_left s new_index =
    (max_next_tracks - length s.player.next_tracks) * (longest s + 2) + (longest s + 1 - new_index)

module _ (host : Host) where
  unfoldable pub update_queue_revision : ConnectState → ConnectState
  update_queue_revision s =
      let hash = host.queue_hash (map (λ t. t.uri) s.player.next_tracks) in
      record s { player = record s.player { queue_revision = hash } }

  unfoldable pub fill_up_next_tracks : ConnectState → Step (Unit {0})
  unfolding fill_loop get_context update_context_index update_queue_revision
  fill_up_next_tracks s = elim (get_context s.fill_up_context s) [
    | err e ↦ (err e, s)
    | ok c ↦
        let fuel = rounds_left s c.index.track + 1 in
        and_next (fill_loop fuel s c.index.track c.index.page) (λ new_index s'.
          and_next (update_context_index s'.fill_up_context new_index s')
            (λ u s''. (ok tt, update_queue_revision s'')))
  ]
