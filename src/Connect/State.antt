-- ===== src/Connect/State.antt =====
-- connect/src/state.rs and the data of connect/src/state/context.rs: what the connect state keeps.
-- The messages `PlayerState`, `ContextPlayerOptions`, `ContextIndex` and `Restrictions` have the
-- fields that the code reads or writes here; a message that is not set is `none`. The device, the
-- activity, the volume step, the position and the playback speed are left out.
pub mod Context
pub mod Restrict
pub mod FillUp
pub mod Move
pub mod Edit
pub mod Bounds
pub mod Preserved
pub mod Handle
pub mod Reachable
pub mod Queue
pub mod Skip
pub mod Back
mod Examples
use librespot.Base.{ℕ, ◌+◌, ◌%◌, ◌^◌, Bool, true, false, not, List, [], Option, none, some, ◌&&◌}
use librespot.Base.Text.{Text}
use librespot.Base.Result.{Result, ok, err}
use librespot.Core.SpotifyUri.{SpotifyUriError}
use librespot.Connect.Track.{Entries, ProvidedTrack, no_track}
use librespot.Connect.ShuffleVec.{ShuffleVec}

abbrev pub max_prev_tracks : ℕ
max_prev_tracks = 10

abbrev pub max_next_tracks : ℕ
max_next_tracks = 80

pub data ContextType : Type 0 where
  default autoplay : ContextType

pub data StateError : Type 0 where
  no_context : ContextType → StateError
  can_not_find_track : Option ℕ → ℕ → StateError
  currently_disallowed : Text → Text → StateError
  invalid_track_uri : Option Text → StateError
  context_has_no_tracks unsupported_local_playback : StateError
  -- An error of another type, as `Error` holds it.
  uri_error : SpotifyUriError → StateError
  -- A panic: an index out of range in `ShuffleVec`.
  panicked : StateError

pub record ContextIndex : Type 0 where
  pub page : ℕ
  pub track : ℕ

pub record Options : Type 0 where
  pub shuffling_context : Bool
  pub repeating_context : Bool
  pub repeating_track : Bool

pub record Restrictions : Type 0 where
  pub disallow_pausing : List Text
  pub disallow_resuming : List Text
  pub disallow_peeking_prev : List Text
  pub disallow_skipping_prev : List Text
  pub disallow_toggling_shuffle : List Text
  pub disallow_toggling_repeat_context : List Text
  pub disallow_toggling_repeat_track : List Text

abbrev pub no_restrictions : Restrictions
no_restrictions = record {
  disallow_pausing = [];
  disallow_resuming = [];
  disallow_peeking_prev = [];
  disallow_skipping_prev = [];
  disallow_toggling_shuffle = [];
  disallow_toggling_repeat_context = [];
  disallow_toggling_repeat_track = [];
}

pub record StateContext : Type 0 where
  pub tracks : ShuffleVec ProvidedTrack
  pub metadata : Entries
  pub restrictions : Option Restrictions
  pub index : ContextIndex

pub record PlayerState : Type 0 where
  pub options : Option Options
  pub current : Option ProvidedTrack
  pub prev_tracks : List ProvidedTrack
  pub next_tracks : List ProvidedTrack
  pub player_index : Option ContextIndex
  pub player_restrictions : Option Restrictions
  pub context_restrictions : Option Restrictions
  pub context_metadata : Entries
  pub context_uri : Text
  pub context_url : Text
  pub queue_revision : Text
  pub playing : Bool
  pub paused : Bool
  pub buffering : Bool

pub record ConnectState : Type 0 where
  pub player : PlayerState
  pub unavailable_uri : List Text
  pub queue_count : ℕ
  pub active_context : ContextType
  pub fill_up_context : ContextType
  pub context : Option StateContext
  pub autoplay_context : Option StateContext

-- A fallible method leaves its changes in the state also when it fails.
abbrev pub Step {ℓ} : Type ℓ → Type ℓ
Step A = Result StateError A × ConnectState

abbrev pub and_next {ℓ κ} :
    {A : Type ℓ} {B : Type κ} → Step A → (A → ConnectState → Step B) → Step B
and_next (ok a, s) f = f a s
and_next (err e, s) f = (err e, s)

-- Methods that change one part.
abbrev pub with_player : (PlayerState → PlayerState) → ConnectState → ConnectState
with_player f s = record s { player = f s.player }

abbrev pub with_next_tracks : List ProvidedTrack → ConnectState → ConnectState
with_next_tracks tracks s = record s { player = record s.player { next_tracks = tracks } }

abbrev pub with_prev_tracks : List ProvidedTrack → ConnectState → ConnectState
with_prev_tracks tracks s = record s { player = record s.player { prev_tracks = tracks } }

abbrev or_default : Option ProvidedTrack → ProvidedTrack
or_default none = no_track
or_default (some t) = t

-- `current_track`: reading a message that is not set gives its default.
abbrev pub current_track : ConnectState → ProvidedTrack
current_track s = or_default s.player.current

unfoldable pub set_track : ProvidedTrack → ConnectState → ConnectState
set_track t s = record s { player = record s.player { current = some t } }

unfoldable pub is_playing : ConnectState → Bool
is_playing s = s.player.playing && not s.player.paused

unfoldable pub is_pause : ConnectState → Bool
is_pause s = s.player.playing && s.player.paused && s.player.buffering

abbrev index_or_new : Option ContextIndex → ContextIndex
index_or_new none = record { page = 0; track = 0 }
index_or_new (some i) = i

-- `player().index.track`.
abbrev pub index_track : ConnectState → ℕ
index_track s = (index_or_new s.player.player_index).track

unfoldable pub update_current_index : (ContextIndex → ContextIndex) → ConnectState → ConnectState
update_current_index f s = record s {
  player = record s.player { player_index = some (f (index_or_new s.player.player_index)) };
}

-- `n as u32`.
abbrev pub as_u32 : ℕ → ℕ
as_u32 n = n % 2 ^ 32

abbrev pub is_autoplay_type : ContextType → Bool
is_autoplay_type default = false
is_autoplay_type autoplay = true

-- What the state takes from elsewhere: the hash of the uris in the queue, in decimal.
pub record Host : Type 0 where
  pub queue_hash : List Text → Text
