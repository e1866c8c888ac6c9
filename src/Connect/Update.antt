-- ===== src/Connect/Update.antt =====
-- connect/src/state/context.rs: contexts that come from elsewhere. Their tracks become provided
-- tracks, and a context is updated or merged. The messages `Context`, `ContextPage` and
-- `ContextTrack` have the fields that the code reads. A new uuid for the track at each place of a
-- page is an argument.
pub mod Position
pub mod Pages
pub mod Indexed
pub mod Numbered
pub mod Bounded
pub mod Merge
pub mod PageUrl
mod Examples
use librespot.Base.{
  ℕ, zero, suc, ◌+◌, ◌-◌, Bool, true, false, not, List, [], ◌∷◌, ◌++◌, Option, none, some, ◌==◌,
  ◌||◌, ◌&&◌, length, set, get_elem?, if◌then◌else◌, drop,
}
use librespot.Base.Text.{Text, codes, text_eq, split}
use librespot.Base.Dict.{put_entry}
use librespot.Base.Result.{Result, ok, err, ◌>>=◌}
use librespot.Core.SpotifyId.{SpotifyId}
use librespot.Core.SpotifyId.Base16.{from_raw}
use librespot.Core.SpotifyUri.{SpotifyUri, track, id_error, from_uri, to_uri, format_u64}
use librespot.Connect.Track.{
  Entries, ProvidedTrack, Provider, from_context, unavailable, from_autoplay, provider_name,
  set_entry, context_uri_key, entity_uri_key, is_autoplay_key, context_index, starts_with,
}
use librespot.Connect.ShuffleVec.{ShuffleVec, from_vec, position_from}
use librespot.Connect.State.{
  ContextType, default, autoplay, StateError, no_context, invalid_track_uri, context_has_no_tracks,
  unsupported_local_playback, uri_error, panicked, Restrictions, StateContext, ConnectState,
}

pub record ContextTrack : Type 0 where
  pub track_uri : Option Text
  pub track_uid : Option Text
  pub gid : Option (List ℕ)
  pub track_metadata : Entries

pub record ContextPage : Type 0 where
  pub page_url : Option Text
  pub page_tracks : List ContextTrack
  pub page_metadata : Entries

pub record Context : Type 0 where
  pub uri : Option Text
  pub url : Option Text
  pub pages : List ContextPage
  pub metadata : Entries
  pub restrictions : Option Restrictions

abbrev pub is_nil {ℓ} : {A : Type ℓ} → List A → Bool
is_nil [] = true
is_nil (x ∷ xs) = false

-- `Some(ref x) if !x.is_empty()`.
abbrev pub not_empty {ℓ} : {A : Type ℓ} → Option (List A) → Bool
not_empty none = false
not_empty (some xs) = not (is_nil xs)

abbrev pub unwrap_or {ℓ} : {A : Type ℓ} → A → Option A → A
unwrap_or a none = a
unwrap_or a (some b) = b

-- `uri.contains(['?'])`.
unfoldable pub has_char : ℕ → Text → Bool
has_char c [] = false
has_char c (b ∷ bs) = b == c || has_char c bs

-- `str::contains` and `str::replace`; the numbers count the bytes of a match that are left.
unfoldable pub contains_text : Text → Text → Bool
contains_text [] part = starts_with [] part
contains_text (b ∷ bs) part = starts_with (b ∷ bs) part || contains_text bs part

unfoldable pub replace_from : ℕ → Text → Text → Text → Text
replace_from skip [] from to = []
replace_from (suc skip) (b ∷ bs) from to = replace_from skip bs from to
replace_from zero (b ∷ bs) from to =
    let matched = to ++ replace_from (length from - 1) bs from to in
    let rest = replace_from 0 bs from to in if starts_with (b ∷ bs) from then matched else b ∷ rest

unfoldable pub from_gid : Option (List ℕ) → Result StateError SpotifyUri
from_gid none = err (invalid_track_uri none)
from_gid (some []) = err (invalid_track_uri none)
from_gid (some (b ∷ bs)) = elim (from_raw (b ∷ bs)) [
  | ok id ↦ ok (track id)
  | err e ↦ err (uri_error (id_error e))
]

-- The `match` for the identifier of a track.
unfoldable pub track_id : ContextTrack → Result StateError SpotifyUri
track_id t = elim t.track_uri [
  | none ↦ from_gid t.gid
  | some uri ↦
      if has_char b'?' uri
      then err (invalid_track_uri (some uri))
      else if is_nil uri
      then from_gid t.gid
      else elim (from_uri uri) [ ok id ↦ ok id | err e ↦ err (uri_error e) ]
]

unfoldable pub uri_text : SpotifyUri → Result StateError Text
uri_text id = elim (to_uri id) [
  | none ↦ err panicked
  | some text ↦ ok (replace_from 0 text (codes "unknown") (codes "track"))
]

abbrev pub contains_uri : Text → List Text → Bool
contains_uri uri [] = false
contains_uri uri (x ∷ xs) = text_eq x uri || contains_uri uri xs

unfoldable pub put_all : Entries → Entries → Entries
put_all [] metadata = metadata
put_all ((k, v) ∷ entries) metadata = put_all entries (put_entry k v metadata)

-- The optional parts at the end of `context_to_provided_track`.
unfoldable pub with_context_uri : Option Text → ProvidedTrack → ProvidedTrack
with_context_uri none t = t
with_context_uri (some uri) t = set_entry context_uri_key uri (set_entry entity_uri_key uri t)

unfoldable pub with_context_index : Option ℕ → ProvidedTrack → ProvidedTrack
with_context_index none t = t
with_context_index (some i) t = set_entry context_index (format_u64 i) t

unfoldable pub with_autoplay : Provider → ProvidedTrack → ProvidedTrack
with_autoplay from_autoplay t = set_entry is_autoplay_key (codes "true") t
with_autoplay from_context t = t
with_autoplay Provider.from_queue t = t
with_autoplay unavailable t = t

unfoldable pub track_provider : List Text → Text → Option Provider → Provider
track_provider unavailable_uri uri provider =
    if contains_uri uri unavailable_uri then unavailable else unwrap_or from_context provider

unfoldable pub context_to_provided_track :
    (new_uuid : Text)
    → ConnectState
    → ContextTrack
    → Option Text
    → Option ℕ
    → Option Entries
    → Option Provider
    → Result StateError ProvidedTrack
context_to_provided_track new_uuid s ctx_track context_uri index page_metadata provider = do
  id ← track_id ctx_track
  uri ← uri_text id
  let provider = track_provider s.unavailable_uri uri provider
  let provided : ProvidedTrack = record {
    uri = uri;
    uid = if not_empty ctx_track.track_uid then unwrap_or [] ctx_track.track_uid else new_uuid;
    provider = provider_name provider;
    metadata = put_all ctx_track.track_metadata (unwrap_or [] page_metadata);
  }
  ok (with_autoplay provider (with_context_index index (with_context_uri context_uri provided)))
