-- ===== src/Connect/Track.antt =====
-- A provided track of the connect state with its provider and its metadata:
-- connect/src/state/provider.rs, connect/src/state/metadata.rs and the message `ProvidedTrack`, with
-- the fields that the state reads or writes.
use librespot.Base.{ℕ, Bool, false, true, List, [], ◌∷◌, ◌++◌, ◌&&◌, ◌==◌, Option, none, some}
use librespot.Base.Text.{Text, codes, text_eq}
use librespot.Base.Dict.{find_entry, put_entry}
use librespot.Core.SpotifyUri.{format_u64, u64_from_str}

abbrev pub Entries : Type 0
Entries = List (Text × Text)

pub record ProvidedTrack : Type 0 where
  pub uri : Text
  pub uid : Text
  pub provider : Text
  pub metadata : Entries

-- The default of the message.
abbrev pub no_track : ProvidedTrack
no_track = record { uri = []; uid = []; provider = []; metadata = [] }

pub data Provider : Type 0 where
  from_context from_queue from_autoplay unavailable : Provider

unfoldable pub provider_name : Provider → Text
provider_name from_context = codes "context"
provider_name from_queue = codes "queue"
provider_name from_autoplay = codes "autoplay"
provider_name unavailable = codes "unavailable"

unfoldable pub is_autoplay : ProvidedTrack → Bool
unfolding provider_name
is_autoplay t = text_eq t.provider (provider_name from_autoplay)

unfoldable pub is_context : ProvidedTrack → Bool
unfolding provider_name
is_context t = text_eq t.provider (provider_name from_context)

unfoldable pub is_queue : ProvidedTrack → Bool
unfolding provider_name
is_queue t = text_eq t.provider (provider_name from_queue)

unfoldable pub is_unavailable : ProvidedTrack → Bool
unfolding provider_name
is_unavailable t = text_eq t.provider (provider_name unavailable)

unfoldable pub set_provider : Provider → ProvidedTrack → ProvidedTrack
unfolding provider_name
set_provider p t = record t { provider = provider_name p }

abbrev pub is_queued : Text
is_queued = codes "is_queued"

abbrev pub hidden : Text
hidden = codes "hidden"

abbrev pub iteration_key : Text
iteration_key = codes "iteration"

abbrev pub context_index : Text
context_index = codes "context_index"

abbrev pub context_uri_key : Text
context_uri_key = codes "context_uri"

abbrev pub entity_uri_key : Text
entity_uri_key = codes "entity_uri"

abbrev pub is_autoplay_key : Text
is_autoplay_key = codes "autoplay.is_autoplay"

abbrev pub shuffle_seed : Text
shuffle_seed = codes "shuffle_seed"

abbrev pub initial_track_key : Text
initial_track_key = codes "initial_track"

abbrev is_true_value : Option Text → Bool
is_true_value none = false
is_true_value (some value) = text_eq value (codes "true")

unfoldable pub get_bool : Text → Entries → Bool
unfolding find_entry
get_bool entry metadata = is_true_value (find_entry entry metadata)

unfoldable pub is_from_queue : ProvidedTrack → Bool
unfolding get_bool
is_from_queue t = get_bool is_queued t.metadata

unfoldable pub set_entry : Text → Text → ProvidedTrack → ProvidedTrack
unfolding put_entry
set_entry key value t = record t { metadata = put_entry key value t.metadata }

unfoldable pub set_from_queue : ProvidedTrack → ProvidedTrack
unfolding set_entry
set_from_queue t = set_entry is_queued (codes "true") t

-- `get_usize`: an entry that is no number counts as missing.
unfoldable pub get_usize : Text → Entries → Option ℕ
unfolding find_entry u64_from_str
get_usize entry metadata = elim (find_entry entry metadata) [
  | none ↦ none
  | some text ↦ u64_from_str text
]

unfoldable pub get_context_index : ProvidedTrack → Option ℕ
unfolding get_usize
get_context_index t = get_usize context_index t.metadata

-- `ConnectState::new_delimiter`.
abbrev pub delimiter_name : Text
delimiter_name = codes "delimiter"

unfoldable pub new_delimiter : ℕ → ProvidedTrack
unfolding provider_name set_entry format_u64
new_delimiter iteration = set_entry iteration_key (format_u64 iteration) (
    set_entry hidden (codes "true") (record {
      uri = codes "spotify:" ++ delimiter_name;
      uid = delimiter_name ++ format_u64 iteration;
      provider = provider_name from_context;
      metadata = [];
    }))

-- `str::starts_with`.
unfoldable pub starts_with : Text → Text → Bool
starts_with text [] = true
starts_with [] (c ∷ cs) = false
starts_with (b ∷ bs) (c ∷ cs) = b == c && starts_with bs cs

unfoldable pub is_delimiter : ProvidedTrack → Bool
unfolding starts_with
is_delimiter t = starts_with t.uid delimiter_name
