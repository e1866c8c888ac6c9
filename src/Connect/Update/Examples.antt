-- ===== src/Connect/Update/Examples.antt =====
-- A context of two pages with three tracks, and its update and merge.
use librespot.Base.{ℕ, ◌≡◌, refl, false, List, [], ◌∷◌, ◌++◌, none, some, arith}
use librespot.Base.Text.{Text, codes, split}
use librespot.Base.Dict.{put_entry}
use librespot.Core.SpotifyUri.{
  unknown, from_uri, to_uri, to_id, item_type, from_parts, parse_type, parse_item,
}
use librespot.Connect.Track.{ProvidedTrack, provider_name, from_context, starts_with}
use librespot.Connect.ShuffleVec.{from_vec, position_from}
use librespot.Connect.State.{default, autoplay, StateContext, ConnectState}
use librespot.Connect.Update.{
  ContextTrack, ContextPage, Context, track_id, uri_text, has_char, replace_from, put_all,
}
use librespot.Connect.Update.Pages.{
  update_context, update_with, split_pages, all_empty, load_remaining, with_page_uri,
}
use librespot.Connect.Update.Position.{IsConvertible}
use librespot.Connect.Update.Indexed.{IsIndexed}
use librespot.Connect.Update.Numbered.{HoldsPage, update_context_lem, update_context_autoplay}
use librespot.Connect.Update.Merge.{
  IsMerged, merge_context, merge_one, merge_found, merge_track, modify_at, takes_uid,
  merge_context_lem,
}

-- A track of a kind that the program does not know.
abbrev song : Text → ContextTrack
song name = record {
  track_uri = some (codes "spotify:meta:" ++ name);
  track_uid = some [];
  gid = none;
  track_metadata = [];
}

abbrev page : Text → List ContextTrack → ContextPage
page url tracks = record { page_url = some url; page_tracks = tracks; page_metadata = [] }

abbrev album : Context
album = record {
  uri = some (codes "spotify:album:x");
  url = none;
  pages = page [] (song (codes "a") ∷ song (codes "b") ∷ []) ∷ page [] (song (codes "c") ∷ []) ∷ [];
  metadata = [];
  restrictions = none;
}

abbrev idle : ConnectState
idle = record {
  player = record {
    options = none;
    current = none;
    prev_tracks = [];
    next_tracks = [];
    player_index = none;
    player_restrictions = none;
    context_restrictions = none;
    context_metadata = [];
    context_uri = [];
    context_url = [];
    queue_revision = [];
    playing = false;
    paused = false;
    buffering = false;
  };
  unavailable_uri = [];
  queue_count = 0;
  active_context = default;
  fill_up_context = default;
  context = none;
  autoplay_context = none;
}

abbrev uuids : ℕ → ℕ → Text
uuids n i = codes "new"

song_a-IsConvertible : IsConvertible (song (codes "a"))
unfolding track_id uri_text has_char from_uri from_parts parse_type parse_item to_uri to_id
    item_type replace_from split starts_with
song_a-IsConvertible = record {
  id = unknown (codes "meta") (codes "a");
  text = codes "spotify:track:a";
  has_id = refl;
  has_text = refl;
}

song_b-IsConvertible : IsConvertible (song (codes "b"))
unfolding track_id uri_text has_char from_uri from_parts parse_type parse_item to_uri to_id
    item_type replace_from split starts_with
song_b-IsConvertible = record {
  id = unknown (codes "meta") (codes "b");
  text = codes "spotify:track:b";
  has_id = refl;
  has_text = refl;
}

song_c-IsConvertible : IsConvertible (song (codes "c"))
unfolding track_id uri_text has_char from_uri from_parts parse_type parse_item to_uri to_id
    item_type replace_from split starts_with
song_c-IsConvertible = record {
  id = unknown (codes "meta") (codes "c");
  text = codes "spotify:track:c";
  has_id = refl;
  has_text = refl;
}

abbrev updated : ConnectState
updated = (update_context uuids album default idle).1

updated-IsIndexed : IsIndexed 3 updated
unfolding update_context all_empty starts_with split_pages update_with load_remaining with_page_uri
updated-IsIndexed =
    update_context_lem uuids album idle updated (some [])
      ((song_a-IsConvertible, (song_b-IsConvertible, tt)), ((song_c-IsConvertible, tt), tt))
      (omega arith) refl

update_context_lem_example : IsIndexed 3 updated
unfolding update_context all_empty starts_with split_pages update_with load_remaining with_page_uri
update_context_lem_example =
    update_context_lem uuids album idle updated (some [])
      ((song_a-IsConvertible, (song_b-IsConvertible, tt)), ((song_c-IsConvertible, tt), tt))
      (omega arith) refl

-- The song of the second page goes to the context that plays.
update_context_autoplay_example :
    IsIndexed 4 (update_context uuids album autoplay updated).1
    × (first : ContextPage) × ((split_pages album.pages).0 ≡ some first)
    × HoldsPage (uuids 0) album updated first (update_context uuids album autoplay updated).1
unfolding update_context all_empty starts_with split_pages update_with load_remaining with_page_uri
update_context_autoplay_example =
    update_context_autoplay uuids album 3 updated (update_context uuids album autoplay updated).1
      (some [])
      ((song_a-IsConvertible, (song_b-IsConvertible, tt)), ((song_c-IsConvertible, tt), tt))
      (omega arith) updated-IsIndexed refl

-- A track without a uid in the page takes away the uid of the track in the context.
abbrev known : ProvidedTrack
unfolding provider_name
known = record {
  uri = codes "spotify:track:a";
  uid = codes "real";
  provider = provider_name from_context;
  metadata = [];
}

abbrev nameless : ContextTrack
nameless = record {
  track_uri = some (codes "spotify:track:a");
  track_uid = some [];
  gid = none;
  track_metadata = (codes "title", codes "A") ∷ [];
}

merge_takes_uid :
    merge_one nameless (known ∷ [])
    ≡ record known { uid = []; metadata = (codes "title", codes "A") ∷ [] } ∷ []
unfolding merge_one merge_found merge_track modify_at takes_uid position_from put_all put_entry
    known
merge_takes_uid = refl

abbrev playing : StateContext
playing = record {
  tracks = from_vec (known ∷ []);
  metadata = [];
  restrictions = none;
  index = record { page = 0; track = 0 };
}

abbrev busy : ConnectState
busy = record idle { context = some playing }

merge_context_lem_example :
    (c' : StateContext) × ((merge_context (some (page [] (nameless ∷ []))) busy).1.context
      ≡ some c')
    × ((merge_context (some (page [] (nameless ∷ []))) busy).0 ≡ some tt)
    × IsMerged (codes "spotify:track:a" ∷ []) playing.tracks.vec c'.tracks.vec
merge_context_lem_example = merge_context_lem (page [] (nameless ∷ [])) busy playing refl
