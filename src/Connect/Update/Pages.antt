-- ===== src/Connect/Update/Pages.antt =====
-- connect/src/state/context.rs: `state_context_from_page`, `fill_context_from_page`,
-- `update_context` and what they call.
use librespot.Base.{
  ℕ, suc, ◌+◌, ◌-◌, Bool, true, false, not, List, [], ◌∷◌, ◌++◌, Option, none, some, ◌&&◌, ◌||◌,
  leb, length, if◌then◌else◌,
}
use mathlib.Core.List.{reverse}
use librespot.Base.Text.{Text, codes, text_eq}
use librespot.Base.Result.{Result, ok, err}
use librespot.Connect.Track.{
  Entries, ProvidedTrack, Provider, from_autoplay, is_queue, is_from_queue, starts_with,
}
use librespot.Connect.ShuffleVec.{from_vec, position_from}
use librespot.Connect.State.{
  ContextType, default, autoplay, no_context, context_has_no_tracks, unsupported_local_playback,
  Restrictions, StateContext, ConnectState, Step, current_track, as_u32, index_track,
  max_next_tracks,
}
use librespot.Connect.State.Edit.{clear_next_tracks}
use librespot.Connect.Update.{
  ContextTrack, ContextPage, Context, is_nil, not_empty, unwrap_or, contains_text,
  context_to_provided_track,
}
use librespot.Connect.Update.PageUrl.{page_url_to_uri}

-- The tracks of a page from place `i` on; one that can not be converted is left out.
unfoldable pub convert_tracks :
    (ℕ → Text)
    → ConnectState
    → Text
    → Option ℕ
    → Entries
    → Option Provider
    → ℕ
    → List ContextTrack
    → List ProvidedTrack
convert_tracks new_uuid s uri context_length metadata provider i [] = []
convert_tracks new_uuid s uri context_length metadata provider i (t ∷ ts) =
    let rest = convert_tracks new_uuid s uri context_length metadata provider (suc i) ts in
    let index : Option ℕ = elim context_length [ none ↦ none | some l ↦ some (l + i) ] in
    elim (context_to_provided_track (new_uuid i) s t (some uri) index (some metadata) provider) [
      | ok provided ↦ provided ∷ rest
      | err e ↦ rest
    ]

unfoldable pub state_context_from_page :
    (ℕ → Text)
    → ConnectState
    → ContextPage
    → Entries
    → Option Restrictions
    → Option Text
    → Option ℕ
    → Option Provider
    → StateContext
state_context_from_page new_uuid s page metadata restrictions new_context_uri context_length
      provider =
    record {
      tracks = from_vec (
          convert_tracks new_uuid s (unwrap_or s.player.context_uri new_context_uri) context_length
            page.page_metadata provider 0 page.page_tracks);
      metadata = metadata;
      restrictions = restrictions;
      index = record { page = 0; track = 0 };
    }

abbrev pub push_all : List ProvidedTrack → StateContext → StateContext
push_all tracks c = record c { tracks = record c.tracks { vec = c.tracks.vec ++ tracks } }

-- The tracks of the page are pushed to the default context.
unfoldable pub fill_context :
    (ℕ → Text) → ContextPage → ConnectState → Option StateContext → Step (Unit {0})
fill_context new_uuid page s none = (err (no_context default), s)
fill_context new_uuid page s (some c) =
    let filled =
      state_context_from_page new_uuid s page [] none none (some (length c.tracks.vec)) none in
    (ok tt, record s { context = some (push_all filled.tracks.vec c) })

unfoldable pub fill_context_from_page : (ℕ → Text) → ContextPage → ConnectState → Step (Unit {0})
fill_context_from_page new_uuid page s = fill_context new_uuid page s s.context

unfoldable pub find_index_in_context : StateContext → (ProvidedTrack → Bool) → Option ℕ
find_index_in_context c f = position_from f 0 c.tracks.vec

-- The last of the previous tracks that is in the context; the list is in the reverse order.
unfoldable pub find_first_prev_track_index : List ProvidedTrack → StateContext → Option ℕ
find_first_prev_track_index [] c = none
find_first_prev_track_index (prev_track ∷ prev_tracks) c =
    let earlier = find_first_prev_track_index prev_tracks c in
    elim (find_index_in_context c (λ t. text_eq prev_track.uri t.uri)) [
      | none ↦ earlier
      | some i ↦ some i
    ]

-- Where the new context goes on, before the fallback.
unfoldable pub new_position : ConnectState → StateContext → StateContext → Option ℕ
new_position s c new_context =
    let current = current_track s in
    let from_prev = find_first_prev_track_index (reverse s.player.prev_tracks) new_context in
    let from_current = find_index_in_context new_context (λ t. text_eq current.uri t.uri) in
    if leb max_next_tracks c.index.track
    then some (c.index.track - max_next_tracks)
    else if is_queue current || is_from_queue current
    then from_prev
    else from_current

-- `Ok` is the place found, `Err` the fallback.
unfoldable pub find_last_index_in_new_context : ConnectState → StateContext → Option (Result ℕ ℕ)
find_last_index_in_new_context s new_context = elim s.context [
  | none ↦ none
  | some c ↦ some (elim (new_position s c new_context) [
    | none ↦ err (index_track s)
    | some i ↦ ok (as_u32 (as_u32 i + 1))
  ])
]

unfoldable pub all_empty : List ContextPage → Bool
all_empty [] = true
all_empty (p ∷ ps) = is_nil p.page_tracks && all_empty ps

-- The first page with tracks, and the others in order.
unfoldable pub split_pages : List ContextPage → Option ContextPage × List ContextPage
split_pages [] = (none, [])
split_pages (p ∷ ps) =
    let rest = split_pages ps in if is_nil p.page_tracks then (rest.0, p ∷ rest.1) else (some p, ps)

abbrev pub starts_with_opt : Option Text → Text → Bool
starts_with_opt none prefix = false
starts_with_opt (some text) prefix = starts_with text prefix

unfoldable pub same_context : ConnectState → Option Text → Bool
same_context s uri =
    not (starts_with s.player.context_uri (codes "spotify:search"))
    && elim uri [ none ↦ false | some u ↦ text_eq u s.player.context_uri ]

abbrev pub without_player_index : ConnectState → ConnectState
without_player_index s = record s { player = record s.player { player_index = none } }

-- The position is kept, and the next tracks of the old context go.
unfoldable pub keep_position :
    StateContext → Option (Result ℕ ℕ) → ConnectState → StateContext × ConnectState
keep_position new_context none s = (new_context, s)
keep_position new_context (some found) s =
    let at : ℕ = elim found [ ok i ↦ i | err i ↦ i ] in
    let indexed : ConnectState = elim found [ ok i ↦ s | err i ↦ without_player_index s ] in
    let reloaded = record indexed {
      autoplay_context = elim indexed.autoplay_context [
        | none ↦ none
        | some c ↦ some (record c { index = record c.index { track = 0 } })
      ];
    } in
    (
      record new_context { index = record new_context.index { track = at } },
      clear_next_tracks reloaded,
    )

unfoldable pub new_url : Option Text → Text
new_url none = []
new_url (some url) = if contains_text url (codes "spotify:search") then [] else url

unfoldable pub update_default : (ℕ → Text) → Context → ContextPage → ConnectState → ConnectState
update_default new_uuid context page s =
    let new_context =
      state_context_from_page new_uuid s page context.metadata context.restrictions context.uri
        (some 0) none in
    let kept =
      if same_context s context.uri
      then keep_position new_context (find_last_index_in_new_context s new_context) s
      else (new_context, s) in
    record kept.1 {
      context = some kept.0;
      player = record kept.1.player {
        context_url = new_url context.url;
        context_uri = unwrap_or [] context.uri;
      };
    }

unfoldable pub update_autoplay : (ℕ → Text) → Context → ContextPage → ConnectState → ConnectState
update_autoplay new_uuid context page s = record s {
  autoplay_context = some (
      state_context_from_page new_uuid s page context.metadata context.restrictions context.uri none
        (some from_autoplay));
}

-- The pages after the first: the tracks of a page are added to the default context, or its uri is
-- returned to be resolved.
unfoldable pub load_page : (ℕ → Text) → ContextPage → ConnectState → ConnectState
load_page new_uuid p s = if is_nil p.page_tracks then s else (fill_context_from_page new_uuid p s).1

unfoldable pub with_page_uri : ContextPage → List Text × ConnectState → List Text × ConnectState
with_page_uri p r =
    if is_nil p.page_tracks && not_empty p.page_url
    then (page_url_to_uri (unwrap_or [] p.page_url) ∷ r.0, r.1)
    else r

unfoldable pub load_remaining :
    (ℕ → ℕ → Text) → ℕ → List ContextPage → ConnectState → List Text × ConnectState
load_remaining new_uuid n [] s = ([], s)
load_remaining new_uuid n (p ∷ ps) s =
    with_page_uri p (load_remaining new_uuid (suc n) ps (load_page (new_uuid n) p s))

unfoldable pub update_page :
    (ℕ → ℕ → Text) → Context → ContextType → ContextPage → ConnectState → ConnectState
update_page new_uuid context default page s = update_default (new_uuid 0) context page s
update_page new_uuid context autoplay page s = update_autoplay (new_uuid 0) context page s

unfoldable pub update_with :
    (ℕ → ℕ → Text)
    → Context
    → ContextType
    → Option ContextPage × List ContextPage
    → ConnectState
    → Step (Option (List Text))
update_with new_uuid context ty (none, next_contexts) s = (err context_has_no_tracks, s)
update_with new_uuid context ty (some page, []) s =
    (ok none, update_page new_uuid context ty page s)
update_with new_uuid context ty (some page, p ∷ ps) s =
    let loaded = load_remaining new_uuid 1 (p ∷ ps) (update_page new_uuid context ty page s) in
    (ok (some loaded.0), loaded.1)

unfoldable pub update_context :
    (ℕ → ℕ → Text) → Context → ContextType → ConnectState → Step (Option (List Text))
update_context new_uuid context ty s =
    if all_empty context.pages
    then (err context_has_no_tracks, s)
    else if starts_with_opt context.uri (codes "spotify:local-files")
    then (err unsupported_local_playback, s)
    else update_with new_uuid context ty (split_pages context.pages) s
