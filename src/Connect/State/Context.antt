-- ===== src/Connect/State/Context.antt =====
-- connect/src/state/context.rs and connect/src/state/options.rs: the contexts that the state plays
-- from, their indices, and the options.
use librespot.Base.{ℕ, Bool, true, false, not, [], Option, none, some, ◌||◌, ◌==◌, if◌then◌else◌}
use librespot.Base.Text.{Text, codes, text_eq}
use librespot.Base.Dict.{find_entry, remove_entry}
use librespot.Base.Result.{Result, ok, err}
use librespot.Connect.Track.{ProvidedTrack, starts_with, shuffle_seed, initial_track_key}
use librespot.Connect.ShuffleVec.{unshuffle}
use librespot.Connect.State.{
  ContextType, default, autoplay, StateError, no_context, panicked, Options, StateContext,
  ConnectState, Step, and_next, as_u32, no_restrictions,
}
use librespot.Connect.State.Restrict.{update_restrictions}

abbrev pub context_at : ContextType → ConnectState → Option StateContext
context_at default s = s.context
context_at autoplay s = s.autoplay_context

abbrev pub set_context_at : ContextType → StateContext → ConnectState → ConnectState
set_context_at default c s = record s { context = some c }
set_context_at autoplay c s = record s { autoplay_context = some c }

abbrev pub ok_or_no_context : ContextType → Option StateContext → Result StateError StateContext
ok_or_no_context ty none = err (no_context ty)
ok_or_no_context ty (some c) = ok c

unfoldable pub get_context : ContextType → ConnectState → Result StateError StateContext
get_context ty s = ok_or_no_context ty (context_at ty s)

unfoldable pub update_context_index : ContextType → ℕ → ConnectState → Step (Unit {0})
unfolding get_context
update_context_index ty new_index s = elim (get_context ty s) [
  | err e ↦ (err e, s)
  | ok c ↦ (
    ok tt,
    set_context_at ty (record c { index = record c.index { track = as_u32 new_index } }) s,
  )
]

-- Whether the context started with this track: `ctx.get_initial_track()` is its uri.
abbrev is_uri : Text → Option Text → Bool
is_uri uri none = false
is_uri uri (some initial) = text_eq initial uri

abbrev none_or_zero : Option ℕ → Bool
none_or_zero none = true
none_or_zero (some i) = i == 0

unfoldable pub is_skip_track : ConnectState → ProvidedTrack → Option ℕ → Bool
unfolding get_context find_entry
is_skip_track s t iteration = elim (get_context s.active_context s) [
  | err e ↦ false
  | ok c ↦
      if not (is_uri t.uri (find_entry initial_track_key c.metadata))
      then false
      else none_or_zero iteration
]

-- `player.context_metadata` holds the context's entries, or none.
unfoldable pub set_active_context : ContextType → ConnectState → ConnectState
unfolding get_context
set_active_context ty s =
    let reset = record s {
      active_context = ty;
      player = record s.player {
        context_metadata = [];
        context_restrictions = some no_restrictions;
        player_restrictions = some no_restrictions;
      };
    } in
    elim (get_context ty reset) [
      | err e ↦ reset
      | ok c ↦ record reset {
        player = record reset.player {
          player_restrictions = elim c.restrictions [
            | none ↦ some no_restrictions
            | some r ↦ some r
          ];
          context_metadata = c.metadata;
        };
      }
    ]

pub data ResetContext : Type 0 where
  completely default_index : ResetContext
  when_different : Text → ResetContext

unfoldable pub different_context_uri : Text → ConnectState → Bool
unfolding starts_with
different_context_uri uri s =
    not (text_eq s.player.context_uri uri) || starts_with uri (codes "spotify:search")

abbrev reset_kind : ResetContext → ConnectState → ResetContext
unfolding different_context_uri
reset_kind (when_different uri) s =
    if different_context_uri uri s then completely else when_different uri
reset_kind completely s = completely
reset_kind default_index s = default_index

-- The default context is put back in its order.
abbrev restore_order : ConnectState → Step (Unit {0})
unfolding unshuffle remove_entry
restore_order s = elim s.context [
  | none ↦ (ok tt, s)
  | some c ↦
      let metadata = remove_entry initial_track_key (remove_entry shuffle_seed c.metadata) in
      elim (unshuffle c.tracks) [
        | none ↦ (err panicked, s)
        | some tracks ↦
            (ok tt, record s { context = some (record c { tracks = tracks; metadata = metadata }) })
      ]
]

abbrev at_start : Option StateContext → Option StateContext
at_start none = none
at_start (some c) = some (record c { index = record { page = 0; track = 0 } })

abbrev reset_by : ResetContext → ConnectState → ConnectState
reset_by (when_different uri) s = s
reset_by completely s = record s {
  context = none;
  autoplay_context = none;
  player = record s.player { context_uri = []; context_url = [] };
}
reset_by default_index s = record s {
  context = at_start s.context;
  autoplay_context = at_start s.autoplay_context;
}

unfoldable pub reset_context : ResetContext → ConnectState → Step (Unit {0})
unfolding set_active_context update_restrictions restore_order reset_kind
reset_context reset_as s = and_next (restore_order s) (λ u s'.
    let s'' = record (reset_by (reset_kind reset_as s) s') { fill_up_context = default } in
    (ok tt, update_restrictions (set_active_context default s'')))

abbrev options_or_new : Option Options → Options
options_or_new none = record {
  shuffling_context = false;
  repeating_context = false;
  repeating_track = false;
}
options_or_new (some o) = o

abbrev pub options : ConnectState → Options
options s = options_or_new s.player.options

unfoldable pub repeat_context : ConnectState → Bool
repeat_context s = (options s).repeating_context

unfoldable pub repeat_track : ConnectState → Bool
repeat_track s = (options s).repeating_track

unfoldable pub shuffling_context : ConnectState → Bool
shuffling_context s = (options s).shuffling_context

-- The setters put new options in place of missing ones.
abbrev with_options : Options → ConnectState → ConnectState
with_options o s = record s { player = record s.player { options = some o } }

unfoldable pub set_repeat_context : Bool → ConnectState → ConnectState
set_repeat_context repeat s = with_options (record (options s) { repeating_context = repeat }) s

unfoldable pub set_repeat_track : Bool → ConnectState → ConnectState
set_repeat_track repeat s = with_options (record (options s) { repeating_track = repeat }) s

unfoldable pub set_shuffle : Bool → ConnectState → ConnectState
set_shuffle shuffle s = with_options (record (options s) { shuffling_context = shuffle }) s

unfoldable pub reset_options : ConnectState → ConnectState
unfolding set_repeat_context set_repeat_track set_shuffle
reset_options s = set_repeat_context false (set_repeat_track false (set_shuffle false s))
