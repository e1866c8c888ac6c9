-- ===== src/Connect/State/Examples.antt =====
-- A player with a context of three tracks, one of which is queued as well.
use librespot.Base.{
  ℕ, ◌≡◌, ◌≢◌, refl, ◌⊎◌, true, false, List, [], ◌∷◌, ◌++◌, none, some, take, All, ◌||◌, arith,
}
use librespot.Base.Text.{Text, codes}
use librespot.Base.Result.{ok, err}
use librespot.Connect.Track.{
  ProvidedTrack, Provider, from_context, from_queue, provider_name, is_queue, is_from_queue,
  is_delimiter, is_unavailable,
}
use librespot.Connect.ShuffleVec.{Rng, from_vec}
use librespot.Connect.State.{default, StateContext, ConnectState, no_context, Host}
use librespot.Connect.State.Context.{context_at}
use librespot.Connect.State.FillUp.{fill_up_next_tracks}
use librespot.Connect.State.FillUp.Rounds.{IsFitting}
use librespot.Connect.State.FillUp.Outcome.{IsFilledUp, fill_up_next_tracks_lem}
use librespot.Connect.State.Move.{next_track, prev_track}
use librespot.Connect.State.Back.{with_old, prev_track_lem}
use librespot.Connect.State.Edit.{remove_uri, mark_unavailable, add_to_queue}
use librespot.Connect.State.Bounds.{IsBounded}
use librespot.Connect.State.Reachable.{here, after, skip_next, set_queue, Reaches-IsBounded}
use librespot.Connect.State.Handle.{handle_set_queue}
use librespot.Connect.State.Queue.{add_to_queue_lem, mark_unavailable_lem}
use librespot.Connect.State.Skip.{next_track_lem}

abbrev host : Host
host = record { queue_hash = λ uris. [] }

abbrev counter : Rng
counter = record { State = ℕ; seed_from_u64 = λ n. n; random_below = λ s n. (0, s) }

abbrev song : Text → Provider → ProvidedTrack
unfolding provider_name
song uri provider = record {
  uri = uri;
  uid = uri;
  provider = provider_name provider;
  metadata = [];
}

abbrev song_a : ProvidedTrack
song_a = song (codes "a") from_context

abbrev song_b : ProvidedTrack
song_b = song (codes "b") from_context

abbrev song_c : ProvidedTrack
song_c = song (codes "c") from_context

abbrev wish : ProvidedTrack
wish = song (codes "q") from_queue

abbrev album : StateContext
album = record {
  tracks = from_vec (song_a ∷ song_b ∷ song_c ∷ []);
  metadata = [];
  restrictions = none;
  index = record { page = 0; track = 2 };
}

abbrev sample : ConnectState
sample = record {
  player = record {
    options = none;
    current = some song_a;
    prev_tracks = [];
    next_tracks = wish ∷ song_b ∷ [];
    player_index = none;
    player_restrictions = none;
    context_restrictions = none;
    context_metadata = [];
    context_uri = [];
    context_url = [];
    queue_revision = [];
    playing = true;
    paused = false;
    buffering = false;
  };
  unavailable_uri = [];
  queue_count = 1;
  active_context = default;
  fill_up_context = default;
  context = some album;
  autoplay_context = none;
}

filled_runs : (fill_up_next_tracks host sample).1.player.next_tracks ≡ wish ∷ song_b ∷ song_c ∷ []
unfolding fill_up_next_tracks from_vec
filled_runs = refl

fill_up_next_tracks_example :
    ((context_at default sample ≡ none)
      × (fill_up_next_tracks host sample ≡ (err (no_context default), sample)))
    ⊎ IsFilledUp host sample (fill_up_next_tracks host sample)
fill_up_next_tracks_example = fill_up_next_tracks_lem host sample

Reaches-IsBounded_example :
    IsBounded
      (next_track host (handle_set_queue host (song_b ∷ []) [] (next_track host sample).1)).1
Reaches-IsBounded_example =
    Reaches-IsBounded host counter
      (after (after (after here skip_next) (set_queue (song_b ∷ []) [])) skip_next)
      (((tt, tt), (omega arith, omega arith)), tt) ((omega arith), (omega arith))

wish_is_queued : is_queue wish ≡ true
unfolding is_queue
wish_is_queued = refl

song_b_is_not : is_queue song_b ≡ false
unfolding is_queue
song_b_is_not = refl

wish_is_playable : (is_delimiter wish || is_unavailable wish) ≡ false
unfolding is_delimiter song is_unavailable
wish_is_playable = refl

add_to_queue_example :
    (new : ProvidedTrack) × ((add_to_queue host song_c true sample).player.next_tracks
      ≡ take 80 (wish ∷ new ∷ song_b ∷ []))
    × (new.uri ≡ song_c.uri)
    × (is_queue new ≡ true)
    × (is_from_queue new ≡ true)
    × ((add_to_queue host song_c true sample).player.prev_tracks ≡ [])
add_to_queue_example =
    add_to_queue_lem host song_c true sample (wish ∷ []) (song_b ∷ []) refl (wish_is_queued, tt)
      song_b_is_not

mark_unavailable_example :
    (s' : ConnectState) × (added : List ProvidedTrack) × (mark_unavailable host (codes "b") sample
      ≡ (ok tt, s'))
    × (s'.player.prev_tracks ≡ remove_uri (codes "b") [])
    × All (λ t. t.uri ≢ codes "b") s'.player.prev_tracks
    × (s'.player.next_tracks ≡ remove_uri (codes "b") (wish ∷ song_b ∷ []) ++ added)
    × All (λ t. t.uri ≢ codes "b") (remove_uri (codes "b") (wish ∷ song_b ∷ []))
    × All (IsFitting sample) added
    × (s'.unavailable_uri ≡ codes "b" ∷ [])
mark_unavailable_example = mark_unavailable_lem host (codes "b") sample album refl

next_track_example :
    (s' : ConnectState) × (added : List ProvidedTrack) × (index : ℕ) × (next_track host sample
      ≡ (ok (some index), s'))
    × (s'.player.current ≡ some wish)
    × (s'.player.next_tracks ≡ (song_b ∷ []) ++ added)
    × All (IsFitting sample) added
next_track_example =
    next_track_lem host sample album [] wish (song_b ∷ []) refl refl tt wish_is_playable

abbrev moved : ConnectState
moved = record sample { player = record sample.player { prev_tracks = song_c ∷ song_b ∷ [] } }

song_b_is_no_delimiter : is_delimiter song_b ≡ false
unfolding is_delimiter song
song_b_is_no_delimiter = refl

prev_track_example :
    (s' : ConnectState) × (added : List ProvidedTrack) × (prev_track host moved
      ≡ (ok (some song_b), s'))
    × (s'.player.current ≡ some song_b)
    × (s'.player.prev_tracks ≡ song_c ∷ [])
    × (s'.player.next_tracks ≡ take 80 (with_old (some song_a) (wish ∷ song_b ∷ [])) ++ added)
    × All (IsFitting moved) added
prev_track_example =
    prev_track_lem host moved album (song_c ∷ []) song_b refl refl song_b_is_no_delimiter
