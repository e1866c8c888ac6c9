-- ===== src/Connect/State/Reachable.antt =====
-- Every state that the operations reach keeps the bounds of the queue.
use librespot.Base.{ℕ, ◌≤◌, Bool, List, Option, length}
use librespot.Base.Text.{Text}
use librespot.Connect.Track.{ProvidedTrack}
use librespot.Connect.ShuffleVec.{Rng}
use librespot.Connect.State.{ContextType, ConnectState, Host, max_next_tracks, max_prev_tracks}
use librespot.Connect.State.FillUp.{fill_up_next_tracks}
use librespot.Connect.State.Move.{set_current_track, next_track, prev_track}
use librespot.Connect.State.Edit.{
  clear_next_tracks, mark_unavailable, add_to_queue, reset_playback_to_position, shuffle,
  PlayStatus, set_status,
}
use librespot.Connect.State.Bounds.{
  IsBounded, IsBounded-same, set_current_track-same, clear_next_tracks-IsBounded,
}
use librespot.Connect.State.Preserved.{
  fill_up-IsBounded, next_track-IsBounded, prev_track-IsBounded, mark_unavailable-IsBounded,
  add_to_queue-IsBounded, reset-IsBounded, shuffle-IsBounded, set_status-same,
}
use librespot.Connect.State.Handle.{
  handle_set_queue, handle_set_queue-IsBounded, handle_shuffle, handle_set_repeat_context,
  handle_shuffle-IsBounded, handle_set_repeat_context-IsBounded,
}
use librespot.Connect.Update.{Context, ContextPage}
use librespot.Connect.Update.Pages.{update_context, fill_context_from_page}
use librespot.Connect.Update.Merge.{merge_context}
use librespot.Connect.Update.Bounded.{
  update_context-IsBounded, fill_context_from_page-IsBounded, merge_context-IsBounded,
}

-- One operation of the connect state, whether it succeeds or fails.
pub data Operation (host : Host) (rng : Rng) (s : ConnectState) : ConnectState → Type 0 where
  skip_next : Operation host rng s (next_track host s).1
  skip_prev : Operation host rng s (prev_track host s).1
  fill_up : Operation host rng s (fill_up_next_tracks host s).1
  jump : (index : ℕ) → Operation host rng s (set_current_track index s).1
  queue_up : (t : ProvidedTrack) (rev : Bool) → Operation host rng s (add_to_queue host t rev s)
  lose : (uri : Text) → Operation host rng s (mark_unavailable host uri s).1
  clear_next : Operation host rng s (clear_next_tracks s)
  reset_to : (index : Option ℕ) → Operation host rng s (reset_playback_to_position host index s).1
  mix : (seed : ℕ) (uri : Text) → Operation host rng s (shuffle host rng seed uri s).1
  toggle_shuffle :
      (seed : ℕ) (shuffle : Bool) → Operation host rng s (handle_shuffle host rng seed shuffle s).1
  toggle_repeat : (repeat : Bool) → Operation host rng s (handle_set_repeat_context host repeat s).1
  load :
      (new_uuid : ℕ → ℕ → Text) (context : Context) (ty : ContextType)
      → Operation host rng s (update_context new_uuid context ty s).1
  extend :
      (new_uuid : ℕ → Text) (page : ContextPage)
      → Operation host rng s (fill_context_from_page new_uuid page s).1
  merge : (page : Option ContextPage) → Operation host rng s (merge_context page s).1
  set_queue :
      (next_tracks prev_tracks : List ProvidedTrack)
      → Operation host rng s (handle_set_queue host next_tracks prev_tracks s)
  play : (status : PlayStatus) → Operation host rng s (set_status status s)

-- The states behind a sequence of operations.
pub data Reaches (host : Host) (rng : Rng) (s : ConnectState) : ConnectState → Type 0 where
  here : Reaches host rng s s
  after :
      {s' s'' : ConnectState}
      → Reaches host rng s s'
      → Operation host rng s' s''
      → Reaches host rng s s''

module _ (host : Host) (rng : Rng) where
  -- A queue that is set as a whole has at most 80 next and 10 previous tracks.
  abbrev Fits : {s s' : ConnectState} → Operation host rng s s' → Type 0
  Fits (set_queue next prev) = (length next ≤ max_next_tracks) × (length prev ≤ max_prev_tracks)
  Fits op = Unit

  -- All queues that are set in a sequence of operations fit.
  abbrev pub QueuesFit : {s s' : ConnectState} → Reaches host rng s s' → Type 0
  QueuesFit here = Unit
  QueuesFit (after run op) = QueuesFit run × Fits op

  Operation-IsBounded :
      {s s' : ConnectState} → (op : Operation host rng s s') → Fits op → IsBounded s → IsBounded s'
  Operation-IsBounded {s} skip_next f b = next_track-IsBounded host s b
  Operation-IsBounded {s} skip_prev f b = prev_track-IsBounded host s b
  Operation-IsBounded {s} fill_up f b = fill_up-IsBounded host s b
  Operation-IsBounded {s} (jump i) f b =
      IsBounded-same s (set_current_track i s).1 (set_current_track-same i s) b
  Operation-IsBounded {s} (queue_up t rev) f b = add_to_queue-IsBounded host t rev s b
  Operation-IsBounded {s} (lose uri) f b = mark_unavailable-IsBounded host uri s b
  Operation-IsBounded {s} clear_next f b = clear_next_tracks-IsBounded s b
  Operation-IsBounded {s} (reset_to i) f b = reset-IsBounded host i s b
  Operation-IsBounded {s} (mix seed uri) f b = shuffle-IsBounded host rng seed uri s b
  Operation-IsBounded {s} (toggle_shuffle seed on) f b =
      handle_shuffle-IsBounded host rng seed on s b
  Operation-IsBounded {s} (toggle_repeat on) f b = handle_set_repeat_context-IsBounded host on s b
  Operation-IsBounded {s} (load new_uuid context ty) f b =
      update_context-IsBounded new_uuid context ty s b
  Operation-IsBounded {s} (extend new_uuid page) f b =
      fill_context_from_page-IsBounded new_uuid page s b
  Operation-IsBounded {s} (merge page) f b = merge_context-IsBounded page s b
  Operation-IsBounded {s} (set_queue next prev) f b = handle_set_queue-IsBounded host next prev s f
  Operation-IsBounded {s} (play status) f b =
      IsBounded-same s (set_status status s) (set_status-same status s) b

  -- However the operations of `Operation` follow each other, and whether they fail or not, a state
  -- with at most 10 previous and 80 next tracks is followed only by such states, if the lists that
  -- `handle_set_queue` gets have at most as many: it does not cut them.
  pub Reaches-IsBounded :
      {s s' : ConnectState} (run : Reaches host rng s s')
      → QueuesFit run
      → IsBounded s
      → IsBounded s'
  Reaches-IsBounded here f b = b
  Reaches-IsBounded (after run op) (f, g) b = Operation-IsBounded op g (Reaches-IsBounded run f b)
