-- ===== src/Connect/State/Preserved.antt =====
-- Each operation of the connect state keeps the bounds of the queue.
use librespot.Base.{
  ℕ, ◌+◌, ◌-◌, refl, ap, inl, inr, Bool, true, false, [], Option, none, some, ◌==◌, if◌then◌else◌,
  length, Bool-cases, arith,
}
use librespot.Base.Text.{Text}
use librespot.Base.Result.{ok}
use librespot.Connect.Track.{ProvidedTrack}
use librespot.Connect.ShuffleVec.{Rng}
use librespot.Connect.State.{
  ConnectState, as_u32, max_next_tracks, Host, with_next_tracks, with_prev_tracks, set_track,
  update_current_index,
}
use librespot.Connect.State.Context.{update_context_index, reset_context, default_index}
use librespot.Connect.State.FillUp.{update_queue_revision, fill_up_next_tracks}
use librespot.Connect.State.FillUp.Outcome.{fill_up_next_tracks_lem}
use librespot.Connect.State.Move.{
  play_next, play_prev, index_back, leave_autoplay, find_next, last_of, without_last, leave_track,
  index_next, step_back, set_current_track, next_track, prev_track,
}
use librespot.Connect.State.Edit.{
  load_prev, keeps_track, shuffle_default, clear_next_tracks, insert_queued, queued_track,
  mark_unavailable, add_to_queue, reset_playback_to_position, shuffle, PlayStatus, set_status,
}
use librespot.Connect.State.Edit.{
  restrict, reset_queue, reset_prev, reset_track, shuffle_and_fill, note_unavailable, revise,
}
use librespot.Connect.State.Move.{arrive, return_to}
use librespot.Connect.State.Bounds.{
  IsBounded, SameQueues, IsBounded-same, and_next-IsBounded, find_next-bounds,
  leave_track-IsBounded, step_back-IsBounded, index_next-same, leave_autoplay-same, index_back-same,
  update_context_index-same, set_current_track-same, reset_context-same,
  clear_next_tracks-IsBounded, length-without_uri, load_prev-IsBounded, length-take,
}

module _ (host : Host) where
  pub fill_up-IsBounded :
      (s : ConnectState) → IsBounded s → IsBounded (fill_up_next_tracks host s).1
  fill_up-IsBounded s (b, c) = elim (fill_up_next_tracks_lem host s) [
    | inl (m, e) ↦ rw e (b, c)
    | inr (s', added, e, p, fit, same, bound, last) ↦
        rw e (omega (arith, b, ap (λ p. length p.prev_tracks) p), omega (arith, bound, c))
  ]

  pub play_next-IsBounded :
      (o : Option ProvidedTrack) (s : ConnectState) → IsBounded s → IsBounded (play_next host o s).1
  unfolding play_next arrive
  play_next-IsBounded none s b = b
  play_next-IsBounded (some t) s b =
      and_next-IsBounded (fill_up_next_tracks host s) (arrive t) (fill_up-IsBounded s b)
        (λ u s' b'. IsBounded-same s' (index_next t s') (index_next-same t s') b')

  pub next_track-IsBounded : (s : ConnectState) → IsBounded s → IsBounded (next_track host s).1
  unfolding next_track
  next_track-IsBounded s b =
      let s' = leave_track s in
      let (p, n) = leave_track-IsBounded s b in
      let (l, r) = find_next-bounds s'.player.next_tracks s'.player.prev_tracks p in
      let (found, next, prev) = find_next s'.player.next_tracks s'.player.prev_tracks in
      play_next-IsBounded found (with_next_tracks next (with_prev_tracks prev s'))
        (r, omega (arith, l, n))

  pub play_prev-IsBounded :
      (o : Option ProvidedTrack) (s : ConnectState) → IsBounded s → IsBounded (play_prev host o s).1
  unfolding play_prev return_to
  play_prev-IsBounded none s b = b
  play_prev-IsBounded (some t) s (b, c) =
      let s' = with_prev_tracks (without_last s.player.prev_tracks) s in
      let less = length-take (length s.player.prev_tracks - 1) s.player.prev_tracks in
      and_next-IsBounded (fill_up_next_tracks host (leave_autoplay t s')) (return_to t)
        (fill_up-IsBounded (leave_autoplay t s') (
          IsBounded-same s' (leave_autoplay t s') (leave_autoplay-same t s')
            (omega (arith, b, less.1), c)))
        (λ u s'' b'.
          IsBounded-same s'' (index_back (set_track t s'')) (index_back-same (set_track t s'')) b')

  pub prev_track-IsBounded : (s : ConnectState) → IsBounded s → IsBounded (prev_track host s).1
  unfolding prev_track
  prev_track-IsBounded s b =
      play_prev-IsBounded (last_of (step_back s).player.prev_tracks) (step_back s)
        (step_back-IsBounded s b)

  pub mark_unavailable-IsBounded :
      (uri : Text) (s : ConnectState) → IsBounded s → IsBounded (mark_unavailable host uri s).1
  unfolding mark_unavailable revise update_queue_revision
  mark_unavailable-IsBounded uri s (b, c) =
      and_next-IsBounded (fill_up_next_tracks host (note_unavailable uri s)) (revise host)
        (fill_up-IsBounded (note_unavailable uri s) (
          omega (arith, b, length-without_uri uri s.player.prev_tracks),
          omega (arith, c, length-without_uri uri s.player.next_tracks),
        ))
        (λ u s' b'. b')

  pub add_to_queue-IsBounded :
      (t : ProvidedTrack) (rev : Bool) (s : ConnectState)
      → IsBounded s
      → IsBounded (add_to_queue host t rev s)
  unfolding add_to_queue update_queue_revision
  add_to_queue-IsBounded t true s (b, c) =
      let queue = insert_queued (queued_track s.queue_count t) s.player.next_tracks in
      (b, (length-take max_next_tracks queue).0)
  add_to_queue-IsBounded t false s (b, c) =
      let queue = insert_queued (queued_track s.queue_count t) s.player.next_tracks in
      (b, (length-take max_next_tracks queue).0)

  pub reset_queue-IsBounded : (s : ConnectState) → IsBounded s → IsBounded (reset_queue host tt s).1
  unfolding reset_queue restrict
  reset_queue-IsBounded s b =
      and_next-IsBounded (fill_up_next_tracks host (clear_next_tracks s)) restrict
        (fill_up-IsBounded (clear_next_tracks s) (clear_next_tracks-IsBounded s b)) (λ u s' b'. b')

  pub reset_prev-IsBounded :
      (n : ℕ) (s : ConnectState) → IsBounded s → IsBounded (reset_prev host n tt s).1
  unfolding reset_prev
  reset_prev-IsBounded n s (b, c) =
      let s' = with_prev_tracks [] s in
      let kept = load_prev-IsBounded n s' (omega arith, c) in
      and_next-IsBounded (if n == 0 then (ok tt, s') else load_prev n s') (reset_queue host)
        (elim (Bool-cases (n == 0)) [ inl e ↦ rw e (omega arith, c) | inr e ↦ rw e kept ])
        (λ u s'' b'. reset_queue-IsBounded s'' b')

  pub reset_track-IsBounded :
      (n : ℕ) (s : ConnectState) → IsBounded s → IsBounded (reset_track host n tt s).1
  unfolding reset_track
  reset_track-IsBounded n s b =
      let s' = record s { fill_up_context = s.active_context } in
      let kept = IsBounded-same s' (set_current_track n s').1 (set_current_track-same n s') b in
      and_next-IsBounded (if keeps_track s' then (ok tt, s') else set_current_track n s')
        (reset_prev host n)
        (elim (Bool-cases (keeps_track s')) [ inl e ↦ rw e b | inr e ↦ rw e kept ])
        (λ u s'' b'. reset_prev-IsBounded n s'' b')

  pub reset-IsBounded :
      (i : Option ℕ) (s : ConnectState)
      → IsBounded s
      → IsBounded (reset_playback_to_position host i s).1
  unfolding reset_playback_to_position update_current_index
  reset-IsBounded index s b =
      let n : ℕ = elim index [ none ↦ 0 | some i ↦ i ] in
      let s' = update_current_index (λ i. record i { track = as_u32 n }) s in
      let kept = update_context_index-same s'.active_context (n + 1) s' in
      and_next-IsBounded (update_context_index s'.active_context (n + 1) s') (reset_track host n)
        (IsBounded-same s' (update_context_index s'.active_context (n + 1) s').1 kept b)
        (λ u s'' b'. reset_track-IsBounded n s'' b')

pub set_status-same : (status : PlayStatus) (s : ConnectState) → SameQueues s (set_status status s)
unfolding set_status
set_status-same status s = (refl, refl)

module _ (rng : Rng) where
  pub shuffle_default-same :
      (seed : ℕ) (uri : Text) (s : ConnectState) → SameQueues s (shuffle_default rng seed uri s).1
  unfolding shuffle_default
  shuffle_default-same seed uri s = ground arith

module _ (host : Host) (rng : Rng) where
  pub shuffle-IsBounded :
      (seed : ℕ) (uri : Text) (s : ConnectState)
      → IsBounded s
      → IsBounded (shuffle host rng seed uri s).1
  unfolding shuffle shuffle_and_fill
  shuffle-IsBounded seed uri s (b, c) =
      let s' = clear_next_tracks (with_prev_tracks [] s) in
      and_next-IsBounded (reset_context default_index s') (shuffle_and_fill host rng seed uri)
        (IsBounded-same s' (reset_context default_index s').1 (reset_context-same s')
          (clear_next_tracks-IsBounded (with_prev_tracks [] s) (omega arith, c)))
        (λ u s₁ b₁.
          and_next-IsBounded (shuffle_default rng seed uri s₁) (λ u s₂. fill_up_next_tracks host s₂)
            (IsBounded-same s₁ (shuffle_default rng seed uri s₁).1
              (shuffle_default-same rng seed uri s₁) b₁)
            (λ u s₂ b₂. fill_up-IsBounded host s₂ b₂))
