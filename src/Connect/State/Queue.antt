-- ===== src/Connect/State/Queue.antt =====
-- What the changes of the queue do: `add_to_queue`, `clear_next_tracks` and `mark_unavailable`.
use mathlib.Core.List.{append-nil}
use librespot.Base.{
  ℕ, ◌+◌, ◌≡◌, ◌≢◌, refl, subst, sym, ap, ◌∙◌, inl, inr, Bool, true, false, not, List, [], ◌∷◌,
  ◌++◌, map, none, some, if◌then◌else◌, length, take, take-append, drop-append, All, Bool-cases,
  arith,
}
use librespot.Base.Text.{Text, codes, text_eq, text_eq_refl, text_eq→eq}
use librespot.Base.Dict.{find_entry-put_entry}
use librespot.Base.Result.{ok}
use librespot.Connect.Track.{
  from_queue, ProvidedTrack, is_queue, is_queued, set_provider, is_from_queue, set_from_queue,
  set_entry, get_bool,
}
use librespot.Connect.ShuffleVec.{position_from}
use librespot.Connect.State.{
  ContextType, default, autoplay, StateContext, ConnectState, and_next, Host, with_next_tracks,
}
use librespot.Connect.State.Context.{context_at}
use librespot.Connect.State.FillUp.{update_queue_revision}
use librespot.Connect.State.FillUp.Rounds.{IsFitting, SameTracks, vec_of, IsFitting-same, All-map}
use librespot.Connect.State.FillUp.Outcome.{fill_up_next_tracks_lem}
use librespot.Connect.State.FillUp.Unavailable.{fill_up-unavailable_uri}
use librespot.Connect.State.Edit.{
  queue_uid, first_not_queued, clear_next_tracks, insert_queued, queued_track, remove_uri,
  mark_as_unavailable_for_match, without_uri, note_unavailable, revise, mark_unavailable,
  add_to_queue,
}

abbrev pub AreQueued : List ProvidedTrack → Type 0
AreQueued tracks = All (λ t. is_queue t ≡ true) tracks

-- No track, or a first one that is not queued.
abbrev pub StartsUnqueued : List ProvidedTrack → Type 0
StartsUnqueued [] = Unit
StartsUnqueued (t ∷ tracks) = is_queue t ≡ false

position_from-unqueued :
    (at : ℕ) (queued : List ProvidedTrack) (t : ProvidedTrack) (rest : List ProvidedTrack)
    → AreQueued queued
    → is_queue t ≡ false
    → position_from (λ t. not (is_queue t)) at (queued ++ t ∷ rest) ≡ some (at + length queued)
unfolding position_from
position_from-unqueued at [] t rest h u = rw u (ap some (omega arith))
position_from-unqueued at (x ∷ queued) t rest (h, hs) u =
    rw h (position_from-unqueued (at + 1) queued t rest hs u ∙ ap some (omega arith))

position_from-queued :
    (at : ℕ) (queued : List ProvidedTrack)
    → AreQueued queued
    → position_from (λ t. not (is_queue t)) at queued ≡ none
unfolding position_from
position_from-queued at [] h = refl
position_from-queued at (x ∷ queued) (h, hs) = rw h (position_from-queued (at + 1) queued hs)

insert_queued_lem :
    (new : ProvidedTrack) (queued rest : List ProvidedTrack)
    → AreQueued queued
    → StartsUnqueued rest
    → insert_queued new (queued ++ rest) ≡ queued ++ new ∷ rest
unfolding insert_queued
insert_queued_lem new queued [] h u =
    ap (insert_queued new) (append-nil queued)
    ∙ rw (insert_queued, position_from-queued 0 queued h) refl
insert_queued_lem new queued (t ∷ rest) h u =
    let at : first_not_queued (queued ++ t ∷ rest) ≡ some (length queued) =
      position_from-unqueued 0 queued t rest h u ∙ ap some (omega arith) in
    rw
      (
        insert_queued,
        at,
        take-append (length queued) queued (t ∷ rest) refl,
        drop-append (length queued) queued (t ∷ rest) refl,
      )
      refl

abbrev flagged : ProvidedTrack → ProvidedTrack
flagged t = if is_from_queue t then t else set_from_queue t

flagged_lem :
    (t : ProvidedTrack)
    → ((flagged t).provider ≡ t.provider)
      × ((flagged t).uri ≡ t.uri)
      × (is_from_queue (flagged t) ≡ true)
unfolding is_from_queue set_from_queue set_entry get_bool
flagged_lem t = elim (Bool-cases (is_from_queue t)) [
  | inl e ↦ rw e (refl, refl, e)
  | inr e ↦ rw e (refl, refl, rw (find_entry-put_entry is_queued (codes "true") t.metadata) refl)
]

queued_track_lem :
    (count : ℕ) (t : ProvidedTrack)
    → ((queued_track count t).uri ≡ t.uri)
      × (is_queue (queued_track count t) ≡ true)
      × (is_from_queue (queued_track count t) ≡ true)
unfolding queued_track is_queue set_provider queue_uid
queued_track_lem count t =
    let t' = set_provider from_queue (record t { uid = queue_uid count }) in
    let (provider, uri, flag) = flagged_lem t' in
    (uri, ap (λ p. text_eq p (codes "queue")) provider, flag)

-- `clear_next_tracks` keeps exactly the queued tracks that stand first.
clear_next_tracks_lem :
    (s : ConnectState) (queued rest : List ProvidedTrack)
    → s.player.next_tracks ≡ queued ++ rest
    → AreQueued queued
    → StartsUnqueued rest
    → clear_next_tracks s ≡ with_next_tracks queued s
unfolding clear_next_tracks
clear_next_tracks_lem s queued [] e h u =
    let all = e ∙ append-nil queued in
    let none_found : first_not_queued s.player.next_tracks ≡ none =
      ap first_not_queued all ∙ position_from-queued 0 queued h in
    rw (clear_next_tracks, none_found) (ap (λ tracks. with_next_tracks tracks s) all)
clear_next_tracks_lem s queued (t ∷ rest) e h u =
    let at : first_not_queued s.player.next_tracks ≡ some (length queued) =
      ap first_not_queued e ∙ position_from-unqueued 0 queued t rest h u ∙ ap some (omega arith) in
    rw (clear_next_tracks, at)
      (ap (λ tracks. with_next_tracks tracks s)
        (ap (take (length queued)) e ∙ take-append (length queued) queued (t ∷ rest) refl))

module _ (host : Host) where
  -- `add_to_queue` puts the track, marked as queued, behind the queued tracks and before all others;
  -- the queue is cut at 80 tracks, and the previous tracks stay.
  pub add_to_queue_lem :
      (t : ProvidedTrack) (rev : Bool) (s : ConnectState) (queued rest : List ProvidedTrack)
      → s.player.next_tracks ≡ queued ++ rest
      → AreQueued queued
      → StartsUnqueued rest
      → (new : ProvidedTrack) × ((add_to_queue host t rev s).player.next_tracks
          ≡ take 80 (queued ++ new ∷ rest))
        × (new.uri ≡ t.uri)
        × (is_queue new ≡ true)
        × (is_from_queue new ≡ true)
        × ((add_to_queue host t rev s).player.prev_tracks ≡ s.player.prev_tracks)
  unfolding add_to_queue
  add_to_queue_lem t rev s queued rest e h u =
      let new = queued_track s.queue_count t in
      let (uri, is_q, flag) = queued_track_lem s.queue_count t in
      let queue : insert_queued new s.player.next_tracks ≡ queued ++ new ∷ rest =
        ap (insert_queued new) e ∙ insert_queued_lem new queued rest h u in
      elim (Bool-cases rev) [
        | inl b ↦ (new, rw b (ap (take 80) queue), uri, is_q, flag, rw b refl)
        | inr b ↦ (new, rw b (ap (take 80) queue), uri, is_q, flag, rw b refl)
      ]

remove_uri-free :
    (uri : Text) (tracks : List ProvidedTrack) → All (λ t. t.uri ≢ uri) (remove_uri uri tracks)
unfolding remove_uri
remove_uri-free uri [] = tt
remove_uri-free uri (t ∷ tracks) = elim (Bool-cases (text_eq t.uri uri)) [
  | inl e ↦ rw e (remove_uri-free uri tracks)
  | inr e ↦ rw e (
    (λ same. let yes : text_eq t.uri uri ≡ true = rw same (text_eq_refl uri) in cc),
    remove_uri-free uri tracks,
  )
]

mark-none :
    (uri : Text) (tracks : List ProvidedTrack)
    → All (λ t. t.uri ≢ uri) tracks
    → map (mark_as_unavailable_for_match uri) tracks ≡ tracks
unfolding mark_as_unavailable_for_match
mark-none uri [] h = refl
mark-none uri (t ∷ tracks) (h, hs) = elim (Bool-cases (text_eq t.uri uri)) [
  | inl e ↦ absurd (h (text_eq→eq t.uri uri e))
  | inr e ↦ rw e (ap (◌∷◌ t) (mark-none uri tracks hs))
]

-- Behind the removal the loops of `mark_unavailable` find no track to mark.
without_uri_lem :
    (uri : Text) (tracks : List ProvidedTrack) → without_uri uri tracks ≡ remove_uri uri tracks
unfolding without_uri
without_uri_lem uri tracks = mark-none uri (remove_uri uri tracks) (remove_uri-free uri tracks)

noted_context :
    (uri : Text) (s : ConnectState) (ty : ContextType)
    → context_at ty (note_unavailable uri s) ≡ context_at ty s
unfolding note_unavailable
noted_context uri s default = refl
noted_context uri s autoplay = refl

noted_tracks : (uri : Text) (s : ConnectState) → SameTracks s (note_unavailable uri s)
noted_tracks uri s ty = ap vec_of (noted_context uri s ty)

module _ (host : Host) where
  -- `mark_unavailable` with a context to fill up from succeeds: the previous tracks are those with
  -- another uri, in their order, and so are the first of the next tracks; behind them only tracks of
  -- the fill-up stand; and the uri is added to the unavailable ones.
  pub mark_unavailable_lem :
      (uri : Text) (s : ConnectState) (c : StateContext)
      → context_at s.fill_up_context s ≡ some c
      → (s' : ConnectState) × (added : List ProvidedTrack) × (mark_unavailable host uri s
          ≡ (ok tt, s'))
        × (s'.player.prev_tracks ≡ remove_uri uri s.player.prev_tracks)
        × All (λ t. t.uri ≢ uri) s'.player.prev_tracks
        × (s'.player.next_tracks ≡ remove_uri uri s.player.next_tracks ++ added)
        × All (λ t. t.uri ≢ uri) (remove_uri uri s.player.next_tracks)
        × All (IsFitting s) added
        × (s'.unavailable_uri ≡ s.unavailable_uri ++ uri ∷ [])
  unfolding mark_unavailable note_unavailable revise update_queue_revision
  mark_unavailable_lem uri s c m =
      let noted = note_unavailable uri s in
      let there : context_at noted.fill_up_context noted ≡ some c =
        noted_context uri s s.fill_up_context ∙ m in
      let prev = without_uri_lem uri s.player.prev_tracks in
      let next = without_uri_lem uri s.player.next_tracks in
      elim (fill_up_next_tracks_lem host noted) [
        | inl (n, e) ↦ cc
        | inr (s', added, e, p, fit, same, bound, last) ↦
            let kept : s'.player.prev_tracks ≡ remove_uri uri s.player.prev_tracks =
              ap (λ p. p.prev_tracks) p ∙ prev in
            (
              update_queue_revision host s',
              added,
              ap (λ r. and_next r (revise host)) e,
              kept,
              subst (All (λ t. t.uri ≢ uri)) (sym kept) (remove_uri-free uri s.player.prev_tracks),
              ap (λ p. p.next_tracks) p ∙ ap (λ tracks. tracks ++ added) next,
              remove_uri-free uri s.player.next_tracks,
              All-map (IsFitting-same s noted (noted_tracks uri s)) added fit,
              ap (λ r. r.1.unavailable_uri) (sym e) ∙ fill_up-unavailable_uri host noted,
            )
      ]
