-- ===== src/Connect/State/Bounds.antt =====
-- The bounds of the queue: 10 previous and 80 next tracks.
use mathlib.Core.List.{reverse}
use librespot.Base.{
  ℕ, zero, suc, ◌-◌, ◌≤◌, ◌≡◌, refl, ap, inl, inr, false, List, [], ◌∷◌, Option, none, some, leb,
  if◌then◌else◌, length, length-append, length-drop, length-reverse, take, drop, Option-cases,
  Bool-cases, arith,
}
use librespot.Base.Text.{Text}
use librespot.Base.Result.{ok, err}
use librespot.Connect.Track.{ProvidedTrack}
use librespot.Connect.State.{
  ContextType, PlayerState, ConnectState, Step, and_next, max_next_tracks, max_prev_tracks,
  set_track, update_current_index,
}
use librespot.Connect.State.Context.{
  context_at, get_context, update_context_index, repeat_track, set_repeat_track, set_active_context,
  reset_context, default_index,
}
use librespot.Connect.State.Restrict.{update_restrictions}
use librespot.Connect.State.Move.{
  index_back, leave_autoplay, push_prev, find_next, take_current, push_old, insert_old,
  move_delimiter, last_of, leave_track, index_next, step_back, set_current_track,
}
use librespot.Connect.State.Edit.{
  first_not_queued, load_prev, clear_next_tracks, remove_uri, without_uri, tracks_before,
}

abbrev pub IsBoundedPlayer : PlayerState → Type 0
IsBoundedPlayer p =
    (length p.prev_tracks ≤ max_prev_tracks) × (length p.next_tracks ≤ max_next_tracks)

abbrev pub IsBounded : ConnectState → Type 0
IsBounded s = IsBoundedPlayer s.player

-- Two states with the same queues.
abbrev pub SameQueues : ConnectState → ConnectState → Type 0
SameQueues s s' =
    (s'.player.prev_tracks ≡ s.player.prev_tracks) × (s'.player.next_tracks ≡ s.player.next_tracks)

pub IsBounded-same : (s s' : ConnectState) → SameQueues s s' → IsBounded s → IsBounded s'
IsBounded-same s s' (p, n) (b, c) = (omega (arith, b, ap length p), omega (arith, c, ap length n))

pub length-take {ℓ} :
    {A : Type ℓ} (n : ℕ) (xs : List A) → (length (take n xs) ≤ n) × (length (take n xs) ≤ length xs)
length-take zero xs = (omega arith, omega arith)
length-take (suc n) [] = (omega arith, omega arith)
length-take (suc n) (x ∷ xs) = let (a, b) = length-take n xs in (omega (arith, a), omega (arith, b))

length-push_prev :
    (t : ProvidedTrack) (prev : List ProvidedTrack)
    → length prev ≤ max_prev_tracks
    → length (push_prev t prev) ≤ max_prev_tracks
unfolding push_prev
length-push_prev t prev h = elim (Bool-cases (leb max_prev_tracks (length prev))) [
  | inl e ↦ rw e (omega (arith, h, length-append (drop 1 prev) (t ∷ []), length-drop 1 prev))
  | inr e ↦ ground (arith, length-append prev (t ∷ []))
]

pub find_next-bounds :
    (next prev : List ProvidedTrack)
    → length prev ≤ max_prev_tracks
    → (length (find_next next prev).1 ≤ length next)
      × (length (find_next next prev).2 ≤ max_prev_tracks)
unfolding find_next
find_next-bounds [] prev h = (omega arith, h)
find_next-bounds (t ∷ next) prev h =
    let passed = find_next-bounds next (push_prev t prev) (length-push_prev t prev h) in
    let skipped = find_next-bounds next prev h in ground arith

update_restrictions-same : (s : ConnectState) → SameQueues s (update_restrictions s)
unfolding update_restrictions
update_restrictions-same s = (refl, refl)

set_active_context-same :
    (ty : ContextType) (s : ConnectState) → SameQueues s (set_active_context ty s)
unfolding set_active_context
set_active_context-same ty s = ground arith

pub index_next-same : (t : ProvidedTrack) (s : ConnectState) → SameQueues s (index_next t s)
unfolding index_next set_active_context update_current_index
index_next-same t s = ground arith

push_old-IsBounded :
    (o : Option ProvidedTrack) (s : ConnectState) → IsBounded s → IsBounded (push_old o s)
unfolding push_old
push_old-IsBounded none s b = b
push_old-IsBounded (some t) s (b, c) = ground (arith, length-push_prev t s.player.prev_tracks b)

pub leave_track-IsBounded : (s : ConnectState) → IsBounded s → IsBounded (leave_track s)
unfolding leave_track set_repeat_track
leave_track-IsBounded s b =
    let s' = if repeat_track s then set_repeat_track false s else s in
    let kept : IsBounded s' = elim (Bool-cases (repeat_track s)) [
      | inl e ↦ rw e b
      | inr e ↦ rw e b
    ] in
    push_old-IsBounded s'.player.current (take_current s') kept

insert_old-prev :
    (o : Option ProvidedTrack) (s : ConnectState)
    → (insert_old o s).player.prev_tracks ≡ s.player.prev_tracks
unfolding insert_old
insert_old-prev none s = refl
insert_old-prev (some t) s = ground arith

move_delimiter-prev :
    (o : Option ProvidedTrack) (s : ConnectState)
    → length s.player.prev_tracks ≤ max_prev_tracks
    → length (move_delimiter o s).player.prev_tracks ≤ max_prev_tracks
unfolding move_delimiter
move_delimiter-prev none s b = b
move_delimiter-prev (some t) s b =
    ground (arith, length-take (length s.player.prev_tracks - 1) s.player.prev_tracks)

pub step_back-IsBounded : (s : ConnectState) → IsBounded s → IsBounded (step_back s)
unfolding step_back
step_back-IsBounded s (b, c) =
    let s' = insert_old s.player.current (take_current s) in
    let kept = insert_old-prev s.player.current (take_current s) in
    (
      move_delimiter-prev (last_of s'.player.prev_tracks) s' (omega (arith, b, ap length kept)),
      (length-take max_next_tracks _).0,
    )

pub and_next-IsBounded {ℓ κ} :
    {A : Type ℓ} {B : Type κ} (m : Step A) (f : A → ConnectState → Step B)
    → IsBounded m.1
    → ((a : A) (s : ConnectState) → IsBounded s → IsBounded (f a s).1)
    → IsBounded (and_next m f).1
and_next-IsBounded (ok a, s) f b h = h a s b
and_next-IsBounded (err e, s) f b h = b

pub leave_autoplay-same : (t : ProvidedTrack) (s : ConnectState) → SameQueues s (leave_autoplay t s)
unfolding leave_autoplay set_active_context
leave_autoplay-same t s = ground arith

pub index_back-same : (s : ConnectState) → SameQueues s (index_back s)
unfolding index_back update_current_index
index_back-same s = ground arith

pub update_context_index-same :
    (ty : ContextType) (i : ℕ) (s : ConnectState) → SameQueues s (update_context_index ty i s).1
unfolding update_context_index
update_context_index-same ty i s = ground arith

pub set_current_track-same : (i : ℕ) (s : ConnectState) → SameQueues s (set_current_track i s).1
unfolding set_current_track set_track update_current_index
set_current_track-same i s = ground arith

pub reset_context-same : (s : ConnectState) → SameQueues s (reset_context default_index s).1
unfolding reset_context
reset_context-same s = ground arith

pub clear_next_tracks-IsBounded : (s : ConnectState) → IsBounded s → IsBounded (clear_next_tracks s)
unfolding clear_next_tracks
clear_next_tracks-IsBounded s (b, c) = elim (Option-cases (first_not_queued s.player.next_tracks)) [
  | inl e ↦ rw (clear_next_tracks, e) (b, c)
  | inr (n, e) ↦
      rw (clear_next_tracks, e) (b, omega (arith, c, (length-take n s.player.next_tracks).1))
]

pub length-without_uri :
    (uri : Text) (tracks : List ProvidedTrack) → length (without_uri uri tracks) ≤ length tracks
unfolding without_uri remove_uri
length-without_uri uri [] = omega arith
length-without_uri uri (t ∷ tracks) = ground (arith, length-without_uri uri tracks)

length-tracks_before :
    (n : ℕ) (tracks : List ProvidedTrack) → length (tracks_before n tracks) ≤ max_prev_tracks
unfolding tracks_before
length-tracks_before n tracks =
    let chosen = drop (length tracks - n) (reverse tracks) in
    omega
      (arith, length-reverse (take max_prev_tracks chosen), (length-take max_prev_tracks chosen).0)

pub load_prev-IsBounded : (n : ℕ) (s : ConnectState) → IsBounded s → IsBounded (load_prev n s).1
unfolding load_prev get_context
load_prev-IsBounded n s b = elim (Option-cases (context_at s.active_context s)) [
  | inl e ↦ rw (load_prev, e) b
  | inr (c, e) ↦ ground (arith, length-tracks_before n c.tracks.vec)
]
