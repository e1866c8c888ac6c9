-- ===== src/Connect/State/FillUp/Unavailable.antt =====
-- connect/src/state/tracks.rs: filling up keeps the list of the unavailable tracks.
use librespot.Base.{
  ℕ, zero, suc, ◌≡◌, refl, ◌∙◌, inl, inr, ◌+◌, ◌%◌, ◌^◌, List, false, leb, length, Option-cases,
  Bool-cases, get_elem?, arith,
}
use librespot.Base.Text.{Text}
use librespot.Connect.Track.{ProvidedTrack}
use librespot.Base.Result.{ok, err}
use librespot.Connect.State.{
  StateError, ContextType, default, autoplay, StateContext, ConnectState, Step, and_next,
  max_next_tracks, Host,
}
use librespot.Connect.State.Context.{context_at, set_context_at, get_context, update_context_index}
use librespot.Connect.State.FillUp.{
  Round, push, skip, break, fail, fill_round, at_end, to_autoplay, fill_loop, rounds_left, add_next,
  update_queue_revision, fill_up_next_tracks,
}

set_context_at-unavailable_uri :
    (ty : ContextType) (c : StateContext) (s : ConnectState)
    → (set_context_at ty c s).unavailable_uri ≡ s.unavailable_uri
set_context_at-unavailable_uri default c s = refl
set_context_at-unavailable_uri autoplay c s = refl

update_context_index-unavailable_uri :
    (ty : ContextType) (i : ℕ) (s : ConnectState)
    → (update_context_index ty i s).1.unavailable_uri ≡ s.unavailable_uri
unfolding update_context_index get_context
update_context_index-unavailable_uri ty i s = elim (Option-cases (context_at ty s)) [
  | inl n ↦ rw (update_context_index, n) refl
  | inr (c, m) ↦
      rw (update_context_index, m)
        (set_context_at-unavailable_uri ty
          (record c { index = record c.index { track = i % 2 ^ 32 } }) s)
]

module _ (s : ConnectState) (i it : ℕ) where
  push-unavailable_uri :
      (t : ProvidedTrack) (s' : ConnectState) (i' it' : ℕ)
      → fill_round s i it ≡ push t s' i' it'
      → s'.unavailable_uri ≡ s.unavailable_uri
  unfolding fill_round get_context at_end to_autoplay update_context_index
  push-unavailable_uri t s' i' it' h = elim (Option-cases (context_at s.fill_up_context s)) [
    | inl n ↦ ground arith
    | inr (c, m) ↦ elim (Option-cases (get_elem? c.tracks.vec i)) [
      | inl n ↦ ground arith
      | inr (t, g) ↦ ground arith
    ]
  ]

  fail-unavailable_uri :
      (e : StateError) (s' : ConnectState)
      → fill_round s i it ≡ fail e s'
      → s'.unavailable_uri ≡ s.unavailable_uri
  unfolding fill_round get_context at_end to_autoplay update_context_index
  fail-unavailable_uri e s' h = elim (Option-cases (context_at s.fill_up_context s)) [
    | inl n ↦ ground arith
    | inr (c, m) ↦ elim (Option-cases (get_elem? c.tracks.vec i)) [
      | inl n ↦ ground arith
      | inr (t, g) ↦ ground arith
    ]
  ]

fill_loop-unavailable_uri :
    (fuel : ℕ) (s : ConnectState) (i it : ℕ)
    → (fill_loop fuel s i it).1.unavailable_uri ≡ s.unavailable_uri
unfolding fill_loop
fill_loop-unavailable_uri zero s i it = refl
fill_loop-unavailable_uri (suc fuel) s i it =
    elim (Bool-cases (leb max_next_tracks (length s.player.next_tracks))) [
      | inl e ↦ rw (fill_loop, e) refl
      | inr e ↦ after e (fill_loop-unavailable_uri fuel) (fill_round s i it) refl
    ]
  where
    after :
        leb max_next_tracks (length s.player.next_tracks) ≡ false
        → ((s : ConnectState) (i it : ℕ)
            → (fill_loop fuel s i it).1.unavailable_uri ≡ s.unavailable_uri)
        → (r : Round) → fill_round s i it ≡ r
        → (fill_loop (suc fuel) s i it).1.unavailable_uri ≡ s.unavailable_uri
    after full rest (push t s' i' it') e =
        rw (fill_loop, full, e)
          (rest (add_next t s') i' it' ∙ push-unavailable_uri s i it t s' i' it' e)
    after full rest (skip i') e = rw (fill_loop, full, e) (rest s i' it)
    after full rest break e = rw (fill_loop, full, e) refl
    after full rest (fail x s') e = rw (fill_loop, full, e) (fail-unavailable_uri s i it x s' e)

and_next-unavailable_uri :
    {A B : Type 0} (r : Step A) (f : A → ConnectState → Step B) (uris : List Text)
    → r.1.unavailable_uri ≡ uris
    → ((a : A) (s : ConnectState) → s.unavailable_uri ≡ uris → (f a s).1.unavailable_uri ≡ uris)
    → (and_next r f).1.unavailable_uri ≡ uris
and_next-unavailable_uri (ok a, s) f uris h k = k a s h
and_next-unavailable_uri (err e, s) f uris h k = h

pub fill_up-unavailable_uri :
    (host : Host) (s : ConnectState)
    → (fill_up_next_tracks host s).1.unavailable_uri ≡ s.unavailable_uri
unfolding fill_up_next_tracks get_context update_queue_revision
fill_up-unavailable_uri host s = elim (Option-cases (context_at s.fill_up_context s)) [
  | inl n ↦ rw (fill_up_next_tracks, n) refl
  | inr (c, m) ↦
      let fuel = rounds_left s c.index.track + 1 in
      rw (fill_up_next_tracks, m)
        (and_next-unavailable_uri (fill_loop fuel s c.index.track c.index.page)
          (λ i t.
            and_next (update_context_index t.fill_up_context i t)
              (λ u t'. (ok tt, update_queue_revision host t')))
          s.unavailable_uri (fill_loop-unavailable_uri fuel s c.index.track c.index.page)
          (λ i t h.
            and_next-unavailable_uri (update_context_index t.fill_up_context i t)
              (λ u t'. (ok tt, update_queue_revision host t')) s.unavailable_uri
              (update_context_index-unavailable_uri t.fill_up_context i t ∙ h) (λ u t' k. k)))
]
