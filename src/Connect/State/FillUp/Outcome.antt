-- ===== src/Connect/State/FillUp/Outcome.antt =====
-- `fill_up_next_tracks` as a whole: its error, or the queue that it leaves.
use mathlib.Core.List.{map}
use librespot.Base.{
  ℕ, ◌+◌, ◌≤◌, max, ◌≡◌, refl, subst, sym, ap, ◌∙◌, ◌⊎◌, inl, inr, false, List, ◌++◌, none, some,
  length, All, Option-cases, arith,
}
use librespot.Base.Result.{ok, err}
use librespot.Connect.Track.{ProvidedTrack}
use librespot.Connect.State.{
  ContextType, default, autoplay, no_context, StateContext, PlayerState, ConnectState, Step,
  and_next, as_u32, max_next_tracks, Host,
}
use librespot.Connect.State.Context.{
  context_at, set_context_at, get_context, update_context_index, repeat_context,
}
use librespot.Connect.State.FillUp.{rounds_left, update_queue_revision, fill_up_next_tracks}
use librespot.Connect.State.FillUp.Rounds.{vec_of, SameTracks, IsFitting, IsExhausted}
use librespot.Connect.State.FillUp.Filled.{queued, fill_loop-Fills, Fills-IsFilled}

-- No context has a track left: the fill-up context ended at an index behind its tracks.
abbrev pub IsDrained : ConnectState → Type 0
IsDrained s =
    (repeat_context s ≡ false)
    × ((s.fill_up_context ≡ autoplay) ⊎ (s.autoplay_context ≡ none))
    × (c : StateContext) × (i : ℕ) × (context_at s.fill_up_context s ≡ some c)
    × (c.index.track ≡ as_u32 i)
    × (length c.tracks.vec ≤ i)

abbrev indexed : StateContext → ℕ → StateContext
indexed c i = record c { index = record c.index { track = as_u32 i } }

pub update_context_index_lem :
    (ty : ContextType) (c : StateContext) (i : ℕ) (s : ConnectState)
    → context_at ty s ≡ some c
    → update_context_index ty i s ≡ (ok tt, set_context_at ty (indexed c i) s)
unfolding update_context_index get_context
update_context_index_lem ty c i s m = rw (update_context_index, m) refl

set_context_at-player :
    (ty : ContextType) (c : StateContext) (s : ConnectState)
    → (set_context_at ty c s).player ≡ s.player
set_context_at-player default c s = refl
set_context_at-player autoplay c s = refl

set_context_at-fill_up :
    (ty : ContextType) (c : StateContext) (s : ConnectState)
    → (set_context_at ty c s).fill_up_context ≡ s.fill_up_context
set_context_at-fill_up default c s = refl
set_context_at-fill_up autoplay c s = refl

context_at-set_context_at :
    (ty : ContextType) (c : StateContext) (s : ConnectState)
    → context_at ty (set_context_at ty c s) ≡ some c
context_at-set_context_at default c s = refl
context_at-set_context_at autoplay c s = refl

vec_at-indexed :
    (ty : ContextType) (c : StateContext) (i : ℕ) (s : ConnectState)
    → context_at ty s ≡ some c
    → SameTracks s (set_context_at ty (indexed c i) s)
vec_at-indexed default c i s m default = rw m refl
vec_at-indexed default c i s m autoplay = refl
vec_at-indexed autoplay c i s m default = refl
vec_at-indexed autoplay c i s m autoplay = rw m refl

no_autoplay_kept :
    (ty : ContextType) (c : StateContext) (s : ConnectState)
    → (ty ≡ autoplay) ⊎ (s.autoplay_context ≡ none)
    → (ty ≡ autoplay) ⊎ ((set_context_at ty c s).autoplay_context ≡ none)
no_autoplay_kept default c s h = h
no_autoplay_kept autoplay c s h = inl refl

repeat_context_same :
    (s s' : ConnectState) → s'.player ≡ s.player → repeat_context s' ≡ repeat_context s
unfolding repeat_context
repeat_context_same s s' e = ground arith

IsDrained-indexed :
    (s : ConnectState) (c : StateContext) (i : ℕ)
    → context_at s.fill_up_context s ≡ some c
    → IsExhausted s i
    → IsDrained (set_context_at s.fill_up_context (indexed c i) s)
IsDrained-indexed s c i m (no_repeat, last, xs, e, l) =
    let ty = s.fill_up_context in
    let s' = set_context_at ty (indexed c i) s in
    let same : s'.fill_up_context ≡ ty = set_context_at-fill_up ty (indexed c i) s in
    (
      repeat_context_same s s' (set_context_at-player ty (indexed c i) s) ∙ no_repeat,
      subst (λ t. (t ≡ autoplay) ⊎ (s'.autoplay_context ≡ none)) (sym same)
          (no_autoplay_kept ty (indexed c i) s last),
      indexed c i,
      i,
      ap (λ t. context_at t s') same ∙ context_at-set_context_at ty (indexed c i) s,
      refl,
      (let here : some c.tracks.vec ≡ some xs = sym (ap vec_of m) ∙ e in ground arith),
    )

module _ (host : Host) where
  abbrev filled_player : PlayerState → List ProvidedTrack → PlayerState
  filled_player p added = record p {
    next_tracks = p.next_tracks ++ added;
    queue_revision = host.queue_hash (map (λ t. t.uri) (p.next_tracks ++ added));
  }

  abbrev pub IsFilledUp : ConnectState → Step (Unit {0}) → Type 0
  IsFilledUp s r =
      (s' : ConnectState) × (added : List ProvidedTrack) × (r ≡ (ok tt, s'))
      × (s'.player ≡ filled_player s.player added)
      × All (IsFitting s) added
      × SameTracks s s'
      × (queued s' ≤ max max_next_tracks (queued s))
      × (max_next_tracks ≤ queued s' ⊎ IsDrained s')

  revised-context :
      (ty : ContextType) (s : ConnectState)
      → context_at ty (update_queue_revision host s) ≡ context_at ty s
  unfolding update_queue_revision
  revised-context default s = refl
  revised-context autoplay s = refl

  IsDrained-revised : (s : ConnectState) → IsDrained s → IsDrained (update_queue_revision host s)
  unfolding update_queue_revision repeat_context
  IsDrained-revised s (r, last, c, i, m, e, l) =
      (r, last, c, i, revised-context s.fill_up_context s ∙ m, e, l)

  finish :
      (s s' : ConnectState) (i : ℕ) (added : List ProvidedTrack) (c : StateContext)
      → context_at s'.fill_up_context s' ≡ some c
      → s'.player ≡ record s.player { next_tracks = s.player.next_tracks ++ added }
      → All (IsFitting s) added
      → SameTracks s s'
      → (queued s' ≤ max max_next_tracks (queued s))
      → (max_next_tracks ≤ queued s' ⊎ IsExhausted s' i)
      → IsFilledUp s (
          and_next
            (update_context_index s'.fill_up_context i s')
            (λ u s''. (ok tt, update_queue_revision host s'')))
  unfolding update_context_index get_context update_queue_revision
  finish s s' i added c m p fit same bound last =
      let ty = s'.fill_up_context in
      let s'' = set_context_at ty (indexed c i) s' in
      let player = set_context_at-player ty (indexed c i) s' ∙ p in
      let count = ap (λ p. length p.next_tracks) (set_context_at-player ty (indexed c i) s') in
      (
        update_queue_revision host s'',
        added,
        ap {A = Step (Unit {0})}
            (λ r. and_next r (λ u s''. (ok tt, update_queue_revision host s'')))
            (update_context_index_lem ty c i s' m),
        ap {A = PlayerState}
            (λ p. record p { queue_revision = host.queue_hash (map (λ t. t.uri) p.next_tracks) })
            player,
        fit,
        (λ ty'. ap vec_of (revised-context ty' s'') ∙ vec_at-indexed ty c i s' m ty' ∙ same ty'),
        omega (arith, bound, count),
        elim last [
          | inl h ↦ inl (omega (arith, h, count))
          | inr h ↦ inr (IsDrained-revised s'' (IsDrained-indexed s' c i m h))
        ],
      )

  -- Filling up fails only without a fill-up context, and then changes nothing. Otherwise its loop
  -- ends; the queue keeps its tracks, followed by delimiters and tracks of the contexts that are not
  -- unavailable, at most up to 80 tracks; the contexts keep their tracks; and the queue has 80 tracks
  -- at least, or no context has a track left.
  pub fill_up_next_tracks_lem :
      (s : ConnectState)
      → ((context_at s.fill_up_context s ≡ none)
          × (fill_up_next_tracks host s ≡ (err (no_context s.fill_up_context), s)))
        ⊎ IsFilledUp s (fill_up_next_tracks host s)
  unfolding fill_up_next_tracks get_context
  fill_up_next_tracks_lem s = elim (Option-cases (context_at s.fill_up_context s)) [
    | inl n ↦ inl (n, rw (fill_up_next_tracks, n) refl)
    | inr (c, m) ↦
        let run =
          fill_loop-Fills (rounds_left s c.index.track + 1) s c.index.track c.index.page
            (omega arith) in
        let (i, s', added, e, p, fit, same, (c', m'), bound, last) = Fills-IsFilled run (c, m) in
        inr (rw (fill_up_next_tracks, m, e) (finish s s' i added c' m' p fit same bound last))
  ]
