-- ===== src/Connect/State/FillUp/Filled.antt =====
-- The loop of `fill_up_next_tracks` ends, and what the queue holds then.
use mathlib.Core.List.{append-nil, append_assoc}
use librespot.Base.{
  ℕ, zero, suc, ◌+◌, ◌-◌, ◌*◌, ◌≤◌, ◌<◌, max, ◌≡◌, refl, sym, ap, ap₂, ◌∙◌, ◌⊎◌, inl, inr, false,
  List, [], ◌∷◌, ◌++◌, Option, none, some, leb, leb→le, length, length-append, All, Bool-cases,
  arith,
}
use librespot.Base.Result.{ok, err}
use librespot.Connect.Track.{ProvidedTrack}
use librespot.Connect.State.{
  ContextType, default, autoplay, StateError, StateContext, PlayerState, ConnectState, Step,
  max_next_tracks,
}
use librespot.Connect.State.Context.{context_at}
use librespot.Connect.State.FillUp.{
  Round, push, skip, break, fail, fill_round, fill_loop, tracks_in, longest, rounds_left, add_next,
}
use librespot.Connect.State.FillUp.Rounds.{
  IsFitting-same, All-map, vec_of, SameTracks, vec_at, IsFitting, IsExhausted, HasContext,
  fill_round-skip, fill_round-fail, fill_round-push-player, fill_round-push-tracks,
  fill_round-push-IsFitting, fill_round-break, fill_round-push-HasContext,
}

abbrev pub queued : ConnectState → ℕ
queued s = length s.player.next_tracks

-- A run of the source's loop, which has no bound on its rounds.
pub data Fills : ConnectState → ℕ → ℕ → Step ℕ → Type 0 where
  full : {s : ConnectState} {i it : ℕ} → max_next_tracks ≤ queued s → Fills s i it (ok i, s)
  ends :
      {s : ConnectState} {i it : ℕ}
      → queued s < max_next_tracks
      → fill_round s i it ≡ break
      → Fills s i it (ok i, s)
  fails :
      {s s' : ConnectState} {i it : ℕ} {e : StateError}
      → queued s < max_next_tracks
      → fill_round s i it ≡ fail e s'
      → Fills s i it (err e, s')
  skips :
      {s : ConnectState} {i it i' : ℕ} {r : Step ℕ}
      → queued s < max_next_tracks
      → fill_round s i it ≡ skip i'
      → Fills s i' it r
      → Fills s i it r
  adds :
      {s s' : ConnectState} {i it i' it' : ℕ} {t : ProvidedTrack} {r : Step ℕ}
      → queued s < max_next_tracks
      → fill_round s i it ≡ push t s' i' it'
      → Fills (add_next t s') i' it' r
      → Fills s i it r

rounds_less :
    (n m i i' l : ℕ)
    → n < 80
    → m ≡ n + 1
    → (80 - m) * (l + 2) + (l + 1 - i') < (80 - n) * (l + 2) + (l + 1 - i)
rounds_less n m i i' l h e =
    let left : 80 - n ≡ suc (80 - m) = omega arith in rw left (ground arith)

lt→leb-false : {n : ℕ} → n < 80 → leb 80 n ≡ false
lt→leb-false h = ground arith

rounds_skip :
    (s : ConnectState) (i i' : ℕ) → i' ≡ i + 1 → i < longest s → rounds_left s i' < rounds_left s i
rounds_skip s i i' e h = ground arith

length-add_next : (s : ConnectState) (t : ProvidedTrack) → queued (add_next t s) ≡ queued s + 1
length-add_next s t = length-append s.player.next_tracks (t ∷ [])

tracks_same : (o o' : Option StateContext) → vec_of o' ≡ vec_of o → tracks_in o' ≡ tracks_in o
tracks_same none none e = refl
tracks_same none (some c) e = cc
tracks_same (some c) none e = cc
tracks_same (some c) (some c') e = ground arith

longest_same : (s s' : ConnectState) → SameTracks s s' → longest s' ≡ longest s
longest_same s s' h =
    ap₂ max (tracks_same s.context s'.context (h default))
      (tracks_same s.autoplay_context s'.autoplay_context (h autoplay))

fill_loop-round :
    (fuel : ℕ) (s : ConnectState) (i it : ℕ) (round : Round)
    → fill_round s i it ≡ round
    → queued s < max_next_tracks
    → rounds_left s i < suc fuel
    → ((s' : ConnectState) (i' it' : ℕ)
        → rounds_left s' i' < fuel
        → Fills s' i' it' (fill_loop fuel s' i' it'))
    → Fills s i it (fill_loop (suc fuel) s i it)
unfolding fill_loop
fill_loop-round fuel s i it (push t s' i' it') e h b ih =
    let player = fill_round-push-player s i it t s' i' it' e in
    let tracks = longest_same s s' (fill_round-push-tracks s i it t s' i' it' e) in
    let more : queued (add_next t s') ≡ queued s + 1 =
      length-add_next s' t ∙ ap (λ p. length p.next_tracks + 1) player in
    let less = rounds_less (queued s) (queued (add_next t s')) i i' (longest s) h more in
    rw (lt→leb-false h, e)
      (adds h e (ih (add_next t s') i' it' (rw tracks (omega (arith, b, less)))))
fill_loop-round fuel s i it (skip i') e h b ih =
    let (next, below) = fill_round-skip s i it i' e in
    rw (lt→leb-false h, e)
      (skips h e (ih s i' it (omega (arith, b, rounds_skip s i i' next below))))
fill_loop-round fuel s i it break e h b ih = rw (lt→leb-false h, e) (ends h e)
fill_loop-round fuel s i it (fail f s') e h b ih = rw (lt→leb-false h, e) (fails h e)

pub fill_loop-Fills :
    (fuel : ℕ) (s : ConnectState) (i it : ℕ)
    → rounds_left s i < fuel
    → Fills s i it (fill_loop fuel s i it)
unfolding fill_loop
fill_loop-Fills zero s i it b = absurd (omega arith)
fill_loop-Fills (suc fuel) s i it b = elim (Bool-cases (leb max_next_tracks (queued s))) [
  | inl e ↦ rw e (full (leb→le max_next_tracks (queued s) e))
  | inr e ↦
      fill_loop-round fuel s i it (fill_round s i it) refl (ground arith) b
        (λ s' i' it' b'. fill_loop-Fills fuel s' i' it' b')
]

-- What holds behind the loop.
abbrev pub IsFilled : ConnectState → Step ℕ → Type 0
IsFilled s r =
    (i : ℕ) × (s' : ConnectState) × (added : List ProvidedTrack) × (r ≡ (ok i, s'))
    × (s'.player ≡ record s.player { next_tracks = s.player.next_tracks ++ added })
    × All (IsFitting s) added
    × SameTracks s s'
    × HasContext s'
    × (queued s' ≤ max max_next_tracks (queued s))
    × (max_next_tracks ≤ queued s' ⊎ IsExhausted s' i)

keeps : (p : PlayerState) → p ≡ record p { next_tracks = p.next_tracks ++ [] }
keeps p = ap (λ tracks. record p { next_tracks = tracks }) (sym (append-nil p.next_tracks))

one_more :
    (p p' p'' : PlayerState) (t : ProvidedTrack) (added : List ProvidedTrack)
    → p' ≡ p
    → p'' ≡ record p' { next_tracks = (p'.next_tracks ++ t ∷ []) ++ added }
    → p'' ≡ record p { next_tracks = p.next_tracks ++ t ∷ added }
one_more p p' p'' t added e e' =
    e'
    ∙ ap {A = PlayerState} (λ q. record q { next_tracks = (q.next_tracks ++ t ∷ []) ++ added }) e
    ∙ ap (λ tracks. record p { next_tracks = tracks }) (append_assoc p.next_tracks (t ∷ []) added)

vec_at-add_next :
    (ty : ContextType) (t : ProvidedTrack) (s : ConnectState)
    → vec_at ty (add_next t s) ≡ vec_at ty s
vec_at-add_next default t s = refl
vec_at-add_next autoplay t s = refl

HasContext-add_next :
    (t : ProvidedTrack) (s : ConnectState) → HasContext s → HasContext (add_next t s)
HasContext-add_next t s (c, m) = (c, same s.fill_up_context ∙ m)
  where
    same : (ty : ContextType) → context_at ty (add_next t s) ≡ context_at ty s
    same default = refl
    same autoplay = refl

Fills-grows :
    (s s' : ConnectState) (i it i' it' : ℕ) (t : ProvidedTrack)
    → queued s < max_next_tracks
    → fill_round s i it ≡ push t s' i' it'
    → max max_next_tracks (queued (add_next t s')) ≡ max max_next_tracks (queued s)
Fills-grows s s' i it i' it' t h e =
    let player = ap (λ p. length p.next_tracks) (fill_round-push-player s i it t s' i' it' e) in
    omega (arith, length-add_next s' t, player)

pub Fills-IsFilled :
    {s : ConnectState} {i it : ℕ} {r : Step ℕ} → Fills s i it r → HasContext s → IsFilled s r
Fills-IsFilled {s} {i} (full h) c =
    (i, s, [], refl, keeps s.player, tt, (λ ty. refl), c, omega arith, inl h)
Fills-IsFilled {s} {i} {it} (ends h e) c = (
  i,
  s,
  [],
  refl,
  keeps s.player,
  tt,
  (λ ty. refl),
  c,
  omega arith,
  inr (fill_round-break s i it e),
)
Fills-IsFilled {s} {i} {it} (fails {s' = s'} {e = f} h e) (c, m) =
    absurd (let n = fill_round-fail s i it f s' e in cc)
Fills-IsFilled (skips h e run) c = Fills-IsFilled run c
Fills-IsFilled {s} {i} {it} (adds {s' = s'} {i' = i'} {it' = it'} {t = t} h e run) c =
    let (j, s'', added, q, player, fit, same, c', bound, last) =
      Fills-IsFilled run
        (HasContext-add_next t s' (fill_round-push-HasContext s i it t s' i' it' e)) in
    let here = fill_round-push-tracks s i it t s' i' it' e in
    let less = Fills-grows s s' i it i' it' t h e in
    (
      j,
      s'',
      t ∷ added,
      q,
      one_more s.player s'.player s''.player t added (fill_round-push-player s i it t s' i' it' e)
          player,
      (
        fill_round-push-IsFitting s i it t s' i' it' e,
        All-map (IsFitting-same s (add_next t s') (λ ty. vec_at-add_next ty t s' ∙ here ty)) added
            fit,
      ),
      (λ ty. same ty ∙ vec_at-add_next ty t s' ∙ here ty),
      c',
      omega (arith, bound, less),
      last,
    )
