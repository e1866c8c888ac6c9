-- ===== src/Connect/Update/Indexed.antt =====
-- The steps of `update_context` keep the context index of each track at its position.
use librespot.Base.{
  ℕ, suc, ◌+◌, ◌^◌, ◌<◌, ◌≡◌, refl, sym, ap, subst, ◌∙◌, true, ◌&&◌, List, [], ◌∷◌, Option, none,
  some, All, length, length-append, Bool-cases, inl, inr, arith,
}
use librespot.Base.Text.{Text}
use librespot.Base.Result.{Result, ok, err}
use librespot.Connect.ShuffleVec.{from_vec}
use librespot.Connect.State.{ConnectState, StateContext}
use librespot.Connect.Update.{ContextTrack, ContextPage, Context, is_nil, not_empty, unwrap_or}
use librespot.Connect.Update.Pages.{
  convert_tracks, state_context_from_page, fill_context_from_page, fill_context, push_all,
  keep_position, same_context, find_last_index_in_new_context, update_default, load_remaining,
  load_page, with_page_uri, new_url,
}
use librespot.Connect.Update.Position.{
  IsConvertible, IsNumbered, IsNumbered-append, convert_tracks-IsNumbered,
}

abbrev pub IsConvertiblePage : ContextPage → Type 0
IsConvertiblePage p = All IsConvertible p.page_tracks

abbrev pub track_count : List ContextPage → ℕ
track_count [] = 0
track_count (p ∷ ps) = length p.page_tracks + track_count ps

-- The context has `n` tracks, and the index in each is its position.
pub record IsIndexed (n : ℕ) (s : ConnectState) : Type 0 where
  pub loaded : StateContext
  pub is_context : s.context ≡ some loaded
  pub numbered : IsNumbered 0 loaded.tracks.vec
  pub long : length loaded.tracks.vec ≡ n

fill-IsIndexed :
    (new_uuid : ℕ → Text) (page : ContextPage) (n : ℕ) (s : ConnectState)
    → IsConvertiblePage page
    → n + length page.page_tracks < 2 ^ 64
    → IsIndexed n s
    → IsIndexed (n + length page.page_tracks) (fill_context_from_page new_uuid page s).1
unfolding fill_context_from_page fill_context state_context_from_page from_vec
fill-IsIndexed new_uuid page n s c h w =
    let tracks =
      convert_tracks new_uuid s (unwrap_or s.player.context_uri none)
        (some (length w.loaded.tracks.vec)) page.page_metadata none 0 page.page_tracks in
    let more =
      convert_tracks-IsNumbered new_uuid s (unwrap_or s.player.context_uri none)
        (length w.loaded.tracks.vec) page.page_metadata none 0 page.page_tracks c
        (omega (arith, h, w.long)) in
    subst (λ o. IsIndexed (n + length page.page_tracks) (fill_context new_uuid page s o).1)
      (sym w.is_context)
      (record {
        loaded = push_all tracks w.loaded;
        is_context = refl;
        numbered =
            IsNumbered-append 0 w.loaded.tracks.vec tracks w.numbered
              (subst (λ m. IsNumbered m tracks) (omega arith) more.0);
        long = omega (arith, length-append w.loaded.tracks.vec tracks, more.1, w.long);
      })

is_nil_lem : (ts : List ContextTrack) → is_nil ts ≡ true → length ts ≡ 0
is_nil_lem [] h = refl
is_nil_lem (t ∷ ts) h = cc

load_page-IsIndexed :
    (new_uuid : ℕ → Text) (p : ContextPage) (n : ℕ) (s : ConnectState)
    → IsConvertiblePage p
    → n + length p.page_tracks < 2 ^ 64
    → IsIndexed n s
    → IsIndexed (n + length p.page_tracks) (load_page new_uuid p s)
unfolding load_page
load_page-IsIndexed new_uuid p n s c h w = elim (Bool-cases (is_nil p.page_tracks)) [
  | inl e ↦ rw e (subst (λ m. IsIndexed m s) (omega (arith, is_nil_lem p.page_tracks e)) w)
  | inr e ↦ rw e (fill-IsIndexed new_uuid p n s c h w)
]

with_page_uri-state : (p : ContextPage) (r : List Text × ConnectState) → (with_page_uri p r).1 ≡ r.1
unfolding with_page_uri
with_page_uri-state p r = elim (Bool-cases (is_nil p.page_tracks && not_empty p.page_url)) [
  | inl e ↦ rw e refl
  | inr e ↦ rw e refl
]

pub load_remaining-IsIndexed :
    (new_uuid : ℕ → ℕ → Text) (k : ℕ) (pages : List ContextPage) (n : ℕ) (s : ConnectState)
    → All IsConvertiblePage pages
    → n + track_count pages < 2 ^ 64
    → IsIndexed n s
    → IsIndexed (n + track_count pages) (load_remaining new_uuid k pages s).1
unfolding load_remaining
load_remaining-IsIndexed new_uuid k [] n s c h w = subst (λ m. IsIndexed m s) (omega arith) w
load_remaining-IsIndexed new_uuid k (p ∷ ps) n s c h w =
    let first = load_page-IsIndexed (new_uuid k) p n s c.0 (omega (arith, h)) w in
    let rest =
      load_remaining-IsIndexed new_uuid (suc k) ps (n + length p.page_tracks)
        (load_page (new_uuid k) p s) c.1 (omega (arith, h)) first in
    subst (IsIndexed (n + track_count (p ∷ ps)))
      (sym
        (with_page_uri-state p (load_remaining new_uuid (suc k) ps (load_page (new_uuid k) p s))))
      (subst (λ m. IsIndexed m (load_remaining new_uuid (suc k) ps (load_page (new_uuid k) p s)).1)
        (omega arith) rest)

load_page-autoplay_context :
    (new_uuid : ℕ → Text) (p : ContextPage) (s : ConnectState)
    → (load_page new_uuid p s).autoplay_context ≡ s.autoplay_context
unfolding load_page fill_context_from_page
load_page-autoplay_context new_uuid p s = elim (Bool-cases (is_nil p.page_tracks)) [
  | inl e ↦ rw (e, load_page) refl
  | inr e ↦ rw (e, load_page) (filled s.context)
]
  where
    filled :
        (o : Option StateContext)
        → (fill_context new_uuid p s o).1.autoplay_context ≡ s.autoplay_context
    filled none = unfold fill_context in refl
    filled (some c) = unfold fill_context in refl

-- The pages after the first do not change the autoplay context.
pub load_remaining-autoplay_context :
    (new_uuid : ℕ → ℕ → Text) (k : ℕ) (pages : List ContextPage) (s : ConnectState)
    → (load_remaining new_uuid k pages s).1.autoplay_context ≡ s.autoplay_context
unfolding load_remaining
load_remaining-autoplay_context new_uuid k [] s = refl
load_remaining-autoplay_context new_uuid k (p ∷ ps) s =
    let s' = load_page (new_uuid k) p s in
    ap (λ x. x.autoplay_context) (with_page_uri-state p (load_remaining new_uuid (suc k) ps s'))
    ∙ load_remaining-autoplay_context new_uuid (suc k) ps s'
    ∙ load_page-autoplay_context (new_uuid k) p s

keep_position-tracks :
    (c : StateContext) (found : Option (Result ℕ ℕ)) (s : ConnectState)
    → (keep_position c found s).0.tracks ≡ c.tracks
unfolding keep_position
keep_position-tracks c none s = refl
keep_position-tracks c (some (ok i)) s = refl
keep_position-tracks c (some (err i)) s = refl

-- The context that `update_default` sets has the tracks of the page.
pub update_default-IsIndexed :
    (new_uuid : ℕ → Text) (context : Context) (page : ContextPage) (s : ConnectState)
    → IsConvertiblePage page
    → length page.page_tracks < 2 ^ 64
    → IsIndexed (length page.page_tracks) (update_default new_uuid context page s)
unfolding update_default
update_default-IsIndexed new_uuid context page s c h =
    elim (Bool-cases (same_context s context.uri)) [
      | inl e ↦ rw e (
          indexed (keep_position new_context (find_last_index_in_new_context s new_context) s)
            (keep_position-tracks new_context (find_last_index_in_new_context s new_context) s))
      | inr e ↦ rw e (indexed (new_context, s) refl)
    ]
  where
    new_context : StateContext
    new_context =
        state_context_from_page new_uuid s page context.metadata context.restrictions context.uri
          (some 0) none

    more :
        IsNumbered 0 new_context.tracks.vec
        × (length new_context.tracks.vec ≡ length page.page_tracks)
    more =
        unfold state_context_from_page from_vec in
        convert_tracks-IsNumbered new_uuid s (unwrap_or s.player.context_uri context.uri) 0
          page.page_metadata none 0 page.page_tracks c (omega (arith, h))

    indexed :
        (kept : StateContext × ConnectState)
        → kept.0.tracks ≡ new_context.tracks
        → IsIndexed (length page.page_tracks) (record kept.1 {
          context = some kept.0;
          player = record kept.1.player {
            context_url = new_url context.url;
            context_uri = unwrap_or [] context.uri;
          };
        })
    indexed kept e = record {
      loaded = kept.0;
      is_context = refl;
      numbered = subst (λ t. IsNumbered 0 t.vec) (sym e) more.0;
      long = ap (λ t. length t.vec) e ∙ more.1;
    }
