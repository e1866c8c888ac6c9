-- ===== src/Connect/Update/Numbered.antt =====
-- `update_context` numbers the tracks of all pages by their position in the context.
use librespot.Base.{
  ◌∙◌, ℕ, ◌+◌, ◌^◌, ◌<◌, ◌≡◌, refl, sym, ap, subst, Bool, true, false, List, [], ◌∷◌, Option, none,
  some, All, length, if◌then◌else◌, Bool-cases, inl, inr, arith,
}
use librespot.Base.Text.{Text, codes}
use librespot.Base.Result.{ok, err}
use librespot.Connect.ShuffleVec.{from_vec}
use librespot.Connect.Track.{from_autoplay}
use librespot.Connect.Update.Position.{length-convert_tracks}
use librespot.Connect.State.{
  StateError, ConnectState, Step, default, autoplay, context_has_no_tracks,
  unsupported_local_playback,
}
use librespot.Connect.Update.{ContextPage, Context, is_nil, unwrap_or}
use librespot.Connect.Update.Pages.{
  state_context_from_page, update_default, update_autoplay, load_remaining, split_pages,
  update_with, update_page, update_context, all_empty, starts_with_opt,
}
use librespot.Connect.Update.Indexed.{
  IsConvertiblePage, track_count, IsIndexed, load_remaining-autoplay_context,
  load_remaining-IsIndexed, update_default-IsIndexed,
}

split_pages-Convertible :
    (pages : List ContextPage)
    → All IsConvertiblePage pages
    → let r = split_pages pages in
      All IsConvertiblePage r.1
      × ((page : ContextPage)
          → r.0 ≡ some page
          → IsConvertiblePage page
            × (length page.page_tracks + track_count r.1 ≡ track_count pages))
unfolding split_pages
split_pages-Convertible [] c = (tt, λ page e. cc)
split_pages-Convertible (p ∷ ps) c =
    let ih = split_pages-Convertible ps c.1 in
    elim (Bool-cases (is_nil p.page_tracks)) [
      | inl e ↦
          rw e (
            (c.0, ih.0),
            λ page found. let rest = ih.1 page found in (rest.0, omega (arith, rest.1)),
          )
      | inr e ↦ rw e (
        c.1,
        λ page found.
            let same : p ≡ page = ap (λ o. elim o [ none ↦ p | some q ↦ q ]) found in
            (
              subst IsConvertiblePage same c.0,
              ap (λ q. length q.page_tracks + track_count ps) (sym same),
            ),
      )
    ]

update_with-IsIndexed :
    (new_uuid : ℕ → ℕ → Text) (context : Context) (r : Option ContextPage × List ContextPage)
    (n : ℕ) (s s' : ConnectState) (urls : Option (List Text))
    → All IsConvertiblePage r.1
    → ((page : ContextPage)
        → r.0 ≡ some page
        → IsConvertiblePage page × (length page.page_tracks + track_count r.1 ≡ n))
    → n < 2 ^ 64
    → update_with new_uuid context default r s ≡ (ok urls, s')
    → IsIndexed n s'
unfolding update_with update_page
update_with-IsIndexed new_uuid context (none, nexts) n s s' urls c first h e =
    absurd (ground (arith, ap (λ x. x.0) e))
update_with-IsIndexed new_uuid context (some page, []) n s s' urls c first h e =
    let (convertible, count) = first page refl in
    let done =
      update_default-IsIndexed (new_uuid 0) context page s convertible (omega (arith, count, h)) in
    subst (IsIndexed n) (ap (λ x. x.1) e) (
      subst (λ m. IsIndexed m (update_default (new_uuid 0) context page s)) (omega (arith, count))
        done)
update_with-IsIndexed new_uuid context (some page, p ∷ ps) n s s' urls c first h e =
    let (convertible, count) = first page refl in
    let done =
      update_default-IsIndexed (new_uuid 0) context page s convertible (omega (arith, count, h)) in
    let all =
      load_remaining-IsIndexed new_uuid 1 (p ∷ ps) (length page.page_tracks)
        (update_default (new_uuid 0) context page s) c (omega (arith, count, h)) done in
    subst (IsIndexed n) (ap (λ x. x.1) e) (
      subst
        (λ m.
          IsIndexed m
            (load_remaining new_uuid 1 (p ∷ ps) (update_default (new_uuid 0) context page s)).1)
        count all)

-- A call that succeeds has passed a check that fails with an error.
past_guard :
    {A : Type 0} (b : Bool) (e : StateError) (s : ConnectState) {x : Step A} {a : A}
    {s' : ConnectState}
    → (if b then (err e, s) else x) ≡ (ok a, s')
    → x ≡ (ok a, s')
past_guard true e s h = absurd (ground (arith, ap (λ y. y.0) h))
past_guard false e s h = h

-- When all tracks of all pages have a printable identifier and `update_context` succeeds on the
-- default context, the context holds as many tracks as the pages do together, and the context
-- index in the metadata of each track is its position in the context.
pub update_context_lem :
    (new_uuid : ℕ → ℕ → Text) (context : Context) (s s' : ConnectState) (urls : Option (List Text))
    → All IsConvertiblePage context.pages
    → track_count context.pages < 2 ^ 64
    → update_context new_uuid context default s ≡ (ok urls, s')
    → IsIndexed (track_count context.pages) s'
unfolding update_context
update_context_lem new_uuid context s s' urls c h e =
    let split = split_pages-Convertible context.pages c in
    let pages = split_pages context.pages in
    update_with-IsIndexed new_uuid context pages (track_count context.pages) s s' urls split.0
      split.1 h
      (past_guard (starts_with_opt context.uri (codes "spotify:local-files"))
        unsupported_local_playback s
        (past_guard (all_empty context.pages) context_has_no_tracks s e))

update_autoplay-IsIndexed :
    (new_uuid : ℕ → Text) (context : Context) (page : ContextPage) (n : ℕ) (s : ConnectState)
    → IsIndexed n s
    → IsIndexed n (update_autoplay new_uuid context page s)
unfolding update_autoplay
update_autoplay-IsIndexed new_uuid context page n s w = record {
  loaded = w.loaded;
  is_context = w.is_context;
  numbered = w.numbered;
  long = w.long;
}

update_with-autoplay :
    (new_uuid : ℕ → ℕ → Text) (context : Context) (r : Option ContextPage × List ContextPage)
    (n : ℕ) (s s' : ConnectState) (urls : Option (List Text))
    → All IsConvertiblePage r.1
    → n + track_count r.1 < 2 ^ 64
    → IsIndexed n s
    → update_with new_uuid context autoplay r s ≡ (ok urls, s')
    → IsIndexed (n + track_count r.1) s'
unfolding update_with update_page
update_with-autoplay new_uuid context (none, nexts) n s s' urls c h w e =
    absurd (ground (arith, ap (λ x. x.0) e))
update_with-autoplay new_uuid context (some page, []) n s s' urls c h w e =
    subst (IsIndexed (n + 0)) (ap (λ x. x.1) e) (
      subst (λ m. IsIndexed m (update_autoplay (new_uuid 0) context page s)) (omega arith)
        (update_autoplay-IsIndexed (new_uuid 0) context page n s w))
update_with-autoplay new_uuid context (some page, p ∷ ps) n s s' urls c h w e =
    subst (IsIndexed (n + track_count (p ∷ ps))) (ap (λ x. x.1) e) (
      load_remaining-IsIndexed new_uuid 1 (p ∷ ps) n (update_autoplay (new_uuid 0) context page s) c
        h (update_autoplay-IsIndexed (new_uuid 0) context page n s w))

-- The autoplay context is the one of this page, with all of its tracks.
pub HoldsPage : (ℕ → Text) → Context → ConnectState → ContextPage → ConnectState → Type 0
HoldsPage new_uuid context s page s' =
    let held =
      state_context_from_page new_uuid s page context.metadata context.restrictions context.uri none
        (some from_autoplay) in
    (s'.autoplay_context ≡ some held) × (length held.tracks.vec ≡ length page.page_tracks)

update_autoplay-HoldsPage :
    (new_uuid : ℕ → Text) (context : Context) (page : ContextPage) (s s' : ConnectState)
    → IsConvertiblePage page
    → s'.autoplay_context ≡ (update_autoplay new_uuid context page s).autoplay_context
    → HoldsPage new_uuid context s page s'
unfolding HoldsPage update_autoplay state_context_from_page from_vec
update_autoplay-HoldsPage new_uuid context page s s' c e = (
  e,
  length-convert_tracks new_uuid s (unwrap_or s.player.context_uri context.uri) page.page_metadata
      (some from_autoplay) 0 page.page_tracks c,
)

update_with-HoldsPage :
    (new_uuid : ℕ → ℕ → Text) (context : Context) (r : Option ContextPage × List ContextPage)
    (s s' : ConnectState) (urls : Option (List Text))
    → ((page : ContextPage) → r.0 ≡ some page → IsConvertiblePage page)
    → update_with new_uuid context autoplay r s ≡ (ok urls, s')
    → (page : ContextPage) × (r.0 ≡ some page) × HoldsPage (new_uuid 0) context s page s'
unfolding update_with update_page
update_with-HoldsPage new_uuid context (none, nexts) s s' urls c e =
    absurd (ground (arith, ap (λ x. x.0) e))
update_with-HoldsPage new_uuid context (some page, []) s s' urls c e = (
  page,
  refl,
  update_autoplay-HoldsPage (new_uuid 0) context page s s' (c page refl)
      (ap (λ x. x.1.autoplay_context) (sym e)),
)
update_with-HoldsPage new_uuid context (some page, p ∷ ps) s s' urls c e = (
  page,
  refl,
  update_autoplay-HoldsPage (new_uuid 0) context page s s' (c page refl) (
      ap (λ x. x.1.autoplay_context) (sym e)
      ∙ load_remaining-autoplay_context new_uuid 1 (p ∷ ps)
          (update_autoplay (new_uuid 0) context page s)),
)

-- When all tracks have a printable identifier and `update_context` succeeds on the autoplay
-- context, this holds the first page that has tracks, with all of them, and no other page: the
-- default context, with `n` tracks before, each at its index, is longer by the tracks of all other
-- pages, whose indices go on from `n`.
pub update_context_autoplay :
    (new_uuid : ℕ → ℕ → Text) (context : Context) (n : ℕ) (s s' : ConnectState)
    (urls : Option (List Text))
    → All IsConvertiblePage context.pages
    → n + track_count (split_pages context.pages).1 < 2 ^ 64
    → IsIndexed n s
    → update_context new_uuid context autoplay s ≡ (ok urls, s')
    → IsIndexed (n + track_count (split_pages context.pages).1) s'
      × (page : ContextPage) × ((split_pages context.pages).0 ≡ some page)
      × HoldsPage (new_uuid 0) context s page s'
unfolding update_context
update_context_autoplay new_uuid context n s s' urls c h w e =
    let split = split_pages-Convertible context.pages c in
    let passed =
      past_guard (starts_with_opt context.uri (codes "spotify:local-files"))
        unsupported_local_playback s
        (past_guard (all_empty context.pages) context_has_no_tracks s e) in
    let held =
      update_with-HoldsPage new_uuid context (split_pages context.pages) s s' urls
        (λ page found. (split.1 page found).0) passed in
    (
      update_with-autoplay new_uuid context (split_pages context.pages) n s s' urls split.0 h w
          passed,
      held.0,
      held.1,
      held.2,
    )
