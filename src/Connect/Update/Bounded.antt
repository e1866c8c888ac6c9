-- ===== src/Connect/Update/Bounded.antt =====
-- connect/src/state/context.rs: the changes of the contexts keep the bounds of the queue.
use librespot.Base.{ℕ, suc, List, [], ◌∷◌, Option, none, some, ◌&&◌, Bool-cases, inl, inr}
use librespot.Base.Text.{Text, codes}
use librespot.Base.Result.{Result, ok, err}
use librespot.Connect.State.{ContextType, default, autoplay, StateContext, ConnectState}
use librespot.Connect.State.Bounds.{IsBounded, clear_next_tracks-IsBounded}
use librespot.Connect.Update.{Context, ContextPage, is_nil, not_empty}
use librespot.Connect.Update.Pages.{
  fill_context, fill_context_from_page, keep_position, same_context, find_last_index_in_new_context,
  state_context_from_page, update_default, update_autoplay, load_page, with_page_uri,
  load_remaining, update_page, update_with, update_context, all_empty, starts_with_opt, split_pages,
  without_player_index,
}
use librespot.Connect.Update.Merge.{merge_into, merge_context}

fill_context-IsBounded :
    (new_uuid : ℕ → Text) (page : ContextPage) (s : ConnectState) (c : Option StateContext)
    → IsBounded s
    → IsBounded (fill_context new_uuid page s c).1
unfolding fill_context
fill_context-IsBounded new_uuid page s none b = b
fill_context-IsBounded new_uuid page s (some c) b = b

pub fill_context_from_page-IsBounded :
    (new_uuid : ℕ → Text) (page : ContextPage) (s : ConnectState)
    → IsBounded s
    → IsBounded (fill_context_from_page new_uuid page s).1
unfolding fill_context_from_page
fill_context_from_page-IsBounded new_uuid page s b =
    fill_context-IsBounded new_uuid page s s.context b

keep_position-IsBounded :
    (c : StateContext) (found : Option (Result ℕ ℕ)) (s : ConnectState)
    → IsBounded s
    → IsBounded (keep_position c found s).1
unfolding keep_position
keep_position-IsBounded c none s b = b
keep_position-IsBounded c (some (ok i)) s b =
    clear_next_tracks-IsBounded
      (record s {
        autoplay_context = elim s.autoplay_context [
          | none ↦ none
          | some c ↦ some (record c { index = record c.index { track = 0 } })
        ];
      })
      b
keep_position-IsBounded c (some (err i)) s b =
    clear_next_tracks-IsBounded
      (record (without_player_index s) {
        autoplay_context = elim s.autoplay_context [
          | none ↦ none
          | some c ↦ some (record c { index = record c.index { track = 0 } })
        ];
      })
      b

update_default-IsBounded :
    (new_uuid : ℕ → Text) (context : Context) (page : ContextPage) (s : ConnectState)
    → IsBounded s
    → IsBounded (update_default new_uuid context page s)
unfolding update_default
update_default-IsBounded new_uuid context page s b =
    let new_context : StateContext =
      state_context_from_page new_uuid s page context.metadata context.restrictions context.uri
        (some 0) none in
    elim (Bool-cases (same_context s context.uri)) [
      | inl e ↦
          rw (e, update_default)
            (keep_position-IsBounded new_context (find_last_index_in_new_context s new_context) s b)
      | inr e ↦ rw (e, update_default) b
    ]

update_page-IsBounded :
    (new_uuid : ℕ → ℕ → Text) (context : Context) (ty : ContextType) (page : ContextPage)
    (s : ConnectState)
    → IsBounded s
    → IsBounded (update_page new_uuid context ty page s)
unfolding update_page update_autoplay
update_page-IsBounded new_uuid context default page s b =
    update_default-IsBounded (new_uuid 0) context page s b
update_page-IsBounded new_uuid context autoplay page s b = b

load_page-IsBounded :
    (new_uuid : ℕ → Text) (p : ContextPage) (s : ConnectState)
    → IsBounded s
    → IsBounded (load_page new_uuid p s)
unfolding load_page
load_page-IsBounded new_uuid p s b = elim (Bool-cases (is_nil p.page_tracks)) [
  | inl e ↦ rw (e, load_page) b
  | inr e ↦ rw (e, load_page) (fill_context_from_page-IsBounded new_uuid p s b)
]

with_page_uri-IsBounded :
    (p : ContextPage) (r : List Text × ConnectState)
    → IsBounded r.1
    → IsBounded (with_page_uri p r).1
unfolding with_page_uri
with_page_uri-IsBounded p r b = elim (Bool-cases (is_nil p.page_tracks && not_empty p.page_url)) [
  | inl e ↦ rw (e, with_page_uri) b
  | inr e ↦ rw (e, with_page_uri) b
]

load_remaining-IsBounded :
    (new_uuid : ℕ → ℕ → Text) (n : ℕ) (ps : List ContextPage) (s : ConnectState)
    → IsBounded s
    → IsBounded (load_remaining new_uuid n ps s).1
unfolding load_remaining
load_remaining-IsBounded new_uuid n [] s b = b
load_remaining-IsBounded new_uuid n (p ∷ ps) s b =
    let s' = load_page (new_uuid n) p s in
    with_page_uri-IsBounded p (load_remaining new_uuid (suc n) ps s')
      (load_remaining-IsBounded new_uuid (suc n) ps s' (load_page-IsBounded (new_uuid n) p s b))

update_with-IsBounded :
    (new_uuid : ℕ → ℕ → Text) (context : Context) (ty : ContextType)
    (pages : Option ContextPage × List ContextPage) (s : ConnectState)
    → IsBounded s
    → IsBounded (update_with new_uuid context ty pages s).1
unfolding update_with
update_with-IsBounded new_uuid context ty (none, ps) s b = b
update_with-IsBounded new_uuid context ty (some page, []) s b =
    update_page-IsBounded new_uuid context ty page s b
update_with-IsBounded new_uuid context ty (some page, p ∷ ps) s b =
    load_remaining-IsBounded new_uuid 1 (p ∷ ps) (update_page new_uuid context ty page s)
      (update_page-IsBounded new_uuid context ty page s b)

pub update_context-IsBounded :
    (new_uuid : ℕ → ℕ → Text) (context : Context) (ty : ContextType) (s : ConnectState)
    → IsBounded s
    → IsBounded (update_context new_uuid context ty s).1
unfolding update_context
update_context-IsBounded new_uuid context ty s b = elim (Bool-cases (all_empty context.pages)) [
  | inl e ↦ rw (e, update_context) b
  | inr e ↦ elim (Bool-cases (starts_with_opt context.uri (codes "spotify:local-files"))) [
    | inl f ↦ rw (e, f, update_context) b
    | inr f ↦
        rw (e, f, update_context)
          (update_with-IsBounded new_uuid context ty (split_pages context.pages) s b)
  ]
]

merge_into-IsBounded :
    (page : Option ContextPage) (s : ConnectState) (c : Option StateContext)
    → IsBounded s
    → IsBounded (merge_into page s c).1
unfolding merge_into
merge_into-IsBounded page s none b = b
merge_into-IsBounded page s (some c) b = b

pub merge_context-IsBounded :
    (page : Option ContextPage) (s : ConnectState)
    → IsBounded s
    → IsBounded (merge_context page s).1
unfolding merge_context
merge_context-IsBounded page s b = merge_into-IsBounded page s s.context b
