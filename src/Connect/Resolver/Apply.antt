-- ===== src/Connect/Resolver/Apply.antt =====
-- connect/src/context_resolver.rs: get_next_context, where the answers of the server are a function of
-- the requests, and apply_next_context, which changes the connect state by a context that was
-- resolved.
use librespot.Base.{
  ◌++◌, ◌||◌, if◌then◌else◌, Bool, ℕ, List, [], ◌∷◌, Option, none, some, map, length, ◌≡◌, refl,
}
use librespot.Base.Text.{Text, codes}
use librespot.Base.Result.{Result, ok, err}
use librespot.Connect.ShuffleVec.{Rng}
use librespot.Connect.State.{ContextType, default, autoplay, StateError, ConnectState, Step, Host}
use librespot.Connect.State.Reachable.{Reaches, here, after, load, extend, merge}
use librespot.Connect.Update.{Context, ContextPage, contains_text}
use librespot.Connect.Update.Pages.{update_context, fill_context_from_page}
use librespot.Connect.Update.Merge.{merge_context}
use librespot.Connect.Resolver.{
  Resolve, by_uri, by_context, ContextAction, append, replace, ResolveContext, ContextResolver,
  append_context, find_next, resolved_context_uri,
}

pub data ContextResolverError : Type 0 where
  no_next : ContextResolverError
  unexpected_pages_size : ℕ → ContextResolverError
  not_allowed_context : Text → ContextResolverError
  -- An error of another type, as `Error` holds it.
  state_error : StateError → ContextResolverError

-- What is asked of the server; a request for autoplay has the uris of the recent tracks.
pub data ContextRequest : Type 0 where
  get_context : Text → ContextRequest
  get_autoplay_context : Text → List Text → ContextRequest

abbrev pub is_podcast : Text → Bool
is_podcast uri =
    contains_text uri (codes "spotify:show:") || contains_text uri (codes "spotify:episode:")

unfoldable pub request_for :
    ContextType → Text → List Text → Result ContextResolverError ContextRequest
request_for default uri recent = ok (get_context uri)
request_for autoplay uri recent =
    if is_podcast uri then err (not_allowed_context uri) else ok (get_autoplay_context uri recent)

-- A default context gets the uri that it was asked for by.
unfoldable pub named_response : ContextType → Text → Context → Context
named_response default uri context = record context {
  uri = some uri;
  url = some (codes "context://" ++ uri);
}
named_response autoplay uri context = context

unfoldable pub respond :
    (ContextRequest → Result StateError Context)
    → ResolveContext
    → Result ContextResolverError ContextRequest
    → Result ContextResolverError Context
respond server next (err e) = err e
respond server next (ok request) = elim (server request) [
  | err e ↦ err (state_error e)
  | ok context ↦ ok (named_response next.update (resolved_context_uri next) context)
]

unfoldable pub request_found :
    (ContextRequest → Result StateError Context)
    → Option (ResolveContext × Text × ℕ)
    → List Text
    → Result ContextResolverError Context
request_found server none recent = err no_next
request_found server (some (next, uri, idx)) recent =
    respond server next (request_for next.update uri recent)

unfoldable pub get_next_context :
    (ContextRequest → Result StateError Context)
    → ContextResolver
    → List Text
    → Result ContextResolverError Context
get_next_context server c recent = request_found server (find_next c) recent

abbrev pub Applied : Type 0
Applied = Result ContextResolverError (Option (List ResolveContext)) × ConnectState

abbrev pub last_page : List ContextPage → Option ContextPage
last_page [] = none
last_page (p ∷ []) = some p
last_page (p ∷ q ∷ ps) = last_page (q ∷ ps)

-- The last page of a context that came with the command is merged, whether the update failed or not.
unfoldable pub merge_resolved : Resolve → ConnectState → ConnectState
merge_resolved (by_uri uri) s = s
merge_resolved (by_context context) s = (merge_context (last_page context.pages) s).1

-- The uris of the pages that remain are to be appended.
unfoldable pub to_append :
    Result StateError (Option (List Text))
    → Result ContextResolverError (Option (List ResolveContext))
to_append (err e) = err (state_error e)
to_append (ok none) = ok none
to_append (ok (some remaining)) = ok (some (map append_context remaining))

unfoldable pub filled : Step (Unit {0}) → Applied
filled (ok u, s) = (ok none, s)
filled (err e, s) = (err (state_error e), s)

unfoldable pub append_pages : (ℕ → Text) → List ContextPage → ConnectState → Applied
append_pages new_uuid [] s = (err (unexpected_pages_size 0), s)
append_pages new_uuid (page ∷ []) s = filled (fill_context_from_page new_uuid page s)
append_pages new_uuid (page ∷ p ∷ pages) s =
    (err (unexpected_pages_size (length (page ∷ p ∷ pages))), s)

unfoldable pub apply_resolved :
    (ℕ → ℕ → Text) → ResolveContext → ContextAction → ConnectState → Context → Applied
apply_resolved new_uuid next append s context = append_pages (new_uuid 0) context.pages s
apply_resolved new_uuid next replace s context =
    let updated = update_context new_uuid context next.update s in
    (to_append updated.0, merge_resolved next.resolve updated.1)

unfoldable pub apply_found :
    (ℕ → ℕ → Text) → Option (ResolveContext × Text × ℕ) → ConnectState → Context → Applied
apply_found new_uuid none s context = (err no_next, s)
apply_found new_uuid (some (next, uri, idx)) s context =
    apply_resolved new_uuid next next.action s context

unfoldable pub apply_next_context :
    (ℕ → ℕ → Text) → ContextResolver → ConnectState → Context → Applied
apply_next_context new_uuid c s context = apply_found new_uuid (find_next c) s context

module _ (host : Host) (rng : Rng) where
  merge_resolved-Reaches :
      (r : Resolve) (s t : ConnectState)
      → Reaches host rng s t
      → Reaches host rng s (merge_resolved r t)
  unfolding merge_resolved
  merge_resolved-Reaches (by_uri uri) s t run = run
  merge_resolved-Reaches (by_context c) s t run = after run (merge (last_page c.pages))

  filled_state : (r : Step (Unit {0})) → (filled r).1 ≡ r.1
  unfolding filled
  filled_state (ok u, s) = refl
  filled_state (err e, s) = refl

  append_pages-Reaches :
      (new_uuid : ℕ → Text) (pages : List ContextPage) (s : ConnectState)
      → Reaches host rng s (append_pages new_uuid pages s).1
  unfolding append_pages
  append_pages-Reaches new_uuid [] s = here
  append_pages-Reaches new_uuid (page ∷ []) s =
      rw (filled_state (fill_context_from_page new_uuid page s)) (after here (extend new_uuid page))
  append_pages-Reaches new_uuid (page ∷ p ∷ pages) s = here

  apply_resolved-Reaches :
      (new_uuid : ℕ → ℕ → Text) (next : ResolveContext) (action : ContextAction) (s : ConnectState)
      (context : Context)
      → Reaches host rng s (apply_resolved new_uuid next action s context).1
  unfolding apply_resolved
  apply_resolved-Reaches new_uuid next append s context =
      append_pages-Reaches (new_uuid 0) context.pages s
  apply_resolved-Reaches new_uuid next replace s context =
      merge_resolved-Reaches next.resolve s (update_context new_uuid context next.update s).1
        (after here (load new_uuid context next.update))

  apply_found-Reaches :
      (new_uuid : ℕ → ℕ → Text) (found : Option (ResolveContext × Text × ℕ)) (s : ConnectState)
      (context : Context)
      → Reaches host rng s (apply_found new_uuid found s context).1
  unfolding apply_found
  apply_found-Reaches new_uuid none s context = here
  apply_found-Reaches new_uuid (some (next, uri, idx)) s context =
      apply_resolved-Reaches new_uuid next next.action s context

  -- What `apply_next_context` leaves, also when it fails, is a state that operations of the connect
  -- state reach.
  apply_next_context-Reaches :
      (new_uuid : ℕ → ℕ → Text) (c : ContextResolver) (s : ConnectState) (context : Context)
      → Reaches host rng s (apply_next_context new_uuid c s context).1
  unfolding apply_next_context
  apply_next_context-Reaches new_uuid c s context =
      apply_found-Reaches new_uuid (find_next c) s context
