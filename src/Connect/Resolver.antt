-- ===== src/Connect/Resolver.antt =====
-- connect/src/context_resolver.rs: the queue of contexts that are to be resolved. Times are in
-- nanoseconds. The derived equality of `ResolveContext`, which compares whole messages, is an
-- argument.
pub mod Queue
pub mod Reachable
pub mod Retry
pub mod Apply
mod Examples
use librespot.Base.{
  ℕ, zero, suc, ◌+◌, ◌-◌, Bool, true, false, not, List, [], ◌∷◌, ◌++◌, Option, none, some, ◌||◌,
  ltb, if◌then◌else◌, map, drop, length,
}
use librespot.Base.Text.{Text, codes}
use librespot.Base.Result.{Result, ok, err}
use librespot.Connect.Track.{starts_with}
use librespot.Connect.State.{ContextType, default, autoplay, StateError, ConnectState, Step}
use librespot.Connect.Update.{Context, ContextPage, ContextTrack, is_nil, unwrap_or, contains_text}
use librespot.Connect.Update.Pages.{update_context, fill_context_from_page}
use librespot.Connect.Update.Merge.{merge_context}

pub data Resolve : Type 0 where
  by_uri : Text → Resolve
  by_context : Context → Resolve

pub data ContextAction : Type 0 where
  append replace : ContextAction

pub record ResolveContext : Type 0 where
  pub resolve : Resolve
  pub fallback : Option Text
  pub update : ContextType
  pub action : ContextAction

unfoldable pub append_context : Text → ResolveContext
append_context uri = record {
  resolve = by_uri uri;
  fallback = none;
  update = default;
  action = append;
}

unfoldable pub resolve_from_uri : Text → Text → ContextType → ContextAction → ResolveContext
resolve_from_uri uri fallback update action = record {
  resolve = by_uri uri;
  fallback = if is_nil fallback then none else some fallback;
  update = update;
  action = action;
}

unfoldable pub resolve_from_context : Context → ContextType → ContextAction → ResolveContext
resolve_from_context context update action = record {
  resolve = by_context context;
  fallback = none;
  update = update;
  action = action;
}

unfoldable pub valid_resolve_uri : Text → Option Text
valid_resolve_uri uri =
    if is_nil uri || starts_with uri (codes "spotify:search") then none else some uri

abbrev pub or_else {ℓ} : {A : Type ℓ} → Option A → Option A → Option A
or_else none other = other
or_else (some a) other = some a

-- The uri of the first track of the first page.
unfoldable pub first_track_uri : List ContextPage → Option Text
first_track_uri [] = none
first_track_uri (page ∷ pages) = elim page.page_tracks [ [] ↦ none | t ∷ ts ↦ t.track_uri ]

unfoldable pub find_valid_uri : Option Text → List ContextPage → Option Text
find_valid_uri context_uri pages =
    or_else (elim context_uri [ none ↦ none | some uri ↦ valid_resolve_uri uri ])
      (first_track_uri pages)

unfoldable pub resolve_uri : ResolveContext → Option Text
resolve_uri r =
    or_else
      (elim r.resolve [
        | by_uri uri ↦ valid_resolve_uri uri
        | by_context c ↦ find_valid_uri c.uri c.pages
      ])
      r.fallback

unfoldable pub resolved_context_uri : ResolveContext → Text
resolved_context_uri r = elim r.resolve [ by_uri uri ↦ uri | by_context c ↦ unwrap_or [] c.uri ]

pub record ContextResolver : Type 0 where
  pub queue : List ResolveContext
  pub unavailable_contexts : List (ResolveContext × ℕ)

unfoldable pub new : ContextResolver
new = record { queue = []; unavailable_contexts = [] }

abbrev pub retry_unavailable : ℕ
retry_unavailable = 3600000000000

-- The first context of the queue with a uri to resolve, the uri, and its place.
unfoldable pub find_next_from : ℕ → List ResolveContext → Option (ResolveContext × Text × ℕ)
find_next_from idx [] = none
find_next_from idx (next ∷ queue) =
    let later = find_next_from (idx + 1) queue in
    elim (resolve_uri next) [ none ↦ later | some uri ↦ some (next, uri, idx) ]

unfoldable pub find_next : ContextResolver → Option (ResolveContext × Text × ℕ)
find_next c = find_next_from 0 c.queue

abbrev pub is_some {ℓ} : {A : Type ℓ} → Option A → Bool
is_some none = false
is_some (some a) = true

unfoldable pub has_next : ContextResolver → Bool
has_next c = is_some (find_next c)

-- `drain(0..remove)` and `pop_front`.
unfoldable pub drop_used :
    Option (ResolveContext × Text × ℕ) → List ResolveContext → List ResolveContext
drop_used none queue = drop 1 queue
drop_used (some (next, uri, remove)) queue = drop 1 (drop remove queue)

unfoldable pub remove_used_and_invalid : ContextResolver → ContextResolver
remove_used_and_invalid c = record c { queue = drop_used (find_next c) c.queue }

unfoldable pub clear : ContextResolver → ContextResolver
clear c = record c { queue = [] }

module _ (equals : ResolveContext → ResolveContext → Bool) where
  unfoldable pub queued : ResolveContext → List ResolveContext → Bool
  queued r [] = false
  queued r (x ∷ xs) = equals x r || queued r xs

  unfoldable pub last_try_at : ResolveContext → List (ResolveContext × ℕ) → Option ℕ
  last_try_at r [] = none
  last_try_at r ((x, at) ∷ xs) =
      let later = last_try_at r xs in if equals x r then some at else later

  unfoldable pub forget_try : ResolveContext → List (ResolveContext × ℕ) → List (ResolveContext × ℕ)
  forget_try r [] = []
  forget_try r ((x, at) ∷ xs) =
      let later = forget_try r xs in if equals x r then later else (x, at) ∷ later

  -- The queue takes a context that does not wait in it.
  unfoldable pub push_new : ResolveContext → ContextResolver → ContextResolver
  push_new r c = if queued r c.queue then c else record c { queue = c.queue ++ r ∷ [] }

  unfoldable pub add_tried : ℕ → ResolveContext → Option ℕ → ContextResolver → ContextResolver
  add_tried now r none c = push_new r c
  add_tried now r (some at) c =
      if ltb retry_unavailable (now - at)
      then push_new r (record c { unavailable_contexts = forget_try r c.unavailable_contexts })
      else c

  unfoldable pub add : ℕ → ResolveContext → ContextResolver → ContextResolver
  add now r c = add_tried now r (last_try_at r c.unavailable_contexts) c

  unfoldable pub add_list : ℕ → List ResolveContext → ContextResolver → ContextResolver
  add_list now [] c = c
  add_list now (r ∷ rs) c = add_list now rs (add now r c)

  unfoldable pub mark_unavailable_at :
      ℕ → Option (ResolveContext × Text × ℕ) → ContextResolver → ContextResolver
  mark_unavailable_at now none c = c
  mark_unavailable_at now (some (next, uri, idx)) c = record c {
    unavailable_contexts = (next, now) ∷ forget_try next c.unavailable_contexts;
  }

  unfoldable pub mark_next_unavailable : ℕ → ContextResolver → ContextResolver
  mark_next_unavailable now c = mark_unavailable_at now (find_next c) c
