-- ===== src/Connect/Resolver/Examples.antt =====
-- A resolver whose queue has a search, which has no uri to resolve, and two playlists.
use librespot.Base.{◌≡◌, refl, sym, ◌∙◌, true, Bool, [], ◌∷◌, some, Bool-cases, inl, inr}
use librespot.Base.Text.{Text, codes, text_eq, text_eq_refl, text_eq→eq}
use librespot.Connect.Track.{starts_with}
use librespot.Connect.State.{default}
use librespot.Connect.Resolver.{
  ResolveContext, ContextResolver, replace, resolve_from_uri, new, add_list, add, add_tried,
  push_new, last_try_at, queued, find_next, find_next_from, resolve_uri, valid_resolve_uri,
  remove_used_and_invalid, drop_used, resolved_context_uri, mark_next_unavailable,
}
use librespot.Connect.Resolver.Queue.{Removed, remove_used_and_invalid_lem}
use librespot.Connect.Resolver.Retry.{Retried, add-mark_next_unavailable}
use librespot.Connect.Resolver.Reachable.{
  IsOnce, Reachable, started, stepped, all_added, removed, marked, Reachable-IsOnce,
}

-- An equality that looks at the uris.
abbrev same_uri : ResolveContext → ResolveContext → Bool
unfolding resolved_context_uri
same_uri a b = text_eq (resolved_context_uri a) (resolved_context_uri b)

text_eq_sym : (a b : Text) → text_eq a b ≡ text_eq b a
text_eq_sym a b = elim (Bool-cases (text_eq a b)) [
  | inl e ↦ rw (text_eq→eq a b e) refl
  | inr e ↦ elim (Bool-cases (text_eq b a)) [
    | inl f ↦ rw (text_eq→eq b a f) refl
    | inr f ↦ e ∙ sym f
  ]
]

same_uri_sym : (a b : ResolveContext) → same_uri a b ≡ same_uri b a
unfolding same_uri
same_uri_sym a b = text_eq_sym (resolved_context_uri a) (resolved_context_uri b)

same_uri_refl : (a : ResolveContext) → same_uri a a ≡ true
unfolding same_uri
same_uri_refl a = text_eq_refl (resolved_context_uri a)

abbrev search : ResolveContext
unfolding resolve_from_uri
search = resolve_from_uri (codes "spotify:search:x") [] default replace

abbrev playlist : Text → ResolveContext
unfolding resolve_from_uri
playlist name = resolve_from_uri name [] default replace

abbrev waiting : ContextResolver
unfolding same_uri search playlist add_list
waiting = add_list same_uri 100 (search ∷ playlist (codes "p") ∷ playlist (codes "q") ∷ []) new

found_p : find_next waiting ≡ some (playlist (codes "p"), codes "p", 1)
unfolding waiting playlist search find_next add_list find_next_from resolve_uri valid_resolve_uri
    new add add_tried push_new last_try_at queued same_uri resolve_from_uri resolved_context_uri
    starts_with
found_p = refl

waiting-Reachable : Reachable same_uri same_uri_sym waiting
unfolding waiting
waiting-Reachable =
    stepped new waiting started
      (all_added new 100 (search ∷ playlist (codes "p") ∷ playlist (codes "q") ∷ []))

waiting-IsOnce : IsOnce same_uri same_uri_sym waiting
waiting-IsOnce = Reachable-IsOnce same_uri same_uri_sym waiting waiting-Reachable

Reachable-IsOnce_example :
    IsOnce same_uri same_uri_sym
      (remove_used_and_invalid (mark_next_unavailable same_uri 200000000000 waiting))
Reachable-IsOnce_example =
    Reachable-IsOnce same_uri same_uri_sym
      (remove_used_and_invalid (mark_next_unavailable same_uri 200000000000 waiting))
      (stepped (mark_next_unavailable same_uri 200000000000 waiting)
        (remove_used_and_invalid (mark_next_unavailable same_uri 200000000000 waiting))
        (stepped waiting (mark_next_unavailable same_uri 200000000000 waiting) waiting-Reachable
          (marked waiting 200000000000))
        (removed (mark_next_unavailable same_uri 200000000000 waiting)))

remove_used_and_invalid_lem_example :
    Removed waiting.queue (remove_used_and_invalid waiting).queue (find_next waiting)
remove_used_and_invalid_lem_example = remove_used_and_invalid_lem waiting

-- `remove_used_and_invalid` leaves the second playlist.
removed_p : (remove_used_and_invalid waiting).queue ≡ playlist (codes "q") ∷ []
unfolding waiting playlist search find_next add_list find_next_from resolve_uri valid_resolve_uri
    new add add_tried push_new last_try_at queued same_uri resolve_from_uri resolved_context_uri
    starts_with remove_used_and_invalid drop_used
removed_p = refl

abbrev given_up : ContextResolver
given_up = remove_used_and_invalid (mark_next_unavailable same_uri 200000000000 waiting)

add-mark_next_unavailable_example :
    Retried same_uri same_uri_sym 4000000000000
      (playlist (codes "p"))
      given_up
      (add same_uri 4200000000000 (playlist (codes "p")) given_up)
add-mark_next_unavailable_example =
    add-mark_next_unavailable same_uri same_uri_sym same_uri_refl 200000000000 4200000000000 waiting
      (playlist (codes "p")) (codes "p") 1 waiting-IsOnce found_p
