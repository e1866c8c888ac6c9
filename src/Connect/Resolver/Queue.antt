-- ===== src/Connect/Resolver/Queue.antt =====
-- connect/src/context_resolver.rs: what the operations of the resolver do to its queue, and when a context is tried again.
use librespot.Base.{
  ℕ, ◌+◌, ◌≡◌, refl, ap, Bool, List, [], ◌∷◌, ◌++◌, Option, none, some, drop, drop-append, length,
  Bool-cases, Option-cases, inl, inr, arith,
}
use librespot.Base.Text.{Text}
use librespot.Connect.Resolver.{
  ResolveContext, ContextResolver, resolve_uri, find_next, find_next_from, drop_used,
  remove_used_and_invalid, last_try_at, forget_try,
}

-- No context of the list has a uri to resolve.
abbrev pub AllInvalid : List ResolveContext → Type 0
AllInvalid [] = Unit
AllInvalid (r ∷ rs) = (resolve_uri r ≡ none) × AllInvalid rs

-- What `find_next` says of a queue, counting from place `i` on.
abbrev FoundFrom : ℕ → List ResolveContext → Option (ResolveContext × Text × ℕ) → Type 0
FoundFrom i queue none = AllInvalid queue
FoundFrom i queue (some (next, uri, idx)) =
    (before : List ResolveContext) × (after : List ResolveContext) × (queue
      ≡ before ++ next ∷ after)
    × AllInvalid before
    × (resolve_uri next ≡ some uri)
    × (i + length before ≡ idx)

skip_invalid :
    (i : ℕ) (r : ResolveContext) (queue : List ResolveContext)
    (found : Option (ResolveContext × Text × ℕ))
    → resolve_uri r ≡ none
    → FoundFrom (i + 1) queue found
    → FoundFrom i (r ∷ queue) found
skip_invalid i r queue none e f = (e, f)
skip_invalid i r queue (some (next, uri, idx)) e (before, after, split, invalid, has_uri, place) =
    (r ∷ before, after, ap (◌∷◌ r) split, (e, invalid), has_uri, omega (arith, place))

find_next_from_lem :
    (i : ℕ) (queue : List ResolveContext) → FoundFrom i queue (find_next_from i queue)
unfolding find_next_from
find_next_from_lem i [] = tt
find_next_from_lem i (r ∷ queue) = elim (Option-cases (resolve_uri r)) [
  | inl e ↦
      let later =
        skip_invalid i r queue (find_next_from (i + 1) queue) e
          (find_next_from_lem (i + 1) queue) in
      rw (e, find_next_from) later
  | inr (uri, e) ↦ rw (e, find_next_from) ([], queue, refl, tt, e, omega arith)
]

-- What `remove_used_and_invalid` takes out of a queue.
unfoldable pub Removed :
    List ResolveContext → List ResolveContext → Option (ResolveContext × Text × ℕ) → Type 0
Removed queue rest none = AllInvalid queue × (rest ≡ drop 1 queue)
Removed queue rest (some (next, uri, idx)) =
    (before : List ResolveContext) × (queue ≡ before ++ next ∷ rest)
    × AllInvalid before
    × (resolve_uri next ≡ some uri)
    × (length before ≡ idx)

drop_used_lem :
    (queue : List ResolveContext) (found : Option (ResolveContext × Text × ℕ))
    → FoundFrom 0 queue found
    → Removed queue (drop_used found queue) found
unfolding Removed drop_used
drop_used_lem queue none f = (f, refl)
drop_used_lem queue (some (next, uri, idx)) (before, after, split, invalid, has_uri, place) =
    let rest : drop 1 (drop idx queue) ≡ after =
      rw (split, drop-append idx before (next ∷ after) (omega (arith, place))) refl in
    (before, rw rest split, invalid, has_uri, omega (arith, place))

-- `find_next` gives the first context of the queue that has a uri to resolve, with this uri and its
-- place, and `remove_used_and_invalid` leaves what stands behind it. If no context has one, only
-- the first is taken out.
pub remove_used_and_invalid_lem :
    (c : ContextResolver) → Removed c.queue (remove_used_and_invalid c).queue (find_next c)
unfolding remove_used_and_invalid find_next
remove_used_and_invalid_lem c =
    drop_used_lem c.queue (find_next_from 0 c.queue) (find_next_from_lem 0 c.queue)

module _ (equals : ResolveContext → ResolveContext → Bool) where
  pub forgotten :
      (x : ResolveContext) (rs : List (ResolveContext × ℕ))
      → last_try_at equals x (forget_try equals x rs) ≡ none
  unfolding last_try_at forget_try
  forgotten x [] = refl
  forgotten x ((y, at) ∷ rs) = elim (Bool-cases (equals y x)) [
    | inl e ↦ rw e (forgotten x rs)
    | inr e ↦ rw e (rw (e, last_try_at) (forgotten x rs))
  ]
