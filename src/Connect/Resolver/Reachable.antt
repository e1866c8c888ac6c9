-- ===== src/Connect/Resolver/Reachable.antt =====
-- connect/src/context_resolver.rs: the queues that sequences of operations reach hold each context once, and so do the notes.
use librespot.Base.{
  ℕ, zero, suc, ◌-◌, ◌≡◌, refl, false, Bool, List, [], ◌∷◌, ◌++◌, Option, none, some, ◌||◌, drop,
  ltb, Bool-cases, inl, inr, arith,
}
use librespot.Base.Text.{Text}
use librespot.Connect.Resolver.Queue.{forgotten}
use librespot.Connect.Resolver.{
  ResolveContext, ContextResolver, new, clear, find_next, drop_used, remove_used_and_invalid,
  queued, last_try_at, forget_try, push_new, add, add_list, add_tried, mark_unavailable_at,
  mark_next_unavailable, retry_unavailable, is_some,
}

module _ (equals : ResolveContext → ResolveContext → Bool)
    (symmetric : (a b : ResolveContext) → equals a b ≡ equals b a) where
  abbrev pub Once : List ResolveContext → Type 0
  Once [] = Unit
  Once (r ∷ rs) = (queued equals r rs ≡ false) × Once rs

  abbrev pub NotedOnce : List (ResolveContext × ℕ) → Type 0
  NotedOnce [] = Unit
  NotedOnce ((r, at) ∷ rs) = (is_some (last_try_at equals r rs) ≡ false) × NotedOnce rs

  queued-append :
      (r x : ResolveContext) (rs : List ResolveContext)
      → queued equals r (rs ++ x ∷ []) ≡ queued equals r rs || equals x r
  unfolding queued
  queued-append r x [] = ground arith
  queued-append r x (y ∷ rs) = ground (arith, queued-append r x rs)

  append-Once :
      (r : ResolveContext) (rs : List ResolveContext)
      → queued equals r rs ≡ false
      → Once rs
      → Once (rs ++ r ∷ [])
  unfolding queued
  append-Once r [] h o = (refl, tt)
  append-Once r (x ∷ rs) h (first, o) =
      (ground (arith, queued-append x r rs, symmetric x r), append-Once r rs (ground arith) o)

  drop-Once : (n : ℕ) (rs : List ResolveContext) → Once rs → Once (drop n rs)
  drop-Once zero rs o = o
  drop-Once (suc n) [] o = o
  drop-Once (suc n) (x ∷ rs) (first, o) = drop-Once n rs o

  try_of_other :
      (r x : ResolveContext) (rs : List (ResolveContext × ℕ))
      → is_some (last_try_at equals r rs) ≡ false
      → is_some (last_try_at equals r (forget_try equals x rs)) ≡ false
  unfolding last_try_at forget_try
  try_of_other r x [] h = refl
  try_of_other r x ((y, at) ∷ rs) h = ground (arith, try_of_other r x rs)

  forget_try-NotedOnce :
      (x : ResolveContext) (rs : List (ResolveContext × ℕ))
      → NotedOnce rs
      → NotedOnce (forget_try equals x rs)
  unfolding forget_try
  forget_try-NotedOnce x [] o = tt
  forget_try-NotedOnce x ((y, at) ∷ rs) (first, o) = elim (Bool-cases (equals y x)) [
    | inl e ↦ rw e (forget_try-NotedOnce x rs o)
    | inr e ↦ rw e (try_of_other y x rs first, forget_try-NotedOnce x rs o)
  ]

  -- No context waits twice, and none is noted twice.
  pub record IsOnce (c : ContextResolver) : Type 0 where
    pub waiting : Once c.queue
    pub noted : NotedOnce c.unavailable_contexts

  -- One call of a method that changes the resolver, at some time.
  pub data Change : ContextResolver → ContextResolver → Type 0 where
    added : (c : ContextResolver) (now : ℕ) (r : ResolveContext) → Change c (add equals now r c)
    all_added :
        (c : ContextResolver) (now : ℕ) (rs : List ResolveContext)
        → Change c (add_list equals now rs c)
    removed : (c : ContextResolver) → Change c (remove_used_and_invalid c)
    cleared : (c : ContextResolver) → Change c (clear c)
    marked : (c : ContextResolver) (now : ℕ) → Change c (mark_next_unavailable equals now c)

  pub data Reachable : ContextResolver → Type 0 where
    started : Reachable new
    stepped : (c c' : ContextResolver) → Reachable c → Change c c' → Reachable c'

  push_new-IsOnce :
      (r : ResolveContext) (c : ContextResolver) → IsOnce c → IsOnce (push_new equals r c)
  unfolding push_new
  push_new-IsOnce r c o = elim (Bool-cases (queued equals r c.queue)) [
    | inl e ↦ rw (e, push_new) o
    | inr e ↦
        rw (e, push_new) (record { waiting = append-Once r c.queue e o.waiting; noted = o.noted })
  ]

  add_tried-IsOnce :
      (now : ℕ) (r : ResolveContext) (at : Option ℕ) (c : ContextResolver)
      → IsOnce c
      → IsOnce (add_tried equals now r at c)
  unfolding add_tried
  add_tried-IsOnce now r none c o = push_new-IsOnce r c o
  add_tried-IsOnce now r (some at) c o = elim (Bool-cases (ltb retry_unavailable (now - at))) [
    | inl e ↦
        let forgot : ContextResolver = record c {
          unavailable_contexts = forget_try equals r c.unavailable_contexts;
        } in
        rw (e, add_tried)
          (push_new-IsOnce r forgot (record {
            waiting = o.waiting;
            noted = forget_try-NotedOnce r c.unavailable_contexts o.noted;
          }))
    | inr e ↦ rw (e, add_tried) o
  ]

  add-IsOnce :
      (now : ℕ) (r : ResolveContext) (c : ContextResolver) → IsOnce c → IsOnce (add equals now r c)
  unfolding add
  add-IsOnce now r c o = add_tried-IsOnce now r (last_try_at equals r c.unavailable_contexts) c o

  add_list-IsOnce :
      (now : ℕ) (rs : List ResolveContext) (c : ContextResolver)
      → IsOnce c
      → IsOnce (add_list equals now rs c)
  unfolding add_list
  add_list-IsOnce now [] c o = o
  add_list-IsOnce now (r ∷ rs) c o =
      add_list-IsOnce now rs (add equals now r c) (add-IsOnce now r c o)

  drop_used-Once :
      (found : Option (ResolveContext × Text × ℕ)) (rs : List ResolveContext)
      → Once rs
      → Once (drop_used found rs)
  unfolding drop_used
  drop_used-Once none rs o = drop-Once 1 rs o
  drop_used-Once (some (next, uri, remove)) rs o =
      drop-Once 1 (drop remove rs) (drop-Once remove rs o)

  mark_unavailable_at-IsOnce :
      (now : ℕ) (found : Option (ResolveContext × Text × ℕ)) (c : ContextResolver)
      → IsOnce c
      → IsOnce (mark_unavailable_at equals now found c)
  unfolding mark_unavailable_at
  mark_unavailable_at-IsOnce now none c o = o
  mark_unavailable_at-IsOnce now (some (next, uri, idx)) c o = record {
    waiting = o.waiting;
    noted = (
      rw (forgotten equals next c.unavailable_contexts) refl,
      forget_try-NotedOnce next c.unavailable_contexts o.noted,
    );
  }

  Change-IsOnce : {c c' : ContextResolver} → Change c c' → IsOnce c → IsOnce c'
  unfolding remove_used_and_invalid clear mark_next_unavailable
  Change-IsOnce (added c now r) o = add-IsOnce now r c o
  Change-IsOnce (all_added c now rs) o = add_list-IsOnce now rs c o
  Change-IsOnce (removed c) o = record {
    waiting = drop_used-Once (find_next c) c.queue o.waiting;
    noted = o.noted;
  }
  Change-IsOnce (cleared c) o = record { waiting = tt; noted = o.noted }
  Change-IsOnce (marked c now) o = mark_unavailable_at-IsOnce now (find_next c) c o

  -- Whatever the order of the calls is, no context waits twice in the queue of the resolver, and
  -- none is noted twice as unavailable; `equals` is symmetric.
  pub Reachable-IsOnce : (c : ContextResolver) → Reachable c → IsOnce c
  unfolding new
  Reachable-IsOnce c started = record { waiting = tt; noted = tt }
  Reachable-IsOnce c (stepped before c' r change) = Change-IsOnce change (Reachable-IsOnce before r)
