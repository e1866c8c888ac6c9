-- ===== src/Connect/Resolver/Retry.antt =====
-- connect/src/context_resolver.rs: when a context that was marked as unavailable is tried again.
use librespot.Base.{
  ℕ, ◌-◌, ◌≡◌, refl, sym, true, false, Bool, List, [], ◌∷◌, ◌++◌, some, leb, ltb, if◌then◌else◌,
  subst, Bool-cases, inl, inr, arith,
}
use librespot.Base.Text.{Text}
use librespot.Connect.Resolver.{
  ResolveContext, ContextResolver, find_next, remove_used_and_invalid, queued, last_try_at,
  forget_try, push_new, add, add_tried, mark_unavailable_at, mark_next_unavailable,
  retry_unavailable,
}
use librespot.Connect.Resolver.Queue.{Removed, remove_used_and_invalid_lem}
use librespot.Connect.Resolver.Reachable.{Once, IsOnce}

module _ (equals : ResolveContext → ResolveContext → Bool)
    (symmetric : (a b : ResolveContext) → equals a b ≡ equals b a) where
  Once-after :
      (before rest : List ResolveContext) (r : ResolveContext)
      → Once equals symmetric (before ++ r ∷ rest)
      → queued equals r rest ≡ false
  Once-after [] rest r o = o.0
  Once-after (x ∷ before) rest r o = Once-after before rest r o.1

  -- What `add` makes of `c` with a context that does not wait in `c` and that was noted as
  -- unavailable `ago` nanoseconds before.
  pub Retried : ℕ → ResolveContext → ContextResolver → ContextResolver → Type 0
  Retried ago r c c' =
      (queued equals r c.queue ≡ false)
      × (if leb ago retry_unavailable
          then c' ≡ c
          else ((c'.queue ≡ c.queue ++ r ∷ [])
              × (c'.unavailable_contexts ≡ forget_try equals r c.unavailable_contexts)))

  add_tried-Retried :
      (at now : ℕ) (r : ResolveContext) (c : ContextResolver)
      → queued equals r c.queue ≡ false
      → Retried (now - at) r c (add_tried equals now r (some at) c)
  unfolding Retried add_tried push_new
  add_tried-Retried at now r c w = elim (Bool-cases (ltb retry_unavailable (now - at))) [
    | inl e ↦
        let late : leb (now - at) retry_unavailable ≡ false = ground (arith, e) in
        (w, rw (late, e, w) (refl, refl))
    | inr e ↦
        let early : leb (now - at) retry_unavailable ≡ true = ground (arith, e) in
        (w, rw (early, e) refl)
  ]

  add-Retried :
      (at now : ℕ) (r : ResolveContext) (c : ContextResolver)
      → last_try_at equals r c.unavailable_contexts ≡ some at
      → queued equals r c.queue ≡ false
      → Retried (now - at) r c (add equals now r c)
  unfolding add
  add-Retried at now r c h w = rw h (add_tried-Retried at now r c w)

  noted_at :
      ((a : ResolveContext) → equals a a ≡ true)
      → (at : ℕ) (r : ResolveContext) (rs : List (ResolveContext × ℕ))
      → last_try_at equals r ((r, at) ∷ rs) ≡ some at
  unfolding last_try_at
  noted_at self at r rs = rw (self r) refl

  marked_resolver : ℕ → ResolveContext → ContextResolver → ContextResolver
  marked_resolver at next c = record c {
    unavailable_contexts = (next, at) ∷ forget_try equals next c.unavailable_contexts;
  }

  mark_next_unavailable_lem :
      (at : ℕ) (c : ContextResolver) (next : ResolveContext) (uri : Text) (idx : ℕ)
      → find_next c ≡ some (next, uri, idx)
      → mark_next_unavailable equals at c ≡ marked_resolver at next c
  unfolding mark_next_unavailable mark_unavailable_at marked_resolver
  mark_next_unavailable_lem at c next uri idx h = rw h refl

  removed-queued :
      (c : ContextResolver) (next : ResolveContext) (uri : Text) (idx : ℕ)
      → IsOnce equals symmetric c
      → find_next c ≡ some (next, uri, idx)
      → queued equals next (remove_used_and_invalid c).queue ≡ false
  unfolding Removed
  removed-queued c next uri idx o h =
      let removed : Removed c.queue (remove_used_and_invalid c).queue (some (next, uri, idx)) =
        subst (Removed c.queue (remove_used_and_invalid c).queue) h
          (remove_used_and_invalid_lem c) in
      Once-after removed.0 (remove_used_and_invalid c).queue next
        (subst (Once equals symmetric) removed.1 o.waiting)

  marked-queued :
      (at : ℕ) (next : ResolveContext) (uri : Text) (idx : ℕ) (c : ContextResolver)
      → IsOnce equals symmetric c
      → find_next c ≡ some (next, uri, idx)
      → queued equals next (remove_used_and_invalid (marked_resolver at next c)).queue ≡ false
  unfolding marked_resolver remove_used_and_invalid find_next
  marked-queued at next uri idx c o h =
      unfold remove_used_and_invalid find_next in removed-queued c next uri idx o h

  noted_after :
      ((a : ResolveContext) → equals a a ≡ true)
      → (at : ℕ) (next : ResolveContext) (c : ContextResolver)
      → last_try_at equals next
          (remove_used_and_invalid (marked_resolver at next c)).unavailable_contexts
        ≡ some at
  unfolding marked_resolver remove_used_and_invalid
  noted_after self at next c = noted_at self at next (forget_try equals next c.unavailable_contexts)

  -- The next context could not be resolved: it is marked as unavailable and taken from the queue,
  -- which holds each context once. Within an hour `add` then changes nothing when it gets this
  -- context, which stays out of the queue; later `add` puts it at the end of the queue and forgets
  -- the note. `equals` is reflexive and symmetric.
  pub add-mark_next_unavailable :
      ((a : ResolveContext) → equals a a ≡ true)
      → (at now : ℕ) (c : ContextResolver) (next : ResolveContext) (uri : Text) (idx : ℕ)
      → IsOnce equals symmetric c
      → find_next c ≡ some (next, uri, idx)
      → let c' = remove_used_and_invalid (mark_next_unavailable equals at c) in
        Retried (now - at) next c' (add equals now next c')
  add-mark_next_unavailable self at now c next uri idx o h =
      subst
        (λ m.
          Retried (now - at) next (remove_used_and_invalid m)
            (add equals now next (remove_used_and_invalid m)))
        (sym (mark_next_unavailable_lem at c next uri idx h))
        (add-Retried at now next (remove_used_and_invalid (marked_resolver at next c))
          (noted_after self at next c) (marked-queued at next uri idx c o h))
