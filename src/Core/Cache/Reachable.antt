-- ===== src/Core/Cache/Reachable.antt =====
-- `pop` in full, and the limiters that sequences of operations reach.
use librespot.Base.{
  ℕ, ◌+◌, ◌≤◌, ◌<◌, ◌≡◌, ◌≢◌, refl, sym, true, false, List, [], ◌∷◌, none, some, if◌then◌else◌,
  length, Bool-cases, Option-cases, inl, inr, arith,
}
use librespot.Base.Word.{usize_mod}
use librespot.Base.Text.{Text, text_eq, text_eq_refl, text_eq→eq}
use librespot.Base.Dict.{find_entry}
use librespot.Core.Cache.{
  PriorityQueue, Reverse, SizeLimiter, new, add, pop, popped, update, updated, remove, removed,
  forget, exceeds_limit,
}
use librespot.Core.Cache.Queue.{QueueLaws, is_some, total, size_or_zero}
use librespot.Core.Cache.Consistent.{
  IsConsistent, new-IsConsistent, add-IsConsistent, forget-IsConsistent, length-remove,
  forget_frees,
}

-- A path that stands in the map, when the sum is not zero.
some_key : (es : List (Text × ℕ)) → 0 < total es → (k : Text) × (is_some (find_entry k es) ≡ true)
unfolding find_entry
some_key [] h = absurd (omega arith)
some_key ((name, size) ∷ es) h = (name, rw (text_eq_refl name) refl)

module _ (Q : PriorityQueue) (L : QueueLaws Q) where
  -- What `pop` does when it removes `file`.
  pub record Evicts (l l' : SizeLimiter Q) (file : Text) : Type 0 where
    pub accessed : Reverse
    pub found : L.priority l.queue file ≡ some accessed
    pub oldest : (k : Text) (r : Reverse) → L.priority l.queue k ≡ some r → accessed.time ≤ r.time
    pub others :
        (k : Text) → L.priority l'.queue k ≡ (if text_eq file k then none else L.priority l.queue k)
    pub freed : l'.in_use + size_or_zero (find_entry file l.sizes) ≡ l.in_use
    pub consistent : IsConsistent Q L l'
    pub shorter : length l'.sizes < length l.sizes
    pub same_limit : l'.size_limit ≡ l.size_limit

  pub pop_within : (l : SizeLimiter Q) → exceeds_limit Q l ≡ false → pop Q l ≡ (none, l)
  unfolding pop
  pop_within l h = rw h refl

  forget-Evicts :
      (l : SizeLimiter Q) (file : Text) (queue : Q.Queue)
      → IsConsistent Q L l
      → Q.pop l.queue ≡ some (file, queue)
      → Evicts l (forget Q l file queue) file
  forget-Evicts l file queue c e =
      let law = L.pop-some l.queue queue file e in
      let held : is_some (find_entry file l.sizes) ≡ true =
        rw (sym (c.same_keys file)) (rw law.1 refl) in
      record {
        accessed = law.0;
        found = law.1;
        oldest = law.2;
        others = λ k. unfold forget in law.3 k;
        freed = forget_frees Q L l file queue c;
        consistent = forget-IsConsistent Q L l file queue c law.3;
        shorter = unfold forget in length-remove file l.sizes held;
        same_limit = unfold forget in refl;
      }

  -- Over the limit the sum is not zero, so a path is left in the queue.
  not_empty :
      (l : SizeLimiter Q) → IsConsistent Q L l → exceeds_limit Q l ≡ true → Q.pop l.queue ≢ none
  unfolding exceeds_limit
  not_empty l c h e =
      let key = some_key l.sizes (ground (arith, c.counted)) in
      let gone = L.pop-none l.queue e key.0 in ground (arith, c.same_keys key.0, key.1, gone)

  pub pop_over :
      (l : SizeLimiter Q)
      → IsConsistent Q L l
      → exceeds_limit Q l ≡ true
      → (file : Text) × ((pop Q l).0 ≡ some file) × Evicts l (pop Q l).1 file
  unfolding pop popped
  pop_over l c h = rw h (elim (Option-cases (Q.pop l.queue)) [
    | inl e ↦ absurd (not_empty l c h e)
    | inr (next, e) ↦ rw e (next.0, refl, forget-Evicts l next.0 next.1 c e)
  ])

  -- `pop` removes a file exactly when the sizes exceed the limit, and then one that no other was
  -- accessed before, with its size taken from the sum; all other files stay as they are.
  pub pop_lem :
      (l : SizeLimiter Q)
      → IsConsistent Q L l
      → (exceeds_limit Q l ≡ false → pop Q l ≡ (none, l))
        × (exceeds_limit Q l ≡ true
            → (file : Text) × ((pop Q l).0 ≡ some file) × Evicts l (pop Q l).1 file)
  pop_lem l c = (pop_within l, pop_over l c)

  -- The operations on a limiter, each with any arguments; the sum must not overflow in `add`.
  pub data Step : SizeLimiter Q → SizeLimiter Q → Type 0 where
    added :
        (l : SizeLimiter Q) (file : Text) (size accessed : ℕ)
        → l.in_use + size < usize_mod
        → Step l (add Q l file size accessed)
    evicted : (l : SizeLimiter Q) → Step l (pop Q l).1
    touched :
        (l : SizeLimiter Q) (file : Text) (access_time : ℕ) → Step l (update Q l file access_time).1
    deleted : (l : SizeLimiter Q) (file : Text) → Step l (remove Q l file).1

  pub data Reachable (limit : ℕ) : SizeLimiter Q → Type 0 where
    started : Reachable limit (new Q limit)
    stepped : (l l' : SizeLimiter Q) → Reachable limit l → Step l l' → Reachable limit l'

  pop-IsConsistent : (l : SizeLimiter Q) → IsConsistent Q L l → IsConsistent Q L (pop Q l).1
  pop-IsConsistent l c = elim (Bool-cases (exceeds_limit Q l)) [
    | inl e ↦ (pop_over l c e).2.consistent
    | inr e ↦ rw (pop_within l e) c
  ]

  touched_keys :
      (l : SizeLimiter Q) (file k : Text) (p : Reverse) (queue : Q.Queue)
      → IsConsistent Q L l
      → Q.change_priority l.queue file p ≡ some queue
      → is_some (if text_eq file k then some p else L.priority l.queue k)
        ≡ is_some (find_entry k l.sizes)
  touched_keys l file k p queue c e =
      let found : is_some (L.priority l.queue file) ≡ true =
        rw (sym (L.change-found l.queue file p)) (rw e refl) in
      elim (Bool-cases (text_eq file k)) [
        | inl same ↦
            rw same (rw (sym (c.same_keys k)) (rw (sym (text_eq→eq file k same)) (sym found)))
        | inr other ↦ rw other (c.same_keys k)
      ]

  update-IsConsistent :
      (l : SizeLimiter Q) (file : Text) (access_time : ℕ)
      → IsConsistent Q L l
      → IsConsistent Q L (update Q l file access_time).1
  unfolding update updated
  update-IsConsistent l file access_time c =
      let p : Reverse = record { time = access_time } in
      elim (Option-cases (Q.change_priority l.queue file p)) [
        | inl e ↦ rw e c
        | inr (queue, e) ↦ rw e record {
          same_keys =
              λ k. rw (L.change-some l.queue queue file k p e) (touched_keys l file k p queue c e);
          once = c.once;
          counted = c.counted;
          fits = c.fits;
        }
      ]

  remove-IsConsistent :
      (l : SizeLimiter Q) (file : Text) → IsConsistent Q L l → IsConsistent Q L (remove Q l file).1
  unfolding remove removed
  remove-IsConsistent l file c = elim (Option-cases (Q.remove l.queue file)) [
    | inl e ↦ rw e c
    | inr (queue, e) ↦
        rw e (forget-IsConsistent Q L l file queue c (λ k. L.remove-some l.queue queue file k e))
  ]

  step-IsConsistent : (l l' : SizeLimiter Q) → Step l l' → IsConsistent Q L l → IsConsistent Q L l'
  step-IsConsistent _ _ (added l file size accessed h) c =
      add-IsConsistent Q L l file size accessed c h
  step-IsConsistent _ _ (evicted l) c = pop-IsConsistent l c
  step-IsConsistent _ _ (touched l file access_time) c = update-IsConsistent l file access_time c
  step-IsConsistent _ _ (deleted l file) c = remove-IsConsistent l file c

  -- After any sequence of operations on a new limiter, none of which overflows the sum, the queue
  -- and the map have the same paths and the counter is the sum of the sizes in the map.
  pub Reachable-IsConsistent :
      (limit : ℕ) (l : SizeLimiter Q) → Reachable limit l → IsConsistent Q L l
  Reachable-IsConsistent limit _ started = new-IsConsistent Q L limit
  Reachable-IsConsistent limit _ (stepped l l' r s) =
      step-IsConsistent l l' s (Reachable-IsConsistent limit l r)
