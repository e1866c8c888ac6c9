-- ===== src/Core/Cache/Consistent.antt =====
-- The invariant of the size limiter, and that every operation keeps it.
use librespot.Base.{
  subst, ℕ, ◌+◌, ◌-◌, ◌≤◌, ◌<◌, ◌≡◌, refl, true, List, [], ◌∷◌, Option, none, some, if◌then◌else◌,
  length, Bool-cases, inl, inr, arith,
}
use librespot.Base.Word.{usize_mod, wrapping_add, wrapping_add_exact, wrapping_sub_exact}
use librespot.Base.Text.{Text, text_eq, text_eq_refl, text_eq→eq}
use librespot.Base.Dict.{find_entry, put_entry, remove_entry, find_entry-put, find_entry-remove}
use librespot.Core.Cache.{PriorityQueue, SizeLimiter, new, add, forget, release}
use librespot.Core.Cache.Queue.{QueueLaws, is_some, total, size_or_zero, IsOnce}

put_entry-IsOnce :
    (file : Text) (v : ℕ) (es : List (Text × ℕ)) → IsOnce es → IsOnce (put_entry file v es)
unfolding put_entry
put_entry-IsOnce file v [] h = (unfold find_entry in refl, tt)
put_entry-IsOnce file v ((name, size) ∷ es) h = elim (Bool-cases (text_eq name file)) [
  | inl e ↦ rw e (subst (λ k. find_entry k es ≡ none) (text_eq→eq name file e) h.0, h.1)
  | inr e ↦ rw e (
      ground (
        arith,
        find_entry-put file name v es,
        put_entry-IsOnce file v es h.1,
        text_eq→eq file name,
        text_eq_refl name,
      ))
]

remove_entry-IsOnce :
    (file : Text) (es : List (Text × ℕ)) → IsOnce es → IsOnce (remove_entry file es)
unfolding remove_entry
remove_entry-IsOnce file [] h = tt
remove_entry-IsOnce file ((name, size) ∷ es) h =
    ground (arith, find_entry-remove file name es, remove_entry-IsOnce file es h.1)

total-put :
    (file : Text) (v : ℕ) (es : List (Text × ℕ))
    → total (put_entry file v es) + size_or_zero (find_entry file es) ≡ total es + v
unfolding put_entry find_entry
total-put file v [] = omega arith
total-put file v ((name, size) ∷ es) = ground (arith, total-put file v es)

remove_absent :
    (file : Text) (es : List (Text × ℕ)) → find_entry file es ≡ none → remove_entry file es ≡ es
unfolding remove_entry find_entry
remove_absent file [] h = refl
remove_absent file ((name, size) ∷ es) h = ground (arith, remove_absent file es)

total-remove :
    (file : Text) (es : List (Text × ℕ))
    → IsOnce es
    → total (remove_entry file es) + size_or_zero (find_entry file es) ≡ total es
unfolding remove_entry find_entry
total-remove file [] h = omega arith
total-remove file ((name, size) ∷ es) h =
    ground (arith, total-remove file es h.1, text_eq→eq name file, remove_absent file es)

length-remove_le : (file : Text) (es : List (Text × ℕ)) → length (remove_entry file es) ≤ length es
unfolding remove_entry
length-remove_le file [] = omega arith
length-remove_le file ((name, size) ∷ es) = ground (arith, length-remove_le file es)

pub length-remove :
    (file : Text) (es : List (Text × ℕ))
    → is_some (find_entry file es) ≡ true
    → length (remove_entry file es) < length es
unfolding remove_entry find_entry
length-remove file [] h = cc
length-remove file ((name, size) ∷ es) h =
    ground (arith, length-remove_le file es, length-remove file es)

release_exact :
    (Q : PriorityQueue) (o : Option ℕ) (n : ℕ)
    → size_or_zero o ≤ n
    → n < usize_mod
    → release Q o n ≡ n - size_or_zero o
unfolding release
release_exact Q none n h k = omega arith
release_exact Q (some size) n h k = wrapping_sub_exact n size h k

module _ (Q : PriorityQueue) (L : QueueLaws Q) where
  -- The queue and the map have the same keys, and the counter is the sum of the sizes.
  pub record IsConsistent (l : SizeLimiter Q) : Type 0 where
    pub same_keys : (k : Text) → is_some (L.priority l.queue k) ≡ is_some (find_entry k l.sizes)
    pub once : IsOnce l.sizes
    pub counted : l.in_use ≡ total l.sizes
    pub fits : total l.sizes < usize_mod

  pub new-IsConsistent : (limit : ℕ) → IsConsistent (new Q limit)
  unfolding new
  new-IsConsistent limit = record {
    same_keys = λ k. unfold find_entry in rw (L.priority-empty k) refl;
    once = tt;
    counted = refl;
    fits = omega arith;
  }

  pub add-IsConsistent :
      (l : SizeLimiter Q) (file : Text) (size accessed : ℕ)
      → IsConsistent l
      → l.in_use + size < usize_mod
      → IsConsistent (add Q l file size accessed)
  unfolding add release
  add-IsConsistent l file size accessed c h =
      let sum = total-put file size l.sizes in
      record {
        same_keys = λ k.
            rw (L.priority-push l.queue file k (record { time = accessed }))
              (rw (find_entry-put file k size l.sizes) (ground (arith, c.same_keys k)));
        once = put_entry-IsOnce file size l.sizes c.once;
        counted = omega (
          arith,
          sum,
          c.counted,
          h,
          wrapping_add_exact l.in_use size h,
          release_exact Q (find_entry file l.sizes) (wrapping_add l.in_use size)
              (omega (arith, sum, c.counted, wrapping_add_exact l.in_use size h))
              (omega (arith, h, wrapping_add_exact l.in_use size h)),
        );
        fits = omega (arith, sum, c.counted, h);
      }

  pub forget-IsConsistent :
      (l : SizeLimiter Q) (file : Text) (queue : Q.Queue)
      → IsConsistent l
      → ((k : Text) → L.priority queue k ≡ (if text_eq file k then none else L.priority l.queue k))
      → IsConsistent (forget Q l file queue)
  unfolding forget release
  forget-IsConsistent l file queue c h =
      let sum = total-remove file l.sizes c.once in
      record {
        same_keys =
            λ k. rw (h k) (rw (find_entry-remove file k l.sizes) (ground (arith, c.same_keys k)));
        once = remove_entry-IsOnce file l.sizes c.once;
        counted = omega (
          arith,
          sum,
          c.counted,
          c.fits,
          release_exact Q (find_entry file l.sizes) l.in_use (omega (arith, sum, c.counted))
              (omega (arith, c.counted, c.fits)),
        );
        fits = omega (arith, sum, c.fits);
      }

  pub forget_frees :
      (l : SizeLimiter Q) (file : Text) (queue : Q.Queue)
      → IsConsistent l
      → (forget Q l file queue).in_use + size_or_zero (find_entry file l.sizes) ≡ l.in_use
  unfolding forget release
  forget_frees l file queue c =
      let kept = total-remove file l.sizes c.once in
      let fewer : size_or_zero (find_entry file l.sizes) ≤ l.in_use =
        omega (arith, kept, c.counted) in
      let exact =
        release_exact Q (find_entry file l.sizes) l.in_use fewer
          (omega (arith, c.counted, c.fits)) in
      omega (arith, exact, kept, c.counted)
