-- ===== src/Core/Cache/Prune.antt =====
-- The loop of `prune_internal` on a size limiter.
use librespot.Base.{
  ℕ, zero, suc, ◌+◌, ◌≤◌, ◌<◌, ◌≡◌, refl, sym, ap, ◌∙◌, Bool, true, false, List, [], ◌∷◌, Option,
  none, some, if◌then◌else◌, length, Bool-cases, inl, inr, ◌||◌, arith,
}
use librespot.Base.Text.{Text, text_eq, text_eq→eq}
use librespot.Core.Cache.{
  PriorityQueue, Reverse, SizeLimiter, pop, exceeds_limit, Pruned, prune_internal, prune,
  next_count, next_error, log_file,
}
use librespot.Core.Cache.Queue.{QueueLaws}
use librespot.Core.Cache.Consistent.{IsConsistent}
use librespot.Core.Cache.Reachable.{Evicts, pop_within, pop_over}

abbrev pub elem : Text → List Text → Bool
elem k [] = false
elem k (file ∷ files) = text_eq file k || elem k files

-- The calls that succeed, and the error of the last call that fails.
abbrev pub successes : {Failure : Type 0} → (Text → Option Failure) → List Text → ℕ
successes remove_file [] = 0
successes remove_file (file ∷ files) = next_count (remove_file file) (successes remove_file files)

abbrev pub last_failure :
    {Failure : Type 0} → (Text → Option Failure) → List Text → Option Failure → Option Failure
last_failure remove_file [] last = last
last_failure remove_file (file ∷ files) last =
    last_failure remove_file files (next_error (remove_file file) last)

next_count_shift :
    {Failure : Type 0} (o : Option Failure) (count n : ℕ)
    → next_count o count + n ≡ count + next_count o n
unfolding next_count
next_count_shift none count n = omega arith
next_count_shift (some e) count n = refl

some_of_if :
    (b : Bool) (o : Option Reverse) {r : Reverse} → (if b then none else o) ≡ some r → o ≡ some r
some_of_if true o h = cc
some_of_if false o h = h

module _ (Q : PriorityQueue) (L : QueueLaws Q) {Failure : Type 0}
    (remove_file : Text → Option Failure) where
  -- What the loop leaves when it starts with `count` and `last`.
  pub record Prunes (l : SizeLimiter Q) (count : ℕ) (last : Option Failure)
      (p : Pruned (SizeLimiter Q) Failure) : Type 0 where
    pub within : p.state.in_use ≤ l.size_limit
    pub consistent : IsConsistent Q L p.state
    pub kept :
        (k : Text)
        → L.priority p.state.queue k ≡ (if elem k p.files then none else L.priority l.queue k)
    pub oldest_first :
        (old k : Text) (r s : Reverse)
        → elem old p.files ≡ true
        → L.priority l.queue old ≡ some r
        → L.priority p.state.queue k ≡ some s
        → r.time ≤ s.time
    pub counted : p.count ≡ count + successes remove_file p.files
    pub failed : p.last_error ≡ last_failure remove_file p.files last

  -- What stays was there before.
  stays :
      (l l' : SizeLimiter Q) (file : Text) (count : ℕ) (last : Option Failure)
      (p : Pruned (SizeLimiter Q) Failure) (k : Text) (s : Reverse)
      → Evicts Q L l l' file
      → Prunes l' count last p
      → L.priority p.state.queue k ≡ some s
      → L.priority l.queue k ≡ some s
  stays l l' file count last p k s e r there = some_of_if (text_eq file k) (L.priority l.queue k) (
      sym (e.others k)
      ∙ some_of_if (elem k p.files) (L.priority l'.queue k) (sym (r.kept k) ∙ there))

  oldest_of :
      (l l' : SizeLimiter Q) (file : Text) (count : ℕ) (last : Option Failure)
      (p : Pruned (SizeLimiter Q) Failure)
      → Evicts Q L l l' file
      → Prunes l' count last p
      → (old k : Text) (a s : Reverse) → (text_eq file old || elem old p.files) ≡ true
      → L.priority l.queue old ≡ some a
      → L.priority p.state.queue k ≡ some s
      → a.time ≤ s.time
  oldest_of l l' file count last p e r old k a s h at there = elim (Bool-cases (text_eq file old)) [
    | inl same ↦
        let first : some a ≡ some e.accessed =
          sym at ∙ (ap (L.priority l.queue) (sym (text_eq→eq file old same)) ∙ e.found) in
        ground (arith, first, e.oldest k s (stays l l' file count last p k s e r there))
    | inr other ↦ r.oldest_first old k a s (ground arith) (rw (e.others old) (rw other at)) there
  ]

  abbrev pub Finishes :
      SizeLimiter Q → ℕ → Option Failure → Option (Pruned (SizeLimiter Q) Failure) → Type 0
  Finishes l count last o =
      (p : Pruned (SizeLimiter Q) Failure) × (o ≡ some p) × Prunes l count last p

  -- One more file in front of a run.
  evict_first :
      (l l' : SizeLimiter Q) (file : Text) (count : ℕ) (last : Option Failure)
      (o : Option (Pruned (SizeLimiter Q) Failure))
      → Evicts Q L l l' file
      → Finishes l' (next_count (remove_file file) count) (next_error (remove_file file) last) o
      → Finishes l count last (log_file file o)
  unfolding log_file
  evict_first l l' file count last o e (p, found, r) = rw found (
    record p { files = file ∷ p.files },
    refl,
    record {
      within = omega (arith, r.within, e.same_limit);
      consistent = r.consistent;
      kept = λ k. rw (r.kept k) (rw (e.others k) (ground arith));
      oldest_first = λ old k a s h at there.
          oldest_of l l' file (next_count (remove_file file) count)
            (next_error (remove_file file) last) p e r old k a s h at there;
      counted = omega (
        arith,
        r.counted,
        next_count_shift (remove_file file) count (successes remove_file p.files),
      );
      failed = r.failed;
    },
  )

  stop :
      (l : SizeLimiter Q) (count : ℕ) (last : Option Failure)
      → IsConsistent Q L l
      → exceeds_limit Q l ≡ false
      → Prunes l count last (record { state = l; files = []; count = count; last_error = last })
  unfolding exceeds_limit
  stop l count last c under = record {
    within = ground arith;
    consistent = c;
    kept = λ k. refl;
    oldest_first = λ old k a s h at there. cc;
    counted = omega arith;
    failed = refl;
  }

  -- With a round of the loop for each file and one more, the loop ends.
  prune_internal-Finishes :
      (fuel : ℕ) (l : SizeLimiter Q) (count : ℕ) (last : Option Failure)
      → IsConsistent Q L l
      → length l.sizes < fuel
      → Finishes l count last (prune_internal (pop Q) remove_file fuel l count last)
  unfolding prune_internal
  prune_internal-Finishes zero l count last c h = absurd (omega arith)
  prune_internal-Finishes (suc fuel) l count last c h = elim (Bool-cases (exceeds_limit Q l)) [
    | inl over ↦
        let (file, found, e) = pop_over Q L l c over in
        rw (found, prune_internal)
          (evict_first l (pop Q l).1 file count last _ e (
            prune_internal-Finishes fuel (pop Q l).1 (next_count (remove_file file) count)
              (next_error (remove_file file) last) e.consistent (omega (arith, e.shorter))))
    | inr under ↦
        rw (pop_within Q L l under, prune_internal)
          (
            record { state = l; files = []; count = count; last_error = last },
            rw (pop_within Q L l under) refl,
            stop l count last c under,
          )
  ]

  -- `prune` ends, with the sizes within the limit: the files that it asks to remove leave the
  -- limiter, all others stay with their times, and no file that left was accessed after one that
  -- stayed. It counts the calls of `fs::remove_file` that succeed and reports the last error.
  pub prune_lem :
      (l : SizeLimiter Q)
      → IsConsistent Q L l
      → (p : Pruned (SizeLimiter Q) Failure) × (prune Q remove_file l ≡ some p) × Prunes l 0 none p
  unfolding prune
  prune_lem l c = prune_internal-Finishes (suc (length l.sizes)) l 0 none c (omega arith)
