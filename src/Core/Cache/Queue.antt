-- ===== src/Core/Cache/Queue.antt =====
-- The documented behaviour of the priority queue, and the entries of `sizes` under its keys.
use librespot.Base.{
  ℕ, ◌+◌, ◌≤◌, ◌≡◌, Bool, true, false, List, [], ◌∷◌, Option, none, some, if◌then◌else◌,
}
use librespot.Base.Text.{Text, text_eq}
use librespot.Base.Dict.{find_entry}
use librespot.Core.Cache.{PriorityQueue, Reverse}

abbrev pub is_some {ℓ} : {A : Type ℓ} → Option A → Bool
is_some none = false
is_some (some a) = true

-- What the crate documents of the priority of each key after an operation; `pop` takes a key of
-- the highest priority, the oldest time.
pub record QueueLaws (Q : PriorityQueue) : Type 0 where
  pub priority : Q.Queue → Text → Option Reverse
  pub priority-empty : (k : Text) → priority Q.empty k ≡ none
  pub priority-push :
      (q : Q.Queue) (file k : Text) (p : Reverse)
      → priority (Q.push q file p) k ≡ (if text_eq file k then some p else priority q k)
  pub pop-none : (q : Q.Queue) → Q.pop q ≡ none → (k : Text) → priority q k ≡ none
  pub pop-some :
      (q q' : Q.Queue) (file : Text)
      → Q.pop q ≡ some (file, q')
      → (p : Reverse) × (priority q file ≡ some p)
        × ((k : Text) (r : Reverse) → priority q k ≡ some r → p.time ≤ r.time)
        × ((k : Text) → priority q' k ≡ (if text_eq file k then none else priority q k))
  pub change-found :
      (q : Q.Queue) (file : Text) (p : Reverse)
      → is_some (Q.change_priority q file p) ≡ is_some (priority q file)
  pub change-some :
      (q q' : Q.Queue) (file k : Text) (p : Reverse)
      → Q.change_priority q file p ≡ some q'
      → priority q' k ≡ (if text_eq file k then some p else priority q k)
  pub remove-found :
      (q : Q.Queue) (file : Text) → is_some (Q.remove q file) ≡ is_some (priority q file)
  pub remove-some :
      (q q' : Q.Queue) (file k : Text)
      → Q.remove q file ≡ some q'
      → priority q' k ≡ (if text_eq file k then none else priority q k)

-- The sum of the sizes.
abbrev pub total : List (Text × ℕ) → ℕ
total [] = 0
total ((name, size) ∷ entries) = size + total entries

-- The size of a file, zero when there is none.
abbrev pub size_or_zero : Option ℕ → ℕ
size_or_zero none = 0
size_or_zero (some size) = size

-- No key stands twice.
abbrev pub IsOnce : List (Text × ℕ) → Type 0
IsOnce [] = Unit {0}
IsOnce ((name, size) ∷ entries) = (find_entry name entries ≡ none) × IsOnce entries
