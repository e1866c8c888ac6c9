-- ===== src/Core/Cache/Examples.antt =====
-- The size limiter over a list of entries, at the steps of the unit test in cache.rs.
use librespot.Base.{ℕ, ◌≡◌, refl, List, [], ◌∷◌, Option, none, some, if◌then◌else◌, arith}
use librespot.Base.Word.{wrapping_add, wrapping_sub}
use librespot.Base.Text.{Text, text_eq, codes}
use librespot.Base.Dict.{find_entry, put_entry, remove_entry}
use librespot.Core.Cache.{
  SizeLimiter, new, add, pop, popped, forget, release, exceeds_limit, Pruned, prune, prune_internal,
  next_count, next_error, log_file,
}
use librespot.Core.Cache.Consistent.{IsConsistent}
use librespot.Core.Cache.Reachable.{Reachable, added, started, stepped, Reachable-IsConsistent}
use librespot.Core.Cache.Prune.{Prunes, prune_lem}
use librespot.Core.Cache.ListQueue.{list_queue, list_queue-laws, take_oldest, oldest, older}

abbrev a : Text
a = codes "a"

abbrev b : Text
b = codes "b"

abbrev c : Text
c = codes "c"

abbrev one_file : SizeLimiter list_queue
unfolding new add release find_entry put_entry wrapping_add wrapping_sub
one_file = add list_queue (new list_queue 1000) a 500 2

abbrev two_files : SizeLimiter list_queue
unfolding new add release find_entry put_entry wrapping_add wrapping_sub
two_files = add list_queue one_file b 500 1

abbrev three_files : SizeLimiter list_queue
unfolding new add release find_entry put_entry wrapping_add wrapping_sub
three_files = add list_queue two_files c 1000 3

three_files-Reachable : Reachable list_queue list_queue-laws 1000 three_files
unfolding one_file two_files three_files new add release find_entry put_entry wrapping_add
    wrapping_sub
three_files-Reachable =
    stepped two_files three_files
      (stepped one_file two_files
        (stepped (new list_queue 1000) one_file started
          (added (new list_queue 1000) a 500 2 (omega arith)))
        (added one_file b 500 1 (omega arith)))
      (added two_files c 1000 3 (omega arith))

Reachable-IsConsistent_example : IsConsistent list_queue list_queue-laws three_files
Reachable-IsConsistent_example =
    Reachable-IsConsistent list_queue list_queue-laws 1000 three_files three_files-Reachable

-- Removing `a` from the disk fails.
abbrev failing : Text → Option ℕ
failing file = if text_eq file a then some 5 else none

-- `prune` takes out `b` and then `a`; the one success is counted, the error kept.
abbrev outcome : Option (Pruned (SizeLimiter list_queue) ℕ) → Option (List Text × ℕ × Option ℕ)
outcome none = none
outcome (some p) = some (p.files, p.count, p.last_error)

prune_three : outcome (prune list_queue failing three_files) ≡ some (b ∷ a ∷ [], 1, some 5)
unfolding prune prune_internal next_count next_error log_file pop popped forget release
    exceeds_limit take_oldest oldest older three_files two_files one_file new add find_entry
    put_entry remove_entry wrapping_add wrapping_sub
prune_three = refl

prune_lem_example :
    (p : Pruned (SizeLimiter list_queue) ℕ) × (prune list_queue failing three_files ≡ some p)
    × Prunes list_queue list_queue-laws failing three_files 0 none p
prune_lem_example =
    prune_lem list_queue list_queue-laws failing three_files
      (Reachable-IsConsistent list_queue list_queue-laws 1000 three_files three_files-Reachable)
