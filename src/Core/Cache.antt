-- ===== src/Core/Cache.antt =====
-- core/src/cache.rs: the limiter of the size of the audio cache. The priority queue is another
-- crate's: its operations are a record. Paths are texts, times are numbers, and `HashMap` is a
-- list of entries. `u64` arithmetic wraps. A log message is left out.
pub mod Queue
pub mod Consistent
pub mod Reachable
pub mod Prune
mod ListQueue
mod Examples
use librespot.Base.{
  ℕ, zero, suc, Bool, true, false, List, [], ◌∷◌, Option, none, some, ltb, if◌then◌else◌, length,
}
use librespot.Base.Word.{wrapping_add, wrapping_sub}
use librespot.Base.Text.{Text}
use librespot.Base.Dict.{find_entry, put_entry, remove_entry}
use librespot.Base.Result.{Result, ok, err}

-- The priority `Reverse(time)` of a path: an older time is a higher priority.
pub record Reverse : Type 0 where
  pub time : ℕ

-- The operations of `PriorityQueue<PathBuf, Reverse<SystemTime>>`.
pub record PriorityQueue : Type 1 where
  pub Queue : Type 0
  pub empty : Queue
  pub push : Queue → Text → Reverse → Queue
  pub pop : Queue → Option (Text × Queue)
  pub change_priority : Queue → Text → Reverse → Option Queue
  pub remove : Queue → Text → Option Queue

module _ (Q : PriorityQueue) where
  pub record SizeLimiter : Type 0 where
    pub queue : Q.Queue
    pub sizes : List (Text × ℕ)
    pub size_limit : ℕ
    pub in_use : ℕ

  unfoldable pub new : ℕ → SizeLimiter
  new limit = record { queue = Q.empty; sizes = []; size_limit = limit; in_use = 0 }

  -- `in_use -= old_size` for the size that the map held.
  unfoldable pub release : Option ℕ → ℕ → ℕ
  release none in_use = in_use
  release (some size) in_use = wrapping_sub in_use size

  unfoldable pub add : SizeLimiter → Text → ℕ → ℕ → SizeLimiter
  unfolding release
  add l file size accessed = record l {
    queue = Q.push l.queue file (record { time = accessed });
    sizes = put_entry file size l.sizes;
    in_use = release (find_entry file l.sizes) (wrapping_add l.in_use size);
  }

  unfoldable pub exceeds_limit : SizeLimiter → Bool
  exceeds_limit l = ltb l.size_limit l.in_use

  -- The path is gone from the queue; the map and the counter follow.
  unfoldable pub forget : SizeLimiter → Text → Q.Queue → SizeLimiter
  unfolding release
  forget l file queue = record l {
    queue = queue;
    sizes = remove_entry file l.sizes;
    in_use = release (find_entry file l.sizes) l.in_use;
  }

  unfoldable pub popped : SizeLimiter → Option (Text × Q.Queue) → Option Text × SizeLimiter
  popped l none = (none, l)
  popped l (some (next, queue)) = (some next, forget l next queue)

  unfoldable pub pop : SizeLimiter → Option Text × SizeLimiter
  pop l = if exceeds_limit l then popped l (Q.pop l.queue) else (none, l)

  unfoldable pub updated : SizeLimiter → Option Q.Queue → Bool × SizeLimiter
  updated l none = (false, l)
  updated l (some queue) = (true, record l { queue = queue })

  unfoldable pub update : SizeLimiter → Text → ℕ → Bool × SizeLimiter
  update l file access_time =
      updated l (Q.change_priority l.queue file (record { time = access_time }))

  unfoldable pub removed : SizeLimiter → Text → Option Q.Queue → Bool × SizeLimiter
  removed l file none = (false, l)
  removed l file (some queue) = (true, forget l file queue)

  unfoldable pub remove : SizeLimiter → Text → Bool × SizeLimiter
  remove l file = removed l file (Q.remove l.queue file)

-- What a run of `prune_internal` leaves: the state of `pop`, the files it called `fs::remove_file`
-- on, in order, how many of the calls succeeded, and the last error.
pub record Pruned (S Failure : Type 0) : Type 0 where
  pub state : S
  pub files : List Text
  pub count : ℕ
  pub last_error : Option Failure

module _ {Failure : Type 0} where
  unfoldable pub next_count : Option Failure → ℕ → ℕ
  next_count none count = suc count
  next_count (some e) count = count

  unfoldable pub next_error : Option Failure → Option Failure → Option Failure
  next_error none last_error = last_error
  next_error (some e) last_error = some e

module _ {S Failure : Type 0} where
  unfoldable pub log_file : Text → Option (Pruned S Failure) → Option (Pruned S Failure)
  log_file file none = none
  log_file file (some p) = some (record p { files = file ∷ p.files })

  -- `none` when the fuel runs out. `remove_file` gives the error of a call, if any.
  unfoldable pub prune_internal :
      (S → Option Text × S)
      → (Text → Option Failure)
      → ℕ
      → S
      → ℕ
      → Option Failure
      → Option (Pruned S Failure)
  unfolding next_count next_error log_file
  prune_internal pop_file remove_file zero s count last_error = none
  prune_internal pop_file remove_file (suc fuel) s count last_error = elim (pop_file s).0 [
    | none ↦
        some (record { state = (pop_file s).1; files = []; count = count; last_error = last_error })
    | some file ↦ log_file file (
        prune_internal pop_file remove_file fuel (pop_file s).1
          (next_count (remove_file file) count) (next_error (remove_file file) last_error))
  ]

  unfoldable pub prune_result : Pruned S Failure → Result Failure (Unit {0})
  prune_result p = elim p.last_error [ none ↦ ok tt | some e ↦ err e ]

-- A round of the loop for each file is enough, and one to see that none is left to remove.
unfoldable pub prune :
    {Failure : Type 0} (Q : PriorityQueue)
    → (Text → Option Failure)
    → SizeLimiter Q
    → Option (Pruned (SizeLimiter Q) Failure)
unfolding prune_internal
prune Q remove_file l = prune_internal (pop Q) remove_file (suc (length l.sizes)) l 0 none
