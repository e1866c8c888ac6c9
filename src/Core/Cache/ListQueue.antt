-- ===== src/Core/Cache/ListQueue.antt =====
-- A queue that meets the laws: a list of entries, searched for the oldest.
use librespot.Base.{
  ◌≤◌, ◌≡◌, refl, subst, sym, ap, ◌∙◌, true, false, List, [], ◌∷◌, Option, none, some, leb,
  if◌then◌else◌, Bool-cases, Option-cases, inl, inr, arith,
}
use librespot.Base.Text.{Text, text_eq, text_eq→eq}
use librespot.Base.Dict.{find_entry, put_entry, remove_entry, find_entry-put, find_entry-remove}
use librespot.Core.Cache.{PriorityQueue, Reverse}
use librespot.Core.Cache.Queue.{QueueLaws, is_some}

abbrev pub Entries : Type 0
Entries = List (Text × Reverse)

-- The older of a key with its priority and the oldest of the others.
unfoldable pub older : Text → Option Reverse → Option (Text × Reverse) → Option (Text × Reverse)
older name none best = best
older name (some p) none = some (name, p)
older name (some p) (some (other, r)) =
    if leb p.time r.time then some (name, p) else some (other, r)

-- The oldest key among `keys`, by the priorities in `q`.
unfoldable pub oldest : Entries → Entries → Option (Text × Reverse)
unfolding older
oldest q [] = none
oldest q ((name, p) ∷ keys) = older name (find_entry name q) (oldest q keys)

unfoldable pub take_oldest : Entries → Option (Text × Reverse) → Option (Text × Entries)
take_oldest q none = none
take_oldest q (some (name, p)) = some (name, remove_entry name q)

unfoldable pub change_entry : Entries → Text → Reverse → Option Reverse → Option Entries
change_entry q file p none = none
change_entry q file p (some old) = some (put_entry file p q)

unfoldable pub drop_entry : Entries → Text → Option Reverse → Option Entries
drop_entry q file none = none
drop_entry q file (some old) = some (remove_entry file q)

abbrev pub list_queue : PriorityQueue
list_queue = record {
  Queue = Entries;
  empty = [];
  push = λ q file p. put_entry file p q;
  pop = λ q. take_oldest q (oldest q q);
  change_priority = λ q file p. change_entry q file p (find_entry file q);
  remove = λ q file. drop_entry q file (find_entry file q);
}

-- What `oldest` finds stands in `q`, and is at least as old as every key in `keys`.
abbrev IsOldest : Entries → Entries → Option (Text × Reverse) → Type 0
IsOldest q keys none = (k : Text) → is_some (find_entry k keys) ≡ true → find_entry k q ≡ none
IsOldest q keys (some (name, p)) =
    (find_entry name q ≡ some p)
    × ((k : Text) (r : Reverse)
        → is_some (find_entry k keys) ≡ true
        → find_entry k q ≡ some r
        → p.time ≤ r.time)

-- At a key equal to `name`.
at_name :
    (q : Entries) (name k : Text) (o : Option Reverse)
    → o ≡ find_entry name q
    → text_eq name k ≡ true
    → find_entry k q ≡ o
at_name q name k o e same = ap (λ n. find_entry n q) (sym (text_eq→eq name k same)) ∙ sym e

in_rest :
    (keys : Entries) (name k : Text) (p : Reverse)
    → text_eq name k ≡ false
    → is_some (find_entry k ((name, p) ∷ keys)) ≡ true
    → is_some (find_entry k keys) ≡ true
unfolding find_entry
in_rest keys name k p differs there = ground arith

older-IsOldest :
    (q keys : Entries) (name : Text) (p : Reverse) (found : Option Reverse)
    (best : Option (Text × Reverse))
    → found ≡ find_entry name q
    → IsOldest q keys best
    → IsOldest q ((name, p) ∷ keys) (older name found best)
unfolding older find_entry
older-IsOldest q keys name p none none e h = λ k there. elim (Bool-cases (text_eq name k)) [
  | inl same ↦ at_name q name k none e same
  | inr differs ↦ h k (in_rest keys name k p differs there)
]
older-IsOldest q keys name p none (some (other, r)) e h = (
  h.0,
  λ k s there at. elim (Bool-cases (text_eq name k)) [
    | inl same ↦ absurd (ground (arith, at_name q name k none e same))
    | inr differs ↦ h.1 k s (in_rest keys name k p differs there) at
  ],
)
older-IsOldest q keys name p (some a) none e h = (
  sym e,
  λ k s there at. elim (Bool-cases (text_eq name k)) [
    | inl same ↦ ground (arith, at_name q name k (some a) e same)
    | inr differs ↦ absurd (ground (arith, h k (in_rest keys name k p differs there)))
  ],
)
older-IsOldest q keys name p (some a) (some (other, r)) e h =
    elim (Bool-cases (leb a.time r.time)) [
      | inl le ↦ rw le (
        sym e,
        λ k s there at. elim (Bool-cases (text_eq name k)) [
          | inl same ↦ ground (arith, at_name q name k (some a) e same)
          | inr differs ↦ ground (arith, h.1 k s (in_rest keys name k p differs there) at)
        ],
      )
      | inr gt ↦ rw gt (
        h.0,
        λ k s there at. elim (Bool-cases (text_eq name k)) [
          | inl same ↦ ground (arith, at_name q name k (some a) e same)
          | inr differs ↦ h.1 k s (in_rest keys name k p differs there) at
        ],
      )
    ]

oldest-IsOldest : (q keys : Entries) → IsOldest q keys (oldest q keys)
unfolding oldest
oldest-IsOldest q [] = λ k there. unfold find_entry in cc
oldest-IsOldest q ((name, p) ∷ keys) =
    older-IsOldest q keys name p (find_entry name q) (oldest q keys) refl (oldest-IsOldest q keys)

found :
    (q : Entries) (k : Text) (r : Reverse)
    → find_entry k q ≡ some r
    → is_some (find_entry k q) ≡ true
found q k r e = rw e refl

pop_none :
    (q : Entries) (best : Option (Text × Reverse))
    → IsOldest q q best
    → take_oldest q best ≡ none
    → (k : Text) → find_entry k q ≡ none
unfolding take_oldest
pop_none q none w h k = elim (Option-cases (find_entry k q)) [
  | inl gone ↦ gone
  | inr (r, there) ↦ w k (found q k r there)
]
pop_none q (some (name, p)) w h k = cc

-- The law of `pop`, at the priorities that `find_entry` reads.
TakesOldest : Entries → Entries → Text → Type 0
TakesOldest q rest file =
    (p : Reverse) × (find_entry file q ≡ some p)
    × ((k : Text) (r : Reverse) → find_entry k q ≡ some r → p.time ≤ r.time)
    × ((k : Text) → find_entry k rest ≡ (if text_eq file k then none else find_entry k q))

pop_some :
    (q rest : Entries) (file : Text) (best : Option (Text × Reverse))
    → IsOldest q q best
    → take_oldest q best ≡ some (file, rest)
    → TakesOldest q rest file
unfolding take_oldest TakesOldest
pop_some q rest file none w h = cc
pop_some q rest file (some (name, p)) w h =
    let same : name ≡ file = ap (λ o. elim o [ none ↦ name | some pair ↦ pair.0 ]) h in
    let left : remove_entry name q ≡ rest =
      ap (λ o. elim o [ none ↦ rest | some pair ↦ pair.1 ]) h in
    (
      p,
      ap (λ n. find_entry n q) (sym same) ∙ w.0,
      (λ k r at. w.1 k r (found q k r at) at),
      λ k.
          subst (λ n. find_entry k rest ≡ (if text_eq n k then none else find_entry k q)) same
            (ap (find_entry k) (sym left) ∙ find_entry-remove name k q),
    )

change_found :
    (q : Entries) (file : Text) (p : Reverse) (o : Option Reverse)
    → is_some (change_entry q file p o) ≡ is_some o
unfolding change_entry
change_found q file p none = refl
change_found q file p (some r) = refl

change_some :
    (q rest : Entries) (file k : Text) (p : Reverse) (o : Option Reverse)
    → change_entry q file p o ≡ some rest
    → find_entry k rest ≡ (if text_eq file k then some p else find_entry k q)
unfolding change_entry
change_some q rest file k p none h = cc
change_some q rest file k p (some r) h =
    let left : put_entry file p q ≡ rest = ap (λ o. elim o [ none ↦ rest | some es ↦ es ]) h in
    ap (find_entry k) (sym left) ∙ find_entry-put file k p q

drop_found :
    (q : Entries) (file : Text) (o : Option Reverse) → is_some (drop_entry q file o) ≡ is_some o
unfolding drop_entry
drop_found q file none = refl
drop_found q file (some r) = refl

drop_some :
    (q rest : Entries) (file k : Text) (o : Option Reverse)
    → drop_entry q file o ≡ some rest
    → find_entry k rest ≡ (if text_eq file k then none else find_entry k q)
unfolding drop_entry
drop_some q rest file k none h = cc
drop_some q rest file k (some r) h =
    let left : remove_entry file q ≡ rest = ap (λ o. elim o [ none ↦ rest | some es ↦ es ]) h in
    ap (find_entry k) (sym left) ∙ find_entry-remove file k q

pub list_queue-laws : QueueLaws list_queue
unfolding TakesOldest find_entry
list_queue-laws = record {
  priority = λ q k. find_entry k q;
  priority-empty = λ k. refl;
  priority-push = λ q file k p. find_entry-put file k p q;
  pop-none = λ q h. pop_none q (oldest q q) (oldest-IsOldest q q) h;
  pop-some = λ q rest file h. pop_some q rest file (oldest q q) (oldest-IsOldest q q) h;
  change-found = λ q file p. change_found q file p (find_entry file q);
  change-some = λ q rest file k p h. change_some q rest file k p (find_entry file q) h;
  remove-found = λ q file. drop_found q file (find_entry file q);
  remove-some = λ q rest file k h. drop_some q rest file k (find_entry file q) h;
}
