-- ===== src/Core/Dealer/Subscribers.antt =====
-- core/src/dealer/maps.rs: the subscribers of the dealer's messages, in a tree of path components.
-- `retain` is given a function that delivers the message and says whether the subscriber stays; the
-- deliveries are returned in their order.
pub mod Delivery
use librespot.Base.{
  Bool, true, false, not, List, [], ◌∷◌, ◌++◌, Option, none, some, ◌&&◌, if◌then◌else◌,
}
use librespot.Base.Text.{Text, text_eq}

mutual
  pub data SubscriberMap (T : Type 0) : Type 0 where
    node : List T → Branches T → SubscriberMap T

  -- `HashMap<String, SubscriberMap<T>>`
  pub data Branches (T : Type 0) : Type 0 where
    no_branch : Branches T
    add_branch : Text → SubscriberMap T → Branches T → Branches T

module _ {T : Type 0} where
  abbrev pub empty : SubscriberMap T
  empty = node [] no_branch

  unfoldable pub branch_at : Text → Branches T → Option (SubscriberMap T)
  branch_at key no_branch = none
  branch_at key (add_branch name m branches) =
      let later = branch_at key branches in if text_eq name key then some m else later

  unfoldable pub put_branch : Text → SubscriberMap T → Branches T → Branches T
  put_branch key new no_branch = add_branch key new no_branch
  put_branch key new (add_branch name m branches) =
      let later = put_branch key new branches in
      if text_eq name key then add_branch key new branches else add_branch name m later

  unfoldable pub drop_branch : Text → Branches T → Branches T
  drop_branch key no_branch = no_branch
  drop_branch key (add_branch name m branches) =
      let later = drop_branch key branches in
      if text_eq name key then branches else add_branch name m later

  abbrev pub or_empty : Option (SubscriberMap T) → SubscriberMap T
  or_empty none = empty
  or_empty (some m) = m

  abbrev is_nil : List T → Bool
  is_nil [] = true
  is_nil (x ∷ xs) = false

  abbrev has_no_branch : Branches T → Bool
  has_no_branch no_branch = true
  has_no_branch (add_branch name m branches) = false

  unfoldable pub is_empty : SubscriberMap T → Bool
  is_empty (node subscribed children) = has_no_branch children && is_nil subscribed

  unfoldable pub subscribe : List Text → T → SubscriberMap T → SubscriberMap T
  unfolding branch_at put_branch
  subscribe [] handler (node subscribed children) = node (subscribed ++ handler ∷ []) children
  subscribe (component ∷ path) handler (node subscribed children) =
      let below = subscribe path handler (or_empty (branch_at component children)) in
      node subscribed (put_branch component below children)

  unfoldable pub contains : List Text → SubscriberMap T → Bool
  unfolding branch_at is_empty
  contains [] (node [] children) = not (is_empty (node [] children))
  contains (next ∷ path) (node [] children) = elim (branch_at next children) [
    | none ↦ false
    | some m ↦ contains path m
  ]
  contains [] (node (x ∷ xs) children) = true
  contains (next ∷ path) (node (x ∷ xs) children) = true

  -- `Vec::retain`.
  unfoldable pub keep : (T → Bool) → List T → List T
  keep fun [] = []
  keep fun (x ∷ xs) = let rest = keep fun xs in if fun x then x ∷ rest else rest

  unfoldable pub put_kept : Text → SubscriberMap T → Branches T → Branches T
  unfolding put_branch drop_branch is_empty
  put_kept next m children =
      if is_empty m then drop_branch next children else put_branch next m children

  -- Whether a subscriber handled the message, the tree that is left, and the deliveries.
  -- `handled_by_any || y.retain(path, fun)` does not look below a node with subscribers.
  unfoldable pub retain : (T → Bool) → List Text → SubscriberMap T → Bool × SubscriberMap T × List T
  unfolding branch_at keep put_kept
  retain fun [] (node subscribed children) =
      (not (is_nil subscribed), node (keep fun subscribed) children, subscribed)
  retain fun (next ∷ path) (node subscribed children) =
      let kept = keep fun subscribed in
      elim (branch_at next children) [
        | none ↦ (not (is_nil subscribed), node kept children, subscribed)
        | some m ↦
            let (handled, m', deliveries) = retain fun path m in
            if is_nil subscribed
            then (handled, node kept (put_kept next m' children), deliveries)
            else (true, node kept (put_kept next m children), subscribed)
      ]
