-- ===== src/Core/Dealer.antt =====
-- core/src/dealer/maps.rs: the handlers of the dealer's requests, in a tree of path components, each
-- with one handler at most. A path is the list of its components.
pub mod Handlers
pub mod Subscribers
mod Examples
use librespot.Base.{Bool, true, false, List, [], ◌∷◌, Option, none, some, if◌then◌else◌}
use librespot.Base.Text.{Text, text_eq}
use librespot.Base.Result.{Result, ok, err}

pub data HandlerMapError : Type 0 where
  already_handled : HandlerMapError

-- `HashMap<String, HandlerMap<T>>` is the second type: its entries, with one entry for a key.
mutual
  pub data HandlerMap (T : Type 0) : Type 0 where
    leaf : T → HandlerMap T
    branch : Children T → HandlerMap T

  pub data Children (T : Type 0) : Type 0 where
    no_child : Children T
    child : Text → HandlerMap T → Children T → Children T

module _ {T : Type 0} where
  abbrev pub default : HandlerMap T
  default = branch no_child

  -- `HashMap::get`.
  unfoldable pub lookup : Text → Children T → Option (HandlerMap T)
  lookup key no_child = none
  lookup key (child name node children) =
      let later = lookup key children in if text_eq name key then some node else later

  -- The value of an entry is replaced; a new entry is last.
  unfoldable pub put : Text → HandlerMap T → Children T → Children T
  put key new no_child = child key new no_child
  put key new (child name node children) =
      let later = put key new children in
      if text_eq name key then child key new children else child name node later

  -- `HashMap::remove`.
  unfoldable pub erase : Text → Children T → Children T
  erase key no_child = no_child
  erase key (child name node children) =
      let later = erase key children in if text_eq name key then children else child name node later

  abbrev or_default : Option (HandlerMap T) → HandlerMap T
  or_default none = default
  or_default (some node) = node

  abbrev is_present : Option (HandlerMap T) → Bool
  is_present none = false
  is_present (some node) = true

  unfoldable pub contains : HandlerMap T → Text → Bool
  unfolding lookup
  contains (leaf t) path = false
  contains (branch children) path = is_present (lookup path children)

  -- `insert` changes the tree also when it fails: the entries on the path are made first.
  unfoldable pub insert :
      List Text → T → HandlerMap T → Result HandlerMapError (Unit {0}) × HandlerMap T
  unfolding lookup put
  insert path handler (leaf t) = (err already_handled, leaf t)
  insert [] handler (branch no_child) = (ok tt, leaf handler)
  insert [] handler (branch (child name node children)) =
      (err already_handled, branch (child name node children))
  insert (component ∷ path) handler (branch children) =
      let (result, node) = insert path handler (or_default (lookup component children)) in
      (result, branch (put component node children))

  unfoldable pub get : List Text → HandlerMap T → Option T
  unfolding lookup
  get path (leaf t) = some t
  get [] (branch children) = none
  get (component ∷ path) (branch children) = elim (lookup component children) [
    | none ↦ none
    | some node ↦ get path node
  ]

  -- The node is written back, or its entry is removed when no handler is left in it.
  abbrev put_back : Text → HandlerMap T → Children T → Children T
  unfolding put erase
  put_back component (leaf t) children = put component (leaf t) children
  put_back component (branch no_child) children = erase component children
  put_back component (branch (child name node rest)) children =
      put component (branch (child name node rest)) children

  unfoldable pub remove : List Text → HandlerMap T → Option T × HandlerMap T
  unfolding lookup put_back
  remove path (leaf t) = (some t, default)
  remove [] (branch children) = (none, branch children)
  remove (component ∷ path) (branch children) = elim (lookup component children) [
    | none ↦ (none, branch children)
    | some node ↦
        let (result, node') = remove path node in
        (result, branch (put_back component node' children))
  ]
