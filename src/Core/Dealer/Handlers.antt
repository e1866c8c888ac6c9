-- ===== src/Core/Dealer/Handlers.antt =====
-- What `insert` and `remove` of the handler tree do to the handlers that `get` finds.
use librespot.Base.{
  ◌≡◌, ◌≢◌, refl, sym, ap, subst, ◌∙◌, ◌⊎◌, inl, inr, false, List, [], ◌∷◌, ◌++◌, none, some,
  if◌then◌else◌, Option-cases, Bool-cases, arith,
}
use librespot.Base.Text.{Text, text_eq, text_eq_refl, text_eq→eq}
use librespot.Base.Result.{Result, ok, err}
use librespot.Core.Dealer.{
  HandlerMapError, already_handled, HandlerMap, leaf, branch, Children, no_child, child, default,
  or_default, lookup, put, erase, insert, get, put_back, remove,
}

module _ {T : Type 0} where
  lookup-put :
      (key : Text) (new : HandlerMap T) (children : Children T)
      → lookup key (put key new children) ≡ some new
  unfolding lookup put
  lookup-put key new no_child = rw (text_eq_refl key) refl
  lookup-put key new (child name node children) = elim (Bool-cases (text_eq name key)) [
    | inl e ↦ rw e (rw (text_eq_refl key) refl)
    | inr e ↦ rw e (rw e (lookup-put key new children))
  ]

  lookup-put_other :
      (key other : Text) (new : HandlerMap T) (children : Children T)
      → text_eq key other ≡ false
      → lookup other (put key new children) ≡ lookup other children
  unfolding lookup put
  lookup-put_other key other new no_child h = rw h refl
  lookup-put_other key other new (child name node children) h =
      elim (Bool-cases (text_eq name key)) [
        | inl e ↦
            let same = text_eq→eq name key e in
            let differs : text_eq name other ≡ false = rw same h in rw e (rw (h, differs) refl)
        | inr e ↦ rw e (
            ap (λ later. if text_eq name other then some node else later)
              (lookup-put_other key other new children h))
      ]

  put-lookup :
      (key : Text) (node : HandlerMap T) (children : Children T)
      → lookup key children ≡ some node
      → put key node children ≡ children
  unfolding lookup put
  put-lookup key node no_child h = cc
  put-lookup key node (child name found children) h = elim (Bool-cases (text_eq name key)) [
    | inl e ↦
        let same = text_eq→eq name key e in
        let here : found ≡ node = ground arith in rw e (rw (sym same, sym here) refl)
    | inr e ↦ rw e (ap (child name found) (put-lookup key node children (ground arith)))
  ]

  -- The handler is found at the path and behind it, and no other handler is lost.
  abbrev pub IsInserted :
      List Text → T → HandlerMap T → Result HandlerMapError (Unit {0}) × HandlerMap T → Type 0
  IsInserted path handler m r =
      (m' : HandlerMap T) × (r ≡ (ok tt, m'))
      × ((rest : List Text) → get (path ++ rest) m' ≡ some handler)
      × ((q : List Text) (u : T) → get q m ≡ some u → get q m' ≡ some u)

  insert_fresh :
      (path : List Text) (handler : T)
      → (m' : HandlerMap T) × (insert path handler default ≡ (ok tt, m'))
  unfolding insert lookup
  insert_fresh [] handler = (leaf handler, refl)
  insert_fresh (c ∷ path) handler =
      let (m', e) = insert_fresh path handler in
      (branch (put c m' no_child), ap (λ r. (r.0, branch (put c r.1 no_child))) e)

  found_at :
      (c : Text) (children : Children T) (q : List Text) (u : T)
      → get (c ∷ q) (branch children) ≡ some u
      → get q (or_default (lookup c children)) ≡ some u
  unfolding get
  found_at c children q u e = elim (Option-cases (lookup c children)) [
    | inl n ↦ let none_found : none ≡ some u = sym (rw (get, n) refl) ∙ e in cc
    | inr (node, n) ↦ rw n (sym (rw (get, n) refl) ∙ e)
  ]

  get-put :
      (c : Text) (children : Children T) (m' : HandlerMap T) (q : List Text)
      → get (c ∷ q) (branch (put c m' children)) ≡ get q m'
  unfolding get
  get-put c children m' q = rw (get, lookup-put c m' children) refl

  kept_at :
      (c : Text) (children : Children T) (m' : HandlerMap T)
      → ((q : List Text) (u : T)
          → get q (or_default (lookup c children)) ≡ some u
          → get q m' ≡ some u)
      → (q : List Text) (u : T) → get q (branch children) ≡ some u
      → get q (branch (put c m' children)) ≡ some u
  unfolding get
  kept_at c children m' kept [] u e = cc
  kept_at c children m' kept (j ∷ q) u e = elim (Bool-cases (text_eq c j)) [
    | inl same ↦
        let eq = text_eq→eq c j same in
        let here =
          found_at c children q u
            (subst (λ k. get (k ∷ q) (branch children) ≡ some u) (sym eq) e) in
        subst (λ k. get (k ∷ q) (branch (put c m' children)) ≡ some u) eq
          (get-put c children m' q ∙ kept q u here)
    | inr differs ↦ rw (get, lookup-put_other c j m' children differs) e
  ]

  insert_step :
      (c : Text) (path : List Text) (handler : T) (children : Children T)
      → IsInserted path handler
          (or_default (lookup c children))
          (insert path handler (or_default (lookup c children)))
      → IsInserted
          (c ∷ path)
          handler
          (branch children)
          (insert (c ∷ path) handler (branch children))
  unfolding insert
  insert_step c path handler children (m', e, found, kept) = (
    branch (put c m' children),
    ap (λ r. (r.0, branch (put c r.1 children))) e,
    (λ rest. get-put c children m' (path ++ rest) ∙ found rest),
    kept_at c children m' kept,
  )

  get-empty : (q : List Text) → get {T = T} q (branch no_child) ≡ none
  unfolding get lookup
  get-empty [] = refl
  get-empty (c ∷ q) = refl

  -- Inserting a handler either succeeds, and then it is found at its path and at every longer one,
  -- and every handler that was found before still is; or it fails and changes nothing.
  pub insert_lem :
      (path : List Text) (handler : T) (m : HandlerMap T)
      → IsInserted path handler m (insert path handler m)
        ⊎ (insert path handler m ≡ (err already_handled, m))
  unfolding insert get
  insert_lem [] handler (leaf t) = inr refl
  insert_lem (c ∷ path) handler (leaf t) = inr refl
  insert_lem [] handler (branch no_child) = inl (
    leaf handler,
    refl,
    (λ rest. refl),
    λ q u e. let none_there : none ≡ some u = sym (get-empty q) ∙ e in cc,
  )
  insert_lem [] handler (branch (child name node children)) = inr refl
  insert_lem (c ∷ path) handler (branch children) = elim (Option-cases (lookup c children)) [
    | inl n ↦ elim (insert_lem path handler default) [
      | inl done ↦ inl (insert_step c path handler children (rw n done))
      | inr e ↦ let (m', e') = insert_fresh path handler in cc
    ]
    | inr (node, n) ↦ elim (insert_lem path handler node) [
      | inl done ↦ inl (insert_step c path handler children (rw n done))
      | inr e ↦ inr (
          rw n (
            ap (λ r. (r.0, branch (put c r.1 children))) e
            ∙ ap (λ rest. (err already_handled, branch rest)) (put-lookup c node children n)))
    ]
  ]

  erase-put_new :
      (c : Text) (new : HandlerMap T) (children : Children T)
      → lookup c children ≡ none
      → erase c (put c new children) ≡ children
  unfolding lookup put erase
  erase-put_new c new no_child h = rw (text_eq_refl c) refl
  erase-put_new c new (child name node children) h = elim (Bool-cases (text_eq name c)) [
    | inl e ↦ absurd (let clash : some node ≡ none = ground arith in cc)
    | inr e ↦ rw e (rw e (ap (child name node) (erase-put_new c new children (ground arith))))
  ]

  put-put :
      (c : Text) (new newer : HandlerMap T) (children : Children T)
      → put c newer (put c new children) ≡ put c newer children
  unfolding put
  put-put c new newer no_child = rw (text_eq_refl c) refl
  put-put c new newer (child name node children) = elim (Bool-cases (text_eq name c)) [
    | inl e ↦ rw e (rw (text_eq_refl c) refl)
    | inr e ↦ rw e (rw e (ap (child name node) (put-put c new newer children)))
  ]

  -- No child on the path is an empty branch.
  abbrev pub IsPruned : List Text → HandlerMap T → Type 0
  IsPruned [] m = Unit
  IsPruned (c ∷ path) (leaf t) = Unit
  IsPruned (c ∷ path) (branch children) =
      (node : HandlerMap T) → lookup c children ≡ some node → (node ≢ default) × IsPruned path node

pub IsPruned-default : (T : Type 0) (path : List Text) → IsPruned path (default {T = T})
unfolding lookup
IsPruned-default T [] = tt
IsPruned-default T (c ∷ path) = λ node e. cc

module _ {T : Type 0} where
  put_back-kept :
      (c : Text) (node : HandlerMap T) (children : Children T)
      → node ≢ default
      → put_back c node children ≡ put c node children
  unfolding put_back
  put_back-kept c (leaf t) children h = refl
  put_back-kept c (branch no_child) children h = absurd (h refl)
  put_back-kept c (branch (child name node rest)) children h = refl

  remove_step :
      (c : Text) (path : List Text) (handler : T) (children : Children T) (m back : HandlerMap T)
      → remove path m ≡ (some handler, back)
      → remove (c ∷ path) (branch (put c m children))
        ≡ (some handler, branch (put_back c back (put c m children)))
  unfolding remove
  remove_step c path handler children m back e =
      rw (remove, lookup-put c m children)
        (ap (λ r. (r.0, branch (put_back c r.1 (put c m children)))) e)

  -- Removing the handler that was inserted gives it back and restores the tree.
  pub remove-insert :
      (path : List Text) (handler : T) (m m' : HandlerMap T)
      → IsPruned path m
      → insert path handler m ≡ (ok tt, m')
      → remove path m' ≡ (some handler, m)
  unfolding insert remove
  remove-insert [] handler (leaf t) m' h e = cc
  remove-insert (c ∷ path) handler (leaf t) m' h e = cc
  remove-insert [] handler (branch no_child) m' h e =
      let same : m' ≡ leaf handler = sym (ap (λ r. r.1) e) in rw same refl
  remove-insert [] handler (branch (child name node children)) m' h e = cc
  remove-insert (c ∷ path) handler (branch children) m' h e =
      let r = insert path handler (or_default (lookup c children)) in
      let done : r.0 ≡ ok tt = ap (λ r. r.0) e in
      let same : m' ≡ branch (put c r.1 children) = sym (ap (λ r. r.1) e) in
      let below : r ≡ (ok tt, r.1) = ap (λ x. (x, r.1)) done in
      rw same (elim (Option-cases (lookup c children)) [
        | inl n ↦
            let here : or_default (lookup c children) ≡ default = ap or_default n in
            let ih =
              remove-insert path handler default r.1 (IsPruned-default T path)
                (subst (λ x. insert path handler x ≡ (ok tt, r.1)) here below) in
            remove_step c path handler children r.1 default ih
            ∙ ap (λ rest. (some handler, branch rest)) (erase-put_new c r.1 children n)
        | inr (node, n) ↦
            let here : or_default (lookup c children) ≡ node = ap or_default n in
            let (solid, pruned) = h node n in
            let ih =
              remove-insert path handler node r.1 pruned
                (subst (λ x. insert path handler x ≡ (ok tt, r.1)) here below) in
            remove_step c path handler children r.1 node ih
            ∙ ap (λ rest. (some handler, branch rest))
                (put_back-kept c node (put c r.1 children) solid
                  ∙ put-put c r.1 node children
                  ∙ put-lookup c node children n)
      ])
