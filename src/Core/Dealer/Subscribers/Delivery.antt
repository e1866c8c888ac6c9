-- ===== src/Core/Dealer/Subscribers/Delivery.antt =====
-- Who receives a message that is delivered by `retain`.
use librespot.Base.{
  ◌≡◌, refl, ap, ◌∙◌, Bool, true, false, List, [], ◌∷◌, ◌++◌, some, if◌then◌else◌, inl, inr,
  Option-cases, Bool-cases, arith,
}
use librespot.Base.Text.{Text, text_eq, text_eq_refl}
use librespot.Core.Dealer.Subscribers.{
  SubscriberMap, node, Branches, no_branch, add_branch, or_empty, branch_at, put_branch, subscribe,
  empty, is_empty, keep, put_kept, retain,
}

module _ {T : Type 0} where
  branch_at-put_branch :
      (key : Text) (new : SubscriberMap T) (children : Branches T)
      → branch_at key (put_branch key new children) ≡ some new
  unfolding branch_at put_branch
  branch_at-put_branch key new no_branch = rw (text_eq_refl key) refl
  branch_at-put_branch key new (add_branch name m children) = elim (Bool-cases (text_eq name key)) [
    | inl e ↦ rw e (rw (text_eq_refl key) refl)
    | inr e ↦ rw e (rw e (branch_at-put_branch key new children))
  ]

  -- The subscribers on the way that come first: those of the first node that has any.
  abbrev pub subscribers_at : SubscriberMap T → List T
  subscribers_at (node subscribed children) = subscribed

  shadowed :
      (fun : T → Bool) (path : List Text) (x : T) (xs : List T) (children : Branches T)
      → (retain fun path (node (x ∷ xs) children)).2 ≡ x ∷ xs
  unfolding retain
  shadowed fun [] x xs children = refl
  shadowed fun (c ∷ path) x xs children = elim (Option-cases (branch_at c children)) [
    | inl e ↦ rw (retain, e) refl
    | inr (m, e) ↦ rw (retain, e) refl
  ]

  -- A node with subscribers hides those that subscribe below it: whatever the path of a message
  -- is, it is delivered to the node's own subscribers only.
  retain_shadows :
      (fun : T → Bool) (path deeper : List Text) (handler x : T) (xs : List T)
      (children : Branches T)
      → (retain fun path (subscribe deeper handler (node (x ∷ xs) children))).2
        ≡ subscribers_at (subscribe deeper handler (node (x ∷ xs) children))
  unfolding subscribe
  retain_shadows fun path [] handler x xs children =
      shadowed fun path x (xs ++ handler ∷ []) children
  retain_shadows fun path (d ∷ deeper) handler x xs children =
      shadowed fun path x xs
        (put_branch d (subscribe deeper handler (or_empty (branch_at d children))) children)

  subscribe-below :
      (c : Text) (path : List Text) (handler : T) (m : SubscriberMap T)
      → subscribe (c ∷ path) handler (node [] (add_branch c m no_branch))
        ≡ node [] (add_branch c (subscribe path handler m) no_branch)
  unfolding subscribe branch_at put_branch
  subscribe-below c path handler m = rw (text_eq_refl c) refl

  retain-below :
      (fun : T → Bool) (c : Text) (path : List Text) (m : SubscriberMap T)
      → (retain fun (c ∷ path) (node [] (add_branch c m no_branch))).2 ≡ (retain fun path m).2
  unfolding retain branch_at
  retain-below fun c path m = rw (retain, text_eq_refl c) refl

  -- After a subscription to a path and one below it, a message that starts with the first path is
  -- delivered to the first subscriber only, also when it starts with the path of the second.
  pub retain-shadowed :
      (fun : T → Bool) (path deeper rest : List Text) (first second : T) (d : Text)
      → (retain fun
          (path ++ rest)
          (subscribe (path ++ d ∷ deeper) second (subscribe path first empty))).2
        ≡ first ∷ []
  unfolding subscribe
  retain-shadowed fun [] deeper rest first second d =
      retain_shadows fun rest (d ∷ deeper) second first [] no_branch
  retain-shadowed fun (c ∷ path) deeper rest first second d =
      let top = subscribe path first empty in
      ap (λ m. (retain fun (c ∷ path ++ rest) m).2)
        (subscribe-below c (path ++ d ∷ deeper) second top)
      ∙ retain-below fun c (path ++ rest) (subscribe (path ++ d ∷ deeper) second top)
      ∙ retain-shadowed fun path deeper rest first second d

  subscribe-is_empty :
      (path : List Text) (handler : T) → is_empty (subscribe path handler empty) ≡ false
  unfolding is_empty subscribe put_branch branch_at
  subscribe-is_empty [] handler = refl
  subscribe-is_empty (c ∷ path) handler = refl

  kept_branch :
      (c : Text) (m : SubscriberMap T)
      → is_empty m ≡ false
      → put_kept c m (add_branch c m no_branch) ≡ add_branch c m no_branch
  unfolding put_kept
  kept_branch c m h = rw (put_kept, h) (rw (text_eq_refl c) refl)

  dropped_branch :
      (c : Text) (m : SubscriberMap T) → put_kept c empty (add_branch c m no_branch) ≡ no_branch
  unfolding put_kept
  dropped_branch c m = rw (text_eq_refl c) refl

  -- A message that starts with the path of the only subscriber is delivered to it, once; the
  -- subscriber stays if it wants to, and otherwise its whole branch is removed.
  pub retain-subscribe :
      (fun : T → Bool) (path rest : List Text) (handler : T)
      → retain fun (path ++ rest) (subscribe path handler empty)
        ≡ (true, (if fun handler then subscribe path handler empty else empty), handler ∷ [])
  unfolding retain subscribe keep
  retain-subscribe fun [] [] handler = ground arith
  retain-subscribe fun [] (c ∷ rest) handler = ground arith
  retain-subscribe fun (c ∷ path) rest handler =
      let m = subscribe path handler empty in
      let outer : Bool × SubscriberMap T × List T → Bool × SubscriberMap T × List T =
        λ r. (r.0, node [] (put_kept c r.1 (add_branch c m no_branch)), r.2) in
      rw (retain, text_eq_refl c)
        (ap outer (retain-subscribe fun path rest handler) ∙ elim (Bool-cases (fun handler)) [
          | inl e ↦ rw e (
              ap (λ b. (true, node [] b, handler ∷ []))
                (kept_branch c m (subscribe-is_empty path handler)))
          | inr e ↦ rw e (ap (λ b. (true, node [] b, handler ∷ [])) (dropped_branch c m))
        ])
