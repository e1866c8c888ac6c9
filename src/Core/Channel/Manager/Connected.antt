-- ===== src/Core/Channel/Manager/Connected.antt =====
-- core/src/channel.rs: which channels are connected, after changes of the list and of the map.
use librespot.Base.{
  ℕ, zero, suc, ◌≡◌, ◌≢◌, refl, ap, Bool, true, false, List, [], ◌∷◌, ◌++◌, none, some, ◌==◌,
  length, get_elem?, set, ◌⊎◌, inl, inr, Bool-cases, arith, if◌then◌else◌,
}
use librespot.Core.Channel.{Channel}
use librespot.Core.Channel.Manager.{
  find_sender, remove_sender, modify_channel, disconnect, drop_senders,
}

-- The channel at a place is there and connected.
abbrev pub connected : List Channel → ℕ → Bool
connected [] q = false
connected (c ∷ cs) zero = c.has_sender
connected (c ∷ cs) (suc q) = connected cs q

-- A change of a channel that does not connect it again.
abbrev pub Keeps : (Channel → Channel) → Type 0
Keeps f = (c : Channel) → (f c).has_sender ≡ true → c.has_sender ≡ true

pub connected-modify_channel :
    (f : Channel → Channel) (p : ℕ) (cs : List Channel) (q : ℕ)
    → Keeps f
    → connected (modify_channel f p cs) q ≡ true
    → connected cs q ≡ true
unfolding modify_channel
connected-modify_channel f p [] q k h = h
connected-modify_channel f zero (c ∷ cs) zero k h = k c h
connected-modify_channel f zero (c ∷ cs) (suc q) k h = h
connected-modify_channel f (suc p) (c ∷ cs) zero k h = h
connected-modify_channel f (suc p) (c ∷ cs) (suc q) k h = connected-modify_channel f p cs q k h

pub connected-disconnect :
    (p : ℕ) (cs : List Channel) → connected (modify_channel disconnect p cs) p ≡ false
unfolding modify_channel
connected-disconnect p [] = refl
connected-disconnect zero (c ∷ cs) = refl
connected-disconnect (suc p) (c ∷ cs) = connected-disconnect p cs

pub length-modify_channel :
    (f : Channel → Channel) (p : ℕ) (cs : List Channel) → length (modify_channel f p cs) ≡ length cs
unfolding modify_channel
length-modify_channel f p [] = refl
length-modify_channel f zero (c ∷ cs) = refl
length-modify_channel f (suc p) (c ∷ cs) = ap suc (length-modify_channel f p cs)

pub connected-append :
    (cs : List Channel) (c : Channel) (q : ℕ)
    → connected (cs ++ c ∷ []) q ≡ true
    → (connected cs q ≡ true) ⊎ ((q ≡ length cs) × (c.has_sender ≡ true))
connected-append [] c zero h = inr (refl, h)
connected-append [] c (suc q) h = absurd (cc)
connected-append (x ∷ cs) c zero h = inl h
connected-append (x ∷ cs) c (suc q) h = elim (connected-append cs c q h) [
  | inl i ↦ inl i
  | inr (e, i) ↦ inr (ap suc e, i)
]

pub connected-set :
    (cs : List Channel) (p q : ℕ) (c c' : Channel)
    → get_elem? cs p ≡ some c
    → (c'.has_sender ≡ true → c.has_sender ≡ true)
    → connected (set cs p c') q ≡ true
    → connected cs q ≡ true
connected-set [] p q c c' e k h = h
connected-set (x ∷ cs) zero zero c c' e k h =
    let same : x ≡ c = cc in rw (ap (λ x. x.has_sender) same) (k h)
connected-set (x ∷ cs) zero (suc q) c c' e k h = h
connected-set (x ∷ cs) (suc p) zero c c' e k h = h
connected-set (x ∷ cs) (suc p) (suc q) c c' e k h = connected-set cs p q c c' e k h

pub connected-get :
    (cs : List Channel) (p : ℕ) (c : Channel)
    → get_elem? cs p ≡ some c
    → connected cs p ≡ c.has_sender
connected-get [] p c e = absurd cc
connected-get (x ∷ cs) zero c e = let same : x ≡ c = cc in ap (λ x. x.has_sender) same
connected-get (x ∷ cs) (suc p) c e = connected-get cs p c e

-- The map of senders.
pub find_sender-remove_sender :
    (seq id : ℕ) (senders : List (ℕ × ℕ))
    → find_sender id (remove_sender seq senders)
      ≡ (if seq == id then none else find_sender id senders)
unfolding find_sender remove_sender
find_sender-remove_sender seq id [] = ground arith
find_sender-remove_sender seq id ((other, place) ∷ senders) =
    ground (arith, find_sender-remove_sender seq id senders)

pub connected-drop_senders :
    (senders : List (ℕ × ℕ)) (cs : List Channel) (q : ℕ)
    → connected (drop_senders senders cs) q ≡ true
    → connected cs q ≡ true
unfolding drop_senders
connected-drop_senders [] cs q h = h
connected-drop_senders ((id, place) ∷ senders) cs q h =
    connected-modify_channel disconnect place cs q (λ c e. absurd cc)
      (connected-drop_senders senders (modify_channel disconnect place cs) q h)

pub drop_senders_lem :
    (id q : ℕ) (senders : List (ℕ × ℕ)) (cs : List Channel)
    → find_sender id senders ≡ some q
    → connected (drop_senders senders cs) q ≢ true
unfolding drop_senders find_sender
drop_senders_lem id q [] cs e h = absurd cc
drop_senders_lem id q ((other, place) ∷ senders) cs e h = elim (Bool-cases (other == id)) [
  | inl s ↦
      let here : place ≡ q = ground (arith, e, s) in
      let kept = connected-drop_senders senders (modify_channel disconnect place cs) q h in
      absurd (ground (arith, kept, connected-disconnect q cs, here))
  | inr s ↦
      drop_senders_lem id q senders (modify_channel disconnect place cs) (ground (arith, e, s)) h
]
