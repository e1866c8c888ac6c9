-- ===== src/Core/Channel/Manager/Linked.antt =====
-- core/src/channel.rs: every connected channel has its sender in the map, and stays so.
use librespot.Base.{
  ℕ, ◌+◌, ◌-◌, ◌*◌, ◌<◌, ◌≡◌, ◌≢◌, refl, sym, ap, ◌∙◌, subst, true, false, List, [], ◌∷◌, ◌++◌,
  Option, none, some, ◌==◌, ltb, length, length-append, get_elem?, inl, inr, Bool-cases, arith,
  if◌then◌else◌,
}
use librespot.Base.Result.{Result, ok, err}
use librespot.Core.Channel.{next_seq, Bytes, ChannelError, Channel}
use librespot.Core.Channel.Manager.{
  ChannelManager, Channels, find_sender, remove_sender, disconnect, drop_sender, new_channel,
  allocate, measure_from, count_bytes, push_packet, send, send_to, sent, one_second, dispatch,
}
use librespot.Core.Channel.Manager.Connected.{
  connected, connected-modify_channel, connected-disconnect, length-modify_channel,
  connected-append, find_sender-remove_sender,
}

-- Each connected channel has its sender in the map, whose places are those of channels.
pub record IsLinked (s : Channels) : Type 0 where
  pub linked :
      (q : ℕ)
      → connected s.allocated q ≡ true
      → (id : ℕ) × (find_sender id s.manager.channels ≡ some q)
  pub in_range : (id q : ℕ) → find_sender id s.manager.channels ≡ some q → q < length s.allocated
  pub none_left : s.manager.invalid ≡ true → s.manager.channels ≡ []

-- Changes that keep the map and the length of the list, and connect no channel.
pub kept-IsLinked :
    (s : Channels) (m : ChannelManager) (cs : List Channel)
    → m.channels ≡ s.manager.channels
    → m.invalid ≡ s.manager.invalid
    → length cs ≡ length s.allocated
    → ((q : ℕ) → connected cs q ≡ true → connected s.allocated q ≡ true)
    → IsLinked s
    → IsLinked (record { manager = m; allocated = cs })
kept-IsLinked s m cs e f g k l = record {
  linked = λ q h. rw e (l.linked q (k q h));
  in_range = λ id q h. rw g (l.in_range id q (sym (ap (find_sender id) e) ∙ h));
  none_left = λ h. e ∙ l.none_left (sym f ∙ h);
}

connected-drop_sender :
    (p : Option ℕ) (cs : List Channel) (q : ℕ)
    → connected (drop_sender p cs) q ≡ true
    → (connected cs q ≡ true) × (p ≢ some q)
unfolding drop_sender
connected-drop_sender none cs q h = (h, λ e. absurd cc)
connected-drop_sender (some p) cs q h = (
  connected-modify_channel disconnect p cs q (λ c e. absurd cc) h,
  λ e. let here : p ≡ q = cc in absurd (ground (arith, h, connected-disconnect q cs, here)),
)

pub length-drop_sender : (p : Option ℕ) (cs : List Channel) → length (drop_sender p cs) ≡ length cs
unfolding drop_sender
length-drop_sender none cs = refl
length-drop_sender (some p) cs = length-modify_channel disconnect p cs

pub find_sender-put :
    (seq place id : ℕ) (senders : List (ℕ × ℕ))
    → find_sender id ((seq, place) ∷ remove_sender seq senders)
      ≡ (if seq == id then some place else find_sender id senders)
unfolding find_sender
find_sender-put seq place id senders = ground (arith, find_sender-remove_sender seq id senders)

module _ (s : Channels) (l : IsLinked s) where
  new_senders : List (ℕ × ℕ)
  new_senders =
      (s.manager.sequence, length s.allocated) ∷ remove_sender s.manager.sequence s.manager.channels

  -- The list without the sender that is replaced.
  others : List Channel
  others = drop_sender (find_sender s.manager.sequence s.manager.channels) s.allocated

  new-linked :
      (q : ℕ)
      → connected (others ++ new_channel true ∷ []) q ≡ true
      → (id : ℕ) × (find_sender id new_senders ≡ some q)
  unfolding others new_senders
  new-linked q h =
      let found : Option ℕ = find_sender s.manager.sequence s.manager.channels in
      elim (connected-append others (new_channel true) q h) [
        | inr (e, f) ↦
            let place : q ≡ length s.allocated = e ∙ length-drop_sender found s.allocated in
            (
              s.manager.sequence,
              ground (
                arith,
                place,
                find_sender-put s.manager.sequence (length s.allocated) s.manager.sequence
                    s.manager.channels,
              ),
            )
        | inl i ↦
            let old = connected-drop_sender found s.allocated q i in
            let before = l.linked q old.0 in
            (
              before.0,
              elim (Bool-cases (s.manager.sequence == before.0)) [
                | inl e ↦
                    let id : s.manager.sequence ≡ before.0 = ground (arith, e) in
                    absurd (old.1 (ap (λ x. find_sender x s.manager.channels) id ∙ before.1))
                | inr e ↦
                    find_sender-put s.manager.sequence (length s.allocated) before.0
                      s.manager.channels
                    ∙ rw e before.1
              ],
            )
      ]

  new-in_range :
      (id q : ℕ)
      → find_sender id new_senders ≡ some q
      → q < length (others ++ new_channel true ∷ [])
  unfolding others new_senders
  new-in_range id q h =
      let found : Option ℕ = find_sender s.manager.sequence s.manager.channels in
      let long : length (others ++ new_channel true ∷ []) ≡ length s.allocated + 1 = omega (
        arith,
        length-append others (new_channel true ∷ []),
        length-drop_sender found s.allocated,
      ) in
      ground (
        arith,
        h,
        long,
        l.in_range id q,
        find_sender-put s.manager.sequence (length s.allocated) id s.manager.channels,
      )

  refused-linked :
      (q : ℕ)
      → connected (s.allocated ++ new_channel false ∷ []) q ≡ true
      → (id : ℕ) × (find_sender id s.manager.channels ≡ some q)
  refused-linked q h = elim (connected-append s.allocated (new_channel false) q h) [
    | inl i ↦ l.linked q i
    | inr (e, f) ↦ absurd cc
  ]

  pub allocate-IsLinked : IsLinked (allocate s).2
  unfolding allocate next_seq
  allocate-IsLinked = elim (Bool-cases s.manager.invalid) [
    | inl e ↦ rw e (record {
      linked = refused-linked;
      in_range = λ id q h.
          omega (arith, length-append s.allocated (new_channel false ∷ []), l.in_range id q h);
      none_left = λ h. l.none_left e;
    })
    | inr e ↦ rw e (record {
      linked = unfold others new_senders in new-linked;
      in_range = unfold others new_senders in new-in_range;
      none_left = λ h. absurd (ground (arith, e, h));
    })
  ]

pub kept_map :
    (start : Option ℕ) (now size : ℕ) (m : ChannelManager)
    → ((count_bytes size (measure_from start now m)).channels ≡ m.channels)
      × ((count_bytes size (measure_from start now m)).invalid ≡ m.invalid)
unfolding count_bytes measure_from
kept_map none now size m = (refl, refl)
kept_map (some start) now size m = elim (Bool-cases (ltb one_second (now - start))) [
  | inl e ↦ rw (e, measure_from) (refl, refl)
  | inr e ↦ rw (e, measure_from) (refl, refl)
]

-- What `send` does to the list: it stays as long, and connects no channel.
abbrev Sends : List Channel → Result ChannelError (List Channel) → Type 0
Sends cs (err e) = Unit
Sends cs (ok cs') =
    (length cs' ≡ length cs) × ((q : ℕ) → connected cs' q ≡ true → connected cs q ≡ true)

send-Sends :
    (cmd : ℕ) (bytes : Bytes) (c : Option Channel) (place : ℕ) (cs : List Channel)
    → Sends cs (send cmd bytes c place cs)
unfolding send
send-Sends cmd bytes none place cs = tt
send-Sends cmd bytes (some c) place cs = elim (Bool-cases c.has_sender) [
  | inl e ↦
      rw (e, send)
        (
          length-modify_channel (push_packet cmd bytes) place cs,
          λ q.
              connected-modify_channel (push_packet cmd bytes) place cs q
                (λ x h. unfold push_packet in h),
        )
  | inr e ↦ rw (e, send) tt
]

send_to-Sends :
    (cmd : ℕ) (bytes : Bytes) (place : Option ℕ) (cs : List Channel)
    → Sends cs (send_to cmd bytes place cs)
unfolding send_to
send_to-Sends cmd bytes none cs = (refl, λ q h. h)
send_to-Sends cmd bytes (some place) cs = send-Sends cmd bytes (get_elem? cs place) place cs

sent-IsLinked :
    (s : Channels) (m : ChannelManager) (r : Result ChannelError (List Channel))
    → m.channels ≡ s.manager.channels
    → m.invalid ≡ s.manager.invalid
    → Sends s.allocated r
    → IsLinked s
    → IsLinked (sent m s.allocated r).1
unfolding sent
sent-IsLinked s m (ok cs) e f (g, k) l = kept-IsLinked s m cs e f g k l
sent-IsLinked s m (err x) e f g l = kept-IsLinked s m s.allocated e f refl (λ q h. h) l

pub dispatch-IsLinked :
    (now cmd : ℕ) (bytes : Bytes) (s s' : Channels) (r : Result ChannelError (Unit {0}))
    → dispatch now cmd bytes s ≡ some (r, s')
    → IsLinked s
    → IsLinked s'
unfolding dispatch
dispatch-IsLinked now cmd [] s s' r e l = absurd cc
dispatch-IsLinked now cmd (high ∷ []) s s' r e l = absurd cc
dispatch-IsLinked now cmd (high ∷ low ∷ bytes) s s' r e l =
    let m : ChannelManager =
      count_bytes (length bytes)
        (measure_from s.manager.download_measurement_start now s.manager) in
    let result : Result ChannelError (List Channel) =
      send_to cmd bytes (find_sender (high * 256 + low) s.manager.channels) s.allocated in
    let map_kept = kept_map s.manager.download_measurement_start now (length bytes) s.manager in
    let after : (sent m s.allocated result).1 ≡ s' = cc in
    subst IsLinked after (
      sent-IsLinked s m result map_kept.0 map_kept.1
        (send_to-Sends cmd bytes (find_sender (high * 256 + low) s.manager.channels) s.allocated) l)
