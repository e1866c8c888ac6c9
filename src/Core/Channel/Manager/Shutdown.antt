-- ===== src/Core/Channel/Manager/Shutdown.antt =====
-- core/src/channel.rs: sequences of calls, and what `shutdown` does to the channels.
use librespot.Base.{
  ℕ, ◌+◌, ◌*◌, ◌≡◌, ◌≢◌, refl, sym, ap, ◌∙◌, subst, true, false, List, [], ◌∷◌, some, length,
  get_elem?, set, inl, inr, Bool-cases, length-set,
}
use librespot.Base.Result.{Result, ok, err}
use librespot.Core.Channel.{Bytes, ChannelError, Channel, Item, pending, poll_next}
use librespot.Core.Channel.Manager.{
  ChannelManager, Channels, no_channels, find_sender, modify_channel, allocate, measure_from,
  count_bytes, send_to, sent, dispatch, shutdown,
}
use librespot.Core.Channel.Manager.Connected.{
  connected, connected-modify_channel, length-modify_channel, connected-set, connected-get,
  drop_senders_lem, connected-drop_senders,
}
use librespot.Core.Channel.Manager.Linked.{
  kept_map, IsLinked, kept-IsLinked, allocate-IsLinked, dispatch-IsLinked,
}
use librespot.Core.Channel.Manager.Polls.{PollsFrom, poll_next-PollsFrom}

-- The receiver of a channel is dropped, with the packets in it.
abbrev pub drop_receiver : Channel → Channel
drop_receiver c = record c { packets = []; has_sender = false }

-- A call of a method of the manager, a poll of a channel, or the end of one.
pub data Step : Channels → Channels → Type 0 where
  allocated_next : (s : Channels) → Step s (allocate s).2
  dispatched :
      (s s' : Channels) (now cmd : ℕ) (bytes : Bytes) (r : Result ChannelError (Unit {0}))
      → dispatch now cmd bytes s ≡ some (r, s')
      → Step s s'
  polled :
      (s : Channels) (place : ℕ) (c c' : Channel) (item : Item)
      → get_elem? s.allocated place ≡ some c
      → poll_next c ≡ some (item, c')
      → Step s (record s { allocated = set s.allocated place c' })
  dropped :
      (s : Channels) (place : ℕ)
      → Step s (record s { allocated = modify_channel drop_receiver place s.allocated })
  stopped : (s : Channels) → Step s (shutdown s)

pub data Reaches (s : Channels) : Channels → Type 0 where
  same : Reaches s s
  stepped : (t t' : Channels) → Reaches s t → Step t t' → Reaches s t'

shutdown-IsLinked : (s : Channels) → IsLinked s → IsLinked (shutdown s)
unfolding shutdown
shutdown-IsLinked s l = record {
  linked = λ q h.
      let old = l.linked q (connected-drop_senders s.manager.channels s.allocated q h) in
      absurd (drop_senders_lem old.0 q s.manager.channels s.allocated old.1 h);
  in_range = λ id q h. absurd (unfold find_sender in cc);
  none_left = λ h. refl;
}

Step-IsLinked : {s s' : Channels} → Step s s' → IsLinked s → IsLinked s'
Step-IsLinked (allocated_next s) l = allocate-IsLinked s l
Step-IsLinked (dispatched s s' now cmd bytes r e) l = dispatch-IsLinked now cmd bytes s s' r e l
Step-IsLinked (polled s place c c' item e f) l =
    let kept : PollsFrom c.has_sender (some (item, c')) =
      subst (PollsFrom c.has_sender) f (poll_next-PollsFrom c) in
    kept-IsLinked s s.manager (set s.allocated place c') refl refl (length-set s.allocated place c')
      (λ q. connected-set s.allocated place q c c' e kept.0) l
Step-IsLinked (dropped s place) l =
    kept-IsLinked s s.manager (modify_channel drop_receiver place s.allocated) refl refl
      (length-modify_channel drop_receiver place s.allocated)
      (λ q. connected-modify_channel drop_receiver place s.allocated q (λ c e. absurd cc)) l
Step-IsLinked (stopped s) l = shutdown-IsLinked s l

pub Reaches-IsLinked : (s t : Channels) → Reaches s t → IsLinked s → IsLinked t
Reaches-IsLinked s _ same l = l
Reaches-IsLinked s _ (stepped t t' r q) l = Step-IsLinked q (Reaches-IsLinked s t r l)

pub no_channels-IsLinked : IsLinked no_channels
unfolding no_channels
no_channels-IsLinked = record {
  linked = λ q h. absurd cc;
  in_range = λ id q h. absurd (unfold find_sender in cc);
  none_left = λ h. refl;
}

sent-manager :
    (m : ChannelManager) (cs : List Channel) (r : Result ChannelError (List Channel))
    → (sent m cs r).1.manager ≡ m
unfolding sent
sent-manager m cs (ok cs') = refl
sent-manager m cs (err e) = refl

dispatch-stays_invalid :
    (now cmd : ℕ) (bytes : Bytes) (s s' : Channels) (r : Result ChannelError (Unit {0}))
    → dispatch now cmd bytes s ≡ some (r, s')
    → s'.manager.invalid ≡ s.manager.invalid
unfolding dispatch
dispatch-stays_invalid now cmd [] s s' r e = absurd cc
dispatch-stays_invalid now cmd (high ∷ []) s s' r e = absurd cc
dispatch-stays_invalid now cmd (high ∷ low ∷ bytes) s s' r e =
    let m : ChannelManager =
      count_bytes (length bytes)
        (measure_from s.manager.download_measurement_start now s.manager) in
    let result : Result ChannelError (List Channel) =
      send_to cmd bytes (find_sender (high * 256 + low) s.manager.channels) s.allocated in
    let after : (sent m s.allocated result).1 ≡ s' = cc in
    sym (ap (λ x. x.manager.invalid) after)
    ∙ ap (λ x. x.invalid) (sent-manager m s.allocated result)
    ∙ (kept_map s.manager.download_measurement_start now (length bytes) s.manager).1

Step-stays_invalid :
    {s s' : Channels} → Step s s' → s.manager.invalid ≡ true → s'.manager.invalid ≡ true
unfolding shutdown
Step-stays_invalid (allocated_next s) h = unfold allocate in rw h refl
Step-stays_invalid (dispatched s s' now cmd bytes r e) h =
    dispatch-stays_invalid now cmd bytes s s' r e ∙ h
Step-stays_invalid (polled s place c c' item e f) h = h
Step-stays_invalid (dropped s place) h = h
Step-stays_invalid (stopped s) h = refl

Reaches-stays_invalid :
    (s t : Channels) → Reaches s t → s.manager.invalid ≡ true → t.manager.invalid ≡ true
Reaches-stays_invalid s _ same h = h
Reaches-stays_invalid s _ (stepped t t' r q) h =
    Step-stays_invalid q (Reaches-stays_invalid s t r h)

-- No sender is left after a shutdown.
shut-disconnected :
    (t : Channels) (q : ℕ) → IsLinked t → t.manager.invalid ≡ true → connected t.allocated q ≢ true
shut-disconnected t q l h e =
    let sender = l.linked q e in
    let gone : find_sender sender.0 [] ≡ some q =
      subst (λ x. find_sender sender.0 x ≡ some q) (l.none_left h) sender.1 in
    absurd (unfold find_sender in cc)

-- After `shutdown` no poll of a channel waits, whatever was done before and is done later: neither
-- of the channels that were allocated before nor of later ones.
pub shutdown_lem :
    (s t : Channels) (place : ℕ) (c c' : Channel) (item : Item)
    → Reaches no_channels s
    → Reaches (shutdown s) t
    → get_elem? t.allocated place ≡ some c
    → poll_next c ≡ some (item, c')
    → item ≢ pending
shutdown_lem s t place c c' item r q e f =
    let before : IsLinked s = Reaches-IsLinked no_channels s r no_channels-IsLinked in
    let after : IsLinked t = Reaches-IsLinked (shutdown s) t q (shutdown-IsLinked s before) in
    let shut : t.manager.invalid ≡ true =
      Reaches-stays_invalid (shutdown s) t q (unfold shutdown in refl) in
    let kept : PollsFrom c.has_sender (some (item, c')) =
      subst (PollsFrom c.has_sender) f (poll_next-PollsFrom c) in
    elim (Bool-cases c.has_sender) [
      | inl h ↦
          absurd (shut-disconnected t place after shut (connected-get t.allocated place c e ∙ h))
      | inr h ↦ kept.1 h
    ]
