-- ===== src/Core/Channel/Manager/Polls.antt =====
-- core/src/channel.rs: which channels a poll waits for.
use librespot.Base.{
  ℕ, ◌+◌, ◌-◌, ◌*◌, ◌≡◌, ◌≢◌, refl, sym, ◌∙◌, subst, Bool, true, false, List, [], ◌∷◌, Option, none,
  some, ◌==◌, ltb, length, inl, inr, Bool-cases,
}
use librespot.Base.Result.{Result, ok, err}
use librespot.Core.Channel.{
  Bytes, ChannelError, Channel, ChannelState, header, data_state, closed, Item, Poll, pending,
  ready, channel_error_type, recv_packet, data_item, poll_data, read_header, poll_next, or_panic,
}

-- A poll of a channel, connected or not, does not connect it, and waits only for a connected one.
abbrev pub PollsFrom : Bool → Option (Item × Channel) → Type 0
PollsFrom b none = Unit
PollsFrom b (some (item, c)) = (c.has_sender ≡ true → b ≡ true) × (b ≡ false → item ≢ pending)

abbrev ReceivesFrom : Bool → Option (Poll (Result ChannelError Bytes) × Channel) → Type 0
ReceivesFrom b none = Unit
ReceivesFrom b (some (p, c)) = (c.has_sender ≡ b) × (b ≡ false → p ≢ pending)

received :
    (packets : List (ℕ × Bytes)) (b : Bool) (c : Channel)
    → ReceivesFrom b (recv_packet (record c { packets = packets; has_sender = b }))
unfolding recv_packet
received [] true c = (refl, λ e. absurd cc)
received [] false c = (refl, λ e q. absurd cc)
received (p ∷ packets) b c = elim (Bool-cases (p.0 == channel_error_type)) [
  | inr e ↦ rw (e, recv_packet) (refl, λ f q. absurd cc)
  | inl e ↦ elim (Bool-cases (ltb (length p.1) 2)) [
    | inl f ↦ rw (e, f, recv_packet) tt
    | inr f ↦ rw (e, f, recv_packet) (refl, λ g q. absurd cc)
  ]
]

recv_packet-ReceivesFrom : (c : Channel) → ReceivesFrom c.has_sender (recv_packet c)
recv_packet-ReceivesFrom c = received c.packets c.has_sender c

or_panic-PollsFrom :
    (b : Bool) (r : Option (Poll (Result ChannelError Bytes) × Channel))
    (f : Bytes → Channel → Option (Item × Channel))
    → ReceivesFrom b r
    → ((bytes : Bytes) (c : Channel) → PollsFrom c.has_sender (f bytes c))
    → PollsFrom b (or_panic r f)
or_panic-PollsFrom b none f h k = tt
or_panic-PollsFrom b (some (pending, c)) f (same, waits) k =
    ((λ e. sym same ∙ e), λ e q. waits e refl)
or_panic-PollsFrom b (some (ready (err e), c)) f (same, waits) k =
    ((λ e. sym same ∙ e), λ e q. absurd cc)
or_panic-PollsFrom b (some (ready (ok bytes), c)) f (same, waits) k =
    subst (λ x. PollsFrom x (f bytes c)) same (k bytes c)

data_item-PollsFrom :
    (bytes : Bytes) (c : Channel) → PollsFrom c.has_sender (some (data_item bytes c))
unfolding data_item
data_item-PollsFrom [] c = ((λ e. absurd cc), λ e q. absurd cc)
data_item-PollsFrom (b ∷ bytes) c = ((λ e. e), λ e q. absurd cc)

poll_data-PollsFrom : (c : Channel) → PollsFrom c.has_sender (poll_data c)
unfolding poll_data
poll_data-PollsFrom c =
    or_panic-PollsFrom c.has_sender (recv_packet c) (λ bytes c'. some (data_item bytes c'))
      (recv_packet-ReceivesFrom c) data_item-PollsFrom

read_header-PollsFrom : (bytes : Bytes) (c : Channel) → PollsFrom c.has_sender (read_header bytes c)
unfolding read_header
read_header-PollsFrom [] c = tt
read_header-PollsFrom (high ∷ []) c = tt
read_header-PollsFrom (high ∷ low ∷ []) c = elim (Bool-cases (high * 256 + low == 0)) [
  | inl e ↦ rw (e, read_header) (poll_data-PollsFrom (record c { channel_state = data_state }))
  | inr e ↦ rw (e, read_header) tt
]
read_header-PollsFrom (high ∷ low ∷ id ∷ bytes) c = elim (Bool-cases (high * 256 + low == 0)) [
  | inl e ↦ rw (e, read_header) (poll_data-PollsFrom (record c { channel_state = data_state }))
  | inr e ↦ elim (Bool-cases (ltb (length bytes) (high * 256 + low - 1))) [
    | inl f ↦ rw (e, f, read_header) tt
    | inr f ↦ rw (e, f, read_header) ((λ g. g), λ g q. absurd cc)
  ]
]

polled_from :
    (state : ChannelState) (c : Channel)
    → PollsFrom c.has_sender (poll_next (record c { channel_state = state }))
unfolding poll_next
polled_from closed c = ((λ e. e), λ e q. absurd cc)
polled_from data_state c = poll_data-PollsFrom (record c { channel_state = data_state })
polled_from (header []) c =
    or_panic-PollsFrom c.has_sender (recv_packet (record c { channel_state = header [] }))
      read_header (recv_packet-ReceivesFrom (record c { channel_state = header [] }))
      read_header-PollsFrom
polled_from (header (b ∷ bytes)) c =
    read_header-PollsFrom (b ∷ bytes) (record c { channel_state = header (b ∷ bytes) })

pub poll_next-PollsFrom : (c : Channel) → PollsFrom c.has_sender (poll_next c)
poll_next-PollsFrom c = polled_from c.channel_state c
