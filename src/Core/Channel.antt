-- ===== src/Core/Channel.antt =====
-- core/src/channel.rs: a channel over which a file is received, as a stream that is polled, and the
-- sequence numbers of core/src/util.rs. The receiver of the queue of packets is the list of packets
-- that wait in it, with a flag that tells whether the sender is still there. `none` is a panic: a
-- packet that is shorter than its own header says.
pub mod Stream
pub mod Manager
mod Examples
use librespot.Base.{
  ℕ, zero, suc, ◌+◌, ◌-◌, ◌*◌, ◌%◌, ◌^◌, Bool, true, false, List, [], ◌∷◌, ◌++◌, Option, none, some,
  ◌==◌, ltb, if◌then◌else◌, length, take, drop,
}
use librespot.Base.Result.{Result, ok, err}

abbrev pub Bytes : Type 0
Bytes = List ℕ

-- `SeqGenerator<u16>::get`: the value and the next generator.
unfoldable pub next_seq : ℕ → ℕ × ℕ
next_seq value = (value, (value + 1) % 2 ^ 16)

pub data ChannelError : Type 0 where
  channel_error : ChannelError

pub data ChannelState : Type 0 where
  header : Bytes → ChannelState
  data_state closed : ChannelState

pub record Channel : Type 0 where
  pub packets : List (ℕ × Bytes)
  pub has_sender : Bool
  pub channel_state : ChannelState

pub data ChannelEvent : Type 0 where
  header_event : ℕ → Bytes → ChannelEvent
  data_event : Bytes → ChannelEvent

pub data Poll (A : Type 0) : Type 0 where
  pending : Poll A
  ready : A → Poll A

-- `PacketType::ChannelError`
abbrev pub channel_error_type : ℕ
channel_error_type = 0xa

abbrev with_state : ChannelState → Channel → Channel
with_state state c = record c { channel_state = state }

-- `BigEndian::read_u16` of the packet's first bytes panics on a shorter packet.
unfoldable pub recv_packet : Channel → Option (Poll (Result ChannelError Bytes) × Channel)
recv_packet c = elim c.packets [
  | [] ↦ some ((if c.has_sender then pending else ready (err channel_error)), c)
  | packet ∷ packets ↦
      let c' = record c { packets = packets } in
      if packet.0 == channel_error_type
      then (if ltb (length packet.1) 2
          then none
          else some (ready (err channel_error), with_state closed c'))
      else some (ready (ok packet.1), c')
]

-- What a poll returns: an item of the stream, which is `none` at its end.
abbrev pub Item : Type 0
Item = Poll (Option (Result ChannelError ChannelEvent))

unfoldable pub data_item : Bytes → Channel → Item × Channel
data_item [] c = (ready none, record c { has_sender = false; channel_state = closed })
data_item (b ∷ bytes) c = (ready (some (ok (data_event (b ∷ bytes)))), c)

-- `ready!(self.recv_packet(cx))?` in the state of a stream item.
abbrev pub on_packet :
    Poll (Result ChannelError Bytes) × Channel
    → (Bytes → Channel → Option (Item × Channel))
    → Option (Item × Channel)
on_packet (pending, c) f = some (pending, c)
on_packet (ready (err e), c) f = some (ready (some (err e)), c)
on_packet (ready (ok bytes), c) f = f bytes c

abbrev pub or_panic :
    Option (Poll (Result ChannelError Bytes) × Channel)
    → (Bytes → Channel → Option (Item × Channel))
    → Option (Item × Channel)
or_panic none f = none
or_panic (some r) f = on_packet r f

unfoldable pub poll_data : Channel → Option (Item × Channel)
unfolding recv_packet data_item
poll_data c = or_panic (recv_packet c) (λ bytes c'. some (data_item bytes c'))

-- The state `Header` with bytes: `split_to` panics behind the end of them.
unfoldable pub read_header : Bytes → Channel → Option (Item × Channel)
unfolding poll_data
read_header [] c = none
read_header (high ∷ []) c = none
read_header (high ∷ low ∷ []) c =
    let rest = poll_data (with_state data_state c) in if high * 256 + low == 0 then rest else none
read_header (high ∷ low ∷ id ∷ bytes) c =
    let size : ℕ = high * 256 + low in
    let rest = poll_data (with_state data_state c) in
    if size == 0
    then rest
    else if ltb (length bytes) (size - 1)
    then none
    else some (
      ready (some (ok (header_event id (take (size - 1) bytes)))),
      with_state (header (drop (size - 1) bytes)) c,
    )

unfoldable pub poll_next : Channel → Option (Item × Channel)
unfolding recv_packet read_header poll_data
poll_next c = elim c.channel_state [
  | closed ↦ some (ready none, c)
  | header bytes ↦ elim bytes [
    | [] ↦ or_panic (recv_packet c) read_header
    | b ∷ rest ↦ read_header (b ∷ rest) c
  ]
  | data_state ↦ poll_data c
]
