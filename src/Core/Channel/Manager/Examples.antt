-- ===== src/Core/Channel/Manager/Examples.antt =====
-- core/src/channel.rs: three channels, packets to two of them, and a shutdown.
use librespot.Base.{ℕ, ◌≡◌, ◌≢◌, refl, false, [], ◌∷◌, some, none, Option, get_elem?}
use librespot.Base.Result.{Result, ok, err}
use librespot.Core.Channel.{
  Bytes, ChannelError, Item, channel_error, pending, ready, poll_next, recv_packet, next_seq,
}
use librespot.Core.Channel.Manager.{
  Channels, no_channels, allocate, dispatch, drop_sender, find_sender, remove_sender, shutdown,
  drop_senders, modify_channel, new_channel,
}
use librespot.Core.Channel.Manager.Arrived.{
  LeavesAlone, AllLeaveAlone, packet_of, arrived, arrived_lem,
}
use librespot.Core.Channel.Manager.Routing.{packet_for, holding}
use librespot.Core.Channel.Manager.Shutdown.{
  Reaches, Step, same, stepped, allocated_next, dispatched, shutdown_lem,
}

abbrev one_channel : Channels
unfolding allocate no_channels drop_sender find_sender remove_sender next_seq
one_channel = (allocate no_channels).2

one_channel-Reaches : Reaches no_channels one_channel
unfolding one_channel
one_channel-Reaches = stepped no_channels one_channel same (allocated_next no_channels)

not_shut : one_channel.manager.invalid ≡ false
unfolding one_channel allocate no_channels
not_shut = refl

abbrev outcome : Option (Result ChannelError (Unit {0}) × Channels) → Result ChannelError (Unit {0})
outcome none = ok tt
outcome (some r) = r.0

abbrev delivered : Option (Result ChannelError (Unit {0}) × Channels) → Channels
delivered none = no_channels
delivered (some r) = r.1

abbrev packet : ℕ → ℕ → Bytes
packet low byte = 0 ∷ low ∷ byte ∷ []

abbrev after_packet : ℕ → ℕ → Channels → Channels
after_packet low byte s = delivered (dispatch 5 9 (packet low byte) s)

packet-Step : (low byte : ℕ) (s : Channels) → Step s (after_packet low byte s)
unfolding dispatch
packet-Step low byte s =
    dispatched s (after_packet low byte s) 5 9 (packet low byte)
      (outcome (dispatch 5 9 (packet low byte) s)) refl

abbrev two_channels : Channels
two_channels = (allocate one_channel).2

abbrev three_channels : Channels
three_channels = (allocate two_channels).2

abbrev one_packet : Channels
one_packet = after_packet 1 7 three_channels

abbrev two_packets : Channels
two_packets = after_packet 2 5 one_packet

abbrev three_packets : Channels
three_packets = after_packet 1 8 two_packets

-- A third channel is allocated, and gets the packet in the middle.
abbrev run : Reaches two_channels three_packets
run =
    stepped two_packets three_packets
      (stepped one_packet two_packets
        (stepped three_channels one_packet
          (stepped two_channels three_channels same (allocated_next two_channels))
          (packet-Step 1 7 three_channels))
        (packet-Step 2 5 one_packet))
      (packet-Step 1 8 two_packets)

run-AllLeaveAlone :
    AllLeaveAlone (allocate one_channel).0 (allocate one_channel).1 two_channels three_packets run
unfolding AllLeaveAlone LeavesAlone packet-Step one_channel allocate no_channels drop_sender
    find_sender remove_sender next_seq dispatch
run-AllLeaveAlone = ((((tt, λ e. absurd cc), tt), tt), tt)

arrived_lem_example :
    get_elem? three_packets.allocated (allocate one_channel).1
    ≡ some (holding (arrived (allocate one_channel).0 two_channels three_packets run))
arrived_lem_example =
    arrived_lem one_channel three_packets run one_channel-Reaches not_shut run-AllLeaveAlone

-- The second channel gets the first packet and the last.
second_channel : arrived 1 two_channels three_packets run ≡ (9, 7 ∷ []) ∷ (9, 8 ∷ []) ∷ []
unfolding arrived packet_of packet_for packet-Step
second_channel = refl

abbrev shut : Channels
unfolding one_channel shutdown drop_senders modify_channel
shut = shutdown one_channel

shut-channel : get_elem? shut.allocated 0 ≡ some (new_channel false)
unfolding one_channel shut shutdown drop_senders modify_channel allocate no_channels drop_sender
    find_sender remove_sender next_seq
shut-channel = refl

reached : Reaches (shutdown one_channel) shut
unfolding shut
reached = same

shut-poll :
    poll_next (new_channel false) ≡ some (ready (some (err channel_error)), new_channel false)
unfolding poll_next recv_packet
shut-poll = refl

abbrev failed : Item
failed = ready (some (err channel_error))

shutdown_lem_example : failed ≢ pending
shutdown_lem_example =
    shutdown_lem one_channel shut 0 (new_channel false) (new_channel false) failed
      one_channel-Reaches reached shut-channel shut-poll
