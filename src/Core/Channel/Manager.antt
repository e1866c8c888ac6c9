-- ===== src/Core/Channel/Manager.antt =====
-- core/src/channel.rs: ChannelManager, which hands packets to the channels. The channels stand in
-- a list, in the order of their allocation; the map of the manager holds for each number the place
-- of the channel that its sender belongs to. `has_sender` of a channel tells that it is connected:
-- its sender is in the map, and its receiver is neither closed nor dropped. Times are in
-- nanoseconds, below 2 ^ 64.
pub mod Connected
pub mod Polls
pub mod Linked
pub mod Routing
pub mod Shutdown
pub mod Arrived
mod Examples
use librespot.Base.{
  ℕ, zero, suc, ◌+◌, ◌-◌, ◌*◌, ◌/◌, ◌%◌, Bool, true, false, List, [], ◌∷◌, ◌++◌, Option, none, some,
  ◌==◌, ltb, if◌then◌else◌, length, get_elem?,
}
use librespot.Base.Word.{usize_mod}
use librespot.Base.Result.{Result, ok, err}
use librespot.Core.Channel.{
  Bytes, next_seq, ChannelError, channel_error, Channel, header, Item, poll_next,
}

pub record ChannelManager : Type 0 where
  pub sequence : ℕ
  pub channels : List (ℕ × ℕ)
  pub download_rate_estimate : ℕ
  pub download_measurement_start : Option ℕ
  pub download_measurement_bytes : ℕ
  pub invalid : Bool

-- The manager and all the channels that it allocated.
pub record Channels : Type 0 where
  pub manager : ChannelManager
  pub allocated : List Channel

unfoldable pub no_channels : Channels
no_channels = record {
  manager = record {
    sequence = 0;
    channels = [];
    download_rate_estimate = 0;
    download_measurement_start = none;
    download_measurement_bytes = 0;
    invalid = false;
  };
  allocated = [];
}

unfoldable pub find_sender : ℕ → List (ℕ × ℕ) → Option ℕ
find_sender id [] = none
find_sender id ((other, place) ∷ senders) =
    let later = find_sender id senders in if other == id then some place else later

unfoldable pub remove_sender : ℕ → List (ℕ × ℕ) → List (ℕ × ℕ)
remove_sender id [] = []
remove_sender id ((other, place) ∷ senders) =
    let later = remove_sender id senders in if other == id then later else (other, place) ∷ later

unfoldable pub modify_channel : (Channel → Channel) → ℕ → List Channel → List Channel
modify_channel f place [] = []
modify_channel f zero (c ∷ cs) = f c ∷ cs
modify_channel f (suc place) (c ∷ cs) = c ∷ modify_channel f place cs

abbrev pub disconnect : Channel → Channel
disconnect c = record c { has_sender = false }

-- The sender that `insert` replaces is dropped.
unfoldable pub drop_sender : Option ℕ → List Channel → List Channel
drop_sender none cs = cs
drop_sender (some place) cs = modify_channel disconnect place cs

abbrev pub new_channel : Bool → Channel
new_channel connected = record { packets = []; has_sender = connected; channel_state = header [] }

-- `allocate`: the number, the place of the channel and the state.
unfoldable pub allocate : Channels → ℕ × ℕ × Channels
allocate s =
    let m = s.manager in
    let seq = (next_seq m.sequence).0 in
    let next = (next_seq m.sequence).1 in
    let place = length s.allocated in
    (
      seq,
      place,
      if m.invalid
          then (record {
            manager = record m { sequence = next };
            allocated = s.allocated ++ new_channel false ∷ [];
          })
          else record {
            manager = record m {
              sequence = next;
              channels = (seq, place) ∷ remove_sender seq m.channels;
            };
            allocated =
                drop_sender (find_sender seq m.channels) s.allocated ++ new_channel true ∷ [];
          },
    )

abbrev pub one_second : ℕ
one_second = 1000000000

-- The measurement starts with the first packet, and again after each second.
unfoldable pub measure_from : Option ℕ → ℕ → ChannelManager → ChannelManager
measure_from none now m = record m { download_measurement_start = some now }
measure_from (some start) now m =
    if ltb one_second (now - start)
    then (record m {
      download_rate_estimate =
          1000 * m.download_measurement_bytes % usize_mod / ((now - start) / 1000000);
      download_measurement_start = some now;
      download_measurement_bytes = 0;
    })
    else m

unfoldable pub count_bytes : ℕ → ChannelManager → ChannelManager
count_bytes size m = record m {
  download_measurement_bytes = (m.download_measurement_bytes + size) % usize_mod;
}

unfoldable pub push_packet : ℕ → Bytes → Channel → Channel
push_packet cmd bytes c = record c { packets = c.packets ++ (cmd, bytes) ∷ [] }

-- `send` fails when the receiver is closed or dropped.
unfoldable pub send :
    ℕ → Bytes → Option Channel → ℕ → List Channel → Result ChannelError (List Channel)
send cmd bytes none place cs = err channel_error
send cmd bytes (some c) place cs =
    if c.has_sender then ok (modify_channel (push_packet cmd bytes) place cs) else err channel_error

unfoldable pub send_to : ℕ → Bytes → Option ℕ → List Channel → Result ChannelError (List Channel)
send_to cmd bytes none cs = ok cs
send_to cmd bytes (some place) cs = send cmd bytes (get_elem? cs place) place cs

unfoldable pub sent :
    ChannelManager
    → List Channel
    → Result ChannelError (List Channel)
    → Result ChannelError (Unit {0}) × Channels
sent m cs (ok cs') = (ok tt, record { manager = m; allocated = cs' })
sent m cs (err e) = (err e, record { manager = m; allocated = cs })

-- `dispatch`: `none` is the panic of `split_to` on a packet that is too short for a number.
unfoldable pub dispatch :
    ℕ → ℕ → Bytes → Channels → Option (Result ChannelError (Unit {0}) × Channels)
dispatch now cmd [] s = none
dispatch now cmd (high ∷ []) s = none
dispatch now cmd (high ∷ low ∷ bytes) s =
    let m = s.manager in
    let measured = count_bytes (length bytes) (measure_from m.download_measurement_start now m) in
    some (
      sent measured s.allocated
        (send_to cmd bytes (find_sender (high * 256 + low) m.channels) s.allocated))

unfoldable pub get_download_rate_estimate : Channels → ℕ
get_download_rate_estimate s = s.manager.download_rate_estimate

-- All senders are dropped.
unfoldable pub drop_senders : List (ℕ × ℕ) → List Channel → List Channel
drop_senders [] cs = cs
drop_senders ((id, place) ∷ senders) cs = drop_senders senders (modify_channel disconnect place cs)

unfoldable pub shutdown : Channels → Channels
shutdown s = record {
  manager = record s.manager { channels = []; invalid = true };
  allocated = drop_senders s.manager.channels s.allocated;
}
