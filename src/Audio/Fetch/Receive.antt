-- ===== src/Audio/Fetch/Receive.antt =====
-- audio/src/fetch/receive.rs: one stream of data (`receive_data`), and what the fetch does with
-- what the streams send (`handle_file_data`).
use librespot.Base.{
  ℕ, suc, ◌+◌, ◌*◌, ◌/◌, Bool, false, List, [], ◌∷◌, ◌++◌, Option, none, some, ltb, leb, ◌==◌,
  if◌then◌else◌, length, take,
}
use librespot.Base.Word.{wrapping_add, wrapping_sub}
use librespot.Base.Result.{Result, ok, err}
use librespot.Audio.RangeSet.{Range, add_range, subtract_range, contained_length_from_value}
use librespot.Audio.Fetch.{
  AudioFetchParams, AudioFileDownloadStatus, AudioFileShared, StreamingRequest, AudioFileFetch,
  File, AudioFileError,
}

pub record PartialFileData : Type 0 where
  pub offset : ℕ
  pub bytes : List ℕ

pub data ReceivedData : Type 0 where
  throughput : ℕ → ReceivedData
  response_time : ℕ → ReceivedData
  file_data : PartialFileData → ReceivedData

pub data ControlFlow : Type 0 where
  break : ControlFlow
  continue : ControlFlow

-- The variables of `receive_data` between two responses.
pub record Stream : Type 0 where
  pub request : StreamingRequest
  pub offset : ℕ
  pub actual_length : ℕ

unfoldable pub start_stream : StreamingRequest → Stream
start_stream request = record { request = request; offset = request.offset; actual_length = 0 }

-- The body of a response: what is sent, and the stream after it.
unfoldable pub send_body : Stream → List ℕ → ReceivedData × Stream
send_body s bytes = (
  file_data (record { offset = s.offset; bytes = bytes }),
  record s {
    offset = wrapping_add s.offset (length bytes);
    actual_length = wrapping_add s.actual_length (length bytes);
  },
)

unfoldable pub missing_range : Stream → Range
missing_range s = record {
  start = s.offset;
  length = wrapping_sub s.request.length s.actual_length;
}

-- After the loop: what is missing can be requested again.
unfoldable pub end_stream : AudioFileDownloadStatus → Stream → AudioFileDownloadStatus
unfolding missing_range
end_stream status s =
    let bytes_remaining = wrapping_sub s.request.length s.actual_length in
    if ltb 0 bytes_remaining
    then record status { requested = subtract_range status.requested (missing_range s) }
    else status

-- The throughput that is sent after the loop, in bytes per second; the duration is in milliseconds.
unfoldable pub measured_throughput : Stream → ℕ → Option ReceivedData
measured_throughput s duration =
    if ltb 0 s.actual_length
    then if ltb 0 duration then some (throughput (1000 * s.actual_length / duration)) else none
    else none

unfoldable pub average_throughput : AudioFetchParams → ℕ → ℕ → ℕ
average_throughput params old_throughput measured =
    let at_least =
      if ltb measured params.minimum_throughput then params.minimum_throughput else measured in
    if ltb 0 old_throughput then wrapping_add old_throughput at_least / 2 else at_least

-- `while len >= 3 { remove(0) }`.
unfoldable pub prune_times : List ℕ → List ℕ
prune_times [] = []
prune_times (t ∷ times) =
    let rest = prune_times times in if leb 3 (length (t ∷ times)) then rest else t ∷ times

-- The middle one of three times in order, by `sort_unstable`.
unfoldable pub middle : ℕ → ℕ → ℕ → ℕ
middle a b c =
    if leb a b
    then if leb b c then b else if leb a c then c else a
    else if leb a c
    then a
    else if leb b c
    then c
    else b

unfoldable pub median : List ℕ → Option ℕ
unfolding middle
median [] = none
median (a ∷ []) = some a
median (a ∷ b ∷ []) = some ((a + b) / 2)
median (a ∷ b ∷ c ∷ []) = some (middle a b c)
median (a ∷ b ∷ c ∷ d ∷ times) = none

-- `seek` and `write_all`.
unfoldable pub write_at : File → ℕ → List ℕ → File
write_at file offset [] = file
write_at file offset (b ∷ bytes) =
    write_at (λ i. if i == offset then b else file i) (suc offset) bytes

-- How `handle_file_data` can fail: with an error of its own, with one of the operating system, or by
-- the `unreachable!()`.
pub data Failure : Type 0 where
  failed : AudioFileError → Failure
  io_failed : Failure
  panicked : Failure

-- What a call meets: whether the file can be moved in, how many bytes are written before a write
-- fails, if one does, whether the file can be rewound, and whether the other end of `complete_tx`
-- still waits.
pub record Outside : Type 0 where
  pub seeks : Bool
  pub write_fails : Option ℕ
  pub rewinds : Bool
  pub receives : Bool

-- `output` and `complete_tx` are taken out before.
unfoldable pub send_complete :
    Outside → File → Bool → AudioFileFetch → AudioFileFetch × Result Failure (Unit {0})
send_complete outside file complete_tx f =
    if outside.rewinds
    then if complete_tx
      then if outside.receives
        then (record f { completed = some file }, ok tt)
        else (f, err (failed AudioFileError.channel))
      else (f, ok tt)
    else (f, err io_failed)

unfoldable pub finish : Outside → AudioFileFetch → AudioFileFetch × Result Failure (Unit {0})
unfolding send_complete
finish outside f =
    let taken = record f { output = none; complete_tx = false } in
    elim f.output [
      | none ↦ (taken, ok tt)
      | some file ↦ send_complete outside file f.complete_tx taken
    ]

-- The changes of a call stay when it fails.
abbrev pub Handled : Type 0
Handled = AudioFileFetch × Result Failure ControlFlow

unfoldable pub handle_throughput : AudioFileFetch → ℕ → AudioFileFetch
unfolding average_throughput
handle_throughput f measured = record f {
  shared = record f.shared {
    throughput = average_throughput f.params f.shared.throughput measured;
  };
}

unfoldable pub store_ping_time : AudioFileFetch → Option ℕ → Handled
store_ping_time f none = (f, err panicked)
store_ping_time f (some time) =
    (record f { shared = record f.shared { ping_time_ms = time / 1000000 } }, ok continue)

-- The response times with a new one, at most the maximum, as the last of three.
unfoldable pub push_time : AudioFileFetch → ℕ → List ℕ
unfolding prune_times
push_time f time =
    let limit = f.params.maximum_assumed_ping_time in
    prune_times f.network_response_times ++ (if ltb limit time then limit else time) ∷ []

unfoldable pub handle_response_time : AudioFileFetch → ℕ → Handled
unfolding push_time median store_ping_time
handle_response_time f time =
    let times = push_time f time in
    store_ping_time (record f { network_response_times = times }) (median times)

-- The download status with the bytes that were written.
unfoldable pub with_downloaded : AudioFileFetch → File → Range → AudioFileFetch
with_downloaded f file range =
    let status = f.shared.download_status in
    record f {
      output = some file;
      shared = record f.shared {
        download_status = record status { downloaded = add_range status.downloaded range };
      };
    }

unfoldable pub is_full : AudioFileShared → Bool
is_full shared =
    leb shared.file_size (contained_length_from_value shared.download_status.downloaded 0)

unfoldable pub break_after : AudioFileFetch × Result Failure (Unit {0}) → Handled
break_after (f, ok u) = (f, ok break)
break_after (f, err e) = (f, err e)

unfoldable pub finish_if_full : Outside → AudioFileFetch → Handled
unfolding finish is_full break_after
finish_if_full outside f =
    if is_full f.shared then break_after (finish outside f) else (f, ok continue)

unfoldable pub write_bytes : Outside → AudioFileFetch → File → PartialFileData → Option ℕ → Handled
unfolding with_downloaded write_at finish_if_full
write_bytes outside f file d (some n) =
    (record f { output = some (write_at file d.offset (take n d.bytes)) }, err io_failed)
write_bytes outside f file d none = finish_if_full outside (
    with_downloaded f (write_at file d.offset d.bytes)
      (record { start = d.offset; length = length d.bytes }))

unfoldable pub handle_bytes : Outside → AudioFileFetch → Option File → PartialFileData → Handled
unfolding write_bytes
handle_bytes outside f none d = (f, err (failed AudioFileError.output))
handle_bytes outside f (some file) d =
    if outside.seeks then write_bytes outside f file d outside.write_fails else (f, err io_failed)

unfoldable pub handle_file_data : Outside → AudioFileFetch → ReceivedData → Handled
unfolding handle_throughput handle_response_time handle_bytes
handle_file_data outside f (throughput measured) = (handle_throughput f measured, ok continue)
handle_file_data outside f (response_time time) = handle_response_time f time
handle_file_data outside f (file_data d) = handle_bytes outside f f.output d
