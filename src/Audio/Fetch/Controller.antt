-- ===== src/Audio/Fetch/Controller.antt =====
-- audio/src/fetch/mod.rs: `StreamLoaderController`. The shared state is what the lock shows when a
-- function takes it; the waits of `fetch_blocking` are a list of what each wake-up shows.
use librespot.Base.{
  ℕ, Bool, true, List, [], ◌∷◌, ◌++◌, Option, none, some, ltb, leb, if◌then◌else◌, ◌==◌,
}
use librespot.Base.Word.{wrapping_sub}
use librespot.Base.Result.{Result, ok, err}
use librespot.Audio.RangeSet.{Range, RangeSet, end, union, contained_length_from_value}
use librespot.Audio.Fetch.{AudioFileDownloadStatus, AudioFileShared, AudioFileError}

pub data StreamLoaderCommand : Type 0 where
  fetch_range : Range → StreamLoaderCommand
  close : StreamLoaderCommand

pub record StreamLoaderController : Type 0 where
  pub channel_open : Bool
  pub stream_shared : Option AudioFileShared
  pub file_size : ℕ

unfoldable pub is_empty : StreamLoaderController → Bool
is_empty c = c.file_size == 0

unfoldable pub range_available : StreamLoaderController → Range → Bool
range_available c range = elim c.stream_shared [
  | some shared ↦
      leb range.length (contained_length_from_value shared.download_status.downloaded range.start)
  | none ↦ leb range.length (wrapping_sub c.file_size range.start)
]

unfoldable pub range_to_end_available : StreamLoaderController → Bool
unfolding range_available
range_to_end_available c = elim c.stream_shared [
  | some shared ↦ range_available c (record {
    start = shared.read_position;
    length = wrapping_sub c.file_size shared.read_position;
  })
  | none ↦ true
]

-- A send to a closed channel is ignored.
unfoldable pub send_stream_loader_command :
    StreamLoaderController → StreamLoaderCommand → List StreamLoaderCommand
send_stream_loader_command c command = if c.channel_open then command ∷ [] else []

-- The range of `fetch_blocking`, kept in the bounds of the file.
unfoldable pub clip : ℕ → Range → Range
clip size range =
    if leb size range.start
    then record range { length = 0 }
    else if ltb size (end range)
    then record range { length = wrapping_sub size range.start }
    else range

pub record WakeUp : Type 0 where
  pub status : AudioFileDownloadStatus
  pub timed_out : Bool

-- The commands that were sent, the status that was read last, and the result, `none` while the
-- call still waits.
pub record Waited : Type 0 where
  pub commands : List StreamLoaderCommand
  pub status : AudioFileDownloadStatus
  pub result : Option (Result AudioFileError (Unit {0}))

-- Whether some of the range is missing in a set.
unfoldable pub lacks : RangeSet → Range → Bool
lacks s range = ltb (contained_length_from_value s range.start) range.length

-- The range is requested again when it is neither downloaded nor requested.
unfoldable pub request_again :
    StreamLoaderController → AudioFileDownloadStatus → Range → Waited → Waited
request_again c status range w =
    if lacks (union status.downloaded status.requested) range
    then record w { commands = send_stream_loader_command c (fetch_range range) ++ w.commands }
    else w

unfoldable pub wait_for :
    StreamLoaderController → Range → AudioFileDownloadStatus → List WakeUp → Waited
wait_for c range status [] = record {
  commands = [];
  status = status;
  result = if lacks status.downloaded range then none else some (ok tt);
}
wait_for c range status (w ∷ wake_ups) =
    let rest = wait_for c range w.status wake_ups in
    if lacks status.downloaded range
    then if w.timed_out
      then record {
        commands = [];
        status = w.status;
        result = some (err AudioFileError.wait_timeout);
      }
      else request_again c w.status range rest
    else record { commands = []; status = status; result = some (ok tt) }

-- The wait of `fetch_blocking`, for a file that is streamed.
unfoldable pub wait_if_streamed :
    StreamLoaderController
    → Range
    → List WakeUp
    → Option AudioFileShared
    → List StreamLoaderCommand × Option (Result AudioFileError (Unit {0}))
wait_if_streamed c range wake_ups none = ([], some (ok tt))
wait_if_streamed c range wake_ups (some shared) =
    let w = wait_for c range shared.download_status wake_ups in (w.commands, w.result)

unfoldable pub fetch_blocking :
    StreamLoaderController
    → Range
    → List WakeUp
    → List StreamLoaderCommand × Option (Result AudioFileError (Unit {0}))
fetch_blocking c range wake_ups =
    let clipped = clip c.file_size range in
    let waited = wait_if_streamed c clipped wake_ups c.stream_shared in
    (send_stream_loader_command c (fetch_range clipped) ++ waited.0, waited.1)

-- The first request is not clipped.
unfoldable pub fetch_next_and_wait :
    StreamLoaderController
    → ℕ
    → ℕ
    → List WakeUp
    → List StreamLoaderCommand × Option (Result AudioFileError (Unit {0}))
fetch_next_and_wait c request_length wait_length wake_ups = elim c.stream_shared [
  | none ↦ ([], some (ok tt))
  | some shared ↦
      let start = shared.read_position in
      let sent =
        send_stream_loader_command c
          (fetch_range (record { start = start; length = request_length })) in
      let waited = fetch_blocking c (record { start = start; length = wait_length }) wake_ups in
      (sent ++ waited.0, waited.1)
]
