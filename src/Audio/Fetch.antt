-- ===== src/Audio/Fetch.antt =====
-- audio/src/fetch/mod.rs and receive.rs: the download of a file that is streamed while it is
-- played. A `Duration` is a number of nanoseconds. The request of a stream from the
-- CDN is a parameter that gives the error, if any; the output file is a function from offsets to
-- bytes, and what the operating system does with it is an argument. The estimates that use floating-point numbers are arguments.
pub mod Receive
pub mod Controller
pub mod System
pub mod Places
pub mod Request
pub mod Prefetch
pub mod Safe
pub mod Written
pub mod Handled
pub mod Reachable
pub mod Estimated
pub mod Estimates
pub mod Blocking
pub mod Reader
pub mod ReadBack
mod Examples
use librespot.Base.{
  ℕ, ◌*◌, Bool, true, false, List, [], ◌∷◌, Option, none, some, ltb, if◌then◌else◌, max, min,
}
use librespot.Base.Word.{wrapping_add, wrapping_sub}
use librespot.Base.Result.{Result, ok, err}
use librespot.Audio.RangeSet.{
  Range, RangeSet, new, is_empty, get_range, add_range, minus, intersection,
}

pub data AudioFileError : Type 0 where
  channel : AudioFileError
  header : AudioFileError
  no_data : AudioFileError
  output : AudioFileError
  status_code : ℕ → AudioFileError
  wait_timeout : AudioFileError

pub record AudioFetchParams : Type 0 where
  pub minimum_download_size : ℕ
  pub minimum_throughput : ℕ
  pub initial_ping_time_estimate : ℕ
  pub maximum_assumed_ping_time : ℕ

pub record AudioFileDownloadStatus : Type 0 where
  pub requested : RangeSet
  pub downloaded : RangeSet

pub record AudioFileShared : Type 0 where
  pub file_size : ℕ
  pub download_status : AudioFileDownloadStatus
  pub download_streaming : Bool
  pub ping_time_ms : ℕ
  pub read_position : ℕ
  pub throughput : ℕ

pub record StreamingRequest : Type 0 where
  pub offset : ℕ
  pub length : ℕ

abbrev pub File : Type 0
File = ℕ → ℕ

-- `complete_tx` is whether the sender is still there, `completed` what was sent through it.
pub record AudioFileFetch : Type 0 where
  pub shared : AudioFileShared
  pub output : Option File
  pub complete_tx : Bool
  pub completed : Option File
  pub network_response_times : List ℕ
  pub params : AudioFetchParams

unfoldable pub ping_time : AudioFetchParams → AudioFileShared → ℕ
ping_time params shared =
    if ltb 0 shared.ping_time_ms
    then 1000000 * shared.ping_time_ms
    else params.initial_ping_time_estimate

-- The length of a download before it is cut at the end of the file.
unfoldable pub wanted_length : AudioFetchParams → AudioFileShared → ℕ → ℕ
wanted_length params shared length =
    let at_least =
      if ltb length params.minimum_download_size then params.minimum_download_size else length in
    if shared.download_streaming then max at_least shared.throughput else at_least

unfoldable pub download_length : AudioFetchParams → AudioFileShared → ℕ → ℕ → ℕ
unfolding wanted_length
download_length params shared offset length =
    let wanted = wanted_length params shared length in
    if ltb shared.file_size (wrapping_add offset wanted)
    then wrapping_sub shared.file_size offset
    else wanted

-- A range less what is downloaded or requested.
unfoldable pub still_missing : AudioFileDownloadStatus → Range → RangeSet
still_missing status range = minus (minus (add_range new range) status.downloaded) status.requested

unfoldable pub with_requested : AudioFileFetch → RangeSet → AudioFileFetch
with_requested f requested = record f {
  shared = record f.shared {
    download_status = record f.shared.download_status { requested = requested };
  };
}

-- What the loop over `ranges_to_request` leaves: the streams that it started, in order.
pub record Requested (Failure : Type 0) : Type 0 where
  pub requested : RangeSet
  pub started : List StreamingRequest
  pub result : Result Failure (Unit {0})

module _ {Failure : Type 0} where
  unfoldable pub start_first : Range → Requested Failure → Requested Failure
  start_first range r = record r {
    started = (record { offset = range.start; length = range.length }) ∷ r.started;
  }

  unfoldable pub request_ranges :
      (ℕ → ℕ → Option Failure) → RangeSet → List Range → Requested Failure
  unfolding start_first
  request_ranges stream_from_cdn requested [] = record {
    requested = requested;
    started = [];
    result = ok tt;
  }
  request_ranges stream_from_cdn requested (range ∷ ranges) =
      elim (stream_from_cdn range.start range.length) [
        | some e ↦ record { requested = requested; started = []; result = err e }
        | none ↦
            start_first range (request_ranges stream_from_cdn (add_range requested range) ranges)
      ]

  unfoldable pub download_range :
      (ℕ → ℕ → Option Failure)
      → AudioFileFetch
      → ℕ
      → ℕ
      → AudioFileFetch × List StreamingRequest × Result Failure (Unit {0})
  unfolding download_length still_missing request_ranges
  download_range stream_from_cdn f offset length =
      let status = f.shared.download_status in
      let clipped = download_length f.params f.shared offset length in
      let ranges_to_request = still_missing status (record { start = offset; length = clipped }) in
      let r = request_ranges stream_from_cdn status.requested ranges_to_request in
      (with_requested f r.requested, r.started, r.result)

  -- `tail_end.get_range(0)`: the first range, cut to the number of bytes.
  unfoldable pub download_first :
      (ℕ → ℕ → Option Failure)
      → AudioFileFetch
      → ℕ
      → RangeSet
      → AudioFileFetch × List StreamingRequest × Result Failure (Unit {0})
  download_first stream_from_cdn f bytes [] = (f, [], ok tt)
  download_first stream_from_cdn f bytes (range ∷ ranges) =
      download_range stream_from_cdn f range.start (min range.length bytes)

  unfoldable pub pre_fetch_more_data :
      (ℕ → ℕ → Option Failure)
      → AudioFileFetch
      → ℕ
      → AudioFileFetch × List StreamingRequest × Result Failure (Unit {0})
  pre_fetch_more_data stream_from_cdn f bytes =
      let shared = f.shared in
      let missing_data =
        still_missing shared.download_status (record { start = 0; length = shared.file_size }) in
      let tail : Range = record {
        start = shared.read_position;
        length = wrapping_sub shared.file_size shared.read_position;
      } in
      let tail_end = intersection (add_range new tail) missing_data in
      if is_empty tail_end
      then download_first stream_from_cdn f bytes missing_data
      else download_first stream_from_cdn f bytes tail_end
