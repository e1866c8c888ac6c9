-- ===== src/Audio/Fetch/Examples.antt =====
-- A download of a file of eight bytes, in which the byte at each offset is the offset.
use librespot.Base.{
  ℕ, ◌+◌, ◌-◌, ◌≤◌, ◌<◌, ◌≡◌, refl, true, false, List, [], ◌∷◌, Option, none, some, length, ◌||◌,
  arith, inr, inl,
}
use librespot.Base.Word.{usize_mod, wrapping_add, wrapping_sub}
use librespot.Base.Result.{ok}
use librespot.Audio.RangeSet.{
  contains, new, minus, subtract_range_set, subtract_range, subtract_from, remove_covered,
  cut_front, add_range, add_from, absorb, merge, end, contained_length_from_value, union,
  add_range_set,
}
use librespot.Audio.RangeSet.Order.{IsValid}
use librespot.Audio.Fetch.{
  AudioFetchParams, AudioFileDownloadStatus, AudioFileShared, AudioFileFetch, StreamingRequest,
  File, download_range, wanted_length, download_length, still_missing, request_ranges, start_first,
  with_requested,
}
use librespot.Audio.Fetch.Receive.{
  Outside, write_bytes, send_complete, break_after, ReceivedData, Stream, file_data,
  handle_file_data, start_stream, send_body, handle_bytes, with_downloaded, write_at,
  finish_if_full, is_full, finish,
}
use librespot.Audio.Fetch.System.{
  Download, audio_file_fetch, slice, responded, handled, commanded, receive_body, handled_with,
  spawn, goes_on,
}
use librespot.Audio.Fetch.Reachable.{
  IsFresh, Reachable, AllStayInFile, started, stepped, Reachable-IsSafe,
}
use librespot.Audio.Fetch.Safe.{IsSafe}
use librespot.Audio.Fetch.Request.{Downloads, download_range_lem}
use librespot.Audio.Fetch.Controller.{
  StreamLoaderController, WakeUp, fetch_blocking, wait_if_streamed, wait_for, lacks, clip,
  request_again,
}
use librespot.Audio.Fetch.Blocking.{
  Among, IsThere, statuses, fetch_blocking_lem, fetch_blocking-Arrives, fetch_past_end,
}
use librespot.Audio.Fetch.Estimated.{Answers, IsEstimated}
use librespot.Audio.Fetch.Estimates.{handle_file_data_lem}
use librespot.Audio.Fetch.Reader.{AudioFileStreaming, read_available, with_position}
use librespot.Audio.Fetch.ReadBack.{read_available_lem}

abbrev params : AudioFetchParams
params = record {
  minimum_download_size = 4;
  minimum_throughput = 1;
  initial_ping_time_estimate = 500000000;
  maximum_assumed_ping_time = 1500000000;
}

abbrev shared : AudioFileShared
shared = record {
  file_size = 8;
  download_status = record { requested = []; downloaded = [] };
  download_streaming = false;
  ping_time_ms = 0;
  read_position = 0;
  throughput = 0;
}

abbrev fresh : AudioFileFetch
fresh = record {
  shared = shared;
  output = some (λ i. 0);
  complete_tx = true;
  completed = none;
  network_response_times = [];
  params = params;
}

abbrev works : Outside
works = record { seeks = true; write_fails = none; rewinds = true; receives = true }

abbrev server : File
server i = i

abbrev initial_request : StreamingRequest
initial_request = record { offset = 0; length = 4 }

abbrev cdn : ℕ → ℕ → Option ℕ
cdn offset length = none

fresh-IsFresh : IsFresh fresh
unfolding new
fresh-IsFresh = record {
  requested_empty = refl;
  downloaded_empty = refl;
  file = λ i. 0;
  output_open = refl;
  completed_none = refl;
}

-- The first four bytes arrive and are written; the others are asked for, arrive and are written.
abbrev begun : Download
begun = audio_file_fetch fresh initial_request

abbrev first_stream : Stream
first_stream = record { request = initial_request; offset = 0; actual_length = 0 }

abbrev first_body : Download
first_body = receive_body begun [] first_stream [] (slice server 0 4)

abbrev first_message : ReceivedData
first_message = file_data (record { offset = 0; bytes = slice server 0 4 })

abbrev first_written : Download
first_written = handled_with first_body [] (handle_file_data works first_body.fetch first_message)

abbrev asked : Download
asked = spawn first_written (download_range cdn first_written.fetch 4 3)

abbrev second_stream : Stream
second_stream = record {
  request = record { offset = 4; length = 4 };
  offset = 4;
  actual_length = 0;
}

asked_streams :
    asked.streams
    ≡ second_stream ∷ (record { request = initial_request; offset = 4; actual_length = 4 }) ∷ []
unfolding audio_file_fetch start_stream receive_body send_body handled_with handle_file_data
    handle_bytes with_downloaded write_at write_bytes finish_if_full is_full finish send_complete
    break_after spawn goes_on download_range download_length wanted_length still_missing
    request_ranges start_first with_requested new minus subtract_range_set subtract_range
    subtract_from remove_covered cut_front add_range add_from absorb merge end
    contained_length_from_value wrapping_add wrapping_sub
asked_streams = refl

asked-Reachable : Reachable cdn server fresh initial_request asked
unfolding audio_file_fetch start_stream receive_body send_body handled_with handle_file_data
    handle_bytes with_downloaded write_at write_bytes finish_if_full is_full finish send_complete
    break_after spawn goes_on download_range download_length wanted_length still_missing
    request_ranges start_first with_requested new minus subtract_range_set subtract_range
    subtract_from remove_covered cut_front add_range add_from absorb merge end
    contained_length_from_value wrapping_add wrapping_sub
asked-Reachable =
    stepped first_written asked
      (stepped first_body first_written
        (stepped begun first_body started (responded [] first_stream [] 4 refl refl (omega arith)))
        (handled works first_message [] refl refl))
      (commanded 4 3 refl)

asked-Stays : AllStayInFile cdn server asked-Reachable
unfolding asked-Reachable audio_file_fetch start_stream receive_body send_body handled_with
    handle_file_data handle_bytes with_downloaded write_at write_bytes finish_if_full is_full finish
    send_complete break_after contained_length_from_value add_range add_from wanted_length
    wrapping_add absorb merge end
asked-Stays = (((tt, tt), tt), record { in_file = omega arith; no_overflow = omega arith })

asked-IsSafe : IsSafe server asked
asked-IsSafe =
    Reachable-IsSafe cdn server fresh initial_request asked fresh-IsFresh refl (omega arith)
      asked-Reachable asked-Stays

Reachable-IsSafe_example : IsSafe server asked
Reachable-IsSafe_example =
    Reachable-IsSafe cdn server fresh initial_request asked fresh-IsFresh refl (omega arith)
      asked-Reachable asked-Stays

abbrev second_body : Download
second_body =
    receive_body asked [] second_stream
      ((record { request = initial_request; offset = 4; actual_length = 4 }) ∷ [])
      (slice server 4 4)

abbrev second_message : ReceivedData
second_message = file_data (record { offset = 4; bytes = slice server 4 4 })

abbrev full : Download
full = handled_with second_body [] (handle_file_data works second_body.fetch second_message)

full-Reachable : Reachable cdn server fresh initial_request full
unfolding audio_file_fetch start_stream receive_body send_body handled_with handle_file_data
    handle_bytes with_downloaded write_at write_bytes finish_if_full is_full finish send_complete
    break_after spawn goes_on download_range download_length wanted_length still_missing
    request_ranges start_first with_requested new minus subtract_range_set subtract_range
    subtract_from remove_covered cut_front add_range add_from absorb merge end
    contained_length_from_value wrapping_add wrapping_sub
full-Reachable =
    stepped second_body full
      (stepped asked second_body asked-Reachable (
        responded [] second_stream
          ((record { request = initial_request; offset = 4; actual_length = 4 }) ∷ []) 4 refl refl
          (omega arith)))
      (handled works second_message [] refl refl)

abbrev written_status : AudioFileDownloadStatus
written_status = first_written.fetch.shared.download_status

written-IsValid : IsValid written_status.downloaded
unfolding audio_file_fetch start_stream receive_body send_body handled_with handle_file_data
    handle_bytes with_downloaded write_at write_bytes finish_if_full is_full finish send_complete
    break_after spawn goes_on download_range download_length wanted_length still_missing
    request_ranges start_first with_requested new minus subtract_range_set subtract_range
    subtract_from remove_covered cut_front add_range add_from absorb merge end
    contained_length_from_value wrapping_add wrapping_sub
written-IsValid = omega arith

requested-IsValid : IsValid written_status.requested
unfolding audio_file_fetch start_stream receive_body send_body handled_with handle_file_data
    handle_bytes with_downloaded write_at write_bytes finish_if_full is_full finish send_complete
    break_after spawn goes_on download_range download_length wanted_length still_missing
    request_ranges start_first with_requested new minus subtract_range_set subtract_range
    subtract_from remove_covered cut_front add_range add_from absorb merge end
    contained_length_from_value wrapping_add wrapping_sub
requested-IsValid = omega arith

download_range_lem_example :
    let r = download_range cdn first_written.fetch 4 3 in
    Downloads first_written.fetch r.0 r.1
    × (r.2 ≡ ok tt
        → (v : ℕ) → 4 ≤ v
        → v < 4 + 3
        → v < 8
        → (contains r.0.shared.download_status.requested v || contains written_status.downloaded v)
          ≡ true)
unfolding audio_file_fetch start_stream receive_body send_body handled_with handle_file_data
    handle_bytes with_downloaded write_at write_bytes finish_if_full is_full finish send_complete
    break_after spawn goes_on download_range download_length wanted_length still_missing
    request_ranges start_first with_requested new minus subtract_range_set subtract_range
    subtract_from remove_covered cut_front add_range add_from absorb merge end
    contained_length_from_value wrapping_add wrapping_sub
download_range_lem_example =
    download_range_lem cdn first_written.fetch 4 3 requested-IsValid written-IsValid (omega arith)
      (omega arith)

abbrev controller : StreamLoaderController
controller = record {
  channel_open = true;
  stream_shared = some first_written.fetch.shared;
  file_size = 8;
}

abbrev full_status : AudioFileDownloadStatus
full_status = full.fetch.shared.download_status

full-IsValid : IsValid full_status.downloaded
unfolding audio_file_fetch start_stream receive_body send_body handled_with handle_file_data
    handle_bytes with_downloaded write_at write_bytes finish_if_full is_full finish send_complete
    break_after spawn goes_on download_range download_length wanted_length still_missing
    request_ranges start_first with_requested new minus subtract_range_set subtract_range
    subtract_from remove_covered cut_front add_range add_from absorb merge end
    contained_length_from_value wrapping_add wrapping_sub
full-IsValid = omega arith

abbrev wake_ups : List WakeUp
wake_ups =
    (record { status = written_status; timed_out = false })
    ∷ (record { status = full_status; timed_out = false })
    ∷ []

fetch_blocking_lem_example :
    (status : AudioFileDownloadStatus) × Among status (written_status ∷ statuses wake_ups)
    × ((v : ℕ) → 2 ≤ v → v < 2 + 20 → v < 8 → contains status.downloaded v ≡ true)
unfolding audio_file_fetch start_stream receive_body send_body handled_with handle_file_data
    handle_bytes with_downloaded write_at write_bytes finish_if_full is_full finish send_complete
    break_after spawn goes_on download_range download_length wanted_length still_missing
    request_ranges start_first with_requested new minus subtract_range_set subtract_range
    subtract_from remove_covered cut_front add_range add_from absorb merge end
    contained_length_from_value wrapping_add wrapping_sub fetch_blocking wait_if_streamed wait_for
    lacks clip request_again union add_range_set
fetch_blocking_lem_example =
    fetch_blocking_lem controller first_written.fetch.shared (record { start = 2; length = 20 })
      wake_ups (omega arith) refl (written-IsValid, (written-IsValid, (full-IsValid, tt))) refl

full-IsThere : IsThere 8 (record { start = 2; length = 20 }) full_status.downloaded
unfolding audio_file_fetch start_stream receive_body send_body handled_with handle_file_data
    handle_bytes with_downloaded write_at write_bytes finish_if_full is_full finish send_complete
    break_after spawn goes_on download_range download_length wanted_length still_missing
    request_ranges start_first with_requested new minus subtract_range_set subtract_range
    subtract_from remove_covered cut_front add_range add_from absorb merge end
    contained_length_from_value wrapping_add wrapping_sub contains
full-IsThere v a b c = ground arith

fetch_blocking-Arrives_example :
    (fetch_blocking controller (record { start = 2; length = 20 }) wake_ups).1 ≡ some (ok tt)
unfolding audio_file_fetch start_stream receive_body send_body handled_with handle_file_data
    handle_bytes with_downloaded write_at write_bytes finish_if_full is_full finish send_complete
    break_after spawn goes_on download_range download_length wanted_length still_missing
    request_ranges start_first with_requested new minus subtract_range_set subtract_range
    subtract_from remove_covered cut_front add_range add_from absorb merge end
    contained_length_from_value wrapping_add wrapping_sub fetch_blocking wait_if_streamed wait_for
    lacks clip request_again union add_range_set
fetch_blocking-Arrives_example =
    fetch_blocking-Arrives controller first_written.fetch.shared (record { start = 2; length = 20 })
      wake_ups (omega arith) refl (refl, inr (refl, inl (full-IsValid, full-IsThere)))

fetch_past_end_example :
    (clip 8 (record { start = 9; length = 3 }) ≡ record { start = 9; length = 0 })
    × (download_length params shared 9 0 ≡ usize_mod - (9 - 8))
unfolding audio_file_fetch start_stream receive_body send_body handled_with handle_file_data
    handle_bytes with_downloaded write_at write_bytes finish_if_full is_full finish send_complete
    break_after spawn goes_on download_range download_length wanted_length still_missing
    request_ranges start_first with_requested new minus subtract_range_set subtract_range
    subtract_from remove_covered cut_front add_range add_from absorb merge end
    contained_length_from_value wrapping_add wrapping_sub fetch_blocking wait_if_streamed wait_for
    lacks clip request_again union add_range_set
fetch_past_end_example =
    fetch_past_end params shared (record { start = 9; length = 3 }) (omega arith) (omega arith)

second-IsEstimated : IsEstimated second_body.fetch
unfolding audio_file_fetch start_stream receive_body send_body handled_with handle_file_data
    handle_bytes with_downloaded write_at write_bytes finish_if_full is_full finish send_complete
    break_after spawn goes_on download_range download_length wanted_length still_missing
    request_ranges start_first with_requested new minus subtract_range_set subtract_range
    subtract_from remove_covered cut_front add_range add_from absorb merge end
    contained_length_from_value wrapping_add wrapping_sub
second-IsEstimated = record {
  short = omega arith;
  capped = tt;
  ping = omega arith;
  rate = inl refl;
  rate_fits = omega arith;
  minimum_fits = omega arith;
}

-- The bytes complete the file, but nobody waits for it.
abbrev alone : Outside
alone = record works { receives = false }

handle_file_data_lem_example :
    IsEstimated (handle_file_data alone second_body.fetch second_message).0
    × Answers alone second_body.fetch.output second_message
        (handle_file_data alone second_body.fetch second_message).1
handle_file_data_lem_example =
    handle_file_data_lem alone second_body.fetch second_message second-IsEstimated tt

abbrev reader : AudioFileStreaming
reader = record { position = 1; shared = asked.fetch.shared }

read_available_lem_example :
    let r =
      read_available
        (λ n. n)
        (write_at (λ i. 0) 0 (slice server 0 4))
        reader
        asked.fetch.shared.download_status
        100 in
    (n : ℕ) × (0 < n)
    × (n ≤ 100)
    × (1 + n ≤ 8)
    × (r ≡ (slice server 1 n, with_position reader (1 + n)))
unfolding audio_file_fetch start_stream receive_body send_body handled_with handle_file_data
    handle_bytes with_downloaded write_at write_bytes finish_if_full is_full finish send_complete
    break_after spawn goes_on download_range download_length wanted_length still_missing
    request_ranges start_first with_requested new minus subtract_range_set subtract_range
    subtract_from remove_covered cut_front add_range add_from absorb merge end
    contained_length_from_value wrapping_add wrapping_sub contains
read_available_lem_example =
    read_available_lem server (write_at (λ i. 0) 0 (slice server 0 4)) asked reader (λ n. n) 100
      asked-IsSafe refl (omega arith) (omega arith) (omega arith) (λ n h. (h, omega arith)) refl
