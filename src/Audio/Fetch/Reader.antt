-- ===== src/Audio/Fetch/Reader.antt =====
-- audio/src/fetch/mod.rs: `Read` and `Seek` of `AudioFileStreaming`. The bytes of the read-ahead, a
-- product of floating-point numbers, are an argument, and so is what the operating system does:
-- how many bytes a read of the file gives, and where a seek in the file ends. `i64` is in two's
-- complement below 2 ^ 64.
use librespot.Base.{
  ℕ, Bool, true, false, not, List, [], Option, none, some, map, min, leb, ◌==◌, ◌&&◌, if◌then◌else◌,
}
use librespot.Base.Word.{wrapping_add, wrapping_sub}
use librespot.Audio.RangeSet.{RangeSet, contains, contained_length_from_value}
use librespot.Audio.Fetch.{AudioFileDownloadStatus, AudioFileShared, File, still_missing}
use librespot.Audio.Fetch.Controller.{StreamLoaderCommand, fetch_range}
use librespot.Audio.Fetch.System.{slice}

pub record AudioFileStreaming : Type 0 where
  pub position : ℕ
  pub shared : AudioFileShared

-- How many bytes a read wants: at most to the end of the file.
unfoldable pub read_length : AudioFileStreaming → ℕ → ℕ
read_length s output_len =
    if leb s.shared.file_size s.position
    then 0
    else min output_len (wrapping_sub s.shared.file_size s.position)

unfoldable pub length_to_request : AudioFileStreaming → ℕ → ℕ → ℕ
length_to_request s read_ahead length =
    if s.shared.download_streaming
    then min (wrapping_add length read_ahead) (wrapping_sub s.shared.file_size s.position)
    else length

-- The ranges that `read` asks the loader to fetch before it waits.
unfoldable pub ranges_to_request : AudioFileStreaming → ℕ → ℕ → RangeSet
ranges_to_request s read_ahead length =
    still_missing s.shared.download_status
      (record { start = s.position; length = length_to_request s read_ahead length })

unfoldable pub read_requests : AudioFileStreaming → ℕ → ℕ → List StreamLoaderCommand
read_requests s read_ahead output_len =
    let length = read_length s output_len in
    if length == 0 then [] else map fetch_range (ranges_to_request s read_ahead length)

unfoldable pub with_position : AudioFileStreaming → ℕ → AudioFileStreaming
with_position s position = record s {
  position = position;
  shared = record s.shared { read_position = position };
}

-- `read` after the wait, with the status that it saw last: the bytes that it puts into the output
-- and the reader after it. `read_file` is how many of the bytes asked for the file gives.
unfoldable pub read_available :
    (ℕ → ℕ) → File → AudioFileStreaming → AudioFileDownloadStatus → ℕ → List ℕ × AudioFileStreaming
read_available read_file file s status output_len =
    let length = read_length s output_len in
    let available_length = contained_length_from_value status.downloaded s.position in
    let read_len = read_file (min length available_length) in
    if length == 0
    then ([], s)
    else (slice file s.position read_len, with_position s (wrapping_add s.position read_len))

pub data SeekFrom : Type 0 where
  from_start : ℕ → SeekFrom
  from_end : ℕ → SeekFrom
  from_current : ℕ → SeekFrom

unfoldable pub requested_pos : AudioFileStreaming → SeekFrom → ℕ
requested_pos s (from_start pos) = pos
requested_pos s (from_end pos) = wrapping_sub (wrapping_sub s.shared.file_size pos) 1
requested_pos s (from_current pos) = wrapping_add s.position pos

unfoldable pub set_mode : AudioFileStreaming → Bool → AudioFileStreaming
set_mode s mode = record s { shared = record s.shared { download_streaming = mode } }

-- Where the file is after its `seek`; `none` is an error, after which random access mode stays.
unfoldable pub seek_file : AudioFileStreaming → Bool → Option ℕ → Option ℕ × AudioFileStreaming
seek_file s was_streaming none = (none, s)
seek_file s was_streaming (some position) =
    let moved = with_position s position in
    (some position, (if was_streaming then set_mode moved true else moved))

unfoldable pub seek :
    (SeekFrom → Option ℕ) → AudioFileStreaming → SeekFrom → Option ℕ × AudioFileStreaming
seek file_seek s pos =
    let requested = requested_pos s pos in
    let available = contains s.shared.download_status.downloaded requested in
    let was_streaming = not available && s.shared.download_streaming in
    if requested == s.position
    then (some s.position, s)
    else seek_file (if was_streaming then set_mode s false else s) was_streaming (file_seek pos)
