-- ===== src/Audio/Fetch/System.antt =====
-- audio/src/fetch/receive.rs: the loop of `audio_file_fetch` and the tasks that it spawns, as
-- steps. A step is one command, one message that is handled, one response of a stream, or the end
-- of a stream, in any order. The server answers a request for a range with the bytes of the file.
use librespot.Base.{
  ℕ, zero, suc, ◌+◌, ◌≤◌, ◌<◌, ◌≡◌, Bool, true, false, List, [], ◌∷◌, ◌++◌, Option, map,
}
use librespot.Base.Word.{usize_mod, wrapping_add}
use librespot.Base.Result.{Result, ok, err}
use librespot.Audio.RangeSet.{Range, add_range}
use librespot.Audio.Fetch.{
  StreamingRequest, AudioFileFetch, File, download_range, pre_fetch_more_data, wanted_length,
}
use librespot.Audio.Fetch.Receive.{
  ReceivedData, Handled, Outside, Stream, start_stream, send_body, end_stream, handle_file_data,
  break, continue, throughput, response_time,
}

-- The fetch, the streams that are open, and the messages that they sent. `running` is whether the
-- loop goes on, `message_failed` whether a message could not be handled.
pub record Download : Type 0 where
  pub fetch : AudioFileFetch
  pub streams : List Stream
  pub received : List ReceivedData
  pub running : Bool
  pub message_failed : Bool

-- The bytes from an offset on.
abbrev pub slice : File → ℕ → ℕ → List ℕ
slice server offset zero = []
slice server offset (suc n) = server offset ∷ slice server (suc offset) n

-- The start: nothing is downloaded, and the first response is already there.
unfoldable pub audio_file_fetch : AudioFileFetch → StreamingRequest → Download
unfolding start_stream
audio_file_fetch f initial_request =
    let status = f.shared.download_status in
    let requested_range : Range = record {
      start = initial_request.offset;
      length = wrapping_add initial_request.offset initial_request.length;
    } in
    record {
      fetch = record f {
        shared = record f.shared {
          download_status = record status {
            requested = add_range status.requested requested_range;
          };
        };
      };
      streams = start_stream initial_request ∷ [];
      received = [];
      running = true;
      message_failed = false;
    }

module _ {Failure : Type 0} where
  unfoldable pub goes_on : Result Failure (Unit {0}) → Bool
  goes_on (ok u) = true
  goes_on (err e) = false

  -- After a command: the new streams run, and an error ends the loop.
  unfoldable pub spawn :
      Download → AudioFileFetch × List StreamingRequest × Result Failure (Unit {0}) → Download
  unfolding start_stream goes_on
  spawn d r = record d {
    fetch = r.0;
    streams = map start_stream r.1 ++ d.streams;
    running = goes_on r.2;
  }

-- After a message was handled.
unfoldable pub handled_with : Download → List ReceivedData → Handled → Download
handled_with d rest (f, err e) = record d {
  fetch = f;
  received = rest;
  running = false;
  message_failed = true;
}
handled_with d rest (f, ok break) = record d { fetch = f; received = rest; running = false }
handled_with d rest (f, ok continue) = record d { fetch = f; received = rest }

unfoldable pub receive_body : Download → List Stream → Stream → List Stream → List ℕ → Download
unfolding send_body
receive_body d before s after bytes = record d {
  streams = before ++ (send_body s bytes).1 ∷ after;
  received = d.received ++ (send_body s bytes).0 ∷ [];
}

unfoldable pub close_stream : Download → List Stream → Stream → List Stream → Download
unfolding end_stream
close_stream d before s after = record d {
  streams = before ++ after;
  fetch = record d.fetch {
    shared = record d.fetch.shared {
      download_status = end_stream d.fetch.shared.download_status s;
    };
  };
}

-- A measurement that a stream sends.
unfoldable pub measure : Download → ReceivedData → Download
measure d m = record d { received = d.received ++ m ∷ [] }

-- The reader moves, and sets the mode.
unfoldable pub reader_moves : Download → ℕ → Bool → Download
reader_moves d read_position download_streaming = record d {
  fetch = record d.fetch {
    shared = record d.fetch.shared {
      read_position = read_position;
      download_streaming = download_streaming;
    };
  };
}

-- A request that starts in the file, whose length does not overflow.
pub record IsFetchable (d : Download) (offset length : ℕ) : Type 0 where
  pub in_file : offset ≤ d.fetch.shared.file_size
  pub no_overflow : offset + wanted_length d.fetch.params d.fetch.shared length < usize_mod

-- The reader is in the file, and no request for bytes of the file overflows.
pub record HasRoom (d : Download) : Type 0 where
  pub reads_in_file : d.fetch.shared.read_position ≤ d.fetch.shared.file_size
  pub room :
      d.fetch.shared.file_size
        + wanted_length d.fetch.params d.fetch.shared d.fetch.shared.file_size
      < usize_mod

pub data IsMeasure : ReceivedData → Type 0 where
  a_throughput : (n : ℕ) → IsMeasure (throughput n)
  a_response_time : (n : ℕ) → IsMeasure (response_time n)

module _ {Failure : Type 0} (stream_from_cdn : ℕ → ℕ → Option Failure) (server : File) where
  pub data Step (d : Download) : Download → Type 0 where
    commanded :
        (offset length : ℕ)
        → d.running ≡ true
        → Step d (spawn d (download_range stream_from_cdn d.fetch offset length))
    prefetched :
        (bytes : ℕ)
        → d.running ≡ true
        → Step d (spawn d (pre_fetch_more_data stream_from_cdn d.fetch bytes))
    responded :
        (before : List Stream) (s : Stream) (after : List Stream) (n : ℕ)
        → d.running ≡ true
        → d.streams ≡ before ++ s ∷ after
        → s.actual_length + n ≤ s.request.length
        → Step d (receive_body d before s after (slice server s.offset n))
    ended :
        (before : List Stream) (s : Stream) (after : List Stream)
        → d.running ≡ true
        → d.streams ≡ before ++ s ∷ after
        → Step d (close_stream d before s after)
    measured : (m : ReceivedData) → d.running ≡ true → IsMeasure m → Step d (measure d m)
    moved :
        (read_position : ℕ) (mode : Bool)
        → d.running ≡ true
        → Step d (reader_moves d read_position mode)
    handled :
        (outside : Outside) (m : ReceivedData) (rest : List ReceivedData)
        → d.running ≡ true
        → d.received ≡ m ∷ rest
        → Step d (handled_with d rest (handle_file_data outside d.fetch m))

  -- What the steps must meet for the sums of offsets and lengths to stay in the file: a command that
  -- starts behind its end is turned into a request for nearly 2 ^ 64 bytes.
  abbrev pub StaysInFile : {d d' : Download} → Step d d' → Type 0
  StaysInFile {d} (commanded offset length runs) = IsFetchable d offset length
  StaysInFile {d} (prefetched bytes runs) = HasRoom d
  StaysInFile step = Unit
