-- ===== src/Audio/Fetch/Reachable.antt =====
-- The downloads that the steps reach.
use librespot.Base.{
  ℕ, ◌<◌, ◌≡◌, refl, sym, ap, subst, ◌∙◌, Bool, false, [], ◌∷◌, All-append, Option, none, some,
  length, ◌||◌, arith,
}
use librespot.Base.Word.{usize_mod, wrapping_add, wrapping_add_exact}
use librespot.Audio.RangeSet.{Range, contains, add_range, new}
use librespot.Audio.RangeSet.Order.{IsValid, covers}
use librespot.Audio.RangeSet.Add.{add_range_lem}
use librespot.Audio.Fetch.{
  AudioFileFetch, File, StreamingRequest, download_range, pre_fetch_more_data,
}
use librespot.Audio.Fetch.Receive.{ReceivedData}
use librespot.Audio.Fetch.System.{
  Download, audio_file_fetch, Step, commanded, prefetched, responded, ended, measured, moved,
  handled, measure, reader_moves, IsMeasure, StaysInFile, a_throughput, a_response_time,
}
use librespot.Audio.Fetch.Places.{
  bit, sum, from_stream, sum-append, in_message, IsPart, start_stream-places,
}
use librespot.Audio.Fetch.Request.{download_range_lem}
use librespot.Audio.Fetch.Prefetch.{pre_fetch_more_data-Downloads}
use librespot.Audio.Fetch.Safe.{
  IsSafe, spawn-IsSafe, receive_body-IsSafe, close_stream-IsSafe, started-IsOpen,
}
use librespot.Audio.Fetch.Handled.{handled-IsSafe}

-- A fetch before the download: nothing is requested, and the file is open.
pub record IsFresh (f : AudioFileFetch) : Type 0 where
  pub requested_empty : f.shared.download_status.requested ≡ new
  pub downloaded_empty : f.shared.download_status.downloaded ≡ new
  pub file : File
  pub output_open : f.output ≡ some file
  pub completed_none : f.completed ≡ none

started-IsSafe :
    (server : File) (f : AudioFileFetch) (r : StreamingRequest)
    → IsFresh f
    → r.offset ≡ 0
    → r.length < usize_mod
    → IsSafe server (audio_file_fetch f r)
unfolding audio_file_fetch new
started-IsSafe server f r w z h =
    let long = wrapping_add_exact r.offset r.length (omega (arith, z, h)) in
    let range : Range = record { start = r.offset; length = wrapping_add r.offset r.length } in
    let added = add_range_lem [] range tt (omega (arith, long, z, h)) in
    let same : range ≡ record { start = r.offset; length = r.length } =
      ap (λ n. record { start = r.offset; length = n }) (omega (arith, long, z)) in
    let nothing = λ (v : ℕ). ap (λ s. contains s v) w.downloaded_empty in
    let empty : (v : ℕ) → contains [] v ≡ false = λ v. unfold contains in refl in
    let only : (v : ℕ) → (covers range v || contains [] v) ≡ covers range v =
      λ v. ground (arith, empty v) in
    record {
      requested_valid = subst (λ s. IsValid (add_range s range)) (sym w.requested_empty) added.0;
      downloaded_valid = subst IsValid (sym w.downloaded_empty) tt;
      placed = λ q v. omega (
        arith,
        ap bit (nothing v ∙ empty v),
        start_stream-places v r h,
        ap (λ q. bit (covers q v)) same,
        ap bit (ap (λ q. contains (add_range q range) v) w.requested_empty ∙ added.1 v ∙ only v),
      );
      streams_open = started-IsOpen (r ∷ []) (omega (arith, z, h), tt);
      messages_part = tt;
      written = λ g v e c. absurd (ground (arith, nothing v, empty v));
      has_output = λ e. (w.file, w.output_open);
      complete = λ g v e c. absurd (ground (arith, w.completed_none));
    }

measure-IsSafe :
    (server : File) (d : Download) (m : ReceivedData)
    → IsMeasure m
    → IsSafe server d
    → IsSafe server (measure d m)
unfolding measure
measure-IsSafe server d m q s = record {
  requested_valid = s.requested_valid;
  downloaded_valid = s.downloaded_valid;
  placed = λ k v.
      omega (arith, s.placed k v, sum-append (in_message v) d.received (m ∷ []), nowhere v m q);
  streams_open = s.streams_open;
  messages_part = All-append (IsPart server) d.received (m ∷ []) s.messages_part (part m q, tt);
  written = s.written;
  has_output = s.has_output;
  complete = s.complete;
}
  where
    nowhere : (v : ℕ) (m : ReceivedData) → IsMeasure m → in_message v m ≡ 0
    nowhere v _ (a_throughput n) = refl
    nowhere v _ (a_response_time n) = refl

    part : (m : ReceivedData) → IsMeasure m → IsPart server m
    part _ (a_throughput n) = tt
    part _ (a_response_time n) = tt

reader_moves-IsSafe :
    (server : File) (d : Download) (position : ℕ) (mode : Bool)
    → IsSafe server d
    → IsSafe server (reader_moves d position mode)
unfolding reader_moves
reader_moves-IsSafe server d position mode s = record {
  requested_valid = s.requested_valid;
  downloaded_valid = s.downloaded_valid;
  placed = s.placed;
  streams_open = s.streams_open;
  messages_part = s.messages_part;
  written = s.written;
  has_output = s.has_output;
  complete = s.complete;
}

module _ {Failure : Type 0} (stream_from_cdn : ℕ → ℕ → Option Failure) (server : File) where
  step-IsSafe :
      (d d' : Download) (step : Step stream_from_cdn server d d')
      → StaysInFile stream_from_cdn server step
      → IsSafe server d
      → IsSafe server d'
  step-IsSafe d _ (commanded offset length runs) q s =
      spawn-IsSafe server d (download_range stream_from_cdn d.fetch offset length) runs s
        (download_range_lem stream_from_cdn d.fetch offset length s.requested_valid
          s.downloaded_valid q.in_file q.no_overflow).0
  step-IsSafe d _ (prefetched bytes runs) q s =
      spawn-IsSafe server d (pre_fetch_more_data stream_from_cdn d.fetch bytes) runs s (
        pre_fetch_more_data-Downloads stream_from_cdn d.fetch bytes s.requested_valid
          s.downloaded_valid q.room q.reads_in_file)
  step-IsSafe d _ (responded before t after n runs e h) stays s =
      receive_body-IsSafe server d before t after n e h s
  step-IsSafe d _ (ended before t after runs e) stays s =
      close_stream-IsSafe server d before t after e s
  step-IsSafe d _ (measured m runs q) stays s = measure-IsSafe server d m q s
  step-IsSafe d _ (moved position mode runs) stays s = reader_moves-IsSafe server d position mode s
  step-IsSafe d _ (handled outside m rest runs e) stays s =
      handled-IsSafe server d outside m rest runs e s

  pub data Reachable (f : AudioFileFetch) (r : StreamingRequest) : Download → Type 0 where
    started : Reachable f r (audio_file_fetch f r)
    stepped :
        (d d' : Download) → Reachable f r d → Step stream_from_cdn server d d' → Reachable f r d'

  -- Each command of a sequence starts in the file and its length does not overflow, and the reader
  -- is in the file when data is prefetched.
  abbrev pub AllStayInFile :
      {f : AudioFileFetch} {r : StreamingRequest} {d : Download} → Reachable f r d → Type 0
  AllStayInFile started = Unit
  AllStayInFile (stepped d d' run step) =
      AllStayInFile run × StaysInFile stream_from_cdn server step

  -- After a fresh start, whatever the order in which commands, responses, ends of streams and
  -- messages come, if all commands start in the file and no request overflows: as long as no
  -- message failed, each requested byte is in exactly one place: downloaded, in a message, or
  -- expected from one stream; any other byte is in none. Each downloaded byte of the output file is
  -- the server's, also behind a write that fails, and so is each byte of a file that is handed over
  -- as complete.
  pub Reachable-IsSafe :
      (f : AudioFileFetch) (r : StreamingRequest) (d : Download)
      → IsFresh f
      → r.offset ≡ 0
      → r.length < usize_mod
      → (run : Reachable f r d) → AllStayInFile run
      → IsSafe server d
  Reachable-IsSafe f r _ w z h started stay = started-IsSafe server f r w z h
  Reachable-IsSafe f r _ w z h (stepped d d' q s) (stay, last) =
      step-IsSafe d d' s last (Reachable-IsSafe f r d w z h q stay)

  -- When no stream is open, no message is left and none failed, exactly the downloaded bytes count
  -- as requested: what a failed stream did not send can be requested again.
  pub nothing_lost :
      (f : AudioFileFetch) (r : StreamingRequest) (d : Download) (v : ℕ)
      → IsFresh f
      → r.offset ≡ 0
      → r.length < usize_mod
      → (run : Reachable f r d) → AllStayInFile run
      → d.message_failed ≡ false
      → d.streams ≡ []
      → d.received ≡ []
      → contains d.fetch.shared.download_status.requested v
        ≡ contains d.fetch.shared.download_status.downloaded v
  nothing_lost f r d v w z h q stay k e m = ground (
    arith,
    (Reachable-IsSafe f r d w z h q stay).placed k v,
    ap (sum (from_stream v)) e,
    ap (sum (in_message v)) m,
  )
