-- ===== src/Audio/Fetch/Safe.antt =====
-- The invariant of a download: where every byte is, and what the file holds.
use librespot.Base.{
  ℕ, ◌+◌, ◌≤◌, ◌<◌, ◌≡◌, refl, sym, ap, subst, ◌∙◌, true, false, List, [], ◌∷◌, ◌++◌, some, All,
  All-append, ltb, map, Bool-cases, inl, inr, arith,
}
use librespot.Base.Word.{wrapping_sub}
use librespot.Base.Result.{Result}
use librespot.Audio.RangeSet.{contains}
use librespot.Audio.RangeSet.Order.{IsValid}
use librespot.Audio.RangeSet.Add.{covers_empty}
use librespot.Audio.RangeSet.Subtract.{subtract_range_lem}
use librespot.Audio.Fetch.{AudioFileFetch, File, StreamingRequest, with_requested}
use librespot.Audio.Fetch.Receive.{Stream, start_stream, send_body, missing_range}
use librespot.Audio.Fetch.System.{Download, slice, spawn, receive_body, close_stream}
use librespot.Audio.Fetch.Places.{
  bit, sum, sum-append, sum-middle, All-middle, from_stream, in_message, places, IsOpen, IsPart,
  send_body-places, start_stream-places, missing-IsRange,
}
use librespot.Audio.Fetch.Request.{Downloads, started_at, IsRequest}

pub record IsSafe (server : File) (d : Download) : Type 0 where
  pub requested_valid : IsValid d.fetch.shared.download_status.requested
  pub downloaded_valid : IsValid d.fetch.shared.download_status.downloaded
  -- A requested byte is in exactly one place, any other byte in none, while no message failed.
  pub placed :
      d.message_failed ≡ false
      → (v : ℕ) → places d v ≡ bit (contains d.fetch.shared.download_status.requested v)
  pub streams_open : All IsOpen d.streams
  pub messages_part : All (IsPart server) d.received
  pub written :
      (f : File) (v : ℕ)
      → d.fetch.output ≡ some f
      → contains d.fetch.shared.download_status.downloaded v ≡ true
      → f v ≡ server v
  pub has_output : d.running ≡ true → (f : File) × (d.fetch.output ≡ some f)
  pub complete :
      (f : File) (v : ℕ)
      → d.fetch.completed ≡ some f
      → v < d.fetch.shared.file_size
      → f v ≡ server v

pub started-IsOpen :
    (rs : List StreamingRequest) → All IsRequest rs → All IsOpen (map start_stream rs)
unfolding start_stream
started-IsOpen [] h = tt
started-IsOpen (r ∷ rs) h = (
  record { within = omega arith; small = omega (arith, h.0); fits = omega (arith, h.0) },
  started-IsOpen rs h.1,
)

started_places :
    (v : ℕ) (rs : List StreamingRequest)
    → All IsRequest rs
    → sum (from_stream v) (map start_stream rs) ≡ sum (started_at v) rs
started_places v [] h = refl
started_places v (r ∷ rs) h =
    omega (arith, start_stream-places v r (omega (arith, h.0)), started_places v rs h.1)

pub spawn-IsSafe :
    {Failure : Type 0} (server : File) (d : Download)
    (r : AudioFileFetch × List StreamingRequest × Result Failure (Unit {0}))
    → d.running ≡ true
    → IsSafe server d
    → Downloads d.fetch r.0 r.1
    → IsSafe server (spawn d r)
unfolding spawn with_requested
spawn-IsSafe server d r runs s new = record {
  requested_valid = new.valid;
  downloaded_valid =
      subst IsValid (sym (ap (λ f. f.shared.download_status.downloaded) new.same))
        s.downloaded_valid;
  placed = λ q v. omega (
    arith,
    s.placed q v,
    new.once v,
    started_places v r.1 new.proper,
    sum-append (from_stream v) (map start_stream r.1) d.streams,
    ap (λ f. bit (contains f.shared.download_status.downloaded v)) new.same,
  );
  streams_open =
      All-append IsOpen (map start_stream r.1) d.streams (started-IsOpen r.1 new.proper)
        s.streams_open;
  messages_part = s.messages_part;
  written = λ f v e h.
      s.written f v (sym (ap (λ g. g.output) new.same) ∙ e)
        (sym (ap (λ g. contains g.shared.download_status.downloaded v) new.same) ∙ h);
  has_output = λ e. let (f, there) = s.has_output runs in (f, ap (λ g. g.output) new.same ∙ there);
  complete = λ f v e h.
      s.complete f v (sym (ap (λ g. g.completed) new.same) ∙ e)
        (subst (λ n. v < n) (ap (λ g. g.shared.file_size) new.same) h);
}

pub receive_body-IsSafe :
    (server : File) (d : Download) (before : List Stream) (t : Stream) (after : List Stream) (n : ℕ)
    → d.streams ≡ before ++ t ∷ after
    → t.actual_length + n ≤ t.request.length
    → IsSafe server d
    → IsSafe server (receive_body d before t after (slice server t.offset n))
unfolding receive_body
receive_body-IsSafe server d before t after n e h s =
    let opens = All-middle IsOpen before t after (subst (All IsOpen) e s.streams_open) in
    let sent = send_body t (slice server t.offset n) in
    record {
      requested_valid = s.requested_valid;
      downloaded_valid = s.downloaded_valid;
      placed = λ q v. omega (
        arith,
        s.placed q v,
        ap (sum (from_stream v)) e,
        sum-middle (from_stream v) before t after,
        sum-middle (from_stream v) before sent.1 after,
        sum-append (in_message v) d.received (sent.0 ∷ []),
        (send_body-places server v t n opens.0 h).2,
      );
      streams_open = opens.1 sent.1 (send_body-places server 0 t n opens.0 h).0;
      messages_part =
          All-append (IsPart server) d.received (sent.0 ∷ []) s.messages_part
            ((send_body-places server 0 t n opens.0 h).1, tt);
      written = s.written;
      has_output = s.has_output;
      complete = s.complete;
    }

pub close_stream-IsSafe :
    (server : File) (d : Download) (before : List Stream) (t : Stream) (after : List Stream)
    → d.streams ≡ before ++ t ∷ after
    → IsSafe server d
    → IsSafe server (close_stream d before t after)
unfolding close_stream
close_stream-IsSafe server d before t after e s =
    let opens = All-middle IsOpen before t after (subst (All IsOpen) e s.streams_open) in
    let there = λ (v : ℕ). ap (sum (from_stream v)) e ∙ sum-middle (from_stream v) before t after in
    let range = missing_range t in
    let fits = missing-IsRange t opens.0 in
    let status = d.fetch.shared.download_status in
    let left = subtract_range_lem status.requested range s.requested_valid fits in
    elim (Bool-cases (ltb 0 (wrapping_sub t.request.length t.actual_length))) [
      | inl some_left ↦ rw some_left record {
        requested_valid = unfold missing_range in left.0;
        downloaded_valid = s.downloaded_valid;
        placed = λ q v.
            ground
              (arith, s.placed q v, there v, sum-append (from_stream v) before after, left.1 v);
        streams_open = opens.2;
        messages_part = s.messages_part;
        written = s.written;
        has_output = s.has_output;
        complete = s.complete;
      }
      | inr none_left ↦
          let nothing : range.length ≡ 0 = unfold missing_range in ground arith in
          rw none_left record {
            requested_valid = s.requested_valid;
            downloaded_valid = s.downloaded_valid;
            placed = λ q v. ground (
              arith,
              s.placed q v,
              there v,
              sum-append (from_stream v) before after,
              covers_empty range v fits nothing,
            );
            streams_open = opens.2;
            messages_part = s.messages_part;
            written = s.written;
            has_output = s.has_output;
            complete = s.complete;
          }
    ]
