-- ===== src/Audio/Fetch/Written.antt =====
-- audio/src/fetch/receive.rs: the invariant of a download after a message without bytes, after a
-- failure, and after bytes were written.
use librespot.Base.{
  zero, suc, take, ℕ, ◌+◌, ◌/◌, ◌<◌, ◌≡◌, refl, sym, ap, subst, ◌∙◌, Bool, true, false, List, ◌∷◌,
  Option, none, some, All, length, arith,
}
use librespot.Base.Word.{wrapping_add_exact}
use librespot.Audio.RangeSet.{end, contains}
use librespot.Audio.RangeSet.Order.{IsValid}
use librespot.Audio.RangeSet.Add.{add_range_lem}
use librespot.Audio.Fetch.{AudioFileFetch, File}
use librespot.Audio.Fetch.Receive.{
  ReceivedData, PartialFileData, file_data, with_downloaded, write_at, store_ping_time,
}
use librespot.Audio.Fetch.System.{Download, slice, handled_with}
use librespot.Audio.Fetch.Places.{bit, sum, in_message, IsPart, message_range, write_at-slice}
use librespot.Audio.Fetch.Safe.{IsSafe}

-- The parts of a fetch that the invariant speaks of.
pub record Agrees (f g : AudioFileFetch) : Type 0 where
  pub status : f.shared.download_status ≡ g.shared.download_status
  pub size : f.shared.file_size ≡ g.shared.file_size
  pub output : f.output ≡ g.output
  pub completed : f.completed ≡ g.completed

-- A message without bytes is taken from the queue.
pub quiet-IsSafe :
    (server : File) (d : Download) (f : AudioFileFetch) (m : ReceivedData)
    (rest : List ReceivedData) (running : Bool)
    → d.running ≡ true
    → d.received ≡ m ∷ rest
    → ((v : ℕ) → in_message v m ≡ 0)
    → Agrees f d.fetch
    → IsSafe server d
    → IsSafe server (record d { fetch = f; received = rest; running = running })
quiet-IsSafe server d f m rest running runs e z a s = record {
  requested_valid = subst (λ st. IsValid st.requested) (sym a.status) s.requested_valid;
  downloaded_valid = subst (λ st. IsValid st.downloaded) (sym a.status) s.downloaded_valid;
  placed = λ k v. omega (
    arith,
    s.placed k v,
    z v,
    ap (sum (in_message v)) e,
    ap (λ st. bit (contains st.requested v)) a.status,
    ap (λ st. bit (contains st.downloaded v)) a.status,
  );
  streams_open = s.streams_open;
  messages_part = (subst (All (IsPart server)) e s.messages_part).1;
  written = λ g v o h.
      s.written g v (sym a.output ∙ o) (ap (λ st. contains st.downloaded v) (sym a.status) ∙ h);
  has_output = λ r. let (g, there) = s.has_output runs in (g, a.output ∙ there);
  complete = λ g v o h. s.complete g v (sym a.completed ∙ o) (subst (λ n. v < n) a.size h);
}

-- A message failed, after which the output and the messages do not count as places.
pub failed-IsSafe :
    (server : File) (d : Download) (f : AudioFileFetch) (m : ReceivedData)
    (rest : List ReceivedData)
    → d.received ≡ m ∷ rest
    → f.shared.download_status ≡ d.fetch.shared.download_status
    → f.shared.file_size ≡ d.fetch.shared.file_size
    → f.completed ≡ d.fetch.completed
    → ((g : File) (v : ℕ)
        → f.output ≡ some g
        → contains d.fetch.shared.download_status.downloaded v ≡ true
        → g v ≡ server v)
    → IsSafe server d
    → IsSafe server
        (record d { fetch = f; received = rest; running = false; message_failed = true })
failed-IsSafe server d f m rest e status size completed file s = record {
  requested_valid = subst (λ st. IsValid st.requested) (sym status) s.requested_valid;
  downloaded_valid = subst (λ st. IsValid st.downloaded) (sym status) s.downloaded_valid;
  placed = λ k v. absurd cc;
  streams_open = s.streams_open;
  messages_part = (subst (All (IsPart server)) e s.messages_part).1;
  written = λ g v o h. file g v o (ap (λ st. contains st.downloaded v) (sym status) ∙ h);
  has_output = λ r. absurd cc;
  complete = λ g v o h. s.complete g v (sym completed ∙ o) (subst (λ n. v < n) size h);
}

pub handled_response :
    (server : File) (d : Download) (f : AudioFileFetch) (m : ReceivedData)
    (rest : List ReceivedData) (o : Option ℕ)
    → d.running ≡ true
    → d.received ≡ m ∷ rest
    → ((v : ℕ) → in_message v m ≡ 0)
    → Agrees f d.fetch
    → IsSafe server d
    → IsSafe server (handled_with d rest (store_ping_time f o))
unfolding store_ping_time handled_with
handled_response server d f m rest none runs e z a s =
    failed-IsSafe server d f m rest e a.status a.size a.completed
      (λ g v o h. s.written g v (sym a.output ∙ o) h) s
handled_response server d f m rest (some time) runs e z a s =
    subst
      (λ r. IsSafe server (record d {
        fetch = record f { shared = record f.shared { ping_time_ms = time / 1000000 } };
        received = rest;
        running = r;
      }))
      (sym runs)
      (quiet-IsSafe server d
        (record f { shared = record f.shared { ping_time_ms = time / 1000000 } }) m rest true runs e
        z (record { status = a.status; size = a.size; output = a.output; completed = a.completed })
        s)

-- A write that fails behind `n` bytes has written bytes of the server.
take-slice :
    (server : File) (offset n l : ℕ)
    → (m : ℕ) × (take n (slice server offset l) ≡ slice server offset m)
take-slice server offset zero l = (0, refl)
take-slice server offset (suc n) zero = (0, refl)
take-slice server offset (suc n) (suc l) =
    let rest = take-slice server (suc offset) n l in (suc rest.0, ap (◌∷◌ (server offset)) rest.1)

pub cut_short-IsSafe :
    (server file : File) (d : Download) (p : PartialFileData) (n : ℕ) (rest : List ReceivedData)
    → d.received ≡ file_data p ∷ rest
    → d.fetch.output ≡ some file
    → IsSafe server d
    → IsSafe server (record d {
      fetch = record d.fetch { output = some (write_at file p.offset (take n p.bytes)) };
      received = rest;
      running = false;
      message_failed = true;
    })
cut_short-IsSafe server file d p n rest e o s =
    let part = (subst (All (IsPart server)) e s.messages_part).0.0 in
    let cut = take-slice server p.offset n (length p.bytes) in
    let bytes : take n p.bytes ≡ slice server p.offset cut.0 = ap (take n) part ∙ cut.1 in
    failed-IsSafe server d
      (record d.fetch { output = some (write_at file p.offset (take n p.bytes)) }) (file_data p)
      rest e refl refl refl
      (λ g v same h.
        let value : g v ≡ write_at file p.offset (take n p.bytes) v =
          ap (λ o. elim o [ none ↦ file v | some k ↦ k v ]) (sym same) in
        let after =
          ap (λ b. write_at file p.offset b v) bytes
          ∙ write_at-slice server file p.offset cut.0 v in
        value ∙ (after ∙ ground (arith, s.written file v o h)))
      s

-- The bytes of a message are written.
pub written-IsSafe :
    (server file : File) (d : Download) (p : PartialFileData) (rest : List ReceivedData)
    → d.received ≡ file_data p ∷ rest
    → d.fetch.output ≡ some file
    → IsSafe server d
    → IsSafe server (record d {
      fetch = with_downloaded d.fetch (write_at file p.offset p.bytes) (message_range p);
      received = rest;
    })
unfolding with_downloaded
written-IsSafe server file d p rest e o s =
    let parts = subst (All (IsPart server)) e s.messages_part in
    let range = message_range p in
    let added =
      add_range_lem d.fetch.shared.download_status.downloaded range s.downloaded_valid parts.0.1 in
    let ends : end range ≡ p.offset + length p.bytes =
      unfold end in wrapping_add_exact p.offset (length p.bytes) parts.0.1 in
    record {
      requested_valid = s.requested_valid;
      downloaded_valid = added.0;
      placed = λ k v. ground (arith, s.placed k v, ap (sum (in_message v)) e, added.1 v);
      streams_open = s.streams_open;
      messages_part = parts.1;
      written = λ g v same h.
          let value : g v ≡ write_at file p.offset p.bytes v =
            ap (λ o. elim o [ none ↦ file v | some k ↦ k v ]) (sym same) in
          let bytes =
            ap (λ b. write_at file p.offset b v) parts.0.0
            ∙ write_at-slice server file p.offset (length p.bytes) v in
          value ∙ (bytes ∙ ground (arith, added.1 v, ends, s.written file v o));
      has_output = λ r. (write_at file p.offset p.bytes, refl);
      complete = s.complete;
    }

-- When all bytes are there the file is sent, or lost.
pub closed-IsSafe :
    (server : File) (d : Download) (completed : Option File) (failed : Bool)
    → (failed ≡ false → d.message_failed ≡ false)
    → ((g : File) (v : ℕ) → completed ≡ some g → v < d.fetch.shared.file_size → g v ≡ server v)
    → IsSafe server d
    → IsSafe server (record d {
      fetch = record d.fetch { output = none; complete_tx = false; completed = completed };
      running = false;
      message_failed = failed;
    })
closed-IsSafe server d completed failed fine whole s = record {
  requested_valid = s.requested_valid;
  downloaded_valid = s.downloaded_valid;
  placed = λ k v. s.placed (fine k) v;
  streams_open = s.streams_open;
  messages_part = s.messages_part;
  written = λ g v e h. absurd cc;
  has_output = λ r. absurd cc;
  complete = whole;
}
