-- ===== src/Audio/Fetch/Handled.antt =====
-- `handle_file_data` keeps the invariant of a download.
use librespot.Base.{
  ℕ, ◌<◌, ◌≡◌, refl, sym, ap, subst, ◌∙◌, Bool, true, false, List, ◌∷◌, Option, none, some,
  Bool-cases, inl, inr, arith,
}
use librespot.Base.Result.{ok, err}
use librespot.Audio.RangeSet.{contains}
use librespot.Audio.RangeSet.Length.{contained_length_from_value_lem}
use librespot.Audio.Fetch.{AudioFileFetch, File}
use librespot.Audio.Fetch.Receive.{
  Outside, Handled, send_complete, break_after, write_bytes, break, continue, ReceivedData,
  PartialFileData, throughput, response_time, file_data, handle_file_data, handle_throughput,
  handle_response_time, handle_bytes, with_downloaded, write_at, finish, finish_if_full, is_full,
  median, push_time,
}
use librespot.Audio.Fetch.System.{Download, handled_with}
use librespot.Audio.Fetch.Places.{message_range}
use librespot.Audio.Fetch.Safe.{IsSafe}
use librespot.Audio.Fetch.Written.{
  Agrees, quiet-IsSafe, failed-IsSafe, handled_response, cut_short-IsSafe, written-IsSafe,
  closed-IsSafe,
}

-- The whole file is the server's.
whole_file :
    (server file : File) (d : Download) (v : ℕ)
    → is_full d.fetch.shared ≡ true
    → d.fetch.output ≡ some file
    → IsSafe server d
    → v < d.fetch.shared.file_size
    → file v ≡ server v
unfolding is_full
whole_file server file d v full o s h =
    let downloaded = d.fetch.shared.download_status.downloaded in
    let whole = (contained_length_from_value_lem downloaded 0 s.downloaded_valid).0 v in
    s.written file v o
      (subst (λ n. contains downloaded n ≡ true) (omega arith) (whole (ground arith)))

send_complete-IsSafe :
    (server file : File) (outside : Outside) (complete_tx : Bool) (d : Download)
    → is_full d.fetch.shared ≡ true
    → d.fetch.output ≡ some file
    → IsSafe server d
    → let taken = record d.fetch { output = none; complete_tx = false } in
      IsSafe server
        (handled_with d d.received (break_after (send_complete outside file complete_tx taken)))
unfolding send_complete break_after handled_with
send_complete-IsSafe server file outside complete_tx d full o s =
    let lost = closed-IsSafe server d d.fetch.completed true (λ e. absurd cc) s.complete s in
    let kept = closed-IsSafe server d d.fetch.completed d.message_failed (λ e. e) s.complete s in
    let sent =
      closed-IsSafe server d (some file) d.message_failed (λ e. e)
        (λ g v e h.
          let value : g v ≡ file v = ap (λ o. elim o [ none ↦ file v | some k ↦ k v ]) (sym e) in
          value ∙ whole_file server file d v full o s h)
        s in
    elim (Bool-cases outside.rewinds) [
      | inr e ↦ rw e lost
      | inl e ↦ elim (Bool-cases complete_tx) [
        | inr tx ↦ rw (e, tx) kept
        | inl tx ↦ elim (Bool-cases outside.receives) [
          | inr r ↦ rw (e, tx, r) lost
          | inl r ↦ rw (e, tx, r) sent
        ]
      ]
    ]

finish_if_full-IsSafe :
    (server file : File) (outside : Outside) (d : Download)
    → d.running ≡ true
    → d.fetch.output ≡ some file
    → IsSafe server d
    → IsSafe server (handled_with d d.received (finish_if_full outside d.fetch))
unfolding finish_if_full finish handled_with
finish_if_full-IsSafe server file outside d runs o s = elim (Bool-cases (is_full d.fetch.shared)) [
  | inl full ↦
      rw (full, o) (send_complete-IsSafe server file outside d.fetch.complete_tx d full o s)
  | inr more ↦ rw more (unfold handled_with in s)
]

write_bytes-IsSafe :
    (server file : File) (outside : Outside) (d : Download) (p : PartialFileData)
    (rest : List ReceivedData) (fails : Option ℕ)
    → d.running ≡ true
    → d.received ≡ file_data p ∷ rest
    → d.fetch.output ≡ some file
    → IsSafe server d
    → IsSafe server (handled_with d rest (write_bytes outside d.fetch file p fails))
unfolding write_bytes
write_bytes-IsSafe server file outside d p rest (some n) runs e o s =
    unfold handled_with in cut_short-IsSafe server file d p n rest e o s
write_bytes-IsSafe server file outside d p rest none runs e o s =
    let f = with_downloaded d.fetch (write_at file p.offset p.bytes) (message_range p) in
    let d' : Download = record d { fetch = f; received = rest } in
    again d rest f (finish_if_full outside f) (
      finish_if_full-IsSafe server (write_at file p.offset p.bytes) outside d' runs
        (unfold with_downloaded in refl) (written-IsSafe server file d p rest e o s))
  where
    again :
        (d : Download) (rest : List ReceivedData) (f : AudioFileFetch) (r : Handled)
        → IsSafe server (handled_with (record d { fetch = f; received = rest }) rest r)
        → IsSafe server (handled_with d rest r)
    again d rest f (g, ok break) s = unfold handled_with in s
    again d rest f (g, ok continue) s = unfold handled_with in s
    again d rest f (g, err x) s = unfold handled_with in s

handle_bytes-IsSafe :
    (server : File) (outside : Outside) (d : Download) (p : PartialFileData)
    (rest : List ReceivedData)
    → d.running ≡ true
    → d.received ≡ file_data p ∷ rest
    → IsSafe server d
    → IsSafe server (handled_with d rest (handle_bytes outside d.fetch d.fetch.output p))
unfolding handle_bytes
handle_bytes-IsSafe server outside d p rest runs e s =
    let (file, there) = s.has_output runs in
    subst (λ o. IsSafe server (handled_with d rest (handle_bytes outside d.fetch o p))) (sym there)
      (elim (Bool-cases outside.seeks) [
        | inl q ↦
            rw q
              (write_bytes-IsSafe server file outside d p rest outside.write_fails runs e there s)
        | inr q ↦ rw q (
            unfold handled_with in
            failed-IsSafe server d d.fetch (file_data p) rest e refl refl refl s.written s)
      ])

pub handled-IsSafe :
    (server : File) (d : Download) (outside : Outside) (m : ReceivedData) (rest : List ReceivedData)
    → d.running ≡ true
    → d.received ≡ m ∷ rest
    → IsSafe server d
    → IsSafe server (handled_with d rest (handle_file_data outside d.fetch m))
unfolding handle_file_data handle_response_time
handled-IsSafe server d outside (throughput n) rest runs e s =
    let same : Agrees (handle_throughput d.fetch n) d.fetch =
      unfold handle_throughput in
      record { status = refl; size = refl; output = refl; completed = refl } in
    unfold handled_with in
    quiet-IsSafe server d (handle_throughput d.fetch n) (throughput n) rest d.running runs e
      (λ v. refl) same s
handled-IsSafe server d outside (response_time n) rest runs e s =
    handled_response server d (record d.fetch { network_response_times = push_time d.fetch n })
      (response_time n) rest (median (push_time d.fetch n)) runs e (λ v. refl)
      (record { status = refl; size = refl; output = refl; completed = refl }) s
handled-IsSafe server d outside (file_data p) rest runs e s =
    handle_bytes-IsSafe server outside d p rest runs e s
