-- ===== src/Audio/Fetch/Estimates.antt =====
-- audio/src/fetch/receive.rs: the estimates of the response time and of the throughput after a
-- message, and how `handle_file_data` can fail.
use librespot.Base.{
  ap, Bool, true, false, Option, none, take, ℕ, ◌<◌, ◌≡◌, ◌⊎◌, refl, sym, subst, some, length,
  if◌then◌else◌, Bool-cases, inl, inr,
}
use librespot.Base.Result.{Result, ok, err}
use librespot.Audio.Fetch.{AudioFileFetch, AudioFileError, File}
use librespot.Audio.RangeSet.{add_range}
use librespot.Audio.Fetch.Receive.{
  Outside, Handled, send_complete, break_after, write_bytes, failed, io_failed, ReceivedData,
  ControlFlow, PartialFileData, Failure, throughput, response_time, file_data, handle_throughput,
  handle_bytes, with_downloaded, finish, finish_if_full, is_full, handle_file_data, write_at,
}
use librespot.Audio.Fetch.Estimated.{
  half_mod, IsEstimated, IsMild, average_throughput_lem, err_same, FileCause, Answers,
  handle_response_time-IsEstimated, same-IsEstimated,
}

Handles : Outside → Option File → Handled → Type 0
Handles outside out r = IsEstimated r.0 × ((e : Failure) → r.1 ≡ err e → FileCause outside out e)

-- What `send_complete` can answer.
send_complete_lem :
    (outside : Outside) (file : File) (tx : Bool) (f : AudioFileFetch)
    → let r = send_complete outside file tx f in
      ((outside.rewinds ≡ false) × (r ≡ (f, err io_failed)))
      ⊎ ((outside.receives ≡ false) × (r ≡ (f, err (failed AudioFileError.channel))))
      ⊎ (r ≡ (f, ok tt))
      ⊎ (r ≡ (record f { completed = some file }, ok tt))
unfolding send_complete
send_complete_lem outside file tx f = elim (Bool-cases outside.rewinds) [
  | inr e ↦ inl (e, rw e refl)
  | inl e ↦ elim (Bool-cases tx) [
    | inr t ↦ inr (inr (inl (rw (e, t) refl)))
    | inl t ↦ elim (Bool-cases outside.receives) [
      | inr r ↦ inr (inl (r, rw (e, t, r) refl))
      | inl r ↦ inr (inr (inr (rw (e, t, r) refl)))
    ]
  ]
]

send_complete-Handles :
    (outside : Outside) (file : File) (out : Option File) (tx : Bool) (f : AudioFileFetch)
    → IsEstimated f
    → Handles outside out (break_after (send_complete outside file tx f))
unfolding Handles break_after
send_complete-Handles outside file out tx f w =
    let handles : AudioFileFetch × Result Failure (Unit {0}) → Type 0 =
      λ r. Handles outside out (break_after r) in
    elim (send_complete_lem outside file tx f) [
      | inl (e, r) ↦
          subst handles (sym r) (w, λ x q. subst (FileCause outside out) (err_same q) (inr (inr e)))
      | inr (inl (e, r)) ↦
          subst handles (sym r)
            (w, λ x q. subst (FileCause outside out) (err_same q) (inr (refl, e)))
      | inr (inr (inl r)) ↦ subst handles (sym r) (w, λ x q. absurd cc)
      | inr (inr (inr r)) ↦ subst handles (sym r) (
        same-IsEstimated f f.output (some file) f.complete_tx f.shared.download_status w,
        λ x q. absurd cc,
      )
    ]

finish_if_full-Handles :
    (outside : Outside) (out : Option File) (f : AudioFileFetch)
    → IsEstimated f
    → Handles outside out (finish_if_full outside f)
unfolding finish_if_full finish
finish_if_full-Handles outside out f w =
    let taken = record f { output = none; complete_tx = false } in
    let w' : IsEstimated taken =
      same-IsEstimated f none f.completed false f.shared.download_status w in
    elim (Bool-cases (is_full f.shared)) [
      | inr e ↦ rw e (unfold Handles in (w, λ x q. absurd cc))
      | inl e ↦ rw e (sends f.output w')
    ]
  where
    sends :
        (o : Option File)
        → IsEstimated (record f { output = none; complete_tx = false })
        → Handles outside out (
            break_after (elim o [
              | none ↦ (record f { output = none; complete_tx = false }, ok tt)
              | some file ↦
                  send_complete outside file f.complete_tx
                    (record f { output = none; complete_tx = false })
            ]))
    sends none w' = unfold Handles break_after in (w', λ x q. absurd cc)
    sends (some file) w' =
        send_complete-Handles outside file out f.complete_tx
          (record f { output = none; complete_tx = false }) w'

write_bytes-Handles :
    (outside : Outside) (f : AudioFileFetch) (file : File) (out : Option File) (p : PartialFileData)
    (fails : Option ℕ)
    → outside.write_fails ≡ fails
    → IsEstimated f
    → Handles outside out (write_bytes outside f file p fails)
unfolding write_bytes with_downloaded
write_bytes-Handles outside f file out p (some n) e w =
    unfold Handles in
    (
      same-IsEstimated f (some (write_at file p.offset (take n p.bytes))) f.completed f.complete_tx
          f.shared.download_status w,
      λ x q. subst (FileCause outside out) (err_same q) (inr (inl (n, e))),
    )
write_bytes-Handles outside f file out p none e w =
    finish_if_full-Handles outside out
      (with_downloaded f (write_at file p.offset p.bytes)
        (record { start = p.offset; length = length p.bytes }))
      (same-IsEstimated f (some (write_at file p.offset p.bytes)) f.completed f.complete_tx
        (record f.shared.download_status {
          downloaded =
              add_range f.shared.download_status.downloaded
                (record { start = p.offset; length = length p.bytes });
        })
        w)

write_seeks :
    (outside : Outside) (f : AudioFileFetch) (file : File) (p : PartialFileData)
    → outside.seeks ≡ true
    → handle_bytes outside f (some file) p ≡ write_bytes outside f file p outside.write_fails
unfolding handle_bytes
write_seeks outside f file p e =
    ap (λ b. if b then write_bytes outside f file p outside.write_fails else (f, err io_failed)) e

write_lost :
    (outside : Outside) (f : AudioFileFetch) (file : File) (p : PartialFileData)
    → outside.seeks ≡ false
    → handle_bytes outside f (some file) p ≡ (f, err io_failed)
unfolding handle_bytes
write_lost outside f file p e =
    ap (λ b. if b then write_bytes outside f file p outside.write_fails else (f, err io_failed)) e

handle_bytes-Handles :
    (outside : Outside) (f : AudioFileFetch) (out : Option File) (p : PartialFileData)
    → IsEstimated f
    → Handles outside out (handle_bytes outside f out p)
unfolding handle_bytes
handle_bytes-Handles outside f none p w =
    unfold Handles in (w, λ x q. subst (FileCause outside none) (err_same q) (inl (refl, refl)))
handle_bytes-Handles outside f (some file) p w = elim (Bool-cases outside.seeks) [
  | inl e ↦
      subst (Handles outside (some file)) (sym (write_seeks outside f file p e))
        (write_bytes-Handles outside f file (some file) p outside.write_fails refl w)
  | inr e ↦
      subst (Handles outside (some file)) (sym (write_lost outside f file p e))
        (unfold Handles in (w, λ x q. subst (FileCause outside (some file)) (err_same q) (inl e)))
]

answers :
    (outside : Outside) (out : Option File) (p : PartialFileData) (r : Result Failure ControlFlow)
    → ((e : Failure) → r ≡ err e → FileCause outside out e)
    → Answers outside out (file_data p) r
answers outside out p (ok flow) h = tt
answers outside out p (err e) h = h e refl

handle_throughput-IsEstimated :
    (f : AudioFileFetch) (n : ℕ)
    → IsEstimated f
    → n < half_mod
    → IsEstimated (handle_throughput f n)
unfolding handle_throughput
handle_throughput-IsEstimated f n w h =
    let rate =
      average_throughput_lem f.params f.shared.throughput n w.minimum_fits w.rate_fits h w.rate in
    record {
      short = w.short;
      capped = w.capped;
      ping = w.ping;
      rate = inr rate.0;
      rate_fits = rate.1;
      minimum_fits = w.minimum_fits;
    }

-- `handle_file_data` never panics and always handles a measurement; it fails on bytes only without an
-- output, when seeking, writing or rewinding the file fails, or when nobody waits for the complete
-- file. It keeps at most three response times, also when it fails; the response time that it stores
-- is never above the maximum, the throughput never below the minimum. The measured throughput and the
-- minimum are below 2 ^ 63, so that the average does not overflow.
pub handle_file_data_lem :
    (outside : Outside) (f : AudioFileFetch) (m : ReceivedData)
    → IsEstimated f
    → IsMild m
    → IsEstimated (handle_file_data outside f m).0
      × Answers outside f.output m (handle_file_data outside f m).1
unfolding handle_file_data
handle_file_data_lem outside f (throughput n) w q = (handle_throughput-IsEstimated f n w q, tt)
handle_file_data_lem outside f (response_time n) w q =
    let handled = handle_response_time-IsEstimated f n w in
    (handled.0, subst (Answers outside f.output (response_time n)) (sym handled.1) tt)
handle_file_data_lem outside f (file_data p) w q =
    let handled : Handles outside f.output (handle_bytes outside f f.output p) =
      handle_bytes-Handles outside f f.output p w in
    unfold Handles in
    (handled.0, answers outside f.output p (handle_bytes outside f f.output p).1 handled.1)
