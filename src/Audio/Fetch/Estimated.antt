-- ===== src/Audio/Fetch/Estimated.antt =====
-- audio/src/fetch/receive.rs: what the response times and the throughput of a fetch are bounded by,
-- how they are averaged, and how `handle_file_data` can fail.
use librespot.Base.{
  ap, Bool, false, Option, none, ℕ, ◌+◌, ◌*◌, ◌/◌, ◌^◌, min, max, ◌≤◌, ◌<◌, ◌≡◌, ◌⊎◌, refl, List,
  [], ◌∷◌, ◌++◌, some, All, All-append, length, length-append, ltb, leb, if◌then◌else◌, Bool-cases,
  inl, inr, arith,
}
use librespot.Base.Word.{wrapping_add_exact}
use librespot.Base.Result.{Result, ok, err}
use librespot.Audio.Fetch.{
  AudioFileFetch, AudioFetchParams, AudioFileDownloadStatus, AudioFileError, File,
}
use librespot.Audio.Fetch.Receive.{
  Outside, failed, io_failed, panicked, ReceivedData, ControlFlow, continue, Failure, throughput,
  response_time, file_data, prune_times, middle, median, push_time, average_throughput,
  handle_response_time, store_ping_time,
}

abbrev pub half_mod : ℕ
half_mod = 2 ^ 63

pub record IsEstimated (f : AudioFileFetch) : Type 0 where
  -- At most three response times, none above the maximum.
  pub short : length f.network_response_times ≤ 3
  pub capped : All (λ t. t ≤ f.params.maximum_assumed_ping_time) f.network_response_times
  pub ping : 1000000 * f.shared.ping_time_ms ≤ f.params.maximum_assumed_ping_time
  -- The throughput is unknown, or at least the minimum.
  pub rate : (f.shared.throughput ≡ 0) ⊎ (f.params.minimum_throughput ≤ f.shared.throughput)
  pub rate_fits : f.shared.throughput < half_mod
  pub minimum_fits : f.params.minimum_throughput < half_mod

-- A message whose throughput does not overflow in the average.
abbrev pub IsMild : ReceivedData → Type 0
IsMild (throughput n) = n < half_mod
IsMild (response_time n) = Unit {0}
IsMild (file_data p) = Unit {0}

length-prune_times : (ts : List ℕ) → length (prune_times ts) ≤ 2
unfolding prune_times
length-prune_times [] = omega arith
length-prune_times (t ∷ ts) = ground (arith, length-prune_times ts)

All-prune_times : (m : ℕ) (ts : List ℕ) → All (λ t. t ≤ m) ts → All (λ t. t ≤ m) (prune_times ts)
unfolding prune_times
All-prune_times m [] h = tt
All-prune_times m (t ∷ ts) h = elim (Bool-cases (leb 3 (length (t ∷ ts)))) [
  | inl e ↦ rw e (All-prune_times m ts h.1)
  | inr e ↦ rw e h
]

-- The middle one of three.
middle_lem : (a b c : ℕ) → middle a b c ≡ max (min a b) (min (max a b) c)
unfolding middle
middle_lem a b c = ground arith

-- One to three times have a median, which is not above a bound of all of them.
median_lem :
    (m : ℕ) (ts : List ℕ)
    → 0 < length ts
    → length ts ≤ 3
    → All (λ t. t ≤ m) ts
    → (t : ℕ) × (median ts ≡ some t) × (t ≤ m)
unfolding median
median_lem m [] h k w = absurd (omega arith)
median_lem m (a ∷ []) h k w = (a, refl, w.0)
median_lem m (a ∷ b ∷ []) h k w = ((a + b) / 2, refl, omega (arith, w.0, w.1.0))
median_lem m (a ∷ b ∷ c ∷ []) h k w =
    (middle a b c, refl, ground (arith, middle_lem a b c, w.0, w.1.0, w.1.1.0))
median_lem m (a ∷ b ∷ c ∷ d ∷ ts) h k w = absurd (omega arith)

pub average_throughput_lem :
    (params : AudioFetchParams) (old measured : ℕ)
    → params.minimum_throughput < half_mod
    → old < half_mod
    → measured < half_mod
    → (old ≡ 0) ⊎ (params.minimum_throughput ≤ old)
    → (params.minimum_throughput ≤ average_throughput params old measured)
      × (average_throughput params old measured < half_mod)
unfolding average_throughput
average_throughput_lem params old measured m h k w =
    ground
      (arith, wrapping_add_exact old measured, wrapping_add_exact old params.minimum_throughput)

error_of : Failure → Result Failure ControlFlow → Failure
error_of e (ok flow) = e
error_of e (err x) = x

pub err_same : {a b : Failure} → ◌≡◌ {A = Result Failure ControlFlow} (err a) (err b) → a ≡ b
unfolding error_of
err_same {a} e = ap (error_of a) e

-- Why the bytes of a message could not be handled.
abbrev pub FileCause : Outside → Option File → Failure → Type 0
FileCause outside out panicked = ⊥
FileCause outside out io_failed =
    (outside.seeks ≡ false) ⊎ ((n : ℕ) × (outside.write_fails ≡ some n)) ⊎ (outside.rewinds ≡ false)
FileCause outside out (failed e) =
    ((e ≡ AudioFileError.output) × (out ≡ none))
    ⊎ ((e ≡ AudioFileError.channel) × (outside.receives ≡ false))

-- A measurement is always handled; bytes are, or there is a reason outside.
abbrev pub Answers : Outside → Option File → ReceivedData → Result Failure ControlFlow → Type 0
Answers outside out m (ok flow) = Unit
Answers outside out (throughput n) (err e) = ⊥
Answers outside out (response_time n) (err e) = ⊥
Answers outside out (file_data p) (err e) = FileCause outside out e

pub handle_response_time-IsEstimated :
    (f : AudioFileFetch) (t : ℕ)
    → IsEstimated f
    → IsEstimated (handle_response_time f t).0 × ((handle_response_time f t).1 ≡ ok continue)
unfolding handle_response_time push_time store_ping_time
handle_response_time-IsEstimated f t w =
    let limit = f.params.maximum_assumed_ping_time in
    let last = if ltb limit t then limit else t in
    let kept = prune_times f.network_response_times in
    let short = length-prune_times f.network_response_times in
    let long = length-append kept (last ∷ []) in
    let capped =
      All-append (λ u. u ≤ limit) kept (last ∷ [])
        (All-prune_times limit f.network_response_times w.capped) (ground arith, tt) in
    let (time, found, below) =
      median_lem limit (kept ++ last ∷ []) (omega (arith, long)) (omega (arith, long, short))
        capped in
    rw found (
      record {
        short = omega (arith, long, short);
        capped = capped;
        ping = omega (arith, below);
        rate = w.rate;
        rate_fits = w.rate_fits;
        minimum_fits = w.minimum_fits;
      },
      refl,
    )

-- The parts of a fetch that no write changes.
pub same-IsEstimated :
    (f : AudioFileFetch) (out completed : Option File) (tx : Bool)
    (status : AudioFileDownloadStatus)
    → IsEstimated f
    → IsEstimated (record f {
      output = out;
      complete_tx = tx;
      completed = completed;
      shared = record f.shared { download_status = status };
    })
same-IsEstimated f out completed tx status w = record {
  short = w.short;
  capped = w.capped;
  ping = w.ping;
  rate = w.rate;
  rate_fits = w.rate_fits;
  minimum_fits = w.minimum_fits;
}
