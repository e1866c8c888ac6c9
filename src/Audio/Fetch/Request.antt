-- ===== src/Audio/Fetch/Request.antt =====
-- What `download_range` requests: the missing bytes of its range, each once.
use librespot.Base.{
  ℕ, suc, ◌+◌, ◌-◌, ◌≤◌, ◌<◌, ◌≡◌, refl, true, false, List, [], ◌∷◌, Option, All, not, ◌&&◌, ◌||◌,
  min, Option-cases, inl, inr, arith,
}
use librespot.Base.Word.{usize_mod, wrapping_add_exact, wrapping_sub_exact}
use librespot.Base.Result.{ok}
use librespot.Audio.RangeSet.{Range, RangeSet, end, contains, new, add_range, minus}
use librespot.Audio.RangeSet.Order.{IsValid, IsSeparated, covers, contains-cons}
use librespot.Audio.RangeSet.Add.{IsRange, add_range_lem}
use librespot.Audio.RangeSet.Subtract.{contains-minus}
use librespot.Audio.RangeSet.Length.{disjoint-cons}
use librespot.Audio.Fetch.{
  AudioFetchParams, AudioFileShared, AudioFileDownloadStatus, AudioFileFetch, StreamingRequest,
  Requested, still_missing, request_ranges, start_first, download_range, download_length,
  wanted_length, with_requested,
}
use librespot.Audio.Fetch.Places.{bit, sum}

pub still_missing_lem :
    (status : AudioFileDownloadStatus) (range : Range)
    → IsValid status.requested
    → IsValid status.downloaded
    → IsRange range
    → IsValid (still_missing status range)
      × ((v : ℕ)
          → contains (still_missing status range) v ≡ (
              (covers range v && not (contains status.downloaded v))
              && not (contains status.requested v)))
unfolding still_missing new
still_missing_lem status range w u h =
    let whole = add_range_lem [] range tt h in
    let less = contains-minus (add_range [] range) status.downloaded whole.0 u in
    let rest =
      contains-minus (minus (add_range [] range) status.downloaded) status.requested less.0 w in
    (rest.0, λ v. rw (rest.1 v) (rw (less.1 v) (rw (whole.1 v) (unfold contains in ground arith))))

abbrev pub request_range : StreamingRequest → Range
request_range q = record { start = q.offset; length = q.length }

abbrev pub IsRequest : StreamingRequest → Type 0
IsRequest q = IsRange (request_range q)

-- How often a byte is in a started request.
abbrev pub started_at : ℕ → StreamingRequest → ℕ
started_at v q = bit (covers (request_range q) v)

module _ {Failure : Type 0} where
  pub record Requests (requested ranges : RangeSet) (r : Requested Failure) : Type 0 where
    pub valid : IsValid r.requested
    pub proper : All IsRequest r.started
    pub once :
        (v : ℕ)
        → bit (contains r.requested v) ≡ bit (contains requested v) + sum (started_at v) r.started
    pub nothing_else : (v : ℕ) → contains ranges v ≡ false → sum (started_at v) r.started ≡ 0
    pub all_of :
        r.result ≡ ok tt
        → (v : ℕ) → contains r.requested v ≡ (contains ranges v || contains requested v)

  pub request_ranges_lem :
      (stream_from_cdn : ℕ → ℕ → Option Failure) (lo : ℕ) (requested ranges : RangeSet)
      → IsValid requested
      → IsSeparated lo ranges
      → ((v : ℕ) → (contains requested v && contains ranges v) ≡ false)
      → Requests requested ranges (request_ranges stream_from_cdn requested ranges)
  unfolding request_ranges
  request_ranges_lem stream_from_cdn lo requested [] w u d = record {
    valid = w;
    proper = tt;
    once = λ v. omega arith;
    nothing_else = λ v h. refl;
    all_of = λ e v. unfold contains in refl;
  }
  request_ranges_lem stream_from_cdn lo requested (x ∷ xs) w u d =
      elim (Option-cases (stream_from_cdn x.start x.length)) [
        | inr (e, failed) ↦
            rw (failed, request_ranges)
              record {
                valid = w;
                proper = tt;
                once = λ v. omega arith;
                nothing_else = λ v h. refl;
                all_of = λ e v. cc;
              }
        | inl opened ↦
            let added = add_range_lem requested x w u.1.fits in
            let ih =
              request_ranges_lem stream_from_cdn (suc (end x)) (add_range requested x) xs added.0
                u.2
                (λ v.
                  ground (
                    arith,
                    added.1 v,
                    d v,
                    contains-cons lo v x xs u,
                    disjoint-cons lo v x xs u,
                  )) in
            rw (opened, request_ranges)
              record {
                valid = unfold start_first in ih.valid;
                proper = unfold start_first in (u.1.fits, ih.proper);
                once = λ v.
                    unfold start_first in
                    ground (arith, ih.once v, added.1 v, d v, contains-cons lo v x xs u);
                nothing_else = λ v h.
                    unfold start_first in
                    ground (arith, ih.nothing_else v, contains-cons lo v x xs u);
                all_of = λ e v.
                    unfold start_first in
                    ground (arith, ih.all_of e v, added.1 v, contains-cons lo v x xs u);
              }
      ]

-- The range of a download: as long as is wanted, to the end of the file at most.
pub download_length_lem :
    (f : AudioFileFetch) (offset length : ℕ)
    → offset ≤ f.shared.file_size
    → offset + wanted_length f.params f.shared length < usize_mod
    → download_length f.params f.shared offset length
      ≡ min (wanted_length f.params f.shared length) (f.shared.file_size - offset)
unfolding download_length
download_length_lem f offset length h k = ground (
  arith,
  wrapping_add_exact offset (wanted_length f.params f.shared length),
  wrapping_sub_exact f.shared.file_size offset,
)

pub length-wanted :
    (params : AudioFetchParams) (shared : AudioFileShared) (length : ℕ)
    → length ≤ wanted_length params shared length
unfolding wanted_length
length-wanted params shared length = ground arith

pub wanted_mono :
    (params : AudioFetchParams) (shared : AudioFileShared) (m n : ℕ)
    → m ≤ n
    → wanted_length params shared m ≤ wanted_length params shared n
unfolding wanted_length
wanted_mono params shared m n h = ground arith

-- The requests of `f'` are those of `f` and the started streams.
pub record Downloads (f f' : AudioFileFetch) (started : List StreamingRequest) : Type 0 where
  pub same : f' ≡ with_requested f f'.shared.download_status.requested
  pub valid : IsValid f'.shared.download_status.requested
  pub proper : All IsRequest started
  pub once :
      (v : ℕ)
      → bit (contains f'.shared.download_status.requested v)
        ≡ bit (contains f.shared.download_status.requested v) + sum (started_at v) started
  pub missing_before :
      (v : ℕ)
      → contains f.shared.download_status.downloaded v ≡ true
      → sum (started_at v) started ≡ 0

module _ {Failure : Type 0} (stream_from_cdn : ℕ → ℕ → Option Failure) where
  -- Every byte from the offset on that is asked for and is in the file is downloaded or requested
  -- after `download_range`, if every stream could be started; a started stream never asks for a
  -- byte that was downloaded or requested, and no two of them ask for the same byte.
  pub download_range_lem :
      (f : AudioFileFetch) (offset length : ℕ)
      → IsValid f.shared.download_status.requested
      → IsValid f.shared.download_status.downloaded
      → offset ≤ f.shared.file_size
      → offset + wanted_length f.params f.shared length < usize_mod
      → let r = download_range stream_from_cdn f offset length in
        Downloads f r.0 r.1
        × (r.2 ≡ ok tt
            → (v : ℕ) → offset ≤ v
            → v < offset + length
            → v < f.shared.file_size
            → (contains r.0.shared.download_status.requested v
                || contains f.shared.download_status.downloaded v)
              ≡ true)
  unfolding download_range with_requested
  download_range_lem f offset length w u h k =
      let clip = download_length f.params f.shared offset length in
      let cut = download_length_lem f offset length h k in
      let range : Range = record { start = offset; length = clip } in
      let fits : IsRange range = omega (arith, cut, k) in
      let ends : end range ≡ offset + clip = unfold end in wrapping_add_exact offset clip fits in
      let status = f.shared.download_status in
      let left = still_missing_lem status range w u fits in
      let reqs =
        request_ranges_lem stream_from_cdn 0 status.requested (still_missing status range) w left.0
          (λ v. ground (arith, left.1 v)) in
      (
        record {
          same = refl;
          valid = reqs.valid;
          proper = reqs.proper;
          once = reqs.once;
          missing_before = λ v e. reqs.nothing_else v (ground (arith, left.1 v));
        },
        λ e v a b c.
            ground
              (arith, reqs.all_of e v, left.1 v, ends, cut, length-wanted f.params f.shared length),
      )
