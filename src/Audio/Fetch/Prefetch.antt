-- ===== src/Audio/Fetch/Prefetch.antt =====
-- What `pre_fetch_more_data` requests.
use librespot.Base.{
  ℕ, ◌+◌, ◌-◌, ◌≤◌, ◌<◌, ◌≡◌, refl, true, [], ◌∷◌, Option, min, Bool-cases, inl, inr, arith,
}
use librespot.Base.Word.{usize_mod, wrapping_sub, wrapping_add_exact, wrapping_sub_exact}
use librespot.Audio.RangeSet.{
  Range, RangeSet, end, contains, new, add_range, is_empty, intersection,
}
use librespot.Audio.RangeSet.Order.{IsValid, contains-cons}
use librespot.Audio.RangeSet.Add.{IsRange, add_range_lem}
use librespot.Audio.RangeSet.Intersection.{contains-intersection}
use librespot.Audio.Fetch.{
  AudioFileFetch, still_missing, download_first, pre_fetch_more_data, wanted_length, with_requested,
}
use librespot.Audio.Fetch.Request.{Downloads, download_range_lem, still_missing_lem, wanted_mono}

-- A set of bytes of the file.
abbrev InFile : AudioFileFetch → RangeSet → Type 0
InFile f s = (v : ℕ) → contains s v ≡ true → v < f.shared.file_size

first-InFile :
    (f : AudioFileFetch) (x : Range) (xs : RangeSet)
    → IsValid (x ∷ xs)
    → InFile f (x ∷ xs)
    → x.start + x.length ≤ f.shared.file_size
first-InFile f x xs w h =
    let last = x.start + x.length - 1 in
    ground (arith, h last, contains-cons 0 last x xs w, w.1.ends, w.1.nonempty)

module _ {Failure : Type 0} (stream_from_cdn : ℕ → ℕ → Option Failure) where
  download_first_lem :
      (f : AudioFileFetch) (bytes : ℕ) (s : RangeSet)
      → IsValid f.shared.download_status.requested
      → IsValid f.shared.download_status.downloaded
      → f.shared.file_size + wanted_length f.params f.shared f.shared.file_size < usize_mod
      → IsValid s
      → InFile f s
      → let r = download_first stream_from_cdn f bytes s in Downloads f r.0 r.1
  unfolding download_first
  download_first_lem f bytes [] w u room v h = record {
    same = unfold with_requested in refl;
    valid = w;
    proper = tt;
    once = λ v. omega arith;
    missing_before = λ v e. refl;
  }
  download_first_lem f bytes (x ∷ xs) w u room v h =
      let inside = first-InFile f x xs v h in
      let length = min x.length bytes in
      let less = wanted_mono f.params f.shared length f.shared.file_size (omega (arith, inside)) in
      (download_range_lem stream_from_cdn f x.start length w u (omega (arith, inside))
        (omega (arith, inside, less, room))).0

  pub pre_fetch_more_data-Downloads :
      (f : AudioFileFetch) (bytes : ℕ)
      → IsValid f.shared.download_status.requested
      → IsValid f.shared.download_status.downloaded
      → f.shared.file_size + wanted_length f.params f.shared f.shared.file_size < usize_mod
      → f.shared.read_position ≤ f.shared.file_size
      → let r = pre_fetch_more_data stream_from_cdn f bytes in Downloads f r.0 r.1
  unfolding pre_fetch_more_data new
  pre_fetch_more_data-Downloads f bytes w u room reads =
      let size = f.shared.file_size in
      let status = f.shared.download_status in
      let all : Range = record { start = 0; length = size } in
      let all_fits : IsRange all = omega (arith, room) in
      let all_ends : end all ≡ size =
        unfold end in omega (arith, wrapping_add_exact 0 size all_fits) in
      let missing = still_missing_lem status all w u all_fits in
      let tail : Range = record {
        start = f.shared.read_position;
        length = wrapping_sub size f.shared.read_position;
      } in
      let long = wrapping_sub_exact size f.shared.read_position reads (omega (arith, room)) in
      let whole = add_range_lem [] tail tt (omega (arith, long, room)) in
      let both =
        contains-intersection (add_range [] tail) (still_missing status all) whole.0 missing.0 in
      let missing_in_file : InFile f (still_missing status all) =
        λ v h. ground (arith, missing.1 v, all_ends) in
      let both_in_file : InFile f (intersection (add_range [] tail) (still_missing status all)) =
        λ v h. ground (arith, both.1 v, missing_in_file v) in
      elim (Bool-cases (is_empty (intersection (add_range [] tail) (still_missing status all)))) [
        | inl e ↦ rw e (
            download_first_lem f bytes (still_missing status all) w u room missing.0
              missing_in_file)
        | inr e ↦ rw e (
            download_first_lem f bytes (intersection (add_range [] tail) (still_missing status all))
              w u room both.0 both_in_file)
      ]
