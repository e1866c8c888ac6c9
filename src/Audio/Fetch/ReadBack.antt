-- ===== src/Audio/Fetch/ReadBack.antt =====
-- What a reader gets from a download.
use librespot.Base.{
  ℕ, zero, suc, ◌+◌, ◌-◌, ◌≤◌, ◌<◌, ◌≡◌, refl, ap, ap₂, subst, true, false, ◌∷◌, some, min, ◌==◌,
  Bool-cases, inl, inr, arith,
}
use librespot.Base.Word.{usize_mod, wrapping_add_exact, wrapping_sub_exact}
use librespot.Audio.RangeSet.{RangeSet, contains, contained_length_from_value}
use librespot.Audio.RangeSet.Order.{IsValid}
use librespot.Audio.RangeSet.Length.{contained_length_from_value_lem}
use librespot.Audio.Fetch.{File}
use librespot.Audio.Fetch.System.{Download, slice}
use librespot.Audio.Fetch.Safe.{IsSafe}
use librespot.Audio.Fetch.Reader.{AudioFileStreaming, read_length, read_available, with_position}

-- Two files that agree on a slice.
slice-ext :
    (f g : File) (offset n : ℕ)
    → ((k : ℕ) → k < n → f (offset + k) ≡ g (offset + k))
    → slice f offset n ≡ slice g offset n
slice-ext f g offset zero h = refl
slice-ext f g offset (suc n) h =
    ap₂ ◌∷◌ (subst (λ i. f i ≡ g i) (omega arith) (h 0 (omega arith))) (
      slice-ext f g (suc offset) n
        (λ k below. subst (λ i. f i ≡ g i) (omega arith) (h (suc k) (omega arith))))

read_length_lem :
    (s : AudioFileStreaming) (output_len : ℕ)
    → s.position < s.shared.file_size
    → s.shared.file_size < usize_mod
    → read_length s output_len ≡ min output_len (s.shared.file_size - s.position)
unfolding read_length
read_length_lem s output_len h k = ground (arith, wrapping_sub_exact s.shared.file_size s.position)

first_available :
    (downloaded : RangeSet) (position : ℕ)
    → IsValid downloaded
    → contains downloaded position ≡ true
    → 0 < contained_length_from_value downloaded position
first_available downloaded position w there =
    let next = (contained_length_from_value_lem downloaded position w).1 in
    elim (Bool-cases (contained_length_from_value downloaded position == 0)) [
      | inl e ↦
          let here : position + contained_length_from_value downloaded position ≡ position =
            ground arith in
          absurd (ground (arith, there, ap (contains downloaded) here, next))
      | inr e ↦ ground arith
    ]

-- A read inside the file that has waited until the byte at its position is downloaded gives at
-- least one byte and no more than the output holds or the file has left; they are the server's
-- bytes from the position on, and the position moves behind them.
pub read_available_lem :
    (server file : File) (d : Download) (s : AudioFileStreaming) (read_file : ℕ → ℕ)
    (output_len : ℕ)
    → IsSafe server d
    → d.fetch.output ≡ some file
    → s.shared.file_size < usize_mod
    → s.position < s.shared.file_size
    → 0 < output_len
    → ((n : ℕ) → 0 < n → (0 < read_file n) × (read_file n ≤ n))
    → contains d.fetch.shared.download_status.downloaded s.position ≡ true
    → let r = read_available read_file file s d.fetch.shared.download_status output_len in
      (n : ℕ) × (0 < n)
      × (n ≤ output_len)
      × (s.position + n ≤ s.shared.file_size)
      × (r ≡ (slice server s.position n, with_position s (s.position + n)))
unfolding read_available
read_available_lem server file d s read_file output_len safe o fits inside some_output reads there =
    let downloaded = d.fetch.shared.download_status.downloaded in
    let available = contained_length_from_value downloaded s.position in
    let run = contained_length_from_value_lem downloaded s.position safe.downloaded_valid in
    let not_none : 0 < available =
      first_available downloaded s.position safe.downloaded_valid there in
    let long = read_length_lem s output_len inside fits in
    let n = read_file (min (read_length s output_len) available) in
    let given = reads (min (read_length s output_len) available) (omega (arith, long, not_none)) in
    let moved = wrapping_add_exact s.position n (omega (arith, given, long, fits)) in
    let not_zero : (read_length s output_len == 0) ≡ false = ground (arith, long) in
    (
      n,
      given.0,
      omega (arith, given, long),
      omega (arith, given, long),
      rw not_zero (
          ap₂ (λ bytes t. (bytes, t))
            (slice-ext file server s.position n (λ k below.
              safe.written file (s.position + k) o (run.0 k (omega (arith, given, below)))))
            (ap (with_position s) moved)),
    )
