-- ===== src/Audio/Fetch/Places.antt =====
-- Where the bytes of a download are: downloaded, in a message, or still expected from a stream.
use librespot.Base.{
  ℕ, zero, suc, ◌+◌, ◌-◌, ◌≤◌, ◌<◌, ◌≡◌, refl, ap, Bool, true, false, List, [], ◌∷◌, ◌++◌, length,
  if◌then◌else◌, All, ◌&&◌, ltb, leb, ◌==◌, ==_iff, arith,
}
use librespot.Base.Word.{usize_mod, wrapping_add_exact, wrapping_sub_exact}
use librespot.Audio.RangeSet.{Range, end, contains}
use librespot.Audio.RangeSet.Order.{covers}
use librespot.Audio.RangeSet.Add.{IsRange}
use librespot.Audio.Fetch.{File, StreamingRequest}
use librespot.Audio.Fetch.Receive.{
  ReceivedData, PartialFileData, Stream, send_body, missing_range, start_stream, write_at,
  file_data, throughput, response_time,
}
use librespot.Audio.Fetch.System.{Download, slice}

abbrev pub bit : Bool → ℕ
bit true = 1
bit false = 0

abbrev pub sum {ℓ} : {A : Type ℓ} → (A → ℕ) → List A → ℕ
sum f [] = 0
sum f (x ∷ xs) = f x + sum f xs

pub sum-append {ℓ} :
    {A : Type ℓ} (f : A → ℕ) (xs ys : List A) → sum f (xs ++ ys) ≡ sum f xs + sum f ys
sum-append f [] ys = omega arith
sum-append f (x ∷ xs) ys = omega (arith, sum-append f xs ys)

pub sum-middle {ℓ} :
    {A : Type ℓ} (f : A → ℕ) (xs : List A) (y : A) (zs : List A)
    → sum f (xs ++ y ∷ zs) ≡ sum f xs + f y + sum f zs
sum-middle f xs y zs = omega (arith, sum-append f xs (y ∷ zs))

pub All-middle {ℓ κ} :
    {A : Type ℓ} (P : A → Type κ) (xs : List A) (y : A) (zs : List A)
    → All P (xs ++ y ∷ zs)
    → P y × ((z : A) → P z → All P (xs ++ z ∷ zs)) × All P (xs ++ zs)
All-middle P [] y zs h = (h.0, (λ z p. (p, h.1)), h.1)
All-middle P (x ∷ xs) y zs h =
    let rest = All-middle P xs y zs h.1 in (rest.0, (λ z p. (h.0, rest.1 z p)), (h.0, rest.2))

-- How often a byte is expected from a stream, and how often it is in a message.
abbrev pub from_stream : ℕ → Stream → ℕ
from_stream v s = bit (covers (missing_range s) v)

abbrev pub message_range : PartialFileData → Range
message_range p = record { start = p.offset; length = length p.bytes }

abbrev pub in_message : ℕ → ReceivedData → ℕ
in_message v (throughput n) = 0
in_message v (response_time n) = 0
in_message v (file_data p) = bit (covers (message_range p) v)

abbrev pub places : Download → ℕ → ℕ
places d v =
    bit (contains d.fetch.shared.download_status.downloaded v)
    + sum (from_stream v) d.streams
    + sum (in_message v) d.received

-- A stream has not sent more than was requested, and what is left ends before the offsets do.
pub record IsOpen (s : Stream) : Type 0 where
  pub within : s.actual_length ≤ s.request.length
  pub small : s.request.length < usize_mod
  pub fits : s.offset + (s.request.length - s.actual_length) < usize_mod

-- A message holds bytes of the file.
abbrev pub IsPart : File → ReceivedData → Type 0
IsPart server (throughput n) = Unit {0}
IsPart server (response_time n) = Unit {0}
IsPart server (file_data p) =
    (p.bytes ≡ slice server p.offset (length p.bytes)) × IsRange (message_range p)

pub length-slice : (server : File) (offset n : ℕ) → length (slice server offset n) ≡ n
length-slice server offset zero = refl
length-slice server offset (suc n) = ap suc (length-slice server (suc offset) n)

pub missing_length :
    (s : Stream) → IsOpen s → (missing_range s).length ≡ s.request.length - s.actual_length
unfolding missing_range
missing_length s w = wrapping_sub_exact s.request.length s.actual_length w.within w.small

pub missing-IsRange : (s : Stream) → IsOpen s → IsRange (missing_range s)
unfolding missing_range
missing-IsRange s w = omega (arith, missing_length s w, w.fits)

-- The body of a response moves its bytes from the stream into the message.
pub send_body-places :
    (server : File) (v : ℕ) (s : Stream) (n : ℕ)
    → IsOpen s
    → s.actual_length + n ≤ s.request.length
    → let sent = send_body s (slice server s.offset n) in
      IsOpen sent.1
      × IsPart server sent.0
      × (from_stream v s ≡ in_message v sent.0 + from_stream v sent.1)
unfolding send_body missing_range end
send_body-places server v s n w h =
    let long = length-slice server s.offset n in
    let sum_offset = wrapping_add_exact s.offset n (omega (arith, w.fits)) in
    let sum_length = wrapping_add_exact s.actual_length n (omega (arith, w.small)) in
    rw long (
      rw (sum_offset, sum_length)
        (
          record { within = omega arith; small = w.small; fits = omega (arith, w.fits) },
          (refl, omega (arith, w.fits, long)),
          ground (
            arith,
            w.within,
            w.small,
            w.fits,
            wrapping_sub_exact s.request.length s.actual_length,
            wrapping_sub_exact s.request.length (s.actual_length + n),
            wrapping_add_exact s.offset (s.request.length - s.actual_length),
            wrapping_add_exact (s.offset + n) (s.request.length - (s.actual_length + n)),
            sum_offset,
          ),
        ))

-- A new stream expects the bytes of its range.
pub start_stream-places :
    (v : ℕ) (r : StreamingRequest)
    → r.length < usize_mod
    → from_stream v (start_stream r)
      ≡ bit (covers (record { start = r.offset; length = r.length }) v)
unfolding start_stream missing_range
start_stream-places v r h =
    rw (wrapping_sub_exact r.length 0 (omega arith) h)
      (ap (λ n. bit (covers (record { start = r.offset; length = n }) v)) (omega arith))

pub write_at-slice :
    (server file : File) (offset n v : ℕ)
    → write_at file offset (slice server offset n) v
      ≡ (if leb offset v && ltb v (offset + n) then server v else file v)
unfolding write_at
write_at-slice server file offset zero v = ground arith
write_at-slice server file offset (suc n) v = ground (
  arith,
  write_at-slice server (λ i. if i == offset then server offset else file i) (suc offset) n v,
  ==_iff v offset,
)
