-- ===== src/Core/SpotifyId.antt =====
-- core/src/spotify_id.rs: 128-bit identifiers and their base 62, base 16 and raw forms. A `&str` is
-- its list of bytes. A panic (an index out of range) is `none`.
pub mod Encode
pub mod RoundTrip
mod Examples
pub mod Base16
use mathlib.Core.List.{reverse}
use librespot.Base.{
  ℕ, zero, suc, ◌+◌, ◌-◌, ◌*◌, ◌/◌, ◌%◌, ◌^◌, Bool, List, [], ◌∷◌, ◌++◌, Option, none, some, ◌&&◌,
  ltb, leb, ◌==◌, if◌then◌else◌, length, get_elem?, replicate,
}
use librespot.Base.Result.{Result, ok, err, ◌>>=◌, ok_or}
use librespot.Base.Radix.{digits, read}
use librespot.Base.Text.{Text, codes}

pub record SpotifyId : Type 0 where
  pub id : ℕ

pub data SpotifyIdError : Type 0 where
  invalid_id invalid_format : SpotifyIdError

abbrev pub SpotifyIdResult : Type 0
SpotifyIdResult = Result SpotifyIdError SpotifyId

abbrev pub u128_mod : ℕ
u128_mod = 2 ^ 128

abbrev pub base62_digits : Text
base62_digits = codes "0123456789abcdefghijklmnopqrstuvwxyzABCDEFGHIJKLMNOPQRSTUVWXYZ"

abbrev pub size : ℕ
size = 16

abbrev pub size_base62 : ℕ
size_base62 = 22

abbrev pub between : ℕ → ℕ → ℕ → Bool
between lo hi c = leb lo c && leb c hi

-- The `match c` of `from_base62`.
unfoldable pub base62_value : ℕ → Option ℕ
base62_value c =
    if between b'0' b'9' c
    then some (c - b'0')
    else if between b'a' b'z' c
    then some (c - b'a' + 10)
    else if between b'A' b'Z' c
    then some (c - b'A' + 36)
    else none

-- `u128::checked_mul` and `u128::checked_add`.
abbrev pub checked : ℕ → Option ℕ
checked n = if ltb n u128_mod then some n else none

-- The loop of `from_base62` from the accumulator `dst` on.
unfoldable pub parse_base62 : ℕ → Text → Result SpotifyIdError ℕ
unfolding base62_value
parse_base62 dst [] = ok dst
parse_base62 dst (c ∷ cs) = do
  p ← ok_or (base62_value c) invalid_id
  scaled ← ok_or (checked (dst * 62)) invalid_id
  sum ← ok_or (checked (scaled + p)) invalid_id
  parse_base62 sum cs

unfoldable pub from_base62 : Text → SpotifyIdResult
unfolding parse_base62
from_base62 src =
    if length src == size_base62
    then (do dst ← parse_base62 0 src; ok (record { id = dst }))
    else err invalid_id

-- `for b in &mut dst[..i]`: each digit takes in the carry from the one before. `used` is
-- `dst[..i]`; the bytes of `dst` behind it stay zero.
unfoldable pub shift_in : ℕ → List ℕ → List ℕ × ℕ
shift_in carry [] = ([], carry)
shift_in carry (b ∷ used) =
    let t : ℕ = (carry + b * 2 ^ 32) % 2 ^ 64 in
    let (rest, out) = shift_in (t / 62) used in (((t % 62) % 256) ∷ rest, out)

-- `while carry > 0`: `dst[i]` is written and `i` moves on; it panics at 22. The carry is a `u64`, so
-- 64 rounds are more than enough.
unfoldable pub spill : ℕ → ℕ → List ℕ → Option (List ℕ)
spill zero carry used = none
spill (suc fuel) carry used =
    let rest = spill fuel (carry / 62) (used ++ ((carry % 62) % 256) ∷ []) in
    if carry == 0 then some used else if ltb (length used) size_base62 then rest else none

-- One round of the `for shift` loop, on the word `(n >> shift) as u32 as u64`.
unfoldable pub add_word : ℕ → List ℕ → Option (List ℕ)
unfolding shift_in spill
add_word word used = let (shifted, carry) = shift_in word used in spill 64 carry shifted

-- The `for shift` loop over the words, greatest first.
unfoldable pub add_words : List ℕ → List ℕ → Option (List ℕ)
unfolding add_word
add_words [] used = some used
add_words (word ∷ words) used = elim (add_word word used) [
  | none ↦ none
  | some used' ↦ add_words words used'
]

abbrev pub word_at : ℕ → ℕ → ℕ
word_at n shift = (n / 2 ^ shift) % 2 ^ 32

-- The last loop: the digits, greatest first, as characters.
unfoldable pub push_chars : List ℕ → Option Text
push_chars [] = some []
push_chars (b ∷ bs) = elim (get_elem? base62_digits b) [
  | none ↦ none
  | some c ↦ elim (push_chars bs) [ none ↦ none | some cs ↦ some (c ∷ cs) ]
]

unfoldable pub to_base62 : SpotifyId → Option Text
unfolding add_words push_chars
to_base62 s =
    let n : ℕ = s.id in
    elim (add_words (word_at n 96 ∷ word_at n 64 ∷ word_at n 32 ∷ word_at n 0 ∷ []) []) [
      | none ↦ none
      | some used ↦ push_chars (reverse (used ++ replicate (size_base62 - length used) 0))
    ]
