-- ===== src/Core/SpotifyId/Base16.antt =====
-- core/src/spotify_id.rs: the base 16 and the raw form, with `u128::from_str_radix`, the format
-- `{:032x}` and the big-endian byte conversions of the standard library written out.
use mathlib.Core.List.{reverse}
use librespot.Base.{
  ℕ, ◌+◌, ◌-◌, ◌*◌, ◌<◌, ◌≡◌, refl, Bool, true, false, Option, none, some, List, [], ◌∷◌, ◌==◌,
  ==_iff, lt→ltb, ltb, ◌&&◌, if◌then◌else◌, length, length-reverse, length-map, All-reverse, map,
  arith,
}
use librespot.Base.Radix.{
  power, digits, read, le-read, read-reverse, value-digits, length-digits, digits-AllBelow,
  AllBelow,
}
use librespot.Base.Result.{Result, ok, err, ◌>>=◌, ok_or}
use librespot.Base.Text.{Text}
use librespot.Base.Table.{all_below, all_below_sound}
use librespot.Core.SpotifyId.{
  SpotifyId, SpotifyIdError, SpotifyIdResult, invalid_id, checked, between, u128_mod, size,
}

-- `char::to_digit(16)`.
unfoldable pub hex_value : ℕ → Option ℕ
hex_value c =
    if between b'0' b'9' c
    then some (c - b'0')
    else if between b'a' b'f' c
    then some (c - b'a' + 10)
    else if between b'A' b'F' c
    then some (c - b'A' + 10)
    else none

-- The digits of `u128::from_str_radix(src, 16)`, from the accumulator on.
unfoldable pub parse_hex : ℕ → Text → Result SpotifyIdError ℕ
unfolding hex_value
parse_hex acc [] = ok acc
parse_hex acc (c ∷ cs) = do
  d ← ok_or (hex_value c) invalid_id
  next ← ok_or (checked (acc * 16 + d)) invalid_id
  parse_hex next cs

-- An empty text is an error, and so is a sign alone; otherwise a leading `+` is passed over.
unfoldable pub from_str_radix : Text → Result SpotifyIdError ℕ
unfolding parse_hex
from_str_radix [] = err invalid_id
from_str_radix (c ∷ []) = parse_hex 0 (c ∷ [])
from_str_radix (c ∷ d ∷ cs) = if c == b'+' then parse_hex 0 (d ∷ cs) else parse_hex 0 (c ∷ d ∷ cs)

unfoldable pub from_base16 : Text → SpotifyIdResult
unfolding from_str_radix
from_base16 src =
    if length src == 32
    then (do id ← from_str_radix src; ok (record { id = id }))
    else err invalid_id

unfoldable pub hex_char : ℕ → ℕ
hex_char d = if ltb d 10 then d + b'0' else d - 10 + b'a'

unfoldable pub to_base16 : SpotifyId → Text
unfolding hex_char
to_base16 s = map hex_char (reverse (digits 16 32 s.id))

unfoldable pub to_raw : SpotifyId → List ℕ
to_raw s = reverse (digits 256 size s.id)

unfoldable pub from_raw : List ℕ → SpotifyIdResult
from_raw src = if length src == size then ok (record { id = read 256 0 src }) else err invalid_id

abbrev not_plus : ℕ → Bool
not_plus c = if c == b'+' then false else true

hex_table :
    all_below 16 (λ d. elim (hex_value (hex_char d)) [
      | none ↦ false
      | some e ↦ e == d && not_plus (hex_char d)
    ])
    ≡ true
unfolding all_below hex_value hex_char
hex_table = refl

hex_char_lem : (d : ℕ) → d < 16 → (hex_value (hex_char d) ≡ some d) × ((hex_char d == b'+') ≡ false)
hex_char_lem d h = ground (arith, all_below_sound 16 _ d hex_table h)

parse_hex_lem :
    (acc : ℕ) (ds : List ℕ)
    → AllBelow 16 ds
    → read 16 acc ds < u128_mod
    → parse_hex acc (map hex_char ds) ≡ ok (read 16 acc ds)
unfolding parse_hex read
parse_hex_lem acc [] h u = refl
parse_hex_lem acc (d ∷ ds) h u =
    let fits = le-read 16 (acc * 16 + d) ds (omega arith) in
    rw ((hex_char_lem d h.0).0, lt→ltb (acc * 16 + d) u128_mod (omega (arith, fits, u)))
      (parse_hex_lem (acc * 16 + d) ds h.1 u)

from_str_radix_lem :
    (ds : List ℕ)
    → 1 < length ds
    → AllBelow 16 ds
    → read 16 0 ds < u128_mod
    → from_str_radix (map hex_char ds) ≡ ok (read 16 0 ds)
unfolding from_str_radix
from_str_radix_lem [] l h u = absurd (omega arith)
from_str_radix_lem (d ∷ []) l h u = absurd (omega arith)
from_str_radix_lem (d ∷ e ∷ ds) l h u = rw (hex_char_lem d h.0).1 (parse_hex_lem 0 (d ∷ e ∷ ds) h u)

-- The 32 hexadecimal digits of a 128-bit identifier parse to it.
pub from_base16-to_base16 :
    (s : SpotifyId)
    → s.id < u128_mod
    → (length (to_base16 s) ≡ 32) × (from_base16 (to_base16 s) ≡ ok s)
unfolding to_base16 from_base16
from_base16-to_base16 s h = (
  long,
  rw
      (
        (==_iff (length (map hex_char ds)) 32).1 long,
        from_str_radix_lem ds (omega (arith, len)) below (omega (arith, total, h)),
        total,
      )
      refl,
)
  where
    ds : List ℕ
    ds = reverse (digits 16 32 s.id)

    len : length ds ≡ 32
    len = omega (arith, length-reverse (digits 16 32 s.id), length-digits 16 32 s.id)

    long : length (map hex_char ds) ≡ 32
    long = omega (arith, length-map hex_char ds, len)

    below : AllBelow 16 ds
    below = All-reverse (λ d. d < 16) (digits 16 32 s.id) (digits-AllBelow 16 32 s.id (omega arith))

    total : read 16 0 ds ≡ s.id
    total = omega (
      arith,
      read-reverse 16 0 (digits 16 32 s.id),
      value-digits 16 32 s.id (omega arith) (unfold power in h),
    )

-- The parser takes a leading `+` for a leading zero: 31 hexadecimal digits behind a `+` parse like
-- the same digits behind a `0`.
pub from_base16_plus : (cs : Text) → from_base16 (b'+' ∷ cs) ≡ from_base16 (b'0' ∷ cs)
unfolding from_base16 from_str_radix parse_hex
from_base16_plus [] = refl
from_base16_plus (c ∷ cs) = refl

-- The raw form of a 128-bit identifier is 16 bytes, which read back as the identifier.
from_raw-to_raw :
    (s : SpotifyId)
    → s.id < u128_mod
    → (length (to_raw s) ≡ 16) × AllBelow 256 (to_raw s) × (from_raw (to_raw s) ≡ ok s)
unfolding to_raw from_raw
from_raw-to_raw s h = (long, below, rw ((==_iff (length (to_raw s)) 16).1 long, total) refl)
  where
    ds : List ℕ
    ds = digits 256 16 s.id

    long : length (reverse ds) ≡ 16
    long = omega (arith, length-reverse ds, length-digits 256 16 s.id)

    below : AllBelow 256 (reverse ds)
    below = All-reverse (λ d. d < 256) ds (digits-AllBelow 256 16 s.id (omega arith))

    total : read 256 0 (reverse ds) ≡ s.id
    total =
        omega
          (arith, read-reverse 256 0 ds, value-digits 256 16 s.id (omega arith) (unfold power in h))
