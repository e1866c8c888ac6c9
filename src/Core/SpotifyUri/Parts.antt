-- ===== src/Core/SpotifyUri/Parts.antt =====
-- The parts of a URI: numbers and identifiers are read back, and hold no separator.
use mathlib.Core.List.{append_assoc, append-nil}
use librespot.Base.{
  ℕ, zero, suc, ◌+◌, ◌-◌, ◌*◌, ◌/◌, ◌%◌, ◌^◌, ◌≤◌, ◌<◌, ◌≡◌, ◌≢◌, refl, sym, ap, ◌∙◌, inl, inr, [],
  ◌∷◌, ◌++◌, some, ltb, ltb→lt, lt→ltb, Bool-cases, Option-cases, length, length-append, All,
  All-append, arith,
}
use librespot.Base.Radix.{power}
use librespot.Base.Result.{ok}
use librespot.Base.Text.{Text, IsFree}
use librespot.Core.SpotifyId.{SpotifyId, base62_value, parse_base62, from_base62}
use librespot.Core.SpotifyUri.{colon, decimal, format_u64, parse_digits, u64_from_str}

abbrev IsDigit : ℕ → Type 0
IsDigit c = (b'0' ≤ c) × (c ≤ b'9')

decimal-digits : (fuel n : ℕ) → All IsDigit (decimal fuel n)
unfolding decimal
decimal-digits zero n = tt
decimal-digits (suc fuel) n = elim (Bool-cases (ltb n 10)) [
  | inl e ↦ rw e (ground arith)
  | inr e ↦ rw e (
      All-append IsDigit (decimal fuel (n / 10)) ((n % 10 + b'0') ∷ [])
        (decimal-digits fuel (n / 10)) (omega arith))
]

decimal-nonempty : (fuel n : ℕ) → 0 < length (decimal (suc fuel) n)
unfolding decimal
decimal-nonempty fuel n =
    ground (arith, length-append (decimal fuel (n / 10)) ((n % 10 + b'0') ∷ []))

parse_digits_step :
    (acc c : ℕ) (rest : Text)
    → IsDigit c
    → acc * 10 + (c - b'0') < 2 ^ 64
    → parse_digits acc (c ∷ rest) ≡ parse_digits (acc * 10 + (c - b'0')) rest
unfolding parse_digits
parse_digits_step acc c rest d h = ground arith

-- One digit from an accumulator whose number the digit completes.
parse_digits_last :
    (acc d n : ℕ) (rest : Text)
    → d < 10
    → acc * 10 + d ≡ n
    → n < 2 ^ 64
    → parse_digits acc ((d + b'0') ∷ rest) ≡ parse_digits n rest
parse_digits_last acc d n rest h e u =
    parse_digits_step acc (d + b'0') rest (omega arith) (omega arith)
    ∙ ap (λ m. parse_digits m rest) (omega arith)

parse_digits-decimal :
    (fuel n : ℕ) (rest : Text)
    → n < power 10 (suc fuel)
    → n < 2 ^ 64
    → parse_digits 0 (decimal (suc fuel) n ++ rest) ≡ parse_digits n rest
unfolding decimal power
parse_digits-decimal zero n rest h u =
    rw (lt→ltb n 10 (omega arith)) (parse_digits_last 0 n n rest (omega arith) (omega arith) u)
parse_digits-decimal (suc fuel) n rest h u = elim (Bool-cases (ltb n 10)) [
  | inl e ↦ rw e (parse_digits_last 0 n n rest (ltb→lt n 10 e) (omega arith) u)
  | inr e ↦
      rw (e, append_assoc (decimal (suc fuel) (n / 10)) ((n % 10 + b'0') ∷ []) rest)
        (parse_digits-decimal fuel (n / 10) ((n % 10 + b'0') ∷ rest) (omega arith) (omega arith)
          ∙ parse_digits_last (n / 10) (n % 10) n rest (omega arith) (omega arith) u)
]

u64_from_str-digits :
    (cs : Text) → All IsDigit cs → 0 < length cs → u64_from_str cs ≡ parse_digits 0 cs
unfolding u64_from_str
u64_from_str-digits [] h l = absurd (omega arith)
u64_from_str-digits (c ∷ []) h l = refl
u64_from_str-digits (c ∷ d ∷ cs) h l = ground arith

digits-IsFree : (cs : Text) → All IsDigit cs → IsFree colon cs
digits-IsFree [] h = tt
digits-IsFree (c ∷ cs) h = (omega arith, digits-IsFree cs h.1)

-- A `u64` is printed without a colon, and read back.
pub u64_from_str-format_u64 :
    (n : ℕ) → n < 2 ^ 64 → IsFree colon (format_u64 n) × (u64_from_str (format_u64 n) ≡ some n)
unfolding format_u64
u64_from_str-format_u64 n h = (
  digits-IsFree (decimal 20 n) (decimal-digits 20 n),
  u64_from_str-digits (decimal 20 n) (decimal-digits 20 n) (decimal-nonempty 19 n)
      ∙ ap (parse_digits 0) (sym (append-nil (decimal 20 n)))
      ∙ parse_digits-decimal 19 n [] (omega (arith, wide)) h
      ∙ unfold parse_digits in refl,
)
  where
    wide : 2 ^ 64 < power 10 20
    wide = unfold power in omega arith

base62_value-colon : (c d : ℕ) → base62_value c ≡ some d → c ≢ colon
unfolding base62_value
base62_value-colon c d e = ground arith

parse_base62-IsFree : (acc r : ℕ) (cs : Text) → parse_base62 acc cs ≡ ok r → IsFree colon cs
unfolding parse_base62
parse_base62-IsFree acc r [] e = tt
parse_base62-IsFree acc r (c ∷ cs) e = elim (Option-cases (base62_value c)) [
  | inl p ↦ absurd (ground arith)
  | inr (d, p) ↦ (base62_value-colon c d p, parse_base62-IsFree (acc * 62 + d) r cs (ground arith))
]

-- A text that parses as an identifier holds no colon.
pub from_base62-IsFree : (src : Text) (s : SpotifyId) → from_base62 src ≡ ok s → IsFree colon src
unfolding from_base62
from_base62-IsFree src s e = parse_base62-IsFree 0 s.id src (ground arith)
