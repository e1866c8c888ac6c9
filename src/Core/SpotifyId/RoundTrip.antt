-- ===== src/Core/SpotifyId/RoundTrip.antt =====
-- Base 62: what is written is read back, and what is read is written back.
use mathlib.Core.List.{reverse, reverse-reverse}
use librespot.Base.{
  ℕ, suc, ◌+◌, ◌-◌, ◌*◌, ◌<◌, ◌≡◌, refl, ap, inl, inr, Bool, true, false, List, [], ◌∷◌, ◌++◌, none,
  some, ◌&&◌, ltb, ◌==◌, ==_iff, lt→ltb, Option-cases, length, length-append, length-reverse,
  length-replicate, All-append, All-reverse, All-replicate, get_elem?, replicate, arith,
}
use librespot.Base.Radix.{
  value-append, value-zeros, value-injective, read, le-read, read-reverse, AllBelow,
}
use librespot.Base.Result.{ok}
use librespot.Base.Text.{Text}
use librespot.Base.Table.{all_below, all_below_sound}
use librespot.Core.SpotifyId.{
  SpotifyId, base62_value, base62_digits, parse_base62, from_base62, push_chars, to_base62,
  u128_mod,
}
use librespot.Core.SpotifyId.Encode.{val, Holds, add_words-words_of}

-- The two tables are inverse: of a digit's character, and of a character's digit.
abbrev reads_back : ℕ → Bool
reads_back d = elim (get_elem? base62_digits d) [
  | none ↦ false
  | some c ↦ elim (base62_value c) [ none ↦ false | some e ↦ e == d ]
]

abbrev writes_back : ℕ → Bool
writes_back c = elim (base62_value c) [
  | none ↦ true
  | some d ↦ elim (get_elem? base62_digits d) [ none ↦ false | some e ↦ ltb d 62 && e == c ]
]

char_of : ℕ → ℕ
char_of d = elim (get_elem? base62_digits d) [ none ↦ 0 | some c ↦ c ]

digit_table : all_below 62 reads_back ≡ true
unfolding all_below base62_value
digit_table = refl

char_table : all_below 123 writes_back ≡ true
unfolding all_below base62_value
char_table = refl

char_of_lem :
    (d : ℕ)
    → d < 62
    → (get_elem? base62_digits d ≡ some (char_of d)) × (base62_value (char_of d) ≡ some d)
unfolding char_of
char_of_lem d h = ground (arith, all_below_sound 62 reads_back d digit_table h)

base62_value-below : (c d : ℕ) → base62_value c ≡ some d → c < 123
unfolding base62_value
base62_value-below c d e = ground arith

base62_value_lem :
    (c d : ℕ) → base62_value c ≡ some d → (d < 62) × (get_elem? base62_digits d ≡ some c)
base62_value_lem c d e =
    ground (arith, all_below_sound 123 writes_back c char_table (base62_value-below c d e))

push_chars_lem :
    (ds : List ℕ)
    → AllBelow 62 ds
    → (cs : Text) × (push_chars ds ≡ some cs)
      × (length cs ≡ length ds)
      × ((acc : ℕ) → read 62 acc ds < u128_mod → parse_base62 acc cs ≡ ok (read 62 acc ds))
unfolding push_chars parse_base62 read
push_chars_lem [] h = ([], refl, refl, λ acc u. refl)
push_chars_lem (d ∷ ds) h =
    let (cs, e, l, p) = push_chars_lem ds h.1 in
    let (put, get) = char_of_lem d h.0 in
    (
      char_of d ∷ cs,
      rw (put, e) refl,
      ap suc l,
      λ acc u.
          let fits = le-read 62 (acc * 62 + d) ds (omega arith) in
          rw
            (
              get,
              lt→ltb (acc * 62) u128_mod (omega (arith, fits, u)),
              lt→ltb (acc * 62 + d) u128_mod (omega (arith, fits, u)),
            )
            (p (acc * 62 + d) u),
    )

-- The whole array: the digits, and zeros behind them.
abbrev padded : List ℕ → List ℕ
padded used = used ++ replicate (22 - length used) 0

padded_lem :
    (n : ℕ) (used : List ℕ)
    → Holds n used
    → (val (padded used) ≡ n) × AllBelow 62 (padded used) × (length (padded used) ≡ 22)
padded_lem n used (v, b, l) =
    let zeros : List ℕ = replicate (22 - length used) 0 in
    (
      rw (value-append 62 used zeros, value-zeros 62 (22 - length used)) (omega (arith, v)),
      All-append (λ d. d < 62) used zeros b
          (All-replicate (λ d. d < 62) (22 - length used) 0 (omega arith)),
      omega (arith, length-append used zeros, length-replicate {A = ℕ} (22 - length used) 0, l),
    )

-- Printing a 128-bit identifier gives 22 characters and never panics, and parsing them gives the
-- identifier back.
pub from_base62-to_base62 :
    (s : SpotifyId)
    → s.id < u128_mod
    → (src : Text) × (to_base62 s ≡ some src) × (length src ≡ 22) × (from_base62 src ≡ ok s)
unfolding to_base62 from_base62
from_base62-to_base62 s h =
    let (used, e, k) = add_words-words_of s.id h in
    let (v, b, l) = padded_lem s.id used k in
    let (cs, p, m, q) =
      push_chars_lem (reverse (padded used)) (All-reverse (λ d. d < 62) (padded used) b) in
    let total : read 62 0 (reverse (padded used)) ≡ s.id =
      omega (arith, read-reverse 62 0 (padded used), v) in
    let long : length cs ≡ 22 = omega (arith, m, length-reverse (padded used), l) in
    (
      cs,
      rw (e, to_base62) p,
      long,
      rw ((==_iff (length cs) 22).1 long, q 0 (omega (arith, total, h)), total) refl,
    )

parse_base62_step :
    (acc r c d : ℕ) (cs : Text)
    → base62_value c ≡ some d
    → parse_base62 acc (c ∷ cs) ≡ ok r
    → (acc * 62 + d < u128_mod) × (parse_base62 (acc * 62 + d) cs ≡ ok r)
unfolding parse_base62
parse_base62_step acc r c d cs p e = ground arith

-- What a successful parse has read: digits of the characters, whose value it returns.
parse_base62_lem :
    (acc r : ℕ) (cs : Text)
    → acc < u128_mod
    → parse_base62 acc cs ≡ ok r
    → (ds : List ℕ) × AllBelow 62 ds
      × (length ds ≡ length cs)
      × (push_chars ds ≡ some cs)
      × (read 62 acc ds ≡ r)
      × (r < u128_mod)
unfolding parse_base62 push_chars read
parse_base62_lem acc r [] u e = ([], tt, refl, refl, ground arith, ground arith)
parse_base62_lem acc r (c ∷ cs) u e = elim (Option-cases (base62_value c)) [
  | inl p ↦ absurd (ground arith)
  | inr (d, p) ↦
      let (fits, next) = parse_base62_step acc r c d cs p e in
      let (below, put) = base62_value_lem c d p in
      let (ds, b, l, q, v, w) = parse_base62_lem (acc * 62 + d) r cs fits next in
      (d ∷ ds, (below, b), ap suc l, rw (put, q) refl, v, w)
]

from_base62_parts :
    (src : Text) (s : SpotifyId)
    → from_base62 src ≡ ok s
    → (length src ≡ 22) × (parse_base62 0 src ≡ ok s.id)
unfolding from_base62
from_base62_parts src s e = ground arith

-- A text that parses is the one that its identifier prints as, so no two texts parse to the same
-- identifier.
pub to_base62-from_base62 :
    (src : Text) (s : SpotifyId)
    → from_base62 src ≡ ok s
    → (s.id < u128_mod) × (to_base62 s ≡ some src)
unfolding to_base62
to_base62-from_base62 src s h =
    let (long, p) = from_base62_parts src s h in
    let (ds, b, l, q, v, u) = parse_base62_lem 0 s.id src (omega arith) p in
    let (used, e, k) = add_words-words_of s.id u in
    let (v', b', l') = padded_lem s.id used k in
    let same : reverse ds ≡ padded used =
      value-injective 62 (reverse ds) (padded used) (omega (arith, length-reverse ds, l, long, l'))
        (All-reverse (λ d. d < 62) ds b) b'
        (omega
          (arith, read-reverse 62 0 (reverse ds), ap (read 62 0) (reverse-reverse ds), v, v')) in
    (u, rw (e, to_base62, ← same, reverse-reverse ds) q)
