-- ===== src/Core/SpotifyId/Encode.antt =====
-- `to_base62` never runs out of its array, and its digits are the base 62 digits of the number.
use native.Mathlib.Nat.{mul-le-mul_left}
use librespot.Base.{
  ℕ, zero, suc, ◌+◌, ◌*◌, ◌/◌, ◌%◌, ◌^◌, ◌≤◌, ◌<◌, ◌≡◌, refl, ap, inl, inr, false, List, [], ◌∷◌,
  ◌++◌, some, ◌==◌, ==_iff, lt→ltb, subst, Bool-cases, length, length-append, All-append, All,
  arith,
}
use librespot.Base.Radix.{read, le-read, power, value, value-append, le-power, AllBelow}
use librespot.Core.SpotifyId.{shift_in, spill, add_word, add_words, word_at, u128_mod}

abbrev pub val : List ℕ → ℕ
val ds = value 62 ds

shift_in_lem :
    (carry : ℕ) (used : List ℕ)
    → carry < 2 ^ 32
    → AllBelow 62 used
    → (length (shift_in carry used).0 ≡ length used)
      × AllBelow 62 (shift_in carry used).0
      × ((shift_in carry used).1 < 2 ^ 32)
      × (val (shift_in carry used).0 + power 62 (length used) * (shift_in carry used).1
          ≡ 2 ^ 32 * val used + carry)
unfolding shift_in value power
shift_in_lem carry [] h k = (refl, tt, h, omega arith)
shift_in_lem carry (b ∷ used) h k =
    let t : ℕ = (carry + b * 2 ^ 32) % 2 ^ 64 in
    let ih = shift_in_lem (t / 62) used (omega arith) k.1 in
    (ap suc ih.0, (omega arith, ih.1), ih.2, omega (arith, ap (λ (x : ℕ). 62 * x) ih.3))

-- 22 digits in base 62 hold every 128-bit number.
digits_fit : (used : List ℕ) → power 62 (length used) < u128_mod → length used < 22
digits_fit used h =
    let up : ¬ (22 ≤ length used) =
      λ l. omega (arith, le-power 62 22 (length used) (omega arith) l, h, full) in
    omega (arith, up)
  where
    full : u128_mod < power 62 22
    full = unfold power in omega arith

-- What the array holds at the end of a round.
abbrev pub Holds : ℕ → List ℕ → Type 0
Holds n used = (val used ≡ n) × AllBelow 62 used × (length used ≤ 22)

-- A digit written behind the others moves the carry's low digit into the number.
push_digit :
    (carry n : ℕ) (used : List ℕ)
    → val used + power 62 (length used) * carry ≡ n
    → val (used ++ ((carry % 62) % 256) ∷ [])
        + power 62 (length (used ++ ((carry % 62) % 256) ∷ [])) * (carry / 62)
      ≡ n
push_digit carry n used e =
    rw (value-append 62 used (((carry % 62) % 256) ∷ []), length-snoc)
      (unfold value power in omega (arith, e, ap (λ (x : ℕ). power 62 (length used) * x) parts))
  where
    parts : carry ≡ 62 * (carry / 62) + (carry % 62) % 256
    parts = omega arith

    length-snoc : length (used ++ ((carry % 62) % 256) ∷ []) ≡ suc (length used)
    length-snoc = omega (arith, length-append used (((carry % 62) % 256) ∷ []))

-- While a carry is left the array has room.
room_left :
    (carry n : ℕ) (used : List ℕ)
    → n < u128_mod
    → val used + power 62 (length used) * carry ≡ n
    → (carry == 0) ≡ false
    → length used < 22
room_left carry n used u e z =
    digits_fit used (omega (arith, e, u, mul-le-mul_left (power 62 (length used)) (positive z)))
  where
    positive : (carry == 0) ≡ false → 1 ≤ carry
    positive h = ground arith

-- After `spill` the digits and the carry that was left have been written out.
spill_lem :
    (fuel carry n : ℕ) (used : List ℕ)
    → carry < power 62 fuel
    → n < u128_mod
    → AllBelow 62 used
    → length used ≤ 22
    → val used + power 62 (length used) * carry ≡ n
    → (used' : List ℕ) × (spill (suc fuel) carry used ≡ some used') × Holds n used'
unfolding spill power
spill_lem zero carry n used c u b l e =
    (used, ground arith, (omega (arith, e, ap (λ (x : ℕ). power 62 (length used) * x) gone), b, l))
  where
    gone : carry ≡ 0
    gone = omega arith
spill_lem (suc fuel) carry n used c u b l e = elim (Bool-cases (carry == 0)) [
  | inl z ↦
      let gone : carry ≡ 0 = (==_iff carry 0).0 z in
      (used, rw z refl, (omega (arith, e, ap (λ (x : ℕ). power 62 (length used) * x) gone), b, l))
  | inr z ↦
      let room = room_left carry n used u e z in
      let digit : List ℕ = ((carry % 62) % 256) ∷ [] in
      rw (z, lt→ltb (length used) 22 room)
        (spill_lem fuel (carry / 62) n (used ++ digit) (omega arith) u
          (All-append (λ d. d < 62) used digit b (omega arith, tt))
          (omega (arith, length-append used digit, room)) (push_digit carry n used e))
]

add_word_lem :
    (word n : ℕ) (used : List ℕ)
    → word < 2 ^ 32
    → 2 ^ 32 * n + word < u128_mod
    → Holds n used
    → (used' : List ℕ) × (add_word word used ≡ some used') × Holds (2 ^ 32 * n + word) used'
unfolding add_word
add_word_lem word n used h u k =
    let s = shift_in_lem word used h k.1 in
    spill_lem 63 (shift_in word used).1 (2 ^ 32 * n + word) (shift_in word used).0
      (omega (arith, s.2, wide)) u s.1 (omega (arith, s.0, k.2))
      (rw (s.0) (omega (arith, s.3, k.0)))
  where
    wide : 2 ^ 32 < power 62 63
    wide = unfold power in omega arith

abbrev AreWords : List ℕ → Type 0
AreWords ws = All (λ w. w < 2 ^ 32) ws

add_words_lem :
    (n : ℕ) (words used : List ℕ)
    → AreWords words
    → read (2 ^ 32) n words < u128_mod
    → Holds n used
    → (used' : List ℕ) × (add_words words used ≡ some used') × Holds (read (2 ^ 32) n words) used'
unfolding add_words read
add_words_lem n [] used h u k = (used, refl, k)
add_words_lem n (word ∷ words) used h u k =
    let fits : 2 ^ 32 * n + word < u128_mod =
      omega (arith, u, le-read (2 ^ 32) (n * 2 ^ 32 + word) words (omega arith)) in
    let (used', e, k') = add_word_lem word n used h.0 fits k in
    let same : 2 ^ 32 * n + word ≡ n * 2 ^ 32 + word = omega arith in
    rw (e, add_words)
      (add_words_lem (n * 2 ^ 32 + word) words used' h.1 u (subst (λ m. Holds m used') same k'))

-- The four words of a 128-bit number.
abbrev pub words_of : ℕ → List ℕ
words_of n = word_at n 96 ∷ word_at n 64 ∷ word_at n 32 ∷ word_at n 0 ∷ []

read-words_of : (n : ℕ) → n < u128_mod → read (2 ^ 32) 0 (words_of n) ≡ n
unfolding read
read-words_of n h = omega arith

-- The array of 22 digits, least first, that the loops leave behind.
pub add_words-words_of :
    (n : ℕ)
    → n < u128_mod
    → (used : List ℕ) × (add_words (words_of n) [] ≡ some used) × Holds n used
add_words-words_of n h =
    let e = read-words_of n h in
    let (used, p, k) =
      add_words_lem 0 (words_of n) [] (omega arith) (omega (arith, e, h))
        (unfold value in omega arith) in
    (used, p, subst (λ m. Holds m used) e k)
