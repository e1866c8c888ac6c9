-- ===== src/Base/Radix.antt =====
-- Numbers written in a base: lists of digits, least first, and their values.
use mathlib.Core.List.{reverse, reverse-cons}
use native.Mathlib.Nat.{mul-le-mul_left}
use librespot.Base.{
  ℕ, zero, suc, ◌+◌, ◌*◌, ◌/◌, ◌%◌, ◌≤◌, ◌<◌, ◌≡◌, refl, ap, ap₂, List, [], ◌∷◌, ◌++◌, All, length,
  replicate, arith,
}

unfoldable pub power : ℕ → ℕ → ℕ
power base zero = 1
power base (suc n) = base * power base n

-- The value of digits, least first.
unfoldable pub value : ℕ → List ℕ → ℕ
value base [] = 0
value base (d ∷ ds) = d + base * value base ds

-- The value of digits, greatest first, as a parser reads them.
unfoldable pub read : ℕ → ℕ → List ℕ → ℕ
read base acc [] = acc
read base acc (d ∷ ds) = read base (acc * base + d) ds

-- The `width` low digits of a number, least first.
unfoldable pub digits : ℕ → ℕ → ℕ → List ℕ
digits base zero n = []
digits base (suc width) n = (n % base) ∷ digits base width (n / base)

abbrev pub AllBelow : ℕ → List ℕ → Type 0
AllBelow base ds = All (λ d. d < base) ds

pub length-digits : (base width n : ℕ) → length (digits base width n) ≡ width
unfolding digits
length-digits base zero n = refl
length-digits base (suc width) n = ap suc (length-digits base width (n / base))

pub digits-AllBelow : (base width n : ℕ) → 0 < base → AllBelow base (digits base width n)
unfolding digits
digits-AllBelow base zero n h = tt
digits-AllBelow base (suc width) n h = (omega arith, digits-AllBelow base width (n / base) h)

div-lt-power : (base n p : ℕ) → 0 < base → n < base * p → n / base < p
div-lt-power base n p h k = grind arith

pub value-digits :
    (base width n : ℕ) → 0 < base → n < power base width → value base (digits base width n) ≡ n
unfolding digits value power
value-digits base zero n h k = omega arith
value-digits base (suc width) n h k =
    grind (arith, value-digits base width (n / base) h (div-lt-power base n (power base width) h k))

pub value-append :
    (base : ℕ) (xs ys : List ℕ)
    → value base (xs ++ ys) ≡ value base xs + power base (length xs) * value base ys
unfolding value power
value-append base [] ys = omega arith
value-append base (x ∷ xs) ys = omega (arith, ap (λ (t : ℕ). base * t) (value-append base xs ys))

pub value-zeros : (base n : ℕ) → value base (replicate n 0) ≡ 0
unfolding value
value-zeros base zero = refl
value-zeros base (suc n) = omega (arith, ap (λ (t : ℕ). base * t) (value-zeros base n))

pub read-append :
    (base acc : ℕ) (xs ys : List ℕ) → read base acc (xs ++ ys) ≡ read base (read base acc xs) ys
unfolding read
read-append base acc [] ys = refl
read-append base acc (x ∷ xs) ys = read-append base (acc * base + x) xs ys

pub read-reverse :
    (base acc : ℕ) (ds : List ℕ)
    → read base acc (reverse ds) ≡ value base ds + power base (length ds) * acc
unfolding read value power
read-reverse base acc [] = omega arith
read-reverse base acc (d ∷ ds) =
    rw (reverse-cons d ds, read-append base acc (reverse ds) (d ∷ []))
      (omega (arith, ap (λ (t : ℕ). t * base) (read-reverse base acc ds)))

-- What has been read is a lower bound of the result.
pub le-read : (base acc : ℕ) (ds : List ℕ) → 0 < base → acc ≤ read base acc ds
unfolding read
le-read base acc [] h = omega arith
le-read base acc (d ∷ ds) h = grind (arith, le-read base (acc * base + d) ds h)

lt_of_tail : (base d e v w : ℕ) → d < base → v < w → d + base * v < e + base * w
lt_of_tail base d e v w h k = omega (arith, mul-le-mul_left base k)

tail-eq : (base d e v w : ℕ) → d < base → e < base → d + base * v ≡ e + base * w → v ≡ w
tail-eq base d e v w h k p =
    let up : ¬ (v < w) = λ l. omega (arith, lt_of_tail base d e v w h l) in
    let down : ¬ (w < v) = λ l. omega (arith, lt_of_tail base e d w v k l) in
    omega (arith, up, down)

pub value-injective :
    (base : ℕ) (xs ys : List ℕ)
    → length xs ≡ length ys
    → AllBelow base xs
    → AllBelow base ys
    → value base xs ≡ value base ys
    → xs ≡ ys
unfolding value
value-injective base [] [] l h k e = refl
value-injective base [] (y ∷ ys) l h k e = absurd (omega arith)
value-injective base (x ∷ xs) [] l h k e = absurd (omega arith)
value-injective base (x ∷ xs) (y ∷ ys) l h k e =
    let tails : value base xs ≡ value base ys = tail-eq base x y _ _ h.0 k.0 e in
    let heads : x ≡ y = omega (arith, ap (λ (t : ℕ). base * t) tails) in
    ap₂ ◌∷◌ heads (value-injective base xs ys (omega arith) h.1 k.1 tails)

pub le-power : (base m n : ℕ) → 0 < base → m ≤ n → power base m ≤ power base n
unfolding power
le-power base zero zero h k = omega arith
le-power base zero (suc n) h k = grind (arith, le-power base zero n h)
le-power base (suc m) zero h k = absurd (omega arith)
le-power base (suc m) (suc n) h k = mul-le-mul_left base (le-power base m n h (omega arith))
