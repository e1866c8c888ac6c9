-- ===== src/Base/Text.antt =====
-- Texts as lists of bytes: literals, comparison, and `str::split` at an ASCII separator.
use Prim.Native.Char.{code}
use Prim.Native.String.{String}
use librespot.Base.{
  ℕ, ◌≡◌, ◌≢◌, refl, Bool, true, false, List, [], ◌∷◌, ◌++◌, ◌&&◌, ◌==◌, All, if◌then◌else◌, arith,
}

abbrev pub Text : Type 0
Text = List ℕ

-- The code points of a literal: its bytes, since the program's literals are ASCII.
abbrev pub codes : String → Text
codes String.[] = []
codes (String.◌∷◌ c s) = code c ∷ codes s

abbrev pub text_eq : Text → Text → Bool
text_eq [] [] = true
text_eq [] (y ∷ ys) = false
text_eq (x ∷ xs) [] = false
text_eq (x ∷ xs) (y ∷ ys) = x == y && text_eq xs ys

pub text_eq→eq : (xs ys : Text) → text_eq xs ys ≡ true → xs ≡ ys
text_eq→eq [] [] h = refl
text_eq→eq [] (y ∷ ys) h = cc
text_eq→eq (x ∷ xs) [] h = cc
text_eq→eq (x ∷ xs) (y ∷ ys) h = ground (arith, text_eq→eq xs ys)

pub text_eq_refl : (xs : Text) → text_eq xs xs ≡ true
text_eq_refl [] = refl
text_eq_refl (x ∷ xs) = ground (arith, text_eq_refl xs)

-- Put a byte before the first of the parts.
abbrev prepend : ℕ → List Text → List Text
prepend c [] = (c ∷ []) ∷ []
prepend c (p ∷ ps) = (c ∷ p) ∷ ps

unfoldable pub split : ℕ → Text → List Text
split sep [] = [] ∷ []
split sep (c ∷ cs) = if c == sep then [] ∷ split sep cs else prepend c (split sep cs)

-- A text in which the separator does not occur.
abbrev pub IsFree : ℕ → Text → Type 0
IsFree sep s = All (λ c. c ≢ sep) s

pub split_free : (sep : ℕ) (s : Text) → IsFree sep s → split sep s ≡ s ∷ []
unfolding split
split_free sep [] h = refl
split_free sep (c ∷ cs) h = ground (arith, split_free sep cs h.1)

pub split_at :
    (sep : ℕ) (s rest : Text) → IsFree sep s → split sep (s ++ sep ∷ rest) ≡ s ∷ split sep rest
unfolding split
split_at sep [] rest h = ground arith
split_at sep (c ∷ cs) rest h = ground (arith, split_at sep cs rest h.1)
