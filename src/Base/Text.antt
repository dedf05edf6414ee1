-- ===== src/Base/Text.antt =====
-- Text as the list of its bytes, and the operations of std::string that the programs use.
use Prim.Native.Char.{code}
use Prim.Native.Nat.{ℕ, suc, ◌+◌, ◌-◌, ◌≤◌}
use Prim.Native.String.{String}
use mathlib.Core.Path.{◌≡◌, refl}
use mathlib.Core.Logic.{inl, inr}
use mathlib.Core.Bool.{Bool, true, false, ◌&&◌, ◌||◌}
use mathlib.Core.List.{List, [], ◌∷◌}
use mathlib.Core.Option.{Option, none, some}
use native.Mathlib.Omega.{arith}
use cs.Base.Tests.{ltb, ◌==◌, if◌then◌else◌, Bool-cases}
use cs.Base.Lists.{length}

abbrev pub Text : Type 0
Text = List ℕ

-- The bytes of an ASCII literal.
abbrev pub codes : String → Text
codes String.[] = []
codes (String.◌∷◌ c s) = code c ∷ codes s

-- std::string ==
unfoldable pub eq_text : Text → Text → Bool
eq_text [] [] = true
eq_text [] (y ∷ ys) = false
eq_text (x ∷ xs) [] = false
eq_text (x ∷ xs) (y ∷ ys) = (x == y) && eq_text xs ys

pub eq_text_refl : (xs : Text) → eq_text xs xs ≡ true
unfolding eq_text
eq_text_refl [] = refl
eq_text_refl (x ∷ xs) = ground (arith, eq_text_refl xs)

pub eq_text→≡ : (xs ys : Text) → eq_text xs ys ≡ true → xs ≡ ys
unfolding eq_text
eq_text→≡ [] [] e = refl
eq_text→≡ [] (y ∷ ys) e = cc
eq_text→≡ (x ∷ xs) [] e = cc
eq_text→≡ (x ∷ xs) (y ∷ ys) e = ground (arith, eq_text→≡ xs ys)

-- std::string <, the lexicographic order on bytes.
unfoldable pub lt_text : Text → Text → Bool
lt_text xs [] = false
lt_text [] (y ∷ ys) = true
lt_text (x ∷ xs) (y ∷ ys) = ltb x y || ((x == y) && lt_text xs ys)

-- Does `s` start with `p`?
unfoldable pub starts_with : Text → Text → Bool
starts_with [] s = true
starts_with (c ∷ p) [] = false
starts_with (c ∷ p) (d ∷ s) = (c == d) && starts_with p s

-- s.find(p): the first position at which `p` stands, none for npos.
unfoldable pub find_text : Text → Text → Option ℕ
find_text p [] = if starts_with p [] then some 0 else none
find_text p (d ∷ s) = elim (starts_with p (d ∷ s)) [
  | true ↦ some 0
  | false ↦ elim (find_text p s) [ none ↦ none | some i ↦ some (suc i) ]
]

-- s.find(c) of one character.
unfoldable pub find_char : ℕ → Text → Option ℕ
find_char c [] = none
find_char c (d ∷ s) = elim (c == d) [
  | true ↦ some 0
  | false ↦ elim (find_char c s) [ none ↦ none | some i ↦ some (suc i) ]
]

unfoldable pub contains_text : Text → Text → Bool
contains_text p s = elim (find_text p s) [ none ↦ false | some i ↦ true ]

-- Where `p` is found it stands inside the text.
pub starts_with-length : (p s : Text) → starts_with p s ≡ true → length p ≤ length s
unfolding starts_with
starts_with-length [] s e = omega arith
starts_with-length (c ∷ p) [] e = cc
starts_with-length (c ∷ p) (d ∷ s) e = ground (arith, starts_with-length p s)

pub find_text-within : (p s : Text) (i : ℕ) → find_text p s ≡ some i → i + length p ≤ length s
unfolding find_text
find_text-within p [] i e = ground (arith, starts_with-length p [])
find_text-within p (d ∷ s) i e = elim (Bool-cases (starts_with p (d ∷ s))) [
  | inl h ↦ ground (arith, starts_with-length p (d ∷ s) h)
  | inr h ↦ ground (arith, h, find_text-within p s (i - 1))
]
