-- ===== src/Base/Stream.antt =====
-- Input streams as the text that is still to be read, and the string functions that the programs
-- take from the course's string-utils.h, which is not in the repository.
pub mod Words
pub mod Lines
use cs.Base.Tests.{ltb, ◌==◌, if◌then◌else◌, Bool-cases}
use cs.Base.Lists.{length, is_empty}
use Prim.Native.Nat.{ℕ, suc, ◌+◌, ◌*◌, ◌≤◌, ◌<◌}
use mathlib.Core.Path.{◌≡◌, refl}
use mathlib.Core.Logic.{inl, inr}
use mathlib.Core.Bool.{Bool, true, false}
use mathlib.Core.List.{List, [], ◌∷◌}
use mathlib.Core.Option.{Option, none, some}
use native.Mathlib.Omega.{arith}
use cs.Base.Text.{Text}
use cs.Base.Number.{is_space, skip_spaces, take_sign, read_digits}
use cs.Base.Int.{ℤ, signed}

-- What the programs rely on: trimming drops white space only, so it never makes a text longer, and
-- lower case is a fixed point of lower-casing. Beside them, the value that an int holds which the
-- programs read without having set it.
pub record StringUtils : Type 0 where
  pub trim : Text → Text
  pub rtrim : Text → Text
  pub to_lower : Text → Text
  pub unset_int : ℤ
  pub length-rtrim : (s : Text) → length (rtrim s) ≤ length s
  pub to_lower_idem : (s : Text) → to_lower (to_lower s) ≡ to_lower s

-- getline up to a delimiter: the text before it, what follows it, and whether the stream failed
-- since there was nothing to read.
pub record Line : Type 0 where
  pub content : Text
  pub rest : Text
  pub failed : Bool

unfoldable pub split_at : ℕ → Text → Text × Text
split_at d [] = ([], [])
split_at d (c ∷ s) = elim (c == d) [
  | true ↦ ([], s)
  | false ↦ let (before, after) = split_at d s in (c ∷ before, after)
]

unfoldable pub getline_to : ℕ → Text → Line
unfolding split_at
getline_to d s =
    let (before, after) = split_at d s in
    record { content = before; rest = after; failed = is_empty s }

unfoldable pub getline : Text → Line
unfolding getline_to
getline s = getline_to 10 s

-- stream >> string: the next word, empty if there is none.
unfoldable pub take_word : Text → Text × Text
unfolding is_space
take_word [] = ([], [])
take_word (c ∷ s) = elim (is_space c) [
  | true ↦ ([], c ∷ s)
  | false ↦ let (w, rest) = take_word s in (c ∷ w, rest)
]

unfoldable pub read_word : Text → Text × Text
unfolding take_word skip_spaces
read_word s = take_word (skip_spaces s)

-- stream >> int. With nothing left to read the variable keeps its value, which the source never
-- sets: none. With no digit it becomes 0; past the range it becomes the nearest end of it.
unfoldable pub clamp_int : Bool → ℕ → ℤ
clamp_int negative n =
    signed negative (if ltb n 2147483648 then n else (if negative then 2147483648 else 2147483647))

unfoldable pub read_int : Text → Option ℤ
unfolding skip_spaces take_sign read_digits clamp_int
read_int s = elim (skip_spaces s) [
  | [] ↦ none
  | c ∷ t ↦
      let (negative, digits) = take_sign (c ∷ t) in
      some (clamp_int negative (read_digits 10 0 digits).0)
]

-- A line that was read takes at least one character from the stream.
split_at-length :
    (d : ℕ) (s : Text)
    → (length (split_at d s).0 + length (split_at d s).1 ≤ length s)
      × (0 < length s → length (split_at d s).1 < length s)
unfolding split_at
split_at-length d [] = ground arith
split_at-length d (c ∷ s) = ground (arith, split_at-length d s)

pub getline-length :
    (s : Text)
    → (length (getline s).content + length (getline s).rest ≤ length s)
      × (0 < length s → length (getline s).rest < length s)
unfolding getline
getline-length s = split_at-length 10 s
