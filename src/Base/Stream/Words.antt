-- ===== src/Base/Stream/Words.antt =====
-- Words written to a stream with white space between them are read back one by one.
use Prim.Native.Nat.{ℕ}
use mathlib.Core.Path.{◌≡◌}
use mathlib.Core.Bool.{Bool, true, not, ◌&&◌}
use mathlib.Core.List.{[], ◌∷◌, ◌++◌}
use native.Mathlib.Omega.{arith}
use cs.Base.Lists.{all, is_empty}
use cs.Base.Text.{Text}
use cs.Base.Number.{is_space, skip_spaces}
use cs.Base.Number.Digits.{no_space}
use cs.Base.Stream.{take_word, read_word}

-- A word is not empty and holds no white space.
abbrev pub is_word : Text → Bool
is_word w = not (is_empty w) && all no_space w

take_word-append :
    (w : Text) (c : ℕ) (rest : Text)
    → all no_space w ≡ true
    → is_space c ≡ true
    → take_word (w ++ (c ∷ rest)) ≡ (w, c ∷ rest)
unfolding take_word
take_word-append [] c rest h e = ground (arith, e)
take_word-append (x ∷ w) c rest h e = ground (arith, take_word-append w c rest)

pub read_word-append :
    (w : Text) (c : ℕ) (rest : Text)
    → is_word w ≡ true
    → is_space c ≡ true
    → read_word (w ++ (c ∷ rest)) ≡ (w, c ∷ rest)
unfolding read_word skip_spaces
read_word-append [] c rest h e = cc
read_word-append (x ∷ w) c rest h e = ground (arith, take_word-append (x ∷ w) c rest)

-- White space before a word is skipped.
pub read_word-space : (c : ℕ) (s : Text) → is_space c ≡ true → read_word (c ∷ s) ≡ read_word s
unfolding read_word skip_spaces
read_word-space c s e = ground (arith, e)
