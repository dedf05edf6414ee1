-- ===== src/Exargs/Tokens.antt =====
-- The tokens that the program takes from its input.
use cs.Base.{
  ℕ, zero, suc, ◌<◌, ◌≡◌, refl, ap, ◌∙◌, ◌++◌, List, [], ◌∷◌, true, false, length, is_empty, All,
  arith, length-append,
}
use cs.Base.Text.{Text}
use cs.Base.Stream.{getline, getline_to, split_at}
use cs.Base.Stream.Lines.{lacks, lacks-append, split_at-append, split_at_whole}
use cs.Exargs.{line_tokens, pull_lines, pull_all_tokens}

-- A text that is not empty, without spaces and line feeds.
abbrev pub IsToken : Text → Type 0
IsToken s = (is_empty s ≡ false) × (lacks 32 s ≡ true) × (lacks 10 s ≡ true)

-- Tokens with a space between them, and lines with a line feed behind each.
abbrev pub joined : List Text → Text
joined [] = []
joined (t ∷ []) = t
joined (t ∷ t' ∷ ts) = t ++ (32 ∷ joined (t' ∷ ts))

abbrev pub lines_of : List (List Text) → Text
lines_of [] = []
lines_of (ts ∷ more) = joined ts ++ (10 ∷ lines_of more)

abbrev pub concat : List (List Text) → List Text
concat [] = []
concat (ts ∷ more) = ts ++ concat more

line_tokens_next :
    (fuel : ℕ) (s t rest : Text)
    → is_empty s ≡ false
    → split_at 32 s ≡ (t, rest)
    → line_tokens (suc fuel) s ≡ t ∷ line_tokens fuel rest
unfolding line_tokens getline_to
line_tokens_next fuel s t rest e f =
    rw (line_tokens, e) (ap (λ (p : Text × Text). p.0 ∷ line_tokens fuel p.1) f)

line_tokens_nil : (fuel : ℕ) → line_tokens fuel [] ≡ []
unfolding line_tokens getline_to
line_tokens_nil zero = refl
line_tokens_nil (suc fuel) = refl

is_empty-append : (s t : Text) → is_empty s ≡ false → is_empty (s ++ t) ≡ false
is_empty-append [] t e = cc
is_empty-append (c ∷ s) t e = refl

line_tokens-joined :
    (ts : List Text) (fuel : ℕ)
    → length (joined ts) < fuel
    → All IsToken ts
    → line_tokens fuel (joined ts) ≡ ts
line_tokens-joined ts zero p w = absurd (omega arith)
line_tokens-joined [] (suc fuel) p w = line_tokens_nil (suc fuel)
line_tokens-joined (t ∷ []) (suc fuel) p w =
    line_tokens_next fuel t t [] w.0.0 (split_at_whole 32 t w.0.1)
    ∙ ap (λ x. t ∷ x) (line_tokens_nil fuel)
line_tokens-joined (t ∷ t' ∷ ts) (suc fuel) p w =
    line_tokens_next fuel (t ++ (32 ∷ joined (t' ∷ ts))) t (joined (t' ∷ ts))
      (is_empty-append t (32 ∷ joined (t' ∷ ts)) w.0.0)
      (split_at-append 32 t (joined (t' ∷ ts)) w.0.1)
    ∙ ap (λ x. t ∷ x)
        (line_tokens-joined (t' ∷ ts) fuel
          (omega (arith, p, length-append t (32 ∷ joined (t' ∷ ts)))) w.1)

joined_one_line : (ts : List Text) → All IsToken ts → lacks 10 (joined ts) ≡ true
joined_one_line [] w = refl
joined_one_line (t ∷ []) w = w.0.2
joined_one_line (t ∷ t' ∷ ts) w =
    lacks-append 10 t (32 ∷ joined (t' ∷ ts)) w.0.2 (ground (arith, joined_one_line (t' ∷ ts) w.1))

pull_lines_next :
    (fuel : ℕ) (s line rest : Text)
    → is_empty s ≡ false
    → split_at 10 s ≡ (line, rest)
    → pull_lines (suc fuel) s ≡ line_tokens (suc (length line)) line ++ pull_lines fuel rest
unfolding pull_lines getline getline_to
pull_lines_next fuel s line rest e f =
    rw (pull_lines, e)
      (ap (λ (p : Text × Text). line_tokens (suc (length p.0)) p.0 ++ pull_lines fuel p.1) f)

is_empty_behind : (s t : Text) (c : ℕ) → is_empty (s ++ (c ∷ t)) ≡ false
is_empty_behind [] t c = refl
is_empty_behind (d ∷ s) t c = refl

pull_lines-lines_of :
    (lines : List (List Text)) (fuel : ℕ)
    → length (lines_of lines) < fuel
    → All (All IsToken) lines
    → pull_lines fuel (lines_of lines) ≡ concat lines
unfolding pull_lines getline getline_to
pull_lines-lines_of lines zero p w = absurd (omega arith)
pull_lines-lines_of [] (suc fuel) p w = refl
pull_lines-lines_of (ts ∷ more) (suc fuel) p w =
    pull_lines_next fuel (joined ts ++ (10 ∷ lines_of more)) (joined ts) (lines_of more)
      (is_empty_behind (joined ts) (lines_of more) 10)
      (split_at-append 10 (joined ts) (lines_of more) (joined_one_line ts w.0))
    ∙ ap (λ x. x ++ pull_lines fuel (lines_of more))
        (line_tokens-joined ts (suc (length (joined ts))) (omega arith) w.0)
    ∙ ap (λ x. ts ++ x)
        (pull_lines-lines_of more fuel
          (omega (arith, p, length-append (joined ts) (10 ∷ lines_of more))) w.1)

-- From lines of tokens that are not empty, with one space between two of them, pullAllTokens takes
-- these tokens, in order.
pub pull_all_tokens-lines_of :
    (lines : List (List Text))
    → All (All IsToken) lines
    → pull_all_tokens (lines_of lines) ≡ concat lines
unfolding pull_all_tokens
pull_all_tokens-lines_of lines w =
    pull_lines-lines_of lines (suc (length (lines_of lines))) (omega arith) w
