-- ===== src/Exargs/Tests.antt =====
-- Two lines of input.
use cs.Base.{◌≡◌, refl, List, [], ◌∷◌, none}
use cs.Base.Text.{Text, codes}
use cs.Exargs.{main, pull_all_tokens}
use cs.Exargs.Tokens.{lines_of, pull_all_tokens-lines_of}

abbrev two_lines : List (List Text)
two_lines = (codes "a" ∷ codes "bc" ∷ []) ∷ (codes "d" ∷ []) ∷ []

pull_all_tokens-lines_of_example :
    pull_all_tokens (lines_of two_lines) ≡ codes "a" ∷ codes "bc" ∷ codes "d" ∷ []
pull_all_tokens-lines_of_example =
    pull_all_tokens-lines_of two_lines
      (((refl, refl, refl), ((refl, refl, refl), tt)), (((refl, refl, refl), tt), tt))

-- A command that cannot be run counts as one that has ended well.
unknown_command : main (λ argv. none) (codes "exargs" ∷ codes "x" ∷ []) [] ≡ 0
unfolding main
unknown_command = refl
