-- ===== src/Exargs.antt =====
-- lab2/exargs-soln.cc: a program that runs a command with arguments from its standard input. What the
-- command does is a parameter.
pub mod Tokens
mod Tests
use cs.Base.{
  ℕ, zero, suc, ◌++◌, List, [], ◌∷◌, Option, none, some, Bool, true, false, ◌==◌, length, drop,
  if◌then◌else◌,
}
use cs.Base.Text.{Text}
use cs.Base.Stream.{Line, getline, getline_to}

-- The inner loop of pullAllTokens. Each round takes something from the line, so its length is fuel
-- enough for both loops.
unfoldable pub line_tokens : ℕ → Text → List Text
unfolding getline_to
line_tokens zero s = []
line_tokens (suc fuel) s =
    let token = getline_to 32 s in
    let more = line_tokens fuel token.rest in if token.failed then [] else token.content ∷ more

-- The outer loop.
unfoldable pub pull_lines : ℕ → Text → List Text
unfolding getline line_tokens
pull_lines zero s = []
pull_lines (suc fuel) s =
    let line = getline s in
    let more = pull_lines fuel line.rest in
    if line.failed then [] else line_tokens (suc (length line.content)) line.content ++ more

unfoldable pub pull_all_tokens : Text → List Text
unfolding pull_lines
pull_all_tokens s = pull_lines (suc (length s)) s

-- The arguments of the command, before the null pointer that ends them.
unfoldable pub command_arguments : List Text → List Text → List Text
command_arguments argv tokens = drop 1 argv ++ tokens

-- The status of the child: the command's, or that of exit(0) where it cannot be run.
unfoldable pub child_status : Option ℕ → ℕ
child_status none = 0
child_status (some status) = status

-- main, where the fork succeeds; `run` gives the status of a command, none if execvp fails
unfoldable pub main : (List Text → Option ℕ) → List Text → Text → ℕ
unfolding command_arguments child_status
main run argv input =
    if child_status (run (command_arguments argv (pull_all_tokens input))) == 0 then 0 else 1
