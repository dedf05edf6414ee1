-- ===== src/Stsh/Main/Commands.antt =====
-- One command line of the shell, builtin or not, from the prompt back to the prompt.
use cs.Base.{List, [], ◌∷◌, Option, none, some, true, not}
use cs.Stsh.Process.{Command}
use cs.Stsh.Shell.{Shell, return, when}
use cs.Stsh.Hoare.{Ensures, bind-Ensures, when-Ensures}
use cs.Stsh.Prompt.{AtPrompt, Valid}
use cs.Stsh.Builtins.{Builtin, builtins, find_builtin, run_builtin, run_found, handle_builtin}
use cs.Stsh.Builtins.Send.{run_builtin-Ensures}
use cs.Stsh.Create.{Pipeline, create_job}
use cs.Stsh.Create.Validity.{create_job-Ensures}
use cs.Stsh.Main.{run_pipeline}

run_found-Ensures :
    (o : Option Builtin) (c : Command) (s : Shell)
    → AtPrompt s
    → Ensures Valid (λ _. AtPrompt) (run_found o c s)
unfolding run_found
run_found-Ensures none c s v = v
run_found-Ensures (some b) c s v =
    bind-Ensures Valid (λ _. AtPrompt) (λ _. AtPrompt) (run_builtin b c s) (λ _. return true)
      (run_builtin-Ensures b c s v) (λ _ t p. p)

handle_builtin-Ensures :
    (c : Command) (s : Shell) → AtPrompt s → Ensures Valid (λ _. AtPrompt) (handle_builtin c s)
unfolding handle_builtin
handle_builtin-Ensures c s v = run_found-Ensures (find_builtin c.command builtins) c s v

-- From the prompt, with a valid job list and nothing in the foreground: the command keeps the
-- list valid whether it ends, throws, exits or blocks, and if it ends nothing is in the
-- foreground again. The answers of the operating system and the signals are arbitrary.
pub run_pipeline-Ensures :
    (p : Pipeline) (cs : List Command) (s : Shell)
    → AtPrompt s
    → Ensures Valid (λ _. AtPrompt) (run_pipeline p cs s)
unfolding run_pipeline
run_pipeline-Ensures p [] s v = v
run_pipeline-Ensures p (c ∷ rest) s v =
    bind-Ensures Valid (λ _. AtPrompt) (λ _. AtPrompt) (handle_builtin c s)
      (λ builtin. when (not builtin) (create_job p)) (handle_builtin-Ensures c s v)
      λ builtin t x.
        when-Ensures Valid (λ _. AtPrompt) (not builtin) (create_job p) t x
          (λ _. create_job-Ensures p t x)
