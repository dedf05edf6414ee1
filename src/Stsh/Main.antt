-- ===== src/Stsh/Main.antt =====
-- The read-eval-print loop of assign4/stsh.cc. Lines come parsed, since the parser is generated
-- by flex and yacc; signals that arrive at the prompt stand between the lines.
pub mod Commands
use cs.Base.{ℕ, ◌++◌, List, [], ◌∷◌, Bool, true, false, not, if◌then◌else◌}
use cs.Stsh.Process.{Command}
use cs.Stsh.Shell.{
  Delivery, child_changed, keyboard, Shell, Result, M, ok, throw, exit, blocked, ◌>>=◌, ◌>>◌,
  return, when,
}
use cs.Stsh.Signals.{deliver}
use cs.Stsh.Builtins.{handle_builtin}
use cs.Stsh.Create.{Pipeline, create_job}

pub data Input : Type 0 where
  empty_line unparsable : Input
  line : Pipeline → Input
  arrival : Delivery → Input

-- The body of the try block; a parsed pipeline has a command.
unfoldable pub run_pipeline : Pipeline → List Command → M (Unit {0})
unfolding handle_builtin create_job
run_pipeline p [] = return tt
run_pipeline p (c ∷ cs) = do builtin ← handle_builtin c; when (not builtin) (create_job p)

-- While SIGCHLD is blocked it stays pending, until a sigsuspend lets it in.
unfoldable pub arrive : Delivery → M (Unit {0})
unfolding deliver
arrive (child_changed reports) s =
    if s.chld_blocked
    then (ok tt, record s { deliveries = s.deliveries ++ (child_changed reports ∷ []) })
    else deliver (child_changed reports) s
arrive (keyboard sig) s = deliver (keyboard sig) s

-- The catch clause: the message is printed, and the shell goes on with the state as it is.
abbrev pub caught : Result (Unit {0}) × Shell → Result (Unit {0}) × Shell
caught (throw e, s) = (ok tt, s)
caught (r, s) = (r, s)

unfoldable pub run_input : Input → M (Unit {0})
unfolding run_pipeline arrive
run_input empty_line s = (ok tt, s)
run_input unparsable s = (ok tt, s)
run_input (line p) s = caught (run_pipeline p p.commands s)
run_input (arrival d) s = arrive d s

unfoldable pub repl : List Input → M (Unit {0})
unfolding run_input
repl [] = return tt
repl (i ∷ is) = do run_input i; repl is
