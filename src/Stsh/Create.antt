-- ===== src/Stsh/Create.antt =====
-- createJob and startProcess of assign4/stsh.cc: the parent's side in the shell's state, and the
-- calls of the child between fork and execvp.
pub mod Holds
pub mod Validity
pub mod Failure
use cs.Base.{
  ℕ, suc, ◌++◌, List, [], ◌∷◌, Option, none, some, Bool, true, false, not, ◌&&◌, ◌==◌,
  if◌then◌else◌, is_empty,
}
use cs.Base.Text.{Text, codes}
use cs.Base.Number.{show_nat}
use cs.Base.Map.{lookup, ℕ_order}
use cs.Stsh.Process.{Command, Process, running, new_process, tokens_before_null}
use cs.Stsh.Job.{Job, JobState, foreground, background, new_job, add_process, group_id, show_label}
use cs.Stsh.JobList.{JobList, add_job, put_job}
use cs.Stsh.Shell.{
  Call, fork, pipe, open_read, open_write, close, dup_stdin, dup_stdout, tcgetpgrp, setpgid,
  tcsetpgrp, execvp, Error, Shell, Result, M, ok, throw, exit, blocked, ◌>>=◌, ◌>>◌, return, raise,
  when, checked, checked_answer, run_checked, block_chld, unblock_chld, get_joblist, put_joblist,
  print,
}
use cs.Stsh.Signals.{wait_for_foreground}

-- struct pipeline of stsh-parser/stsh-parse.h
pub record Pipeline : Type 0 where
  pub input : Text
  pub output : Text
  pub commands : List Command
  pub background : Bool

abbrev pub stdin_fileno : ℕ
stdin_fileno = 0

abbrev pub stdout_fileno : ℕ
stdout_fileno = 1

-- executeCommand: the command and its tokens up to NULL
unfoldable pub execute_command : Command → M (Unit {0})
unfolding tokens_before_null run_checked
execute_command c = run_checked (execvp c.command (c.command ∷ tokens_before_null c.tokens))

-- The branch of the child in startProcess. `pid` is what getpid returns; the child's copy of the
-- job is the parent's at the fork.
unfoldable pub child_process : Job → Command → ℕ → ℕ → Bool → ℕ → M (Unit {0})
unfolding execute_command run_checked
child_process job c input_fd output_fd in_foreground pid = do
  unblock_chld
  when ((input_fd == stdin_fileno) && in_foreground) (do
    let pgid = if group_id job == 0 then pid else group_id job
    run_checked (setpgid pid pgid)
    run_checked (tcsetpgrp stdin_fileno pgid))
  when (not (input_fd == stdin_fileno))
      (do run_checked (dup_stdin input_fd); run_checked (close input_fd))
  when (not (output_fd == stdout_fileno))
      (do run_checked (dup_stdout output_fd); run_checked (close output_fd))
  execute_command c

-- startProcess as the parent goes on after the fork. The reference to the job is the job's value,
-- since no handler runs in between.
unfoldable pub start_process : Job → Command → M Job
unfolding checked run_checked
start_process job c = do
  child ← checked fork
  let started = add_process job (new_process child c running)
  l ← get_joblist
  put_joblist (put_job l started)
  run_checked (setpgid child (group_id started))
  return started

-- The catch clause of createJob, which closes both descriptors, also 0 and 1.
unfoldable pub close_and_rethrow : ℕ → ℕ → Result Job × Shell → Result Job × Shell
unfolding run_checked
close_and_rethrow prev_input output (throw e, s) =
    (do run_checked (close prev_input); run_checked (close output); raise e) s
close_and_rethrow prev_input output (r, s) = (r, s)

-- The descriptor that a process writes to, and the one that the next process reads from.
unfoldable pub open_output : Pipeline → List Command → ℕ → M (ℕ × ℕ)
unfolding checked checked_answer
open_output p (next ∷ rest) prev_input = do
  fds ← checked_answer pipe
  return (fds.second, fds.value)
open_output p [] prev_input =
    if is_empty p.output
    then return (stdout_fileno, prev_input)
    else do fd ← checked (open_write p.output); return (fd, prev_input)

-- The loop over the commands of the pipeline.
unfoldable pub start_all : Pipeline → List Command → ℕ → Job → M Job
unfolding open_output start_process close_and_rethrow run_checked
start_all p [] prev_input job = return job
start_all p (c ∷ cs) prev_input job = do
  (output, next_input) ← open_output p cs prev_input
  started ← λ s. close_and_rethrow prev_input output (start_process job c s)
  when (not (prev_input == stdin_fileno)) (run_checked (close prev_input))
  when (not (output == stdout_fileno)) (run_checked (close output))
  start_all p cs next_input started

unfoldable pub show_pids : List Process → Text
show_pids [] = 10 ∷ []
show_pids (q ∷ qs) = 32 ∷ (show_nat q.pid ++ show_pids qs)

-- What createJob does with the job once its processes run.
unfoldable pub give_terminal : Pipeline → ℕ → ℕ → Job → M (Unit {0})
unfolding run_checked wait_for_foreground show_label show_pids
give_terminal p input_fd orig_pgrp job =
    if p.background
    then print (show_label job.num ++ show_pids job.processes)
    else (if is_empty p.input
        then (do
          run_checked (tcsetpgrp input_fd (group_id job))
          wait_for_foreground
          run_checked (tcsetpgrp input_fd orig_pgrp))
        else wait_for_foreground)

abbrev pub job_state_of : Pipeline → JobState
job_state_of p = if p.background then background else foreground

unfoldable pub open_input : Pipeline → M ℕ
unfolding checked
open_input p = if is_empty p.input then return stdin_fileno else checked (open_read p.input)

-- tcgetpgrp of the terminal, only for a foreground job that reads from it
unfoldable pub original_group : Pipeline → ℕ → M ℕ
unfolding checked
original_group p input_fd =
    if is_empty p.input && not p.background then checked (tcgetpgrp input_fd) else return 0

unfoldable pub create_job : Pipeline → M (Unit {0})
unfolding open_input original_group start_all give_terminal
create_job p = do
  l ← get_joblist
  put_joblist (add_job l (job_state_of p))
  input_fd ← open_input p
  block_chld
  orig_pgrp ← original_group p input_fd
  job ← start_all p p.commands input_fd (new_job l.next (job_state_of p))
  give_terminal p input_fd orig_pgrp job
  unblock_chld
