-- ===== src/Stsh/Tests.antt =====
-- Runs of the shell at concrete job lists, and the theorems applied there.
use cs.Base.{
  ℕ, suc, ◌+◌, ◌≡◌, refl, List, [], ◌∷◌, Option, none, some, Bool, true, false, arith, ◌==◌, any,
  if◌then◌else◌,
}
use cs.Base.Text.{codes}
use cs.Base.Map.{lookup, ℕ_order}
use cs.Stsh.Process.{Command, Process, running, stopped}
use cs.Stsh.Job.{Job, foreground, background, is_running}
use cs.Stsh.JobList.{JobList, Jobs, no_jobs, update_job, get_job_with_process, has_foreground_job}
use cs.Stsh.JobList.Foreground.{foreground_count}
use cs.Stsh.JobList.Invariant.{IsValid, no_jobs-IsValid}
use cs.Stsh.JobList.Update.{update_job-IsValid, runs_in_front, update_job-foreground}
use cs.Stsh.Shell.{
  Answer, Shell, Delivery, child_changed, exited, ok, throw, sigstop, no_process_with_pid,
}
use cs.Stsh.Signals.{update_job_list, wait_for_foreground}
use cs.Stsh.Signals.Waiting.{wait_for_foreground-done}
use cs.Stsh.Hoare.{Ensures}
use cs.Stsh.Prompt.{AtPrompt, Valid}
use cs.Stsh.Builtins.{send_signal, count_tokens, find_process, already, handle_builtin}
use cs.Stsh.Builtins.Masking.{send_signal-mask}
use cs.Stsh.Create.{Pipeline, create_job}
use cs.Stsh.Main.{run_pipeline}
use cs.Stsh.Main.Commands.{run_pipeline-Ensures}

abbrev editor : Process
editor = record { pid = 101; tokens = codes "vi" ∷ []; state = running }

abbrev sleeper : Process
sleeper = record { pid = 102; tokens = codes "sleep" ∷ []; state = stopped }

abbrev edit_job : Job
edit_job = record { num = 1; processes = editor ∷ sleeper ∷ []; state = foreground }

abbrev one_job : JobList
one_job = record { next = 2; jobs = (1, edit_job) ∷ [] }

one_job-IsValid : IsValid one_job
unfolding foreground_count
one_job-IsValid = ground arith

abbrev always : Answer
always = record { failed = false; value = 300; second = 301 }

abbrev never : Answer
never = record { failed = true; value = 0; second = 0 }

abbrev shell_with : JobList → (ℕ → Answer) → List Delivery → Shell
shell_with l os ds = record {
  joblist = l;
  chld_blocked = false;
  deliveries = ds;
  printed = [];
  os = os;
  clock = 0;
  calls = [];
}

abbrev both_exit : List Delivery
both_exit = child_changed ((101, exited) ∷ (102, exited) ∷ []) ∷ []

update_job-IsValid_example : IsValid (update_job one_job 101 stopped)
update_job-IsValid_example = update_job-IsValid one_job 101 stopped one_job-IsValid

one_job-front : (n : ℕ) (j : Job) → lookup n one_job.jobs ≡ some j → runs_in_front j ≡ true
unfolding lookup
one_job-front n j e = ground (arith, e)

-- The editor stops, and the job goes to the background.
abbrev paused_job : Job
paused_job = record {
  num = 1;
  processes = record editor { state = stopped } ∷ sleeper ∷ [];
  state = background;
}

paused : lookup 1 (update_job one_job 101 stopped).jobs ≡ some paused_job
unfolding lookup update_job cs.Stsh.Job.contains_process cs.Stsh.Job.set_process_state
    cs.Base.Map.insert
paused = refl

update_job-foreground_example : runs_in_front paused_job ≡ true
update_job-foreground_example =
    update_job-foreground one_job 101 stopped 1 {k = paused_job} one_job-front paused

-- The wait of the next witness, run: both processes exit and the job is gone.
abbrev after_both : Shell
after_both = shell_with (record { next = 2; jobs = [] }) (λ _. always) []

both_exit_run :
    wait_for_foreground (shell_with one_job (λ _. always) both_exit) ≡ (ok tt, after_both)
unfolding wait_for_foreground has_foreground_job update_job_list cs.Stsh.Signals.report update_job
    cs.Stsh.Job.contains_process cs.Stsh.Job.set_process_state cs.Base.Map.insert cs.Base.Map.erase
both_exit_run = refl

wait_for_foreground-done_example : has_foreground_job after_both.joblist ≡ false
wait_for_foreground-done_example =
    wait_for_foreground-done (shell_with one_job (λ _. always) both_exit) both_exit_run

-- A shell at its prompt with nothing running.
abbrev fresh : (ℕ → Answer) → Shell
fresh os = shell_with no_jobs os both_exit

fresh-AtPrompt : (os : ℕ → Answer) → AtPrompt (fresh os)
unfolding no_jobs has_foreground_job
fresh-AtPrompt os = record { valid = no_jobs-IsValid; no_foreground = refl }

abbrev cat_command : Command
cat_command = record { command = codes "cat"; tokens = none ∷ [] }

abbrev cat_missing : Pipeline
cat_missing = record {
  input = codes "missing";
  output = [];
  commands = cat_command ∷ [];
  background = false;
}

run_pipeline-Ensures_example :
    Ensures Valid
      (λ _. AtPrompt)
      (run_pipeline cat_missing (cat_command ∷ []) (fresh (λ _. always)))
run_pipeline-Ensures_example =
    run_pipeline-Ensures cat_missing (cat_command ∷ []) (fresh (λ _. always))
      (fresh-AtPrompt (λ _. always))

abbrev failed : Shell
failed = (create_job cat_missing (fresh (λ _. never))).1

-- halt of a process that is stopped already, by its pid
abbrev halt_sleeper : Command
halt_sleeper = record { command = codes "halt"; tokens = some (codes "102") ∷ none ∷ [] }

abbrev running_shell : Shell
running_shell = shell_with one_job (λ _. always) []

halt_sleeper_run :
    send_signal halt_sleeper (codes "halt") sigstop running_shell
    ≡ (ok tt, record running_shell { chld_blocked = true })
unfolding send_signal cs.Base.Number.strtol get_job_with_process cs.Stsh.JobList.first_job
    cs.Stsh.Job.contains_process cs.Stsh.Builtins.first_token
halt_sleeper_run = refl

send_signal-mask_example :
    (n : ℕ) × (p : Process) × (count_tokens halt_sleeper.tokens 0 ≡ some n)
    × ((find_process n (codes "halt") halt_sleeper (record running_shell { chld_blocked = true })).0
        ≡ ok p)
    × (true ≡ already sigstop p.state)
send_signal-mask_example =
    send_signal-mask halt_sleeper (codes "halt") sigstop running_shell halt_sleeper_run

abbrev halt_unknown : Command
halt_unknown = record { command = codes "halt"; tokens = some (codes "7") ∷ none ∷ [] }

halt_unknown_run :
    send_signal halt_unknown (codes "halt") sigstop running_shell
    ≡ (throw (no_process_with_pid 7), record running_shell { chld_blocked = true })
unfolding send_signal cs.Base.Number.strtol get_job_with_process cs.Stsh.JobList.first_job
    cs.Stsh.Job.contains_process cs.Stsh.Builtins.first_token
halt_unknown_run = refl
