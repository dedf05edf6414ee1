-- ===== src/Stsh/Builtins/Send.antt =====
-- slay, halt and cont, and all builtins together, keep the job list valid.
use cs.Base.{◌++◌, ℕ, ◌≡◌, ◌∙◌, refl, Option, none, some, true, false, arith, Bool-cases, inl, inr}
use cs.Base.Text.{Text}
use cs.Base.Map.{ℕ_order}
use cs.Stsh.Process.{Command, Process}
use cs.Stsh.Job.{Job}
use cs.Stsh.JobList.{get_job, get_job_with_process}
use cs.Stsh.Shell.{
  Shell, M, run_checked, Signal, sigcont, sigkill, sigstop, kill, bind-keeps, continue_with,
  unblock_chld, block_chld, get_joblist, ◌>>=◌, ◌>>◌,
}
use cs.Stsh.Hoare.{Ensures, bind-Ensures}
use cs.Stsh.Builtins.{
  num_arguments, parse_number, first_token, send_signal, process_in, process_at, process_of_job,
  process_by_pid, process_by_index, find_process, signal_process, already, signal_usage, to_pid,
  Builtin, quit_builtin, exit_builtin, fg, bg, slay, halt, cont, jobs, run_builtin,
}
use cs.Stsh.Prompt.{AtPrompt, Valid, prompt_call, unmasked, same-Ensures}
use cs.Stsh.Builtins.Resume.{num_arguments-Ensures, resume-Ensures}

pub parse_number-state : (arg : Option Text) (u : Text) (s : Shell) → (parse_number arg u s).1 ≡ s
unfolding parse_number
parse_number-state none u s = refl
parse_number-state (some arg) u s = ground arith

process_in-state : (o : Option Job) (pid : ℕ) (s : Shell) → (process_in o pid s).1 ≡ s
unfolding process_in
process_in-state none pid s = refl
process_in-state (some j) pid s = refl

process_at-state :
    (num index : ℕ) (o : Option Process) (s : Shell) → (process_at num index o s).1 ≡ s
unfolding process_at
process_at-state num index none s = refl
process_at-state num index (some p) s = refl

process_of_job-state :
    (o : Option Job) (num index : ℕ) (s : Shell) → (process_of_job o num index s).1 ≡ s
unfolding process_of_job
process_of_job-state none num index s = refl
process_of_job-state (some j) num index s = process_at-state num index _ s

pub process_by_pid-state : (name : Text) (c : Command) (s : Shell) → (process_by_pid name c s).1 ≡ s
unfolding process_by_pid
process_by_pid-state name c s =
    bind-keeps (λ t. t ≡ s) (parse_number (first_token c) (signal_usage name) s)
      (λ n. do l ← get_joblist; process_in (get_job_with_process l (to_pid n)) (to_pid n))
      (parse_number-state (first_token c) (signal_usage name) s)
      (λ n t e. process_in-state (get_job_with_process t.joblist (to_pid n)) (to_pid n) t ∙ e)

process_by_index-state : (name : Text) (c : Command) (s : Shell) → (process_by_index name c s).1 ≡ s
unfolding process_by_index
process_by_index-state name c s =
    bind-keeps (λ t. t ≡ s) (parse_number (first_token c) (signal_usage name) s) (λ num. pick num)
      (parse_number-state (first_token c) (signal_usage name) s)
      λ num t e.
        bind-keeps (λ t. t ≡ s) (parse_number (first_token c) (signal_usage name) t)
          (λ index. of_job num index) (parse_number-state (first_token c) (signal_usage name) t ∙ e)
          λ index u f. process_of_job-state (get_job u.joblist num) num index u ∙ f
  where
    of_job : ℕ → ℕ → M Process
    of_job num index = do l ← get_joblist; process_of_job (get_job l num) num index

    pick : ℕ → M Process
    pick num = do index ← parse_number (first_token c) (signal_usage name); of_job num index

-- Looking a process up changes nothing in the shell, whatever it finds.
pub find_process-state :
    (n : ℕ) (name : Text) (c : Command) (s : Shell) → (find_process n name c s).1 ≡ s
unfolding find_process
find_process-state n name c s =
    ground (arith, process_by_pid-state name c s, process_by_index-state name c s)

signal_process-Ensures :
    (sig : Signal) (p : Process) (s : Shell)
    → AtPrompt s
    → Ensures Valid (λ _. AtPrompt) (signal_process sig p s)
unfolding signal_process
signal_process-Ensures sig p s v = elim (Bool-cases (already sig p.state)) [
  | inl h ↦ rw h v
  | inr h ↦ rw h sent
]
  where
    sent :
        Ensures Valid
          (λ _. AtPrompt)
          (continue_with (run_checked (kill p.pid sig) s) (λ _. unblock_chld))
    sent =
        bind-Ensures Valid (λ _. AtPrompt) (λ _. AtPrompt) (run_checked (kill p.pid sig) s)
          (λ _. unblock_chld) (prompt_call (kill p.pid sig) s v) (λ _ t x. unmasked t false x)

-- slay, halt and cont
pub send_signal-Ensures :
    (c : Command) (name : Text) (sig : Signal) (s : Shell)
    → AtPrompt s
    → Ensures Valid (λ _. AtPrompt) (send_signal c name sig s)
unfolding send_signal
send_signal-Ensures c name sig s v =
    bind-Ensures Valid (λ _. AtPrompt) (λ _. AtPrompt) (num_arguments c s) (λ n. go n)
      (num_arguments-Ensures c s v)
      λ n t p.
        let u : Shell = record t { chld_blocked = true } in
        bind-Ensures Valid (λ _. AtPrompt) (λ _. AtPrompt) (find_process n name c u)
          (λ q. signal_process sig q)
          (same-Ensures u (find_process n name c u) (find_process-state n name c u)
            (unmasked t true p))
          λ q w x. signal_process-Ensures sig q w x
  where
    go : ℕ → M (Unit {0})
    go n = do block_chld; q ← find_process n name c; signal_process sig q

print-Ensures :
    (text : Text) (s : Shell) → AtPrompt s → AtPrompt (record s { printed = s.printed ++ text })
print-Ensures text s v = record { valid = v.valid; no_foreground = v.no_foreground }

-- Each builtin, on any arguments and however its calls answer, keeps the job list valid, and
-- leaves nothing in the foreground when it ends normally.
pub run_builtin-Ensures :
    (b : Builtin) (c : Command) (s : Shell)
    → AtPrompt s
    → Ensures Valid (λ _. AtPrompt) (run_builtin b c s)
unfolding run_builtin
run_builtin-Ensures quit_builtin c s v = v.valid
run_builtin-Ensures exit_builtin c s v = v.valid
run_builtin-Ensures fg c s v = resume-Ensures c _ true s v
run_builtin-Ensures bg c s v = resume-Ensures c _ false s v
run_builtin-Ensures slay c s v = send_signal-Ensures c _ sigkill s v
run_builtin-Ensures halt c s v = send_signal-Ensures c _ sigstop s v
run_builtin-Ensures cont c s v = send_signal-Ensures c _ sigcont s v
run_builtin-Ensures jobs c s v = print-Ensures _ s v
