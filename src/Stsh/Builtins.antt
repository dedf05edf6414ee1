-- ===== src/Stsh/Builtins.antt =====
-- The builtin commands of assign4/stsh.cc, with parseNumber of stsh-parse-utils.cc.
pub mod Resume
pub mod Send
pub mod Masking
use cs.Base.{
  ℕ, suc, ◌%◌, ◌++◌, List, [], ◌∷◌, Option, none, some, Bool, true, false, not, ◌&&◌, ◌||◌, ◌==◌,
  leb, if◌then◌else◌, any, get_elem?, is_empty, length,
}
use cs.Base.Text.{Text, codes, eq_text}
use cs.Base.Number.{strtol, show_nat, long_max}
use cs.Stsh.Process.{Command, Process, ProcessState, waiting, running, stopped}
use cs.Stsh.Job.{
  Job, JobState, foreground, background, set_job_state, is_running, group_id, get_process,
}
use cs.Stsh.JobList.{JobList, get_job, put_job, get_job_with_process, show_jobs}
use cs.Stsh.Shell.{
  Signal, sigkill, sigstop, sigcont, killpg, kill, Error, tokens_unterminated, unsupported_builtin,
  usage, no_such_job, no_process_with_pid, no_job_with_id, no_process_at_index, Shell, M, ok, exit,
  ◌>>=◌, ◌>>◌, return, raise, when, run_checked, block_chld, unblock_chld, get_joblist, put_joblist,
  print,
}
use cs.Stsh.Signals.{wait_for_foreground}

-- numArguments: the tokens before the NULL; the array has one slot more than kMaxArguments
unfoldable pub count_tokens : List (Option Text) → ℕ → Option ℕ
count_tokens [] n = none
count_tokens (none ∷ ts) n = some n
count_tokens (some t ∷ ts) n = count_tokens ts (suc n)

unfoldable pub num_arguments : Command → M ℕ
unfolding count_tokens
num_arguments c s = elim (count_tokens c.tokens 0) [
  | none ↦ raise tokens_unterminated s
  | some n ↦ return n s
]

-- parseNumber of a token that may be NULL
unfoldable pub parse_number : Option Text → Text → M ℕ
parse_number none u = raise (usage u)
parse_number (some arg) u =
    let p = strtol 10 arg in
    if not (is_empty p.rest) || (p.negative && not (p.value == 0))
    then raise (usage u)
    else return p.value

unfoldable pub first_token : Command → Option Text
first_token c = elim c.tokens [ [] ↦ none | t ∷ ts ↦ t ]

unfoldable pub resume_usage : Text → Text
resume_usage name = codes "Usage: " ++ (name ++ codes " <jobid>.")

-- resume after the job is found
unfoldable pub resume_job : Job → Bool → M (Unit {0})
unfolding wait_for_foreground run_checked
resume_job j in_foreground = do
  l ← get_joblist
  put_joblist (put_job l (set_job_state j (if in_foreground then foreground else background)))
  when (not (any is_running j.processes)) (run_checked (killpg (group_id j) sigcont))
  when in_foreground wait_for_foreground
  unblock_chld

unfoldable pub resume_found : Option Job → Text → ℕ → Bool → M (Unit {0})
unfolding resume_job
resume_found none name num in_foreground = raise (no_such_job name num)
resume_found (some j) name num in_foreground = resume_job j in_foreground

-- resume: the builtins fg and bg
unfoldable pub resume : Command → Text → Bool → M (Unit {0})
unfolding num_arguments parse_number resume_found
resume c name in_foreground = do
  n ← num_arguments c
  when (not (n == 1)) (raise (usage (resume_usage name)))
  num ← parse_number (first_token c) (resume_usage name)
  block_chld
  l ← get_joblist
  resume_found (get_job l num) name num in_foreground

unfoldable pub signal_usage : Text → Text
signal_usage name = codes "Usage: " ++ (name ++ codes " <jobid> <index> | <pid>.")

-- A size_t put into a pid_t: the low 32 bits. Process ids are positive, so a pattern with the top
-- bit set, a negative pid_t, is no process's id.
abbrev pub to_pid : ℕ → ℕ
to_pid n = n % 4294967296

-- The process of that pid in the job, or the sentinel `nprocess`, which is static and so zeroed.
unfoldable pub process_or_sentinel : Option Process → Process
process_or_sentinel none = record { pid = 0; tokens = []; state = waiting }
process_or_sentinel (some p) = p

unfoldable pub process_in : Option Job → ℕ → M Process
unfolding process_or_sentinel get_process
process_in none pid = raise (no_process_with_pid pid)
process_in (some j) pid = return (process_or_sentinel (get_process j pid))

-- sendSignal given a pid
unfoldable pub process_by_pid : Text → Command → M Process
unfolding parse_number process_in
process_by_pid name c = do
  n ← parse_number (first_token c) (signal_usage name)
  l ← get_joblist
  process_in (get_job_with_process l (to_pid n)) (to_pid n)

unfoldable pub process_at : ℕ → ℕ → Option Process → M Process
process_at num index none = raise (no_process_at_index num index)
process_at num index (some p) = return p

unfoldable pub process_of_job : Option Job → ℕ → ℕ → M Process
unfolding process_at
process_of_job none num index = raise (no_job_with_id num)
process_of_job (some j) num index = process_at num index (get_elem? j.processes index)

-- sendSignal given a job and an index: the source reads both from the first token
unfoldable pub process_by_index : Text → Command → M Process
unfolding parse_number process_of_job
process_by_index name c = do
  num ← parse_number (first_token c) (signal_usage name)
  index ← parse_number (first_token c) (signal_usage name)
  l ← get_joblist
  process_of_job (get_job l num) num index

unfoldable pub find_process : ℕ → Text → Command → M Process
unfolding process_by_pid process_by_index
find_process n name c =
    if n == 1
    then process_by_pid name c
    else (if n == 2 then process_by_index name c else raise (usage (signal_usage name)))

-- Is the process already what the signal would make of it?
unfoldable pub already : Signal → ProcessState → Bool
already sigstop stopped = true
already sigcont running = true
already sig state = false

-- The action of sendSignal; an early return leaves SIGCHLD blocked.
unfoldable pub signal_process : Signal → Process → M (Unit {0})
unfolding already run_checked
signal_process sig p =
    if already sig p.state then return tt else do run_checked (kill p.pid sig); unblock_chld

-- sendSignal: the builtins slay, halt and cont
unfoldable pub send_signal : Command → Text → Signal → M (Unit {0})
unfolding num_arguments find_process signal_process
send_signal c name sig = do
  n ← num_arguments c
  block_chld
  p ← find_process n name c
  signal_process sig p

-- kSupportedBuiltins, and what the switch of handleBuiltin does for each
pub data Builtin : Type 0 where
  quit_builtin exit_builtin fg bg slay halt cont jobs : Builtin

abbrev pub builtins : List (Text × Builtin)
builtins =
    (codes "quit", quit_builtin)
    ∷ (codes "exit", exit_builtin)
    ∷ (codes "fg", fg)
    ∷ (codes "bg", bg)
    ∷ (codes "slay", slay)
    ∷ (codes "halt", halt)
    ∷ (codes "cont", cont)
    ∷ (codes "jobs", jobs)
    ∷ []

unfoldable pub find_builtin : Text → List (Text × Builtin) → Option Builtin
find_builtin name [] = none
find_builtin name ((key, b) ∷ rest) = elim (eq_text key name) [
  | true ↦ some b
  | false ↦ find_builtin name rest
]

abbrev pub exit_shell : M (Unit {0})
exit_shell s = (exit, s)

unfoldable pub run_builtin : Builtin → Command → M (Unit {0})
unfolding resume send_signal
run_builtin quit_builtin c = exit_shell
run_builtin exit_builtin c = exit_shell
run_builtin fg c = resume c (codes "fg") true
run_builtin bg c = resume c (codes "bg") false
run_builtin slay c = send_signal c (codes "slay") sigkill
run_builtin halt c = send_signal c (codes "halt") sigstop
run_builtin cont c = send_signal c (codes "cont") sigcont
run_builtin jobs c = do l ← get_joblist; print (show_jobs l.jobs)

unfoldable pub run_found : Option Builtin → Command → M Bool
unfolding run_builtin
run_found none c = return false
run_found (some b) c = do run_builtin b c; return true

-- handleBuiltin, on the leading command of the pipeline
unfoldable pub handle_builtin : Command → M Bool
unfolding run_found find_builtin
handle_builtin c = run_found (find_builtin c.command builtins) c
