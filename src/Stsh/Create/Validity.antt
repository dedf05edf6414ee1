-- ===== src/Stsh/Create/Validity.antt =====
-- createJob keeps the job list valid on every path, and leaves no foreground job when it ends
-- normally.
use cs.Base.{
  ℕ, List, [], ◌∷◌, Bool, true, false, arith, Bool-cases, inl, inr, not, ◌==◌, ◌&&◌, is_empty,
}
use cs.Base.Map.{ℕ_order}
use cs.Stsh.Process.{Command}
use cs.Stsh.Job.{Job, JobState, new_job, group_id}
use cs.Stsh.JobList.{add_job}
use cs.Stsh.JobList.Invariant.{IsValid}
use cs.Stsh.Shell.{
  Call, pipe, close, tcsetpgrp, tcgetpgrp, open_read, open_write, Shell, Result, M, ok, throw, exit,
  blocked, raise, return, when, checked, checked_answer, run_checked, block_chld, unblock_chld,
  ◌>>=◌, ◌>>◌,
}
use cs.Stsh.Signals.{wait_for_foreground}
use cs.Stsh.Hoare.{Ensures, bind-Ensures, weaken-Ensures, when-Ensures}
use cs.Stsh.Prompt.{
  AtPrompt, Valid, prompt_call, count-no_foreground, run_checked-Ensures,
  wait_for_foreground-Ensures, unmasked,
}
use cs.Stsh.Create.{
  Pipeline, start_process, close_and_rethrow, open_output, start_all, give_terminal, open_input,
  original_group, create_job, job_state_of, stdin_fileno, stdout_fileno,
}
use cs.Stsh.Create.Holds.{
  Holds, Held, add_job-Holds, start_process-Ensures, checked_answer-Ensures, checked-Ensures,
}

-- A call in the middle: the job stays held.
Held-call :
    {st : JobState} (job : Job) (c : Call) (s : Shell)
    → Held st job s
    → Ensures Valid (λ _. Held st job) (run_checked c s)
Held-call {st} job c s h =
    weaken-Ensures (Held st job) Valid (λ _. Held st job) (run_checked c s) (λ _ q. q.valid)
      (run_checked-Ensures (Holds st job) c s h)

Held-when :
    {st : JobState} (job : Job) (b : Bool) (c : Call) (s : Shell)
    → Held st job s
    → Ensures Valid (λ _. Held st job) (when b (run_checked c) s)
Held-when {st} job b c s h =
    when-Ensures Valid (λ _. Held st job) b (run_checked c) s h (λ _. Held-call job c s h)

Valid-call : (c : Call) (s : Shell) → Valid s → Ensures Valid (λ _. Valid) (run_checked c s)
Valid-call c s v = run_checked-Ensures IsValid c s v

Held-value :
    {st : JobState} (job : Job) (c : Call) (s : Shell)
    → Held st job s
    → Ensures Valid (λ _. Held st job) (checked c s)
Held-value {st} job c s h =
    weaken-Ensures (Held st job) Valid (λ _. Held st job) (checked c s) (λ _ q. q.valid)
      (checked-Ensures (Holds st job) c s h)

close_and_rethrow-Ensures :
    (st : JobState) (prev output : ℕ) (r : Result Job × Shell)
    → Ensures Valid (λ j. Held st j) r
    → Ensures Valid (λ j. Held st j) (close_and_rethrow prev output r)
unfolding close_and_rethrow
close_and_rethrow-Ensures st prev output (ok j, s) h = h
close_and_rethrow-Ensures st prev output (throw e, s) h =
    bind-Ensures Valid (λ _. Valid) (λ j. Held st j) (run_checked (close prev) s)
      (λ _. run_checked (close output) >> raise e) (Valid-call (close prev) s h)
      λ _ t v.
        bind-Ensures Valid (λ _. Valid) (λ j. Held st j) (run_checked (close output) t)
          (λ _. raise e) (Valid-call (close output) t v) λ _ u w. w
close_and_rethrow-Ensures st prev output (exit, s) h = h
close_and_rethrow-Ensures st prev output (blocked, s) h = h

open_output-Ensures :
    {st : JobState} (job : Job) (p : Pipeline) (cs : List Command) (prev : ℕ) (s : Shell)
    → Held st job s
    → Ensures Valid (λ _. Held st job) (open_output p cs prev s)
unfolding open_output
open_output-Ensures {st} job p (next ∷ rest) prev s h =
    bind-Ensures Valid (λ _. Held st job) (λ _. Held st job) (checked_answer pipe s)
      (λ fds. return (fds.second, fds.value))
      (weaken-Ensures (Held st job) Valid (λ _. Held st job) (checked_answer pipe s)
        (λ _ q. q.valid) (checked_answer-Ensures (Holds st job) pipe s h))
      (λ _ t q. q)
open_output-Ensures {st} job p [] prev s h = elim (Bool-cases (is_empty p.output)) [
  | inl e ↦ rw e h
  | inr e ↦ rw e (
      bind-Ensures Valid (λ _. Held st job) (λ _. Held st job) (checked (open_write p.output) s)
        (λ fd. return (fd, prev))
        (weaken-Ensures (Held st job) Valid (λ _. Held st job) (checked (open_write p.output) s)
          (λ _ q. q.valid) (checked-Ensures (Holds st job) (open_write p.output) s h))
        (λ _ t q. q))
]

start_all-Ensures :
    {st : JobState} (p : Pipeline) (cs : List Command) (prev : ℕ) (job : Job) (s : Shell)
    → Held st job s
    → Ensures Valid (λ j. Held st j) (start_all p cs prev job s)
unfolding start_all
start_all-Ensures {st} p [] prev job s h = h
start_all-Ensures {st} p (c ∷ cs) prev job s h =
    bind-Ensures Valid (λ _. Held st job) (λ j. Held st j) (open_output p cs prev s)
      (λ fds. started fds) (open_output-Ensures job p cs prev s h)
      λ fds t q.
        bind-Ensures Valid (λ j. Held st j) (λ j. Held st j)
          (close_and_rethrow prev fds.0 (start_process job c t)) (λ j. closed fds j)
          (close_and_rethrow-Ensures st prev fds.0 (start_process job c t)
            (start_process-Ensures job c t q))
          λ j u r.
            bind-Ensures Valid (λ _. Held st j) (λ i. Held st i)
              (when (not (prev == stdin_fileno)) (run_checked (close prev)) u)
              (λ _. close_output fds j) (Held-when j (not (prev == stdin_fileno)) (close prev) u r)
              λ _ w x.
                bind-Ensures Valid (λ _. Held st j) (λ i. Held st i)
                  (when (not (fds.0 == stdout_fileno)) (run_checked (close fds.0)) w)
                  (λ _. start_all p cs fds.1 j)
                  (Held-when j (not (fds.0 == stdout_fileno)) (close fds.0) w x)
                  λ _ y z. start_all-Ensures p cs fds.1 j y z
  where
    close_output : ℕ × ℕ → Job → M Job
    close_output fds j = do
      when (not (fds.0 == stdout_fileno)) (run_checked (close fds.0))
      start_all p cs fds.1 j

    closed : ℕ × ℕ → Job → M Job
    closed fds j = do
      when (not (prev == stdin_fileno)) (run_checked (close prev))
      close_output fds j

    started : ℕ × ℕ → M Job
    started fds = do j ← λ u. close_and_rethrow prev fds.0 (start_process job c u); closed fds j

-- What is printed or done to the terminal at the end; the wait leaves nothing in the foreground.
give_terminal-Ensures :
    (p : Pipeline) (input_fd orig_pgrp : ℕ) (job : Job) (s : Shell)
    → Held (job_state_of p) job s
    → Ensures Valid (λ _. AtPrompt) (give_terminal p input_fd orig_pgrp job s)
unfolding give_terminal
give_terminal-Ensures p input_fd orig_pgrp job s h = elim (Bool-cases p.background) [
  | inl b ↦ rw b (record {
    valid = h.valid;
    no_foreground = count-no_foreground s.joblist (ground (arith, h.counted, h.in_state));
  })
  | inr b ↦ elim (Bool-cases (is_empty p.input)) [
    | inr e ↦ rw (b, e) (wait_for_foreground-Ensures s h.valid)
    | inl e ↦
        rw (b, e)
          (bind-Ensures Valid (λ _. Valid) (λ _. AtPrompt)
            (run_checked (tcsetpgrp input_fd (group_id job)) s) (λ _. waiting)
            (Valid-call (tcsetpgrp input_fd (group_id job)) s h.valid)
            λ _ t v.
              bind-Ensures Valid (λ _. AtPrompt) (λ _. AtPrompt) (wait_for_foreground t)
                (λ _. run_checked (tcsetpgrp input_fd orig_pgrp)) (wait_for_foreground-Ensures t v)
                λ _ u x. prompt_call (tcsetpgrp input_fd orig_pgrp) u x)
  ]
]
  where
    waiting : M (Unit {0})
    waiting = do wait_for_foreground; run_checked (tcsetpgrp input_fd orig_pgrp)

open_input-Ensures :
    {st : JobState} (job : Job) (p : Pipeline) (s : Shell)
    → Held st job s
    → Ensures Valid (λ _. Held st job) (open_input p s)
unfolding open_input
open_input-Ensures {st} job p s h = elim (Bool-cases (is_empty p.input)) [
  | inl e ↦ rw e h
  | inr e ↦ rw e (Held-value job (open_read p.input) s h)
]

original_group-Ensures :
    {st : JobState} (job : Job) (p : Pipeline) (input_fd : ℕ) (s : Shell)
    → Held st job s
    → Ensures Valid (λ _. Held st job) (original_group p input_fd s)
unfolding original_group
original_group-Ensures {st} job p input_fd s h =
    elim (Bool-cases (is_empty p.input && not p.background)) [
      | inl e ↦ rw e (Held-value job (tcgetpgrp input_fd) s h)
      | inr e ↦ rw e h
    ]

-- createJob from the prompt, with any pipeline and any answers: every path keeps the job list
-- valid, and the normal one leaves nothing in the foreground.
pub create_job-Ensures :
    (p : Pipeline) (s : Shell) → AtPrompt s → Ensures Valid (λ _. AtPrompt) (create_job p s)
unfolding create_job
create_job-Ensures p s v =
    bind-Ensures Valid (λ _. Held st job) (λ _. AtPrompt) (open_input p t) (λ fd. go fd)
      (open_input-Ensures job p t held)
      λ fd u h.
        let u' : Shell = record u { chld_blocked = true } in
        bind-Ensures Valid (λ _. Held st job) (λ _. AtPrompt) (original_group p fd u')
          (λ pgrp. start fd pgrp) (original_group-Ensures job p fd u' h)
          λ pgrp w x.
            bind-Ensures Valid (λ j. Held st j) (λ _. AtPrompt) (start_all p p.commands fd job w)
              (λ j. finish fd pgrp j) (start_all-Ensures p p.commands fd job w x)
              λ j y z.
                bind-Ensures Valid (λ _. AtPrompt) (λ _. AtPrompt) (give_terminal p fd pgrp j y)
                  (λ _. unblock_chld) (give_terminal-Ensures p fd pgrp j y z)
                  λ _ a b. unmasked a false b
  where
    st : JobState
    st = job_state_of p

    job : Job
    job = new_job s.joblist.next st

    t : Shell
    t = record s { joblist = add_job s.joblist st }

    held : Held st job t
    held = add_job-Holds s st v

    finish : ℕ → ℕ → Job → M (Unit {0})
    finish fd pgrp j = do give_terminal p fd pgrp j; unblock_chld

    start : ℕ → ℕ → M (Unit {0})
    start fd pgrp = do j ← start_all p p.commands fd job; finish fd pgrp j

    go : ℕ → M (Unit {0})
    go fd = do block_chld; pgrp ← original_group p fd; start fd pgrp
