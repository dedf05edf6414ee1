-- ===== src/Stsh/Create/Holds.antt =====
-- The job that createJob builds stays in the list as its processes are started.
use cs.Base.{ℕ, ◌≡◌, refl, List, [], ◌∷◌, some, arith, ◌++◌}
use cs.Base.Map.{lookup, ℕ_order, lookup-insert}
use cs.Stsh.Process.{Command, Process, new_process, running}
use cs.Stsh.Job.{Job, JobState, foreground, background, new_job, add_process, group_id}
use cs.Stsh.JobList.{JobList, add_job, put_job}
use cs.Stsh.JobList.Keyed.{Keyed-insert}
use cs.Stsh.JobList.Foreground.{weight, foreground_count, foreground_count-insert_old}
use cs.Stsh.JobList.Invariant.{
  IsValid, foreground_count-add_job, add_background-IsValid, add_foreground-IsValid,
}
use cs.Stsh.Shell.{
  Call, fork, setpgid, Shell, M, return, checked, checked_answer, run_checked, get_joblist,
  put_joblist, ◌>>=◌, ◌>>◌,
}
use cs.Stsh.Hoare.{Ensures, bind-Ensures, final-Ensures, weaken-Ensures}
use cs.Stsh.Prompt.{AtPrompt, Valid, no_foreground-count, lookup-Keyed, run_checked-Ensures}
use cs.Stsh.Create.{start_process}

-- The list is valid, holds this job under its number, and has no foreground job but perhaps it.
pub record Holds (st : JobState) (job : Job) (l : JobList) : Type 0 where
  pub valid : IsValid l
  pub in_state : job.state ≡ st
  pub kept : lookup job.num l.jobs ≡ some job
  pub counted : foreground_count l.jobs ≡ weight job

pub add_job-Holds :
    (s : Shell) (state : JobState)
    → AtPrompt s
    → Holds state (new_job s.joblist.next state) (add_job s.joblist state)
add_job-Holds s state v = record {
  in_state = refl;
  valid = valid_by state;
  kept = found;
  counted = omega (
    arith,
    foreground_count-add_job s.joblist state v.valid.keyed,
    no_foreground-count s.joblist v.no_foreground,
  );
}
  where
    valid_by : (x : JobState) → IsValid (add_job s.joblist x)
    valid_by foreground = add_foreground-IsValid s.joblist v.no_foreground v.valid
    valid_by background = add_background-IsValid s.joblist v.valid

    found :
        lookup s.joblist.next (add_job s.joblist state).jobs ≡ some (new_job s.joblist.next state)
    found =
        unfold add_job in
        ground (
          arith,
          lookup-insert s.joblist.next s.joblist.next (new_job s.joblist.next state) s.joblist.jobs,
        )

-- Writing the job back with more processes.
put_job-Holds :
    {st : JobState} (l : JobList) (job : Job) (ps : List Process)
    → Holds st job l
    → Holds st (record job { processes = ps }) (put_job l (record job { processes = ps }))
unfolding put_job
put_job-Holds {st} l job ps h =
    let j : Job = record job { processes = ps } in
    let place = lookup-Keyed 1 l.next job.num l.jobs job h.valid.keyed h.kept in
    let count = foreground_count-insert_old 1 l.next job j l.jobs h.valid.keyed h.kept in
    record {
      in_state = h.in_state;
      valid = record {
        keyed = Keyed-insert 1 l.next j l.jobs place.1 place.2 h.valid.keyed;
        positive = h.valid.positive;
        one_foreground = omega (arith, count, h.valid.one_foreground);
      };
      kept = ground (arith, lookup-insert job.num job.num j l.jobs);
      counted = omega (arith, count, h.counted);
    }

abbrev pub Held : JobState → Job → Shell → Type 0
Held st job s = Holds st job s.joblist

checked_answer-joblist : (c : Call) (s : Shell) → (checked_answer c s).1.joblist ≡ s.joblist
unfolding checked_answer
checked_answer-joblist c s = ground arith

-- Any value-returning call keeps what holds of the job list.
pub checked_answer-Ensures {ℓ} :
    (P : JobList → Type ℓ) (c : Call) (s : Shell)
    → P s.joblist
    → Ensures (λ t. P t.joblist) (λ _ t. P t.joblist) (checked_answer c s)
checked_answer-Ensures P c s p =
    final-Ensures (λ t. P t.joblist) (checked_answer c s) (rw (checked_answer-joblist c s) p)

pub checked-Ensures {ℓ} :
    (P : JobList → Type ℓ) (c : Call) (s : Shell)
    → P s.joblist
    → Ensures (λ t. P t.joblist) (λ _ t. P t.joblist) (checked c s)
unfolding checked
checked-Ensures P c s p =
    bind-Ensures (λ t. P t.joblist) (λ _ t. P t.joblist) (λ _ t. P t.joblist) (checked_answer c s)
      (λ a. return a.value) (checked_answer-Ensures P c s p) (λ a t q. q)

pub start_process-Ensures :
    {st : JobState} (job : Job) (c : Command) (s : Shell)
    → Held st job s
    → Ensures Valid (λ j. Held st j) (start_process job c s)
unfolding start_process add_process
start_process-Ensures {st} job c s h =
    bind-Ensures Valid (λ _. Held st job) (λ j. Held st j) (checked fork s) (λ child. go child)
      (weaken-Ensures (Held st job) Valid (λ _. Held st job) (checked fork s) (λ _ q. q.valid)
        (checked-Ensures (Holds st job) fork s h))
      λ child t q.
        let j : Job = record job {
          processes = job.processes ++ (new_process child c running ∷ []);
        } in
        let u : Shell = record t { joblist = put_job t.joblist j } in
        let held : Held st j u = put_job-Holds t.joblist job j.processes q in
        bind-Ensures Valid (λ _. Held st j) (λ i. Held st i)
          (run_checked (setpgid child (group_id j)) u) (λ _. return j)
          (weaken-Ensures (Held st j) Valid (λ _. Held st j)
            (run_checked (setpgid child (group_id j)) u) (λ _ x. x.valid)
            (run_checked-Ensures (Holds st j) (setpgid child (group_id j)) u held))
          (λ _ w x. x)
  where
    go : ℕ → M Job
    go child = do
      let started = add_process job (new_process child c running)
      l ← get_joblist
      put_joblist (put_job l started)
      run_checked (setpgid child (group_id started))
      return started
