-- ===== src/Stsh/JobList/Update.antt =====
-- updateJobListHelper and synchronize: what one reported change of a process does to the list.
use cs.Base.{
  sym, ap, ◌∙◌, Bool, not, ◌||◌, Bool-cases, ℕ, ◌≤◌, ◌<◌, ◌≡◌, refl, Option, none, some, true,
  arith, Option-cases, inl, inr, ◌==◌, if◌then◌else◌, any, all,
}
use cs.Base.Map.{lookup, insert, ℕ_order, lookup-insert, lookup-erase}
use cs.Stsh.Process.{ProcessState}
use cs.Stsh.Job.{Job, is_foreground, foreground, is_running, is_terminated, contains_process}
use cs.Stsh.JobList.{JobList, put_job, settle, synchronize, update_job, get_job_with_process}
use cs.Stsh.JobList.Keyed.{Keyed, lookup-first_job}
use cs.Stsh.JobList.Foreground.{foreground_count}
use cs.Stsh.JobList.Invariant.{
  IsValid, update_job_known, update_job_unknown, next-synchronize, synchronize-Keyed,
  foreground_count-synchronize, changed,
}

pub found_job :
    (l : JobList) (pid : ℕ) (j : Job)
    → Keyed 1 l.next l.jobs
    → get_job_with_process l pid ≡ some j
    → (lookup j.num l.jobs ≡ some j)
      × (1 ≤ j.num)
      × (j.num < l.next)
      × (contains_process j pid ≡ true)
unfolding get_job_with_process
found_job l pid j v e = lookup-first_job (λ i. contains_process i pid) 1 l.next l.jobs j v e

synchronize-changed-IsValid :
    (l : JobList) (pid : ℕ) (state : ProcessState) (j : Job)
    → IsValid l
    → get_job_with_process l pid ≡ some j
    → IsValid (synchronize l (changed l pid state j))
synchronize-changed-IsValid l pid state j v e =
    let place = found_job l pid j v.keyed e in
    let j' = changed l pid state j in
    record {
      keyed = rw next-synchronize (synchronize-Keyed l j j' v.keyed place.1 place.2);
      positive = rw next-synchronize v.positive;
      one_foreground =
          omega (arith, foreground_count-synchronize l j j' v.keyed place.0 refl, v.one_foreground);
    }

-- A change of state of any process, known to the list or not, keeps the list valid.
pub update_job-IsValid :
    (l : JobList) (pid : ℕ) (state : ProcessState) → IsValid l → IsValid (update_job l pid state)
update_job-IsValid l pid state v = elim (Option-cases (get_job_with_process l pid)) [
  | inl e ↦ rw (update_job_unknown l pid state e) v
  | inr (j, e) ↦
      rw (update_job_known l pid state j e) (synchronize-changed-IsValid l pid state j v e)
]

pub foreground_count-update_job :
    (l : JobList) (pid : ℕ) (state : ProcessState)
    → IsValid l
    → foreground_count (update_job l pid state).jobs ≤ foreground_count l.jobs
foreground_count-update_job l pid state v = elim (Option-cases (get_job_with_process l pid)) [
  | inl e ↦ rw (update_job_unknown l pid state e) (omega arith)
  | inr (j, e) ↦ rw (update_job_known l pid state j e) (
      foreground_count-synchronize l j (changed l pid state j) v.keyed
        (found_job l pid j v.keyed e).0 refl)
]

-- The entry that synchronize leaves for a job: none once all its processes have terminated.
unfoldable pub synchronized : Job → Option Job
synchronized j = if all is_terminated j.processes then none else some (settle j)

pub lookup-synchronize :
    (l : JobList) (j : Job) (num : ℕ)
    → lookup num (synchronize l j).jobs
      ≡ (if j.num == num then synchronized j else lookup num l.jobs)
unfolding synchronize put_job settle synchronized
lookup-synchronize l j num = ground (
  arith,
  lookup-erase j.num num (insert j.num (settle j) l.jobs),
  lookup-insert j.num num (settle j) l.jobs,
)

-- What the update of a known process leaves under every number.
pub lookup-update_job :
    (l : JobList) (pid : ℕ) (state : ProcessState) (j : Job) (num : ℕ)
    → get_job_with_process l pid ≡ some j
    → lookup num (update_job l pid state).jobs
      ≡ (if j.num == num then synchronized (changed l pid state j) else lookup num l.jobs)
lookup-update_job l pid state j num e =
    rw (update_job_known l pid state j e) (lookup-synchronize l (changed l pid state j) num)

synchronized-foreground :
    (j : Job) {k : Job}
    → synchronized j ≡ some k
    → k.state ≡ foreground
    → (any is_running k.processes ≡ true) × (j.state ≡ foreground)
unfolding synchronized settle
synchronized-foreground j e f = ground arith

-- A job in the foreground has a running process.
abbrev pub runs_in_front : Job → Bool
runs_in_front j = not (is_foreground j) || any is_running j.processes

synchronized-runs_in_front : (j : Job) {k : Job} → synchronized j ≡ some k → runs_in_front k ≡ true
unfolding synchronized settle
synchronized-runs_in_front j e = ground (arith, e)

-- If every job of the list that is in the foreground has a running process, so it is for every job
-- of the list after a change of state of any process: a foreground job whose last running process
-- has stopped or ended is no longer in the foreground, or no longer in the list.
pub update_job-foreground :
    (l : JobList) (pid : ℕ) (state : ProcessState) (num : ℕ) {k : Job}
    → ((n : ℕ) (j : Job) → lookup n l.jobs ≡ some j → runs_in_front j ≡ true)
    → lookup num (update_job l pid state).jobs ≡ some k
    → runs_in_front k ≡ true
update_job-foreground l pid state num {k} before e =
    elim (Option-cases (get_job_with_process l pid)) [
      | inl absent ↦
          before num k
            (ap (λ x. lookup num x.jobs) (sym (update_job_unknown l pid state absent)) ∙ e)
      | inr (j, found) ↦
          let here = sym (lookup-update_job l pid state j num found) ∙ e in
          elim (Bool-cases (j.num == num)) [
            | inl same ↦
                synchronized-runs_in_front (changed l pid state j) {k = k} (rw same at here)
            | inr other ↦ before num k (rw other at here)
          ]
    ]
