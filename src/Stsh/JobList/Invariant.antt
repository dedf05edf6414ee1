-- ===== src/Stsh/JobList/Invariant.antt =====
-- The invariant of the job list and what a reported change of one process does to it.
use cs.Base.{
  ℕ, suc, ◌+◌, ◌≤◌, ◌<◌, ◌≡◌, refl, [], ◌∷◌, none, some, false, arith, Bool-cases, inl, inr, all,
}
use cs.Base.Map.{lookup, insert, ℕ_order}
use cs.Stsh.Process.{ProcessState}
use cs.Stsh.Job.{Job, JobState, foreground, background, new_job, is_terminated, set_process_state}
use cs.Stsh.JobList.{
  Jobs, JobList, no_jobs, has_foreground_job, add_job, put_job, settle, synchronize, update_job,
  get_job_with_process,
}
use cs.Stsh.JobList.Keyed.{Keyed, Keyed-insert, Keyed-erase, Keyed-weaken}
use cs.Stsh.JobList.Foreground.{
  weight, foreground_count, foreground_count-insert_new, foreground_count-insert_old,
  foreground_count-erase, has_foreground_job-count,
}

-- Numbers are positive, rise along the map, and lie below `next`; one job at most is in the
-- foreground.
pub record IsValid (l : JobList) : Type 0 where
  pub keyed : Keyed 1 l.next l.jobs
  pub positive : 1 ≤ l.next
  pub one_foreground : foreground_count l.jobs ≤ 1

pub no_jobs-IsValid : IsValid no_jobs
unfolding no_jobs foreground_count
no_jobs-IsValid = ground arith

lookup_above : (lo hi num : ℕ) (js : Jobs) → hi ≤ num → Keyed lo hi js → lookup num js ≡ none
unfolding lookup
lookup_above lo hi num [] h v = refl
lookup_above lo hi num ((k, i) ∷ js) h v = ground (arith, lookup_above (suc k) hi num js)

pub add_job-Keyed :
    (l : JobList) (state : JobState)
    → 1 ≤ l.next
    → Keyed 1 l.next l.jobs
    → Keyed 1 (suc l.next) (add_job l state).jobs
unfolding add_job
add_job-Keyed l state p v =
    Keyed-insert 1 (suc l.next) (new_job l.next state) l.jobs p (omega arith)
      (Keyed-weaken 1 1 l.next (suc l.next) l.jobs (omega arith) (omega arith) v)

pub foreground_count-add_job :
    (l : JobList) (state : JobState)
    → Keyed 1 l.next l.jobs
    → foreground_count (add_job l state).jobs
      ≡ weight (new_job l.next state) + foreground_count l.jobs
unfolding add_job
foreground_count-add_job l state v =
    foreground_count-insert_new 1 l.next (new_job l.next state) l.jobs v
      (lookup_above 1 l.next l.next l.jobs (omega arith) v)

pub add_background-IsValid : (l : JobList) → IsValid l → IsValid (add_job l background)
unfolding add_job
add_background-IsValid l v = record {
  keyed = unfold add_job in add_job-Keyed l background v.positive v.keyed;
  positive = omega arith;
  one_foreground = omega (arith, foreground_count-add_job l background v.keyed, v.one_foreground);
}

pub add_foreground-IsValid :
    (l : JobList) → has_foreground_job l ≡ false → IsValid l → IsValid (add_job l foreground)
unfolding add_job
add_foreground-IsValid l free v = record {
  keyed = unfold add_job in add_job-Keyed l foreground v.positive v.keyed;
  positive = omega arith;
  one_foreground =
      ground (arith, foreground_count-add_job l foreground v.keyed, (has_foreground_job-count l).1);
}

weight-settle : (j : Job) → weight (settle j) ≤ weight j
unfolding settle
weight-settle j = ground arith

num-settle : (j : Job) → (settle j).num ≡ j.num
unfolding settle
num-settle j = ground arith

module _ (l : JobList) (pid : ℕ) (state : ProcessState) where
  -- The job with the process in its new state.
  abbrev pub changed : Job → Job
  changed j = record j { processes = set_process_state j.processes pid state }

  pub update_job_known :
      (j : Job)
      → get_job_with_process l pid ≡ some j
      → update_job l pid state ≡ synchronize l (changed j)
  unfolding update_job
  update_job_known j e = rw (e, update_job)

  pub update_job_unknown : get_job_with_process l pid ≡ none → update_job l pid state ≡ l
  unfolding update_job
  update_job_unknown e = rw (e, update_job)

pub next-synchronize : (l : JobList) (j : Job) → (synchronize l j).next ≡ l.next
unfolding synchronize put_job
next-synchronize l j = ground arith

pub synchronize-Keyed :
    (l : JobList) (i j : Job)
    → Keyed 1 l.next l.jobs
    → 1 ≤ j.num
    → j.num < l.next
    → Keyed 1 l.next (synchronize l j).jobs
unfolding synchronize put_job
synchronize-Keyed l i j v a b = elim (Bool-cases (all is_terminated j.processes)) [
  | inl h ↦ rw h (Keyed-erase 1 l.next j.num _ kept)
  | inr h ↦ rw h kept
]
  where
    kept : Keyed 1 l.next (insert (settle j).num (settle j) l.jobs)
    kept = Keyed-insert 1 l.next (settle j) l.jobs (rw (num-settle j) a) (rw (num-settle j) b) v

pub foreground_count-synchronize :
    (l : JobList) (i j : Job)
    → Keyed 1 l.next l.jobs
    → lookup j.num l.jobs ≡ some i
    → i.state ≡ j.state
    → foreground_count (synchronize l j).jobs ≤ foreground_count l.jobs
unfolding synchronize put_job
foreground_count-synchronize l i j v e s = ground (
  arith,
  foreground_count-insert_old 1 l.next i (settle j) l.jobs v,
  foreground_count-erase j.num (insert (settle j).num (settle j) l.jobs),
  weight-settle j,
  num-settle j,
)
