-- ===== src/Stsh/JobList.antt =====
-- assign4/stsh-job-list.h and stsh-job-list.cc. A reference to a job is the number it is kept
-- under, and a write through the reference is a write at that number.
pub mod Keyed
pub mod Foreground
pub mod Invariant
pub mod Update
use cs.Base.{
  ℕ, suc, ◌++◌, List, [], ◌∷◌, Option, none, some, Bool, true, false, ◌==◌, not, if◌then◌else◌, any,
  all,
}
use cs.Base.Text.{Text}
use cs.Base.Map.{lookup, insert, erase, ℕ_order}
use cs.Stsh.Process.{ProcessState}
use cs.Stsh.Job.{
  Job, JobState, foreground, background, new_job, contains_process, set_job_state,
  set_process_state, is_running, is_terminated, is_foreground, show_job,
}

abbrev pub Jobs : Type 0
Jobs = List (ℕ × Job)

pub record JobList : Type 0 where
  pub next : ℕ
  pub jobs : Jobs

unfoldable pub no_jobs : JobList
no_jobs = record { next = 1; jobs = [] }

-- The job list with the new job, whose number is the old `next`.
unfoldable pub add_job : JobList → JobState → JobList
add_job l state = record { next = suc l.next; jobs = insert l.next (new_job l.next state) l.jobs }

-- The first job in the order of the numbers that passes the test; none is the sentinel `njob`.
unfoldable pub first_job : (Job → Bool) → Jobs → Option Job
first_job p [] = none
first_job p ((k, j) ∷ js) = elim (p j) [ true ↦ some j | false ↦ first_job p js ]

unfoldable pub get_foreground_job : JobList → Option Job
unfolding first_job
get_foreground_job l = first_job is_foreground l.jobs

unfoldable pub found : Option Job → Bool
found none = false
found (some j) = true

unfoldable pub has_foreground_job : JobList → Bool
unfolding found get_foreground_job
has_foreground_job l = found (get_foreground_job l)

unfoldable pub get_job : JobList → ℕ → Option Job
get_job l num = lookup num l.jobs

unfoldable pub contains_job : JobList → ℕ → Bool
unfolding found get_job
contains_job l num = found (get_job l num)

unfoldable pub get_job_with_process : JobList → ℕ → Option Job
unfolding first_job
get_job_with_process l pid = first_job (λ j. contains_process j pid) l.jobs

unfoldable pub list_contains_process : JobList → ℕ → Bool
unfolding found get_job_with_process
list_contains_process l pid = found (get_job_with_process l pid)

-- A write through a reference to the job kept under `num`.
unfoldable pub put_job : JobList → Job → JobList
put_job l j = record l { jobs = insert j.num j l.jobs }

-- What synchronize makes of the job itself.
unfoldable pub settle : Job → Job
settle j = if any is_running j.processes then j else set_job_state j background

unfoldable pub synchronize : JobList → Job → JobList
unfolding settle put_job
synchronize l j =
    let l' = put_job l (settle j) in
    if all is_terminated j.processes then record l' { jobs = erase j.num l'.jobs } else l'

unfoldable pub show_jobs : Jobs → Text
show_jobs [] = []
show_jobs ((k, j) ∷ js) = show_job j ++ (10 ∷ show_jobs js)

-- updateJobListHelper of stsh.cc
unfoldable pub update_job : JobList → ℕ → ProcessState → JobList
unfolding get_job_with_process synchronize
update_job l pid state = elim (get_job_with_process l pid) [
  | none ↦ l
  | some j ↦ synchronize l (record j { processes = set_process_state j.processes pid state })
]
