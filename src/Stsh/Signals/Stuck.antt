-- ===== src/Stsh/Signals/Stuck.antt =====
-- A foreground job with no process: no signal takes it away, so waiting for it never ends.
use cs.Base.{
  ℕ, ◌<◌, ◌≡◌, List, [], ◌∷◌, some, true, false, arith, Bool-cases, Option-cases, inl, inr, ◌==◌,
  ==_iff,
}
use cs.Base.Map.{lookup, ℕ_order}
use cs.Stsh.Process.{ProcessState, running, stopped, terminated}
use cs.Stsh.Job.{Job, foreground, contains_process}
use cs.Stsh.JobList.{Jobs, JobList, update_job, has_foreground_job, get_job_with_process}
use cs.Stsh.JobList.Foreground.{foreground_count, has_foreground_job-count}
use cs.Stsh.JobList.Invariant.{IsValid, update_job_unknown}
use cs.Stsh.JobList.Update.{update_job-IsValid, lookup-update_job, found_job}
use cs.Stsh.Shell.{
  WaitStatus, exited, signaled, unknown, Delivery, child_changed, keyboard, Shell, ok,
}
use cs.Stsh.Signals.{report, update_job_list, deliver, wait_for_foreground}
use cs.Stsh.Signals.Waiting.{keyboard-joblist, wait_loop-keeps, wait_for_foreground-done}

-- The list is valid and keeps a job with no process in the foreground under `num`.
pub record IsStuck (num : ℕ) (l : JobList) : Type 0 where
  pub valid : IsValid l
  pub job : Job
  pub kept : lookup num l.jobs ≡ some job
  pub empty : job.processes ≡ []
  pub in_front : job.state ≡ foreground

empty-contains_process : (j : Job) (pid : ℕ) → j.processes ≡ [] → contains_process j pid ≡ false
unfolding contains_process
empty-contains_process j pid e = rw e

other_num :
    (l : JobList) (pid num : ℕ) (j : Job)
    → IsStuck num l
    → get_job_with_process l pid ≡ some j
    → (j.num == num) ≡ false
other_num l pid num j v e = elim (Bool-cases (j.num == num)) [
  | inl h ↦
      let place = found_job l pid j v.valid.keyed e in
      absurd (
        ground (
          arith,
          place.0,
          place.3,
          v.kept,
          (==_iff j.num num).0 h,
          empty-contains_process v.job pid v.empty,
        ))
  | inr h ↦ h
]

update_job-IsStuck :
    (l : JobList) (pid : ℕ) (state : ProcessState) (num : ℕ)
    → IsStuck num l
    → IsStuck num (update_job l pid state)
update_job-IsStuck l pid state num v = elim (Option-cases (get_job_with_process l pid)) [
  | inl e ↦ rw (update_job_unknown l pid state e) v
  | inr (j, e) ↦ record {
    valid = update_job-IsValid l pid state v.valid;
    job = v.job;
    kept = rw (lookup-update_job l pid state j num e, other_num l pid num j v e) v.kept;
    empty = v.empty;
    in_front = v.in_front;
  }
]

report-IsStuck :
    (l : JobList) (pid num : ℕ) (status : WaitStatus)
    → IsStuck num l
    → IsStuck num (report l pid status)
unfolding report
report-IsStuck l pid num exited v = update_job-IsStuck l pid terminated num v
report-IsStuck l pid num signaled v = update_job-IsStuck l pid terminated num v
report-IsStuck l pid num WaitStatus.stopped v = update_job-IsStuck l pid stopped num v
report-IsStuck l pid num WaitStatus.continued v = update_job-IsStuck l pid running num v
report-IsStuck l pid num unknown v = v

update_job_list-IsStuck :
    (reports : List (ℕ × WaitStatus)) (l : JobList) (num : ℕ)
    → IsStuck num l
    → IsStuck num (update_job_list reports l)
unfolding update_job_list
update_job_list-IsStuck [] l num v = v
update_job_list-IsStuck ((pid, status) ∷ reports) l num v =
    update_job_list-IsStuck reports (report l pid status) num (report-IsStuck l pid num status v)

deliver-IsStuck :
    (num : ℕ) (d : Delivery) (s : Shell)
    → IsStuck num s.joblist
    → IsStuck num (deliver d s).1.joblist
unfolding deliver
deliver-IsStuck num (child_changed reports) s v = update_job_list-IsStuck reports s.joblist num v
deliver-IsStuck num (keyboard sig) s v = rw (keyboard-joblist sig s) v

lookup-foreground_count :
    (num : ℕ) (js : Jobs) (j : Job)
    → lookup num js ≡ some j
    → j.state ≡ foreground
    → 0 < foreground_count js
unfolding lookup foreground_count
lookup-foreground_count num [] j e f = cc
lookup-foreground_count num ((k, i) ∷ js) j e f = ground (arith, lookup-foreground_count num js j)

pub IsStuck-has_foreground_job :
    (num : ℕ) (l : JobList) → IsStuck num l → has_foreground_job l ≡ true
IsStuck-has_foreground_job num l v =
    (has_foreground_job-count l).1 (lookup-foreground_count num l.jobs v.job v.kept v.in_front)

-- With an empty job in the foreground the wait never returns, whatever signals arrive.
pub wait_for_foreground-stuck :
    (num : ℕ) (s : Shell) {t : Shell}
    → IsStuck num s.joblist
    → ¬ (wait_for_foreground s ≡ (ok tt, t))
unfolding wait_for_foreground
wait_for_foreground-stuck num s {t} v e =
    let after : IsStuck num (wait_for_foreground s).1.joblist =
      wait_loop-keeps (IsStuck num) (deliver-IsStuck num) s.deliveries s v in
    ground (
      arith,
      wait_for_foreground-done s e,
      IsStuck-has_foreground_job num t.joblist (rw e at after),
    )
