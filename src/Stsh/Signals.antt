-- ===== src/Stsh/Signals.antt =====
-- The signal handlers of assign4/stsh.cc and the wait for the foreground job.
pub mod Waiting
pub mod Stuck
use cs.Base.{ℕ, List, [], ◌∷◌, Option, none, some, Bool, true, false, if◌then◌else◌}
use cs.Stsh.Process.{running, stopped, terminated}
use cs.Stsh.Job.{group_id}
use cs.Stsh.JobList.{JobList, update_job, has_foreground_job, get_foreground_job}
use cs.Stsh.Shell.{
  Signal, killpg, WaitStatus, exited, signaled, WaitStatus, unknown, Delivery, child_changed,
  keyboard, Shell, M, ok, blocked, ◌>>=◌, ◌>>◌, return, get_joblist, put_joblist, run_checked,
}

-- One turn of the loop of updateJobList, after waitpid returned a pid.
unfoldable pub report : JobList → ℕ → WaitStatus → JobList
report l pid exited = update_job l pid terminated
report l pid signaled = update_job l pid terminated
report l pid WaitStatus.stopped = update_job l pid stopped
report l pid WaitStatus.continued = update_job l pid running
report l pid unknown = l

-- The SIGCHLD handler: the list holds what waitpid returns before it returns 0 or less.
unfoldable pub update_job_list : List (ℕ × WaitStatus) → JobList → JobList
update_job_list [] l = l
update_job_list ((pid, status) ∷ reports) l = update_job_list reports (report l pid status)

-- The handler of SIGINT and SIGTSTP.
unfoldable pub send_to_foreground : Signal → M (Unit {0})
unfolding run_checked
send_to_foreground sig s = elim (get_foreground_job s.joblist) [
  | none ↦ (ok tt, s)
  | some j ↦ run_checked (killpg (group_id j) sig) s
]

unfoldable pub deliver : Delivery → M (Unit {0})
unfolding send_to_foreground
deliver (child_changed reports) = do l ← get_joblist; put_joblist (update_job_list reports l)
deliver (keyboard sig) = send_to_foreground sig

-- while (hasForegroundJob) sigsuspend, over the signals that arrive
unfoldable pub wait_loop : List Delivery → M (Unit {0})
unfolding deliver
wait_loop [] s = elim (has_foreground_job s.joblist) [ true ↦ (blocked, s) | false ↦ (ok tt, s) ]
wait_loop (d ∷ ds) s = elim (has_foreground_job s.joblist) [
  | true ↦ (deliver d >> wait_loop ds) (record s { deliveries = ds })
  | false ↦ (ok tt, s)
]

unfoldable pub wait_for_foreground : M (Unit {0})
unfolding wait_loop
wait_for_foreground s = wait_loop s.deliveries s
