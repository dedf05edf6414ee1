-- ===== src/Stsh/Signals/Waiting.antt =====
-- Waiting for the foreground job: what holds when the wait is over, and when it never is.
use cs.Base.{ℕ, ◌≡◌, List, [], ◌∷◌, false, arith, Bool-cases, inl, inr}
use cs.Base.Map.{ℕ_order}
use cs.Stsh.Process.{running, stopped, terminated}
use cs.Stsh.JobList.{JobList, has_foreground_job}
use cs.Stsh.JobList.Invariant.{IsValid}
use cs.Stsh.JobList.Update.{update_job-IsValid}
use cs.Stsh.Shell.{
  Signal, WaitStatus, exited, signaled, unknown, Delivery, child_changed, keyboard, Shell, ok,
  run_checked, bind-keeps, bind-eq-ok,
}
use cs.Stsh.Signals.{report, update_job_list, deliver, wait_loop, wait_for_foreground}

pub report-IsValid :
    (l : JobList) (pid : ℕ) (status : WaitStatus) → IsValid l → IsValid (report l pid status)
unfolding report
report-IsValid l pid exited v = update_job-IsValid l pid terminated v
report-IsValid l pid signaled v = update_job-IsValid l pid terminated v
report-IsValid l pid WaitStatus.stopped v = update_job-IsValid l pid stopped v
report-IsValid l pid WaitStatus.continued v = update_job-IsValid l pid running v
report-IsValid l pid unknown v = v

-- However many children have changed, the SIGCHLD handler keeps the job list valid.
pub update_job_list-IsValid :
    (reports : List (ℕ × WaitStatus)) (l : JobList)
    → IsValid l
    → IsValid (update_job_list reports l)
unfolding update_job_list
update_job_list-IsValid [] l v = v
update_job_list-IsValid ((pid, status) ∷ reports) l v =
    update_job_list-IsValid reports (report l pid status) (report-IsValid l pid status v)

-- A keyboard signal sends a signal on and leaves the job list alone.
pub keyboard-joblist : (sig : Signal) (s : Shell) → (deliver (keyboard sig) s).1.joblist ≡ s.joblist
unfolding deliver run_checked
keyboard-joblist sig s = ground arith

pub deliver-IsValid :
    (d : Delivery) (s : Shell) → IsValid s.joblist → IsValid (deliver d s).1.joblist
unfolding deliver
deliver-IsValid (child_changed reports) s v = update_job_list-IsValid reports s.joblist v
deliver-IsValid (keyboard sig) s v = rw (keyboard-joblist sig s) v

-- What each delivery keeps, the wait keeps.
pub wait_loop-keeps {ℓ} :
    (P : JobList → Type ℓ)
    → ((d : Delivery) (s : Shell) → P s.joblist → P (deliver d s).1.joblist)
    → (ds : List Delivery) (s : Shell) → P s.joblist
    → P (wait_loop ds s).1.joblist
unfolding wait_loop
wait_loop-keeps P keep [] s p = elim (Bool-cases (has_foreground_job s.joblist)) [
  | inl h ↦ rw (h, wait_loop) p
  | inr h ↦ rw (h, wait_loop) p
]
wait_loop-keeps P keep (d ∷ ds) s p = elim (Bool-cases (has_foreground_job s.joblist)) [
  | inl h ↦
      let t : Shell = record s { deliveries = ds } in
      rw (h, wait_loop)
        (bind-keeps (λ u. P u.joblist) (deliver d t) (λ _. wait_loop ds) (keep d t p)
          (λ _ u q. wait_loop-keeps P keep ds u q))
  | inr h ↦ rw (h, wait_loop) p
]

-- Waiting keeps the job list valid, whatever arrives and however the wait ends.
pub wait_for_foreground-IsValid :
    (s : Shell) → IsValid s.joblist → IsValid (wait_for_foreground s).1.joblist
unfolding wait_for_foreground
wait_for_foreground-IsValid s v = wait_loop-keeps IsValid deliver-IsValid s.deliveries s v

wait_loop-done :
    (ds : List Delivery) (s : Shell) {t : Shell}
    → wait_loop ds s ≡ (ok tt, t)
    → has_foreground_job t.joblist ≡ false
unfolding wait_loop
wait_loop-done [] s {t} e = elim (Bool-cases (has_foreground_job s.joblist)) [
  | inl h ↦ absurd (ground (arith, rw (h, wait_loop) at e))
  | inr h ↦ ground (arith, rw (h, wait_loop) at e)
]
wait_loop-done (d ∷ ds) s {t} e = elim (Bool-cases (has_foreground_job s.joblist)) [
  | inl h ↦
      let (_, u, _, rest) =
        bind-eq-ok (deliver d (record s { deliveries = ds })) (λ _. wait_loop ds)
          (rw (h, wait_loop) at e) in
      wait_loop-done ds u rest
  | inr h ↦ ground (arith, rw (h, wait_loop) at e)
]

-- When the wait returns, no job is in the foreground.
pub wait_for_foreground-done :
    (s : Shell) {t : Shell}
    → wait_for_foreground s ≡ (ok tt, t)
    → has_foreground_job t.joblist ≡ false
unfolding wait_for_foreground
wait_for_foreground-done s e = wait_loop-done s.deliveries s e
