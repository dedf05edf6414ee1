-- ===== src/Stsh/Prompt.antt =====
-- Between two commands of the shell: what holds at the prompt, and what a command must ensure.
use mathlib.Core.Path.{subst}
use cs.Base.{ℕ, suc, ◌≤◌, ◌<◌, ◌≡◌, refl, sym, List, [], ◌∷◌, some, Bool, false, arith}
use cs.Base.Map.{lookup, ℕ_order}
use cs.Stsh.Job.{Job}
use cs.Stsh.JobList.{JobList, has_foreground_job}
use cs.Stsh.JobList.Keyed.{Keyed}
use cs.Stsh.JobList.Foreground.{foreground_count, has_foreground_job-count}
use cs.Stsh.JobList.Invariant.{IsValid}
use cs.Stsh.Shell.{Shell, Result, ok, throw, exit, blocked, Call, run_checked, run_checked-joblist}
use cs.Stsh.Signals.{wait_for_foreground}
use cs.Stsh.Signals.Waiting.{wait_for_foreground-IsValid, wait_for_foreground-done}
use cs.Stsh.Hoare.{Ensures, final-Ensures, weaken-Ensures}

-- Between two commands: the list is valid and nothing is in the foreground.
pub record AtPrompt (s : Shell) : Type 0 where
  pub valid : IsValid s.joblist
  pub no_foreground : has_foreground_job s.joblist ≡ false

abbrev pub Valid : Shell → Type 0
Valid s = IsValid s.joblist

pub no_foreground-count : (l : JobList) → has_foreground_job l ≡ false → foreground_count l.jobs ≡ 0
no_foreground-count l h = ground (arith, (has_foreground_job-count l).1)

pub count-no_foreground : (l : JobList) → foreground_count l.jobs ≡ 0 → has_foreground_job l ≡ false
count-no_foreground l h = ground (arith, (has_foreground_job-count l).0)

pub lookup-Keyed :
    (lo hi num : ℕ) (js : List (ℕ × Job)) (j : Job)
    → Keyed lo hi js
    → lookup num js ≡ some j
    → (j.num ≡ num) × (lo ≤ num) × (num < hi)
unfolding lookup
lookup-Keyed lo hi num [] j v e = cc
lookup-Keyed lo hi num ((k, i) ∷ js) j v e = ground (arith, lookup-Keyed (suc k) hi num js j)

-- Any call keeps what holds of the job list.
pub run_checked-Ensures {ℓ} :
    (P : JobList → Type ℓ) (c : Call) (s : Shell)
    → P s.joblist
    → Ensures (λ t. P t.joblist) (λ _ t. P t.joblist) (run_checked c s)
run_checked-Ensures P c s p =
    final-Ensures (λ t. P t.joblist) (run_checked c s) (rw (run_checked-joblist c s) p)

wait_result :
    (s : Shell) (r : Result (Unit {0}) × Shell)
    → r ≡ wait_for_foreground s
    → Valid s
    → Ensures Valid (λ _. AtPrompt) r
wait_result s (ok tt, t) e v = record {
  valid = rw (← e) at (wait_for_foreground-IsValid s v);
  no_foreground = wait_for_foreground-done s (sym e);
}
wait_result s (throw x, t) e v = rw (← e) at (wait_for_foreground-IsValid s v)
wait_result s (exit, t) e v = rw (← e) at (wait_for_foreground-IsValid s v)
wait_result s (blocked, t) e v = rw (← e) at (wait_for_foreground-IsValid s v)

pub wait_for_foreground-Ensures :
    (s : Shell) → Valid s → Ensures Valid (λ _. AtPrompt) (wait_for_foreground s)
wait_for_foreground-Ensures s v = wait_result s (wait_for_foreground s) refl v

pub unmasked : (s : Shell) (b : Bool) → AtPrompt s → AtPrompt (record s { chld_blocked = b })
unmasked s b v = record { valid = v.valid; no_foreground = v.no_foreground }

-- A command that leaves the state alone.
pub same-Ensures :
    {A : Type 0} (s : Shell) (r : Result A × Shell)
    → r.1 ≡ s
    → AtPrompt s
    → Ensures Valid (λ _. AtPrompt) r
same-Ensures s r e v =
    weaken-Ensures AtPrompt Valid (λ _. AtPrompt) r (λ _ p. p.valid)
      (final-Ensures AtPrompt r (subst AtPrompt (sym e) v))

-- A call of the operating system between two commands' changes of the list.
pub prompt_call :
    (c : Call) (s : Shell) → AtPrompt s → Ensures Valid (λ _. AtPrompt) (run_checked c s)
prompt_call c s v = same-Ensures (run_checked c s).1 (run_checked c s) refl (record {
  valid = rw (run_checked-joblist c s) v.valid;
  no_foreground = rw (run_checked-joblist c s) v.no_foreground;
})
