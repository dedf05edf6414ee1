-- ===== src/Stsh/Create/Failure.antt =====
-- A foreground pipeline whose input file cannot be opened: the job stays behind, empty and in the
-- foreground.
use cs.Base.{◌≡◌, refl, true, false, arith, is_empty}
use cs.Base.Map.{ℕ_order}
use cs.Stsh.Job.{foreground, new_job}
use cs.Stsh.JobList.{add_job}
use cs.Stsh.Shell.{Shell, checked, checked_answer, system}
use cs.Stsh.Signals.Stuck.{IsStuck}
use cs.Stsh.Prompt.{AtPrompt}
use cs.Stsh.Create.Holds.{add_job-Holds}
use cs.Stsh.Create.{Pipeline, create_job, open_input}

module _ (p : Pipeline) (s : Shell) (v : AtPrompt s) (front : p.background ≡ false)
    (redirected : is_empty p.input ≡ false) (fails : (s.os s.clock).failed ≡ true) where
  create_job-list : (create_job p s).1.joblist ≡ add_job s.joblist foreground
  unfolding create_job open_input checked checked_answer system
  create_job-list = ground arith

  -- The failed command leaves its job in the list, with no process and in the foreground.
  pub create_job-IsStuck : IsStuck s.joblist.next (create_job p s).1.joblist
  create_job-IsStuck =
      let h = add_job-Holds s foreground v in
      rw create_job-list (record {
        valid = h.valid;
        job = new_job s.joblist.next foreground;
        kept = h.kept;
        empty = refl;
        in_front = refl;
      })
