-- ===== src/Stsh/JobList/Foreground.antt =====
-- How many jobs are in the foreground, and what each write to the map does to that number.
use cs.Base.{ℕ, suc, ◌+◌, ◌≤◌, ◌<◌, ◌≡◌, refl, [], ◌∷◌, none, some, true, false, arith, ◌↔◌}
use cs.Base.Map.{lookup, insert, erase, ℕ_order}
use cs.Stsh.Job.{Job, is_foreground}
use cs.Stsh.JobList.{Jobs, JobList, first_job, found, has_foreground_job}
use cs.Stsh.JobList.Keyed.{Keyed, lookup_below}

-- 1 for a job in the foreground, 0 otherwise.
abbrev pub weight : Job → ℕ
weight j = elim (is_foreground j) [ true ↦ 1 | false ↦ 0 ]

unfoldable pub foreground_count : Jobs → ℕ
foreground_count [] = 0
foreground_count ((k, j) ∷ js) = weight j + foreground_count js

pub foreground_count-insert_new :
    (lo hi : ℕ) (j : Job) (js : Jobs)
    → Keyed lo hi js
    → lookup j.num js ≡ none
    → foreground_count (insert j.num j js) ≡ weight j + foreground_count js
unfolding foreground_count insert lookup
foreground_count-insert_new lo hi j [] v e = refl
foreground_count-insert_new lo hi j ((k, i) ∷ js) v e =
    ground (arith, foreground_count-insert_new (suc k) hi j js)

pub foreground_count-insert_old :
    (lo hi : ℕ) (i j : Job) (js : Jobs)
    → Keyed lo hi js
    → lookup j.num js ≡ some i
    → foreground_count (insert j.num j js) + weight i ≡ weight j + foreground_count js
unfolding foreground_count insert lookup
foreground_count-insert_old lo hi i j [] v e = cc
foreground_count-insert_old lo hi i j ((k, h) ∷ js) v e =
    ground (arith, foreground_count-insert_old (suc k) hi i j js, lookup_below (suc k) hi j.num js)

pub foreground_count-erase :
    (num : ℕ) (js : Jobs) → foreground_count (erase num js) ≤ foreground_count js
unfolding foreground_count erase
foreground_count-erase num [] = omega arith
foreground_count-erase num ((k, i) ∷ js) = ground (arith, foreground_count-erase num js)

first_job-count :
    (js : Jobs) → (found (first_job is_foreground js) ≡ true) ↔ (0 < foreground_count js)
unfolding found first_job foreground_count
first_job-count [] = (λ e. cc, λ h. absurd (omega arith))
first_job-count ((k, j) ∷ js) = let rest = first_job-count js in ground (arith, rest.0, rest.1)

pub has_foreground_job-count :
    (l : JobList) → (has_foreground_job l ≡ true) ↔ (0 < foreground_count l.jobs)
unfolding has_foreground_job
has_foreground_job-count l = first_job-count l.jobs
