-- ===== src/Stsh/Builtins/Resume.antt =====
-- fg and bg keep the job list valid.
use cs.Base.{
  ℕ, ◌≡◌, ◌∙◌, ap, refl, sym, Option, none, some, Bool, true, false, arith, Option-cases, inl, inr,
  not, any, ◌==◌, ◌&&◌, ◌||◌, is_empty, if◌then◌else◌,
}
use cs.Base.Text.{Text}
use cs.Base.Number.{Parsed, strtol}
use cs.Base.Map.{lookup, ℕ_order}
use cs.Stsh.Process.{Command}
use cs.Stsh.Job.{Job, JobState, foreground, background, set_job_state, is_running, group_id}
use cs.Stsh.JobList.{JobList, put_job, get_job}
use cs.Stsh.JobList.Keyed.{Keyed-insert}
use cs.Stsh.JobList.Foreground.{foreground_count, foreground_count-insert_old}
use cs.Stsh.JobList.Invariant.{IsValid}
use cs.Stsh.Shell.{
  Shell, M, Call, run_checked, sigcont, killpg, when, unblock_chld, block_chld, get_joblist, raise,
  return, usage, ◌>>=◌, ◌>>◌,
}
use cs.Stsh.Signals.{wait_for_foreground}
use cs.Stsh.Hoare.{Ensures, bind-Ensures, when-Ensures, weaken-Ensures}
use cs.Stsh.Builtins.{
  count_tokens, num_arguments, parse_number, first_token, resume_usage, resume_job, resume_found,
  resume,
}
use cs.Stsh.Prompt.{
  AtPrompt, Valid, no_foreground-count, count-no_foreground, lookup-Keyed, run_checked-Ensures,
  wait_for_foreground-Ensures, unmasked,
}

put_job_state :
    (s : Shell) (j : Job) (state : JobState)
    → AtPrompt s
    → lookup j.num s.joblist.jobs ≡ some j
    → let l = put_job s.joblist (set_job_state j state) in
      IsValid l × (state ≡ background → foreground_count l.jobs ≡ 0)
unfolding put_job
put_job_state s j state v e =
    let l = s.joblist in
    let place = lookup-Keyed 1 l.next j.num l.jobs j v.valid.keyed e in
    let count =
      foreground_count-insert_old 1 l.next j (set_job_state j state) l.jobs v.valid.keyed e in
    let none_yet = no_foreground-count l v.no_foreground in
    (
      record {
        keyed = Keyed-insert 1 l.next (set_job_state j state) l.jobs place.1 place.2 v.valid.keyed;
        positive = v.valid.positive;
        one_foreground = ground arith;
      },
      λ b. ground arith,
    )

-- Reading the arguments changes nothing.
pub num_arguments-Ensures :
    (c : Command) (s : Shell) → AtPrompt s → Ensures Valid (λ _. AtPrompt) (num_arguments c s)
unfolding num_arguments
num_arguments-Ensures c s v = elim (Option-cases (count_tokens c.tokens 0)) [
  | inl e ↦ rw (e, num_arguments) v.valid
  | inr (n, e) ↦ rw (e, num_arguments) v
]

pub parse_number-Ensures :
    (arg : Option Text) (u : Text) (s : Shell)
    → AtPrompt s
    → Ensures Valid (λ _. AtPrompt) (parse_number arg u s)
unfolding parse_number
parse_number-Ensures none u s v = v.valid
parse_number-Ensures (some arg) u s v =
    raise_or (not (is_empty p.rest) || (p.negative && not (p.value == 0)))
  where
    p : Parsed
    p = strtol 10 arg

    raise_or :
        (b : Bool)
        → Ensures Valid (λ (_ : ℕ). AtPrompt) ((if b then raise (usage u) else return p.value) s)
    raise_or true = v.valid
    raise_or false = v

-- After resume has set the state: nothing is in the foreground unless the job was put there.
abbrev Resumed : Bool → JobList → Type 0
Resumed in_foreground l = IsValid l × (in_foreground ≡ false → foreground_count l.jobs ≡ 0)

end_of_resume :
    (in_foreground : Bool) (s : Shell)
    → Resumed in_foreground s.joblist
    → Ensures Valid (λ _. AtPrompt) (when in_foreground wait_for_foreground s)
end_of_resume true s h = wait_for_foreground-Ensures s h.0
end_of_resume false s h = record {
  valid = h.0;
  no_foreground = count-no_foreground s.joblist (h.1 refl);
}

resume_call :
    (c : Call) (b in_foreground : Bool) (s : Shell)
    → Resumed in_foreground s.joblist
    → Ensures Valid (λ _ t. Resumed in_foreground t.joblist) (when b (run_checked c) s)
resume_call c b in_foreground s h =
    when-Ensures Valid (λ _ t. Resumed in_foreground t.joblist) b (run_checked c) s h
      λ _.
        weaken-Ensures (λ t. Resumed in_foreground t.joblist) Valid
          (λ _ t. Resumed in_foreground t.joblist) (run_checked c s) (λ _ p. p.0)
          (run_checked-Ensures (Resumed in_foreground) c s h)

resume_job-Ensures :
    (j : Job) (in_foreground : Bool) (s : Shell)
    → AtPrompt s
    → lookup j.num s.joblist.jobs ≡ some j
    → Ensures Valid (λ _. AtPrompt) (resume_job j in_foreground s)
unfolding resume_job
resume_job-Ensures j in_foreground s v e =
    bind-Ensures Valid (λ _ t. Resumed in_foreground t.joblist) (λ _. AtPrompt) _
      (λ _. when in_foreground wait_for_foreground >> unblock_chld)
      (resume_call (killpg (group_id j) sigcont) (not (any is_running j.processes)) in_foreground
        (record s { joblist = put_job s.joblist (set_job_state j state) }) moved)
      λ _ u h.
        bind-Ensures Valid (λ _. AtPrompt) (λ _. AtPrompt)
          (when in_foreground wait_for_foreground u) (λ _. unblock_chld)
          (end_of_resume in_foreground u h)
          λ _ w p. record { valid = p.valid; no_foreground = p.no_foreground }
  where
    state : JobState
    state = if in_foreground then foreground else background

    moved : Resumed in_foreground (put_job s.joblist (set_job_state j state))
    moved = let h = put_job_state s j state v e in (h.0, λ b. h.1 (ground arith))

found_to_resume :
    (name : Text) (num : ℕ) (in_foreground : Bool) (s : Shell) (o : Option Job)
    → AtPrompt s
    → o ≡ lookup num s.joblist.jobs
    → Ensures Valid (λ _. AtPrompt) (resume_found o name num in_foreground s)
unfolding resume_found
found_to_resume name num in_foreground s none v e = v.valid
found_to_resume name num in_foreground s (some j) v e =
    let place = lookup-Keyed 1 s.joblist.next num s.joblist.jobs j v.valid.keyed (sym e) in
    resume_job-Ensures j in_foreground s v (ap (λ k. lookup k s.joblist.jobs) place.0 ∙ sym e)

-- fg and bg
pub resume-Ensures :
    (c : Command) (name : Text) (in_foreground : Bool) (s : Shell)
    → AtPrompt s
    → Ensures Valid (λ _. AtPrompt) (resume c name in_foreground s)
unfolding resume get_job
resume-Ensures c name in_foreground s v =
    bind-Ensures Valid (λ _. AtPrompt) (λ _. AtPrompt) (num_arguments c s) (λ n. checked_count n)
      (num_arguments-Ensures c s v)
      λ n t p.
        bind-Ensures Valid (λ _. AtPrompt) (λ _. AtPrompt)
          (when (not (n == 1)) (raise (usage (resume_usage name))) t) (λ _. rest)
          (when-Ensures Valid (λ _. AtPrompt) (not (n == 1)) (raise (usage (resume_usage name))) t p
            (λ _. p.valid))
          λ _ u q.
            bind-Ensures Valid (λ _. AtPrompt) (λ _. AtPrompt)
              (parse_number (first_token c) (resume_usage name) u) (λ num. last num)
              (parse_number-Ensures (first_token c) (resume_usage name) u q)
              λ num w x.
                found_to_resume name num in_foreground (record w { chld_blocked = true })
                  (lookup num w.joblist.jobs) (unmasked w true x) refl
  where
    last : ℕ → M (Unit {0})
    last num = do block_chld; l ← get_joblist; resume_found (get_job l num) name num in_foreground

    rest : M (Unit {0})
    rest = do num ← parse_number (first_token c) (resume_usage name); last num

    checked_count : ℕ → M (Unit {0})
    checked_count n = do when (not (n == 1)) (raise (usage (resume_usage name))); rest
