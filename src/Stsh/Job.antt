-- ===== src/Stsh/Job.antt =====
-- assign4/stsh-job.h and stsh-job.cc.
use cs.Base.{ℕ, ◌++◌, List, [], ◌∷◌, Option, Bool, true, false, ◌==◌, length, find, any, replicate}
use cs.Base.Text.{Text, codes}
use cs.Base.Number.{show_nat}
use cs.Stsh.Process.{Process, ProcessState, running, terminated, set_state, show_process}

pub data JobState : Type 0 where
  foreground background : JobState

pub record Job : Type 0 where
  pub num : ℕ
  pub processes : List Process
  pub state : JobState

abbrev pub new_job : ℕ → JobState → Job
new_job num state = record { num = num; processes = []; state = state }

unfoldable pub add_process : Job → Process → Job
add_process j p = record j { processes = j.processes ++ (p ∷ []) }

-- none stands for the sentinel `nprocess`
unfoldable pub get_process : Job → ℕ → Option Process
get_process j pid = find (λ p. p.pid == pid) j.processes

unfoldable pub contains_process : Job → ℕ → Bool
contains_process j pid = any (λ p. p.pid == pid) j.processes

abbrev pub set_job_state : Job → JobState → Job
set_job_state j state = record j { state = state }

-- getGroupID: the pid of the leading process, 0 for an empty job
unfoldable pub leader : List Process → ℕ
leader [] = 0
leader (p ∷ ps) = p.pid

unfoldable pub group_id : Job → ℕ
unfolding leader
group_id j = leader j.processes

-- process.setState through the reference that getProcess returns: the first process of that pid
unfoldable pub set_process_state : List Process → ℕ → ProcessState → List Process
set_process_state [] pid state = []
set_process_state (p ∷ ps) pid state = elim (p.pid == pid) [
  | true ↦ set_state p state ∷ ps
  | false ↦ p ∷ set_process_state ps pid state
]

abbrev pub is_running : Process → Bool
is_running p = elim p.state [ running ↦ true | _ ↦ false ]

abbrev pub is_terminated : Process → Bool
is_terminated p = elim p.state [ terminated ↦ true | _ ↦ false ]

abbrev pub is_foreground : Job → Bool
is_foreground j = elim j.state [ foreground ↦ true | _ ↦ false ]

-- operator<<: the processes after the first stand on lines of their own, under the first
unfoldable pub show_rest : ℕ → List Process → Text
show_rest width [] = []
show_rest width (p ∷ ps) =
    codes " |" ++ (10 ∷ (replicate width 32 ++ (32 ∷ (show_process p ++ show_rest width ps))))

unfoldable pub show_processes : ℕ → List Process → Text
unfolding show_rest
show_processes width [] = codes "(job is empty, devoid of processes)"
show_processes width (p ∷ ps) = show_process p ++ show_rest width ps

unfoldable pub show_label : ℕ → Text
show_label num = b'[' ∷ (show_nat num ++ (b']' ∷ []))

unfoldable pub show_job : Job → Text
unfolding show_processes show_label
show_job j =
    let label = show_label j.num in label ++ (32 ∷ show_processes (length label) j.processes)
