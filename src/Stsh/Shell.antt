-- ===== src/Stsh/Shell.antt =====
-- The state of the shell as its commands run (assign4/stsh.cc): the global job list, whether
-- SIGCHLD is blocked, the text written to cout, the signals still to come, and the operating
-- system behind it. The kernel's answers are a parameter: `os n` answers the n-th call, so any
-- outcome of any call is possible. A failed call throws, as the *_errchk wrappers do, and the
-- state stays as it is when an exception is thrown.
use cs.Base.{ℕ, suc, ◌++◌, ◌≡◌, refl, arith, List, ◌∷◌, Bool, true, false, if◌then◌else◌}
use cs.Base.Text.{Text}
use cs.Stsh.JobList.{JobList}

pub data Signal : Type 0 where
  sigint sigtstp sigkill sigstop sigcont : Signal

-- The system calls that can fail, with their arguments.
pub data Call : Type 0 where
  fork pipe : Call
  open_read open_write : Text → Call
  close dup_stdin dup_stdout tcgetpgrp : ℕ → Call
  setpgid tcsetpgrp : ℕ → ℕ → Call
  killpg kill : ℕ → Signal → Call
  execvp : Text → List Text → Call

-- What a call returns: a failure, or a number (a pid, a descriptor), for pipe a second one.
pub record Answer : Type 0 where
  pub failed : Bool
  pub value : ℕ
  pub second : ℕ

-- Each STSHException of the source.
pub data Error : Type 0 where
  call_failed : Call → Error
  tokens_unterminated unsupported_builtin : Error
  usage : Text → Error
  no_such_job : Text → ℕ → Error
  no_process_with_pid no_job_with_id : ℕ → Error
  no_process_at_index : ℕ → ℕ → Error

-- A status that waitpid can report, by the W* macro that it satisfies.
pub data WaitStatus : Type 0 where
  exited signaled stopped continued unknown : WaitStatus

-- A signal that reaches the shell: SIGCHLD with the reports that its waitpid calls will return
-- until one returns 0, or one of the two keyboard signals.
pub data Delivery : Type 0 where
  child_changed : List (ℕ × WaitStatus) → Delivery
  keyboard : Signal → Delivery

pub record Shell : Type 0 where
  pub joblist : JobList
  pub chld_blocked : Bool
  pub deliveries : List Delivery
  pub printed : Text
  pub os : ℕ → Answer
  pub clock : ℕ
  pub calls : List Call

-- `exit` ends the shell; `blocked` waits for a signal that never comes.
pub data Result {ℓ} (A : Type ℓ) : Type ℓ where
  ok : A → Result A
  throw : Error → Result A
  exit : Result A
  blocked : Result A

abbrev pub M : Type 0 → Type 0
M A = Shell → Result A × Shell

abbrev pub continue_with : {A B : Type 0} → Result A × Shell → (A → M B) → Result B × Shell
continue_with (ok a, s) f = f a s
continue_with (throw e, s) f = (throw e, s)
continue_with (exit, s) f = (exit, s)
continue_with (blocked, s) f = (blocked, s)

infixl 5 ◌>>=◌ ◌>>◌
abbrev pub ◌>>=◌ : {A B : Type 0} → M A → (A → M B) → M B
◌>>=◌ m f s = continue_with (m s) f

abbrev pub ◌>>◌ : {B : Type 0} → M (Unit {0}) → M B → M B
◌>>◌ m k s = continue_with (m s) (λ _. k)

abbrev pub return : {A : Type 0} → A → M A
return a s = (ok a, s)

abbrev pub raise : {A : Type 0} → Error → M A
raise e s = (throw e, s)

abbrev pub when : Bool → M (Unit {0}) → M (Unit {0})
when b m s = if b then m s else (ok tt, s)

-- A system call: the answer at the clock, the call added to those made.
unfoldable pub system : Call → Shell → Answer × Shell
system c s = (s.os s.clock, record s { clock = suc s.clock; calls = c ∷ s.calls })

-- fork_errchk, close_errchk and their kin.
unfoldable pub checked_answer : Call → M Answer
unfolding system
checked_answer c s =
    let (a, s') = system c s in if a.failed then (throw (call_failed c), s') else (ok a, s')

unfoldable pub checked : Call → M ℕ
unfolding checked_answer
checked c = do a ← checked_answer c; return a.value

unfoldable pub run_checked : Call → M (Unit {0})
unfolding checked_answer
run_checked c = do a ← checked_answer c; return tt

-- blockSignal(SIGCHLD) and unblockSignal(SIGCHLD)
abbrev pub block_chld : M (Unit {0})
block_chld s = (ok tt, record s { chld_blocked = true })

abbrev pub unblock_chld : M (Unit {0})
unblock_chld s = (ok tt, record s { chld_blocked = false })

abbrev pub get_joblist : M JobList
get_joblist s = (ok s.joblist, s)

abbrev pub put_joblist : JobList → M (Unit {0})
put_joblist l s = (ok tt, record s { joblist = l })

abbrev pub print : Text → M (Unit {0})
print t s = (ok tt, record s { printed = s.printed ++ t })

-- A predicate on the state that both parts of a bind keep is kept by the bind, also where the
-- first part throws, exits or blocks.
pub bind-keeps {ℓ} :
    {A B : Type 0} (P : Shell → Type ℓ) (r : Result A × Shell) (f : A → M B)
    → P r.1
    → ((a : A) (s : Shell) → P s → P (f a s).1)
    → P (continue_with r f).1
bind-keeps P (ok a, s) f p k = k a s p
bind-keeps P (throw e, s) f p k = p
bind-keeps P (exit, s) f p k = p
bind-keeps P (blocked, s) f p k = p

-- A bind that succeeds has a first part that succeeds.
pub bind-eq-ok :
    {A B : Type 0} (r : Result A × Shell) (f : A → M B) {b : B} {t : Shell}
    → continue_with r f ≡ (ok b, t)
    → (a : A) × (s : Shell) × (r ≡ (ok a, s)) × (f a s ≡ (ok b, t))
bind-eq-ok (ok a, s) f e = (a, s, refl, e)
bind-eq-ok (throw x, s) f e = cc
bind-eq-ok (exit, s) f e = cc
bind-eq-ok (blocked, s) f e = cc

pub run_checked-joblist : (c : Call) (s : Shell) → (run_checked c s).1.joblist ≡ s.joblist
unfolding run_checked
run_checked-joblist c s = ground arith
