-- ===== src/Stsh/Builtins/Masking.antt =====
-- What sendSignal leaves of the signal mask, and which of its arguments it reads.
use cs.Base.{
  ℕ, ◌≡◌, ◌≢◌, ◌∙◌, ap, refl, sym, List, ◌∷◌, Option, none, some, true, arith, Option-cases, inl,
  inr,
}
use cs.Base.Text.{Text}
use cs.Stsh.Process.{Command, Process}
use cs.Stsh.Shell.{
  Signal, Error, Shell, Result, ok, throw, exit, blocked, run_checked, continue_with,
}
use cs.Stsh.Builtins.{
  count_tokens, num_arguments, find_process, already, signal_process, send_signal, first_token,
  process_by_pid, process_by_index,
}
use cs.Stsh.Builtins.Send.{find_process-state}

-- SIGCHLD is let in again exactly when the kill was made and succeeded.
signal_process-mask :
    (sig : Signal) (p : Process) (s : Shell)
    → s.chld_blocked ≡ true
    → let r = signal_process sig p s in
      ((r.0 ≡ ok tt) → r.1.chld_blocked ≡ already sig p.state)
      × ((r.0 ≢ ok tt) → r.1.chld_blocked ≡ true)
unfolding signal_process run_checked
signal_process-mask sig p s b = ground arith

found-mask :
    (n : ℕ) (name : Text) (c : Command) (sig : Signal) (s : Shell) {t : Shell}
    → s.chld_blocked ≡ true
    → continue_with (find_process n name c s) (λ q. signal_process sig q) ≡ (ok tt, t)
    → (p : Process) × ((find_process n name c s).0 ≡ ok p) × (t.chld_blocked ≡ already sig p.state)
found-mask n name c sig s {t} b e = go (find_process n name c s) (find_process-state n name c s) e
  where
    go :
        (r : Result Process × Shell)
        → r.1 ≡ s
        → continue_with r (λ q. signal_process sig q) ≡ (ok tt, t)
        → (p : Process) × (r.0 ≡ ok p) × (t.chld_blocked ≡ already sig p.state)
    go (ok p, u) same sent = (
      p,
      refl,
      ground (arith, (signal_process-mask sig p u (ap (λ x. x.chld_blocked) same ∙ b)).0),
    )
    go (throw x, u) same sent = cc
    go (exit, u) same sent = cc
    go (blocked, u) same sent = cc

-- A command of slay, halt or cont that ends normally has found a process; SIGCHLD stays blocked
-- if that process was already stopped (halt) or already running (cont), and only then.
pub send_signal-mask :
    (c : Command) (name : Text) (sig : Signal) (s : Shell) {t : Shell}
    → send_signal c name sig s ≡ (ok tt, t)
    → (n : ℕ) × (p : Process) × (count_tokens c.tokens 0 ≡ some n)
      × ((find_process n name c (record s { chld_blocked = true })).0 ≡ ok p)
      × (t.chld_blocked ≡ already sig p.state)
unfolding send_signal num_arguments
send_signal-mask c name sig s {t} e = elim (Option-cases (count_tokens c.tokens 0)) [
  | inl h ↦ absurd (ground (arith, rw (h, num_arguments) at e))
  | inr (n, h) ↦
      let (p, found, mask) =
        found-mask n name c sig (record s { chld_blocked = true }) refl
          (rw (h, num_arguments) at e) in
      (n, p, h, found, mask)
]

-- The exception paths of sendSignal after its count of arguments all leave SIGCHLD blocked.
pub send_signal-throws :
    (c : Command) (name : Text) (sig : Signal) (s : Shell) (n : ℕ) {e : Error} {t : Shell}
    → count_tokens c.tokens 0 ≡ some n
    → send_signal c name sig s ≡ (throw e, t)
    → t.chld_blocked ≡ true
unfolding send_signal num_arguments
send_signal-throws c name sig s n {e} {t} h eq =
    ap (λ r. r.1.chld_blocked) (sym eq')
    ∙ after (find_process n name c s') (find_process-state n name c s') (ap (λ r. r.0) eq')
  where
    s' : Shell
    s' = record s { chld_blocked = true }

    eq' : continue_with (find_process n name c s') (λ q. signal_process sig q) ≡ (throw e, t)
    eq' = rw (h, num_arguments) at eq

    after :
        (r : Result Process × Shell)
        → r.1 ≡ s'
        → (continue_with r (λ q. signal_process sig q)).0 ≡ throw e
        → (continue_with r (λ q. signal_process sig q)).1.chld_blocked ≡ true
    after (ok p, u) same thrown =
        (signal_process-mask sig p u (ap (λ x. x.chld_blocked) same)).1 (λ done. cc)
    after (throw x, u) same thrown = ap (λ x. x.chld_blocked) same
    after (exit, u) same thrown = cc
    after (blocked, u) same thrown = cc

-- Given a job and an index, sendSignal takes no notice of the second token: the index that it
-- uses is the job's number.
pub send_signal-index_ignored :
    (command job index index' : Text) (rest : List (Option Text)) (name : Text) (sig : Signal)
    (s : Shell)
    → send_signal
        (record { command = command; tokens = some job ∷ some index ∷ none ∷ rest })
        name
        sig
        s
      ≡ send_signal
          (record { command = command; tokens = some job ∷ some index' ∷ none ∷ rest })
          name
          sig
          s
unfolding send_signal num_arguments find_process process_by_pid process_by_index first_token
    count_tokens
send_signal-index_ignored command job index index' rest name sig s = refl
