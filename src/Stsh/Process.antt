-- ===== src/Stsh/Process.antt =====
-- assign4/stsh-process.h, stsh-process.cc and the struct command of stsh-parser/stsh-parse.h.
use cs.Base.{ℕ, ◌-◌, ◌++◌, List, [], ◌∷◌, Option, none, some, length, replicate}
use cs.Base.Text.{Text, codes}
use cs.Base.Number.{show_nat}

pub data ProcessState : Type 0 where
  waiting running stopped terminated : ProcessState

-- `tokens` is the whole array, with none for a NULL pointer.
pub record Command : Type 0 where
  pub command : Text
  pub tokens : List (Option Text)

pub record Process : Type 0 where
  pub pid : ℕ
  pub tokens : List Text
  pub state : ProcessState

-- The array up to its first NULL.
unfoldable pub tokens_before_null : List (Option Text) → List Text
tokens_before_null [] = []
tokens_before_null (none ∷ ts) = []
tokens_before_null (some t ∷ ts) = t ∷ tokens_before_null ts

unfoldable pub new_process : ℕ → Command → ProcessState → Process
unfolding tokens_before_null
new_process pid c state = record {
  pid = pid;
  tokens = c.command ∷ tokens_before_null c.tokens;
  state = state;
}

abbrev pub set_state : Process → ProcessState → Process
set_state p state = record p { state = state }

unfoldable pub show_state : ProcessState → Text
show_state waiting = codes "Waiting"
show_state running = codes "Running"
show_state stopped = codes "Stopped"
show_state terminated = codes "Terminated"

-- setw under `right` and under `left`
unfoldable pub pad_left : ℕ → Text → Text
pad_left width s = replicate (width - length s) 32 ++ s

unfoldable pub pad_right : ℕ → Text → Text
pad_right width s = s ++ replicate (width - length s) 32

unfoldable pub show_tokens : List Text → Text
show_tokens [] = []
show_tokens (t ∷ ts) = 32 ∷ (t ++ show_tokens ts)

unfoldable pub show_process : Process → Text
unfolding show_state pad_left pad_right show_tokens
show_process p =
    pad_left 5 (show_nat p.pid)
    ++ (32 ∷ (pad_right 12 (show_state p.state) ++ show_tokens p.tokens))
