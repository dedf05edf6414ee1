-- ===== src/Processes/Descriptors.antt =====
-- The descriptors of a process, and the system calls that change them. Which descriptors a pipe gets
-- is the kernel's choice.
pub mod Rewire
use cs.Base.{ℕ, List, [], ◌∷◌, Option, none, some, Bool, true, false, ◌==◌, if◌then◌else◌}

-- What a descriptor refers to: an end of a pipe, or some other open file.
pub data OpenFile : Type 0 where
  read_end write_end other_file : ℕ → OpenFile

pub record Descriptor : Type 0 where
  pub file : OpenFile
  pub cloexec : Bool

abbrev pub Table : Type 0
Table = ℕ → Option Descriptor

abbrev pub assign : ℕ → Option Descriptor → Table → Table
assign fd d t = λ k. if k == fd then d else t k

-- The numbers of a new pipe and of its descriptors.
pub record Pipe : Type 0 where
  pub number : ℕ
  pub read_fd : ℕ
  pub write_fd : ℕ

-- pipe2 with O_CLOEXEC
unfoldable pub open_pipe : Pipe → Table → Table
open_pipe p t =
    assign p.write_fd (some (record { file = write_end p.number; cloexec = true }))
      (assign p.read_fd (some (record { file = read_end p.number; cloexec = true })) t)

-- close and dup2: none where they fail, since the descriptor is not open. The copy that dup2 makes
-- stays open across execvp.
pub data Action : Type 0 where
  close_fd : ℕ → Action
  dup_fd : ℕ → ℕ → Action

abbrev pub kept_open : Descriptor → Descriptor
kept_open d = record d { cloexec = false }

unfoldable pub dup_from : Option Descriptor → ℕ → ℕ → Table → Option Table
dup_from none old new t = none
dup_from (some d) old new t =
    if old == new then some t else some (assign new (some (kept_open d)) t)

unfoldable pub close_from : Option Descriptor → ℕ → Table → Option Table
close_from none fd t = none
close_from (some d) fd t = some (assign fd none t)

unfoldable pub act : Action → Table → Option Table
unfolding dup_from close_from
act (close_fd fd) t = close_from (t fd) fd t
act (dup_fd old new) t = dup_from (t old) old new t

-- Calls one after the other up to the first that fails, with the descriptors then.
pub data Performed : Type 0 where
  completed broken : Table → Performed

unfoldable pub perform : List Action → Table → Performed
unfolding act
perform [] t = completed t
perform (a ∷ rest) t = elim (act a t) [ none ↦ broken t | some u ↦ perform rest u ]

-- The calls whose results are not looked at: one that fails changes nothing.
unfoldable pub attempt : List Action → Table → Table
unfolding act
attempt [] t = t
attempt (a ∷ rest) t = elim (act a t) [ none ↦ attempt rest t | some u ↦ attempt rest u ]

-- execvp closes the descriptors that are marked so.
unfoldable pub surviving : Option Descriptor → Option Descriptor
surviving none = none
surviving (some d) = if d.cloexec then none else some d

unfoldable pub executed : Table → Table
unfolding surviving
executed t = λ k. surviving (t k)
