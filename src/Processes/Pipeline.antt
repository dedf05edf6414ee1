-- ===== src/Processes/Pipeline.antt =====
-- assign3/pipeline.c. No result is looked at: a process that cannot be created is none, and a
-- program that cannot be run leaves the child in the caller's code.
pub mod Wires
use cs.Base.{ℕ, List, [], ◌∷◌, Option, none, some, Bool, true, false, if◌then◌else◌}
use cs.Processes.Descriptors.{Table, Pipe, open_pipe, Action, close_fd, dup_fd, attempt, executed}

pub record Kernel : Type 0 where
  pub pipe : Pipe
  pub first_fork_fails : Bool
  pub second_fork_fails : Bool
  pub first_exec_fails : Bool
  pub second_exec_fails : Bool

-- A child runs its program, or returns from pipeline, as a copy of the caller, with its descriptors.
pub data Child : Type 0 where
  no_child : Child
  runs returns : Table → Child

-- The descriptors of the caller afterwards, and the children.
pub record Joined : Type 0 where
  pub caller : Table
  pub first : Child
  pub second : Child

unfoldable pub replace_program : Bool → Table → Child
unfolding executed
replace_program true t = returns t
replace_program false t = runs (executed t)

unfoldable pub child_unless : Bool → Bool → List Action → Table → Child
unfolding attempt replace_program
child_unless true exec_fails actions t = no_child
child_unless false exec_fails actions t = replace_program exec_fails (attempt actions t)

-- pipeline, where pipe2 succeeds
unfoldable pub pipeline : Kernel → Table → Joined
unfolding open_pipe child_unless attempt
pipeline k t =
    let p = k.pipe in
    let opened = open_pipe p t in
    let half_closed = attempt (close_fd p.write_fd ∷ []) opened in
    record {
      caller = attempt (close_fd p.read_fd ∷ []) half_closed;
      first =
          child_unless k.first_fork_fails k.first_exec_fails
            (close_fd p.read_fd ∷ dup_fd p.write_fd 1 ∷ close_fd p.write_fd ∷ []) opened;
      second =
          child_unless k.second_fork_fails k.second_exec_fails
            (dup_fd p.read_fd 0 ∷ close_fd p.read_fd ∷ []) half_closed;
    }
