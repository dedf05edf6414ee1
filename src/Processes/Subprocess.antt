-- ===== src/Processes/Subprocess.antt =====
-- assign3/subprocess.cc. The kernel is a parameter: the descriptors that it chooses, and whether
-- pipe2, fork and execvp fail.
pub mod Tables
pub mod Calls
pub mod Wiring
use cs.Base.{ℕ, List, [], ◌∷◌, ◌++◌, Option, none, some, Bool, true, false, ◌&&◌, if◌then◌else◌}
use cs.Processes.Descriptors.{
  Table, Pipe, open_pipe, Action, close_fd, dup_fd, Performed, completed, broken, perform, executed,
}

pub record Kernel : Type 0 where
  pub parent_to_child : Pipe
  pub child_to_parent : Pipe
  pub input_pipe_fails : Bool
  pub output_pipe_fails : Bool
  pub fork_fails : Bool
  pub exec_fails : Bool

-- The child runs the program, or throws an exception, as a copy of the caller.
pub data Child : Type 0 where
  runs : Table → Child
  throws : Child

-- subprocess_t, with the descriptors of the two processes; or an exception, with the caller's
-- descriptors as they are when it is thrown.
pub data Launch : Type 0 where
  launched : Table → Child → Option ℕ → Option ℕ → Launch
  threw : Table → Launch

unfoldable pub with_pipe : Bool → Pipe → Table → Table
unfolding open_pipe
with_pipe true p t = open_pipe p t
with_pipe false p t = t

-- The child's end of a pipe takes the place of a standard descriptor.
unfoldable pub rewire : Bool → ℕ → ℕ → ℕ → List Action
rewire true mine theirs standard = close_fd theirs ∷ dup_fd mine standard ∷ close_fd mine ∷ []
rewire false mine theirs standard = []

unfoldable pub child_actions : Kernel → Bool → Bool → List Action
unfolding rewire
child_actions k supply ingest =
    rewire supply k.parent_to_child.read_fd k.parent_to_child.write_fd 0
    ++ rewire ingest k.child_to_parent.write_fd k.child_to_parent.read_fd 1

unfoldable pub execute : Bool → Performed → Child
unfolding executed
execute fails (broken t) = throws
execute fails (completed t) = if fails then throws else runs (executed t)

unfoldable pub close_if : Bool → ℕ → List Action
close_if true fd = close_fd fd ∷ []
close_if false fd = []

unfoldable pub used : Bool → ℕ → Option ℕ
used true fd = some fd
used false fd = none

-- The parent's side, once its ends of the pipes are closed.
unfoldable pub settle : Kernel → Bool → Bool → Child → Performed → Launch
unfolding used
settle k supply ingest child (broken u) = threw u
settle k supply ingest child (completed u) =
    launched u child (used supply k.parent_to_child.write_fd)
      (used ingest k.child_to_parent.read_fd)

-- From fork on, with the descriptors that both processes have.
unfoldable pub forked : Kernel → Bool → Bool → Table → Launch
unfolding settle execute child_actions close_if perform
forked k supply ingest t =
    if k.fork_fails
    then threw t
    else settle k supply ingest (execute k.exec_fails (perform (child_actions k supply ingest) t)) (
        perform
          (close_if supply k.parent_to_child.read_fd ++ close_if ingest k.child_to_parent.write_fd)
          t)

-- subprocess
unfoldable pub subprocess : Kernel → Bool → Bool → Table → Launch
unfolding with_pipe forked
subprocess k supply ingest t =
    if supply && k.input_pipe_fails
    then threw t
    else (let u = with_pipe supply k.parent_to_child t in
        if ingest && k.output_pipe_fails
        then threw u
        else forked k supply ingest (with_pipe ingest k.child_to_parent u))
