-- ===== src/Processes/Subprocess/Tables.antt =====
-- The tables of descriptors that subprocess leaves, one descriptor after the other.
use cs.Base.{ℕ, ◌≡◌, none, some, Bool, true, false, ◌==◌, ◌&&◌, if◌then◌else◌, arith}
use cs.Processes.Descriptors.{
  read_end, write_end, Descriptor, Table, assign, open_pipe, surviving, executed,
}
use cs.Processes.Descriptors.Rewire.{rewired, not_standard, end_of}
use cs.Processes.Subprocess.{Kernel}

-- No call fails, the descriptors of the two pipes are not in use, and they differ.
pub record IsServing (k : Kernel) (t : Table) : Type 0 where
  pub input_pipe : k.input_pipe_fails ≡ false
  pub output_pipe : k.output_pipe_fails ≡ false
  pub fork : k.fork_fails ≡ false
  pub exec : k.exec_fails ≡ false
  pub input_read : t k.parent_to_child.read_fd ≡ none
  pub input_write : t k.parent_to_child.write_fd ≡ none
  pub output_read : t k.child_to_parent.read_fd ≡ none
  pub output_write : t k.child_to_parent.write_fd ≡ none
  pub input_ends : (k.parent_to_child.read_fd == k.parent_to_child.write_fd) ≡ false
  pub output_ends : (k.child_to_parent.write_fd == k.child_to_parent.read_fd) ≡ false
  pub reads : (k.parent_to_child.read_fd == k.child_to_parent.read_fd) ≡ false
  pub writes : (k.parent_to_child.write_fd == k.child_to_parent.write_fd) ≡ false
  pub read_write : (k.parent_to_child.read_fd == k.child_to_parent.write_fd) ≡ false
  pub write_read : (k.parent_to_child.write_fd == k.child_to_parent.read_fd) ≡ false

-- The caller keeps what it had, and its ends of the pipes.
abbrev pub caller_after : Kernel → Bool → Bool → Table → Table
caller_after k supply ingest t fd =
    if supply && (fd == k.parent_to_child.write_fd)
    then end_of true (write_end k.parent_to_child.number)
    else (if ingest && (fd == k.child_to_parent.read_fd)
        then end_of true (read_end k.child_to_parent.number)
        else t fd)

-- The program has the other ends as its standard input and output, and what the caller had open
-- that is not marked close-on-exec.
abbrev pub program_after : Kernel → Bool → Bool → Table → Table
program_after k supply ingest t fd =
    if supply && (fd == 0)
    then end_of false (read_end k.parent_to_child.number)
    else (if ingest && (fd == 1)
        then end_of false (write_end k.child_to_parent.number)
        else surviving (t fd))

-- The child's end of the input pipe, and of the output pipe.
abbrev pub input_end : Kernel → Descriptor
input_end k = record { file = read_end k.parent_to_child.number; cloexec = true }

abbrev pub output_end : Kernel → Descriptor
output_end k = record { file = write_end k.child_to_parent.number; cloexec = true }

module _ (k : Kernel) where
  unfoldable pub input_rewired : Table → Table
  input_rewired t = rewired k.parent_to_child.read_fd k.parent_to_child.write_fd 0 (input_end k) t

  unfoldable pub output_rewired : Table → Table
  output_rewired t = rewired k.child_to_parent.write_fd k.child_to_parent.read_fd 1 (output_end k) t

module _ (k : Kernel) (t : Table) where
  unfoldable pub both_open : Table
  both_open = open_pipe k.child_to_parent (open_pipe k.parent_to_child t)

module _ (k : Kernel) (t : Table) (v : IsServing k t) {d0 d1 : Descriptor} (input : t 0 ≡ some d0)
    (output : t 1 ≡ some d1) where
  pub input_read_standard : (k.parent_to_child.read_fd == 0) ≡ false
  input_read_standard = not_standard t k.parent_to_child.read_fd 0 v.input_read input

  pub output_write_standard : (k.child_to_parent.write_fd == 1) ≡ false
  output_write_standard = not_standard t k.child_to_parent.write_fd 1 v.output_write output

  pub both_program :
      (fd : ℕ)
      → executed (output_rewired k (input_rewired k (both_open k t))) fd
        ≡ program_after k true true t fd
  unfolding executed rewired open_pipe surviving input_rewired output_rewired both_open
  both_program fd = ground (
    arith,
    v.input_read,
    v.input_write,
    v.output_read,
    v.output_write,
    input_read_standard,
    not_standard t k.parent_to_child.write_fd 0 v.input_write input,
    not_standard t k.child_to_parent.read_fd 1 v.output_read output,
    output_write_standard,
  )

  pub input_program :
      (fd : ℕ)
      → executed (input_rewired k (open_pipe k.parent_to_child t)) fd
        ≡ program_after k true false t fd
  unfolding executed rewired open_pipe surviving input_rewired
  input_program fd = ground (
    arith,
    v.input_read,
    v.input_write,
    input_read_standard,
    not_standard t k.parent_to_child.write_fd 0 v.input_write input,
  )

  pub output_program :
      (fd : ℕ)
      → executed (output_rewired k (open_pipe k.child_to_parent t)) fd
        ≡ program_after k false true t fd
  unfolding executed rewired open_pipe surviving output_rewired
  output_program fd = ground (
    arith,
    v.output_read,
    v.output_write,
    output_write_standard,
    not_standard t k.child_to_parent.read_fd 1 v.output_read output,
  )

  pub both_caller :
      (fd : ℕ)
      → assign k.child_to_parent.write_fd none
          (assign k.parent_to_child.read_fd none (both_open k t))
          fd
        ≡ caller_after k true true t fd
  unfolding open_pipe both_open
  both_caller fd = ground (
    arith, v.input_read, v.output_write, v.input_ends, v.output_ends, v.reads, v.writes,
    v.read_write, v.write_read,
  )

  pub input_caller :
      (fd : ℕ)
      → assign k.parent_to_child.read_fd none (open_pipe k.parent_to_child t) fd
        ≡ caller_after k true false t fd
  unfolding open_pipe
  input_caller fd = ground (arith, v.input_read, v.input_ends)

  pub output_caller :
      (fd : ℕ)
      → assign k.child_to_parent.write_fd none (open_pipe k.child_to_parent t) fd
        ≡ caller_after k false true t fd
  unfolding open_pipe
  output_caller fd = ground (arith, v.output_write, v.output_ends)
