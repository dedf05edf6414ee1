-- ===== src/Processes/Pipeline/Wires.antt =====
-- What the caller and the two programs of a pipeline have open.
use cs.Base.{ℕ, ◌≡◌, none, some, Bool, true, false, ◌==◌, if◌then◌else◌}
use cs.Processes.Descriptors.{
  OpenFile, read_end, write_end, Descriptor, Table, assign, Pipe, open_pipe, surviving,
}
use cs.Processes.Descriptors.Rewire.{end_of}
use cs.Processes.Pipeline.{Child, no_child, runs, returns}

-- The program has one end of the pipe as a standard descriptor, and what the caller had open that
-- is not marked close-on-exec.
abbrev pub program_after : OpenFile → ℕ → Table → Table
program_after file standard t fd = if fd == standard then end_of false file else surviving (t fd)

-- A copy of the caller has the same, and all that the caller had.
abbrev pub copy_after : OpenFile → ℕ → Table → Table
copy_after file standard t fd = if fd == standard then end_of false file else t fd

-- What a child is, given whether its fork and its execvp fail.
abbrev pub IsChild : Bool → Bool → Child → OpenFile → ℕ → Table → Type 0
IsChild true exec_fails c file standard t = c ≡ no_child
IsChild false false c file standard t =
    (u : Table) × (c ≡ runs u) × ((fd : ℕ) → u fd ≡ program_after file standard t fd)
IsChild false true c file standard t =
    (u : Table) × (c ≡ returns u) × ((fd : ℕ) → u fd ≡ copy_after file standard t fd)

module _ (p : Pipe) (t : Table) (no_read : t p.read_fd ≡ none) (no_write : t p.write_fd ≡ none)
    (ends : (p.read_fd == p.write_fd) ≡ false) where
  opened : Table
  opened = open_pipe p t

  half_closed : Table
  half_closed = assign p.write_fd none opened

module _ (p : Pipe) (t : Table) (no_read : t p.read_fd ≡ none) (no_write : t p.write_fd ≡ none)
    (ends : (p.read_fd == p.write_fd) ≡ false) {d0 d1 : Descriptor} (input : t 0 ≡ some d0)
    (output : t 1 ≡ some d1) where
  first_done : Table
  first_done =
      assign p.write_fd none
        (assign 1 (end_of false (write_end p.number)) (assign p.read_fd none (open_pipe p t)))

  second_done : Table
  second_done =
      assign p.read_fd none
        (assign 0 (end_of false (read_end p.number)) (half_closed p t no_read no_write ends))
