-- ===== src/Processes/Tests.antt =====
-- Runs of subprocess and pipeline on a caller whose terminal is on the descriptors 0 to 2.
use cs.Base.{ℕ, ◌≡◌, refl, none, some, true, false, ltb, if◌then◌else◌}
use cs.Processes.Descriptors.{other_file, Descriptor, Table, Pipe}
use cs.Processes.Subprocess.{Child, runs, launched, used, subprocess}
use cs.Processes.Subprocess.Tables.{IsServing, caller_after, program_after}
use cs.Processes.Subprocess.Wiring.{subprocess_wires}

abbrev terminal : Descriptor
terminal = record { file = other_file 0; cloexec = false }

abbrev shell_table : Table
shell_table = λ fd. if ltb fd 3 then some terminal else none

abbrev to_child : Pipe
to_child = record { number = 0; read_fd = 3; write_fd = 4 }

abbrev to_parent : Pipe
to_parent = record { number = 1; read_fd = 5; write_fd = 6 }

abbrev quiet : cs.Processes.Subprocess.Kernel
quiet = record {
  parent_to_child = to_child;
  child_to_parent = to_parent;
  input_pipe_fails = false;
  output_pipe_fails = false;
  fork_fails = false;
  exec_fails = false;
}

quiet-IsServing : IsServing quiet shell_table
quiet-IsServing = record {
  input_pipe = refl;
  output_pipe = refl;
  fork = refl;
  exec = refl;
  input_read = refl;
  input_write = refl;
  output_read = refl;
  output_write = refl;
  input_ends = refl;
  output_ends = refl;
  reads = refl;
  writes = refl;
  read_write = refl;
  write_read = refl;
}

subprocess_wires_example :
    (caller program : Table) × (subprocess quiet true true shell_table
      ≡ launched caller (runs program) (used true 4) (used true 5))
    × ((fd : ℕ) → caller fd ≡ caller_after quiet true true shell_table fd)
    × ((fd : ℕ) → program fd ≡ program_after quiet true true shell_table fd)
subprocess_wires_example = subprocess_wires quiet shell_table quiet-IsServing refl refl true true

-- The second fork fails, and the first program cannot be run.
abbrev unlucky : cs.Processes.Pipeline.Kernel
unlucky = record {
  pipe = to_child;
  first_fork_fails = false;
  second_fork_fails = true;
  first_exec_fails = true;
  second_exec_fails = false;
}
