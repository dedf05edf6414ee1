-- ===== src/Processes/Subprocess/Wiring.antt =====
-- What the two processes have open once subprocess has succeeded.
use cs.Base.{ℕ, ◌≡◌, refl, ◌++◌, none, some, Bool, true, false}
use cs.Processes.Descriptors.{Descriptor, Table, assign, open_pipe, completed, perform, executed}
use cs.Processes.Subprocess.{
  Kernel, runs, launched, with_pipe, rewire, child_actions, execute, close_if, used, settle, forked,
  subprocess,
}
use cs.Processes.Subprocess.Tables.{
  IsServing, caller_after, program_after, input_rewired, output_rewired, both_open, both_program,
  input_program, output_program, both_caller, input_caller, output_caller,
}
use cs.Processes.Subprocess.Calls.{
  both_actions, input_actions, output_actions, both_closes, input_closes, output_closes,
}

module _ (k : Kernel) (t : Table) (v : IsServing k t) {d0 d1 : Descriptor} (input : t 0 ≡ some d0)
    (output : t 1 ≡ some d1) where
  forked_lem :
      (supply ingest : Bool) (u : Table) {program caller : Table}
      → perform (child_actions k supply ingest) u ≡ completed program
      → perform
          (close_if supply k.parent_to_child.read_fd ++ close_if ingest k.child_to_parent.write_fd)
          u
        ≡ completed caller
      → forked k supply ingest u
        ≡ launched caller
            (runs (executed program))
            (used supply k.parent_to_child.write_fd)
            (used ingest k.child_to_parent.read_fd)
  unfolding forked settle execute
  forked_lem supply ingest u e f = rw (v.fork, e, f, v.exec) refl

  -- If no call fails, the kernel's descriptors are not in use, and standard input and output are
  -- open, subprocess returns the write end of the input pipe and the read end of the output pipe,
  -- as far as they are asked for. The caller has these two more than before and nothing else; the
  -- program has the other ends as its standard input and output, what the caller had that is not
  -- marked close-on-exec, and nothing else.
  pub subprocess_wires :
      (supply ingest : Bool)
      → (caller program : Table) × (subprocess k supply ingest t
          ≡ launched caller
              (runs program)
              (used supply k.parent_to_child.write_fd)
              (used ingest k.child_to_parent.read_fd))
        × ((fd : ℕ) → caller fd ≡ caller_after k supply ingest t fd)
        × ((fd : ℕ) → program fd ≡ program_after k supply ingest t fd)
  unfolding subprocess with_pipe both_open output_rewired input_rewired
  subprocess_wires true true = (
    assign k.child_to_parent.write_fd none (assign k.parent_to_child.read_fd none (both_open k t)),
    executed (output_rewired k (input_rewired k (both_open k t))),
    rw (v.input_pipe, v.output_pipe)
        (forked_lem true true (both_open k t) (both_actions k t v input output)
          (both_closes k t v input output)),
    (both_caller k t v input output),
    (both_program k t v input output),
  )
  subprocess_wires true false = (
    assign k.parent_to_child.read_fd none (open_pipe k.parent_to_child t),
    executed (input_rewired k (open_pipe k.parent_to_child t)),
    rw v.input_pipe (
        forked_lem true false (open_pipe k.parent_to_child t) (input_actions k t v input output)
          (input_closes k t v input output)),
    (input_caller k t v input output),
    (input_program k t v input output),
  )
  subprocess_wires false true = (
    assign k.child_to_parent.write_fd none (open_pipe k.child_to_parent t),
    executed (output_rewired k (open_pipe k.child_to_parent t)),
    rw v.output_pipe (
        forked_lem false true (open_pipe k.child_to_parent t) (output_actions k t v input output)
          (output_closes k t v input output)),
    (output_caller k t v input output),
    (output_program k t v input output),
  )
  subprocess_wires false false = (
    t,
    executed t,
    forked_lem false false t (unfold child_actions rewire perform in refl)
        (unfold close_if perform in refl),
    λ fd. refl,
    λ fd. unfold executed in refl,
  )
