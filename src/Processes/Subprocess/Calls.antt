-- ===== src/Processes/Subprocess/Calls.antt =====
-- Every call of the two processes succeeds.
use cs.Base.{ℕ, ◌≡◌, ◌∙◌, [], ◌∷◌, ◌++◌, none, some, true, false, ◌==◌}
use cs.Processes.Descriptors.{
  read_end, write_end, Descriptor, Table, assign, open_pipe, close_fd, completed, perform,
}
use cs.Processes.Descriptors.Rewire.{
  perform-close, assign_other, perform-rewire, rewired_other, not_standard, flipped, end_of,
  open_pipe_read, open_pipe_write, open_pipe_other,
}
use cs.Processes.Subprocess.{Kernel, rewire, child_actions, close_if}
use cs.Processes.Subprocess.Tables.{
  IsServing, input_end, output_end, input_rewired, output_rewired, both_open, input_read_standard,
  output_write_standard,
}

module _ (k : Kernel) (t : Table) (v : IsServing k t) {d0 d1 : Descriptor} (input : t 0 ≡ some d0)
    (output : t 1 ≡ some d1) where
  both_input_read : both_open k t k.parent_to_child.read_fd ≡ some (input_end k)
  unfolding both_open
  both_input_read =
      open_pipe_other k.child_to_parent (open_pipe k.parent_to_child t) k.parent_to_child.read_fd
        v.reads v.read_write
      ∙ open_pipe_read k.parent_to_child t v.input_ends

  both_input_write :
      both_open k t k.parent_to_child.write_fd ≡ end_of true (write_end k.parent_to_child.number)
  unfolding both_open
  both_input_write =
      open_pipe_other k.child_to_parent (open_pipe k.parent_to_child t) k.parent_to_child.write_fd
        v.write_read v.writes
      ∙ open_pipe_write k.parent_to_child t

  both_output_write : both_open k t k.child_to_parent.write_fd ≡ some (output_end k)
  unfolding both_open
  both_output_write = open_pipe_write k.child_to_parent (open_pipe k.parent_to_child t)

  both_output_read :
      both_open k t k.child_to_parent.read_fd ≡ end_of true (read_end k.child_to_parent.number)
  unfolding both_open
  both_output_read =
      open_pipe_read k.child_to_parent (open_pipe k.parent_to_child t)
        (flipped k.child_to_parent.write_fd k.child_to_parent.read_fd v.output_ends)

  -- The input's calls leave the output pipe alone.
  rewired_output :
      (fd : ℕ)
      → (k.parent_to_child.read_fd == fd) ≡ false
      → (k.parent_to_child.write_fd == fd) ≡ false
      → (fd == 0) ≡ false
      → input_rewired k (both_open k t) fd ≡ (both_open k t) fd
  unfolding input_rewired
  rewired_output fd e f g =
      rewired_other k.parent_to_child.read_fd k.parent_to_child.write_fd 0 fd (input_end k)
        (both_open k t) (flipped k.parent_to_child.read_fd fd e)
        (flipped k.parent_to_child.write_fd fd f) g

  pub both_actions :
      perform (child_actions k true true) (both_open k t)
      ≡ completed (output_rewired k (input_rewired k (both_open k t)))
  unfolding child_actions rewire input_rewired output_rewired perform
  both_actions =
      perform-rewire k.parent_to_child.read_fd k.parent_to_child.write_fd 0
        (rewire true k.child_to_parent.write_fd k.child_to_parent.read_fd 1) (both_open k t)
        both_input_read both_input_write v.input_ends (input_read_standard k t v input output)
      ∙ perform-rewire k.child_to_parent.write_fd k.child_to_parent.read_fd 1 []
          (input_rewired k (both_open k t))
          (rewired_output k.child_to_parent.write_fd v.read_write v.writes
              (not_standard t k.child_to_parent.write_fd 0 v.output_write input)
            ∙ both_output_write)
          (rewired_output k.child_to_parent.read_fd v.reads v.write_read
              (not_standard t k.child_to_parent.read_fd 0 v.output_read input)
            ∙ both_output_read)
          v.output_ends (output_write_standard k t v input output)

  pub input_actions :
      perform (child_actions k true false) (open_pipe k.parent_to_child t)
      ≡ completed (input_rewired k (open_pipe k.parent_to_child t))
  unfolding child_actions rewire input_rewired perform
  input_actions =
      perform-rewire k.parent_to_child.read_fd k.parent_to_child.write_fd 0 []
        (open_pipe k.parent_to_child t) (open_pipe_read k.parent_to_child t v.input_ends)
        (open_pipe_write k.parent_to_child t) v.input_ends (input_read_standard k t v input output)

  pub output_actions :
      perform (child_actions k false true) (open_pipe k.child_to_parent t)
      ≡ completed (output_rewired k (open_pipe k.child_to_parent t))
  unfolding child_actions rewire output_rewired perform
  output_actions =
      perform-rewire k.child_to_parent.write_fd k.child_to_parent.read_fd 1 []
        (open_pipe k.child_to_parent t) (open_pipe_write k.child_to_parent t)
        (open_pipe_read k.child_to_parent t
          (flipped k.child_to_parent.write_fd k.child_to_parent.read_fd v.output_ends))
        v.output_ends (output_write_standard k t v input output)

  pub both_closes :
      perform
        (close_if true k.parent_to_child.read_fd ++ close_if true k.child_to_parent.write_fd)
        (both_open k t)
      ≡ completed (
          assign k.child_to_parent.write_fd none
            (assign k.parent_to_child.read_fd none (both_open k t)))
  unfolding close_if perform
  both_closes =
      perform-close k.parent_to_child.read_fd (close_fd k.child_to_parent.write_fd ∷ [])
        (both_open k t) both_input_read
      ∙ perform-close k.child_to_parent.write_fd []
          (assign k.parent_to_child.read_fd none (both_open k t))
          (assign_other k.parent_to_child.read_fd k.child_to_parent.write_fd none (both_open k t)
              (flipped k.parent_to_child.read_fd k.child_to_parent.write_fd v.read_write)
            ∙ both_output_write)

  pub input_closes :
      perform
        (close_if true k.parent_to_child.read_fd ++ close_if false k.child_to_parent.write_fd)
        (open_pipe k.parent_to_child t)
      ≡ completed (assign k.parent_to_child.read_fd none (open_pipe k.parent_to_child t))
  unfolding close_if perform
  input_closes =
      perform-close k.parent_to_child.read_fd [] (open_pipe k.parent_to_child t)
        (open_pipe_read k.parent_to_child t v.input_ends)

  pub output_closes :
      perform
        (close_if false k.parent_to_child.read_fd ++ close_if true k.child_to_parent.write_fd)
        (open_pipe k.child_to_parent t)
      ≡ completed (assign k.child_to_parent.write_fd none (open_pipe k.child_to_parent t))
  unfolding close_if perform
  output_closes =
      perform-close k.child_to_parent.write_fd [] (open_pipe k.child_to_parent t)
        (open_pipe_write k.child_to_parent t)
