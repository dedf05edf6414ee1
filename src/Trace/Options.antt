-- ===== src/Trace/Options.antt =====
-- assign3/trace-options.cc. `starts` is startsWith of string-utils.h, which is not in the repository.
use cs.Base.{ℕ, suc, List, [], ◌∷◌, Option, none, some, Bool, true, false, if◌then◌else◌}
use cs.Base.Text.{Text, codes, eq_text}

pub record Flags : Type 0 where
  pub simple : Bool
  pub rebuild : Bool
  pub num_flags : ℕ

abbrev pub no_flags : Flags
no_flags = record { simple = false; rebuild = false; num_flags = 0 }

-- One round of the loop; none where TraceException is thrown.
unfoldable pub take_flag : Text → Flags → Option Flags
take_flag arg f =
    if eq_text arg (codes "--simple")
    then some (record f { simple = true; num_flags = suc f.num_flags })
    else (if eq_text arg (codes "--rebuild")
        then some (record f { rebuild = true; num_flags = suc f.num_flags })
        else none)

module _ (starts : Text → Text → Bool) where
  -- processCommandLineFlags, on the arguments after the program's name
  unfoldable pub process_flags : List Text → Flags → Option Flags
  unfolding take_flag
  process_flags [] f = some f
  process_flags (arg ∷ args) f = elim (starts arg (codes "--")) [
    | false ↦ some f
    | true ↦ elim (take_flag arg f) [ none ↦ none | some f' ↦ process_flags args f' ]
  ]
