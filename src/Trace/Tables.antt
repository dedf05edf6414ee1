-- ===== src/Trace/Tables.antt =====
-- assign3/trace-error-constants.cc, and the table of numbers of trace-system-calls.cc. The regular
-- expressions are parameters: the two groups of a line that matches. So are the files: their text,
-- none where they cannot be opened.
use cs.Base.{ℕ, zero, suc, List, [], ◌∷◌, Option, none, some, true, false, length}
use cs.Base.Text.{Text}
use cs.Base.TextOrder.{Text_order}
use cs.Base.Map.{insert, ℤ_order}
use cs.Base.Int.{ℤ}
use cs.Base.Number.{stoi}
use cs.Base.Stream.{getline}

-- The lines that getline reads before it fails. A round reads a character, so the length of the
-- text is fuel enough.
unfoldable pub lines_of : ℕ → Text → List Text
lines_of zero s = []
lines_of (suc fuel) s = elim ((getline s).failed) [
  | true ↦ []
  | false ↦ (getline s).content ∷ lines_of fuel (getline s).rest
]

unfoldable pub read_lines : Text → List Text
unfolding lines_of
read_lines s = lines_of (suc (length s)) s

abbrev pub ErrorConstants : Type 0
ErrorConstants = List (ℤ × Text)

module _ (groups : Text → Option (Text × Text)) where
  -- processLine: the name and the number of a line that matches; none where stoi throws
  unfoldable pub note_error : Text → Text → ErrorConstants → Option ErrorConstants
  note_error name number table = elim (stoi number) [
    | none ↦ none
    | some n ↦ some (insert n name table)
  ]

  unfoldable pub process_line : Text → ErrorConstants → Option ErrorConstants
  unfolding note_error
  process_line line table = elim (groups line) [
    | none ↦ some table
    | some (name, number) ↦ note_error name number table
  ]

  unfoldable pub process_lines : List Text → ErrorConstants → Option ErrorConstants
  unfolding process_line
  process_lines [] table = some table
  process_lines (line ∷ lines) table = elim (process_line line table) [
    | none ↦ none
    | some table' ↦ process_lines lines table'
  ]

  -- compileSystemCallErrorStrings: none also where MissingFileException is thrown
  unfoldable pub compile_error_strings : List (Option Text) → ErrorConstants → Option ErrorConstants
  unfolding process_lines read_lines
  compile_error_strings [] table = some table
  compile_error_strings (none ∷ files) table = none
  compile_error_strings (some content ∷ files) table =
      elim (process_lines (read_lines content) table) [
        | none ↦ none
        | some table' ↦ compile_error_strings files table'
      ]

-- systemCallNumbers and systemCallNames
pub record Calls : Type 0 where
  pub numbers : List (ℤ × Text)
  pub names : List (Text × ℤ)

unfoldable pub add_call : Text → ℤ → Calls → Calls
add_call name n c = record { numbers = insert n name c.numbers; names = insert name n c.names }

module _ (groups : Text → Option (Text × Text)) where
  unfoldable pub collect_line : Text → Calls → Option Calls
  unfolding add_call
  collect_line line c = elim (groups line) [
    | none ↦ some c
    | some (name, number) ↦ elim (stoi number) [ none ↦ none | some n ↦ some (add_call name n c) ]
  ]

  unfoldable pub collect_lines : List Text → Calls → Option Calls
  unfolding collect_line
  collect_lines [] c = some c
  collect_lines (line ∷ lines) c = elim (collect_line line c) [
    | none ↦ none
    | some c' ↦ collect_lines lines c'
  ]

  -- collectSystemCallNumbers
  unfoldable pub collect_numbers : Option Text → Calls → Option Calls
  unfolding collect_lines read_lines
  collect_numbers none c = none
  collect_numbers (some content) c = collect_lines (read_lines content) c
