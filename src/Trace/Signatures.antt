-- ===== src/Trace/Signatures.antt =====
-- assign3/trace-system-calls.cc: the signatures that the kernel's source files declare. The regular
-- expressions and trim of string-utils.h are parameters; a file that cannot be opened reads as empty.
pub mod Macro
use cs.Base.{
  ℕ, zero, suc, ◌*◌, ◌+◌, List, [], ◌∷◌, ◌++◌, Option, none, some, Bool, true, false, not, ◌==◌,
  length, if◌then◌else◌, get_or,
}
use cs.Base.Text.{Text}
use cs.Base.TextOrder.{Text_order}
use cs.Base.Map.{Order, lookup, insert}
use cs.Base.Int.{ℤ, pos_part}
use cs.Base.Number.{stoi}
use cs.Base.Stream.{Line, getline}
use cs.Trace.Params.{Signature, ParamType, normalize_type, has_char}

abbrev pub Signatures : Type 0
Signatures = List (Text × Signature)

-- The loop of ingestEntireMacro: getline past the end of the file reads an empty line, and is not
-- checked. none: the fuel has run out.
unfoldable pub ingest_macro : ℕ → Text → Text → Option (Text × Text)
ingest_macro zero macro s = if has_char b')' macro then some (macro, s) else none
ingest_macro (suc fuel) macro s = elim (has_char b')' macro) [
  | true ↦ some (macro, s)
  | false ↦ ingest_macro fuel (macro ++ (getline s).content) (getline s).rest
]

-- The regular expressions, as the groups of a text that matches: the first line of a macro; the
-- digit and the name; and for a number of arguments their types and names in turn.
pub record Patterns : Type 0 where
  pub is_macro : Text → Bool
  pub name_and_count : Text → Option (Text × Text)
  pub arguments : ℕ → Text → Option (List Text)

abbrev pub present {ℓ} : {A : Type ℓ} → Option A → Bool
present none = false
present (some a) = true

module _ (trim : Text → Text) (re : Patterns) where
  -- The types at the even places.
  unfoldable pub types_of : List Text → Signature
  types_of [] = []
  types_of (type ∷ []) = []
  types_of (type ∷ name ∷ rest) = normalize_type (trim type) ∷ types_of rest

  -- processSystemCallArguments: none where an assertion fails
  unfoldable pub process_arguments : Text → ℕ → Option Signature
  unfolding types_of
  process_arguments macro n = elim (re.arguments n macro) [
    | none ↦ none
    | some groups ↦ if length groups == 2 * n then some (types_of groups) else none
  ]

  -- A name that is known, and not yet there, gets a signature.
  unfoldable pub add_signature : Text → Text → ℕ → Signatures → Option Signatures
  unfolding process_arguments
  add_signature macro name n sigs =
      if n == 0 then some (insert name [] sigs) else (elim (process_arguments macro n) [
        | none ↦ none
        | some sig ↦ some (insert name sig sigs)
      ])

  unfoldable pub process_named : Text → Text → ℤ → List (Text × ℤ) → Signatures → Option Signatures
  unfolding add_signature
  process_named macro name count names sigs =
      if present (lookup name names)
      then (if present (lookup name sigs)
          then some sigs
          else add_signature macro name (pos_part count) sigs)
      else some sigs

  -- processSystemCallSignature
  unfoldable pub process_signature : Text → List (Text × ℤ) → Signatures → Option Signatures
  unfolding process_named
  process_signature macro names sigs = elim (re.name_and_count macro) [
    | none ↦ none
    | some (count, name) ↦ elim (stoi count) [
      | none ↦ none
      | some n ↦ process_named macro (trim name) n names sigs
    ]
  ]

  -- A macro that was found, and the rest of the file behind it.
  unfoldable pub process_macro :
      Option (Text × Text) → List (Text × ℤ) → Signatures → Option (Signatures × Text)
  unfolding process_signature
  process_macro none names sigs = none
  process_macro (some (macro, rest)) names sigs = elim (process_signature macro names sigs) [
    | none ↦ none
    | some sigs' ↦ some (sigs', rest)
  ]

  -- One line of a source file; none where the program does not go on.
  unfoldable pub process_source_line :
      Text → Text → List (Text × ℤ) → Signatures → Option (Signatures × Text)
  unfolding process_macro ingest_macro
  process_source_line line rest names sigs =
      if re.is_macro line
      then process_macro (ingest_macro (suc (length rest)) line rest) names sigs
      else some (sigs, rest)

  -- The loop of processSignaturesWithinKernelSourceFile. A round reads a character.
  unfoldable pub process_source : ℕ → Text → List (Text × ℤ) → Signatures → Option Signatures
  unfolding process_source_line
  process_source zero s names sigs = none
  process_source (suc fuel) s names sigs = elim ((getline s).failed) [
    | true ↦ some sigs
    | false ↦ elim (process_source_line (getline s).content (getline s).rest names sigs) [
      | none ↦ none
      | some (sigs', rest) ↦ process_source fuel rest names sigs'
    ]
  ]

  -- processAllKernelSourceFiles, given the text of each file
  unfoldable pub process_sources : List Text → List (Text × ℤ) → Signatures → Option Signatures
  unfolding process_source
  process_sources [] names sigs = some sigs
  process_sources (s ∷ files) names sigs = elim (process_source (suc (length s)) s names sigs) [
    | none ↦ none
    | some sigs' ↦ process_sources files names sigs'
  ]
