-- ===== src/Trace/Store.antt =====
-- assign3/trace-system-calls.cc: the file in which the signatures are kept between runs.
pub mod RoundTrip
use cs.Base.{
  ℕ, zero, suc, List, [], ◌∷◌, ◌++◌, Option, none, some, Bool, true, false, not, ◌&&◌, length,
  if◌then◌else◌, is_empty,
}
use cs.Base.Text.{Text}
use cs.Base.TextOrder.{Text_order}
use cs.Base.Map.{Order, lookup, insert}
use cs.Base.Int.{ℤ, pos, negsuc, pos_part}
use cs.Base.Number.{stoi, show_nat, skip_spaces}
use cs.Base.Stream.{read_word}
use cs.Trace.Params.{Signature, ParamType, show_param, read_param}
use cs.Trace.Tables.{Calls, collect_numbers}
use cs.Trace.Signatures.{Signatures, Patterns, process_sources}

unfoldable pub show_params : Signature → Text
unfolding show_param
show_params [] = []
show_params (t ∷ sig) = 32 ∷ (show_param t ++ show_params sig)

-- cacheSignatures: the text of the file
unfoldable pub show_signatures : Signatures → Text
unfolding show_params show_nat
show_signatures [] = []
show_signatures ((name, sig) ∷ sigs) =
    name ++ (32 ∷ (show_nat (length sig) ++ (show_params sig ++ (10 ∷ show_signatures sigs))))

-- systemCallSignatures[name], as operator[] finds or makes it
unfoldable pub signature_of : Option Signature → Signature
signature_of none = []
signature_of (some sig) = sig

-- systemCallSignatures[name].push_back(type)
unfoldable pub push_param : Text → ParamType → Signatures → Signatures
unfolding signature_of
push_param name t sigs = insert name (signature_of (lookup name sigs) ++ (t ∷ [])) sigs

unfoldable pub read_params : ℕ → Text → Text → Signatures → Text × Signatures
unfolding read_param push_param
read_params zero name s sigs = (s, sigs)
read_params (suc n) name s sigs =
    let (t, rest) = read_param s in read_params n name rest (push_param name t sigs)

-- systemCallSignatures[name]; alone: an entry is made if there is none
unfoldable pub touch : Text → Signatures → Signatures
unfolding signature_of
touch name sigs = insert name (signature_of (lookup name sigs)) sigs

-- One entry of the file behind its name; none where stoi throws.
unfoldable pub load_counted : Option ℤ → Text → Text → Signatures → Option (Text × Signatures)
unfolding read_params touch
load_counted none name s sigs = none
load_counted (some n) name s sigs = some (read_params (pos_part n) name s (touch name sigs))

unfoldable pub load_entry : Text → Text → Signatures → Option (Text × Signatures)
unfolding read_word load_counted
load_entry name s sigs = let (count, rest) = read_word s in load_counted (stoi count) name rest sigs

-- The loop of loadSignaturesFromCache. A round reads a word, so the length of the text is fuel
-- enough.
unfoldable pub load_loop : ℕ → Text → Signatures → Option Signatures
unfolding load_entry
load_loop zero s sigs = none
load_loop (suc fuel) s sigs =
    let (name, rest) = read_word s in
    elim (is_empty name) [
      | true ↦ some sigs
      | false ↦ elim (load_entry name rest sigs) [
        | none ↦ none
        | some (rest', sigs') ↦ load_loop fuel rest' sigs'
      ]
    ]

unfoldable pub load_signatures : Text → Signatures → Option Signatures
unfolding load_loop
load_signatures s sigs = load_loop (suc (length s)) s sigs

-- The two tables and the file, after the program has read what it needs.
pub record Compiled : Type 0 where
  pub calls : Calls
  pub signatures : Signatures
  pub cached : Option Text

module _ (trim : Text → Text) (re : Patterns) where
  -- collectSystemCallSignatures: the signatures, and the file as it is afterwards
  unfoldable pub rebuild_signatures :
      List Text → List (Text × ℤ) → Option (Signatures × Option Text)
  unfolding process_sources show_signatures
  rebuild_signatures files names = elim (process_sources trim re files names []) [
    | none ↦ none
    | some sigs ↦ some (sigs, some (show_signatures sigs))
  ]

  unfoldable pub collect_signatures :
      Bool → Option Text → List Text → List (Text × ℤ) → Option (Signatures × Option Text)
  unfolding rebuild_signatures load_signatures
  collect_signatures true cached files names = rebuild_signatures files names
  collect_signatures false none files names = rebuild_signatures files names
  collect_signatures false (some s) files names = elim (load_signatures s []) [
    | none ↦ none
    | some sigs ↦ some (sigs, some s)
  ]

  -- compileSystemCallData, on empty tables
  unfoldable pub compile_data :
      (Text → Option (Text × Text)) → Bool → Option Text → Option Text → List Text → Option Compiled
  unfolding collect_signatures
  compile_data groups rebuild header cached files =
      elim (collect_numbers groups header (record { numbers = []; names = [] })) [
        | none ↦ none
        | some calls ↦ elim (collect_signatures rebuild cached files calls.names) [
          | none ↦ none
          | some (sigs, cached') ↦
              some (record { calls = calls; signatures = sigs; cached = cached' })
        ]
      ]
