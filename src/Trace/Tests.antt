-- ===== src/Trace/Tests.antt =====
-- Signatures, a memory and a macro, and the theorems applied to them.
use cs.Base.{
  ℕ, suc, ◌+◌, ◌≡◌, ◌≢◌, ◌<◌, ◌⊎◌, refl, [], ◌∷◌, none, some, true, false, ◌||◌, arith, length, ltb,
  if◌then◌else◌, All,
}
use cs.Base.Text.{Text, codes, lt_text}
use cs.Base.Stream.Words.{is_word}
use cs.Base.Number.{is_space}
use cs.Trace.Params.{integer, string, pointer, has_char}
use cs.Trace.Signatures.{Signatures, ingest_macro}
use cs.Trace.Signatures.Macro.{ingest_macro-ends}
use cs.Trace.Store.{show_signatures, load_signatures}
use cs.Base.Ascending.{IsOrdered}
use cs.Trace.Store.RoundTrip.{IsStorable, load_signatures-show_signatures}
use cs.Trace.Print.{bytes_at, read_string}
use cs.Trace.Print.Strings.{read_string-bytes_at}

abbrev two_signatures : Signatures
two_signatures = (codes "brk", pointer ∷ []) ∷ (codes "open", string ∷ integer ∷ integer ∷ []) ∷ []

two_signatures-IsOrdered : IsOrdered two_signatures
unfolding lt_text
two_signatures-IsOrdered = ((refl, tt), (tt, tt))

two_signatures-All-IsStorable : All IsStorable two_signatures
unfolding is_word is_space
two_signatures-All-IsStorable = ((refl, omega arith), ((refl, omega arith), tt))

load_signatures-show_signatures_example :
    load_signatures (show_signatures two_signatures) [] ≡ some two_signatures
load_signatures-show_signatures_example =
    load_signatures-show_signatures two_signatures two_signatures-IsOrdered
      two_signatures-All-IsStorable

-- Eleven times the letter x from address 0, then zeros.
abbrev filled : ℕ → ℕ
filled a = if ltb a 11 then b'x' else 0

filled_end : filled (2 + 9) ≡ 0
filled_end = refl

filled_before : (k : ℕ) → k < 9 → filled (2 + k) ≢ 0
filled_before k h e = ground (arith, h, e)

read_string-bytes_at_example : read_string 10 filled 2 ≡ some (bytes_at filled 2 9)
read_string-bytes_at_example =
    read_string-bytes_at 10 9 filled 2 (omega arith) filled_end filled_before

abbrev first_line : Text
first_line = codes "SYSCALL_DEFINE1(brk,"

abbrev second_line : Text
second_line = codes " long, x)"

ingest_macro-ends_example :
    ((r : Text × Text) × (ingest_macro (suc (length second_line)) first_line second_line ≡ some r)
      × (has_char b')' r.0 ≡ true))
    ⊎ (((has_char b')' first_line || has_char b')' second_line) ≡ false)
        × (ingest_macro 5 first_line second_line ≡ none))
ingest_macro-ends_example = ingest_macro-ends 5 first_line second_line
