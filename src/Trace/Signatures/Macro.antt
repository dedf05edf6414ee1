-- ===== src/Trace/Signatures/Macro.antt =====
-- When the reading of a macro over several lines ends.
use cs.Base.{
  ℕ, zero, suc, ◌<◌, ◌≡◌, ◌⊎◌, inl, inr, refl, [], ◌∷◌, ◌++◌, none, some, Bool, true, false, ◌||◌,
  arith, length, ◌==◌, Bool-cases,
}
use cs.Base.Text.{Text, find_char}
use cs.Base.Stream.{getline, getline-length, split_at}
use cs.Trace.Params.{has_char}
use cs.Trace.Signatures.{ingest_macro}

has_char-cons : (c d : ℕ) (s : Text) → has_char c (d ∷ s) ≡ ((c == d) || has_char c s)
unfolding has_char find_char
has_char-cons c d s = ground arith

has_char-append : (c : ℕ) (s t : Text) → has_char c (s ++ t) ≡ (has_char c s || has_char c t)
has_char-append c [] t = unfold has_char find_char in refl
has_char-append c (d ∷ s) t =
    ground (arith, has_char-cons c d (s ++ t), has_char-cons c d s, has_char-append c s t)

-- Reading a line loses no character but the end of the line.
has_char-split_at :
    (c d : ℕ) (s : Text)
    → (c == d) ≡ false
    → has_char c s ≡ (has_char c (split_at d s).0 || has_char c (split_at d s).1)
unfolding split_at
has_char-split_at c d [] e = unfold has_char find_char in refl
has_char-split_at c d (x ∷ s) e = elim (Bool-cases (x == d)) [
  | inl end ↦ rw (split_at, end) (ground (arith, has_char-cons c x s, e, end, empty))
  | inr on ↦
      rw (split_at, on)
        (ground (
          arith,
          has_char-cons c x s,
          has_char-cons c x (split_at d s).0,
          has_char-split_at c d s e,
        ))
]
  where
    empty : has_char c [] ≡ false
    empty = unfold has_char find_char in refl

getline-has_char :
    (s : Text)
    → has_char b')' s ≡ (has_char b')' (getline s).content || has_char b')' (getline s).rest)
unfolding getline
getline-has_char s = has_char-split_at b')' 10 s refl

has_char_nil : has_char b')' [] ≡ false
unfolding has_char find_char
has_char_nil = refl

-- What a round leaves to be found.
round :
    (macro s : Text) (b : Bool)
    → (has_char b')' macro || has_char b')' s) ≡ b
    → (has_char b')' (macro ++ (getline s).content) || has_char b')' (getline s).rest) ≡ b
round macro s b e =
    ground (arith, getline-has_char s, has_char-append b')' macro (getline s).content)

ingest_macro_found :
    (fuel : ℕ) (macro s : Text)
    → length s < fuel
    → (has_char b')' macro || has_char b')' s) ≡ true
    → (r : Text × Text) × (ingest_macro fuel macro s ≡ some r) × (has_char b')' r.0 ≡ true)
unfolding ingest_macro
ingest_macro_found zero macro s h e = absurd (omega arith)
ingest_macro_found (suc fuel) macro [] h e =
    let here : has_char b')' macro ≡ true = ground (arith, has_char_nil, e) in
    ((macro, []), rw (ingest_macro, here) refl, here)
ingest_macro_found (suc fuel) macro (c ∷ s) h e = elim (Bool-cases (has_char b')' macro)) [
  | inl here ↦ ((macro, c ∷ s), rw (ingest_macro, here) refl, here)
  | inr absent ↦
      let (r, f, found) =
        ingest_macro_found fuel (macro ++ (getline (c ∷ s)).content) (getline (c ∷ s)).rest
          (omega (arith, (getline-length (c ∷ s)).1 (omega arith))) (round macro (c ∷ s) true e) in
      (r, rw (ingest_macro, absent) f, found)
]

ingest_macro_hangs :
    (fuel : ℕ) (macro s : Text)
    → (has_char b')' macro || has_char b')' s) ≡ false
    → ingest_macro fuel macro s ≡ none
unfolding ingest_macro
ingest_macro_hangs zero macro s e = ground (arith, e)
ingest_macro_hangs (suc fuel) macro s e =
    rw (ingest_macro, absent)
      (ingest_macro_hangs fuel (macro ++ (getline s).content) (getline s).rest
        (round macro s false e))
  where
    absent : has_char b')' macro ≡ false
    absent = ground (arith, e)

-- If there is a closing parenthesis in the first line or in the rest of the file, the loop ends, in
-- no more rounds than the file has characters and one more, with a macro that has one. If there is
-- none, it never ends: no number of rounds is enough.
pub ingest_macro-ends :
    (rounds : ℕ) (macro s : Text)
    → ((r : Text × Text) × (ingest_macro (suc (length s)) macro s ≡ some r)
        × (has_char b')' r.0 ≡ true))
      ⊎ (((has_char b')' macro || has_char b')' s) ≡ false) × (ingest_macro rounds macro s ≡ none))
ingest_macro-ends rounds macro s = elim (Bool-cases (has_char b')' macro || has_char b')' s)) [
  | inl e ↦ inl (ingest_macro_found (suc (length s)) macro s (omega arith) e)
  | inr e ↦ inr (e, ingest_macro_hangs rounds macro s e)
]
