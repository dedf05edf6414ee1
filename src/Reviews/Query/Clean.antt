-- ===== src/Reviews/Query/Clean.antt =====
-- What the terms of a query look like.
use cs.Base.{
  ℕ, ◌≡◌, inl, inr, refl, List, [], ◌∷◌, ◌++◌, Bool, true, false, not, ◌&&◌, ◌||◌, ◌==◌, leb, arith,
  All, all, is_empty, Bool-cases, if◌then◌else◌,
}
use cs.Base.Text.{Text}
use cs.Reviews.Query.{
  to_lower, is_kept, normalize, Parsing, end_word, end_term, take_quote, take_space, take_char,
  take_chars, no_terms, convert_query,
}

-- A digit or a lower-case letter.
abbrev pub is_lower_alnum : ℕ → Bool
is_lower_alnum c = (leb b'0' c && leb c b'9') || (leb b'a' c && leb c b'z')

abbrev pub IsWord : Text → Type 0
IsWord w = (is_empty w ≡ false) × (all is_lower_alnum w ≡ true)

-- A term has at least one word.
abbrev pub IsTerm : List Text → Type 0
IsTerm ws = (is_empty ws ≡ false) × All IsWord ws

-- A character that is kept and separates nothing is part of a word.
abbrev pub is_plain : ℕ → Bool
is_plain c = is_lower_alnum c || (c == b'"') || (c == 32) || (c == b'-')

to_lower_small : (c : ℕ) → (leb b'A' (to_lower c) && leb (to_lower c) b'Z') ≡ false
unfolding to_lower
to_lower_small c = ground arith

without_capitals :
    (digit upper lower q s m : Bool)
    → upper ≡ false
    → (digit || upper || lower || q || s || m) ≡ true
    → (digit || lower || q || s || m) ≡ true
without_capitals digit true lower q s m e h = cc
without_capitals true false lower q s m e h = h
without_capitals false false lower q s m e h = h

kept_plain : (c : ℕ) → is_kept (to_lower c) ≡ true → is_plain (to_lower c) ≡ true
unfolding is_kept
kept_plain c h =
    let d = to_lower c in
    without_capitals (leb b'0' d && leb d b'9') (leb b'A' d && leb d b'Z')
      (leb b'a' d && leb d b'z') (d == b'"') (d == 32) (d == b'-') (to_lower_small c) h

plain_if :
    (b : Bool) (d : ℕ) (rest : Text)
    → (b ≡ true → is_plain d ≡ true)
    → all is_plain rest ≡ true
    → all is_plain (if b then d ∷ rest else rest) ≡ true
plain_if true d rest e h = rw (e refl, h) refl
plain_if false d rest e h = h

normalize_plain : (s : Text) → all is_plain (normalize s) ≡ true
unfolding normalize
normalize_plain [] = refl
normalize_plain (c ∷ s) =
    plain_if (is_kept (to_lower c)) (to_lower c) (normalize s) (kept_plain c) (normalize_plain s)

record IsClean (p : Parsing) : Type 0 where
  done : All IsTerm p.all_terms
  words : All IsWord p.terms
  started : all is_lower_alnum p.word ≡ true

All-snoc {ℓ κ} :
    {A : Type ℓ} (P : A → Type κ) (xs : List A) (x : A) → All P xs → P x → All P (xs ++ (x ∷ []))
All-snoc P [] x h q = (q, tt)
All-snoc P (y ∷ xs) x h q = (h.0, All-snoc P xs x h.1 q)

all-snoc :
    (s : Text) (c : ℕ)
    → all is_lower_alnum s ≡ true
    → is_lower_alnum c ≡ true
    → all is_lower_alnum (s ++ (c ∷ [])) ≡ true
all-snoc [] c h q = ground (arith, q)
all-snoc (d ∷ s) c h q = ground (arith, all-snoc s c, q)

end_word-IsClean : (p : Parsing) → IsClean p → IsClean (end_word p)
unfolding end_word
end_word-IsClean p v = elim (Bool-cases (is_empty p.word)) [
  | inl e ↦ rw e v
  | inr f ↦ rw f (record {
    done = v.done;
    words = All-snoc IsWord p.terms p.word v.words (f, v.started);
    started = refl;
  })
]

end_term-IsClean : (p : Parsing) → IsClean p → IsClean (end_term p)
unfolding end_term
end_term-IsClean p v = elim (Bool-cases (is_empty p.terms)) [
  | inl e ↦ rw e v
  | inr f ↦ rw f (record {
    done = All-snoc IsTerm p.all_terms p.terms v.done (f, v.words);
    words = tt;
    started = v.started;
  })
]

-- Either branch of a test, with what the test says.
IsClean-if :
    (b : Bool) (p q : Parsing)
    → (b ≡ true → IsClean p)
    → (b ≡ false → IsClean q)
    → IsClean (if b then p else q)
IsClean-if true p q v w = v refl
IsClean-if false p q v w = w refl

add_char-IsClean :
    (c : ℕ) (p : Parsing)
    → is_lower_alnum c ≡ true
    → IsClean p
    → IsClean (record p { word = p.word ++ (c ∷ []) })
add_char-IsClean c p e v = record {
  done = v.done;
  words = v.words;
  started = all-snoc p.word c v.started e;
}

toggle-IsClean : (b : Bool) (p : Parsing) → IsClean p → IsClean (record p { quote_found = b })
toggle-IsClean b p v = record { done = v.done; words = v.words; started = v.started }

plain_letter :
    (c : ℕ)
    → is_plain c ≡ true
    → (c == b'"') ≡ false
    → (c == 32) ≡ false
    → (c == b'-') ≡ false
    → is_lower_alnum c ≡ true
plain_letter c e f g h = no_others (is_lower_alnum c) (c == b'"') (c == 32) (c == b'-') e f g h
  where
    no_others :
        (a q s m : Bool) → (a || q || s || m) ≡ true → q ≡ false → s ≡ false → m ≡ false → a ≡ true
    no_others true q s m e f g h = refl
    no_others false q s m e f g h = cc

take_char-IsClean : (c : ℕ) (p : Parsing) → is_plain c ≡ true → IsClean p → IsClean (take_char c p)
unfolding take_char take_quote take_space
take_char-IsClean c p e v =
    let toggled = record p { quote_found = not p.quote_found } in
    let ended = end_word-IsClean p v in
    let w : IsClean toggled = toggle-IsClean (not p.quote_found) p v in
    IsClean-if (c == b'"') (take_quote toggled) _
      (λ f.
        IsClean-if (not p.quote_found) toggled (end_word toggled) (λ g. w)
          (λ g. end_word-IsClean toggled w))
      (λ f.
        IsClean-if (c == 32) (take_space (end_word p)) _
          (λ g.
            IsClean-if (end_word p).quote_found (end_word p) (end_term (end_word p)) (λ h. ended)
              (λ h. end_term-IsClean (end_word p) ended))
          (λ g.
            IsClean-if (c == b'-') (end_word p) (record p { word = p.word ++ (c ∷ []) })
              (λ h. ended) (λ h. add_char-IsClean c p (plain_letter c e f g h) v)))

take_chars-IsClean :
    (s : Text) (p : Parsing) → all is_plain s ≡ true → IsClean p → IsClean (take_chars s p)
unfolding take_chars
take_chars-IsClean [] p e v = v
take_chars-IsClean (c ∷ s) p e v =
    take_chars-IsClean s (take_char c p) (ground (arith, e))
      (take_char-IsClean c p (ground (arith, e)) v)

-- On every query: each term has at least one word, no word is empty, and words hold only digits and
-- lower-case letters.
pub convert_query-IsTerm : (query : Text) → All IsTerm (convert_query query)
unfolding convert_query
convert_query-IsTerm query =
    (end_term-IsClean _ (
      end_word-IsClean _ (
        take_chars-IsClean (normalize query) no_terms (normalize_plain query)
          (record { done = tt; words = tt; started = refl })))).done
