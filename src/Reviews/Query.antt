-- ===== src/Reviews/Query.antt =====
-- assign1/amazon.cc: convertQuery, which cuts a query into terms and the terms into words. The
-- classes of characters are those of the C locale.
pub mod Clean
use cs.Base.{
  ℕ, ◌+◌, List, [], ◌∷◌, ◌++◌, Option, none, some, Bool, true, false, not, ◌&&◌, ◌||◌, ◌==◌, leb,
  if◌then◌else◌, is_empty,
}
use cs.Base.Text.{Text}

unfoldable pub to_lower : ℕ → ℕ
to_lower c = if leb 65 c && leb c 90 then c + 32 else c

unfoldable pub is_alnum : ℕ → Bool
is_alnum c = (leb b'0' c && leb c b'9') || (leb b'A' c && leb c b'Z') || (leb b'a' c && leb c b'z')

-- Is a character of the lower-cased query kept?
unfoldable pub is_kept : ℕ → Bool
unfolding is_alnum
is_kept c = is_alnum c || (c == b'"') || (c == 32) || (c == b'-')

unfoldable pub normalize : Text → Text
unfolding to_lower is_kept
normalize [] = []
normalize (c ∷ s) =
    let rest = normalize s in if is_kept (to_lower c) then to_lower c ∷ rest else rest

-- allSearchTerms, currentTerms, currentTerm, quoteFound
pub record Parsing : Type 0 where
  pub all_terms : List (List Text)
  pub terms : List Text
  pub word : Text
  pub quote_found : Bool

-- The word is put behind the others, unless it is empty.
unfoldable pub end_word : Parsing → Parsing
end_word p = if is_empty p.word then p else record p { terms = p.terms ++ (p.word ∷ []); word = [] }

unfoldable pub end_term : Parsing → Parsing
end_term p =
    if is_empty p.terms
    then p
    else record p { all_terms = p.all_terms ++ (p.terms ∷ []); terms = [] }

-- A quotation mark, once quoteFound is toggled: the word ends with the quotation.
unfoldable pub take_quote : Parsing → Parsing
unfolding end_word
take_quote p = if p.quote_found then p else end_word p

unfoldable pub take_space : Parsing → Parsing
unfolding end_term
take_space p = if p.quote_found then p else end_term p

-- One round of the loop over the characters.
unfoldable pub take_char : ℕ → Parsing → Parsing
unfolding take_quote take_space end_word
take_char c p =
    if c == b'"'
    then take_quote (record p { quote_found = not p.quote_found })
    else (if c == 32
        then take_space (end_word p)
        else (if c == b'-' then end_word p else record p { word = p.word ++ (c ∷ []) }))

unfoldable pub take_chars : Text → Parsing → Parsing
unfolding take_char
take_chars [] p = p
take_chars (c ∷ s) p = take_chars s (take_char c p)

abbrev pub no_terms : Parsing
no_terms = record { all_terms = []; terms = []; word = []; quote_found = false }

-- convertQuery
unfoldable pub convert_query : Text → List (List Text)
unfolding normalize take_chars end_word end_term
convert_query query = (end_term (end_word (take_chars (normalize query) no_terms))).all_terms
