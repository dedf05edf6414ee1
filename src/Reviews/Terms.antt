-- ===== src/Reviews/Terms.antt =====
-- assign1/amazon.cc: the reviews in which the words of a term stand one behind the other.
use cs.Base.{
  ℕ, zero, suc, ◌+◌, ◌/◌, ◌%◌, ◌≡◌, List, [], ◌∷◌, Option, none, some, Bool, true, false, ◌==◌,
  ◌||◌, ◌&&◌, if◌then◌else◌, ltb, length, arith,
}
use cs.Base.Text.{Text}
use cs.Base.Map.{Order, lookup, insert, ℕ_order}
use cs.Reviews.Memory.{File, word_at, string_at}
use cs.Reviews.Keywords.{find_keyword}

pub record KeywordInfo : Type 0 where
  pub review_index : ℕ
  pub review_portion : ℕ
  pub word_offset : ℕ

abbrev pub lt_info : KeywordInfo → KeywordInfo → Bool
lt_info a b =
    ltb a.review_index b.review_index
    || ((a.review_index == b.review_index) && ltb a.review_portion b.review_portion)
    || ((a.review_index == b.review_index)
        && (a.review_portion == b.review_portion)
        && ltb a.word_offset b.word_offset)

pub lt_info_irrefl : (a : KeywordInfo) → lt_info a a ≡ false
lt_info_irrefl a = ground arith

pub lt_info_equiv_trans :
    (a b c : KeywordInfo)
    → lt_info a b ≡ false
    → lt_info b a ≡ false
    → lt_info b c ≡ false
    → lt_info c b ≡ false
    → lt_info a c ≡ false
lt_info_equiv_trans a b c p q r s = ground arith

instance abbrev pub KeywordInfo_order : Order KeywordInfo
KeywordInfo_order = record {
  lt = lt_info;
  lt_irrefl = lt_info_irrefl;
  equiv_trans = lt_info_equiv_trans;
}

-- std::set: a map in which only the keys count
abbrev pub InfoSet : Type 0
InfoSet = List (KeywordInfo × Unit {0})

abbrev pub IndexSet : Type 0
IndexSet = List (ℕ × Unit {0})

-- parse_keyword_info, at an address
unfoldable pub parse_keyword_info : File → ℕ → KeywordInfo
unfolding word_at
parse_keyword_info f i = record {
  review_index = word_at f i;
  review_portion = word_at f (i + 4) / 16777216 % 256;
  word_offset = word_at f (i + 4) % 16777216;
}

-- The entries of the block, from an address.
unfoldable pub infos_from : File → ℕ → ℕ → List KeywordInfo
unfolding parse_keyword_info
infos_from f i zero = []
infos_from f i (suc n) = parse_keyword_info f i ∷ infos_from f (i + 8) n

-- The block behind a keyword: its text and NUL take an even number of bytes.
unfoldable pub infos_at : File → ℕ → List KeywordInfo
unfolding infos_from string_at
infos_at f ptr =
    let n = length (string_at f ptr) in
    let bytes = if n % 2 == 0 then n + 2 else n + 1 in
    infos_from f (ptr + bytes + 4) (word_at f (ptr + bytes))

-- prevKeywordInfo, in unsigned arithmetic
unfoldable pub previous : KeywordInfo → KeywordInfo
previous k = record k { word_offset = (k.word_offset + 4294967295) % 4294967296 }

unfoldable pub is_in : Option (Unit {0}) → Bool
is_in none = false
is_in (some x) = true

unfoldable pub first_infos : List KeywordInfo → InfoSet → InfoSet
first_infos [] set = set
first_infos (k ∷ ks) set = first_infos ks (insert k tt set)

unfoldable pub next_infos : InfoSet → List KeywordInfo → InfoSet → InfoSet
unfolding previous is_in
next_infos have [] set = set
next_infos have (k ∷ ks) set =
    next_infos have ks (if is_in (lookup (previous k) have) then insert k tt set else set)

-- The loop over the words behind the first; none where a word is not in the index.
unfoldable pub match_words : File → List Text → InfoSet → Option InfoSet
unfolding next_infos infos_at
match_words f [] have = some have
match_words f (word ∷ words) have = elim (find_keyword f word) [
  | none ↦ none
  | some ptr ↦ match_words f words (next_infos have (infos_at f ptr) [])
]

unfoldable pub review_indices : InfoSet → IndexSet → IndexSet
review_indices [] out = out
review_indices ((k, x) ∷ set) out = review_indices set (insert k.review_index tt out)

unfoldable pub indices_of : Option InfoSet → IndexSet
unfolding review_indices
indices_of none = []
indices_of (some set) = review_indices set []

-- findReviewsContainingTerm
unfoldable pub reviews_containing_term : File → List Text → IndexSet
unfolding match_words indices_of first_infos infos_at
reviews_containing_term f [] = []
reviews_containing_term f (word ∷ words) = elim (find_keyword f word) [
  | none ↦ []
  | some ptr ↦ indices_of (match_words f words (first_infos (infos_at f ptr) []))
]
