-- ===== src/Reviews/Tests.antt =====
-- An index of one keyword, queries and reviews, and the theorems applied to them.
use cs.Base.{
  ℕ, ◌<◌, ◌≡◌, ◌⊎◌, refl, ap, ◌∙◌, List, [], ◌∷◌, none, some, true, false, arith, get_or, All,
}
use cs.Base.Text.{codes, lt_text}
use cs.Base.TextOrder.{lt_text_irrefl}
use cs.Base.Int.{pos}
use cs.Reviews.Memory.{File, element_start, word_at}
use cs.Reviews.Keywords.{keyword_at, total, find_keyword}
use cs.Reviews.Keywords.Found.{IsSorted, Occurs, find_keyword_lem}
use cs.Reviews.Query.{convert_query}
use cs.Reviews.Query.Clean.{IsTerm, convert_query-IsTerm}
use cs.Reviews.Search.{search_terms}
use cs.Reviews.Search.Sets.{has}
use cs.Reviews.Search.Every.{in_every, search_terms-in_every}
use cs.Reviews.Record.{Review}
use cs.Reviews.Compare.{date, generic_review_compare}
use cs.Reviews.Compare.Strict.{generic_review_compare_below}

-- The keyword ab, which stands once, as word 2 of review 7.
abbrev index_bytes : List ℕ
index_bytes =
    1 ∷ 0 ∷ 0 ∷ 0 ∷ 8 ∷ 0 ∷ 0 ∷ 0 ∷ b'a' ∷ b'b' ∷ 0 ∷ 0 ∷ 1 ∷ 0 ∷ 0 ∷ 0 ∷ 7 ∷ 0 ∷ 0 ∷ 0 ∷ 2 ∷ 0 ∷ 0
    ∷ 0 ∷ []

abbrev small_index : File
small_index = record { byte = λ i. get_or index_bytes i 0; size = 24 }

small_index-IsSorted : IsSorted small_index
unfolding total word_at
small_index-IsSorted i j h k =
    ap (λ x. lt_text (keyword_at small_index x) (keyword_at small_index i)) (omega arith)
    ∙ lt_text_irrefl (keyword_at small_index i)

find_keyword_lem_example :
    ((i : ℕ) × (find_keyword small_index (codes "ab") ≡ some (element_start small_index i))
      × (i < total small_index)
      × (keyword_at small_index i ≡ codes "ab"))
    ⊎ ((find_keyword small_index (codes "ab") ≡ none) × ¬ (Occurs small_index (codes "ab")))
find_keyword_lem_example = find_keyword_lem small_index (codes "ab") small_index-IsSorted

convert_query-IsTerm_example : All IsTerm (convert_query (codes "TV \"did not work\" second-rate"))
convert_query-IsTerm_example = convert_query-IsTerm (codes "TV \"did not work\" second-rate")

search_terms-in_every_example :
    has 7 (search_terms small_index ((codes "ab" ∷ []) ∷ (codes "ab" ∷ []) ∷ []))
    ≡ in_every small_index 7 ((codes "ab" ∷ []) ∷ (codes "ab" ∷ []) ∷ [])
search_terms-in_every_example =
    search_terms-in_every small_index 7 (codes "ab" ∷ []) ((codes "ab" ∷ []) ∷ [])

-- A review of the first of January.
abbrev review_of : ℕ → Review
review_of year = record {
  index = 0;
  product_title = codes "Title";
  product_category = codes "Electronics";
  star_rating = pos 5;
  review_headline = codes "Good";
  review_body = codes "Works";
  review_year = pos year;
  review_month = pos 1;
  review_day = pos 1;
}

generic_review_compare_below_example :
    (generic_review_compare date false (review_of 2001) (review_of 2005) ≡ true)
    × (generic_review_compare date false (review_of 2005) (review_of 2001) ≡ false)
    × (generic_review_compare date true (review_of 2005) (review_of 2001) ≡ true)
    × (generic_review_compare date true (review_of 2001) (review_of 2005) ≡ false)
generic_review_compare_below_example =
    generic_review_compare_below date (review_of 2001) (review_of 2005) refl
