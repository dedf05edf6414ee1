-- ===== src/Reviews/Search.antt =====
-- assign1/amazon.cc: searchKeywordIndex, the reviews that contain every term of a query.
pub mod Sets
pub mod Every
use cs.Base.{
  ℕ, zero, suc, ◌+◌, List, [], ◌∷◌, ◌++◌, Option, none, some, Bool, true, false, not, ltb, length,
  if◌then◌else◌, is_empty,
}
use cs.Base.Text.{Text}
use cs.Base.Map.{Order, lookup, insert, ℕ_order}
use cs.Reviews.Memory.{File}
use cs.Reviews.Terms.{IndexSet, reviews_containing_term}
use cs.Reviews.Query.{convert_query}

-- std::set_intersection with an inserter. A round takes an element of one range or of both, so the
-- sum of the lengths is fuel enough.
unfoldable pub intersect : ℕ → IndexSet → IndexSet → IndexSet → IndexSet
intersect zero xs ys out = out
intersect (suc fuel) [] ys out = out
intersect (suc fuel) ((x, u) ∷ xs) [] out = out
intersect (suc fuel) ((x, u) ∷ xs) ((y, v) ∷ ys) out = elim (ltb x y) [
  | true ↦ intersect fuel xs ((y, v) ∷ ys) out
  | false ↦ elim (ltb y x) [
    | true ↦ intersect fuel ((x, u) ∷ xs) ys out
    | false ↦ intersect fuel xs ys (insert x tt out)
  ]
]

-- The loop behind the first term.
unfoldable pub search_more : File → List (List Text) → IndexSet → IndexSet
unfolding intersect
search_more f [] found = found
search_more f (term ∷ terms) found =
    let current = reviews_containing_term f term in
    search_more f terms (intersect (length current + length found) current found [])

unfoldable pub search_terms : File → List (List Text) → IndexSet
unfolding search_more
search_terms f [] = []
search_terms f (term ∷ terms) = search_more f terms (reviews_containing_term f term)

unfoldable pub keys : IndexSet → List ℕ
keys [] = []
keys ((k, u) ∷ set) = k ∷ keys set

-- searchKeywordIndex: what the vector holds afterwards, and the result
unfoldable pub search_keyword_index : File → Text → List ℕ → List ℕ × Bool
unfolding search_terms keys convert_query
search_keyword_index f query indexes =
    let out = indexes ++ keys (search_terms f (convert_query query)) in (out, not (is_empty out))
