-- ===== src/Reviews/Keywords.antt =====
-- assign1/amazon.cc: the search for a keyword by std::lower_bound.
pub mod Found
use cs.Base.{
  ℕ, zero, suc, ◌+◌, ◌-◌, ◌/◌, List, [], ◌∷◌, Option, none, some, Bool, true, false, not, ◌==◌,
  if◌then◌else◌,
}
use cs.Base.Text.{Text, lt_text, eq_text}
use cs.Reviews.Memory.{File, word_at, string_at, element_start}

module _ (before : ℕ → Bool) where
  -- std::lower_bound over a range of positions, `before` the test of its comparison. A round leaves
  -- less than the whole range, so the length is fuel enough.
  unfoldable pub bound_loop : ℕ → ℕ → ℕ → ℕ
  bound_loop zero first count = first
  bound_loop (suc fuel) first zero = first
  bound_loop (suc fuel) first (suc n) = elim (before (first + suc n / 2)) [
    | true ↦ bound_loop fuel (suc (first + suc n / 2)) (n - suc n / 2)
    | false ↦ bound_loop fuel first (suc n / 2)
  ]

  unfoldable pub lower_bound : ℕ → ℕ
  unfolding bound_loop
  lower_bound n = bound_loop n 0 n

-- The keyword at a place of the array of offsets.
unfoldable pub keyword_at : File → ℕ → Text
unfolding string_at element_start
keyword_at f i = string_at f (element_start f i)

-- totalKeywords, totalReviews
unfoldable pub total : File → ℕ
unfolding word_at
total f = word_at f 0

unfoldable pub compare_keyword : File → Text → ℕ → Bool
unfolding keyword_at
compare_keyword f keyword i = lt_text (keyword_at f i) keyword

-- findKeywordPtr: the offset of the keyword, none for nullptr
unfoldable pub keyword_offset : File → Text → ℕ → Option ℕ
unfolding element_start keyword_at total
keyword_offset f keyword i =
    if i == total f
    then none
    else (if not (eq_text (keyword_at f i) keyword) then none else some (element_start f i))

unfoldable pub find_keyword : File → Text → Option ℕ
unfolding keyword_offset compare_keyword lower_bound total
find_keyword f keyword =
    keyword_offset f keyword (lower_bound (compare_keyword f keyword) (total f))
