-- ===== src/Reviews/Compare.antt =====
-- assign1/amazon_search.cc: the orders in which the reviews are shown.
pub mod Strict
use cs.Base.{ℕ, List, [], ◌∷◌, Bool, true, false, not, ◌&&◌, ◌||◌, if◌then◌else◌, length}
use cs.Base.Text.{Text, lt_text}
use cs.Base.Int.{ℤ, pos, ltb_ℤ}
use cs.Reviews.Record.{Review}

pub data PrimaryKey : Type 0 where
  date : PrimaryKey
  body_size : PrimaryKey
  stars : PrimaryKey
  title_size : PrimaryKey

-- A component of a tuple: a number or a text. At one place of two tuples stand values of one kind.
pub data Value : Type 0 where
  number : ℤ → Value
  text : Text → Value

unfoldable pub lt_value : Value → Value → Bool
lt_value (number a) (number b) = ltb_ℤ a b
lt_value (number a) (text s) = true
lt_value (text s) (number b) = false
lt_value (text s) (text t) = lt_text s t

-- std::tuple's operator<
unfoldable pub lt_tuple : List Value → List Value → Bool
unfolding lt_value
lt_tuple xs [] = false
lt_tuple [] (y ∷ ys) = true
lt_tuple (x ∷ xs) (y ∷ ys) = lt_value x y || (not (lt_value y x) && lt_tuple xs ys)

abbrev pub size : Text → Value
size s = number (pos (length s))

-- The two tuples that are compared under a primary key, tLhs and tRhs.
unfoldable pub ties : PrimaryKey → Review → Review → List Value × List Value
ties date lhs rhs = (
  number lhs.review_year
      ∷ number lhs.review_month
      ∷ number lhs.review_day
      ∷ size lhs.review_body
      ∷ size lhs.review_headline
      ∷ number lhs.star_rating
      ∷ size lhs.product_title
      ∷ [],
  number rhs.review_year
      ∷ number rhs.review_month
      ∷ number rhs.review_day
      ∷ size rhs.review_body
      ∷ size rhs.review_headline
      ∷ number rhs.star_rating
      ∷ size rhs.product_title
      ∷ [],
)
ties body_size lhs rhs = (
  size lhs.review_body
      ∷ number lhs.review_year
      ∷ number lhs.review_month
      ∷ number lhs.review_day
      ∷ size lhs.review_headline
      ∷ number lhs.star_rating
      ∷ size lhs.product_title
      ∷ [],
  size rhs.review_body
      ∷ number rhs.review_year
      ∷ number rhs.review_month
      ∷ number rhs.review_day
      ∷ size rhs.review_headline
      ∷ number rhs.star_rating
      ∷ size rhs.product_title
      ∷ [],
)
ties stars lhs rhs = (
  number lhs.star_rating
      ∷ text lhs.product_title
      ∷ number lhs.review_year
      ∷ number lhs.review_month
      ∷ number lhs.review_day
      ∷ size lhs.review_body
      ∷ size lhs.review_headline
      ∷ [],
  number rhs.star_rating
      ∷ text rhs.product_title
      ∷ number rhs.review_year
      ∷ number rhs.review_month
      ∷ number rhs.review_day
      ∷ size rhs.review_body
      ∷ size rhs.review_headline
      ∷ [],
)
ties title_size lhs rhs = (
  size lhs.product_title
      ∷ number lhs.review_year
      ∷ number lhs.review_month
      ∷ number lhs.review_day
      ∷ size lhs.review_body
      ∷ size lhs.review_headline
      ∷ number lhs.star_rating
      ∷ [],
  size rhs.product_title
      ∷ number rhs.review_year
      ∷ number rhs.review_month
      ∷ number rhs.review_day
      ∷ size rhs.review_body
      ∷ size rhs.review_headline
      ∷ number rhs.star_rating
      ∷ [],
)

-- genericReviewCompare
unfoldable pub generic_review_compare : PrimaryKey → Bool → Review → Review → Bool
unfolding lt_tuple ties
generic_review_compare key reversed lhs rhs =
    let (left, right) = ties key lhs rhs in
    if reversed then lt_tuple right left else lt_tuple left right
