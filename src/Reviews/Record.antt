-- ===== src/Reviews/Record.antt =====
-- assign1/amazon.cc: the records of the database of reviews, and what is printed for one.
use cs.Base.{
  ℕ, ◌+◌, ◌-◌, ◌%◌, ◌*◌, List, [], ◌∷◌, ◌++◌, Bool, true, false, ◌==◌, ltb, if◌then◌else◌, length,
}
use cs.Base.Text.{Text, codes}
use cs.Base.Int.{ℤ, pos, negsuc}
use cs.Base.Number.{show_nat, show_int}
use cs.Reviews.Memory.{File, string_at, element_start}
use cs.Reviews.Keywords.{total}

pub record Review : Type 0 where
  pub index : ℕ
  pub product_title : Text
  pub product_category : Text
  pub star_rating : ℤ
  pub review_headline : Text
  pub review_body : Text
  pub review_year : ℤ
  pub review_month : ℤ
  pub review_day : ℤ

-- *nextPtr, a char of one byte in two's complement
unfoldable pub char_at : File → ℕ → ℤ
char_at f i = if ltb (f.byte i) 128 then pos (f.byte i) else negsuc (255 - f.byte i)

-- *(short *) nextPtr
unfoldable pub short_at : File → ℕ → ℤ
short_at f i =
    let n = f.byte i + 256 * f.byte (i + 1) in if ltb n 32768 then pos n else negsuc (65535 - n)

-- convert_and_advance
unfoldable pub convert_and_advance : File → ℕ → Text × ℕ
unfolding string_at
convert_and_advance f i = (string_at f i, i + length (string_at f i) + 1)

-- The part of getReview behind the check of the index, from the start of the record.
unfoldable pub parse_review : File → ℕ → ℕ → Review
unfolding convert_and_advance char_at short_at
parse_review f index start =
    let (title, i) = convert_and_advance f start in
    let (category, stars) = convert_and_advance f i in
    let (headline, j) = convert_and_advance f (stars + 1) in
    let (body, k) = convert_and_advance f j in
    let n = length title + length category + length headline + length body + 1 in
    let date = if n % 2 == 1 then k + 1 else k in
    record {
      index = index;
      product_title = title;
      product_category = category;
      star_rating = char_at f stars;
      review_headline = headline;
      review_body = body;
      review_year = short_at f date;
      review_month = char_at f (date + 2);
      review_day = char_at f (date + 3);
    }

-- getReview: the review afterwards, and the result
unfoldable pub get_review : File → ℕ → Review → Review × Bool
unfolding parse_review element_start total
get_review f index review =
    if ltb index (total f)
    then (parse_review f index (element_start f index), true)
    else (review, false)

-- The loop of getSortedReviewsFromIndexes. `unset` is a Review as it is declared, without values for
-- its numbers: the result of getReview is not looked at.
unfoldable pub reviews_at : File → Review → List ℕ → List Review
unfolding get_review
reviews_at f unset [] = []
reviews_at f unset (i ∷ indexes) = (get_review f i unset).0 ∷ reviews_at f unset indexes

-- operator<<
unfoldable pub show_review : Review → Text
unfolding show_nat show_int
show_review r =
    codes "Review index: "
    ++ show_nat r.index
    ++ codes "\nProduct title: "
    ++ r.product_title
    ++ codes "\nProduct category: "
    ++ r.product_category
    ++ codes "\nStar rating: "
    ++ show_int r.star_rating
    ++ codes " stars\nReview headline: "
    ++ r.review_headline
    ++ codes "\nReview body: "
    ++ r.review_body
    ++ codes "\nDate: "
    ++ show_int r.review_year
    ++ codes "-"
    ++ show_int r.review_month
    ++ codes "-"
    ++ show_int r.review_day
    ++ codes "\n"
