-- ===== src/News/Index.antt =====
-- assign5/rss-index.h, rss-index.cc and article.h.
pub mod Counts
use cs.Base.{
  ℕ, suc, ◌≡◌, refl, List, [], ◌∷◌, Option, none, some, Bool, true, false, ◌==◌, ◌&&◌, ◌||◌,
  if◌then◌else◌, ltb,
}
use cs.Base.Text.{Text, lt_text}
use cs.Base.TextOrder.{Text_order, lt_text_irrefl, lt_text_equiv_trans}
use cs.Base.Map.{Order, lookup, insert}

pub record Article : Type 0 where
  pub url : Text
  pub title : Text

-- operator<: articles of one url are one key.
abbrev pub lt_article : Article → Article → Bool
lt_article a b = lt_text a.url b.url

instance abbrev pub Article_order : Order Article
Article_order = record {
  lt = lt_article;
  lt_irrefl = λ a. lt_text_irrefl a.url;
  equiv_trans = λ a b c. lt_text_equiv_trans a.url b.url c.url;
}

abbrev pub Counts : Type 0
Counts = List (Article × ℕ)

-- RSSIndex: for each word the articles it stands in, with their counts.
abbrev pub RssIndex : Type 0
RssIndex = List (Text × Counts)

-- What operator[] finds, or makes, under a key.
unfoldable pub counts_of : Option Counts → Counts
counts_of none = []
counts_of (some m) = m

unfoldable pub count_of : Option ℕ → ℕ
count_of none = 0
count_of (some n) = n

-- index[word][article]++
unfoldable pub note_word : Article → Text → RssIndex → RssIndex
unfolding counts_of count_of
note_word a word index =
    let m = counts_of (lookup word index) in
    insert word (insert a (suc (count_of (lookup a m))) m) index

-- add
unfoldable pub add_article : Article → List Text → RssIndex → RssIndex
unfolding note_word
add_article a [] index = index
add_article a (word ∷ words) index = add_article a words (note_word a word index)

-- The order of the result: by count from high to low, then by article.
unfoldable pub ranks_before : Article × ℕ → Article × ℕ → Bool
ranks_before (a, m) (b, n) = ltb n m || ((m == n) && lt_article a b)

-- sort, as an insertion sort; articles of one result are pairwise different keys, so the order
-- of the result is the same for every algorithm.
unfoldable pub insert_ranked : Article × ℕ → Counts → Counts
unfolding ranks_before
insert_ranked x [] = x ∷ []
insert_ranked x (y ∷ ys) = if ranks_before y x then y ∷ insert_ranked x ys else x ∷ y ∷ ys

unfoldable pub rank : Counts → Counts
unfolding insert_ranked
rank [] = []
rank (x ∷ xs) = insert_ranked x (rank xs)

unfoldable pub matching_articles : Text → RssIndex → Counts
unfolding rank counts_of
matching_articles word index = rank (counts_of (lookup word index))
