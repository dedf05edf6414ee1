-- ===== src/News/Aggregator.antt =====
-- assign5/news-aggregator.cc: processing an article and filling the index. The downloads are
-- parameters: the tokens of a document by its url, none where it cannot be parsed. A step of the
-- model is what a thread does while it holds a lock.
pub mod Seen
use cs.Base.{
  ℕ, suc, zero, ◌+◌, List, [], ◌∷◌, ◌++◌, Option, none, some, Bool, true, false, if◌then◌else◌,
  length,
}
use cs.Base.Text.{Text, lt_text}
use cs.Base.TextOrder.{Text_order}
use cs.Base.Map.{Order, lookup, insert}
use cs.News.Index.{Article, lt_article, RssIndex, add_article}
use cs.News.Text.{url_server}

abbrev pub Tokens : Type 0
Tokens = List Text

-- articles[server], by title
abbrev pub ServerArticles : Type 0
ServerArticles = List (Text × (Article × Tokens))

pub record Aggregator : Type 0 where
  pub article_urls : List (Text × Bool)
  pub articles : List (Text × ServerArticles)
  pub index : RssIndex

-- std::sort, which an insertion sort stands for: equal texts cannot be told apart.
unfoldable pub insert_token : Text → Tokens → Tokens
insert_token x [] = x ∷ []
insert_token x (y ∷ ys) = if lt_text y x then y ∷ insert_token x ys else x ∷ y ∷ ys

unfoldable pub sort_tokens : Tokens → Tokens
unfolding insert_token
sort_tokens [] = []
sort_tokens (x ∷ xs) = insert_token x (sort_tokens xs)

-- std::set_intersection. A round takes an element of one range or of both, so the sum of the
-- lengths is fuel enough.
unfoldable pub intersect : ℕ → Tokens → Tokens → Tokens
intersect zero xs ys = []
intersect (suc fuel) [] ys = []
intersect (suc fuel) (x ∷ xs) [] = []
intersect (suc fuel) (x ∷ xs) (y ∷ ys) = elim (lt_text x y) [
  | true ↦ intersect fuel xs (y ∷ ys)
  | false ↦ elim (lt_text y x) [
    | true ↦ intersect fuel (x ∷ xs) ys
    | false ↦ x ∷ intersect fuel xs ys
  ]
]

unfoldable pub set_intersection : Tokens → Tokens → Tokens
unfolding intersect
set_intersection xs ys = intersect (length xs + length ys) xs ys

-- The articles of a server, as operator[] finds or makes them.
unfoldable pub server_articles : Option ServerArticles → ServerArticles
server_articles none = []
server_articles (some m) = m

-- The smaller of the two articles, with the tokens they share; the new one if it is alone.
unfoldable pub merge_article : Article → Tokens → Option (Article × Tokens) → Article × Tokens
unfolding set_intersection
merge_article a tokens none = (a, tokens)
merge_article a tokens (some (b, current)) =
    (if lt_article a b then a else b, set_intersection current tokens)

-- updateArticle, given the server's name
unfoldable pub store_article : Text → Article → Tokens → Aggregator → Aggregator
unfolding server_articles merge_article
store_article server a tokens g =
    let m = server_articles (lookup server g.articles) in
    record g {
      articles =
          insert server (insert a.title (merge_article a tokens (lookup a.title m)) m) g.articles;
    }

-- none: the url is too short for getURLServer, which throws
unfoldable pub update_article : Article → Tokens → Aggregator → Option Aggregator
unfolding store_article
update_article a tokens g = elim (url_server a.url) [
  | none ↦ none
  | some server ↦ some (store_article server a tokens g)
]

unfoldable pub contains_article_url : Article → Aggregator → Bool
contains_article_url a g = elim (lookup a.url g.article_urls) [ none ↦ false | some b ↦ true ]

-- downloadArticle: a failed download leaves the tokens empty
unfoldable pub download_article : (Text → Option Tokens) → Article → Tokens
download_article download a = elim (download a.url) [ none ↦ [] | some tokens ↦ tokens ]

-- processArticle, by a thread that no other thread interrupts
unfoldable pub process_article : (Text → Option Tokens) → Article → Aggregator → Option Aggregator
unfolding contains_article_url download_article update_article
process_article download a g =
    if contains_article_url a g
    then some g
    else update_article a (sort_tokens (download_article download a))
        (record g { article_urls = insert a.url true g.article_urls })

-- The articles of a feed, in the order in which they are processed.
unfoldable pub process_articles :
    (Text → Option Tokens) → List Article → Aggregator → Option Aggregator
unfolding process_article
process_articles download [] g = some g
process_articles download (a ∷ rest) g = elim (process_article download a g) [
  | none ↦ none
  | some g' ↦ process_articles download rest g'
]

-- processFeed: a feed that cannot be parsed has no articles.
unfoldable pub process_feed :
    (Text → Option Tokens) → Option (List Article) → Aggregator → Option Aggregator
unfolding process_articles
process_feed download none g = some g
process_feed download (some articles) g = process_articles download articles g

-- The end of processAllFeeds: the index gets every article that is kept.
unfoldable pub index_server : ServerArticles → RssIndex → RssIndex
index_server [] index = index
index_server ((title, (a, tokens)) ∷ m) index = index_server m (add_article a tokens index)

unfoldable pub index_all : List (Text × ServerArticles) → RssIndex → RssIndex
unfolding index_server
index_all [] index = index
index_all ((server, m) ∷ rest) index = index_all rest (index_server m index)

unfoldable pub fill_index : Aggregator → Aggregator
unfolding index_all
fill_index g = record g { index = index_all g.articles g.index }
