-- ===== src/News/Aggregator/Seen.antt =====
-- An article is processed once.
use cs.Base.Tests.{if_true}
use cs.Base.{◌≡◌, refl, Option, some, true, false, arith, Bool-cases, Option-cases, inl, inr}
use cs.Base.Text.{Text}
use cs.Base.TextOrder.{Text_order, same_key_refl}
use cs.Base.Map.{insert, lookup-insert}
use cs.News.Index.{Article}
use cs.News.Text.{url_server}
use cs.News.Aggregator.{
  Aggregator, Tokens, contains_article_url, process_article, sort_tokens, download_article,
  update_article, store_article,
}

update_article-urls :
    (a : Article) (tokens : Tokens) (g : Aggregator) {g' : Aggregator}
    → update_article a tokens g ≡ some g'
    → g'.article_urls ≡ g.article_urls
unfolding update_article store_article
update_article-urls a tokens g {g'} e = elim (Option-cases (url_server a.url)) [
  | inl short ↦ absurd (ground (arith, short, e))
  | inr (server, found) ↦ ground (arith, found, e)
]

process_article-contains :
    (download : Text → Option Tokens) (a : Article) (g : Aggregator) {g' : Aggregator}
    → process_article download a g ≡ some g'
    → contains_article_url a g' ≡ true
unfolding process_article contains_article_url
process_article-contains download a g {g'} e = elim (Bool-cases (contains_article_url a g)) [
  | inl seen ↦ ground (arith, seen, e)
  | inr new ↦ noted (update_article-urls a _ _ (update new))
]
  where
    update :
        contains_article_url a g ≡ false
        → update_article a
            (sort_tokens (download_article download a))
            (record g { article_urls = insert a.url true g.article_urls })
          ≡ some g'
    update new = ground (arith, new, e)

    noted : g'.article_urls ≡ insert a.url true g.article_urls → contains_article_url a g' ≡ true
    noted h =
        rw
          (
            contains_article_url,
            h,
            lookup-insert a.url a.url true g.article_urls,
            same_key_refl a.url,
          )
          refl

-- Once an article has been processed, every article of the same url is skipped: processing it
-- leaves the aggregator as it is, whatever its title and whatever a second download would give.
pub process_article-once :
    (download download' : Text → Option Tokens) (a b : Article) (g : Aggregator) {g' : Aggregator}
    → process_article download a g ≡ some g'
    → b.url ≡ a.url
    → process_article download' b g' ≡ some g'
unfolding process_article contains_article_url
process_article-once download download' a b g {g'} e same =
    if_true {b = contains_article_url b g'} (some g') _
      (rw same (process_article-contains download a g e))
