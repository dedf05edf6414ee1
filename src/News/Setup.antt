-- ===== src/News/Setup.antt =====
-- assign5/news-aggregator.cc: the arguments of the program, and the processing of all feeds. What
-- getopt_long returns is a parameter, as are the feed list, none where it cannot be parsed, and the
-- articles of a feed by its url.
use cs.Base.{ℕ, List, [], ◌∷◌, Option, none, some, Bool, true, false, ltb, if◌then◌else◌}
use cs.Base.Text.{Text, codes}
use cs.News.Index.{Article}
use cs.News.Log.{usage_message, feed_list_failure}
use cs.News.Aggregator.{Aggregator, Tokens, process_feed, fill_index}

-- A return of getopt_long: an option, or the question mark.
pub data NewsFlag : Type 0 where
  verbose_flag : NewsFlag
  quiet_flag : NewsFlag
  url_flag : Text → NewsFlag
  unknown_flag : NewsFlag

pub record NewsOptions : Type 0 where
  pub feed_list_uri : Text
  pub verbose : Bool

-- The program goes on with a value, or has exited with the status 1 and a message.
pub data Exits {ℓ} (A : Type ℓ) : Type ℓ where
  goes_on : A → Exits A
  exits : Text → Exits A

unfoldable pub read_flags : Text → List NewsFlag → NewsOptions → Exits NewsOptions
unfolding usage_message
read_flags executable [] o = goes_on o
read_flags executable (verbose_flag ∷ fs) o = read_flags executable fs (record o { verbose = true })
read_flags executable (quiet_flag ∷ fs) o = read_flags executable fs (record o { verbose = false })
read_flags executable (url_flag uri ∷ fs) o =
    read_flags executable fs (record o { feed_list_uri = uri })
read_flags executable (unknown_flag ∷ fs) o =
    exits (usage_message (codes "Unrecognized flag.") executable)

unfoldable pub check_left : Text → ℕ → NewsOptions → Exits NewsOptions
unfolding usage_message
check_left executable left o =
    if ltb 0 left then exits (usage_message (codes "Too many arguments.") executable) else goes_on o

-- createNewsAggregator; `left` arguments are not options.
unfoldable pub create_news_aggregator : Text → List NewsFlag → ℕ → Exits NewsOptions
unfolding read_flags check_left
create_news_aggregator executable flags left =
    elim (read_flags executable flags
      (record { feed_list_uri = codes "small-feed.xml"; verbose = true })) [
        | goes_on o ↦ check_left executable left o
        | exits s ↦ exits s
      ]

module _ (articles_at : Text → Option (List Article)) (download : Text → Option Tokens) where
  -- The feeds, by url and title, one after the other; none where a thread has thrown.
  unfoldable pub process_feeds : List (Text × Text) → Aggregator → Option Aggregator
  unfolding process_feed
  process_feeds [] g = some g
  process_feeds ((url, title) ∷ feeds) g = elim (process_feed download (articles_at url) g) [
    | none ↦ none
    | some g' ↦ process_feeds feeds g'
  ]

  unfoldable pub process_listed : List (Text × Text) → Aggregator → Option Aggregator
  unfolding process_feeds fill_index
  process_listed [] g = some g
  process_listed (feed ∷ feeds) g = elim (process_feeds (feed ∷ feeds) g) [
    | none ↦ none
    | some g' ↦ some (fill_index g')
  ]

  -- processAllFeeds
  unfoldable pub process_all_feeds :
      Text → Option (List (Text × Text)) → Aggregator → Exits (Option Aggregator)
  unfolding process_listed feed_list_failure
  process_all_feeds uri none g = exits (feed_list_failure uri)
  process_all_feeds uri (some feeds) g = goes_on (process_listed feeds g)

  -- buildIndex: the second time nothing is done
  unfoldable pub build_index :
      Text → Option (List (Text × Text)) → Bool → Aggregator → Exits (Option Aggregator)
  unfolding process_all_feeds
  build_index uri list true g = goes_on (some g)
  build_index uri list false g = process_all_feeds uri list g
