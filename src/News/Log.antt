-- ===== src/News/Log.antt =====
-- assign5/log.cc: the messages. A note on the progress is printed if the log is verbose; a failure is
-- printed on std::cerr in any case.
use cs.Base.{[], ◌++◌, Bool, if◌then◌else◌}
use cs.Base.Text.{Text, codes}
use cs.News.Index.{Article}
use cs.News.Text.{should_truncate, truncate}

-- What printUsage prints before it exits with the status 1.
unfoldable pub usage_message : Text → Text → Text
usage_message message executable =
    codes "Error: "
    ++ message
    ++ codes "\nUsage: ./"
    ++ executable
    ++ codes " [--verbose] [--quiet] [--conserve-threads] [--url <feed-file>]\n"

-- noteFullRSSFeedListDownloadFailureAndExit
unfoldable pub feed_list_failure : Text → Text
feed_list_failure uri =
    codes "Ran into trouble while pulling full RSS feed list from \""
    ++ uri
    ++ codes "\".\nAborting....\n"

unfoldable pub note_feed_list_end : Bool → Text
note_feed_list_end verbose =
    if verbose then codes "All RSS news feed documents have been downloaded!\n" else []

unfoldable pub note_feed_beginning : Bool → Text → Text
note_feed_beginning verbose uri =
    if verbose then codes "Begin full download of feed URI: " ++ uri ++ codes "\n" else []

unfoldable pub note_feed_skipped : Bool → Text → Text
note_feed_skipped verbose uri =
    if verbose then codes "Skipped entire download of feed URI: " ++ uri ++ codes "\n" else []

unfoldable pub note_articles_scheduled : Bool → Text → Text
note_articles_scheduled verbose uri =
    if verbose
    then codes "All articles have been scheduled for feed URI: " ++ uri ++ codes "\n"
    else []

unfoldable pub note_feeds_scheduled : Bool → Text → Text
note_feeds_scheduled verbose uri =
    if verbose
    then codes "All feeds have been scheduled for RSS feed list from: " ++ uri ++ codes "\n"
    else []

unfoldable pub note_feed_failure : Text → Text
note_feed_failure uri =
    codes "Ran into trouble while pulling RSS feed from \"" ++ uri ++ codes "\".\nIgnoring....\n"

unfoldable pub note_feeds_end : Bool → Text
note_feeds_end verbose = if verbose then codes "All news articles have been downloaded!\n" else []

-- A title or a url, cut where it is long.
unfoldable pub shortened : Text → Text
unfolding should_truncate truncate
shortened s = if should_truncate s then truncate s else s

unfoldable pub note_article_beginning : Bool → Article → Text
unfolding shortened
note_article_beginning verbose a =
    if verbose
    then codes "  Parsing \""
      ++ shortened a.title
      ++ codes "\"\n      [at \""
      ++ shortened a.url
      ++ codes "\"]\n"
    else []

unfoldable pub note_article_skipped : Bool → Article → Text
unfolding shortened
note_article_skipped verbose a =
    if verbose
    then codes "  Skipped \""
      ++ shortened a.title
      ++ codes "\"\n      [at \""
      ++ shortened a.url
      ++ codes "\"]\n"
    else []

unfoldable pub note_article_failure : Article → Text
note_article_failure a =
    codes "Ran into trouble while pulling HTML document from \""
    ++ a.url
    ++ codes "\" Ignoring....\n"
