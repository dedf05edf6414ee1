-- ===== src/News/Tests.antt =====
-- A pool, an index and an aggregator, and the theorems applied to them.
use cs.Base.{
  zero, suc, ◌+◌, ◌-◌, ◌≤◌, ◌<◌, ◌≡◌, ◌⊎◌, refl, List, [], ◌∷◌, Option, none, some, Bool, true,
  false, arith, count_by, length, take, drop, replicate,
}
use cs.Base.Text.{Text, codes}
use cs.Base.TextOrder.{Text_order}
use cs.Base.Map.{same_key}
use cs.News.Pool.{Worker, Pool, schedule}
use cs.News.Pool.Invariant.{IsValid, schedule-IsValid}
use cs.News.Text.{truncate, truncate_bounds}
use cs.News.Index.{Article, add_article}
use cs.News.Index.Counts.{frequency, frequency-add_article}
use cs.News.Aggregator.{Aggregator, Tokens, process_article}
use cs.News.Aggregator.Seen.{process_article-once}

-- A pool whose one worker is available, with task 4 in its queue.
abbrev ready_pool : Pool
ready_pool = record {
  workers = record { available = true; work = none } ∷ [];
  work_queue = 4 ∷ [];
  available_work = 1;
  available_worker = 1;
  num_available_workers = 1;
  chosen = none;
  dispatched = [];
  finished = 0;
}

ready_pool-IsValid : IsValid ready_pool
ready_pool-IsValid = record {
  counted = refl;
  signalled = refl;
  queued = refl;
  idle = refl;
  accounted = refl;
  chosen_idle = λ i e. cc;
}

abbrev starting : Worker
starting = record { available = false; work = none }

schedule-IsValid_example : IsValid (schedule 9 ready_pool)
schedule-IsValid_example = schedule-IsValid 9 ready_pool ready_pool-IsValid

abbrev long_line : Text
long_line = replicate 80 b'x'

truncate_bounds_example :
    ((length long_line ≤ 75) × (truncate long_line ≡ long_line))
    ⊎ ((75 < length long_line)
        × (length (truncate long_line) ≡ 75)
        × (take 65 (truncate long_line) ≡ take 65 long_line)
        × (take 5 (drop 65 (truncate long_line)) ≡ codes ".....")
        × (drop 70 (truncate long_line) ≡ drop (length long_line - 5) long_line))
truncate_bounds_example = truncate_bounds long_line

abbrev first : Article
first = record { url = codes "http://a/1"; title = codes "One" }

abbrev second : Article
second = record { url = codes "http://a/2"; title = codes "Two" }

abbrev words : List Text
words = codes "cat" ∷ codes "dog" ∷ codes "cat" ∷ []

frequency-add_article_example :
    (frequency (codes "cat") first (add_article first words [])
      ≡ count_by (λ w. same_key w (codes "cat")) words + frequency (codes "cat") first [])
    × (frequency (codes "cat") second (add_article first words [])
        ≡ frequency (codes "cat") second [])
unfolding cs.Base.Text.lt_text
frequency-add_article_example = frequency-add_article first second words (codes "cat") [] refl

abbrev download : Text → Option Tokens
download url = some words

abbrev nothing_seen : Aggregator
nothing_seen = record { article_urls = []; articles = []; index = [] }

abbrev once_seen : Aggregator
once_seen = record {
  article_urls = (codes "http://a/1", true) ∷ [];
  articles =
      (codes "a", (codes "One", (first, codes "cat" ∷ codes "cat" ∷ codes "dog" ∷ [])) ∷ []) ∷ [];
  index = [];
}

processed : process_article download first nothing_seen ≡ some once_seen
unfolding process_article cs.Base.Map.lookup cs.News.Text.url_server cs.Base.Text.contains_text
    cs.Base.Text.find_text cs.Base.Text.starts_with cs.Base.Map.insert cs.Base.Text.find_char
    cs.News.Aggregator.sort_tokens cs.Base.Text.lt_text
processed = refl

process_article-once_example : process_article (λ url. none) first once_seen ≡ some once_seen
process_article-once_example =
    process_article-once download (λ url. none) first first nothing_seen processed refl

abbrev idle : Worker
idle = record { available = true; work = none }

-- A pool of one worker as it starts up, is given task 4, hands it over, and is done with it.
abbrev started : Pool
started = record {
  workers = idle ∷ [];
  work_queue = [];
  available_work = 0;
  available_worker = 1;
  num_available_workers = 1;
  chosen = none;
  dispatched = [];
  finished = 0;
}

abbrev given : Pool
given = record started { work_queue = 4 ∷ []; available_work = 1 }

abbrev handed_over : Pool
handed_over = record started {
  workers = record { available = false; work = some 4 } ∷ [];
  available_worker = 0;
  num_available_workers = 0;
  dispatched = 4 ∷ [];
}

abbrev ended : Pool
ended = record handed_over {
  workers = idle ∷ [];
  available_worker = 1;
  num_available_workers = 1;
  finished = 1;
}

-- The worker is marked before the task is popped.
abbrev marked_busy : Pool
marked_busy = record given {
  workers = starting ∷ [];
  available_work = 0;
  available_worker = 0;
  num_available_workers = 0;
  chosen = some 0;
}
