-- ===== src/News/Query.antt =====
-- assign5/news-aggregator.cc: the queries of the index. trim of string-utils.h is a parameter.
use cs.Base.{
  ℕ, zero, suc, List, [], ◌∷◌, ◌++◌, true, false, ◌==◌, ltb, if◌then◌else◌, is_empty, length,
}
use cs.Base.Text.{Text, codes}
use cs.Base.Number.{show_nat}
use cs.News.Index.{Article, Counts, RssIndex, matching_articles}
use cs.News.Log.{shortened}

abbrev pub max_matches : ℕ
max_matches = 15

-- setw(2) with spaces
unfoldable pub show_two : ℕ → Text
unfolding show_nat
show_two n = if ltb n 10 then 32 ∷ show_nat n else show_nat n

unfoldable pub show_match : ℕ → Article → ℕ → Text
unfolding show_two shortened show_nat
show_match count a n =
    codes "  "
    ++ show_two count
    ++ codes ".) \""
    ++ shortened a.title
    ++ codes "\" [appears "
    ++ show_nat n
    ++ codes " "
    ++ (if n == 1 then codes "time" else codes "times")
    ++ codes "].\n       \""
    ++ shortened a.url
    ++ codes "\"\n"

-- The loop over the matches: `left` more at most, `count` of them are shown.
unfoldable pub show_matches : ℕ → ℕ → Counts → Text
unfolding show_match
show_matches count zero matches = []
show_matches count (suc left) [] = []
show_matches count (suc left) ((a, n) ∷ matches) =
    show_match (suc count) a n ++ show_matches (suc count) left matches

unfoldable pub heading : ℕ → Text
unfolding show_nat
heading n =
    codes "That term appears in "
    ++ show_nat n
    ++ codes " article"
    ++ (if n == 1 then [] else codes "s")
    ++ codes ".  "
    ++ (if ltb max_matches n
        then codes "Here are the top 15 of them:\n"
        else (if ltb 1 n then codes "Here they are:\n" else codes "Here it is:\n"))

unfoldable pub answer : RssIndex → Text → Text
unfolding matching_articles heading show_matches
answer index response =
    let matches = matching_articles response index in
    if is_empty matches
    then codes "Ah, we didn't find the term \"" ++ response ++ codes "\". Try again.\n"
    else heading (length matches) ++ show_matches 0 max_matches matches

-- queryIndex, given the lines of std::cin; at their end getline leaves the empty line, on which the
-- loop ends as on a blank one.
unfoldable pub query_index : (Text → Text) → RssIndex → List Text → Text
unfolding answer
query_index trim index [] = codes "Enter a search term [or just hit <enter> to quit]: "
query_index trim index (line ∷ lines) =
    codes "Enter a search term [or just hit <enter> to quit]: " ++ (elim (is_empty (trim line)) [
      | true ↦ []
      | false ↦ answer index (trim line) ++ query_index trim index lines
    ])
