-- ===== src/Reviews/Session.antt =====
-- assign1/amazon_search.cc: main. std::sort is a parameter, and the two files are given by their
-- names, none where one cannot be opened.
use cs.Base.{
  ℕ, zero, suc, ◌%◌, List, [], ◌∷◌, ◌++◌, Option, none, some, Bool, true, false, ◌&&◌, ◌||◌, ◌==◌,
  ltb, if◌then◌else◌, is_empty, length,
}
use cs.Base.Text.{Text, codes}
use cs.Base.Number.{show_nat}
use cs.Reviews.Memory.{File}
use cs.Reviews.Keywords.{total}
use cs.Reviews.Query.{to_lower}
use cs.Reviews.Search.{search_keyword_index}
use cs.Reviews.Record.{Review, show_review, reviews_at}
use cs.Reviews.Compare.{generic_review_compare}
use cs.Reviews.Arguments.{Settings, accepted, refused, thrown, parse_args}

-- The lines of std::cin that are left, and the text of std::cout.
pub record Console : Type 0 where
  pub lines : List Text
  pub out : Text

abbrev pub print : Text → Console → Console
print s c = record c { out = c.out ++ s }

-- getline(cin, s), which empties s at the end of the input
unfoldable pub next_line : List Text → Text × List Text
next_line [] = ([], [])
next_line (s ∷ ss) = (s, ss)

unfoldable pub ask : Text → Console → Text × Console
unfolding next_line
ask prompt c =
    let (s, rest) = next_line c.lines in (s, record { lines = rest; out = c.out ++ prompt })

-- userInput != "" && tolower(userInput[0]) == 'q'
unfoldable pub is_quit : Text → Bool
unfolding to_lower
is_quit [] = false
is_quit (c ∷ s) = to_lower c == b'q'

-- The loop over the sorted reviews, `i` of which are shown: at most `n` more.
unfoldable pub show_reviews : Bool → ℕ → ℕ → List Review → Console → Console
unfolding show_review ask is_quit
show_reviews interactive i zero reviews c = c
show_reviews interactive i (suc n) [] c = c
show_reviews interactive i (suc n) (r ∷ reviews) c =
    let shown = print (codes "**********\n" ++ show_review r ++ codes "\n**********\n\n") c in
    elim (interactive && (suc i % 5 == 0)) [
      | false ↦ show_reviews interactive (suc i) n reviews shown
      | true ↦
          let (s, asked) =
            ask (codes "Press <enter> to see the next five reviews ('q' to quit). ") shown in
          elim (is_quit s) [
            | true ↦ asked
            | false ↦ show_reviews interactive (suc i) n reviews asked
          ]
    ]

module _ (sort : (Review → Review → Bool) → List Review → List Review) (unset : Review) where
  -- getSortedReviewsFromIndexes
  unfoldable pub sorted_reviews : File → List ℕ → (Review → Review → Bool) → List Review
  unfolding reviews_at
  sorted_reviews database indexes cmp = sort cmp (reviews_at database unset indexes)

  -- The numReviews that the loop is given.
  unfoldable pub shown_count : ℕ → ℕ → ℕ
  shown_count wanted found =
      if (wanted == 18446744073709551615) || ltb found wanted then found else wanted

  unfoldable pub pause : Bool → Console → Console
  unfolding ask
  pause interactive c =
      if interactive then (ask (codes "Press <enter> to see the first five reviews.") c).1 else c

  unfoldable pub show_matches : File → Settings → List ℕ → Console → Console
  unfolding sorted_reviews shown_count show_reviews pause show_nat total
  show_matches database o indexes c =
      let reviews =
        sorted_reviews database indexes (generic_review_compare o.primary_key o.reversed) in
      let count = shown_count o.num_reviews (length reviews) in
      show_reviews o.interactive 0 count reviews (
        pause o.interactive (
          print
            (codes "Found "
              ++ show_nat (length indexes)
              ++ codes " matching reviews out of "
              ++ show_nat (total database)
              ++ codes " reviews in the database.\n")
            c))

  -- One search of the loop of main.
  unfoldable pub answer : File → File → Settings → Text → Console → Console
  unfolding search_keyword_index show_matches
  answer database index o query c =
      let (indexes, found) = search_keyword_index index query [] in
      if found
      then show_matches database o indexes c
      else print (codes "Could not find any matches for query '" ++ query ++ codes "'\n") c

  -- The loop of main in interactive mode. A round that goes on has read a line, so one more than the
  -- lines is fuel enough.
  unfoldable pub interact : ℕ → File → File → Settings → Console → Console
  unfolding answer ask
  interact zero database index o c = c
  interact (suc fuel) database index o c =
      let (query, asked) = ask (codes "Please enter a search query (<enter> to end): ") c in
      elim (is_empty query) [
        | true ↦ asked
        | false ↦ interact fuel database index o (answer database index o query asked)
      ]

  unfoldable pub run : File → File → Settings → Console → Console
  unfolding interact answer show_nat total
  run database index o c =
      let greeted =
        print (codes "Total number of keywords: " ++ show_nat (total index) ++ codes "\n") c in
      if o.interactive
      then interact (suc (length greeted.lines)) database index o greeted
      else answer database index o o.search_string greeted

  unfoldable pub run_on : Option File → Option File → Settings → Console → Option ℕ × Console
  unfolding run
  run_on (some database) (some index) o c = (some 0, run database index o c)
  run_on database index o c = (some 2, c)

  -- main: its result modulo 256 (none where an exception ends the program), and the console. The
  -- constructor of amazon takes the files from open.
  unfoldable pub main : (Text → Option File) → Text → List Text → Console → Option ℕ × Console
  unfolding run_on parse_args
  main open_file name args c = elim (parse_args name args) [
    | thrown ↦ (none, c)
    | refused s ↦ (some 255, print s c)
    | accepted o ↦
        run_on (open_file (o.directory ++ codes "/" ++ o.files_prefix ++ codes ".bin"))
          (open_file (o.directory ++ codes "/" ++ o.files_prefix ++ codes "_keyword_index.bin")) o
          (print o.printed c)
  ]
