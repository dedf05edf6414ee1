-- ===== src/Reviews/Arguments.antt =====
-- assign1/amazon_search.cc: the arguments of the program.
use cs.Base.{
  ℕ, String, List, [], ◌∷◌, ◌++◌, Option, none, some, Bool, true, false, not, ◌&&◌, ◌||◌,
  if◌then◌else◌, is_empty,
}
use cs.Base.Text.{Text, codes, eq_text}
use cs.Base.Int.{to_size}
use cs.Base.Number.{stoi}
use cs.Reviews.Compare.{PrimaryKey, date, stars, body_size, title_size}

abbrev pub amazon_data_directory : Text
amazon_data_directory = codes "/usr/class/archive/cs/cs110/cs110.1204/samples/assign1"

abbrev pub default_files_prefix : Text
default_files_prefix = codes "amazon_reviews_us_Electronics_v1_00"

-- What parseArgs sets, and what has been printed.
pub record Settings : Type 0 where
  pub interactive : Bool
  pub directory : Text
  pub files_prefix : Text
  pub primary_key : PrimaryKey
  pub reversed : Bool
  pub num_reviews : ℕ
  pub search_string : Text
  pub printed : Text

-- The settings as main declares them; (size_t)-1 asks for all reviews.
abbrev pub default_settings : Settings
default_settings = record {
  interactive = false;
  directory = amazon_data_directory;
  files_prefix = default_files_prefix;
  primary_key = date;
  reversed = false;
  num_reviews = 18446744073709551615;
  search_string = [];
  printed = [];
}

-- parseArgs returns 0, returns -1 or leaves by an exception of std::stoi.
pub data Outcome : Type 0 where
  accepted : Settings → Outcome
  refused : Text → Outcome
  thrown : Outcome

-- showUsage
unfoldable pub show_usage : Text → Text
show_usage name =
    codes "Usage: "
    ++ name
    ++ codes " <option(s)> 'search string'\nOptions:\n\n"
    ++ codes "\t-h,--help\t\tShow this help message\n"
    ++ codes
        "\t-k,--primary-key\tPrimary key, one of: date, stars, bodysize, titlesize (default is date)\n"
    ++ codes
        "\t-r,--reversed\tReverse ordering for primary key, making it descending instead of ascending\n"
    ++ codes
        "\t-n,--number-of-reviews\tNumber of reviews to show (default is to show all reviews)\n"
    ++ codes "\t-d,--directory DIRECTORY\tSpecify the directory for the database files\n"
    ++ codes
        "\t-f,--files-prefix FILE_PREFIX\tSpecify the files prefix (default is 'amazon_reviews_us_Electronics_v1_00')\n"

-- The branches of parseArgs, by the argument's text.
pub data Flag : Type 0 where
  help_flag : Flag
  key_flag : Flag
  number_flag : Flag
  reversed_flag : Flag
  directory_flag : Flag
  prefix_flag : Flag
  no_flag : Flag

unfoldable pub is_either : Text → String → String → Bool
is_either arg short long = eq_text arg (codes short) || eq_text arg (codes long)

unfoldable pub flag_of : Text → Flag
unfolding is_either
flag_of arg =
    if is_either arg "-h" "--help"
    then help_flag
    else (if is_either arg "-k" "--primary-key"
        then key_flag
        else (if is_either arg "-n" "--number-of-reviews"
            then number_flag
            else (if is_either arg "-r" "--reversed"
                then reversed_flag
                else (if is_either arg "-d" "--directory"
                    then directory_flag
                    else (if is_either arg "-f" "--files-prefix" then prefix_flag else no_flag)))))

unfoldable pub key_of : Text → Option PrimaryKey
key_of s =
    if eq_text s (codes "date")
    then some date
    else (if eq_text s (codes "stars")
        then some stars
        else (if eq_text s (codes "bodysize")
            then some body_size
            else (if eq_text s (codes "titlesize") then some title_size else none)))

-- A message and the usage are printed, and the result is -1.
unfoldable pub refuse : Text → Settings → Text → Outcome
unfolding show_usage
refuse name o message = refused (o.printed ++ message ++ show_usage name)

-- Behind the loop.
unfoldable pub finish_args : Settings → Outcome
finish_args o =
    if not o.interactive && is_empty o.search_string
    then accepted (record o {
      interactive = true;
      printed = o.printed ++ codes "No search string found. Going into interactive mode\n";
    })
    else accepted o

-- An argument behind which there is none.
unfoldable pub last_arg : Text → Text → Settings → Outcome
unfolding flag_of refuse finish_args
last_arg name arg o = elim (flag_of arg) [
  | help_flag ↦ refuse name o []
  | key_flag ↦ finish_args o
  | number_flag ↦ refuse name o (codes "--number-of-reviews needs one argument\n")
  | reversed_flag ↦ finish_args (record o { reversed = true })
  | directory_flag ↦ refuse name o (codes "--directory option requires one argument.\n")
  | prefix_flag ↦ refuse name o (codes "--files-prefix option requires one argument.\n")
  | no_flag ↦ finish_args (record o { search_string = arg })
]

-- The loop over argv[1], argv[2], …; `name` is argv[0].
unfoldable pub parse_loop : Text → List Text → Settings → Outcome
unfolding flag_of refuse finish_args last_arg key_of
parse_loop name [] o = finish_args o
parse_loop name (arg ∷ []) o = last_arg name arg o
parse_loop name (arg ∷ value ∷ args) o = elim (flag_of arg) [
  | help_flag ↦ refuse name o []
  | key_flag ↦ elim (key_of value) [
    | none ↦
        refuse name o (codes "--primary-key must be either date, stars, bodysize, or titlesize\n")
    | some key ↦ parse_loop name args (record o { primary_key = key })
  ]
  | number_flag ↦ elim (stoi value) [
    | none ↦ thrown
    | some n ↦ parse_loop name args (record o { num_reviews = to_size n })
  ]
  | reversed_flag ↦ parse_loop name (value ∷ args) (record o { reversed = true })
  | directory_flag ↦ parse_loop name args (record o { directory = value })
  | prefix_flag ↦ parse_loop name args (record o { files_prefix = value })
  | no_flag ↦ parse_loop name (value ∷ args) (record o { search_string = arg })
]

unfoldable pub parse_args : Text → List Text → Outcome
unfolding parse_loop
parse_args name args = parse_loop name args default_settings
