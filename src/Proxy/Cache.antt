-- ===== src/Proxy/Cache.antt =====
-- assign6/cache.h and cache.cc. The cache directory is a map from a request's hash to the files of
-- its subdirectory; its file operations succeed. hash<string> and the clock are parameters.
pub mod Names
pub mod Expiry
use cs.Base.{
  ℕ, suc, ◌+◌, ◌-◌, ◌++◌, List, [], ◌∷◌, Option, none, some, Bool, true, false, not, ◌&&◌, ◌==◌,
  length, if◌then◌else◌, take, drop, ltb, leb,
}
use cs.Base.Text.{Text, codes, eq_text, find_text}
use cs.Base.Map.{lookup, insert, erase, ℕ_order}
use cs.Base.Number.{long_max, strtol, show_nat}
use cs.Base.Int.{to_size, ℤ, pos, negsuc, pos_part, ltb_ℤ, leb_ℤ, min_ℤ, signed}
use cs.Base.Stream.{StringUtils}
use cs.Proxy.Request.{Request, show_request}
use cs.Proxy.Response.{
  Response, empty_response, ingest_response_header, ingest_response_payload, permits_caching, ttl,
  response_code, show_response,
}

abbrev pub Files : Type 0
Files = List (Text × Text)

pub record Cache : Type 0 where
  pub max_age : ℤ
  pub directories : List (ℕ × Files)

-- What containsCacheEntry finds: nothing, a response, or an exception that is not a proxy's.
pub data Found : Type 0 where
  miss fault : Found
  hit : Response → Found

abbrev pub create_header : Text
create_header = codes "created@"

abbrev pub expiration_header : Text
expiration_header = codes "expires@"

-- getExpirationTime, given the time now
unfoldable pub expiration_time : ℤ → ℤ → ℕ → ℕ
expiration_time max_age ttl now =
    let shorter = if leb_ℤ (pos 0) max_age then min_ℤ max_age ttl else ttl in now + pos_part shorter

unfoldable pub entry_name : ℕ → ℕ → Text
entry_name created expires =
    create_header ++ (show_nat created ++ (expiration_header ++ show_nat expires))

-- cacheEntryFileNameIsProperlyStructured, with the place of the second header
unfoldable pub is_at_start : Option ℕ → Bool
is_at_start none = false
is_at_start (some i) = i == 0

unfoldable pub structured : Text → Option ℕ
unfolding is_at_start
structured name = elim (find_text expiration_header name) [
  | none ↦ none
  | some i ↦ if is_at_start (find_text create_header name) && ltb 0 i then some i else none
]

-- std::stol: none where it throws, since there is no number to convert; times fit in a long
unfoldable pub stol : Text → Option ℤ
stol s =
    let p = strtol 10 s in
    if (length p.rest == length s) then none else some (signed p.negative p.value)

-- extractCreateAndExpireTimes
unfoldable pub entry_times : Text → Option (ℤ × ℤ)
unfolding structured stol
entry_times name = elim (structured name) [
  | none ↦ none
  | some i ↦ elim (stol (take (i - 8) (drop 8 name))) [
    | none ↦ none
    | some created ↦ elim (stol (drop (i + 8) name)) [
      | none ↦ none
      | some expires ↦ some (created, expires)
    ]
  ]
]

unfoldable pub add_ℤ : ℤ → ℤ → ℤ
add_ℤ (pos a) (pos b) = pos (a + b)
add_ℤ (pos a) (negsuc b) = if ltb b a then pos (a - suc b) else negsuc (b - a)
add_ℤ (negsuc a) (pos b) = if ltb a b then pos (b - suc a) else negsuc (a - b)
add_ℤ (negsuc a) (negsuc b) = negsuc (suc (a + b))

-- The sum of two longs: one that does not fit wraps around.
unfoldable pub add_long : ℤ → ℤ → ℤ
unfolding add_ℤ
add_long a b =
    let n = to_size (add_ℤ a b) in
    if leb n long_max then pos n else negsuc (18446744073709551615 - n)

-- cachedEntryIsValid; none where the name cannot be read
unfoldable pub entry_is_valid : ℤ → Text → ℕ → Option Bool
unfolding entry_times add_long
entry_is_valid max_age name now = elim (entry_times name) [
  | none ↦ none
  | some (created, expires) ↦
      let last =
        if ltb_ℤ (pos 0) max_age then min_ℤ (add_long created max_age) expires else expires in
      some (leb_ℤ (pos now) last)
]

-- The one file of the request's directory.
unfoldable pub first_file : Option Files → Option (Text × Text)
first_file none = none
first_file (some []) = none
first_file (some (f ∷ fs)) = some f

module _ (u : StringUtils) (hash : Text → ℕ) where
  unfoldable pub hash_request : Request → ℕ
  unfolding show_request
  hash_request r = hash (show_request r)

  unfoldable pub should_cache : Cache → Request → Response → Bool
  should_cache c request response =
      not (leb_ℤ (pos 0) c.max_age && leb_ℤ c.max_age (pos 0))
      && eq_text request.method (codes "GET")
      && (leb_ℤ (pos 200) (response_code u response.code)
          && leb_ℤ (response_code u response.code) (pos 200))
      && permits_caching u response

  -- Reading the file back into a response; a failure counts as a miss.
  unfoldable pub rehydrate_payload : Option (Response × Text) → Found
  rehydrate_payload none = miss
  rehydrate_payload (some (r, rest)) = elim (ingest_response_payload u rest r) [
    | none ↦ miss
    | some (r', rest') ↦ hit r'
  ]

  unfoldable pub rehydrate : Text → Found
  unfolding rehydrate_payload
  rehydrate content = rehydrate_payload (ingest_response_header u content empty_response)

  -- The file is read if it is valid, and removed with its directory if it has expired.
  unfoldable pub use_file : Cache → ℕ → Text → Option Bool → Found × Cache
  unfolding rehydrate
  use_file c key content none = (fault, c)
  use_file c key content (some false) = (miss, record c { directories = erase key c.directories })
  use_file c key content (some true) = (rehydrate content, c)

  unfoldable pub use_first : Cache → ℕ → Option (Text × Text) → ℕ → Found × Cache
  unfolding use_file
  use_first c key none now = (miss, c)
  use_first c key (some (name, content)) now =
      use_file c key content (entry_is_valid c.max_age name now)

  unfoldable pub contains_cache_entry : Cache → Request → ℕ → Found × Cache
  unfolding use_first first_file hash_request
  contains_cache_entry c request now =
      if leb_ℤ (pos 0) c.max_age && leb_ℤ c.max_age (pos 0)
      then (miss, c)
      else (if not (eq_text request.method (codes "GET"))
          then (miss, c)
          else use_first c (hash_request request)
              (first_file (lookup (hash_request request) c.directories)) now)

  -- The time to live; cacheEntry is called on a response that has one.
  unfoldable pub known_ttl : Option ℤ → ℤ
  known_ttl none = pos 0
  known_ttl (some n) = n

  -- cacheEntry: the directory is created or emptied, and gets the one file. The two readings of
  -- the clock may differ.
  unfoldable pub cache_entry : Cache → Request → Response → ℕ → ℕ → Cache
  unfolding hash_request known_ttl expiration_time entry_name show_response
  cache_entry c request response now now' =
      let expires = expiration_time c.max_age (known_ttl (ttl u response)) now' in
      record c {
        directories =
            insert (hash_request request) ((entry_name now expires, show_response u response) ∷ [])
              c.directories;
      }

-- clear: every directory is removed
unfoldable pub clear : Cache → Cache
clear c = record c { directories = [] }

unfoldable pub set_max_age : ℤ → Cache → Cache
set_max_age n c = record c { max_age = n }
