-- ===== src/Proxy/Cache/Expiry.antt =====
-- assign6/cache.cc: how long a response that is stored is found.
use cs.Base.{
  ℕ, zero, suc, ◌≡◌, ◌≢◌, refl, ap, ◌∙◌, ◌+◌, ◌≤◌, List, [], ◌∷◌, some, Bool, true, false, not,
  ◌&&◌, if◌then◌else◌, leb, arith,
}
use cs.Base.Text.{Text, codes, eq_text}
use cs.Base.Map.{lookup, insert, erase, lookup-insert, ℕ_order}
use cs.Base.Number.{long_max}
use cs.Base.Int.{ℤ, pos, negsuc, pos_part, leb_ℤ}
use cs.Base.Stream.{StringUtils}
use cs.Proxy.Request.{Request}
use cs.Proxy.Response.{Response, ttl, show_response}
use cs.Proxy.Cache.{
  Cache, miss, expiration_time, entry_name, entry_times, add_ℤ, add_long, entry_is_valid,
  first_file, hash_request, rehydrate, use_file, use_first, contains_cache_entry, known_ttl,
  cache_entry,
}
use cs.Proxy.Cache.Names.{entry_times-entry_name}

-- No more than the cache's maximum age has passed, where there is one.
abbrev pub is_within_age : ℤ → ℕ → ℕ → Bool
is_within_age (pos zero) created now = true
is_within_age (pos (suc m)) created now = leb now (created + suc m)
is_within_age (negsuc n) created now = true

add_long_fits : (a b : ℕ) → a + b ≤ long_max → add_long (pos a) (pos b) ≡ pos (a + b)
unfolding add_long add_ℤ
add_long_fits a b h = ground (arith, h)

entry_is_valid_lem :
    (max_age : ℤ) (name : Text) (now created expires : ℕ)
    → entry_times name ≡ some (pos created, pos expires)
    → created + pos_part max_age ≤ long_max
    → entry_is_valid max_age name now ≡ some (leb now expires && is_within_age max_age created now)
unfolding entry_is_valid
entry_is_valid_lem (pos zero) name now created expires e fits = ground (arith, e)
entry_is_valid_lem (pos (suc m)) name now created expires e fits =
    ground (arith, e, add_long_fits created (suc m) fits)
entry_is_valid_lem (negsuc n) name now created expires e fits = ground (arith, e)

-- The time in the name is the end of the response's own time to live, as far as the maximum age allows.
expiration_time_valid :
    (max_age n : ℤ) (created written now : ℕ)
    → max_age ≢ pos 0
    → created ≤ written
    → (leb now (expiration_time max_age n written) && is_within_age max_age created now)
      ≡ (leb now (written + pos_part n) && is_within_age max_age created now)
unfolding expiration_time
expiration_time_valid (pos zero) n created written now h le = absurd (h refl)
expiration_time_valid (pos (suc m)) (pos k) created written now h le = ground arith
expiration_time_valid (pos (suc m)) (negsuc k) created written now h le = ground arith
expiration_time_valid (negsuc m) n created written now h le = ground arith

expiration_time_small :
    (max_age n : ℤ) (written : ℕ) → expiration_time max_age n written ≤ written + pos_part n
unfolding expiration_time
expiration_time_small (pos m) (pos k) written = ground arith
expiration_time_small (pos m) (negsuc k) written = ground arith
expiration_time_small (negsuc m) n written = ground arith

not_disabled :
    (max_age : ℤ) → max_age ≢ pos 0 → (leb_ℤ (pos 0) max_age && leb_ℤ max_age (pos 0)) ≡ false
not_disabled (pos zero) h = absurd (h refl)
not_disabled (pos (suc m)) h = ground arith
not_disabled (negsuc m) h = ground arith

past_both :
    {A : Type 0} (a b : Bool) (x y z : A)
    → a ≡ false
    → b ≡ true
    → (if a then x else (if not b then y else z)) ≡ z
past_both a b x y z e f = rw (e, f) refl

lookup-insert_self :
    (key : ℕ) (files : List (Text × Text)) (m : List (ℕ × List (Text × Text)))
    → lookup key (insert key files m) ≡ some files
lookup-insert_self key files m = ground (arith, lookup-insert key key files m)

module _ (u : StringUtils) (hash : Text → ℕ) where
  -- The directory has one file, whose name is known.
  contains_cache_entry_lem :
      (c : Cache) (r : Request) (now : ℕ) (name content : Text) {valid : Bool}
      → eq_text r.method (codes "GET") ≡ true
      → c.max_age ≢ pos 0
      → lookup (hash_request u hash r) c.directories ≡ some ((name, content) ∷ [])
      → entry_is_valid c.max_age name now ≡ some valid
      → contains_cache_entry u hash c r now
        ≡ use_file u hash c (hash_request u hash r) content (some valid)
  unfolding contains_cache_entry use_first first_file
  contains_cache_entry_lem c r now name content get limited found known =
      let key = hash_request u hash r in
      past_both (leb_ℤ (pos 0) c.max_age && leb_ℤ c.max_age (pos 0))
        (eq_text r.method (codes "GET")) (miss, c) (miss, c)
        (use_first u hash c key (first_file (lookup key c.directories)) now)
        (not_disabled c.max_age limited) get
      ∙ ap (λ f. use_first u hash c key (first_file f) now) found
      ∙ ap (use_file u hash c key content) known

  use_file_lem :
      (c : Cache) (key : ℕ) (content : Text) (valid : Bool)
      → use_file u hash c key content (some valid) ≡ (
          if valid
          then (rehydrate u hash content, c)
          else (miss, record c { directories = erase key c.directories }))
  unfolding use_file
  use_file_lem c key content true = refl
  use_file_lem c key content false = refl

  -- Let a response with the time to live n be stored for a GET request, the cache be on, and the ends
  -- of its time to live and of the maximum age fit in a long. As long as n seconds have not passed
  -- since it was stored, and the maximum age, if there is one, has not passed since then either,
  -- the same request is answered with what reading back the stored text of the response gives, and
  -- the cache is kept. Afterwards it is a miss, and the directory is removed.
  pub contains_cache_entry-cache_entry :
      (c : Cache) (r : Request) (response : Response) (created written now : ℕ) {n : ℤ}
      → eq_text r.method (codes "GET") ≡ true
      → c.max_age ≢ pos 0
      → ttl u response ≡ some n
      → created ≤ written
      → written + pos_part n ≤ long_max
      → created + pos_part c.max_age ≤ long_max
      → contains_cache_entry u hash (cache_entry u hash c r response created written) r now ≡ (
          if leb now (written + pos_part n) && is_within_age c.max_age created now
          then (
            rehydrate u hash (show_response u response),
            cache_entry u hash c r response created written,
          )
          else (
            miss,
            record c {
              directories =
                  erase
                    (hash_request u hash r)
                    (cache_entry u hash c r response created written).directories;
            },
          ))
  unfolding cache_entry known_ttl
  contains_cache_entry-cache_entry c r response created written now {n} get limited known order
        small whole =
      let expires = expiration_time c.max_age n written in
      let key = hash_request u hash r in
      let cached = cache_entry u hash c r response created written in
      let fits : expires ≤ long_max =
        omega (arith, expiration_time_small c.max_age n written, small) in
      let stored : lookup key cached.directories
          ≡ some ((entry_name created expires, show_response u response) ∷ []) =
        lookup-insert_self key
          ((
            entry_name created
                (expiration_time c.max_age (known_ttl u hash (ttl u response)) written),
            show_response u response,
          )
            ∷ [])
          c.directories
        ∙ ap
            (λ o. some (
              (
                entry_name created (expiration_time c.max_age (known_ttl u hash o) written),
                show_response u response,
              )
              ∷ []))
            known in
      contains_cache_entry_lem cached r now (entry_name created expires) (show_response u response)
        get limited stored
        (entry_is_valid_lem c.max_age (entry_name created expires) now created expires
            (entry_times-entry_name created expires (omega (arith, order, small)) fits) whole
          ∙ ap some (expiration_time_valid c.max_age n created written now limited order))
      ∙ use_file_lem cached key (show_response u response)
          (leb now (written + pos_part n) && is_within_age c.max_age created now)
