-- ===== src/Proxy/Handler/Answers.antt =====
-- What the proxy sends and keeps for a request: refusals, failed connections, and the cache.
use cs.Base.{
  ap, ℕ, ◌≡◌, refl, List, [], Option, none, some, Bool, true, false, ◌⊎◌, ◌∷◌, arith, Bool-cases,
  inl, inr, ◌==◌,
}
use cs.Base.Text.{Text, find_text}
use cs.Base.Int.{pos}
use cs.Base.Map.{lookup, insert, lookup-insert, ℕ_order, same_key}
use cs.Base.Stream.{StringUtils}
use cs.Proxy.Header.{value_as_string, contains_name}
use cs.Proxy.Request.{Request}
use cs.Proxy.Response.{Response, empty_response, permits_caching}
use cs.Proxy.Cache.{
  Files, first_file, use_first, Cache, miss, hash_request, contains_cache_entry, should_cache,
  cache_entry,
}
use cs.Proxy.Handler.{
  Network, Forwarded, Outcome, forwarded_for_key, ip_delimiter, loop_in, contains_proxy_loop,
  add_forwarded, finish_request, answer_with, forward_request, answer_found, handle_request,
}

same_key-apart : (a b : ℕ) → (a == b) ≡ false → same_key a b ≡ false
same_key-apart a b e = ground (arith, e)

insert-absent :
    (key k : ℕ) (files : Files) (m : List (ℕ × Files))
    → (key == k) ≡ false
    → lookup k m ≡ none
    → lookup k (insert key files m) ≡ none
insert-absent key k files m apart absent =
    rw (lookup-insert key k files m, same_key-apart key k apart) absent

module _ (u : StringUtils) where
  -- A forwarded-for header that names a single address is never taken for a loop, even if that
  -- address is the client's own: only an address before a delimiter is compared.
  pub contains_proxy_loop-single :
      (r : Request)
      → find_text ip_delimiter (value_as_string u forwarded_for_key r.headers) ≡ none
      → contains_proxy_loop u r ≡ false
  unfolding contains_proxy_loop loop_in
  contains_proxy_loop-single r e = ground (arith, e)

  module _ (hash : Text → ℕ) (to_proxy : Bool) where
    -- The connections of an outcome: none, or a single one, to the request's own server and port.
    abbrev Reaches : Network → Request → Outcome → Type 0
    Reaches net r o =
        (o.forwarded ≡ [])
        ⊎ ((net.connects r.server r.port ≡ true)
            × ((bytes : Text) × (o.forwarded
                  ≡ record { server = r.server; port = r.port; bytes = bytes } ∷ [])))

    -- The empty response has no Cache-Control header, so it is not kept.
    should_cache-empty : (c : Cache) (r : Request) → should_cache u hash c r empty_response ≡ false
    unfolding should_cache permits_caching empty_response contains_name lookup
    should_cache-empty c r = ground arith

    -- A maximal age of 0 turns the cache off.
    should_cache-disabled :
        (c : Cache) (r : Request) (response : Response)
        → c.max_age ≡ pos 0
        → should_cache u hash c r response ≡ false
    unfolding should_cache
    should_cache-disabled c r response e = rw e refl

    contains_cache_entry-disabled :
        (c : Cache) (r : Request) (now : ℕ)
        → c.max_age ≡ pos 0
        → contains_cache_entry u hash c r now ≡ (miss, c)
    unfolding contains_cache_entry
    contains_cache_entry-disabled c r now e = rw e refl

    answer_with-disabled :
        (net : Network) (out : List Forwarded) (c : Cache) (r : Request) (o : Option Response)
        (now now' : ℕ)
        → c.max_age ≡ pos 0
        → (answer_with u hash net to_proxy out c r o now now').cache ≡ c
    unfolding answer_with finish_request
    answer_with-disabled net out c r none now now' e = refl
    answer_with-disabled net out c r (some response) now now' e =
        rw (should_cache-disabled c r response e) refl

    forward_request-disabled :
        (net : Network) (c : Cache) (r : Request) (now now' : ℕ)
        → c.max_age ≡ pos 0
        → (forward_request u hash net to_proxy c r now now').cache ≡ c
    unfolding forward_request finish_request
    forward_request-disabled net c r now now' e = elim (Bool-cases (net.connects r.server r.port)) [
      | inl reached ↦ rw reached (answer_with-disabled net _ c (add_forwarded u r) _ now now' e)
      | inr unreachable ↦ rw (unreachable, should_cache-disabled c r empty_response e) refl
    ]

    -- With a maximal age of 0 no response is kept, whatever the network and the request: the cache
    -- is the same after the request is handled.
    pub handle_request-disabled :
        (net : Network) (c : Cache) (r : Request) (now now' : ℕ)
        → c.max_age ≡ pos 0
        → (handle_request u hash net to_proxy c r now now').cache ≡ c
    unfolding handle_request answer_found
    handle_request-disabled net c r now now' e =
        rw (contains_cache_entry-disabled c r now e) (forward_request-disabled net c r now now' e)

    -- A request whose hash has no directory is a miss.
    contains_cache_entry-absent :
        (c : Cache) (r : Request) (now : ℕ)
        → lookup (hash_request u hash r) c.directories ≡ none
        → contains_cache_entry u hash c r now ≡ (miss, c)
    unfolding contains_cache_entry
    contains_cache_entry-absent c r now absent = rw (absent, first_file, use_first) (ground arith)

    finish_request-absent :
        (net : Network) (out : List Forwarded) (sent : Text) (c : Cache) (r : Request)
        (response : Response) (now now' k : ℕ)
        → (hash_request u hash r == k) ≡ false
        → lookup k c.directories ≡ none
        → lookup k
            (finish_request u hash net to_proxy out sent c r response now now').cache.directories
          ≡ none
    unfolding finish_request cache_entry
    finish_request-absent net out sent c r response now now' k apart absent =
        elim (Bool-cases (should_cache u hash c r response)) [
          | inl keeps ↦
              rw keeps (insert-absent (hash_request u hash r) k _ c.directories apart absent)
          | inr drops ↦ rw drops absent
        ]

    answer_with-absent :
        (net : Network) (out : List Forwarded) (c : Cache) (r : Request) (o : Option Response)
        (now now' k : ℕ)
        → (hash_request u hash r == k) ≡ false
        → lookup k c.directories ≡ none
        → lookup k (answer_with u hash net to_proxy out c r o now now').cache.directories ≡ none
    unfolding answer_with
    answer_with-absent net out c r none now now' k apart absent = absent
    answer_with-absent net out c r (some response) now now' k apart absent =
        finish_request-absent net out [] c r response now now' k apart absent

    forward_request-absent :
        (net : Network) (c : Cache) (r : Request) (now now' k : ℕ)
        → (hash_request u hash (add_forwarded u r) == k) ≡ false
        → lookup k c.directories ≡ none
        → lookup k (forward_request u hash net to_proxy c r now now').cache.directories ≡ none
    unfolding forward_request finish_request
    forward_request-absent net c r now now' k apart absent =
        elim (Bool-cases (net.connects r.server r.port)) [
          | inl reached ↦
              rw reached (answer_with-absent net _ c (add_forwarded u r) _ now now' k apart absent)
          | inr unreachable ↦ rw (unreachable, should_cache-empty c r) absent
        ]

    -- If the hash tells a request from the same request with the forwarding headers added, and no
    -- directory stands under the request's own hash, then after the request is handled it is a
    -- miss again, at every later time: what was kept for it is never found.
    pub handle_request-misses_again :
        (net : Network) (c : Cache) (r : Request) (now now' later : ℕ)
        → (hash_request u hash (add_forwarded u r) == hash_request u hash r) ≡ false
        → lookup (hash_request u hash r) c.directories ≡ none
        → (contains_cache_entry u hash
            (handle_request u hash net to_proxy c r now now').cache
            r
            later).0
          ≡ miss
    unfolding handle_request answer_found
    handle_request-misses_again net c r now now' later apart absent =
        ap (λ p. p.0)
          (contains_cache_entry-absent _ r later (
            rw (contains_cache_entry-absent c r now absent)
              (forward_request-absent net c r now now' (hash_request u hash r) apart absent)))
