-- ===== src/Proxy/Tests.antt =====
-- A request, and the theorems applied there.
mod Utils
use cs.Proxy.Tests.Utils.{utils, utils-IsTrimming, drop_end, lower, lower_all}
use cs.Base.{
  ℕ, zero, suc, ◌+◌, ◌≤◌, ◌<◌, ◌≡◌, ◌⊎◌, refl, sym, ◌∙◌, List, [], ◌∷◌, ◌++◌, Option, none, some,
  Bool, true, false, not, ◌&&◌, ◌==◌, arith, if◌then◌else◌, length, is_empty,
}
use cs.Base.Tests.{leb}
use cs.Base.Text.{Text, codes, eq_text}
use cs.Base.TextOrder.{Text_order}
use cs.Base.Map.{same_key, lookup, ℕ_order}
use cs.Base.Number.{is_space, skip_spaces}
use cs.Base.Int.{pos}
use cs.Base.Stream.{StringUtils}
use cs.Proxy.Header.{
  Ingested, Headers, show_headers, ingest_header, add_header, remove_header, value_as_string,
}
use cs.Proxy.Header.Lookup.{ingest_header-total}
use cs.Proxy.Header.RoundTrip.{IsTrimming, IsField, ingest_header-show_headers}
use cs.Base.Ascending.{IsOrdered}
use cs.Proxy.Request.{Request, empty_request}
use cs.Proxy.Response.{Response, ttl, add_response_header, empty_response, show_response}
use cs.Proxy.Bridge.{
  Round, ready, client, server, finished, null_stream, continues, manage_client_server_bridge,
}
use cs.Proxy.Bridge.Relay.{bytes_from, bridge_relays}
use cs.Proxy.Cache.Expiry.{contains_cache_entry-cache_entry}
use cs.Proxy.Cache.{Cache, cache_entry, rehydrate, miss, contains_cache_entry, hash_request}
use cs.Proxy.Handler.{Network, Forwarded, handle_request, add_forwarded}
use cs.Proxy.Handler.Answers.{handle_request-misses_again}
use cs.Proxy.Options.{Settings, configure, initial_settings}
use cs.Proxy.Options.Configured.{IsSound, Accepted, configure-IsSound}

ingest_header-total_example : (g : Ingested) × (ingest_header utils [] (codes "Host: a") ≡ some g)
ingest_header-total_example = ingest_header-total utils [] (codes "Host: a")

abbrev two_fields : Headers
two_fields = (codes "age", codes "7") ∷ (codes "host", codes "a b") ∷ []

two_fields-IsOrdered : IsOrdered two_fields
unfolding cs.Base.Text.lt_text
two_fields-IsOrdered = ((refl, tt), (tt, tt))

age-IsField : IsField utils (codes "age", codes "7")
unfolding lower_all drop_end is_space skip_spaces
age-IsField = record {
  first = b'a';
  others = codes "ge";
  name = refl;
  starts = refl;
  lower = refl;
  trimmed_name = refl;
  no_colon = refl;
  one_line_name = refl;
  trimmed_value = refl;
  rtrimmed_value = refl;
  not_blank = refl;
  one_line_value = refl;
}

host-IsField : IsField utils (codes "host", codes "a b")
unfolding lower_all drop_end is_space skip_spaces
host-IsField = record {
  first = b'h';
  others = codes "ost";
  name = refl;
  starts = refl;
  lower = refl;
  trimmed_name = refl;
  no_colon = refl;
  one_line_name = refl;
  trimmed_value = refl;
  rtrimmed_value = refl;
  not_blank = refl;
  one_line_value = refl;
}

ingest_header-show_headers_example :
    (name : Text) × (ingest_header utils [] (show_headers two_fields ++ (13 ∷ 10 ∷ codes "body"))
      ≡ some (record { name = name; headers = two_fields; rest = codes "body" }))
ingest_header-show_headers_example =
    ingest_header-show_headers utils utils-IsTrimming two_fields (codes "body") two_fields-IsOrdered
      (age-IsField, (host-IsField, tt))

-- A GET request from 1.2.3.4 that names the client's own address as its only forwarder.
abbrev request : Request
request = record empty_request {
  method = codes "GET";
  server = codes "a";
  client_ip = codes "1.2.3.4";
  headers = (codes "x-forwarded-for", codes "1.2.3.4") ∷ [];
}

abbrev cut_off : Network
cut_off = record { connects = λ s n. false; reply = λ s n t. []; tunnel = λ s n. [] }

abbrev no_cache : Cache
no_cache = record { max_age = pos 0; directories = [] }

abbrev same_text : Text → Text → Bool
same_text s t = eq_text s t

abbrev strict : List Text
strict = codes "a" ∷ []

abbrev answering : Network
answering = record { connects = λ s n. true; reply = λ s n t. []; tunnel = λ s n. [] }

abbrev open_cache : Cache
open_cache = record { max_age = pos 60; directories = [] }

apart :
    (hash_request utils length (add_forwarded utils request) == hash_request utils length request)
    ≡ false
unfolding hash_request add_forwarded value_as_string lookup cs.Base.Text.lt_text lower_all
    empty_request cs.Proxy.Header.show_headers cs.Base.Map.insert cs.Proxy.Header.contains_name
apart = refl

handle_request-misses_again_example :
    (contains_cache_entry utils length
      (handle_request utils length cut_off false open_cache request 1 2).cache
      request
      9).0
    ≡ miss
unfolding lookup
handle_request-misses_again_example =
    handle_request-misses_again utils length false cut_off open_cache request 1 2 9 apart refl

-- A response that may be kept for half a minute.
abbrev half_minute : Response
half_minute = add_response_header utils (codes "Cache-Control") (codes "max-age=30") empty_response

half_minute-ttl : ttl utils half_minute ≡ some (pos 30)
unfolding ttl lookup cs.Base.Map.insert lower_all cs.Proxy.Header.contains_name value_as_string
    cs.Base.Text.lt_text cs.Proxy.Response.ttl_of_value cs.Base.Text.find_text
    cs.Base.Text.starts_with add_header add_response_header empty_response cs.Base.Stream.read_int
half_minute-ttl = refl

contains_cache_entry-cache_entry_example :
    contains_cache_entry utils length
      (cache_entry utils length open_cache request half_minute 100 101)
      request
      120
    ≡ (
      rehydrate utils length (show_response utils half_minute),
      cache_entry utils length open_cache request half_minute 100 101,
    )
unfolding eq_text
contains_cache_entry-cache_entry_example =
    contains_cache_entry-cache_entry utils length open_cache request half_minute 100 101 120 refl
      (λ e. cc) half_minute-ttl (omega arith) (omega arith) (omega arith)

-- The client sends ab, the server answers x and the client closes its end; y is not passed on.
abbrev rounds : List Round
rounds =
    ready client (some b'a') (codes "b" ∷ []) false
    ∷ ready server (some b'x') [] false
    ∷ ready client none [] false
    ∷ ready server (some b'y') [] false
    ∷ []

rounds_status : (manage_client_server_bridge rounds).status ≡ finished
unfolding manage_client_server_bridge
rounds_status = refl

bridge_relays_example :
    (used rest : List Round) × (rounds ≡ used ++ rest)
    × ((manage_client_server_bridge rounds).to_server ≡ bytes_from client used)
    × ((manage_client_server_bridge rounds).to_client ≡ bytes_from server used)
    × ((rest ≡ []) ⊎ (continues (manage_client_server_bridge rounds) ≡ false))
bridge_relays_example =
    bridge_relays rounds (λ e. let met : finished ≡ null_stream = sym rounds_status ∙ e in cc)

abbrev settings : Settings
settings = initial_settings 2001 no_cache

settings-IsSound : IsSound settings
unfolding initial_settings
settings-IsSound = record {
  port = (omega arith, omega arith);
  proxy_port = (omega arith, omega arith);
  flagged = refl;
}

abbrev listening : Settings
listening = record settings { port_number = 8080; proxy_port_number = 8080 }

configured : configure ((b'p', some (codes "8080")) ∷ []) 0 settings ≡ some listening
unfolding configure initial_settings cs.Proxy.Options.port_number_of cs.Base.Number.strtol
configured = refl

configure-IsSound_example : Accepted 0 listening
configure-IsSound_example =
    configure-IsSound ((b'p', some (codes "8080")) ∷ []) 0 settings settings-IsSound configured
