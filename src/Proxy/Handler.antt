-- ===== src/Proxy/Handler.antt =====
-- assign6/request-handler.h and request-handler.cc. The network is a parameter: whether a
-- connection to a host and port can be made, and the bytes that come back for those sent. The
-- client sees the bytes written to its socket. Output to cout is left out.
pub mod Answers
use cs.Base.{
  ℕ, zero, suc, ◌+◌, ◌%◌, ◌++◌, List, [], ◌∷◌, Option, none, some, Bool, true, false, not, ◌&&◌,
  ◌||◌, ◌==◌, length, if◌then◌else◌, take, drop,
}
use cs.Base.Text.{Text, codes, eq_text, find_text}
use cs.Base.Int.{ℤ, pos}
use cs.Base.Stream.{StringUtils}
use cs.Proxy.Header.{add_header, contains_name, value_as_string}
use cs.Proxy.Request.{
  Request, empty_request, ingest_request_line, ingest_request_header, ingest_request_payload,
  forward,
}
use cs.Proxy.Response.{
  Response, empty_response, set_protocol, set_response_code, set_response_payload,
  ingest_response_header, ingest_response_payload, show_response,
}
use cs.Proxy.StrikeSet.{server_is_allowed}
use cs.Proxy.Bridge.{Round, manage_client_server_bridge}
use cs.Proxy.Cache.{
  Cache, Found, miss, fault, hit, hash_request, contains_cache_entry, should_cache, cache_entry,
}

pub record Network : Type 0 where
  pub connects : Text → ℕ → Bool
  pub reply : Text → ℕ → Text → Text
  pub tunnel : Text → ℕ → List Round

-- A connection to a server, with the bytes that are sent to it.
pub record Forwarded : Type 0 where
  pub server : Text
  pub port : ℕ
  pub bytes : Text

-- What one request comes to: the bytes sent to the client, the cache, whether an exception that
-- only the last catch clause takes has cut it short, and the connections made to servers.
pub record Outcome : Type 0 where
  pub sent : Text
  pub cache : Cache
  pub aborted : Bool
  pub forwarded : List Forwarded

abbrev pub default_protocol : Text
default_protocol = codes "HTTP/1.0"

abbrev pub forwarded_for_key : Text
forwarded_for_key = codes "x-forwarded-for"

abbrev pub ip_delimiter : Text
ip_delimiter = codes ", "

-- The loop of containsProxyLoop: each address that a delimiter follows is compared. A round drops
-- the delimiter, so the length of the text is fuel enough.
unfoldable pub loop_in : ℕ → Text → Text → Bool
loop_in zero ip s = false
loop_in (suc fuel) ip s = elim (find_text ip_delimiter s) [
  | none ↦ false
  | some i ↦ elim (eq_text ip (take i s)) [ true ↦ true | false ↦ loop_in fuel ip (drop (i + 2) s) ]
]

module _ (u : StringUtils) where
  unfoldable pub contains_proxy_loop : Request → Bool
  unfolding loop_in
  contains_proxy_loop r =
      let s = value_as_string u forwarded_for_key r.headers in
      contains_name u forwarded_for_key r.headers && loop_in (suc (length s)) r.client_ip s

  -- addHeaders
  unfoldable pub add_forwarded : Request → Request
  unfolding add_header
  add_forwarded r =
      let h = add_header u (codes "x-forwarded-proto") (codes "http") r.headers in
      let value =
        if contains_name u forwarded_for_key h
        then value_as_string u forwarded_for_key h ++ (ip_delimiter ++ r.client_ip)
        else r.client_ip in
      record r { headers = add_header u forwarded_for_key value h }

  -- handleError: the bytes of a response that the proxy makes up
  unfoldable pub error_response : ℕ → Text → Response
  unfolding set_response_payload
  error_response code message =
      set_response_payload u message
        (set_response_code (pos code) (set_protocol default_protocol empty_response))

  unfoldable pub handle_error : ℕ → Text → Text
  unfolding error_response show_response
  handle_error code message = show_response u (error_response code message)

  unfoldable pub connect_message : Bool → Text → Text
  connect_message to_proxy server =
      codes "Could not connect to "
      ++ ((if to_proxy then codes "proxy" else codes "server") ++ (32 ∷ server))

  -- getResponse: none where the reply cannot be taken in
  unfoldable pub payload_unless : Bool → Option (Response × Text) → Option Response
  payload_unless ignore none = none
  payload_unless ignore (some (r, rest)) =
      if ignore
      then some r
      else (elim (ingest_response_payload u rest r) [ none ↦ none | some (r', rest') ↦ some r' ])

  unfoldable pub get_response : Text → Bool → Option Response
  unfolding payload_unless
  get_response s ignore = payload_unless ignore (ingest_response_header u s empty_response)

  module _ (hash : Text → ℕ) (net : Network) (to_proxy : Bool) where
    -- The end of handleRequest: cache the response if it may be, and send it.
    unfoldable pub finish_request :
        List Forwarded → Text → Cache → Request → Response → ℕ → ℕ → Outcome
    finish_request out sent c r response now now' = record {
      forwarded = out;
      sent = sent ++ show_response u response;
      cache =
          if should_cache u hash c r response then cache_entry u hash c r response now now' else c;
      aborted = false;
    }

    unfoldable pub answer_with :
        List Forwarded → Cache → Request → Option Response → ℕ → ℕ → Outcome
    unfolding finish_request
    answer_with out c r none now now' = record {
      sent = [];
      cache = c;
      aborted = true;
      forwarded = out;
    }
    answer_with out c r (some response) now now' = finish_request out [] c r response now now'

    -- forwardRequestAndGetResponse and what handleRequest does after it. When no connection can
    -- be made the error is sent, and the empty response after it. The request is modified in
    -- place, so the response is cached for the modified request.
    unfoldable pub forward_request : Cache → Request → ℕ → ℕ → Outcome
    unfolding add_forwarded answer_with finish_request
    forward_request c r now now' =
        let r' = add_forwarded r in
        let bytes = forward r' (not to_proxy) in
        let reply = net.reply r.server r.port bytes in
        let out = record { server = r.server; port = r.port; bytes = bytes } ∷ [] in
        if net.connects r.server r.port
        then answer_with out c r' (get_response reply (eq_text r.method (codes "HEAD"))) now now'
        else finish_request [] (handle_error 504 (connect_message to_proxy r.server)) c r
            empty_response now now'

    unfoldable pub answer_found : Found × Cache → Request → ℕ → ℕ → Outcome
    unfolding forward_request
    answer_found (hit response, c) r now now' = record {
      sent = show_response u response;
      cache = c;
      aborted = false;
      forwarded = [];
    }
    answer_found (fault, c) r now now' = record {
      sent = [];
      cache = c;
      aborted = true;
      forwarded = [];
    }
    answer_found (miss, c) r now now' = forward_request c r now now'

    unfoldable pub handle_request : Cache → Request → ℕ → ℕ → Outcome
    unfolding answer_found
    handle_request c r now now' = answer_found (contains_cache_entry u hash c r now) r now now'

    -- handleCONNECTRequest: the answer, and what the bridge passes on to the client. With no
    -- connection the exception is dropped.
    unfoldable pub handle_connect : Cache → Request → Outcome
    unfolding handle_error manage_client_server_bridge
    handle_connect c r =
        if net.connects r.server r.port
        then record {
          sent =
              handle_error 200 (codes "OK")
              ++ (manage_client_server_bridge (net.tunnel r.server r.port)).to_client;
          cache = c;
          aborted = false;
          forwarded =
              record {
                server = r.server;
                port = r.port;
                bytes = (manage_client_server_bridge (net.tunnel r.server r.port)).to_server;
              }
              ∷ [];
        }
        else record { sent = []; cache = c; aborted = true; forwarded = [] }

    unfoldable pub refuse : Cache → ℕ → Text → Outcome
    unfolding handle_error
    refuse c code message = record {
      sent = handle_error code message;
      cache = c;
      aborted = false;
      forwarded = [];
    }

    -- The table of handlers; a method that is not in it is refused with 405.
    unfoldable pub dispatch : Cache → Request → ℕ → ℕ → Outcome
    unfolding handle_request handle_connect refuse
    dispatch c r now now' =
        if eq_text r.method (codes "GET")
          || eq_text r.method (codes "POST")
          || eq_text r.method (codes "HEAD")
        then handle_request c r now now'
        else (if eq_text r.method (codes "CONNECT")
            then handle_connect c r
            else refuse c 405 r.method)

    module _ (matches : Text → Text → Bool) (blocked : List Text) where
      -- serviceRequest once the request is read
      unfoldable pub serve : Cache → Request → ℕ → ℕ → Outcome
      unfolding dispatch refuse
      serve c r now now' =
          if not (server_is_allowed matches blocked r.server)
          then refuse c 403 (codes "Forbidden Content")
          else (if contains_proxy_loop r
              then refuse c 504 (codes "Circular proxy chain detected")
              else dispatch c r now now')

      unfoldable pub serve_read : Cache → Option (Request × Text) → ℕ → ℕ → Outcome
      unfolding serve
      serve_read c none now now' = record { sent = []; cache = c; aborted = true; forwarded = [] }
      serve_read c (some (r, rest)) now now' = serve c r now now'

      unfoldable pub read_rest : Request × Text → Text → Option (Request × Text)
      read_rest (r, s) ip = elim (ingest_request_header u ip s r) [
        | none ↦ none
        | some (r', s') ↦ ingest_request_payload u s' r'
      ]

      unfoldable pub service_request : Cache → Text → Text → ℕ → ℕ → Outcome
      unfolding serve_read read_rest refuse
      service_request c stream ip now now' = elim (ingest_request_line u stream empty_request) [
        | none ↦ refuse c 400 (codes "First line of request could not be read.")
        | some line ↦ serve_read c (read_rest line ip) now now'
      ]

  -- hashRequest: the mutex that serialises requests of one hash
  unfoldable pub mutex_index : (Text → ℕ) → Request → ℕ
  mutex_index hash r = hash_request u hash r % 997
