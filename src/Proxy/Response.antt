-- ===== src/Proxy/Response.antt =====
-- assign6/response.h and response.cc.
use cs.Base.{
  ℕ, suc, ◌+◌, ◌++◌, List, [], ◌∷◌, Option, none, some, Bool, true, false, not, ◌&&◌, ◌==◌,
  if◌then◌else◌, drop,
}
use cs.Base.Text.{Text, codes, find_text, contains_text}
use cs.Base.Number.{show_nat}
use cs.Base.Int.{ℤ, pos, negsuc, ltb_ℤ}
use cs.Base.Stream.{StringUtils, getline, read_word, read_int}
use cs.Proxy.Header.{
  Headers, add_header, contains_name, value_as_string, ingest_header, show_headers,
}
use cs.Proxy.Payload.{set_payload, ingest_payload}

-- `code` is none while nothing has set it.
pub record Response : Type 0 where
  pub code : Option ℤ
  pub protocol : Text
  pub headers : Headers
  pub payload : Text

unfoldable pub empty_response : Response
empty_response = record { code = none; protocol = []; headers = []; payload = [] }

abbrev pub set_protocol : Text → Response → Response
set_protocol p r = record r { protocol = p }

abbrev pub set_response_code : ℤ → Response → Response
set_response_code c r = record r { code = some c }

abbrev pub status_messages : List (ℕ × Text)
status_messages =
    (100, codes "Continue")
    ∷ (101, codes "Switching Protocols")
    ∷ (200, codes "OK")
    ∷ (201, codes "Created")
    ∷ (202, codes "Accepted")
    ∷ (203, codes "Non-Authoritative Information")
    ∷ (204, codes "No Content")
    ∷ (205, codes "Reset Content")
    ∷ (206, codes "Partial Content")
    ∷ (300, codes "Multiple Choices")
    ∷ (301, codes "Permanently Moved")
    ∷ (302, codes "Found")
    ∷ (303, codes "See Other")
    ∷ (304, codes "Not Modified")
    ∷ (305, codes "Use Proxy")
    ∷ (307, codes "Temporary Redirect")
    ∷ (400, codes "Bad Request")
    ∷ (401, codes "Unauthorized")
    ∷ (402, codes "Payment Required")
    ∷ (403, codes "Forbidden")
    ∷ (404, codes "Not Found")
    ∷ (405, codes "Method Not Allowed")
    ∷ (406, codes "Not Acceptable")
    ∷ (407, codes "Proxy Authentication Required")
    ∷ (408, codes "Request Timeout")
    ∷ (409, codes "Conflict")
    ∷ (410, codes "Gone")
    ∷ (500, codes "Internal Server Error")
    ∷ (501, codes "Not Implemented")
    ∷ (502, codes "Bad Gateway")
    ∷ (504, codes "Gateway Timeout")
    ∷ (505, codes "HTTP Version Not Supported")
    ∷ (510, codes "General Proxy Failure")
    ∷ []

unfoldable pub message_in : List (ℕ × Text) → ℕ → Text
message_in [] code = codes "Unknown Code"
message_in ((k, m) ∷ ms) code = elim (k == code) [ true ↦ m | false ↦ message_in ms code ]

unfoldable pub status_message : ℤ → Text
unfolding message_in
status_message (pos n) = message_in status_messages n
status_message (negsuc n) = codes "Unknown Code"

unfoldable pub show_int : ℤ → Text
show_int (pos n) = show_nat n
show_int (negsuc n) = b'-' ∷ show_nat (suc n)

module _ (u : StringUtils) where
  unfoldable pub ingest_response_header : Text → Response → Option (Response × Text)
  ingest_response_header s r =
      let line = getline s in
      let (protocol, rest) = read_word line.content in
      elim (ingest_header u r.headers line.rest) [
        | none ↦ none
        | some g ↦
            some
              (record r { protocol = protocol; code = read_int rest; headers = g.headers }, g.rest)
      ]

  unfoldable pub ingest_response_payload : Text → Response → Option (Response × Text)
  ingest_response_payload s r = elim (ingest_payload u r.headers r.payload s) [
    | none ↦ none
    | some g ↦ some (record r { payload = g.payload }, g.rest)
  ]

  unfoldable pub add_response_header : Text → Text → Response → Response
  unfolding add_header
  add_response_header name value r = record r { headers = add_header u name value r.headers }

  unfoldable pub set_response_payload : Text → Response → Response
  unfolding set_payload
  set_response_payload text r =
      let (payload, h) = set_payload u text r.headers in record r { payload = payload; headers = h }

  abbrev pub cache_control : Response → Text
  cache_control r = value_as_string u (codes "Cache-Control") r.headers

  -- The number after max-age=; none where the source reads nothing into its variable.
  unfoldable pub ttl_of_value : Text → Option ℤ
  ttl_of_value value = elim (find_text (codes "max-age=") value) [
    | none ↦ some (pos 0)
    | some i ↦ read_int (drop (i + 8) value)
  ]

  unfoldable pub ttl : Response → Option ℤ
  unfolding ttl_of_value
  ttl r =
      if not (contains_name u (codes "Cache-Control") r.headers)
      then some (pos 0)
      else ttl_of_value (cache_control r)

  unfoldable pub is_positive : Option ℤ → Bool
  is_positive none = false
  is_positive (some n) = ltb_ℤ (pos 0) n

  unfoldable pub permits_caching : Response → Bool
  unfolding is_positive
  permits_caching r =
      contains_name u (codes "Cache-Control") r.headers
      && not (contains_text (codes "private") (cache_control r))
      && not (contains_text (codes "no-cache") (cache_control r))
      && not (contains_text (codes "no-store") (cache_control r))
      && is_positive (ttl r)

-- The code, which a response that is not read and not given one does not set.
unfoldable pub response_code : StringUtils → Option ℤ → ℤ
response_code u none = u.unset_int
response_code u (some c) = c

-- operator<<
unfoldable pub show_code : ℤ → Text
unfolding show_int status_message
show_code c = show_int c ++ (32 ∷ status_message c)

unfoldable pub show_response : StringUtils → Response → Text
unfolding show_code response_code
show_response u r =
    r.protocol
    ++ (32
        ∷ (show_code (response_code u r.code)
            ++ (13 ∷ 10 ∷ (show_headers r.headers ++ (13 ∷ 10 ∷ r.payload)))))
