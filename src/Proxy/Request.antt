-- ===== src/Proxy/Request.antt =====
-- assign6/request.h and request.cc.
use cs.Base.{ℕ, suc, ◌++◌, [], ◌∷◌, Option, none, some, Bool, not, if◌then◌else◌, take, drop}
use cs.Base.Text.{Text, codes, eq_text, starts_with, find_char}
use cs.Base.Number.{strtol}
use cs.Base.Int.{signed, to_ushort}
use cs.Base.Stream.{StringUtils, getline, read_word}
use cs.Proxy.Header.{Headers, ingest_header, show_headers}
use cs.Proxy.Payload.{ingest_payload}

pub record Request : Type 0 where
  pub request_line : Text
  pub headers : Headers
  pub payload : Text
  pub method : Text
  pub url : Text
  pub server : Text
  pub port : ℕ
  pub path : Text
  pub protocol : Text
  pub client_ip : Text

unfoldable pub empty_request : Request
empty_request = record {
  request_line = [];
  headers = [];
  payload = [];
  method = [];
  url = [];
  server = [];
  port = 0;
  path = [];
  protocol = [];
  client_ip = [];
}

-- The url without the prefix http://
unfoldable pub strip_prefix : Text → Text
strip_prefix url = if starts_with (codes "http://") url then drop 7 url else url

-- The server with its port, and the path.
unfoldable pub split_path : Text → Text × Text
split_path s = elim (find_char b'/' s) [ none ↦ (s, codes "/") | some i ↦ (take i s, drop i s) ]

-- The port after a colon, 80 without one, and the server before it.
unfoldable pub split_port : Text → Text × ℕ
split_port s = elim (find_char b':' s) [
  | none ↦ (s, 80)
  | some i ↦ let p = strtol 0 (drop (suc i) s) in (take i s, to_ushort (signed p.negative p.value))
]

-- The fields that ingestRequestLine reads from a trimmed line.
unfoldable pub parse_request_line : Text → Request → Request
unfolding strip_prefix split_path split_port
parse_request_line line r =
    let (method, rest) = read_word line in
    let (url, rest') = read_word rest in
    let protocol = (read_word rest').0 in
    let (host, path) = split_path (strip_prefix url) in
    let (server, port) = split_port host in
    record r {
      request_line = line;
      method = method;
      url = url;
      protocol = protocol;
      path = path;
      server = server;
      port = port;
    }

module _ (u : StringUtils) where
  -- none: the first line could not be read, and HTTPBadRequestException is thrown
  unfoldable pub ingest_request_line : Text → Request → Option (Request × Text)
  unfolding parse_request_line
  ingest_request_line s r =
      let line = getline s in
      if line.failed then none else some (parse_request_line (u.trim line.content) r, line.rest)

  unfoldable pub ingest_request_header : Text → Text → Request → Option (Request × Text)
  ingest_request_header ip s r = elim (ingest_header u r.headers s) [
    | none ↦ none
    | some g ↦ some (record r { headers = g.headers; client_ip = ip }, g.rest)
  ]

  unfoldable pub ingest_request_payload : Text → Request → Option (Request × Text)
  ingest_request_payload s r =
      if not (eq_text r.method (codes "POST"))
      then some (r, s)
      else (elim (ingest_payload u r.headers r.payload s) [
        | none ↦ none
        | some g ↦ some (record r { payload = g.payload }, g.rest)
      ])

-- forward: the request line names the whole url for a server, the path for a proxy
unfoldable pub forward : Request → Bool → Text
forward r to_server =
    r.method
    ++ (32
        ∷ ((if to_server then r.url else r.path)
            ++ (32
                ∷ (r.protocol ++ (13 ∷ 10 ∷ (show_headers r.headers ++ (13 ∷ 10 ∷ r.payload)))))))

-- operator<<
unfoldable pub show_request : Request → Text
show_request r =
    r.method
    ++ (32
        ∷ (r.url
            ++ (32
                ∷ (r.protocol ++ (13 ∷ 10 ∷ (show_headers r.headers ++ (13 ∷ 10 ∷ r.payload)))))))
