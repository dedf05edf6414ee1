-- ===== src/Proxy/Header.antt =====
-- assign6/header.h and header.cc.
pub mod Lookup
pub mod RoundTrip
use cs.Base.{
  ℕ, zero, suc, ◌++◌, List, [], ◌∷◌, Option, none, some, Bool, true, false, not, ◌==◌, length,
  if◌then◌else◌, is_empty,
}
use cs.Base.Text.{Text, eq_text}
use cs.Base.TextOrder.{Text_order}
use cs.Base.Map.{lookup, insert, erase}
use cs.Base.Number.{strtol, show_nat}
use cs.Base.Int.{ℤ, pos, signed}
use cs.Base.Stream.{StringUtils, Line, getline, getline_to}

abbrev pub Headers : Type 0
Headers = List (Text × Text)

-- Where reading the header stopped: the last name, the map, the rest of the stream.
pub record Ingested : Type 0 where
  pub name : Text
  pub headers : Headers
  pub rest : Text

module _ (u : StringUtils) where
  unfoldable pub add_header : Text → Text → Headers → Headers
  add_header name value h = insert (u.to_lower name) value h

  unfoldable pub add_number : Text → ℕ → Headers → Headers
  unfolding add_header
  add_number name value h = add_header name (show_nat value) h

  unfoldable pub remove_header : Text → Headers → Headers
  remove_header name h = erase (u.to_lower name) h

  unfoldable pub is_present : Option Text → Bool
  is_present none = false
  is_present (some v) = true

  unfoldable pub contains_name : Text → Headers → Bool
  unfolding is_present
  contains_name name h = is_present (lookup (u.to_lower name) h)

  unfoldable pub value_or_empty : Option Text → Text
  value_or_empty none = []
  value_or_empty (some v) = v

  unfoldable pub value_as_string : Text → Headers → Text
  unfolding value_or_empty
  value_as_string name h = value_or_empty (lookup (u.to_lower name) h)

  unfoldable pub value_as_number : Text → Headers → ℤ
  unfolding value_as_string
  value_as_number name h =
      let value = value_as_string name h in
      let p = strtol 0 value in
      if is_empty value
      then pos 0
      else (if is_empty p.rest then signed p.negative p.value else pos 0)

  -- headers[name] += ' ' + value
  unfoldable pub extend_header : Text → Text → Headers → Headers
  unfolding value_as_string
  extend_header name value h = insert (u.to_lower name) (value_as_string name h ++ (32 ∷ value)) h

  -- A line that is not empty, trimmed on the right: a continuation, or a name and its value.
  unfoldable pub ingest_line : Text → Text → Headers → Text × Headers
  unfolding add_header extend_header
  ingest_line [] name h = (name, h)
  ingest_line (c ∷ s) name h =
      let parts = getline_to b':' (c ∷ s) in
      let new_name = u.trim parts.content in
      if c == 32
      then (name, extend_header name (u.trim (c ∷ s)) h)
      else (new_name, add_header new_name (u.trim (getline parts.rest).content) h)

  -- The loop of ingestHeader, which ends at the first line that is blank. A round reads a line,
  -- so the length of the stream is fuel enough.
  unfoldable pub ingest_loop : ℕ → Text → Headers → Text → Option Ingested
  unfolding ingest_line
  ingest_loop zero name h s = none
  ingest_loop (suc fuel) name h s =
      let line = u.rtrim (getline s).content in
      let (name', h') = ingest_line line name h in
      elim (is_empty line) [
        | true ↦ some (record { name = name; headers = h; rest = (getline s).rest })
        | false ↦ ingest_loop fuel name' h' (getline s).rest
      ]

  unfoldable pub ingest_header : Headers → Text → Option Ingested
  unfolding ingest_loop
  ingest_header h s = ingest_loop (suc (length s)) [] h s

-- operator<<
unfoldable pub show_headers : Headers → Text
show_headers [] = []
show_headers ((name, value) ∷ h) = name ++ (b':' ∷ 32 ∷ (value ++ (13 ∷ 10 ∷ show_headers h)))
