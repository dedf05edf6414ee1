-- ===== src/Proxy/Payload.antt =====
-- assign6/payload.h and payload.cc.
use cs.Base.{
  ℕ, zero, suc, ◌+◌, ◌-◌, ◌%◌, ◌++◌, [], ◌∷◌, Option, none, some, Bool, true, false, ◌==◌, length,
  if◌then◌else◌, take, drop, replicate, ltb,
}
use cs.Base.Text.{Text, codes, eq_text}
use cs.Base.Number.{strtol}
use cs.Base.Int.{to_size}
use cs.Base.Stream.{StringUtils, getline}
use cs.Proxy.Header.{Headers, add_number, value_as_string, value_as_number}

-- A payload and the rest of the stream that it was read from.
pub record Read : Type 0 where
  pub payload : Text
  pub rest : Text

-- instream.read into a zeroed buffer of n bytes: what is missing stays zero.
unfoldable pub read_block : ℕ → Text → Text
read_block n s = let got = take n s in got ++ replicate (n - length got) 0

module _ (u : StringUtils) where
  -- The payload and the header's new Content-Length.
  unfoldable pub set_payload : Text → Headers → Text × Headers
  unfolding add_number
  set_payload text h = (text, add_number u (codes "Content-Length") (length text) h)

  unfoldable pub is_chunked : Headers → Bool
  is_chunked h = eq_text (value_as_string u (codes "Transfer-Encoding") h) (codes "chunked")

  -- The trimmed line that announces a chunk.
  unfoldable pub chunk_line : Text → Text
  chunk_line s = u.trim (getline s).content

  -- Its number: strtol of "0x" and the line, in base 16, put into an int. The prefix leaves no
  -- place for a sign. A size of 2 GB or more, negative as an int, is not modelled: none.
  unfoldable pub chunk_size : Text → Option ℕ
  chunk_size line =
      let n = (strtol 16 (b'0' ∷ b'x' ∷ line)).value % 4294967296 in
      if ltb n 2147483646 then some n else none

  -- The loop of ingestChunkedPayload: none where the size throws or the fuel runs out. A round
  -- that goes on has read a line, so the length of the stream is fuel enough.
  unfoldable pub chunk_loop : ℕ → Text → Text → Option Read
  unfolding chunk_line chunk_size read_block
  chunk_loop zero payload s = none
  chunk_loop (suc fuel) payload s =
      let line = chunk_line s in
      let announced = payload ++ (line ++ (13 ∷ 10 ∷ [])) in
      let rest = (getline s).rest in
      elim (chunk_size line) [
        | none ↦ none
        | some n ↦ elim (n == 0) [
          | true ↦ some (record { payload = announced; rest = drop (n + 2) rest })
          | false ↦ chunk_loop fuel (announced ++ read_block (n + 2) rest) (drop (n + 2) rest)
        ]
      ]

  unfoldable pub add_trailer : Option Read → Option Read
  add_trailer none = none
  add_trailer (some r) = some (record r { payload = r.payload ++ (13 ∷ 10 ∷ []) })

  unfoldable pub ingest_chunked : Text → Text → Option Read
  unfolding chunk_loop add_trailer
  ingest_chunked payload s = add_trailer (chunk_loop (suc (length s)) payload s)

  unfoldable pub ingest_complete : Text → Text → ℕ → Option Read
  unfolding read_block
  ingest_complete payload s n =
      some (record { payload = payload ++ read_block n s; rest = drop n s })

  unfoldable pub ingest_payload : Headers → Text → Text → Option Read
  unfolding is_chunked ingest_chunked ingest_complete
  ingest_payload h payload s =
      if is_chunked h
      then ingest_chunked payload s
      else ingest_complete payload s (to_size (value_as_number u (codes "Content-Length") h))
