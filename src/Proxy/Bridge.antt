-- ===== src/Proxy/Bridge.antt =====
-- assign6/request-handler.cc: the tunnel of a CONNECT request. What watchset.wait reports and what
-- the two socket streams deliver is given, one round of the loop after the other.
pub mod Relay
use cs.Base.{
  ℕ, ◌++◌, List, [], ◌∷◌, Option, none, some, Bool, true, false, not, ◌&&◌, ◌||◌, if◌then◌else◌,
}
use cs.Base.Text.{Text}

pub data Side : Type 0 where
  client server : Side

-- A call of wait: none of the descriptors is ready (or it fails); or one is, with its first byte,
-- if there is one, the results of readsome up to the first that ends the inner loop, and whether
-- that one is the end of the stream.
pub data Round : Type 0 where
  no_event : Round
  ready : Side → Option ℕ → List Text → Bool → Round

-- Which descriptors are in the watchset and in the map of streams, and what is written to each end.
-- A round for a descriptor that is not in the map uses a null stream.
pub data Status : Type 0 where
  running finished null_stream : Status

pub record Tunnel : Type 0 where
  pub client_open : Bool
  pub server_open : Bool
  pub to_client : Text
  pub to_server : Text
  pub status : Status

unfoldable pub is_open : Side → Tunnel → Bool
is_open client t = t.client_open
is_open server t = t.server_open

-- watchset.remove and streams.erase
unfoldable pub drop_side : Side → Tunnel → Tunnel
drop_side client t = record t { client_open = false }
drop_side server t = record t { server_open = false }

-- Bytes that come from one side are written to the other.
unfoldable pub pass_on : Side → Text → Tunnel → Tunnel
pass_on client bytes t = record t { to_server = t.to_server ++ bytes }
pass_on server bytes t = record t { to_client = t.to_client ++ bytes }

-- The inner loop.
unfoldable pub read_more : Side → List Text → Bool → Tunnel → Tunnel
unfolding drop_side pass_on
read_more side [] ends t = if ends then drop_side side t else t
read_more side (bytes ∷ more) ends t = read_more side more ends (pass_on side bytes t)

-- The end of the stream in place of the first byte leaves the outer loop.
unfoldable pub read_first : Side → Option ℕ → List Text → Bool → Tunnel → Tunnel
unfolding read_more
read_first side none more ends t = record (drop_side side t) { status = finished }
read_first side (some b) more ends t = read_more side more ends (pass_on side (b ∷ []) t)

unfoldable pub round : Round → Tunnel → Tunnel
unfolding is_open read_first
round no_event t = record t { status = finished }
round (ready side first more ends) t =
    if is_open side t then read_first side first more ends t else record t { status = null_stream }

unfoldable pub goes_on : Status → Bool
goes_on running = true
goes_on finished = false
goes_on null_stream = false

-- The condition of the outer loop, and that it has not been left.
unfoldable pub continues : Tunnel → Bool
unfolding goes_on
continues t = goes_on t.status && (t.client_open || t.server_open)

-- The outer loop, on the rounds to come.
unfoldable pub relay : List Round → Tunnel → Tunnel
unfolding continues round
relay [] t = t
relay (r ∷ rest) t = let after = relay rest (round r t) in if continues t then after else t

-- manageClientServerBridge
unfoldable pub manage_client_server_bridge : List Round → Tunnel
unfolding relay
manage_client_server_bridge rounds = relay rounds (record {
  client_open = true;
  server_open = true;
  to_client = [];
  to_server = [];
  status = running;
})
