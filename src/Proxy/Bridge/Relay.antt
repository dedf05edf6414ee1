-- ===== src/Proxy/Bridge/Relay.antt =====
-- What the tunnel of a CONNECT request passes on.
use cs.Base.{
  ℕ, ◌≡◌, ◌≢◌, ◌⊎◌, refl, sym, ap, ◌∙◌, ◌++◌, List, [], ◌∷◌, Option, none, some, Bool, true, false,
  if◌then◌else◌, arith, append_assoc, Bool-cases, inl, inr,
}
use cs.Base.Text.{Text}
use cs.Proxy.Bridge.{
  Side, client, server, Round, no_event, ready, Status, running, finished, null_stream, Tunnel,
  is_open, drop_side, pass_on, read_more, read_first, round, goes_on, continues, relay,
  manage_client_server_bridge,
}

-- What the code's reads take from a side.
abbrev is_side : Side → Side → Bool
is_side client client = true
is_side server server = true
is_side _ _ = false

abbrev joined : List Text → Text
joined [] = []
joined (bytes ∷ more) = bytes ++ joined more

abbrev bytes_read : Option ℕ → List Text → Text
bytes_read none more = []
bytes_read (some b) more = b ∷ joined more

abbrev bytes_of : Side → Round → Text
bytes_of side no_event = []
bytes_of side (ready other first more ends) =
    if is_side side other then bytes_read first more else []

abbrev pub bytes_from : Side → List Round → Text
bytes_from side [] = []
bytes_from side (r ∷ rest) = bytes_of side r ++ bytes_from side rest

-- The other end of the tunnel.
abbrev pub written_from : Side → Tunnel → Text
written_from client t = t.to_server
written_from server t = t.to_client

append_nil : (s : Text) → s ++ [] ≡ s
append_nil [] = refl
append_nil (x ∷ s) = rw (append_nil s)

same_branches : (b : Bool) (s : Text) → (if b then s else s) ≡ s
same_branches true s = refl
same_branches false s = refl

joined_branches :
    (b : Bool) (s t : Text)
    → (if b then s else []) ++ (if b then t else []) ≡ (if b then s ++ t else [])
joined_branches true s t = refl
joined_branches false s t = refl

pass_on_written :
    (side from : Side) (bytes : Text) (t : Tunnel)
    → written_from side (pass_on from bytes t)
      ≡ written_from side t ++ (if is_side side from then bytes else [])
unfolding pass_on
pass_on_written client client bytes t = refl
pass_on_written client server bytes t = sym (append_nil t.to_server)
pass_on_written server client bytes t = sym (append_nil t.to_client)
pass_on_written server server bytes t = refl

drop_side_written :
    (side from : Side) (t : Tunnel) → written_from side (drop_side from t) ≡ written_from side t
unfolding drop_side
drop_side_written client client t = refl
drop_side_written client server t = refl
drop_side_written server client t = refl
drop_side_written server server t = refl

nothing_added :
    (side : Side) (b : Bool) (t : Tunnel)
    → written_from side t ≡ written_from side t ++ (if b then [] else [])
nothing_added side b t =
    sym (ap (λ x. written_from side t ++ x) (same_branches b []) ∙ append_nil (written_from side t))

read_more_written :
    (side from : Side) (more : List Text) (ends : Bool) (t : Tunnel)
    → written_from side (read_more from more ends t)
      ≡ written_from side t ++ (if is_side side from then joined more else [])
unfolding read_more
read_more_written side from [] true t =
    drop_side_written side from t ∙ nothing_added side (is_side side from) t
read_more_written side from [] false t = nothing_added side (is_side side from) t
read_more_written side from (bytes ∷ more) ends t =
    read_more_written side from more ends (pass_on from bytes t)
    ∙ ap (λ x. x ++ (if is_side side from then joined more else []))
        (pass_on_written side from bytes t)
    ∙ append_assoc (written_from side t) (if is_side side from then bytes else [])
        (if is_side side from then joined more else [])
    ∙ ap (λ x. written_from side t ++ x) (joined_branches (is_side side from) bytes (joined more))

finished_written :
    (side : Side) (t : Tunnel) (s : Status)
    → written_from side (record t { status = s }) ≡ written_from side t
finished_written client t s = refl
finished_written server t s = refl

read_first_written :
    (side from : Side) (first : Option ℕ) (more : List Text) (ends : Bool) (t : Tunnel)
    → written_from side (read_first from first more ends t)
      ≡ written_from side t ++ (if is_side side from then bytes_read first more else [])
unfolding read_first
read_first_written side from none more ends t =
    finished_written side (drop_side from t) finished
    ∙ drop_side_written side from t
    ∙ nothing_added side (is_side side from) t
read_first_written side from (some b) more ends t =
    read_more_written side from more ends (pass_on from (b ∷ []) t)
    ∙ ap (λ x. x ++ (if is_side side from then joined more else []))
        (pass_on_written side from (b ∷ []) t)
    ∙ append_assoc (written_from side t) (if is_side side from then b ∷ [] else [])
        (if is_side side from then joined more else [])
    ∙ ap (λ x. written_from side t ++ x)
        (joined_branches (is_side side from) (b ∷ []) (joined more))

round_written :
    (side : Side) (r : Round) (t : Tunnel)
    → (round r t).status ≢ null_stream
    → written_from side (round r t) ≡ written_from side t ++ bytes_of side r
unfolding round
round_written side no_event t ok =
    finished_written side t finished ∙ sym (append_nil (written_from side t))
round_written side (ready from first more ends) t ok = elim (Bool-cases (is_open from t)) [
  | inl e ↦ rw e (read_first_written side from first more ends t)
  | inr e ↦ absurd (ok (rw e refl))
]

relay-stopped : (rounds : List Round) (t : Tunnel) → continues t ≡ false → relay rounds t ≡ t
unfolding relay
relay-stopped [] t e = refl
relay-stopped (r ∷ rest) t e = rw e refl

null-stops : (t : Tunnel) → t.status ≡ null_stream → continues t ≡ false
unfolding continues goes_on
null-stops t e = ground (arith, e)

pub relay_written :
    (rounds : List Round) (t : Tunnel)
    → (relay rounds t).status ≢ null_stream
    → (used rest : List Round) × (rounds ≡ used ++ rest)
      × ((side : Side)
          → written_from side (relay rounds t) ≡ written_from side t ++ bytes_from side used)
      × ((rest ≡ []) ⊎ (continues (relay rounds t) ≡ false))
unfolding relay
relay_written [] t ok = ([], [], refl, λ side. sym (append_nil (written_from side t)), inl refl)
relay_written (r ∷ rest) t ok = elim (Bool-cases (continues t)) [
  | inl e ↦
      let t' = round r t in
      let opened : relay (r ∷ rest) t ≡ relay rest t' = rw e refl in
      let ok' : (relay rest t').status ≢ null_stream = λ n. ok (ap (λ x. x.status) opened ∙ n) in
      let used_round : t'.status ≢ null_stream =
        λ n. ok' (ap (λ x. x.status) (relay-stopped rest t' (null-stops t' n)) ∙ n) in
      let (used, left, split, passed, ended) = relay_written rest t' ok' in
      (
        r ∷ used,
        left,
        ap (λ x. r ∷ x) split,
        λ side.
            ap (written_from side) opened
            ∙ passed side
            ∙ ap (λ x. x ++ bytes_from side used) (round_written side r t used_round)
            ∙ append_assoc (written_from side t) (bytes_of side r) (bytes_from side used),
        elim ended [ inl e' ↦ inl e' | inr e' ↦ inr (ap continues opened ∙ e') ],
      )
  | inr e ↦
      let stop = relay-stopped (r ∷ rest) t e in
      (
        [],
        r ∷ rest,
        refl,
        λ side. ap (λ x. written_from side x) stop ∙ sym (append_nil (written_from side t)),
        inr (ap (λ x. continues x) stop ∙ e),
      )
]

-- As long as no round is for a descriptor that was dropped, the rounds that the tunnel uses are the
-- first ones: what it has written to each end is what it read from the other in these, in order
-- and without a byte more or less; and it leaves rounds unused only once its loop has ended.
pub bridge_relays :
    (rounds : List Round)
    → (manage_client_server_bridge rounds).status ≢ null_stream
    → (used rest : List Round) × (rounds ≡ used ++ rest)
      × ((manage_client_server_bridge rounds).to_server ≡ bytes_from client used)
      × ((manage_client_server_bridge rounds).to_client ≡ bytes_from server used)
      × ((rest ≡ []) ⊎ (continues (manage_client_server_bridge rounds) ≡ false))
unfolding manage_client_server_bridge
bridge_relays rounds ok =
    let start : Tunnel = record {
      client_open = true;
      server_open = true;
      to_client = [];
      to_server = [];
      status = running;
    } in
    let (used, rest, split, passed, ended) = relay_written rounds start ok in
    (used, rest, split, passed client, passed server, ended)
