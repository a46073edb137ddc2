-- ===== src/Session/Endpoint/Data.antt =====
-- transport/session.go and transport/flow.go: what a Session sends, and what it does with the data
-- and the messages that come in.
use openflux_zen_server.Prelude.{
  ℕ, ◌+◌, ◌/◌, ◌%◌, Bool, true, not, ◌&&◌, ◌||◌, List, [], ◌∷◌, ◌++◌, Option, none, some, ltb, ◌==◌,
  if◌then◌else◌, length, take, drop, get_or, replicate, byte_at, same_bytes,
}
use openflux_zen_server.L3.Checksum.{header_length}
use openflux_zen_server.Control.{
  kind_hello, kind_ipv4, kind_control, envelope_size, ControlTail, Envelope, Encoded, encoded,
  unencoded, Parsed, parsed, unparsed, encode_envelope, decode_envelope,
}
use openflux_zen_server.Session.Admission.{PacketError, permitted_packet}
use openflux_zen_server.Session.Replay.{accept_sequence}
use openflux_zen_server.Session.Links.{top_links}
use openflux_zen_server.Session.Endpoint.{
  Session, World, Action, SendError, Outcome, hear, role_locked, live_links_locked,
}
use openflux_zen_server.Session.Endpoint.Classic.{
  classic_target_locked, session_active_locked, send_classic, delivery,
}
use openflux_zen_server.Session.Endpoint.Hello.{receive_hello}

-- The key's ports, which only TCP and UDP have.
unfoldable pub flow_key_ports : List ℕ → List ℕ
flow_key_ports pkt =
    let ihl = header_length pkt in
    if ltb (length pkt) (ihl + 4) || ltb ihl 20
    then replicate 4 0
    else if byte_at pkt 9 == 6 || byte_at pkt 9 == 17
    then take 4 (drop ihl pkt)
    else replicate 4 0

-- `extractFlowKeyBytes`: the two addresses, the ports, the protocol and a pad.
unfoldable pub extract_flow_key_bytes : List ℕ → List ℕ
extract_flow_key_bytes pkt =
    if ltb (length pkt) 20 || not (byte_at pkt 0 / 16 == 4)
    then replicate 14 0
    else take 8 (drop 12 pkt) ++ (flow_key_ports pkt ++ (byte_at pkt 9 ∷ 0 ∷ []))

-- The envelope of `Send`.
unfoldable pub data_envelope : Session → ℕ → Envelope
data_envelope s seq = record {
  kind = kind_ipv4;
  role = role_locked s;
  local_challenge = s.own;
  peer_challenge = s.peer;
  hello = none;
  data_sequence = some seq;
  control = none;
}

-- The link that `Send` picks among those of the highest priority.
unfoldable pub chosen_link : World → Session → List ℕ → List ℕ → ℕ
chosen_link w s links p =
    let top = top_links (λ n. (s.links n).priority) links in
    get_or top (w.flow_hash (extract_flow_key_bytes p) % length top) 0

unfoldable pub transmit_behind : ℕ → Encoded → List ℕ → Outcome
transmit_behind link (encoded raw) p = Outcome.done (Action.transmits link (raw ++ p) ∷ [])
transmit_behind link (unencoded e) p = Outcome.failed (SendError.not_encoded e)

unfoldable pub transmit_data : World → Session → List ℕ → List ℕ → ℕ → Outcome
transmit_data w s [] p seq = Outcome.failed SendError.no_live_transport
transmit_data w s (n ∷ links) p seq =
    transmit_behind (chosen_link w s (n ∷ links) p) (encode_envelope (data_envelope s seq)) p

unfoldable pub send_permitted : World → Session → List ℕ → Option PacketError → Session × Outcome
send_permitted w s p (some e) = (s, Outcome.failed (SendError.not_permitted e))
send_permitted w s p none =
    if s.sequence == 18446744073709551615
    then (s, Outcome.failed SendError.exhausted)
    else let s' : Session = record s { sequence = s.sequence + 1 } in
      (s', transmit_data w s' (live_links_locked w s') p (s.sequence + 1))

-- `Send` in the layering of a Session.
unfoldable pub send_session : World → Session → List ℕ → Session × Outcome
send_session w s p =
    if not s.ready || s.stopped
    then (s, Outcome.failed SendError.negotiation_pending)
    else send_permitted w s p (permitted_packet p s.remote)

unfoldable pub send_by : World → Session → List ℕ → Option ℕ → Session × Outcome
send_by w s p none = send_session w s p
send_by w s p (some link) =
    if not s.ready || (s.exit && not (session_active_locked w s))
    then (s, send_classic link p)
    else send_session w s p

-- `Send`. The target of a Session that is `classic_off` is none.
unfoldable pub send : World → Session → List ℕ → Session × Outcome
send w s p = if s.stopped then send_session w s p else send_by w s p (classic_target_locked s)

-- The envelope of `sendControlVia`.
unfoldable pub control_envelope : Session → ℕ → List ℕ → Envelope
control_envelope s subtype payload = record {
  kind = kind_control;
  role = role_locked s;
  local_challenge = s.own;
  peer_challenge = s.peer;
  hello = none;
  data_sequence = none;
  control = some (record { subtype = subtype; flags = 0; payload_len = length payload % 65536 });
}

-- `sendControlVia`
unfoldable pub send_control_via : Session → ℕ → ℕ → List ℕ → Outcome
send_control_via s link subtype payload =
    if subtype == 0
    then Outcome.failed SendError.empty_subtype
    else if ltb 65535 (length payload)
    then Outcome.failed SendError.payload_too_large
    else if not s.ready || s.stopped
    then Outcome.failed SendError.negotiation_pending
    else transmit_behind link (encode_envelope (control_envelope s subtype payload)) payload

unfoldable pub send_control_over : Session → List ℕ → ℕ → List ℕ → Outcome
send_control_over s [] subtype payload = Outcome.failed SendError.no_live_transport
send_control_over s (link ∷ links) subtype payload = send_control_via s link subtype payload

-- `SendControl`
unfoldable pub send_control : World → Session → ℕ → List ℕ → Outcome
send_control w s subtype payload = send_control_over s (live_links_locked w s) subtype payload

-- `env.Local != s.peer || env.Peer != s.local`
unfoldable pub is_mismatch : Session → Envelope → Bool
is_mismatch s env =
    not (same_bytes env.local_challenge s.peer) || not (same_bytes env.peer_challenge s.own)

-- `receiveIPv4` from acceptSequenceLocked on
unfoldable pub receive_fresh : World → Session → ℕ → List ℕ → ℕ → Session × List Action
receive_fresh w s link payload seq =
    let (sequences, fine) = accept_sequence s.sequences seq in
    if fine
    then (hear (some w.now) link (record s { sequences = sequences }), delivery s payload)
    else (record s { sequences = sequences }, [])

unfoldable pub receive_permitted :
    World → Session → ℕ → List ℕ → ℕ → Option PacketError → Session × List Action
receive_permitted w s link payload seq (some e) = (s, [])
receive_permitted w s link payload seq none = receive_fresh w s link payload seq

unfoldable pub receive_data :
    World → Session → ℕ → List ℕ → Envelope → Option ℕ → Session × List Action
receive_data w s link p env none = (s, [])
receive_data w s link p env (some seq) =
    if not s.ready || s.stopped
    then (s, [])
    else if is_mismatch s env
    then (s, [])
    else let payload = drop envelope_size p in
      receive_permitted w s link payload seq (permitted_packet payload s.remote)

-- `receiveIPv4`
unfoldable pub receive_ipv4 : World → Session → ℕ → List ℕ → Envelope → Session × List Action
receive_ipv4 w s link p env = receive_data w s link p env env.data_sequence

abbrev pub subtype_link_ping : ℕ
subtype_link_ping = 32

abbrev pub subtype_link_pong : ℕ
subtype_link_pong = 33

-- The messages of the other subtypes, which the control callback gets.
unfoldable pub other_message : Session → List ℕ → ℕ → Session × List Action
other_message s payload subtype =
    if subtype == subtype_link_pong
    then (record s { peer_keepalive = true }, [])
    else (s, if s.control_callback then Action.handles subtype payload ∷ [] else [])

-- The `switch` of `receiveControl` and what follows it.
unfoldable pub handle_message : Session → ℕ → List ℕ → ℕ → Session × List Action
handle_message s link payload subtype =
    if subtype == subtype_link_ping
    then (s, if s.no_pong then [] else Action.pongs link ∷ [])
    else other_message s payload subtype

-- A message with a sound tail.
unfoldable pub accept_message : World → Session → ℕ → List ℕ → Envelope → ℕ → Session × List Action
accept_message w s link p env subtype =
    if not s.ready || s.stopped
    then (s, [])
    else if is_mismatch s env
    then (s, [])
    else handle_message (hear (some w.now) link s) link (drop envelope_size p) subtype

unfoldable pub receive_message :
    World → Session → ℕ → List ℕ → Envelope → Option ControlTail → Session × List Action
receive_message w s link p env none = (s, [])
receive_message w s link p env (some t) =
    if not (t.flags == 0) || t.subtype == 0
    then (s, [])
    else accept_message w s link p env t.subtype

-- `receiveControl`
unfoldable pub receive_control : World → Session → ℕ → List ℕ → Envelope → Session × List Action
receive_control w s link p env = receive_message w s link p env env.control

unfoldable pub receive_parsed : World → Session → ℕ → List ℕ → Parsed → Session × List Action
receive_parsed w s link p (unparsed e) = (s, [])
receive_parsed w s link p (parsed env) =
    if env.role == role_locked s
    then (s, [])
    else if env.kind == kind_hello
    then receive_hello w s link env
    else if env.kind == kind_ipv4
    then receive_ipv4 w s link p env
    else if env.kind == kind_control
    then receive_control w s link p env
    else (s, [])

-- `receive`
unfoldable pub receive : World → Session → ℕ → List ℕ → Session × List Action
receive w s link p = receive_parsed w s link p (decode_envelope p)
