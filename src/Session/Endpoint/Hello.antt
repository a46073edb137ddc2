-- ===== src/Session/Endpoint/Hello.antt =====
-- transport/session.go: what a Session does with a hello.
use openflux_zen_server.Prelude.{
  ℕ, ◌+◌, ◌%◌, Bool, true, false, not, ◌&&◌, ◌||◌, List, [], ◌∷◌, ◌++◌, Option, none, some, ltb,
  ◌==◌, if◌then◌else◌, same_bytes,
}
use openflux_zen_server.Control.{kind_hello, HelloTail, Envelope, encode_envelope}
use openflux_zen_server.Session.Admission.{PeerParameters, valid_parameters}
use openflux_zen_server.Session.Replay.{fresh}
use openflux_zen_server.Session.Endpoint.{
  CandidatePeer, Session, World, Action, zero_challenge, within, hear, role_locked, send_encoded,
  hello_each, negotiated,
}

abbrev pub candidate_ttl : ℕ
candidate_ttl = 20000000000

abbrev pub candidate_interval : ℕ
candidate_interval = 1000000000

-- `now.After(cand.expires)`
unfoldable pub current_candidate : ℕ → Option CandidatePeer → Option CandidatePeer
current_candidate now none = none
current_candidate now (some c) = if ltb c.expires now then none else some c

-- The first branch of `offerReplacementLocked`: the candidate becomes the peer.
unfoldable pub take_over :
    World → Session → ℕ → PeerParameters → CandidatePeer → Session × List Action
take_over w s link params c =
    let s' : Session = hear (some w.now) link (record s {
      own = c.own;
      peer = c.sender;
      remote = negotiated params s.params;
      sequence = 0;
      sequences = fresh;
      peer_keepalive = false;
      candidate = none;
      links = λ n. record (s.links n) { last_heard = none };
    }) in
    (s', hello_each s' s.order)

-- The envelope `offer`.
unfoldable pub offer_hello : Session → CandidatePeer → Envelope
offer_hello s c = record {
  kind = kind_hello;
  role = role_locked s;
  local_challenge = c.own;
  peer_challenge = c.sender;
  hello = some (record {
    capabilities = s.params.capabilities;
    max_packet_size = s.params.max_packet_size % 65536;
    ready_flag = 0;
    reserved = 0;
  });
  data_sequence = none;
  control = none;
}

unfoldable pub offer_via : Session → CandidatePeer → ℕ → List Action
offer_via s c name =
    if (s.links name).started then send_encoded name (encode_envelope (offer_hello s c)) else []

-- `for _, l := range links { l.batched.Send(raw) }` over the links that are started
unfoldable pub offer_each : Session → CandidatePeer → List ℕ → List Action
offer_each s c [] = []
offer_each s c (name ∷ names) = offer_via s c name ++ offer_each s c names

-- A new candidate, with a challenge of its own.
unfoldable pub new_candidate : World → Session → List ℕ → Option (List ℕ) → Session × List Action
new_candidate w s sender none = (s, [])
new_candidate w s sender (some own) =
    let c : CandidatePeer = record {
      sender = sender;
      own = own;
      expires = w.now + candidate_ttl;
    } in
    (record s { candidate = some c; candidate_last = some w.now }, offer_each s c s.order)

-- A new candidate at most once in candidateInterval.
unfoldable pub limited_candidate : World → Session → List ℕ → Session × List Action
limited_candidate w s sender =
    if within w.now s.candidate_last candidate_interval
    then (s, [])
    else new_candidate w s sender w.random

-- The rest of `offerReplacementLocked`, when the sender did not take over.
unfoldable pub offer_challenge :
    World → Session → List ℕ → Option CandidatePeer → Session × List Action
offer_challenge w s sender none = limited_candidate w s sender
offer_challenge w s sender (some c) =
    if same_bytes c.sender sender then (s, offer_each s c s.order) else limited_candidate w s sender

unfoldable pub offer_or_take_over :
    World → Session → ℕ → PeerParameters → Envelope → Option CandidatePeer → Session × List Action
offer_or_take_over w s link params env none =
    if same_bytes env.peer_challenge zero_challenge
    then offer_challenge w s env.local_challenge none
    else (s, [])
offer_or_take_over w s link params env (some c) =
    if same_bytes c.sender env.local_challenge && same_bytes env.peer_challenge c.own
    then take_over w s link params c
    else if same_bytes env.peer_challenge zero_challenge
    then offer_challenge w s env.local_challenge (some c)
    else (s, [])

-- `offerReplacementLocked`
unfoldable pub offer_replacement :
    World → Session → ℕ → PeerParameters → Envelope → Session × List Action
offer_replacement w s link params env =
    let c = current_candidate w.now s.candidate in
    offer_or_take_over w (record s { candidate = c }) link params env c

-- `receiveHello` from `changed := sender != s.peer` on
unfoldable pub accept_hello :
    World → Session → ℕ → PeerParameters → Envelope → HelloTail → Session × List Action
accept_hello w s link params env t =
    let echo = same_bytes env.peer_challenge s.own in
    let changed = not (same_bytes env.local_challenge s.peer) in
    let s' : Session = hear (some w.now) link (record s {
      peer = env.local_challenge;
      remote = if echo then negotiated params s.params else s.remote;
      ready = if echo then true else s.ready;
    }) in
    (
      s',
      if changed || ((not s.ready && echo) || (s.ready && t.ready_flag == 0))
          then hello_each s' s.order
          else [],
    )

unfoldable pub same_parameters : PeerParameters → PeerParameters → Bool
same_parameters a b = a.capabilities == b.capabilities && a.max_packet_size == b.max_packet_size

unfoldable pub tail_parameters : HelloTail → PeerParameters
tail_parameters t = record { capabilities = t.capabilities; max_packet_size = t.max_packet_size }

-- The test of the challenge that the hello echoes.
unfoldable pub echoing_hello :
    World → Session → ℕ → PeerParameters → Envelope → HelloTail → Session × List Action
echoing_hello w s link params env t =
    if not (same_bytes env.peer_challenge s.own)
      && not (same_bytes env.peer_challenge zero_challenge)
    then (s, [])
    else accept_hello w s link params env t

-- The test of the parameters that were agreed on before.
unfoldable pub unchanged_hello :
    World → Session → ℕ → PeerParameters → Envelope → HelloTail → Session × List Action
unchanged_hello w s link params env t =
    if s.ready && not (same_parameters (negotiated params s.params) s.remote)
    then (s, [])
    else echoing_hello w s link params env t

-- The cases of `receiveHello` of a hello with valid parameters.
unfoldable pub valid_hello :
    World → Session → ℕ → PeerParameters → Envelope → HelloTail → Session × List Action
valid_hello w s link params env t =
    if s.ready && not (same_bytes env.local_challenge s.peer)
    then offer_replacement w s link params env
    else unchanged_hello w s link params env t

unfoldable pub receive_hello_tail :
    World → Session → ℕ → Envelope → Option HelloTail → Session × List Action
receive_hello_tail w s link env none = (s, [])
receive_hello_tail w s link env (some t) =
    if not (t.reserved == 0) || ltb 1 t.ready_flag
    then (s, [])
    else if same_bytes env.local_challenge zero_challenge
    then (s, [])
    else if not (valid_parameters (tail_parameters t))
    then (s, [])
    else valid_hello w s link (tail_parameters t) env t

-- `receiveHello`
unfoldable pub receive_hello : World → Session → ℕ → Envelope → Session × List Action
receive_hello w s link env =
    if s.stopped then (s, []) else receive_hello_tail w s link env env.hello
