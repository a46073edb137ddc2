-- ===== src/Tests/Sessions.antt =====
-- Runs over two Sessions: the handshake, data, and a peer that is replaced.
use openflux_zen_server.Prelude.{
  ℕ, ◌≡◌, refl, inl, Bool, true, false, List, [], ◌∷◌, ◌++◌, none, some, arith, ap, byte_at, length,
  replicate,
}
use openflux_zen_server.Control.{
  role_client, encoded, parsed, encode_envelope, decode_envelope, envelope_size, parse_tail,
}
use openflux_zen_server.Control.RoundTrip.{
  data_body, hello_body, envelope_of, wire, decode_envelope-encode_envelope,
}
use openflux_zen_server.Session.Admission.{valid_parameters, permitted_packet, permitted_protocol}
use openflux_zen_server.Session.Replay.{fresh, accept_sequence}
use openflux_zen_server.Session.Replay.Refinement.{fresh-Tracks, is_new}
use openflux_zen_server.Session.Endpoint.{
  Session, World, Link, CandidatePeer, Action, Outcome, role_locked, classic_off, zero_challenge,
  live_links_locked, heard_locked, connected_locked, within, hear,
}
use openflux_zen_server.Prelude.BitField.{test_bit}
use openflux_zen_server.Session.Links.{live_links, those}
use openflux_zen_server.Session.Endpoint.Classic.{
  classic_target_locked, classic_target_of, delivery,
}
use openflux_zen_server.Session.Endpoint.Hello.{
  current_candidate, take_over, offer_or_take_over, offer_replacement, valid_hello, tail_parameters,
  receive_hello_tail, receive_hello,
}
use openflux_zen_server.Session.Endpoint.Delivery.{
  Arrival, receive_each, new_payloads, receive_each-new_payloads, data_packet,
}
use openflux_zen_server.Session.Endpoint.Sending.{counted, send_delivered}
use openflux_zen_server.Session.Endpoint.Steps.{is_silent}
use openflux_zen_server.Session.Endpoint.Takeover.{
  IsTakeover, receive-IsTakeover, IsHandedOn, receive-IsHandedOn,
}
use openflux_zen_server.Session.Endpoint.Keepalive.{stop, keepalive_round}
use openflux_zen_server.Session.Endpoint.Lifecycle.{new_session, session_with}
use openflux_zen_server.Session.Endpoint.Soundness.{IsCoherent}
use openflux_zen_server.Session.Endpoint.Final.{stopped_stays}
use openflux_zen_server.Session.Endpoint.Lifetime.{Step, Reach, Reach-IsCoherent}
use openflux_zen_server.Session.Endpoint.Data.{
  send, receive, receive_parsed, receive_ipv4, receive_data, receive_permitted, receive_fresh,
  is_mismatch,
}
use openflux_zen_server.Session.Endpoint.Agreement.{Established, hello_wire, hellos}
use openflux_zen_server.Session.Endpoint.Handshake.{handshake_completes, b_met, a_ready, b_ready}
use openflux_zen_server.Tests.Samples.{dns_query}

decode_envelope-encode_envelope_example :
    (raw : List ℕ) × (encode_envelope
        (envelope_of role_client (replicate 32 7) (replicate 32 9) (data_body 5))
      ≡ encoded raw)
    × (length raw ≡ envelope_size)
    × (decode_envelope (raw ++ dns_query)
        ≡ parsed (envelope_of role_client (replicate 32 7) (replicate 32 9) (data_body 5)))
decode_envelope-encode_envelope_example =
    decode_envelope-encode_envelope role_client (replicate 32 7) (replicate 32 9) (data_body 5)
      dns_query (inl refl) refl refl (omega arith)

abbrev world : World
world = record {
  now = 100;
  is_connected = λ n. true;
  random = some (replicate 32 5);
  flow_hash = length;
}

abbrev link_of : ℕ → Link
link_of n = record {
  priority = 1;
  started = true;
  dead = false;
  last_heard = none;
  classic = false;
  classic_heard = none;
}

abbrev new_one : List ℕ → Bool → Session
new_one own exit = record {
  own = own;
  peer = zero_challenge;
  params = record { capabilities = 7; max_packet_size = 1400 };
  remote = record { capabilities = 0; max_packet_size = 0 };
  exit = exit;
  ready = false;
  started = false;
  stopped = false;
  sequence = 0;
  sequences = fresh;
  keepalive_interval = 10;
  link_timeout = 30;
  peer_keepalive = false;
  no_pong = false;
  candidate = none;
  candidate_last = none;
  links = link_of;
  order = 1 ∷ 2 ∷ [];
  data_callback = true;
  control_callback = false;
  classic = classic_off;
  classic_link = none;
  classic_seen = false;
}

abbrev client : Session
client = new_one (replicate 32 7) false

abbrev exit : Session
exit = new_one (replicate 32 9) true

handshake_completes_example :
    ((receive world exit 1 (hello_wire client)).1
      ≡ hellos (hello_wire (b_met client exit world world world 1 1 2)) (1 ∷ 2 ∷ []))
    × ((receive world client 1 (hello_wire (b_met client exit world world world 1 1 2))).1
        ≡ hellos (hello_wire (a_ready client exit world world world 1 1 2)) (1 ∷ 2 ∷ []))
    × Established
        (a_ready client exit world world world 1 1 2)
        (b_ready client exit world world world 1 1 2)
unfolding role_locked valid_parameters
handshake_completes_example = handshake_completes client exit world world world 1 1 2 (record {
  unready = (refl, refl);
  running = (refl, refl);
  roles = refl;
  alone = (refl, refl);
  lengths = (refl, refl);
  own_set = (refl, refl);
  valid = (refl, refl);
})

-- The two once they are ready for each other.
abbrev ready_client : Session
ready_client = record client {
  peer = replicate 32 9;
  remote = record { capabilities = 7; max_packet_size = 1400 };
  ready = true;
}

abbrev ready_exit : Session
ready_exit = record exit {
  peer = replicate 32 7;
  remote = record { capabilities = 7; max_packet_size = 1400 };
  ready = true;
}

both_ready : Established ready_client ready_exit
unfolding role_locked
both_ready = record {
  ready = (refl, refl);
  running = (refl, refl);
  roles = refl;
  knows = refl;
  known = refl;
  limits = refl;
  lengths = (refl, refl);
}

send_delivered_example :
    (link : ℕ) × (raw : List ℕ) × (send world ready_client dns_query
      ≡ (counted ready_client, Outcome.done (Action.transmits link raw ∷ [])))
    × ((w' : World) (link' : ℕ)
        → (receive w' ready_exit link' raw).1 ≡ Action.delivers dns_query ∷ [])
unfolding permitted_packet permitted_protocol test_bit live_links_locked live_links those
    heard_locked connected_locked within classic_target_locked classic_target_of fresh
send_delivered_example =
    send_delivered world ready_client ready_exit dns_query (2 ∷ []) 1 both_ready refl (inl refl)
      refl (omega arith) (omega arith) refl

abbrev arrivals : List Arrival
arrivals =
    record { world = world; link = 1; seq = 2; payload = dns_query }
    ∷ record { world = world; link = 2; seq = 2; payload = dns_query }
    ∷ record { world = world; link = 2; seq = 1; payload = dns_query }
    ∷ []

receive_each-new_payloads_example :
    receive_each ready_client ready_exit arrivals
    ≡ Action.delivers dns_query ∷ Action.delivers dns_query ∷ []
unfolding permitted_packet permitted_protocol test_bit new_payloads is_new
receive_each-new_payloads_example =
    receive_each-new_payloads ready_client ready_exit [] arrivals both_ready refl fresh-Tracks
      ((omega arith, refl), ((omega arith, refl), ((omega arith, refl), tt)))

-- An exit that offered a challenge to another client, and the hello of that client.
abbrev offering : Session
offering = record ready_exit {
  candidate = some (record { sender = replicate 32 3; own = replicate 32 5; expires = 200 });
}

abbrev answer : List ℕ
answer =
    wire role_client (replicate 32 3) (replicate 32 5) (
      hello_body
        (record { capabilities = 7; max_packet_size = 1400; ready_flag = 0; reserved = 0 }))

receive-IsTakeover_example :
    (c : CandidatePeer) × IsTakeover world offering answer (receive world offering 1 answer).0 c
unfolding receive receive_parsed receive_hello receive_hello_tail valid_hello offer_replacement
    offer_or_take_over current_candidate take_over hear role_locked decode_envelope parse_tail
    valid_parameters tail_parameters
receive-IsTakeover_example =
    receive-IsTakeover world offering 1 answer refl
      (λ h. absurd (omega (arith, ap (λ p. byte_at p 0) h)))

receive-IsHandedOn_example :
    IsHandedOn ready_exit []
      (data_packet ready_client 1 dns_query)
      (receive world ready_exit 1 (data_packet ready_client 1 dns_query))
unfolding receive receive_parsed receive_ipv4 receive_data receive_permitted receive_fresh
    is_mismatch decode_envelope parse_tail role_locked permitted_packet permitted_protocol test_bit
    accept_sequence fresh is_silent delivery hear
receive-IsHandedOn_example =
    receive-IsHandedOn world ready_exit [] 1 (data_packet ready_client 1 dns_query) fresh-Tracks
      refl

abbrev fresh_session : Session
fresh_session = record client {
  own = replicate 32 5;
  params = record { capabilities = 7; max_packet_size = 1400 };
  keepalive_interval = 10000000000;
  link_timeout = 30000000000;
  links = λ n. record (link_of n) { priority = 0; started = false };
  order = [];
  data_callback = false;
}

Reach-IsCoherent_example : IsCoherent (stop (receive world fresh_session 1 answer).0)
unfolding new_session session_with valid_parameters
Reach-IsCoherent_example =
    Reach-IsCoherent world (record { capabilities = 7; max_packet_size = 1400 }) false fresh_session
      (stop (receive world fresh_session 1 answer).0) refl
      (Reach.next (Reach.next Reach.here (Step.receives world 1 answer)) Step.stops)

-- A hello after Stop, and a keepalive round.
stopped_stays_example :
    let after = (keepalive_round world (receive world (stop fresh_session) 1 answer).0).0 in
    (after.stopped ≡ true) × (after.ready ≡ false)
unfolding new_session session_with valid_parameters stop
stopped_stays_example =
    stopped_stays world (record { capabilities = 7; max_packet_size = 1400 }) false fresh_session
      (stop fresh_session) (keepalive_round world (receive world (stop fresh_session) 1 answer).0).0
      refl (Reach.next Reach.here Step.stops) refl
      (Reach.next (Reach.next Reach.here (Step.receives world 1 answer)) (Step.keeps_alive world))
