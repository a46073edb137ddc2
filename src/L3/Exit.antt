-- ===== src/L3/Exit.antt =====
-- tunnel/l3/l3.go and the sending half of icmp.go: the exit that joins the parts. A handler takes the
-- state and what the world answers during its call, and gives the state and the packets that it
-- handed to the network and to the client. Logging is left out.
pub mod Inbound
pub mod Accounts
pub mod Isolation
pub mod Preservation
pub mod Lifetime
use openflux_zen_server.Prelude.{
  ℕ, zero, suc, ◌-◌, ◌+◌, ◌*◌, ◌/◌, ◌%◌, ◌^◌, Bool, true, false, not, ◌&&◌, ◌||◌, List, [], ◌∷◌,
  ◌++◌, Option, none, some, ltb, leb, ◌==◌, if◌then◌else◌, length, drop, byte_at, be16, be32,
  is_some,
}
use openflux_zen_server.L3.Packet.{
  slice_ipv4, is_fragmented_ipv4, FlowKey, extract_flow_key, reverse_key, ip_u32, rewrite_snat,
  rewrite_dnat, is_tcp_closing, fix_checksums, valid_udp_checksums,
}
use openflux_zen_server.L3.Checksum.{header_length}
use openflux_zen_server.L3.Conntrack.{Conntrack, insert_flow, touch, exists_flow, flow_key_eq}
use openflux_zen_server.L3.UdpNat.{
  UdpNat, UdpMapping, SendError, net_closed, mapping_limit, reserve_failed, network_failed, too_big,
  Sent, send, find, expired, translate_reply,
}
use openflux_zen_server.L3.Reassembly.{Reassembler, add}
use openflux_zen_server.L3.Icmp.{
  fragment_ipv4, make_too_big, bad_icmp, is_icmp_error, bad_quote, quoted_key, rewrite_icmp,
}

abbrev pub client_ip_bytes : List ℕ
client_ip_bytes = 10 ∷ 10 ∷ 10 ∷ 2 ∷ []

abbrev pub client_ip : ℕ
client_ip = ip_u32 client_ip_bytes

-- The counters of `L3Exit`, each a uint64.
pub record Counters : Type 0 where
  pub pkt_from_transport : ℕ
  pub pkt_to_network : ℕ
  pub pkt_from_network : ℕ
  pub pkt_to_transport : ℕ
  pub drop_bad_ipv4 : ℕ
  pub drop_fragmented : ℕ
  pub drop_no_flow_key : ℕ
  pub drop_no_conntrack : ℕ
  pub drop_not_for_us : ℕ
  pub send_to_net_errors : ℕ
  pub send_to_client_errs : ℕ

-- `L3Exit`; `fragment_id` is the package's `fragmentID`.
pub record Exit : Type 0 where
  pub egress : List ℕ
  pub ct : Conntrack
  pub udp : UdpNat
  pub from_client : Reassembler
  pub from_network : Reassembler
  pub fragment_id : ℕ
  pub counters : Counters

-- What the world answers during one call: the backend and the client's transport for each packet,
-- the peer's packet limit if it is ready, the clock, and the port that the host reserves.
pub record World : Type 0 where
  pub backend : List ℕ → Option SendError
  pub accepts : List ℕ → Bool
  pub limit : Option ℕ
  pub now : ℕ
  pub later : ℕ
  pub reserved : Option ℕ

-- The state after a call, and what it handed on.
pub record Outcome : Type 0 where
  pub exit : Exit
  pub to_network : List (List ℕ)
  pub to_client : List (List ℕ)

-- `Add(1)` on an atomic.Uint64
abbrev pub bump : ℕ → ℕ
bump n = (n + 1) % 2 ^ 64

-- A packet that is counted at `c` and goes nowhere.
abbrev pub drop_with : Exit → Counters → Outcome
drop_with e c = record { exit = record e { counters = c }; to_network = []; to_client = [] }

abbrev pub drop_bad : Exit → Outcome
drop_bad e = drop_with e (record e.counters { drop_bad_ipv4 = bump e.counters.drop_bad_ipv4 })

abbrev pub drop_fragment : Exit → Outcome
drop_fragment e =
    drop_with e (record e.counters { drop_fragmented = bump e.counters.drop_fragmented })

abbrev pub drop_keyless : Exit → Outcome
drop_keyless e =
    drop_with e (record e.counters { drop_no_flow_key = bump e.counters.drop_no_flow_key })

abbrev pub drop_unknown : Exit → Outcome
drop_unknown e =
    drop_with e (record e.counters { drop_no_conntrack = bump e.counters.drop_no_conntrack })

abbrev pub drop_foreign : Exit → Outcome
drop_foreign e =
    drop_with e (record e.counters { drop_not_for_us = bump e.counters.drop_not_for_us })

-- The end of a delivery to the client: the counter for the answer.
abbrev pub count_client : Bool → Counters → Counters
count_client true c = record c { pkt_to_transport = bump c.pkt_to_transport }
count_client false c = record c { send_to_client_errs = bump c.send_to_client_errs }

-- The end of a delivery to the network.
abbrev pub count_network : Option SendError → Counters → Counters
count_network none c = record c { pkt_to_network = bump c.pkt_to_network }
count_network (some e) c = record c { send_to_net_errors = bump c.send_to_net_errors }

-- What a delivery answered, what it handed over, and the identification counter afterwards.
pub record NetSend : Type 0 where
  pub error : Option SendError
  pub handed : List (List ℕ)
  pub fragment_id : ℕ

-- The loop over the fragments: it ends at the first error.
pub send_each : (List ℕ → Option SendError) → List (List ℕ) → Option SendError × List (List ℕ)
send_each backend [] = (none, [])
send_each backend (f ∷ fs) =
    let (error, handed) = send_each backend fs in
    elim (backend f) [ some e ↦ (some e, f ∷ []) | none ↦ (error, f ∷ handed) ]

-- The second half of `sendNetwork`, after the backend has answered that the packet is too big.
pub send_fragments :
    (List ℕ → Option SendError) → ℕ → List ℕ → ℕ → Option (List (List ℕ) × ℕ) → NetSend
send_fragments backend id p mtu none = record {
  error = some (too_big mtu);
  handed = p ∷ [];
  fragment_id = id;
}
send_fragments backend id p mtu (some (fs, id')) =
    let (error, handed) = send_each backend fs in
    record { error = error; handed = p ∷ handed; fragment_id = id' }

pub after_backend : (List ℕ → Option SendError) → ℕ → List ℕ → Option SendError → NetSend
after_backend backend id p (some (too_big mtu)) =
    if be16 p 6 / 16384 % 2 == 0
    then send_fragments backend id p mtu (fragment_ipv4 p mtu id)
    else record { error = some (too_big mtu); handed = p ∷ []; fragment_id = id }
after_backend backend id p answer = record { error = answer; handed = p ∷ []; fragment_id = id }

-- `sendNetwork`
pub send_network : (List ℕ → Option SendError) → ℕ → List ℕ → NetSend
send_network backend id p = after_backend backend id p (backend p)

-- `reportSendError`: the counters, and the ICMP error if one goes to the client.
pub send_report : World → Counters → Option (List ℕ) → Counters × List (List ℕ)
send_report w c none = (c, [])
send_report w c (some p) = (count_client (w.accepts p) c, p ∷ [])

pub report_send_error : World → List ℕ → Counters → List ℕ → SendError → Counters × List (List ℕ)
report_send_error w egress c original (too_big mtu) =
    send_report w c (make_too_big original egress mtu)
report_send_error w egress c original e = (c, [])

pub report_if_failed :
    World → List ℕ → Counters → List ℕ → Option SendError → Counters × List (List ℕ)
report_if_failed w egress c original none = (c, [])
report_if_failed w egress c original (some e) = report_send_error w egress c original e

-- The end of `handleFromTransport`: report an error to the client, and count.
pub conclude : World → Exit → List ℕ → Option SendError → List (List ℕ) → Outcome
conclude w e original error handed =
    let (counters, reported) = report_if_failed w e.egress e.counters original error in
    record {
      exit = record e { counters = count_network error counters };
      to_network = handed;
      to_client = reported;
    }

-- What `send` handed to the network, as `sendNetwork` hands it on.
pub handed_on : (List ℕ → Option SendError) → ℕ → Option (List ℕ) → NetSend
handed_on backend id none = record { error = none; handed = []; fragment_id = id }
handed_on backend id (some p) = send_network backend id p

-- The UDP case.
pub forward_udp : World → Exit → List ℕ → FlowKey → Outcome
forward_udp w e p k =
    let sent =
      send e.udp p k w.now w.reserved (λ q. (send_network w.backend e.fragment_id q).error)
        w.later in
    let net = handed_on w.backend e.fragment_id sent.handed in
    conclude w (record e { udp = sent.nat; fragment_id = net.fragment_id }) p sent.error net.handed

-- The TCP case.
pub forward_tcp : World → Exit → List ℕ → FlowKey → Outcome
forward_tcp w e p k =
    let moved = fix_checksums (rewrite_snat p e.egress) in
    let wire : FlowKey = record k { src_ip = ip_u32 e.egress } in
    let (ct, inserted) = insert_flow e.ct wire w.now in
    let ct' = if is_tcp_closing moved then touch ct wire true w.now else ct in
    let net = send_network w.backend e.fragment_id moved in
    if inserted
    then conclude w (record e { ct = ct'; fragment_id = net.fragment_id }) p net.error net.handed
    else drop_unknown (record e { ct = ct })

pub from_client_keyed : World → Exit → List ℕ → Option FlowKey → Outcome
unfolding forward_udp forward_tcp
from_client_keyed w e p none = drop_keyless e
from_client_keyed w e p (some k) =
    if not (k.src_ip == client_ip)
    then drop_foreign e
    else if k.proto == 17
    then if valid_udp_checksums p then forward_udp w e p k else drop_bad e
    else forward_tcp w e p k

-- With the reassembler's answer.
pub from_client_whole : World → Exit → Option (List ℕ) → Outcome
unfolding from_client_keyed
from_client_whole w e none = drop_fragment e
from_client_whole w e (some p) = from_client_keyed w e p (extract_flow_key p)

pub from_client_sliced : World → Exit → Option (List ℕ) → Outcome
unfolding from_client_whole
from_client_sliced w e none = drop_bad e
from_client_sliced w e (some p) =
    let (fragments, whole) = add e.from_client p w.now in
    if is_fragmented_ipv4 p
    then if be32 p 12 == client_ip
      then from_client_whole w (record e { from_client = fragments }) whole
      else drop_foreign e
    else from_client_whole w e (some p)

-- `handleFromTransport`
pub handle_from_transport : World → Exit → List ℕ → Outcome
handle_from_transport w e pkt =
    let counted = record e.counters { pkt_from_transport = bump e.counters.pkt_from_transport } in
    from_client_sliced w (record e { counters = counted }) (slice_ipv4 pkt)
