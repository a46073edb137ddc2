-- ===== src/L3/Exit/Inbound.antt =====
-- tunnel/l3/l3.go, `handleFromInternet`, and icmp.go, `translateICMP` and `sendClient`: from the
-- network to the client.
use openflux_zen_server.Prelude.{
  ℕ, ◌+◌, ◌/◌, ◌%◌, Bool, true, false, not, ◌&&◌, ◌||◌, List, [], ◌∷◌, Option, none, some, leb,
  ◌==◌, if◌then◌else◌, length, drop, byte_at,
}
use openflux_zen_server.L3.Packet.{
  slice_ipv4, is_fragmented_ipv4, FlowKey, extract_flow_key, reverse_key, ip_u32, rewrite_dnat,
  is_tcp_closing, fix_checksums,
}
use openflux_zen_server.L3.Checksum.{header_length}
use openflux_zen_server.L3.Conntrack.{touch, exists_flow}
use openflux_zen_server.L3.UdpNat.{UdpNat, UdpMapping, SendError, find, expired, translate_reply}
use openflux_zen_server.L3.Reassembly.{add}
use openflux_zen_server.L3.Icmp.{
  fragment_ipv4, make_too_big, bad_icmp, is_icmp_error, bad_quote, quoted_key, rewrite_icmp,
}
use openflux_zen_server.L3.Exit.{
  client_ip_bytes, client_ip, Exit, World, Outcome, bump, drop_bad, drop_fragment, drop_keyless,
  drop_unknown, drop_foreign, count_client,
}

-- The flow that the client knows for the quoted UDP flow, with the mapping found for it.
unfoldable pub original_found : UdpNat → ℕ → FlowKey → Option (ℕ × UdpMapping) → Option FlowKey
original_found n now k none = none
original_found n now k (some (p, m)) = if n.closed || expired m now then none else some m.client

-- The client's flow behind the quoted flow `k`, if the flow is live.
unfoldable pub original_flow : Exit → ℕ → FlowKey → Option FlowKey
unfolding original_found
original_flow e now k =
    if k.proto == 17
    then original_found e.udp now k (find e.udp.reverse (reverse_key k) e.udp.mappings)
    else if k.proto == 6 && exists_flow e.ct k now
    then some (record k { src_ip = client_ip })
    else none

unfoldable pub with_original : List ℕ → FlowKey → Option FlowKey → Option (List ℕ)
with_original p k none = none
with_original p k (some original) = some (rewrite_icmp p k original)

-- `translateICMP`: the packet for the client, or none where the source answers false.
unfoldable pub translate_icmp : Exit → List ℕ → ℕ → Option (List ℕ)
unfolding original_flow with_original
translate_icmp e p now =
    let ihl = header_length p in
    let quote = drop (ihl + 8) p in
    let k = quoted_key quote in
    if bad_icmp p
      || (not (is_icmp_error (byte_at p ihl) (byte_at p (ihl + 1)))
          || (bad_quote quote || not (k.src_ip == ip_u32 e.egress)))
    then none
    else with_original p k (original_flow e now k)

-- What `sendClient` answers, true for no error, and what it handed over.
pub record ClientSend : Type 0 where
  pub ok : Bool
  pub fed_back : List (List ℕ)
  pub delivered : List (List ℕ)
  pub fragment_id : ℕ

-- The loop over the fragments: it ends at the first error.
pub deliver_each : (List ℕ → Bool) → List (List ℕ) → Bool × List (List ℕ)
deliver_each accepts [] = (true, [])
deliver_each accepts (f ∷ fs) =
    let (ok, delivered) = deliver_each accepts fs in
    if accepts f then (ok, f ∷ delivered) else (false, f ∷ [])

pub answers_ok : Option SendError → Bool
answers_ok none = true
answers_ok (some e) = false

-- A packet over the peer's limit that must not be cut: the sender in the network is told.
pub feed_back : World → ℕ → Option (List ℕ) → ClientSend
unfolding answers_ok
feed_back w id none = record { ok = false; fed_back = []; delivered = []; fragment_id = id }
feed_back w id (some f) = record {
  ok = answers_ok (w.backend f);
  fed_back = f ∷ [];
  delivered = [];
  fragment_id = id;
}

pub deliver_fragments : World → ℕ → Option (List (List ℕ) × ℕ) → ClientSend
deliver_fragments w id none = record { ok = false; fed_back = []; delivered = []; fragment_id = id }
deliver_fragments w id (some (fs, id')) =
    let (ok, delivered) = deliver_each w.accepts fs in
    record { ok = ok; fed_back = []; delivered = delivered; fragment_id = id' }

pub deliver_whole : World → ℕ → List ℕ → ClientSend
deliver_whole w id p = record {
  ok = w.accepts p;
  fed_back = [];
  delivered = p ∷ [];
  fragment_id = id;
}

pub send_within : World → List ℕ → ℕ → List ℕ → List ℕ → Option ℕ → ClientSend
unfolding feed_back deliver_fragments deliver_whole
send_within w egress id p wire none = deliver_whole w id p
send_within w egress id p wire (some limit) =
    if leb (length p) limit
    then deliver_whole w id p
    else if byte_at p 6 / 64 % 2 == 0
    then deliver_fragments w id (fragment_ipv4 p limit id)
    else feed_back w id (make_too_big wire egress limit)

-- `sendClient`; `wire` is the packet before its translation.
pub send_client : World → List ℕ → ℕ → List ℕ → List ℕ → ClientSend
unfolding send_within
send_client w egress id p wire = send_within w egress id p wire w.limit

-- The end of `handleFromInternet`.
unfoldable pub to_client_counted : World → Exit → List ℕ → List ℕ → Outcome
unfolding send_client
to_client_counted w e p wire =
    let sent = send_client w e.egress e.fragment_id p wire in
    record {
      exit = record e {
        fragment_id = sent.fragment_id;
        counters = count_client sent.ok e.counters;
      };
      to_network = sent.fed_back;
      to_client = sent.delivered;
    }

-- The ICMP case, with the translated packet: it goes to the transport as it is.
unfoldable pub inbound_icmp : World → Exit → Option (List ℕ) → Outcome
inbound_icmp w e none = drop_unknown e
inbound_icmp w e (some p) = record {
  exit = record e { counters = count_client (w.accepts p) e.counters };
  to_network = [];
  to_client = p ∷ [];
}

-- The UDP case, with the answer of `translateReply`.
unfoldable pub inbound_udp : World → Exit → List ℕ → Option (List ℕ) → Outcome
unfolding to_client_counted
inbound_udp w e wire none = drop_unknown e
inbound_udp w e wire (some p) = to_client_counted w e p wire

-- The TCP case; `back` is the reversed flow.
unfoldable pub inbound_tcp : World → Exit → List ℕ → FlowKey → Outcome
unfolding to_client_counted
inbound_tcp w e p back =
    let touched = touch e.ct back (is_tcp_closing p) w.now in
    let translated = fix_checksums (rewrite_dnat p client_ip_bytes) in
    if exists_flow e.ct back w.now
    then to_client_counted w (record e { ct = touched }) translated p
    else drop_unknown e

unfoldable pub inbound_keyed : World → Exit → List ℕ → Option FlowKey → Outcome
unfolding inbound_udp inbound_tcp
inbound_keyed w e p none = drop_keyless e
inbound_keyed w e p (some k) =
    let (udp, reply) = translate_reply e.udp p k w.now in
    if k.proto == 17
    then inbound_udp w (record e { udp = udp }) p reply
    else inbound_tcp w e p (reverse_key k)

-- With the reassembler's answer.
unfoldable pub inbound_whole : World → Exit → Option (List ℕ) → Outcome
unfolding inbound_icmp inbound_keyed
inbound_whole w e none = drop_fragment e
inbound_whole w e (some p) =
    if byte_at p 9 == 1
    then inbound_icmp w e (translate_icmp e p w.now)
    else inbound_keyed w e p (extract_flow_key p)

-- The destination is the host's own address.
unfoldable pub is_for_us : List ℕ → List ℕ → Bool
is_for_us egress p =
    byte_at p 16 == byte_at egress 0
    && (byte_at p 17 == byte_at egress 1
        && (byte_at p 18 == byte_at egress 2 && byte_at p 19 == byte_at egress 3))

unfoldable pub inbound_sliced : World → Exit → Option (List ℕ) → Outcome
unfolding inbound_whole is_for_us
inbound_sliced w e none = drop_bad e
inbound_sliced w e (some p) =
    let (fragments, whole) = add e.from_network p w.now in
    if is_for_us e.egress p
    then if is_fragmented_ipv4 p
      then inbound_whole w (record e { from_network = fragments }) whole
      else inbound_whole w e (some p)
    else drop_foreign e

-- `handleFromInternet`
unfoldable pub handle_from_internet : World → Exit → List ℕ → Outcome
handle_from_internet w e pkt =
    let counted = record e.counters { pkt_from_network = bump e.counters.pkt_from_network } in
    inbound_sliced w (record e { counters = counted }) (slice_ipv4 pkt)
