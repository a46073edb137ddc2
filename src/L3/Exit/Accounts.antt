-- ===== src/L3/Exit/Accounts.antt =====
-- The exit's counters (tunnel/l3/l3.go): what happens to a packet is counted once.
use openflux_zen_server.Prelude.{
  ℕ, ◌+◌, ◌%◌, ◌^◌, ◌≡◌, refl, Bool, true, false, not, List, Option, none, some, arith, ◌==◌,
  if◌then◌else◌, byte_at, be32,
}
use openflux_zen_server.L3.Packet.{
  slice_ipv4, is_fragmented_ipv4, FlowKey, extract_flow_key, reverse_key, is_tcp_closing,
  valid_udp_checksums,
}
use openflux_zen_server.L3.Conntrack.{touch, exists_flow}
use openflux_zen_server.L3.UdpNat.{
  SendError, net_closed, mapping_limit, reserve_failed, network_failed, too_big, translate_reply,
}
use openflux_zen_server.L3.Reassembly.{add}
use openflux_zen_server.L3.Icmp.{make_too_big}
use openflux_zen_server.L3.Exit.{
  client_ip, Counters, Exit, World, Outcome, bump, drop_bad, drop_unknown, drop_foreign,
  count_client, send_report, report_send_error, report_if_failed, conclude, forward_udp,
  forward_tcp, from_client_keyed, from_client_whole, from_client_sliced, handle_from_transport,
}
use openflux_zen_server.L3.Exit.Inbound.{
  translate_icmp, send_client, to_client_counted, inbound_icmp, inbound_udp, inbound_tcp,
  inbound_keyed, inbound_whole, is_for_us, inbound_sliced, handle_from_internet,
}

-- The packets that were dropped, for any reason.
abbrev pub dropped : Counters → ℕ
dropped c =
    c.drop_bad_ipv4 + c.drop_fragmented + c.drop_no_flow_key + c.drop_no_conntrack
    + c.drop_not_for_us

-- The fates of packets from the client: dropped, sent, or failed at the backend.
abbrev pub outbound_fates : Counters → ℕ
outbound_fates c = dropped c + c.pkt_to_network + c.send_to_net_errors

-- The fates of packets from the network: dropped, delivered, or failed at the transport.
abbrev pub inbound_fates : Counters → ℕ
inbound_fates c = dropped c + c.pkt_to_transport + c.send_to_client_errs

-- One more packet is counted among the fates, modulo the counters' width, and none as come in.
abbrev pub OneOutbound : Counters → Counters → Type 0
OneOutbound c d =
    (outbound_fates d % 2 ^ 64 ≡ (outbound_fates c + 1) % 2 ^ 64)
    × (d.pkt_from_transport ≡ c.pkt_from_transport)

abbrev pub OneInbound : Counters → Counters → Type 0
OneInbound c d =
    (inbound_fates d % 2 ^ 64 ≡ (inbound_fates c + 1) % 2 ^ 64)
    × (d.pkt_from_network ≡ c.pkt_from_network)

by_if :
    (P : Counters → Type 0) (b : Bool) (x y : Outcome)
    → P x.exit.counters
    → P y.exit.counters
    → P (if b then x else y).exit.counters
by_if P true x y hx hy = hx
by_if P false x y hx hy = hy

-- Reporting an error to the client leaves the fates of outbound packets alone.
abbrev Reported : Counters → Counters → Type 0
Reported c d =
    (dropped d ≡ dropped c)
    × (d.pkt_to_network ≡ c.pkt_to_network)
    × (d.send_to_net_errors ≡ c.send_to_net_errors)
    × (d.pkt_from_transport ≡ c.pkt_from_transport)

count_client-Reported : (b : Bool) (c : Counters) → Reported c (count_client b c)
count_client-Reported true c = (refl, refl, refl, refl)
count_client-Reported false c = (refl, refl, refl, refl)

send_report-Reported :
    (w : World) (c : Counters) (p : Option (List ℕ)) → Reported c (send_report w c p).0
unfolding send_report
send_report-Reported w c none = (refl, refl, refl, refl)
send_report-Reported w c (some p) = count_client-Reported (w.accepts p) c

report_if_failed-Reported :
    (w : World) (egress : List ℕ) (c : Counters) (p : List ℕ) (e : Option SendError)
    → Reported c (report_if_failed w egress c p e).0
unfolding report_if_failed report_send_error
report_if_failed-Reported w egress c p none = (refl, refl, refl, refl)
report_if_failed-Reported w egress c p (some net_closed) = (refl, refl, refl, refl)
report_if_failed-Reported w egress c p (some mapping_limit) = (refl, refl, refl, refl)
report_if_failed-Reported w egress c p (some reserve_failed) = (refl, refl, refl, refl)
report_if_failed-Reported w egress c p (some network_failed) = (refl, refl, refl, refl)
report_if_failed-Reported w egress c p (some (too_big mtu)) =
    send_report-Reported w c (make_too_big p egress mtu)

conclude-OneOutbound :
    (w : World) (e : Exit) (p : List ℕ) (error : Option SendError) (handed : List (List ℕ))
    → OneOutbound e.counters (conclude w e p error handed).exit.counters
unfolding conclude
conclude-OneOutbound w e p none handed =
    let h = report_if_failed-Reported w e.egress e.counters p none in
    (omega (arith, h.0, h.1, h.2), h.3)
conclude-OneOutbound w e p (some x) handed =
    let h = report_if_failed-Reported w e.egress e.counters p (some x) in
    (omega (arith, h.0, h.1, h.2), h.3)

forward_tcp-OneOutbound :
    (w : World) (e : Exit) (p : List ℕ) (k : FlowKey)
    → OneOutbound e.counters (forward_tcp w e p k).exit.counters
unfolding forward_tcp
forward_tcp-OneOutbound w e p k =
    by_if (OneOutbound e.counters) _ _ _ (conclude-OneOutbound w _ p _ _) (omega arith, refl)

from_client_keyed-OneOutbound :
    (w : World) (e : Exit) (p : List ℕ) (k : Option FlowKey)
    → OneOutbound e.counters (from_client_keyed w e p k).exit.counters
unfolding from_client_keyed forward_udp
from_client_keyed-OneOutbound w e p none = (omega arith, refl)
from_client_keyed-OneOutbound w e p (some k) =
    let bad : OneOutbound e.counters (drop_bad e).exit.counters = (omega arith, refl) in
    let udp =
      by_if (OneOutbound e.counters) (valid_udp_checksums p) _ _ (conclude-OneOutbound w _ p _ _)
        bad in
    let known =
      by_if (OneOutbound e.counters) (k.proto == 17) _ _ udp (forward_tcp-OneOutbound w e p k) in
    by_if (OneOutbound e.counters) (not (k.src_ip == client_ip)) (drop_foreign e) _
      (omega arith, refl) known

from_client_whole-OneOutbound :
    (w : World) (e : Exit) (p : Option (List ℕ))
    → OneOutbound e.counters (from_client_whole w e p).exit.counters
unfolding from_client_whole
from_client_whole-OneOutbound w e none = (omega arith, refl)
from_client_whole-OneOutbound w e (some p) =
    from_client_keyed-OneOutbound w e p (extract_flow_key p)

from_client_sliced-OneOutbound :
    (w : World) (e : Exit) (p : Option (List ℕ))
    → OneOutbound e.counters (from_client_sliced w e p).exit.counters
unfolding from_client_sliced
from_client_sliced-OneOutbound w e none = (omega arith, refl)
from_client_sliced-OneOutbound w e (some p) =
    let ready : Exit = record e { from_client = (add e.from_client p w.now).0 } in
    let fragment =
      by_if (OneOutbound e.counters) (be32 p 12 == client_ip) _ (drop_foreign e)
        (from_client_whole-OneOutbound w ready (add e.from_client p w.now).1) (omega arith, refl) in
    by_if (OneOutbound e.counters) (is_fragmented_ipv4 p) _ _ fragment
      (from_client_whole-OneOutbound w e (some p))

-- Each packet from the client is counted once as come in, and raises the sum of the counters of
-- outbound fates (the drops, sent and failed) by exactly one, modulo 2^64.
pub handle_from_transport_counted :
    (w : World) (e : Exit) (pkt : List ℕ)
    → let after = (handle_from_transport w e pkt).exit.counters in
      (after.pkt_from_transport ≡ bump e.counters.pkt_from_transport)
      × (outbound_fates after % 2 ^ 64 ≡ (outbound_fates e.counters + 1) % 2 ^ 64)
unfolding handle_from_transport
handle_from_transport_counted w e pkt =
    let h = from_client_sliced-OneOutbound w _ (slice_ipv4 pkt) in (h.1, h.0)

count_client-OneInbound : (b : Bool) (c : Counters) → OneInbound c (count_client b c)
count_client-OneInbound true c = (omega arith, refl)
count_client-OneInbound false c = (omega arith, refl)

to_client_counted-OneInbound :
    (w : World) (e : Exit) (p wire : List ℕ)
    → OneInbound e.counters (to_client_counted w e p wire).exit.counters
unfolding to_client_counted
to_client_counted-OneInbound w e p wire =
    count_client-OneInbound (send_client w e.egress e.fragment_id p wire).ok e.counters

inbound_udp-OneInbound :
    (w : World) (e : Exit) (wire : List ℕ) (reply : Option (List ℕ))
    → OneInbound e.counters (inbound_udp w e wire reply).exit.counters
unfolding inbound_udp
inbound_udp-OneInbound w e wire none = (omega arith, refl)
inbound_udp-OneInbound w e wire (some p) = to_client_counted-OneInbound w e p wire

inbound_keyed-OneInbound :
    (w : World) (e : Exit) (p : List ℕ) (k : Option FlowKey)
    → OneInbound e.counters (inbound_keyed w e p k).exit.counters
unfolding inbound_keyed inbound_tcp
inbound_keyed-OneInbound w e p none = (omega arith, refl)
inbound_keyed-OneInbound w e p (some k) =
    let (udp, reply) = translate_reply e.udp p k w.now in
    let tcp =
      by_if (OneInbound e.counters) (exists_flow e.ct (reverse_key k) w.now) _ (drop_unknown e)
        (to_client_counted-OneInbound w
          (record e { ct = touch e.ct (reverse_key k) (is_tcp_closing p) w.now }) _ p)
        (omega arith, refl) in
    by_if (OneInbound e.counters) (k.proto == 17) _ _
      (inbound_udp-OneInbound w (record e { udp = udp }) p reply) tcp

inbound_icmp-OneInbound :
    (w : World) (e : Exit) (p : Option (List ℕ))
    → OneInbound e.counters (inbound_icmp w e p).exit.counters
unfolding inbound_icmp
inbound_icmp-OneInbound w e none = (omega arith, refl)
inbound_icmp-OneInbound w e (some p) = count_client-OneInbound (w.accepts p) e.counters

inbound_whole-OneInbound :
    (w : World) (e : Exit) (p : Option (List ℕ))
    → OneInbound e.counters (inbound_whole w e p).exit.counters
unfolding inbound_whole
inbound_whole-OneInbound w e none = (omega arith, refl)
inbound_whole-OneInbound w e (some p) =
    by_if (OneInbound e.counters) (byte_at p 9 == 1) _ _
      (inbound_icmp-OneInbound w e (translate_icmp e p w.now))
      (inbound_keyed-OneInbound w e p (extract_flow_key p))

inbound_sliced-OneInbound :
    (w : World) (e : Exit) (p : Option (List ℕ))
    → OneInbound e.counters (inbound_sliced w e p).exit.counters
unfolding inbound_sliced
inbound_sliced-OneInbound w e none = (omega arith, refl)
inbound_sliced-OneInbound w e (some p) =
    let (fragments, whole) = add e.from_network p w.now in
    let ours =
      by_if (OneInbound e.counters) (is_fragmented_ipv4 p) _ _
        (inbound_whole-OneInbound w (record e { from_network = fragments }) whole)
        (inbound_whole-OneInbound w e (some p)) in
    by_if (OneInbound e.counters) (is_for_us e.egress p) _ (drop_foreign e) ours (omega arith, refl)

-- Each packet from the network is counted once as come in, and raises the sum of the counters of
-- inbound fates (the drops, delivered and failed) by exactly one, modulo 2^64.
pub handle_from_internet_counted :
    (w : World) (e : Exit) (pkt : List ℕ)
    → let after = (handle_from_internet w e pkt).exit.counters in
      (after.pkt_from_network ≡ bump e.counters.pkt_from_network)
      × (inbound_fates after % 2 ^ 64 ≡ (inbound_fates e.counters + 1) % 2 ^ 64)
unfolding handle_from_internet
handle_from_internet_counted w e pkt =
    let h = inbound_sliced-OneInbound w _ (slice_ipv4 pkt) in (h.1, h.0)
