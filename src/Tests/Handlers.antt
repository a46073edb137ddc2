-- ===== src/Tests/Handlers.antt =====
-- Runs over the NAT of UDP flows and the handlers of the exit.
use openflux_zen_server.Prelude.{ℕ, ◌+◌, ◌%◌, ◌^◌, ◌≡◌, ◌≢◌, refl, none, some, arith}
use openflux_zen_server.Prelude.Maps.{lookup, nat_eq}
use openflux_zen_server.L3.Packet.{
  FlowKey, slice_ipv4, is_fragmented_ipv4, transport_fits, flow_key_at, extract_flow_key,
}
use openflux_zen_server.L3.Conntrack.{flow_key_eq}
use openflux_zen_server.L3.UdpNat
use openflux_zen_server.L3.UdpNat.{
  UdpNat, UdpMapping, SendError, Sent, new_udp_nat, find, swept, create, settle, transmit,
  send_reserved, send_new, send_found, send,
}
use openflux_zen_server.L3.UdpNat.Consistency.{Inv, new_udp_nat-Inv}
use openflux_zen_server.L3.UdpNat.Flows.{IsFree, at_reserve, send-Inv}
use openflux_zen_server.L3.UdpNat.Shutdown.{close_ends}
use openflux_zen_server.L3.Exit.{bump, handle_from_transport}
use openflux_zen_server.L3.Exit.Inbound.{handle_from_internet, inbound_whole}
use openflux_zen_server.L3.Exit.Accounts.{
  outbound_fates, inbound_fates, handle_from_transport_counted, handle_from_internet_counted,
}
use openflux_zen_server.L3.Exit.Isolation.{
  Ignored, Silent, live, solicited, admits, handle_from_transport_foreign,
  inbound_whole_unsolicited,
}
use openflux_zen_server.L3.Exit.Preservation.{IsSound}
use openflux_zen_server.L3.Exit.Lifetime.{
  new_exit, sweep_ports, client_sends, network_sends, port_tick, here, next, Reach-IsSound,
}
use openflux_zen_server.Tests.Samples.{
  dns_flow, dns_query, foreign_query, stray, host, no_error, calm,
}

-- A new NAT holds no port.
new_IsFree :
    (k : FlowKey) (port : ℕ)
    → some 40000 ≡ some port
    → IsFree
        (at_reserve
          (new_udp_nat host)
          1000
          (find (new_udp_nat host).forward k (new_udp_nat host).mappings))
        port
unfolding new_udp_nat find swept lookup
new_IsFree k port e j p m a b = cc

Reach-IsSound_example :
    IsSound
      (handle_from_internet calm
        (sweep_ports (handle_from_transport calm (new_exit host 0) dns_query).exit 9)
        stray).exit
unfolding new_exit
Reach-IsSound_example = Reach-IsSound host 0 _ (
    next
      (next (next here (client_sends calm dns_query (λ k port f. new_IsFree k port))) (port_tick 9))
      (network_sends calm stray))

inbound_whole_unsolicited_example : Silent (inbound_whole calm (new_exit host 0) (some stray))
unfolding admits solicited live extract_flow_key slice_ipv4 is_fragmented_ipv4 transport_fits
    flow_key_at new_exit new_udp_nat find lookup
inbound_whole_unsolicited_example = inbound_whole_unsolicited calm (new_exit host 0) stray refl

handle_from_transport_foreign_example :
    Ignored (new_exit host 0) (handle_from_transport calm (new_exit host 0) foreign_query)
unfolding slice_ipv4
handle_from_transport_foreign_example =
    handle_from_transport_foreign calm (new_exit host 0) foreign_query foreign_query refl
      (λ e. absurd (omega arith))

handle_from_transport_counted_example :
    let after = (handle_from_transport calm (new_exit host 0) dns_query).exit.counters in
    (after.pkt_from_transport ≡ bump (new_exit host 0).counters.pkt_from_transport)
    × (outbound_fates after % 2 ^ 64 ≡ (outbound_fates (new_exit host 0).counters + 1) % 2 ^ 64)
handle_from_transport_counted_example =
    handle_from_transport_counted calm (new_exit host 0) dns_query

handle_from_internet_counted_example :
    let after = (handle_from_internet calm (new_exit host 0) stray).exit.counters in
    (after.pkt_from_network ≡ bump (new_exit host 0).counters.pkt_from_network)
    × (inbound_fates after % 2 ^ 64 ≡ (inbound_fates (new_exit host 0).counters + 1) % 2 ^ 64)
handle_from_internet_counted_example = handle_from_internet_counted calm (new_exit host 0) stray

-- The NAT after the query went out.
abbrev queried : Sent
queried = send (new_udp_nat host) dns_query dns_flow 1000 (some 40000) no_error 1001

abbrev wire_flow : FlowKey
wire_flow = record {
  src_ip = 3221225985;
  dst_ip = 134744072;
  src_port = 40000;
  dst_port = 53;
  proto = 17;
}

abbrev query_mapping : UdpMapping
query_mapping = record { client = dns_flow; wire = wire_flow; last_seen = 1001 }

queried-Inv : Inv queried.nat
queried-Inv =
    send-Inv (new_udp_nat host) dns_query dns_flow 1000 (some 40000) no_error 1001
      (new_udp_nat-Inv host) (new_IsFree dns_flow)

close_ends_example :
    (lookup dns_flow (UdpNat.close queried.nat).forward ≡ none)
    × (lookup dns_flow (UdpNat.close queried.nat).reverse ≡ none)
    × (lookup 0 (UdpNat.close queried.nat).sockets ≢ some tt)
unfolding send send_found send_new swept send_reserved create transmit settle new_udp_nat find
    lookup
close_ends_example = close_ends queried.nat dns_flow 0 queried-Inv refl
