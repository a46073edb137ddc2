-- ===== src/L3/Exit/Lifetime.antt =====
-- The life of an exit (tunnel/l3/l3.go): `New`, both handlers, the two sweepers in the background and
-- `Stop`, in any order. The locks of the parts make each of these steps on its tables.
use openflux_zen_server.Prelude.{ℕ, List}
use openflux_zen_server.L3.Conntrack.{new_conntrack, close, sweep}
use openflux_zen_server.L3.Conntrack.Laws
use openflux_zen_server.L3.UdpNat
use openflux_zen_server.L3.UdpNat.{UdpNat, new_udp_nat, expire}
use openflux_zen_server.L3.UdpNat.Consistency.{new_udp_nat-Inv}
use openflux_zen_server.L3.UdpNat.Calls.{expire-Inv}
use openflux_zen_server.L3.UdpNat.Shutdown.{close-Inv}
use openflux_zen_server.L3.Reassembly.{new_reassembler}
use openflux_zen_server.L3.Reassembly.Limits.{new_reassembler-Inv}
use openflux_zen_server.L3.Exit.{Counters, Exit, World, handle_from_transport}
use openflux_zen_server.L3.Exit.Inbound.{handle_from_internet}
use openflux_zen_server.L3.Exit.Preservation.{
  IsSound, HandsOutFree, flow_of, handle_from_transport-IsSound, handle_from_internet-IsSound,
}

pub no_counts : Counters
no_counts = record {
  pkt_from_transport = 0;
  pkt_to_network = 0;
  pkt_from_network = 0;
  pkt_to_transport = 0;
  drop_bad_ipv4 = 0;
  drop_fragmented = 0;
  drop_no_flow_key = 0;
  drop_no_conntrack = 0;
  drop_not_for_us = 0;
  send_to_net_errors = 0;
  send_to_client_errs = 0;
}

-- `New`, with the backend's address and the value of the package's identification counter.
unfoldable pub new_exit : List ℕ → ℕ → Exit
unfolding no_counts
new_exit egress fragment_id = record {
  egress = egress;
  ct = new_conntrack;
  udp = new_udp_nat egress;
  from_client = new_reassembler;
  from_network = new_reassembler;
  fragment_id = fragment_id;
  counters = no_counts;
}

-- `Stop`, up to the backend's own `Close`.
pub stop : Exit → Exit
stop e = record e { ct = close e.ct; udp = UdpNat.close e.udp }

-- The ticks of the two sweepers.
pub sweep_flows : Exit → ℕ → Exit
sweep_flows e now = record e { ct = sweep e.ct now }

pub sweep_ports : Exit → ℕ → Exit
sweep_ports e now = record e { udp = expire e.udp now }

pub data Step (e : Exit) : Exit → Type 0 where
  client_sends :
      (w : World) (pkt : List ℕ)
      → HandsOutFree w e.udp (flow_of w e pkt)
      → Step e (handle_from_transport w e pkt).exit
  network_sends : (w : World) (pkt : List ℕ) → Step e (handle_from_internet w e pkt).exit
  flow_tick : (now : ℕ) → Step e (sweep_flows e now)
  port_tick : (now : ℕ) → Step e (sweep_ports e now)
  stops : Step e (stop e)

pub data Reach (e : Exit) : Exit → Type 0 where
  here : Reach e e
  next : {m o : Exit} → Reach e m → Step m o → Reach e o

new_exit-IsSound : (egress : List ℕ) (id : ℕ) → IsSound (new_exit egress id)
unfolding new_exit
new_exit-IsSound egress id = record {
  tracked = Laws.new_conntrack-Inv;
  mapped = new_udp_nat-Inv egress;
  from_client = new_reassembler-Inv;
  from_network = new_reassembler-Inv;
}

Step-IsSound : {e o : Exit} → Step e o → IsSound e → IsSound o
unfolding sweep_flows sweep_ports stop
Step-IsSound {e} (client_sends w pkt free) v = handle_from_transport-IsSound w e pkt free v
Step-IsSound {e} (network_sends w pkt) v = handle_from_internet-IsSound w e pkt v
Step-IsSound {e} (flow_tick now) v = record {
  tracked = Laws.sweep-Inv e.ct now v.tracked;
  mapped = v.mapped;
  from_client = v.from_client;
  from_network = v.from_network;
}
Step-IsSound {e} (port_tick now) v = record {
  tracked = v.tracked;
  mapped = expire-Inv e.udp now v.mapped;
  from_client = v.from_client;
  from_network = v.from_network;
}
Step-IsSound {e} stops v = record {
  tracked = Laws.close-tracked e.ct v.tracked;
  mapped = close-Inv e.udp v.mapped;
  from_client = v.from_client;
  from_network = v.from_network;
}

Reach-IsSound_from : {e o : Exit} → Reach e o → IsSound e → IsSound o
Reach-IsSound_from here v = v
Reach-IsSound_from (next r s) v = Step-IsSound s (Reach-IsSound_from r v)

-- After any history of packets in both directions, sweeps and stops of a new exit, in which the host
-- hands out for a packet's flow only a port that no reserved socket holds when it is asked: the flow table has at most 65536 flows and none
-- twice; both maps of the NAT lead to the same mappings, at most 256, and its open sockets are those
-- of the mappings; and each reassembler is within its limits.
pub Reach-IsSound : (egress : List ℕ) (id : ℕ) (e : Exit) → Reach (new_exit egress id) e → IsSound e
Reach-IsSound egress id e r = Reach-IsSound_from r (new_exit-IsSound egress id)
