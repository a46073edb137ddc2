-- ===== src/Demux/Ports.antt =====
-- Which packets go to the side stack (transport/portdemux.go).
use openflux_zen_server.Prelude.{ℕ, ◌≡◌, ◌&&◌, List, none, some, arith, leb, ◌==◌, if◌then◌else◌}
use openflux_zen_server.L3.Packet.{FlowKey, slice_ipv4, extract_flow_key}
use openflux_zen_server.L3.Packet.Keys.{sliced_key, HasKey, HasKey-Parts, HasKey-first}
use openflux_zen_server.Demux.{tcp_destination_port, PortDemux, consumer_of, dispatch_port}

tcp_destination_port_keyed :
    (p : List ℕ) (k : FlowKey)
    → HasKey p k
    → tcp_destination_port p ≡ (if k.proto == 6 then some k.dst_port else none)
unfolding tcp_destination_port
tcp_destination_port_keyed p k v =
    let parts = HasKey-Parts p k v in
    let first = HasKey-first p k v in
    let version = v.sliced.version in
    let least = v.sliced.header_min in
    let inside = v.ports_inside in ground (arith, parts.proto, parts.dst_port)

-- Of the packets whose flow the exit can read, the side stack gets those of TCP to a port of its
-- range, and the main consumer all others.
pub dispatch_port_lem :
    (d : PortDemux) (raw p : List ℕ) (k : FlowKey)
    → slice_ipv4 raw ≡ some p
    → extract_flow_key p ≡ some k
    → dispatch_port d p ≡ (
        if k.proto == 6 && (leb d.lo k.dst_port && leb k.dst_port d.hi)
        then d.side_callback
        else d.main_callback)
unfolding dispatch_port consumer_of
dispatch_port_lem d raw p k s e =
    rw (tcp_destination_port_keyed p k (sliced_key raw p k s e)) (ground arith)
