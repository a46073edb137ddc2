-- ===== src/L3/UdpNat/Replies.antt =====
-- Which replies come back, and any history of calls.
use openflux_zen_server.Prelude.{ℕ, ◌≡◌, false, List, Option, some}
use openflux_zen_server.Prelude.Maps.{nat_eq, lookup}
use openflux_zen_server.L3.Packet.{FlowKey}
use openflux_zen_server.L3.Conntrack.{flow_key_eq}
use openflux_zen_server.L3.UdpNat.{
  UdpMapping, UdpNat, new_udp_nat, expire, close, find, SendError, Sent, send, translate_reply,
  wire_packet,
}
use openflux_zen_server.L3.UdpNat.Consistency.{Inv, new_udp_nat-Inv}
use openflux_zen_server.L3.UdpNat.Calls.{expire-Inv}
use openflux_zen_server.L3.UdpNat.Shutdown.{close-Inv}
use openflux_zen_server.L3.UdpNat.Flows.{IsFree, at_reserve, send-Inv, translate_reply-Inv}

-- One call of the NAT by the exit or its sweeper.
pub data Step (n : UdpNat) : UdpNat → Type 0 where
  sends :
      (pkt : List ℕ) (key : FlowKey) (now : ℕ) (reserved : Option ℕ)
      (network : List ℕ → Option SendError) (later : ℕ)
      → ((port : ℕ)
          → reserved ≡ some port
          → IsFree (at_reserve n now (find n.forward key n.mappings)) port)
      → Step n (send n pkt key now reserved network later).nat
  replies : (pkt : List ℕ) (key : FlowKey) (now : ℕ) → Step n (translate_reply n pkt key now).0
  sweeps : (now : ℕ) → Step n (expire n now)
  closes : Step n (close n)

pub data Reach (n : UdpNat) : UdpNat → Type 0 where
  here : Reach n n
  next : {m o : UdpNat} → Reach n m → Step m o → Reach n o

Step-Inv : {n o : UdpNat} → Step n o → Inv n → Inv o
Step-Inv {n} (sends pkt key now reserved network later free) v =
    send-Inv n pkt key now reserved network later v free
Step-Inv {n} (replies pkt key now) v = translate_reply-Inv n pkt key now v
Step-Inv {n} (sweeps now) v = expire-Inv n now v
Step-Inv {n} closes v = close-Inv n v

Reach-Inv_from : {n o : UdpNat} → Reach n o → Inv n → Inv o
Reach-Inv_from here v = v
Reach-Inv_from (next r s) v = Step-Inv s (Reach-Inv_from r v)

-- After any history of sends, replies, sweeps and closings, in which the host hands out only ports
-- that no reserved socket holds, both maps lead to the same mappings, every open socket belongs to a
-- mapping, and there are at most 256 of them.
pub Reach-Inv : (egress : List ℕ) (n : UdpNat) → Reach (new_udp_nat egress) n → Inv n
Reach-Inv egress n r = Reach-Inv_from r (new_udp_nat-Inv egress)

-- What a send that succeeded leaves: the mapping of its flow, stamped, and the packet handed over.
record Delivered (s : Sent) (pkt : List ℕ) (key : FlowKey) (later : ℕ) : Type 0 where
  pub pointer : ℕ
  pub mapping : UdpMapping
  pub leads : lookup key s.nat.forward ≡ some pointer
  pub held : lookup pointer s.nat.mappings ≡ some mapping
  pub stamped : mapping.last_seen ≡ later
  pub out : s.handed ≡ some (wire_packet s.nat pkt mapping)
  pub up : s.nat.closed ≡ false

-- The flow of a packet from the remote end that `key` addresses to the host's end of `wire`.
unfoldable pub answer_key : FlowKey → FlowKey → FlowKey
answer_key key wire = record {
  src_ip = key.dst_ip;
  dst_ip = wire.src_ip;
  src_port = key.dst_port;
  dst_port = wire.src_port;
  proto = key.proto;
}
