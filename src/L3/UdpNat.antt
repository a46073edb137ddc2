-- ===== src/L3/UdpNat.antt =====
-- tunnel/l3/udp_nat.go: UDP flows get a source port of the host that a socket of their own reserves,
-- and a reply is translated back only from the exact remote address and port. The two maps of the
-- source hold pointers to one mapping; here they hold its number in the store `mappings`, which is
-- also the number of its socket. Time is an argument of each call, in nanoseconds.
pub mod Consistency
pub mod Calls
pub mod Shutdown
pub mod Flows
pub mod Replies
use openflux_zen_server.Prelude.{
  ℕ, suc, ◌-◌, ◌+◌, Bool, true, false, List, [], ◌∷◌, Option, none, some, ltb, leb, ◌==◌,
  if◌then◌else◌, length, put16, put32,
}
use openflux_zen_server.Prelude.Maps.{nat_eq, lookup, insert, delete}
use openflux_zen_server.L3.Checksum.{header_length}
use openflux_zen_server.L3.Packet.{FlowKey, reverse_key, ip_u32, rewrite_snat, fix_checksums}
use openflux_zen_server.L3.Conntrack.{flow_key_eq, CtEntry, flow_timeout}

abbrev pub max_udp_mappings : ℕ
max_udp_mappings = 256

-- `udpMapping`; its socket `port` is the mapping's own number.
pub record UdpMapping : Type 0 where
  pub client : FlowKey
  pub wire : FlowKey
  pub last_seen : ℕ

-- `udpNAT`. `sockets` are the reserved sockets that are open; `fresh` numbers the next mapping.
pub record UdpNat : Type 0 where
  pub forward : List (FlowKey × ℕ)
  pub reverse : List (FlowKey × ℕ)
  pub mappings : List (ℕ × UdpMapping)
  pub sockets : List (ℕ × Unit {0})
  pub fresh : ℕ
  pub egress : List ℕ
  pub closed : Bool

unfoldable pub new_udp_nat : List ℕ → UdpNat
new_udp_nat egress = record {
  forward = [];
  reverse = [];
  mappings = [];
  sockets = [];
  fresh = 0;
  egress = egress;
  closed = false;
}

-- `expired`: `flowTimeout` is asked with an entry that is not closing.
unfoldable pub expired : UdpMapping → ℕ → Bool
expired m now =
    ltb (flow_timeout m.client (record { last_seen = 0; dying = false })) (now - m.last_seen)

-- `remove`
pub remove : UdpNat → ℕ → UdpMapping → UdpNat
remove n p m = record n {
  forward = delete m.client n.forward;
  reverse = delete (reverse_key m.wire) n.reverse;
  sockets = delete p n.sockets;
}

remove_if_expired : UdpNat → ℕ → ℕ → Option UdpMapping → UdpNat
remove_if_expired n now p none = n
remove_if_expired n now p (some m) = if expired m now then remove n p m else n

-- The loop of `expire` over the mappings that `forward` held when it began.
pub expire_each : UdpNat → ℕ → List (FlowKey × ℕ) → UdpNat
unfolding remove_if_expired
expire_each n now [] = n
expire_each n now ((k, p) ∷ rest) =
    expire_each (remove_if_expired n now p (lookup p n.mappings)) now rest

pub expire : UdpNat → ℕ → UdpNat
expire n now = expire_each n now n.forward

remove_found : UdpNat → ℕ → Option UdpMapping → UdpNat
remove_found n p none = n
remove_found n p (some m) = remove n p m

-- The loop of `Close`.
pub remove_each : UdpNat → List (FlowKey × ℕ) → UdpNat
unfolding remove_found
remove_each n [] = n
remove_each n ((k, p) ∷ rest) = remove_each (remove_found n p (lookup p n.mappings)) rest

-- `Close`, up to the wait for the sweeper.
pub close : UdpNat → UdpNat
close n = if n.closed then n else remove_each (record n { closed = true }) n.forward

-- A mapping found under a key in one of the maps.
unfoldable pub find : List (FlowKey × ℕ) → FlowKey → List (ℕ × UdpMapping) → Option (ℕ × UdpMapping)
find table k mappings = elim (lookup k table) [
  | none ↦ none
  | some p ↦ elim (lookup p mappings) [ none ↦ none | some m ↦ some (p, m) ]
]

pub data SendError : Type 0 where
  net_closed mapping_limit reserve_failed : SendError
  network_failed : SendError
  too_big : ℕ → SendError

-- What `send` answers, and the packet that it handed to the network, if it did.
pub record Sent : Type 0 where
  pub nat : UdpNat
  pub handed : Option (List ℕ)
  pub error : Option SendError

-- After the network has answered: a mapping made for this packet is removed again on an error, and
-- a mapping that carried it is stamped with the time afterwards, `later`.
unfoldable pub settle : UdpNat → ℕ → UdpMapping → Bool → List ℕ → ℕ → Option SendError → Sent
settle n p m true out later (some e) = record {
  nat = remove n p m;
  handed = some out;
  error = some e;
}
settle n p m false out later (some e) = record { nat = n; handed = some out; error = some e }
settle n p m created out later none = record {
  nat = record n { mappings = insert p (record m { last_seen = later }) n.mappings };
  handed = some out;
  error = none;
}

-- The packet that `send` hands to the network: the source address and port of the host.
unfoldable pub wire_packet : UdpNat → List ℕ → UdpMapping → List ℕ
wire_packet n pkt m =
    let moved = rewrite_snat pkt n.egress in
    fix_checksums (put16 moved (header_length moved) m.wire.src_port)

-- The end of `send`, with the mapping at hand: rewrite the packet and hand it to the network.
unfoldable pub transmit :
    UdpNat → List ℕ → ℕ → UdpMapping → Bool → (List ℕ → Option SendError) → ℕ → Sent
unfolding settle
transmit n pkt p m created network later =
    let out = wire_packet n pkt m in settle n p m created out later (network out)

-- A new mapping in both maps and in the store, with its socket open.
unfoldable pub create : UdpNat → FlowKey → ℕ → ℕ → UdpNat × UdpMapping
create n key port now =
    let wire : FlowKey = record key { src_ip = ip_u32 n.egress; src_port = port } in
    let m : UdpMapping = record { client = key; wire = wire; last_seen = now } in
    (
      record n {
        forward = insert key n.fresh n.forward;
        reverse = insert (reverse_key wire) n.fresh n.reverse;
        mappings = insert n.fresh m n.mappings;
        sockets = insert n.fresh tt n.sockets;
        fresh = suc n.fresh;
      },
      m,
    )

-- `reserve`'s answer is a free port of the host, or none on an error.
unfoldable pub send_reserved :
    UdpNat → List ℕ → FlowKey → ℕ → Option ℕ → (List ℕ → Option SendError) → ℕ → Sent
send_reserved n pkt key now none network later = record {
  nat = n;
  handed = none;
  error = some reserve_failed;
}
send_reserved n pkt key now (some port) network later =
    let (n', m) = create n key port now in transmit n' pkt n.fresh m true network later

-- The NAT when `reserve` is asked: swept, if it was full.
unfoldable pub swept : UdpNat → ℕ → UdpNat
unfolding expire
swept n now = if leb max_udp_mappings (length n.forward) then expire n now else n

-- The part of `send` for a flow with no mapping.
unfoldable pub send_new :
    UdpNat → List ℕ → FlowKey → ℕ → Option ℕ → (List ℕ → Option SendError) → ℕ → Sent
send_new n pkt key now reserved network later =
    let ready = swept n now in
    if leb max_udp_mappings (length ready.forward)
    then record { nat = ready; handed = none; error = some mapping_limit }
    else send_reserved ready pkt key now reserved network later

-- `send` with what it found under the flow's key: an expired mapping is removed first.
unfoldable pub send_found :
    UdpNat
    → List ℕ
    → FlowKey
    → ℕ
    → Option ℕ
    → (List ℕ → Option SendError)
    → ℕ
    → Option (ℕ × UdpMapping)
    → Sent
send_found n pkt key now reserved network later none = send_new n pkt key now reserved network later
send_found n pkt key now reserved network later (some (p, m)) =
    if expired m now
    then send_new (remove n p m) pkt key now reserved network later
    else transmit n pkt p m false network later

-- `send`
unfoldable pub send :
    UdpNat → List ℕ → FlowKey → ℕ → Option ℕ → (List ℕ → Option SendError) → ℕ → Sent
send n pkt key now reserved network later =
    if n.closed
    then record { nat = n; handed = none; error = some net_closed }
    else send_found n pkt key now reserved network later (find n.forward key n.mappings)

-- The packet that goes to the client: its own address and port as the destination.
pub client_packet : List ℕ → UdpMapping → List ℕ
client_packet pkt m =
    fix_checksums (put16 (put32 pkt 16 m.client.src_ip) (header_length pkt + 2) m.client.src_port)

-- `translateReply` with what it found under the reply's key.
unfoldable pub reply_found :
    UdpNat → List ℕ → ℕ → Option (ℕ × UdpMapping) → UdpNat × Option (List ℕ)
reply_found n pkt now none = (n, none)
reply_found n pkt now (some (p, m)) = if expired m now then (remove n p m, none) else (
  record n { mappings = insert p (record m { last_seen = now }) n.mappings },
  some (client_packet pkt m),
)

-- `translateReply`: the packet for the client, or none where the source answers false.
unfoldable pub translate_reply : UdpNat → List ℕ → FlowKey → ℕ → UdpNat × Option (List ℕ)
translate_reply n pkt key now =
    if n.closed then (n, none) else reply_found n pkt now (find n.reverse key n.mappings)
