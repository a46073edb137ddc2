-- ===== src/L3/SentFlows.antt =====
-- tunnel/l3/sentflows.go: the TCP flows that a backend sent to the network, by which it tells the
-- host's own resets of them from others. A time is a number of nanoseconds.
pub mod Memory
use openflux_zen_server.Prelude.{
  ℕ, ◌-◌, ◌+◌, ◌/◌, ◌%◌, ◌≡◌, ◌↔◌, Bool, true, false, not, ◌&&◌, ◌||◌, List, [], Option, none, some,
  arith, ltb, leb, ◌==◌, if◌then◌else◌, length, byte_at, be16, be32,
}
use openflux_zen_server.Prelude.Maps.{Eq, lookup, insert, delete_if}
use openflux_zen_server.L3.Checksum.{header_length}

-- `sentFlow`
pub record SentFlow : Type 0 where
  pub src_port : ℕ
  pub dst_ip : ℕ
  pub dst_port : ℕ

abbrev pub same_flow : SentFlow → SentFlow → Bool
same_flow f g = f.src_port == g.src_port && (f.dst_ip == g.dst_ip && f.dst_port == g.dst_port)

pub same_flow_iff : (f g : SentFlow) → (same_flow f g ≡ true) ↔ (f ≡ g)
same_flow_iff f g = ground arith

instance abbrev pub sent_flow_eq : Eq SentFlow
sent_flow_eq = record { beq = same_flow; beq_iff = same_flow_iff }

-- `sentFlows`: the time of the last send of each flow.
pub record SentFlows : Type 0 where
  pub ttl : ℕ
  pub flows : List (SentFlow × ℕ)

pub new_sent_flows : ℕ → SentFlows
new_sent_flows ttl = record { ttl = ttl; flows = [] }

-- `outboundTCPFlow`
pub outbound_tcp_flow : List ℕ → Option SentFlow
outbound_tcp_flow pkt =
    let ihl = header_length pkt in
    if ltb (length pkt) 20 || (not (byte_at pkt 0 / 16 == 4) || not (byte_at pkt 9 == 6))
    then none
    else if not (be16 pkt 6 % 8192 == 0)
    then none
    else if ltb ihl 20 || ltb (length pkt) (ihl + 4)
    then none
    else some
        (record { src_port = be16 pkt ihl; dst_ip = be32 pkt 16; dst_port = be16 pkt (ihl + 2) })

-- `record`
pub record_flow : SentFlows → SentFlow → ℕ → SentFlows
record_flow s f now = record s { flows = insert f now s.flows }

-- `contains`
pub contains_flow : SentFlows → SentFlow → ℕ → Bool
contains_flow s f now = elim (lookup f s.flows) [
  | none ↦ false
  | some seen ↦ leb (now - seen) s.ttl
]

-- `expire`
pub expire_flows : SentFlows → ℕ → SentFlows
expire_flows s now = record s { flows = delete_if (λ f seen. ltb s.ttl (now - seen)) s.flows }

-- `len`
pub flow_count : SentFlows → ℕ
flow_count s = length s.flows
