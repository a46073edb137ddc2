-- ===== src/L3/SentFlows/Memory.antt =====
-- What the memory of sent flows answers (tunnel/l3/sentflows.go).
use openflux_zen_server.Prelude.{
  some, none, ◌==◌, ℕ, ◌-◌, ◌≤◌, ◌≡◌, Bool, List, [], ◌∷◌, arith, ltb, leb, if◌then◌else◌,
  Option-cases, inl, inr,
}
use openflux_zen_server.Prelude.Maps.{
  lookup, Keyed, lookup-insert, lookup-delete_if, lookup-delete_if-none, insert-Keyed,
  delete_if-Keyed,
}
use openflux_zen_server.L3.Packet.{FlowKey, slice_ipv4, extract_flow_key}
use openflux_zen_server.L3.Packet.Keys.{sliced_key, HasKey, HasKey-Parts, HasKey-first}
use openflux_zen_server.L3.SentFlows.{
  outbound_tcp_flow, SentFlow, same_flow, same_flow_iff, sent_flow_eq, SentFlows, new_sent_flows,
  record_flow, contains_flow, expire_flows,
}

-- Sends and sweeps, each at its time.
pub data FlowEvent : Type 0 where
  sends : SentFlow → ℕ → FlowEvent
  sweeps : ℕ → FlowEvent

pub remember : SentFlows → List FlowEvent → SentFlows
remember s [] = s
remember s (sends f now ∷ rest) = remember (record_flow s f now) rest
remember s (sweeps now ∷ rest) = remember (expire_flows s now) rest

remember-Keyed : (s : SentFlows) (es : List FlowEvent) → Keyed s.flows → Keyed (remember s es).flows
unfolding remember record_flow expire_flows
remember-Keyed s [] v = v
remember-Keyed s (sends f now ∷ rest) v =
    remember-Keyed (record_flow s f now) rest (insert-Keyed f now s.flows v)
remember-Keyed s (sweeps now ∷ rest) v =
    remember-Keyed (expire_flows s now) rest
      (delete_if-Keyed (λ f seen. ltb s.ttl (now - seen)) s.flows v)

-- After a send at the time `now`, that flow is known until the lifetime has passed since then, and
-- what is known of any other flow is unchanged.
pub contains_flow-record_flow :
    (s : SentFlows) (f g : SentFlow) (now later : ℕ)
    → contains_flow (record_flow s f now) g later
      ≡ (if same_flow f g then leb (later - now) s.ttl else contains_flow s g later)
unfolding contains_flow record_flow
contains_flow-record_flow s f g now later =
    ground (arith, lookup-insert f g now s.flows, same_flow_iff f g)

-- After any sends and sweeps, a further sweep forgets only flows whose lifetime has passed: whatever
-- is asked at that time or later is answered as without it.
pub contains_flow-expire_flows :
    (ttl : ℕ) (es : List FlowEvent) (now later : ℕ) (g : SentFlow)
    → now ≤ later
    → contains_flow (expire_flows (remember (new_sent_flows ttl) es) now) g later
      ≡ contains_flow (remember (new_sent_flows ttl) es) g later
unfolding contains_flow expire_flows
contains_flow-expire_flows ttl es now later g h =
    let s = remember (new_sent_flows ttl) es in
    let v : Keyed s.flows = remember-Keyed (new_sent_flows ttl) es (unfold new_sent_flows in tt) in
    let old : SentFlow → ℕ → Bool = λ f seen. ltb s.ttl (now - seen) in
    elim (Option-cases (lookup g s.flows)) [
      | inl e ↦ ground (arith, lookup-delete_if-none old g s.flows e)
      | inr (seen, e) ↦ ground (arith, lookup-delete_if old g seen s.flows v e)
    ]

outbound_tcp_flow_keyed :
    (p : List ℕ) (k : FlowKey)
    → HasKey p k
    → outbound_tcp_flow p ≡ (
        if k.proto == 6
        then some (record { src_port = k.src_port; dst_ip = k.dst_ip; dst_port = k.dst_port })
        else none)
unfolding outbound_tcp_flow
outbound_tcp_flow_keyed p k v =
    let parts = HasKey-Parts p k v in
    let first = HasKey-first p k v in
    let version = v.sliced.version in
    let least = v.sliced.header_min in
    let inside = v.ports_inside in
    ground (arith, parts.proto, parts.src_port, parts.dst_ip, parts.dst_port)

-- For a packet whose flow the exit can read, `outboundTCPFlow` reads the same ports and remote
-- address if it is TCP, and nothing if it is not.
pub outbound_tcp_flow_lem :
    (raw p : List ℕ) (k : FlowKey)
    → slice_ipv4 raw ≡ some p
    → extract_flow_key p ≡ some k
    → outbound_tcp_flow p ≡ (
        if k.proto == 6
        then some (record { src_port = k.src_port; dst_ip = k.dst_ip; dst_port = k.dst_port })
        else none)
outbound_tcp_flow_lem raw p k s e = outbound_tcp_flow_keyed p k (sliced_key raw p k s e)
