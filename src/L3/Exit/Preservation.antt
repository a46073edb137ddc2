-- ===== src/L3/Exit/Preservation.antt =====
-- The tables of the exit (tunnel/l3/l3.go) stay well formed through both handlers.
use openflux_zen_server.Prelude.{
  ℕ, ◌≡◌, refl, Bool, true, false, not, List, Option, none, some, ◌==◌, if◌then◌else◌, byte_at,
  Bool-cases, inl, inr, be32,
}
use openflux_zen_server.L3.Packet.{
  slice_ipv4, is_fragmented_ipv4, FlowKey, extract_flow_key, reverse_key, ip_u32, rewrite_snat,
  is_tcp_closing, fix_checksums, valid_udp_checksums,
}
use openflux_zen_server.L3.Conntrack.{Conntrack, insert_flow, touch, exists_flow}
use openflux_zen_server.L3.Conntrack.Laws
use openflux_zen_server.L3.UdpNat.{UdpNat, SendError, send, find, translate_reply}
use openflux_zen_server.L3.UdpNat.Consistency
use openflux_zen_server.L3.UdpNat.Flows.{IsFree, at_reserve, send-Inv, translate_reply-Inv}
use openflux_zen_server.L3.Reassembly.{add}
use openflux_zen_server.L3.Reassembly.Limits
use openflux_zen_server.L3.Exit.{
  client_ip, Exit, World, Outcome, send_network, drop_bad, drop_foreign, drop_unknown, conclude,
  forward_udp, forward_tcp, from_client_keyed, from_client_whole, from_client_sliced,
  handle_from_transport,
}
use openflux_zen_server.L3.Exit.Inbound.{
  translate_icmp, to_client_counted, inbound_icmp, inbound_udp, inbound_tcp, inbound_keyed,
  inbound_whole, is_for_us, inbound_sliced, handle_from_internet,
}

-- The flow table, the NAT's maps and sockets, and both reassemblers within their limits.
pub record IsSound (e : Exit) : Type 0 where
  pub tracked : Laws.Inv e.ct
  pub mapped : Consistency.Inv e.udp
  pub from_client : Limits.Inv e.from_client
  pub from_network : Limits.Inv e.from_network

-- Where the packet of flow `k` asks the host for a port, it hands out none that a socket of the NAT
-- holds at that moment: the flow's own expired mapping is closed by then.
abbrev pub HandsOutFree : World → UdpNat → Option FlowKey → Type 0
HandsOutFree w n k =
    (j : FlowKey) (port : ℕ)
    → k ≡ some j
    → w.reserved ≡ some port
    → IsFree (at_reserve n w.now (find n.forward j n.mappings)) port

unfoldable pub key_of : Option (List ℕ) → Option FlowKey
key_of none = none
key_of (some p) = extract_flow_key p

-- The whole packet that a packet from the client makes: itself, or what its fragments give.
unfoldable pub made_whole : World → Exit → Option (List ℕ) → Option (List ℕ)
made_whole w e none = none
made_whole w e (some p) = if is_fragmented_ipv4 p then (add e.from_client p w.now).1 else some p

-- The flow of the packet that the handler makes of `pkt`.
unfoldable pub flow_of : World → Exit → List ℕ → Option FlowKey
flow_of w e pkt = key_of (made_whole w e (slice_ipv4 pkt))

either :
    (b : Bool) (x y : Outcome) → IsSound x.exit → IsSound y.exit → IsSound (if b then x else y).exit
either true x y hx hy = hx
either false x y hx hy = hy

either_table :
    (b : Bool) (x y : Conntrack) → Laws.Inv x → Laws.Inv y → Laws.Inv (if b then x else y)
either_table true x y hx hy = hx
either_table false x y hx hy = hy

-- The same tables under other counters.
recount :
    (e o : Exit)
    → o.ct ≡ e.ct
    → o.udp ≡ e.udp
    → o.from_client ≡ e.from_client
    → o.from_network ≡ e.from_network
    → IsSound e
    → IsSound o
recount e o a b c d v = record {
  tracked = rw a v.tracked;
  mapped = rw b v.mapped;
  from_client = rw c v.from_client;
  from_network = rw d v.from_network;
}

conclude-IsSound :
    (w : World) (e : Exit) (p : List ℕ) (error : Option SendError) (handed : List (List ℕ))
    → IsSound e
    → IsSound (conclude w e p error handed).exit
unfolding conclude
conclude-IsSound w e p error handed v = recount e _ refl refl refl refl v

forward_udp-IsSound :
    (w : World) (e : Exit) (p : List ℕ) (k : FlowKey)
    → HandsOutFree w e.udp (some k)
    → IsSound e
    → IsSound (forward_udp w e p k).exit
unfolding forward_udp
forward_udp-IsSound w e p k free v =
    let network : List ℕ → Option SendError = λ q. (send_network w.backend e.fragment_id q).error in
    let sent = send e.udp p k w.now w.reserved network w.later in
    conclude-IsSound w _ p sent.error _ (record {
      tracked = v.tracked;
      mapped =
          send-Inv e.udp p k w.now w.reserved network w.later v.mapped (λ port. free k port refl);
      from_client = v.from_client;
      from_network = v.from_network;
    })

forward_tcp-IsSound :
    (w : World) (e : Exit) (p : List ℕ) (k : FlowKey)
    → IsSound e
    → IsSound (forward_tcp w e p k).exit
unfolding forward_tcp
forward_tcp-IsSound w e p k v =
    let wire : FlowKey = record k { src_ip = ip_u32 e.egress } in
    let ct = (insert_flow e.ct wire w.now).0 in
    let tracked = Laws.insert_flow-Inv e.ct wire w.now v.tracked in
    let kept : Laws.Inv (
        if is_tcp_closing (fix_checksums (rewrite_snat p e.egress))
        then touch ct wire true w.now
        else ct) =
      either_table _ _ ct (Laws.touch-Inv ct wire true w.now tracked) tracked in
    either (insert_flow e.ct wire w.now).1 _ (drop_unknown (record e { ct = ct }))
      (conclude-IsSound w _ p _ _ (record {
        tracked = kept;
        mapped = v.mapped;
        from_client = v.from_client;
        from_network = v.from_network;
      }))
      (record {
        tracked = tracked;
        mapped = v.mapped;
        from_client = v.from_client;
        from_network = v.from_network;
      })

from_client_keyed-IsSound :
    (w : World) (e : Exit) (p : List ℕ) (k : Option FlowKey)
    → HandsOutFree w e.udp k
    → IsSound e
    → IsSound (from_client_keyed w e p k).exit
unfolding from_client_keyed
from_client_keyed-IsSound w e p none free v = recount e _ refl refl refl refl v
from_client_keyed-IsSound w e p (some k) free v =
    let dropped : IsSound (drop_bad e).exit = recount e _ refl refl refl refl v in
    let foreign : IsSound (drop_foreign e).exit = recount e _ refl refl refl refl v in
    let udp = either (valid_udp_checksums p) _ _ (forward_udp-IsSound w e p k free v) dropped in
    let known = either (k.proto == 17) _ _ udp (forward_tcp-IsSound w e p k v) in
    either (not (k.src_ip == client_ip)) _ _ foreign known

from_client_whole-IsSound :
    (w : World) (e : Exit) (p : Option (List ℕ))
    → HandsOutFree w e.udp (key_of p)
    → IsSound e
    → IsSound (from_client_whole w e p).exit
unfolding from_client_whole key_of
from_client_whole-IsSound w e none free v = recount e _ refl refl refl refl v
from_client_whole-IsSound w e (some p) free v =
    from_client_keyed-IsSound w e p (extract_flow_key p) free v

from_client_sliced-IsSound :
    (w : World) (e : Exit) (p : Option (List ℕ))
    → HandsOutFree w e.udp (key_of (made_whole w e p))
    → IsSound e
    → IsSound (from_client_sliced w e p).exit
unfolding from_client_sliced made_whole
from_client_sliced-IsSound w e none free v = recount e _ refl refl refl refl v
from_client_sliced-IsSound w e (some p) free v =
    let ready : Exit = record e { from_client = (add e.from_client p w.now).0 } in
    let held : IsSound ready = record {
      tracked = v.tracked;
      mapped = v.mapped;
      from_client = Limits.add-Inv e.from_client p w.now v.from_client;
      from_network = v.from_network;
    } in
    let foreign : IsSound (drop_foreign e).exit = recount e _ refl refl refl refl v in
    elim (Bool-cases (is_fragmented_ipv4 p)) [
      | inl f ↦ rw f (
          either (be32 p 12 == client_ip) _ _
            (from_client_whole-IsSound w ready (add e.from_client p w.now).1 (rw f at free) held)
            foreign)
      | inr f ↦ rw f (from_client_whole-IsSound w e (some p) (rw f at free) v)
    ]

-- A packet from the client leaves the exit's tables sound, on every branch, if the port that the host
-- hands out for its flow is one that no reserved socket holds then.
pub handle_from_transport-IsSound :
    (w : World) (e : Exit) (pkt : List ℕ)
    → HandsOutFree w e.udp (flow_of w e pkt)
    → IsSound e
    → IsSound (handle_from_transport w e pkt).exit
unfolding handle_from_transport flow_of made_whole
handle_from_transport-IsSound w e pkt free v =
    from_client_sliced-IsSound w _ (slice_ipv4 pkt) free (recount e _ refl refl refl refl v)

to_client_counted-IsSound :
    (w : World) (e : Exit) (p wire : List ℕ)
    → IsSound e
    → IsSound (to_client_counted w e p wire).exit
unfolding to_client_counted
to_client_counted-IsSound w e p wire v = recount e _ refl refl refl refl v

inbound_udp-IsSound :
    (w : World) (e : Exit) (wire : List ℕ) (reply : Option (List ℕ))
    → IsSound e
    → IsSound (inbound_udp w e wire reply).exit
unfolding inbound_udp
inbound_udp-IsSound w e wire none v = recount e _ refl refl refl refl v
inbound_udp-IsSound w e wire (some p) v = to_client_counted-IsSound w e p wire v

inbound_keyed-IsSound :
    (w : World) (e : Exit) (p : List ℕ) (k : Option FlowKey)
    → IsSound e
    → IsSound (inbound_keyed w e p k).exit
unfolding inbound_keyed inbound_tcp
inbound_keyed-IsSound w e p none v = recount e _ refl refl refl refl v
inbound_keyed-IsSound w e p (some k) v =
    let (udp, reply) = translate_reply e.udp p k w.now in
    let back = reverse_key k in
    let touched : Exit = record e { ct = touch e.ct back (is_tcp_closing p) w.now } in
    let moved : Exit = record e { udp = udp } in
    let dropped : IsSound (drop_unknown e).exit = recount e _ refl refl refl refl v in
    let tracked = Laws.touch-Inv e.ct back (is_tcp_closing p) w.now v.tracked in
    let mapped = translate_reply-Inv e.udp p k w.now v.mapped in
    let tcp =
      either (exists_flow e.ct back w.now) _ _
        (to_client_counted-IsSound w touched _ p (record {
          tracked = tracked;
          mapped = v.mapped;
          from_client = v.from_client;
          from_network = v.from_network;
        }))
        dropped in
    either (k.proto == 17) _ _
      (inbound_udp-IsSound w moved p reply (record {
        tracked = v.tracked;
        mapped = mapped;
        from_client = v.from_client;
        from_network = v.from_network;
      }))
      tcp

inbound_icmp-IsSound :
    (w : World) (e : Exit) (p : Option (List ℕ)) → IsSound e → IsSound (inbound_icmp w e p).exit
unfolding inbound_icmp
inbound_icmp-IsSound w e none v = recount e _ refl refl refl refl v
inbound_icmp-IsSound w e (some p) v = recount e _ refl refl refl refl v

inbound_whole-IsSound :
    (w : World) (e : Exit) (p : Option (List ℕ)) → IsSound e → IsSound (inbound_whole w e p).exit
unfolding inbound_whole
inbound_whole-IsSound w e none v = recount e _ refl refl refl refl v
inbound_whole-IsSound w e (some p) v =
    either (byte_at p 9 == 1) _ _ (inbound_icmp-IsSound w e (translate_icmp e p w.now) v)
      (inbound_keyed-IsSound w e p (extract_flow_key p) v)

inbound_sliced-IsSound :
    (w : World) (e : Exit) (p : Option (List ℕ)) → IsSound e → IsSound (inbound_sliced w e p).exit
unfolding inbound_sliced
inbound_sliced-IsSound w e none v = recount e _ refl refl refl refl v
inbound_sliced-IsSound w e (some p) v =
    let ready : Exit = record e { from_network = (add e.from_network p w.now).0 } in
    let held : IsSound ready = record {
      tracked = v.tracked;
      mapped = v.mapped;
      from_client = v.from_client;
      from_network = Limits.add-Inv e.from_network p w.now v.from_network;
    } in
    let foreign : IsSound (drop_foreign e).exit = recount e _ refl refl refl refl v in
    let ours =
      either (is_fragmented_ipv4 p) _ _
        (inbound_whole-IsSound w ready (add e.from_network p w.now).1 held)
        (inbound_whole-IsSound w e (some p) v) in
    either (is_for_us e.egress p) _ _ ours foreign

-- A packet from the network leaves the exit's tables sound, on every branch.
pub handle_from_internet-IsSound :
    (w : World) (e : Exit) (pkt : List ℕ) → IsSound e → IsSound (handle_from_internet w e pkt).exit
unfolding handle_from_internet
handle_from_internet-IsSound w e pkt v =
    inbound_sliced-IsSound w _ (slice_ipv4 pkt) (recount e _ refl refl refl refl v)
