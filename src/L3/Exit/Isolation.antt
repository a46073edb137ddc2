-- ===== src/L3/Exit/Isolation.antt =====
-- What the exit lets through (tunnel/l3/l3.go): only the client's packets go out, and only packets of
-- flows that the client opened come in.
use openflux_zen_server.Prelude.{
  ℕ, ◌+◌, ◌≡◌, ◌≢◌, refl, Bool, true, false, not, ◌&&◌, List, [], Option, none, some, arith, ◌==◌,
  if◌then◌else◌, drop, byte_at, be32, Bool-cases, inl, inr,
}
use openflux_zen_server.L3.Checksum.{header_length}
use openflux_zen_server.L3.Packet.{
  slice_ipv4, is_fragmented_ipv4, FlowKey, extract_flow_key, reverse_key,
}
use openflux_zen_server.L3.Packet.Keys.{key_source}
use openflux_zen_server.L3.Conntrack.{exists_flow}
use openflux_zen_server.L3.UdpNat.{UdpNat, UdpMapping, find, expired, reply_found, translate_reply}
use openflux_zen_server.L3.Icmp.{quoted_key}
use openflux_zen_server.L3.Exit.{
  client_ip, Exit, World, Outcome, from_client_keyed, from_client_whole, from_client_sliced,
  handle_from_transport,
}
use openflux_zen_server.L3.Exit.Inbound.{
  original_found, original_flow, with_original, translate_icmp, inbound_icmp, inbound_udp,
  inbound_tcp, inbound_keyed, inbound_whole,
}

-- Nothing was handed to the network or to the client, and no flow was opened, moved or touched.
abbrev pub Ignored : Exit → Outcome → Type 0
Ignored e o = (o.to_network ≡ []) × (o.to_client ≡ []) × (o.exit.ct ≡ e.ct) × (o.exit.udp ≡ e.udp)

from_client_keyed_foreign :
    (w : World) (e : Exit) (p : List ℕ) (k : Option FlowKey)
    → ((j : FlowKey) → k ≡ some j → (j.src_ip == client_ip) ≡ false)
    → Ignored e (from_client_keyed w e p k)
unfolding from_client_keyed
from_client_keyed_foreign w e p none h = (refl, refl, refl, refl)
from_client_keyed_foreign w e p (some k) h = rw (h k refl) (refl, refl, refl, refl)

-- A packet whose source is not the client's address is ignored.
pub handle_from_transport_foreign :
    (w : World) (e : Exit) (pkt p : List ℕ)
    → slice_ipv4 pkt ≡ some p
    → be32 p 12 ≢ client_ip
    → Ignored e (handle_from_transport w e pkt)
unfolding handle_from_transport from_client_sliced from_client_whole
handle_from_transport_foreign w e pkt p s h =
    let other : (be32 p 12 == client_ip) ≡ false = ground arith in
    elim (Bool-cases (is_fragmented_ipv4 p)) [
      | inl f ↦ rw (s, f, other) (refl, refl, refl, refl)
      | inr f ↦
          rw (s, f)
            (from_client_keyed_foreign w _ p (extract_flow_key p)
              (λ k e'. rw (key_source pkt p k s e') other))
    ]

unfoldable pub live : UdpNat → ℕ → Option (ℕ × UdpMapping) → Bool
live n now none = false
live n now (some (p, m)) = not n.closed && not (expired m now)

-- The flow of a TCP or UDP packet from the network is one that the client opened and that lives.
unfoldable pub solicited : Exit → ℕ → Option FlowKey → Bool
unfolding live
solicited e now none = false
solicited e now (some k) =
    if k.proto == 17
    then live e.udp now (find e.udp.reverse k e.udp.mappings)
    else exists_flow e.ct (reverse_key k) now

-- The flow of a packet that an ICMP error quotes, as it left the host, is live: for UDP there is a live
-- mapping under the reversed flow, and for TCP the flow table has it.
unfoldable pub is_quoted_live : Exit → ℕ → FlowKey → Bool
unfolding live
is_quoted_live e now k =
    if k.proto == 17
    then live e.udp now (find e.udp.reverse (reverse_key k) e.udp.mappings)
    else k.proto == 6 && exists_flow e.ct k now

-- The packets from the network that belong to the client: those of a live flow, and the ICMP errors
-- that quote a packet of a live flow.
unfoldable pub admits : Exit → ℕ → List ℕ → Bool
unfolding solicited is_quoted_live
admits e now p =
    if byte_at p 9 == 1
    then is_quoted_live e now (quoted_key (drop (header_length p + 8) p))
    else solicited e now (extract_flow_key p)

-- Nothing was handed to the network or to the client.
abbrev pub Silent : Outcome → Type 0
Silent o = (o.to_network ≡ []) × (o.to_client ≡ [])

reply_found_dead :
    (n : UdpNat) (pkt : List ℕ) (now : ℕ) (found : Option (ℕ × UdpMapping))
    → live n now found ≡ false
    → n.closed ≡ false
    → (reply_found n pkt now found).1 ≡ none
unfolding reply_found live
reply_found_dead n pkt now none h c = refl
reply_found_dead n pkt now (some (p, m)) h c = ground arith

if_pair_none :
    (b : Bool) (x y : UdpNat × Option (List ℕ))
    → x.1 ≡ none
    → (b ≡ false → y.1 ≡ none)
    → (if b then x else y).1 ≡ none
if_pair_none true x y hx hy = hx
if_pair_none false x y hx hy = hy refl

translate_reply_dead :
    (n : UdpNat) (p : List ℕ) (k : FlowKey) (now : ℕ)
    → live n now (find n.reverse k n.mappings) ≡ false
    → (translate_reply n p k now).1 ≡ none
unfolding translate_reply
translate_reply_dead n p k now h =
    if_pair_none n.closed _ _ refl (reply_found_dead n p now (find n.reverse k n.mappings) h)

inbound_udp-none :
    (w : World) (o : Exit) (p : List ℕ) (reply : Option (List ℕ))
    → reply ≡ none
    → Silent (inbound_udp w o p reply)
unfolding inbound_udp
inbound_udp-none w o p reply h = rw h (refl, refl)

inbound_keyed_unsolicited :
    (w : World) (e : Exit) (p : List ℕ) (k : Option FlowKey)
    → solicited e w.now k ≡ false
    → Silent (inbound_keyed w e p k)
unfolding inbound_keyed inbound_tcp solicited
inbound_keyed_unsolicited w e p none h = (refl, refl)
inbound_keyed_unsolicited w e p (some k) h = elim (Bool-cases (k.proto == 17)) [
  | inl u ↦ rw u (inbound_udp-none w _ p _ (translate_reply_dead e.udp p k w.now (rw u at h)))
  | inr t ↦
      let shut : exists_flow e.ct (reverse_key k) w.now ≡ false = rw t at h in
      rw (t, shut) (refl, refl)
]

if_none : (b : Bool) (x : Option (List ℕ)) → x ≡ none → (if b then none else x) ≡ none
if_none true x h = refl
if_none false x h = h

nothing : (p : List ℕ) (k : FlowKey) (o : Option FlowKey) → o ≡ none → with_original p k o ≡ none
unfolding with_original
nothing p k o h = rw h refl

original_found_dead :
    (n : UdpNat) (now : ℕ) (k : FlowKey) (found : Option (ℕ × UdpMapping))
    → live n now found ≡ false
    → original_found n now k found ≡ none
unfolding original_found live
original_found_dead n now k none h = refl
original_found_dead n now k (some (p, m)) h = ground arith

original_flow_dead :
    (e : Exit) (now : ℕ) (k : FlowKey)
    → is_quoted_live e now k ≡ false
    → original_flow e now k ≡ none
unfolding original_flow is_quoted_live
original_flow_dead e now k h = elim (Bool-cases (k.proto == 17)) [
  | inl u ↦ rw u (
      original_found_dead e.udp now k (find e.udp.reverse (reverse_key k) e.udp.mappings)
        (rw u at h))
  | inr t ↦
      let dead : (k.proto == 6 && exists_flow e.ct k now) ≡ false = rw t at h in rw (t, dead) refl
]

translate_icmp_dead :
    (e : Exit) (p : List ℕ) (now : ℕ)
    → is_quoted_live e now (quoted_key (drop (header_length p + 8) p)) ≡ false
    → translate_icmp e p now ≡ none
unfolding translate_icmp
translate_icmp_dead e p now h =
    let k = quoted_key (drop (header_length p + 8) p) in
    if_none _ _ (nothing p k (original_flow e now k) (original_flow_dead e now k h))

-- A packet from the network that belongs to no live flow of the client, whole as it came or made of
-- its fragments, causes nothing to be sent, to the client or to the network.
pub inbound_whole_unsolicited :
    (w : World) (e : Exit) (p : List ℕ)
    → admits e w.now p ≡ false
    → Silent (inbound_whole w e (some p))
unfolding inbound_whole inbound_icmp admits
inbound_whole_unsolicited w e p h = elim (Bool-cases (byte_at p 9 == 1)) [
  | inl i ↦ rw (i, translate_icmp_dead e p w.now (rw i at h)) (refl, refl)
  | inr t ↦ rw t (inbound_keyed_unsolicited w e p (extract_flow_key p) (rw t at h))
]
