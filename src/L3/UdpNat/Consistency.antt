-- ===== src/L3/UdpNat/Consistency.antt =====
-- The two maps of the NAT and its sockets stay in step.
use openflux_zen_server.Prelude.{ℕ, ◌≤◌, ◌≡◌, ◌≢◌, refl, List, none, some, arith, length}
use openflux_zen_server.Prelude.Maps.{
  nat_eq, lookup, Keyed, lookup-delete, length-delete, delete-Keyed,
}
use openflux_zen_server.L3.Packet.{FlowKey, reverse_key}
use openflux_zen_server.L3.Packet.Keys.{same_key_iff}
use openflux_zen_server.L3.Conntrack.{flow_key_eq}
use openflux_zen_server.L3.UdpNat.{UdpMapping, UdpNat, new_udp_nat, max_udp_mappings, remove}

-- The remote end of the mapping's wire key is the one that its client key addresses.
abbrev pub IsAimed : UdpMapping → Type 0
IsAimed m =
    (m.wire.dst_ip ≡ m.client.dst_ip)
    × (m.wire.dst_port ≡ m.client.dst_port)
    × (m.wire.proto ≡ m.client.proto)

-- The mapping that a client key leads to: it is that key's, its wire key has the same remote end and
-- leads back to it, and its socket is open.
pub record Linked (n : UdpNat) (k : FlowKey) (p : ℕ) : Type 0 where
  pub mapping : UdpMapping
  pub held : lookup p n.mappings ≡ some mapping
  pub client : mapping.client ≡ k
  pub aimed : IsAimed mapping
  pub back : lookup (reverse_key mapping.wire) n.reverse ≡ some p
  pub opened : lookup p n.sockets ≡ some tt

-- The mapping that a reply's key leads to: the key is its wire key reversed, and its client key
-- leads to it.
pub record BackLinked (n : UdpNat) (r : FlowKey) (p : ℕ) : Type 0 where
  pub mapping : UdpMapping
  pub held : lookup p n.mappings ≡ some mapping
  pub wire : reverse_key mapping.wire ≡ r
  pub forth : lookup mapping.client n.forward ≡ some p

-- The client key whose mapping holds an open socket.
pub record Owned (n : UdpNat) (p : ℕ) : Type 0 where
  pub owner : FlowKey
  pub leads : lookup owner n.forward ≡ some p

pub record Inv (n : UdpNat) : Type 0 where
  pub linked : (k : FlowKey) (p : ℕ) → lookup k n.forward ≡ some p → Linked n k p
  pub back_linked : (r : FlowKey) (p : ℕ) → lookup r n.reverse ≡ some p → BackLinked n r p
  pub owned : (p : ℕ) → lookup p n.sockets ≡ some tt → Owned n p
  pub unused : (p : ℕ) → n.fresh ≤ p → lookup p n.mappings ≡ none
  pub keyed : Keyed n.forward
  pub bounded : length n.forward ≤ max_udp_mappings

pub new_udp_nat-Inv : (egress : List ℕ) → Inv (new_udp_nat egress)
unfolding new_udp_nat lookup
new_udp_nat-Inv egress = record {
  linked = λ k p e. cc;
  back_linked = λ r p e. cc;
  owned = λ p e. cc;
  unused = λ p h. refl;
  keyed = tt;
  bounded = omega arith;
}

module _ (n : UdpNat) (v : Inv n) (p : ℕ) (m : UdpMapping) (at : lookup p n.mappings ≡ some m)
    (here : lookup m.client n.forward ≡ some p) where
  private_link : lookup (reverse_key m.wire) n.reverse ≡ some p
  private_link =
      let l = v.linked m.client p here in
      let same : l.mapping ≡ m = cc (l.held, at) in rw (← same) l.back

  remove-Linked :
      (k : FlowKey) (q : ℕ) → lookup k (remove n p m).forward ≡ some q → Linked (remove n p m) k q
  unfolding remove
  remove-Linked k q e =
      let old : lookup k n.forward ≡ some q = ground (arith, lookup-delete m.client k n.forward) in
      let l = v.linked k q old in
      let own = l.mapping in
      let other : q ≢ p = λ s.
        ground
          (arith, lookup-delete m.client k n.forward, l.held, l.client, same_key_iff m.client k) in
      record {
        mapping = own;
        held = l.held;
        client = l.client;
        aimed = l.aimed;
        back = ground (
          arith,
          lookup-delete (reverse_key m.wire) (reverse_key own.wire) n.reverse,
          l.back,
          private_link,
          same_key_iff (reverse_key m.wire) (reverse_key own.wire),
        );
        opened = ground (arith, lookup-delete p q n.sockets, l.opened);
      }

  remove-BackLinked :
      (r : FlowKey) (q : ℕ)
      → lookup r (remove n p m).reverse ≡ some q
      → BackLinked (remove n p m) r q
  unfolding remove
  remove-BackLinked r q e =
      let old : lookup r n.reverse ≡ some q =
        ground (arith, lookup-delete (reverse_key m.wire) r n.reverse) in
      let l = v.back_linked r q old in
      let own = l.mapping in
      let other : q ≢ p = λ s. ground (
        arith,
        lookup-delete (reverse_key m.wire) r n.reverse,
        l.held,
        l.wire,
        same_key_iff (reverse_key m.wire) r,
      ) in
      record {
        mapping = own;
        held = l.held;
        wire = l.wire;
        forth = ground (
          arith,
          lookup-delete m.client own.client n.forward,
          l.forth,
          same_key_iff m.client own.client,
        );
      }

  remove-Owned : (q : ℕ) → lookup q (remove n p m).sockets ≡ some tt → Owned (remove n p m) q
  unfolding remove
  remove-Owned q e =
      let old : lookup q n.sockets ≡ some tt = ground (arith, lookup-delete p q n.sockets) in
      let o = v.owned q old in
      record {
        owner = o.owner;
        leads = ground (
          arith,
          lookup-delete m.client o.owner n.forward,
          lookup-delete p q n.sockets,
          o.leads,
          same_key_iff m.client o.owner,
        );
      }

  pub remove-Inv : Inv (remove n p m)
  remove-Inv = record {
    linked = remove-Linked;
    back_linked = remove-BackLinked;
    owned = remove-Owned;
    unused = unfold remove in v.unused;
    keyed = unfold remove in delete-Keyed m.client n.forward v.keyed;
    bounded = unfold remove in omega (arith, length-delete m.client n.forward, v.bounded);
  }
