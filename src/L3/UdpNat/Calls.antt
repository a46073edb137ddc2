-- ===== src/L3/UdpNat/Calls.antt =====
-- Each call of the NAT keeps its maps and sockets in step.
use openflux_zen_server.Prelude.{
  ℕ, ◌<◌, ◌≡◌, refl, false, List, [], ◌∷◌, none, some, arith, ◌==◌, if◌then◌else◌, length,
  Bool-cases, inl, inr, is_some,
}
use openflux_zen_server.Prelude.Maps.{
  nat_eq, lookup, insert, Keyed, lookup-insert, length-insert, insert-Keyed, Held, Held-delete,
  Keyed-Held,
}
use openflux_zen_server.L3.Packet.{FlowKey, reverse_key, ip_u32}
use openflux_zen_server.L3.Packet.Keys.{same_key, same_key_iff}
use openflux_zen_server.L3.Conntrack.{flow_key_eq}
use openflux_zen_server.L3.UdpNat.{
  UdpMapping, UdpNat, max_udp_mappings, remove, create, expired, expire_each, expire,
}
use openflux_zen_server.L3.UdpNat.Consistency.{Inv, remove-Inv}

-- A mapping's time is set.
abbrev pub stamp : UdpNat → ℕ → UdpMapping → ℕ → UdpNat
stamp n p m t = record n { mappings = insert p (record m { last_seen = t }) n.mappings }

pub stamp-Inv :
    (n : UdpNat) (p t : ℕ) (m : UdpMapping)
    → Inv n
    → lookup p n.mappings ≡ some m
    → Inv (stamp n p m t)
stamp-Inv n p t m v at = record {
  linked = λ k q e.
      let l = v.linked k q e in
      record {
        mapping = if p == q then record m { last_seen = t } else l.mapping;
        held = ground (arith, lookup-insert p q (record m { last_seen = t }) n.mappings, l.held);
        client = ground (arith, l.client, l.held);
        aimed = ground (arith, l.aimed, l.held);
        back = ground (arith, l.back, l.held);
        opened = l.opened;
      };
  back_linked = λ r q e.
      let l = v.back_linked r q e in
      record {
        mapping = if p == q then record m { last_seen = t } else l.mapping;
        held = ground (arith, lookup-insert p q (record m { last_seen = t }) n.mappings, l.held);
        wire = ground (arith, l.wire, l.held);
        forth = ground (arith, l.forth, l.held);
      };
  owned = λ q e. let o = v.owned q e in record { owner = o.owner; leads = o.leads };
  unused = λ q h.
      ground (arith, lookup-insert p q (record m { last_seen = t }) n.mappings, v.unused q h);
  keyed = v.keyed;
  bounded = v.bounded;
}

module _ (n : UdpNat) (key : FlowKey) (port now : ℕ) (v : Inv n)
    (room : length n.forward < max_udp_mappings) (new : lookup key n.forward ≡ none)
    (free : lookup
        (reverse_key (record key { src_ip = ip_u32 n.egress; src_port = port }))
        n.reverse
      ≡ none) where
  pub create-Inv : Inv (create n key port now).0
  unfolding create
  create-Inv =
      let wire : FlowKey = record key { src_ip = ip_u32 n.egress; src_port = port } in
      let m : UdpMapping = record { client = key; wire = wire; last_seen = now } in
      record {
        linked = λ k q e. elim (Bool-cases (same_key key k)) [
          | inl s ↦ record {
            mapping = m;
            held = ground (
              arith,
              lookup-insert key k n.fresh n.forward,
              lookup-insert n.fresh q m n.mappings,
            );
            client = ground (arith, same_key_iff key k);
            aimed = (refl, refl, refl);
            back = ground (
              arith,
              lookup-insert key k n.fresh n.forward,
              lookup-insert (reverse_key wire) (reverse_key wire) n.fresh n.reverse,
              same_key_iff (reverse_key wire) (reverse_key wire),
            );
            opened = ground (
              arith,
              lookup-insert key k n.fresh n.forward,
              lookup-insert n.fresh q tt n.sockets,
            );
          }
          | inr d ↦
              let old : lookup k n.forward ≡ some q =
                ground (arith, lookup-insert key k n.fresh n.forward) in
              let l = v.linked k q old in
              record {
                mapping = l.mapping;
                held = ground (arith, l.held, v.unused q, lookup-insert n.fresh q m n.mappings);
                client = l.client;
                aimed = l.aimed;
                back = ground (
                  arith,
                  l.back,
                  lookup-insert (reverse_key wire) (reverse_key l.mapping.wire) n.fresh n.reverse,
                  same_key_iff (reverse_key wire) (reverse_key l.mapping.wire),
                );
                opened = ground (arith, l.opened, lookup-insert n.fresh q tt n.sockets);
              }
        ];
        back_linked = λ r q e. elim (Bool-cases (same_key (reverse_key wire) r)) [
          | inl s ↦ record {
            mapping = m;
            held = ground (
              arith,
              lookup-insert (reverse_key wire) r n.fresh n.reverse,
              lookup-insert n.fresh q m n.mappings,
            );
            wire = ground (arith, same_key_iff (reverse_key wire) r);
            forth = ground (
              arith,
              lookup-insert (reverse_key wire) r n.fresh n.reverse,
              lookup-insert key key n.fresh n.forward,
              same_key_iff key key,
            );
          }
          | inr d ↦
              let old : lookup r n.reverse ≡ some q =
                ground (arith, lookup-insert (reverse_key wire) r n.fresh n.reverse) in
              let l = v.back_linked r q old in
              record {
                mapping = l.mapping;
                held = ground (arith, l.held, v.unused q, lookup-insert n.fresh q m n.mappings);
                wire = l.wire;
                forth = ground (
                  arith,
                  l.forth,
                  lookup-insert key l.mapping.client n.fresh n.forward,
                  same_key_iff key l.mapping.client,
                );
              }
        ];
        owned = λ q e. elim (Bool-cases (n.fresh == q)) [
          | inl s ↦ record {
            owner = key;
            leads = ground (arith, lookup-insert key key n.fresh n.forward, same_key_iff key key);
          }
          | inr d ↦
              let old : lookup q n.sockets ≡ some tt =
                ground (arith, lookup-insert n.fresh q tt n.sockets) in
              let o = v.owned q old in
              record {
                owner = o.owner;
                leads = ground (
                  arith,
                  o.leads,
                  lookup-insert key o.owner n.fresh n.forward,
                  same_key_iff key o.owner,
                );
              }
        ];
        unused = λ q h. ground (arith, v.unused q, lookup-insert n.fresh q m n.mappings);
        keyed = insert-Keyed key n.fresh n.forward v.keyed;
        bounded = ground (arith, length-insert key n.fresh n.forward);
      }

pub kept :
    (n : UdpNat) (k : FlowKey) (p : ℕ) (m : UdpMapping) (rest : List (FlowKey × ℕ))
    → m.client ≡ k
    → is_some (lookup k rest) ≡ false
    → Held n.forward rest
    → Held (remove n p m).forward rest
unfolding remove
kept n k p m rest c u h = rw c (Held-delete k n.forward rest u h)

-- The loops of `expire` and `Close`, over entries that `forward` still has.
expire_each-Inv :
    (n : UdpNat) (now : ℕ) (rest : List (FlowKey × ℕ))
    → Inv n
    → Keyed rest
    → Held n.forward rest
    → Inv (expire_each n now rest)
unfolding expire_each
expire_each-Inv n now [] v u h = v
expire_each-Inv n now ((k, p) ∷ rest) v u h =
    let l = v.linked k p h.0 in
    let m = l.mapping in
    let here : lookup m.client n.forward ≡ some p = rw l.client h.0 in
    elim (Bool-cases (expired m now)) [
      | inl old ↦
          rw (l.held, old)
            (expire_each-Inv (remove n p m) now rest (remove-Inv n v p m l.held here) u.1
              (kept n k p m rest l.client u.0 h.1))
      | inr fresh ↦ rw (l.held, fresh) (expire_each-Inv n now rest v u.1 h.1)
    ]

pub expire-Inv : (n : UdpNat) (now : ℕ) → Inv n → Inv (expire n now)
unfolding expire
expire-Inv n now v = expire_each-Inv n now n.forward v v.keyed (Keyed-Held n.forward v.keyed)
