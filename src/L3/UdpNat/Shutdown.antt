-- ===== src/L3/UdpNat/Shutdown.antt =====
-- Closing the NAT: the loop over the mappings, and what is left.
use openflux_zen_server.Prelude.{
  ℕ, ◌≡◌, ◌≢◌, refl, ◌∙◌, true, false, List, [], ◌∷◌, none, some, arith, if◌then◌else◌,
  Option-cases, Bool-cases, inl, inr, is_some,
}
use openflux_zen_server.Prelude.Maps.{nat_eq, lookup, Keyed, lookup-delete, Held, Keyed-Held}
use openflux_zen_server.L3.Packet.{FlowKey}
use openflux_zen_server.L3.Packet.Keys.{same_key}
use openflux_zen_server.L3.Conntrack.{flow_key_eq}
use openflux_zen_server.L3.UdpNat.{UdpMapping, UdpNat, remove, remove_each, close}
use openflux_zen_server.L3.UdpNat.Consistency.{Inv, remove-Inv}
use openflux_zen_server.L3.UdpNat.Calls.{kept}

remove_each_step :
    (n : UdpNat) (k : FlowKey) (p : ℕ) (m : UdpMapping) (rest : List (FlowKey × ℕ))
    → lookup p n.mappings ≡ some m
    → remove_each n ((k, p) ∷ rest) ≡ remove_each (remove n p m) rest
unfolding remove_each
remove_each_step n k p m rest at = rw at

-- What the loop of `Close` leaves of `forward`: the keys that it did not go over.
remove_each_lem :
    (n : UdpNat) (rest : List (FlowKey × ℕ)) (j : FlowKey)
    → Inv n
    → Keyed rest
    → Held n.forward rest
    → Inv (remove_each n rest)
      × (lookup j (remove_each n rest).forward
          ≡ (if is_some (lookup j rest) then none else lookup j n.forward))
unfolding lookup
remove_each_lem n [] j v u h = unfold remove_each in (v, refl)
remove_each_lem n ((k, p) ∷ rest) j v u h =
    let l = v.linked k p h.0 in
    let m = l.mapping in
    let here : lookup m.client n.forward ≡ some p = rw l.client h.0 in
    let (keeps, left) =
      remove_each_lem (remove n p m) rest j (remove-Inv n v p m l.held here) u.1
        (kept n k p m rest l.client u.0 h.1) in
    let gone : lookup j (remove n p m).forward
        ≡ (if same_key k j then none else lookup j n.forward) =
      unfold remove in rw l.client (lookup-delete k j n.forward) in
    rw (remove_each_step n k p m rest l.held) (keeps, left ∙ ground (arith, gone))

closed-Inv : (n : UdpNat) → Inv n → Inv (record n { closed = true })
closed-Inv n v = record {
  linked = λ k p e.
      let l = v.linked k p e in
      record {
        mapping = l.mapping;
        held = l.held;
        client = l.client;
        back = l.back;
        aimed = l.aimed;
        opened = l.opened;
      };
  back_linked = λ r p e.
      let l = v.back_linked r p e in
      record { mapping = l.mapping; held = l.held; wire = l.wire; forth = l.forth };
  owned = λ p e. let o = v.owned p e in record { owner = o.owner; leads = o.leads };
  unused = v.unused;
  keyed = v.keyed;
  bounded = v.bounded;
}

-- Every key of `forward` is gone after the loop.
all_gone :
    (n : UdpNat)
    → Inv n
    → (j : FlowKey) → lookup j (remove_each (record n { closed = true }) n.forward).forward ≡ none
all_gone n v j =
    let (keeps, left) =
      remove_each_lem (record n { closed = true }) n.forward j (closed-Inv n v) v.keyed
        (Keyed-Held n.forward v.keyed) in
    left ∙ ground arith

no_back :
    (n : UdpNat)
    → Inv n
    → ((j : FlowKey) → lookup j n.forward ≡ none)
    → (r : FlowKey) → lookup r n.reverse ≡ none
no_back n v gone r = elim (Option-cases (lookup r n.reverse)) [
  | inl e ↦ e
  | inr (p, e) ↦ let l = v.back_linked r p e in cc (gone l.mapping.client, l.forth)
]

pub close-Inv : (n : UdpNat) → Inv n → Inv (close n)
unfolding close
close-Inv n v = elim (Bool-cases n.closed) [
  | inl done ↦ rw done (closed-Inv n v)
  | inr open_still ↦
      rw open_still
        (remove_each_lem (record n { closed = true }) n.forward
          (record { src_ip = 0; dst_ip = 0; src_port = 0; dst_port = 0; proto = 0 })
          (closed-Inv n v) v.keyed (Keyed-Held n.forward v.keyed)).0
]

-- `Close` ends every mapping and every reserved socket: no client key leads anywhere, no reply is
-- translated, and no socket is open.
pub close_ends :
    (n : UdpNat) (k : FlowKey) (p : ℕ)
    → Inv n
    → n.closed ≡ false
    → (lookup k (close n).forward ≡ none)
      × (lookup k (close n).reverse ≡ none)
      × (lookup p (close n).sockets ≢ some tt)
unfolding close
close_ends n k p v o =
    let n' : UdpNat = record n { closed = true } in
    let end = remove_each n' n.forward in
    let gone : (j : FlowKey) → lookup j end.forward ≡ none = λ j. all_gone n v j in
    let keeps =
      (remove_each_lem n' n.forward k (closed-Inv n v) v.keyed (Keyed-Held n.forward v.keyed)).0 in
    rw o
      (gone k, no_back end keeps gone k, λ e. let w = keeps.owned p e in cc (gone w.owner, w.leads))
