-- ===== src/L3/UdpNat/Flows.antt =====
-- Packets through the NAT: sending, replies, and any run of calls.
use openflux_zen_server.Prelude.{
  ℕ, ◌<◌, ◌≡◌, ◌≢◌, refl, Bool, true, false, List, [], ◌∷◌, Option, none, some, arith, leb,
  if◌then◌else◌, length, Option-cases, Bool-cases, inl, inr,
}
use openflux_zen_server.Prelude.Maps.{nat_eq, lookup, lookup-insert, lookup-delete}
use openflux_zen_server.L3.Packet.{FlowKey, reverse_key, ip_u32}
use openflux_zen_server.L3.Packet.Keys.{same_key_iff}
use openflux_zen_server.L3.Conntrack.{flow_key_eq}
use openflux_zen_server.L3.UdpNat.{
  UdpMapping, UdpNat, max_udp_mappings, remove, create, expired, expire, find, remove_if_expired,
  swept, send_reserved, SendError, Sent, settle, expire_each, transmit, send_new, send_found,
  reply_found, send, translate_reply,
}
use openflux_zen_server.L3.UdpNat.Consistency.{Inv, remove-Inv}
use openflux_zen_server.L3.UdpNat.Calls.{stamp-Inv, create-Inv, expire-Inv}

if-Inv : (b : Bool) (x y : Sent) → Inv x.nat → Inv y.nat → Inv (if b then x else y).nat
if-Inv true x y hx hy = hx
if-Inv false x y hx hy = hy

if_pair-Inv :
    (b : Bool) (x y : UdpNat × Option (List ℕ)) → Inv x.0 → Inv y.0 → Inv (if b then x else y).0
if_pair-Inv true x y hx hy = hx
if_pair-Inv false x y hx hy = hy

-- The host hands out a port that no reserved socket still holds.
abbrev pub IsFree : UdpNat → ℕ → Type 0
IsFree n port =
    (k : FlowKey) (p : ℕ) (m : UdpMapping)
    → lookup k n.forward ≡ some p
    → lookup p n.mappings ≡ some m
    → m.wire.src_port ≢ port

find_found :
    (table : List (FlowKey × ℕ)) (k : FlowKey) (mappings : List (ℕ × UdpMapping)) (p : ℕ)
    (m : UdpMapping)
    → find table k mappings ≡ some (p, m)
    → (lookup k table ≡ some p) × (lookup p mappings ≡ some m)
unfolding find
find_found table k mappings p m e = ground arith

find-none :
    (n : UdpNat) (k : FlowKey)
    → Inv n
    → find n.forward k n.mappings ≡ none
    → lookup k n.forward ≡ none
unfolding find
find-none n k v e = elim (Option-cases (lookup k n.forward)) [
  | inl h ↦ h
  | inr (p, h) ↦ let l = v.linked k p h in ground (arith, l.held)
]

settle-Inv :
    (n : UdpNat) (p : ℕ) (m : UdpMapping) (created : Bool) (out : List ℕ) (later : ℕ)
    (answer : Option SendError)
    → Inv n
    → lookup p n.mappings ≡ some m
    → lookup m.client n.forward ≡ some p
    → Inv (settle n p m created out later answer).nat
unfolding settle
settle-Inv n p m true out later (some e) v at here = remove-Inv n v p m at here
settle-Inv n p m false out later (some e) v at here = v
settle-Inv n p m true out later none v at here = stamp-Inv n p later m v at
settle-Inv n p m false out later none v at here = stamp-Inv n p later m v at

swept-Inv : (n : UdpNat) (now : ℕ) → Inv n → Inv (swept n now)
unfolding swept
swept-Inv n now v = elim (Bool-cases (leb max_udp_mappings (length n.forward))) [
  | inl full ↦ rw full (expire-Inv n now v)
  | inr room ↦ rw room v
]

remove_if_expired-none :
    (n : UdpNat) (now p : ℕ) (found : Option UdpMapping) (k : FlowKey)
    → lookup k n.forward ≡ none
    → lookup k (remove_if_expired n now p found).forward ≡ none
unfolding remove_if_expired remove
remove_if_expired-none n now p none k h = h
remove_if_expired-none n now p (some m) k h = ground (arith, lookup-delete m.client k n.forward)

expire_each-none :
    (n : UdpNat) (now : ℕ) (rest : List (FlowKey × ℕ)) (k : FlowKey)
    → lookup k n.forward ≡ none
    → lookup k (expire_each n now rest).forward ≡ none
unfolding expire_each
expire_each-none n now [] k h = h
expire_each-none n now ((j, p) ∷ rest) k h =
    expire_each-none (remove_if_expired n now p (lookup p n.mappings)) now rest k
      (remove_if_expired-none n now p (lookup p n.mappings) k h)

swept-none :
    (n : UdpNat) (now : ℕ) (k : FlowKey)
    → lookup k n.forward ≡ none
    → lookup k (swept n now).forward ≡ none
unfolding swept expire
swept-none n now k h = ground (arith, expire_each-none n now n.forward k h)

free_reverse :
    (n : UdpNat) (wire : FlowKey)
    → Inv n
    → IsFree n wire.src_port
    → lookup (reverse_key wire) n.reverse ≡ none
unfolding reverse_key
free_reverse n wire v free = elim (Option-cases (lookup (reverse_key wire) n.reverse)) [
  | inl e ↦ e
  | inr (p, e) ↦
      let l = v.back_linked (reverse_key wire) p e in
      absurd (free l.mapping.client p l.mapping l.forth l.held (ground (arith, l.wire)))
]

send_reserved-Inv :
    (n : UdpNat) (pkt : List ℕ) (key : FlowKey) (now : ℕ) (reserved : Option ℕ)
    (network : List ℕ → Option SendError) (later : ℕ)
    → Inv n
    → length n.forward < max_udp_mappings
    → lookup key n.forward ≡ none
    → ((port : ℕ) → reserved ≡ some port → IsFree n port)
    → Inv (send_reserved n pkt key now reserved network later).nat
unfolding send_reserved transmit create
send_reserved-Inv n pkt key now none network later v room new free = v
send_reserved-Inv n pkt key now (some port) network later v room new free =
    let wire : FlowKey = record key { src_ip = ip_u32 n.egress; src_port = port } in
    let m : UdpMapping = record { client = key; wire = wire; last_seen = now } in
    let w = create-Inv n key port now v room new (free_reverse n wire v (free port refl)) in
    settle-Inv (create n key port now).0 n.fresh m true _ later _ w
      (ground (arith, lookup-insert n.fresh n.fresh m n.mappings))
      (ground (arith, lookup-insert key key n.fresh n.forward, same_key_iff key key))

send_new-Inv :
    (n : UdpNat) (pkt : List ℕ) (key : FlowKey) (now : ℕ) (reserved : Option ℕ)
    (network : List ℕ → Option SendError) (later : ℕ)
    → Inv n
    → lookup key n.forward ≡ none
    → ((port : ℕ) → reserved ≡ some port → IsFree (swept n now) port)
    → Inv (send_new n pkt key now reserved network later).nat
unfolding send_new
send_new-Inv n pkt key now reserved network later v new free =
    let ready = swept n now in
    let w = swept-Inv n now v in
    elim (Bool-cases (leb max_udp_mappings (length ready.forward))) [
      | inl full ↦ rw full w
      | inr room ↦ rw room (
          send_reserved-Inv ready pkt key now reserved network later w (ground arith)
            (swept-none n now key new) free)
    ]

-- The NAT when `send` asks for a port: its own expired mapping is gone, and it is swept if full.
abbrev pub at_reserve : UdpNat → ℕ → Option (ℕ × UdpMapping) → UdpNat
at_reserve n now none = swept n now
at_reserve n now (some (p, m)) = swept (remove n p m) now

-- A mapping that a client key leads to.
pub links_forth :
    (n : UdpNat) (k : FlowKey) (p : ℕ) (m : UdpMapping)
    → Inv n
    → find n.forward k n.mappings ≡ some (p, m)
    → (lookup p n.mappings ≡ some m) × (m.client ≡ k) × (lookup m.client n.forward ≡ some p)
links_forth n k p m v e =
    let (leads, at) = find_found n.forward k n.mappings p m e in
    let l = v.linked k p leads in
    let own : m.client ≡ k = ground (arith, l.held, l.client) in (at, own, rw own leads)

removed_none : (n : UdpNat) (p : ℕ) (m : UdpMapping) → lookup m.client (remove n p m).forward ≡ none
unfolding remove
removed_none n p m =
    ground (arith, lookup-delete m.client m.client n.forward, same_key_iff m.client m.client)

send_found-Inv :
    (n : UdpNat) (pkt : List ℕ) (key : FlowKey) (now : ℕ) (reserved : Option ℕ)
    (network : List ℕ → Option SendError) (later : ℕ) (found : Option (ℕ × UdpMapping))
    → Inv n
    → find n.forward key n.mappings ≡ found
    → ((port : ℕ) → reserved ≡ some port → IsFree (at_reserve n now found) port)
    → Inv (send_found n pkt key now reserved network later found).nat
unfolding send_found transmit
send_found-Inv n pkt key now reserved network later none v e free =
    send_new-Inv n pkt key now reserved network later v (find-none n key v e) free
send_found-Inv n pkt key now reserved network later (some (p, m)) v e free =
    let (at, own, here) = links_forth n key p m v e in
    if-Inv (expired m now) _ _
      (send_new-Inv (remove n p m) pkt key now reserved network later (remove-Inv n v p m at here)
        (rw (← own) (removed_none n p m)) free)
      (settle-Inv n p m false _ later _ v at here)

-- `send` keeps the maps and sockets in step, on every branch, if the host hands out only ports that
-- no reserved socket holds at that moment.
pub send-Inv :
    (n : UdpNat) (pkt : List ℕ) (key : FlowKey) (now : ℕ) (reserved : Option ℕ)
    (network : List ℕ → Option SendError) (later : ℕ)
    → Inv n
    → ((port : ℕ)
        → reserved ≡ some port
        → IsFree (at_reserve n now (find n.forward key n.mappings)) port)
    → Inv (send n pkt key now reserved network later).nat
unfolding send
send-Inv n pkt key now reserved network later v free = if-Inv n.closed _ _ v (
    send_found-Inv n pkt key now reserved network later (find n.forward key n.mappings) v refl free)

-- A mapping that a reply's key leads to.
pub links_back :
    (n : UdpNat) (r : FlowKey) (p : ℕ) (m : UdpMapping)
    → Inv n
    → find n.reverse r n.mappings ≡ some (p, m)
    → (lookup p n.mappings ≡ some m)
      × (reverse_key m.wire ≡ r)
      × (lookup m.client n.forward ≡ some p)
links_back n r p m v e =
    let (leads, at) = find_found n.reverse r n.mappings p m e in
    let l = v.back_linked r p leads in
    (at, ground (arith, l.held, l.wire), ground (arith, l.held, l.forth))

reply_found-Inv :
    (n : UdpNat) (pkt : List ℕ) (r : FlowKey) (now : ℕ) (found : Option (ℕ × UdpMapping))
    → Inv n
    → find n.reverse r n.mappings ≡ found
    → Inv (reply_found n pkt now found).0
unfolding reply_found
reply_found-Inv n pkt r now none v e = v
reply_found-Inv n pkt r now (some (p, m)) v e =
    let (at, own, here) = links_back n r p m v e in
    if_pair-Inv (expired m now) _ _ (remove-Inv n v p m at here) (stamp-Inv n p now m v at)

pub translate_reply-Inv :
    (n : UdpNat) (pkt : List ℕ) (key : FlowKey) (now : ℕ)
    → Inv n
    → Inv (translate_reply n pkt key now).0
unfolding translate_reply
translate_reply-Inv n pkt key now v =
    if_pair-Inv n.closed _ _ v
      (reply_found-Inv n pkt key now (find n.reverse key n.mappings) v refl)
