-- ===== src/L3/Reassembly/Limits.antt =====
-- The limits of the reassembler, and the account of its bytes.
use openflux_zen_server.Prelude.{
  ℕ, ◌+◌, ◌≤◌, ◌<◌, ◌≡◌, refl, Bool, true, false, not, List, [], ◌∷◌, Option, none, some, arith,
  ltb, leb, ◌==◌, if◌then◌else◌, length, length-append, drop,
}
use openflux_zen_server.Prelude.Maps.{
  lookup, insert, delete, delete_if, Keyed, lookup-insert, length-insert, length-delete,
  length-delete_if, insert-Keyed, delete-Keyed, delete_if-Keyed,
}
use openflux_zen_server.L3.Checksum.{header_length}
use openflux_zen_server.L3.Packet.{is_fragmented_ipv4}
use openflux_zen_server.L3.Reassembly.{
  FragmentKey, same_fragment_key_iff, fragment_key_eq, FragmentSet, Reassembler, new_reassembler,
  fragment_byte_limit, fragment_flow_limit, fragment_part_limit, fragment_key, fragment_offset,
  bad_fragment, is_old, freed, purge, remove, conflicts, extend, finish, place, new_set,
  place_found, add, total_bytes,
}

-- The bytes that the sets of a map hold.
abbrev pub sum_sizes : List (FragmentKey × FragmentSet) → ℕ
sum_sizes [] = 0
sum_sizes ((k, s) ∷ rest) = s.size + sum_sizes rest

abbrev pub FewParts : List (FragmentKey × FragmentSet) → Type 0
FewParts [] = Unit {0}
FewParts ((k, s) ∷ rest) = (length s.parts ≤ fragment_part_limit) × FewParts rest

abbrev pub size_of : Option FragmentSet → ℕ
size_of none = 0
size_of (some s) = s.size

pub record Inv (r : Reassembler) : Type 0 where
  pub keyed : Keyed r.sets
  pub few : length r.sets ≤ fragment_flow_limit
  pub parts : FewParts r.sets
  pub account : r.held ≡ sum_sizes r.sets
  pub bounded : r.held ≤ fragment_byte_limit

sum_sizes-insert :
    (k : FragmentKey) (s : FragmentSet) (m : List (FragmentKey × FragmentSet))
    → sum_sizes (insert k s m) + size_of (lookup k m) ≡ sum_sizes m + s.size
unfolding insert lookup
sum_sizes-insert k s [] = omega arith
sum_sizes-insert k s ((j, t) ∷ m) = ground (arith, sum_sizes-insert k s m)

sum_sizes-delete-none :
    (k : FragmentKey) (m : List (FragmentKey × FragmentSet)) → lookup k m ≡ none → delete k m ≡ m
unfolding delete lookup
sum_sizes-delete-none k [] h = refl
sum_sizes-delete-none k ((j, t) ∷ m) h = ground (arith, sum_sizes-delete-none k m)

sum_sizes-delete :
    (k : FragmentKey) (m : List (FragmentKey × FragmentSet))
    → Keyed m
    → sum_sizes (delete k m) + size_of (lookup k m) ≡ sum_sizes m
unfolding delete lookup
sum_sizes-delete k [] u = omega arith
sum_sizes-delete k ((j, t) ∷ m) u =
    ground (arith, sum_sizes-delete k m u.1, sum_sizes-delete-none k m, same_fragment_key_iff j k)

sum_sizes-purge :
    (now : ℕ) (m : List (FragmentKey × FragmentSet))
    → sum_sizes (delete_if (is_old now) m) + freed now m ≡ sum_sizes m
unfolding delete_if freed
sum_sizes-purge now [] = omega arith
sum_sizes-purge now ((j, t) ∷ m) = ground (arith, sum_sizes-purge now m)

FewParts-insert :
    (k : FragmentKey) (s : FragmentSet) (m : List (FragmentKey × FragmentSet))
    → FewParts m
    → length s.parts ≤ fragment_part_limit
    → FewParts (insert k s m)
unfolding insert
FewParts-insert k s [] h hs = (hs, tt)
FewParts-insert k s ((j, t) ∷ m) h hs = ground (arith, FewParts-insert k s m h.1 hs)

FewParts-delete :
    (k : FragmentKey) (m : List (FragmentKey × FragmentSet)) → FewParts m → FewParts (delete k m)
unfolding delete
FewParts-delete k [] h = tt
FewParts-delete k ((j, t) ∷ m) h = ground (arith, FewParts-delete k m h.1)

FewParts-purge :
    (now : ℕ) (m : List (FragmentKey × FragmentSet))
    → FewParts m
    → FewParts (delete_if (is_old now) m)
unfolding delete_if
FewParts-purge now [] h = tt
FewParts-purge now ((j, t) ∷ m) h = ground (arith, FewParts-purge now m h.1)

purge-Inv : (r : Reassembler) (now : ℕ) → Inv r → Inv (purge r now)
unfolding purge
purge-Inv r now v = record {
  keyed = delete_if-Keyed (is_old now) r.sets v.keyed;
  few = omega (arith, length-delete_if (is_old now) r.sets, v.few);
  parts = FewParts-purge now r.sets v.parts;
  account = omega (arith, sum_sizes-purge now r.sets, v.account);
  bounded = omega (arith, v.bounded);
}

remove-Inv :
    (r : Reassembler) (k : FragmentKey) (s : FragmentSet)
    → Inv r
    → lookup k r.sets ≡ some s
    → Inv (remove r k s)
unfolding remove
remove-Inv r k s v at = record {
  keyed = delete-Keyed k r.sets v.keyed;
  few = omega (arith, length-delete k r.sets, v.few);
  parts = FewParts-delete k r.sets v.parts;
  account = ground (arith, sum_sizes-delete k r.sets v.keyed, v.account);
  bounded = omega (arith, v.bounded);
}

length-extend : (s : FragmentSet) (p : List ℕ) → length (extend s p).parts ≡ length s.parts + 1
unfolding extend
length-extend s p =
    length-append s.parts
      (record { offset = fragment_offset p; bytes = drop (header_length p) p } ∷ [])

extend_facts :
    (r : Reassembler) (s : FragmentSet) (p : List ℕ)
    → conflicts r s p ≡ false
    → (length (extend s p).parts ≤ fragment_part_limit)
      × (r.held + length p ≤ fragment_byte_limit)
      × ((extend s p).size ≡ s.size + length p)
unfolding conflicts
extend_facts r s p e =
    let size : (extend s p).size ≡ s.size + length p = unfold extend in refl in
    ground (arith, length-extend s p)

if_pair-Inv :
    (b : Bool) (x y : Reassembler × Option (List ℕ))
    → (b ≡ true → Inv x.0)
    → (b ≡ false → Inv y.0)
    → Inv (if b then x else y).0
if_pair-Inv true x y hx hy = hx refl
if_pair-Inv false x y hx hy = hy refl

finish-Inv :
    (r : Reassembler) (k : FragmentKey) (s : FragmentSet) (end : Option ℕ)
    (header : Option (List ℕ))
    → Inv r
    → lookup k r.sets ≡ some s
    → Inv (finish r k s end header).0
unfolding finish
finish-Inv r k s none header v at = v
finish-Inv r k s (some end) none v at = v
finish-Inv r k s (some end) (some header) v at =
    if_pair-Inv (ltb 65535 (end + length header)) _ _ (λ _. remove-Inv r k s v at)
      (λ _. if_pair-Inv (total_bytes s.parts == end) _ _ (λ _. remove-Inv r k s v at) (λ _. v))

-- The reassembler with a set extended by a fragment that it has room for.
extended-Inv :
    (r : Reassembler) (k : FragmentKey) (s : FragmentSet) (p : List ℕ)
    → Inv r
    → lookup k r.sets ≡ some s
    → conflicts r s p ≡ false
    → Inv (record { sets = insert k (extend s p) r.sets; held = r.held + length p })
extended-Inv r k s p v at e =
    let (parts, room, size) = extend_facts r s p e in
    record {
      keyed = insert-Keyed k (extend s p) r.sets v.keyed;
      few = ground (arith, length-insert k (extend s p) r.sets, v.few);
      parts = FewParts-insert k (extend s p) r.sets v.parts parts;
      account = ground (arith, sum_sizes-insert k (extend s p) r.sets, v.account);
      bounded = room;
    }

place-Inv :
    (r : Reassembler) (k : FragmentKey) (s : FragmentSet) (p : List ℕ)
    → Inv r
    → lookup k r.sets ≡ some s
    → Inv (place r k s p).0
unfolding place
place-Inv r k s p v at =
    if_pair-Inv (conflicts r s p) _ _ (λ _. remove-Inv r k s v at)
      (λ e.
        finish-Inv _ k (extend s p) (extend s p).end (extend s p).header
          (extended-Inv r k s p v at e)
          (ground (arith, lookup-insert k k (extend s p) r.sets, same_fragment_key_iff k k)))

started-Inv :
    (r : Reassembler) (k : FragmentKey) (now : ℕ)
    → Inv r
    → lookup k r.sets ≡ none
    → length r.sets < fragment_flow_limit
    → Inv (record r { sets = insert k (new_set now) r.sets })
started-Inv r k now v at room = record {
  keyed = insert-Keyed k (new_set now) r.sets v.keyed;
  few = ground (arith, length-insert k (new_set now) r.sets, v.few);
  parts = FewParts-insert k (new_set now) r.sets v.parts (omega arith);
  account = ground (arith, sum_sizes-insert k (new_set now) r.sets, v.account);
  bounded = v.bounded;
}

place_found-Inv :
    (r : Reassembler) (k : FragmentKey) (p : List ℕ) (now : ℕ) (found : Option FragmentSet)
    → Inv r
    → lookup k r.sets ≡ found
    → Inv (place_found r k p now found).0
unfolding place_found
place_found-Inv r k p now (some s) v e = place-Inv r k s p v e
place_found-Inv r k p now none v e =
    if_pair-Inv (leb fragment_flow_limit (length r.sets)) _ _ (λ _. v)
      (λ room.
        place-Inv (record r { sets = insert k (new_set now) r.sets }) k (new_set now) p
          (started-Inv r k now v e (ground arith))
          (ground (arith, lookup-insert k k (new_set now) r.sets, same_fragment_key_iff k k)))

-- Every call of `add` keeps the account of the bytes exact, the datagrams at most 64, the parts of
-- each at most 128, and the bytes held at most 4 MiB, whatever packet arrives.
pub add-Inv : (r : Reassembler) (p : List ℕ) (now : ℕ) → Inv r → Inv (add r p now).0
unfolding add
add-Inv r p now v =
    let ready = purge r now in
    if_pair-Inv (not (is_fragmented_ipv4 p)) _ _ (λ _. v)
      (λ _.
        if_pair-Inv (bad_fragment p) _ _ (λ _. v)
          (λ _.
            place_found-Inv ready (fragment_key p) p now (lookup (fragment_key p) ready.sets)
              (purge-Inv r now v) refl))

pub new_reassembler-Inv : Inv new_reassembler
unfolding new_reassembler
new_reassembler-Inv = record {
  keyed = tt;
  few = omega arith;
  parts = tt;
  account = refl;
  bounded = omega arith;
}
