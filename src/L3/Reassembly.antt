-- ===== src/L3/Reassembly.antt =====
-- tunnel/l3/reassembly.go: IPv4 reassembly with a fixed lifetime and limits on the datagrams, the
-- parts of each and the bytes held. Time is an argument in nanoseconds. `end: -1` and a nil header
-- are `none`. Where the source removes a datagram and returns, whatever the reason, the tests stand
-- in one condition here, in the source's order.
pub mod Limits
use openflux_zen_server.Prelude.{
  ℕ, zero, suc, ◌-◌, ◌+◌, ◌*◌, ◌/◌, ◌%◌, Bool, true, false, not, ◌&&◌, ◌||◌, List, [], ◌∷◌, ◌++◌,
  Option, none, some, ltb, leb, ◌==◌, if◌then◌else◌, length, take, drop, set, replicate, ◌≡◌, ◌↔◌,
  arith, put16, byte_at, be16, be32,
}
use openflux_zen_server.Prelude.Maps.{Eq, lookup, insert, delete, delete_if}
use openflux_zen_server.L3.Checksum.{header_length, ones_complement_sum, fix_ip_checksum}
use openflux_zen_server.L3.Packet.{is_fragmented_ipv4}

abbrev pub fragment_lifetime : ℕ
fragment_lifetime = 30_000_000_000

abbrev pub fragment_byte_limit : ℕ
fragment_byte_limit = 4194304

abbrev pub fragment_flow_limit : ℕ
fragment_flow_limit = 64

abbrev pub fragment_part_limit : ℕ
fragment_part_limit = 128

pub record FragmentKey : Type 0 where
  pub src : ℕ
  pub dst : ℕ
  pub id : ℕ
  pub proto : ℕ

abbrev pub same_fragment_key : FragmentKey → FragmentKey → Bool
same_fragment_key j k = j.src == k.src && (j.dst == k.dst && (j.id == k.id && j.proto == k.proto))

pub same_fragment_key_iff : (j k : FragmentKey) → (same_fragment_key j k ≡ true) ↔ (j ≡ k)
same_fragment_key_iff j k = ground arith

instance abbrev pub fragment_key_eq : Eq FragmentKey
fragment_key_eq = record { beq = same_fragment_key; beq_iff = same_fragment_key_iff }

pub record FragmentPart : Type 0 where
  pub offset : ℕ
  pub bytes : List ℕ

pub record FragmentSet : Type 0 where
  pub born : ℕ
  pub header : Option (List ℕ)
  pub parts : List FragmentPart
  pub end : Option ℕ
  pub size : ℕ

pub record Reassembler : Type 0 where
  pub sets : List (FragmentKey × FragmentSet)
  pub held : ℕ

pub new_reassembler : Reassembler
new_reassembler = record { sets = []; held = 0 }

-- The fields of a fragment: its offset in bytes, whether more follow, and its payload's size.
abbrev pub fragment_offset : List ℕ → ℕ
fragment_offset p = be16 p 6 % 8192 * 8

abbrev pub more_fragments : List ℕ → Bool
more_fragments p = not (be16 p 6 / 8192 % 2 == 0)

abbrev pub payload_size : List ℕ → ℕ
payload_size p = length p - header_length p

pub fragment_key : List ℕ → FragmentKey
fragment_key p = record { src = be32 p 12; dst = be32 p 16; id = be16 p 4; proto = byte_at p 9 }

-- The first test of `add`: reserved flag or "don't fragment", no payload, a payload that is no
-- multiple of eight before the last fragment, an end past the greatest packet, a bad checksum.
pub bad_fragment : List ℕ → Bool
bad_fragment p =
    not (be16 p 6 / 16384 == 0)
    || (payload_size p == 0
        || (more_fragments p && not (payload_size p % 8 == 0)
            || (ltb (65535 - 20) (fragment_offset p + payload_size p)
                || not (ones_complement_sum (take (header_length p) p) == 0))))

is_old : ℕ → FragmentKey → FragmentSet → Bool
is_old now k s = leb fragment_lifetime (now - s.born)

-- The bytes that the loop over the old datagrams gives back.
freed : ℕ → List (FragmentKey × FragmentSet) → ℕ
freed now [] = 0
freed now ((k, s) ∷ rest) = if is_old now k s then s.size + freed now rest else freed now rest

pub purge : Reassembler → ℕ → Reassembler
unfolding is_old freed
purge r now = record { sets = delete_if (is_old now) r.sets; held = r.held - freed now r.sets }

-- `remove`, of a key that has the set `s`.
pub remove : Reassembler → FragmentKey → FragmentSet → Reassembler
remove r k s = record { sets = delete k r.sets; held = r.held - s.size }

-- A part that shares a byte with [off, off + size).
overlaps : ℕ → ℕ → List FragmentPart → Bool
overlaps off size [] = false
overlaps off size (part ∷ rest) =
    ltb off (part.offset + length part.bytes) && ltb part.offset (off + size)
    || overlaps off size rest

-- A part that ends at `stop` or after it.
reaches : ℕ → List FragmentPart → Bool
reaches stop [] = false
reaches stop (part ∷ rest) = leb stop (part.offset + length part.bytes) || reaches stop rest

-- The test against an end that is known.
past_end : Option ℕ → ℕ → Bool → Bool
past_end none stop more = false
past_end (some end) stop more =
    ltb end stop || (not more && not (stop == end) || more && leb end stop)

-- The reasons to give a datagram up.
pub conflicts : Reassembler → FragmentSet → List ℕ → Bool
unfolding overlaps reaches past_end
conflicts r s p =
    let off = fragment_offset p in
    let size = payload_size p in
    let more = more_fragments p in
    leb fragment_part_limit (length s.parts)
    || ltb fragment_byte_limit (r.held + length p)
    || (overlaps off size s.parts
        || (past_end s.end (off + size) more || not more && reaches (off + size) s.parts))

-- The set with the fragment in it.
pub extend : FragmentSet → List ℕ → FragmentSet
extend s p =
    let off = fragment_offset p in
    record {
      born = s.born;
      header = if off == 0 then some (take (header_length p) p) else s.header;
      parts = s.parts ++ (record { offset = off; bytes = drop (header_length p) p } ∷ []);
      end = if more_fragments p then s.end else some (off + payload_size p);
      size = s.size + length p;
    }

pub total_bytes : List FragmentPart → ℕ
total_bytes [] = 0
total_bytes (part ∷ rest) = length part.bytes + total_bytes rest

-- `copy(out[at:], bytes)`
pub overwrite : List ℕ → ℕ → List ℕ → List ℕ
overwrite out at [] = out
overwrite out at (b ∷ bs) = overwrite (set out at b) (suc at) bs

pub lay_parts : List ℕ → ℕ → List FragmentPart → List ℕ
lay_parts out base [] = out
lay_parts out base (part ∷ rest) =
    lay_parts (overwrite out (base + part.offset) part.bytes) base rest

-- The datagram made of a complete set: the first fragment's header with the fragment field cleared,
-- the new length and a new checksum, and the parts at their places.
pub assemble : List ℕ → ℕ → List FragmentPart → List ℕ
assemble header end parts =
    let size = length header + end in
    let laid = lay_parts (overwrite (replicate size 0) 0 header) (length header) parts in
    fix_ip_checksum (put16 (set (set laid 6 0) 7 0) 2 size)

-- The end of `add`, with the set extended: give the datagram if it is complete.
pub finish :
    Reassembler
    → FragmentKey
    → FragmentSet
    → Option ℕ
    → Option (List ℕ)
    → Reassembler × Option (List ℕ)
finish r k s none header = (r, none)
finish r k s (some end) none = (r, none)
finish r k s (some end) (some header) =
    if ltb 65535 (end + length header)
    then (remove r k s, none)
    else if total_bytes s.parts == end
    then (remove r k s, some (assemble header end s.parts))
    else (r, none)

-- `add` from the point where the fragment's set is at hand.
pub place : Reassembler → FragmentKey → FragmentSet → List ℕ → Reassembler × Option (List ℕ)
place r k s p =
    let s' = extend s p in
    let r' : Reassembler = record { sets = insert k s' r.sets; held = r.held + length p } in
    if conflicts r s p then (remove r k s, none) else finish r' k s' s'.end s'.header

abbrev pub new_set : ℕ → FragmentSet
new_set now = record { born = now; header = none; parts = []; end = none; size = 0 }

pub place_found :
    Reassembler → FragmentKey → List ℕ → ℕ → Option FragmentSet → Reassembler × Option (List ℕ)
place_found r k p now (some s) = place r k s p
place_found r k p now none =
    if leb fragment_flow_limit (length r.sets)
    then (r, none)
    else place (record r { sets = insert k (new_set now) r.sets }) k (new_set now) p

-- `add`: the packet to go on with, or none where the source answers false.
pub add : Reassembler → List ℕ → ℕ → Reassembler × Option (List ℕ)
add r p now =
    if not (is_fragmented_ipv4 p)
    then (r, some p)
    else if bad_fragment p
    then (r, none)
    else let ready = purge r now in
      place_found ready (fragment_key p) p now (lookup (fragment_key p) ready.sets)
