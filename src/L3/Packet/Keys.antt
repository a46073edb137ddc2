-- ===== src/L3/Packet/Keys.antt =====
-- Flow keys: when a packet has one, and their equality and reversal.
use openflux_zen_server.Prelude.{
  ℕ, ◌+◌, ◌/◌, ◌%◌, ◌≤◌, ◌≡◌, refl, ap, ◌↔◌, Bool, true, false, ◌&&◌, List, none, some, arith, ◌==◌,
  length, take, length-take, get_or-take, take_all, byte_at, be16, be32, ◌⊎◌, inl, inr,
  Option-cases,
}
use openflux_zen_server.L3.Checksum.{header_length}
use openflux_zen_server.L3.Packet.{
  slice_ipv4, is_fragmented_ipv4, FlowKey, extract_flow_key, reverse_key, flow_key_at,
}

-- Go's `==` on two keys.
abbrev pub same_key : FlowKey → FlowKey → Bool
same_key j k =
    j.src_ip == k.src_ip
    && (j.dst_ip == k.dst_ip
        && (j.src_port == k.src_port && (j.dst_port == k.dst_port && j.proto == k.proto)))

pub same_key_iff : (j k : FlowKey) → (same_key j k ≡ true) ↔ (j ≡ k)
same_key_iff j k = ground arith

pub reverse_key-reverse_key : (k : FlowKey) → reverse_key (reverse_key k) ≡ k
unfolding reverse_key
reverse_key-reverse_key k = refl

-- What a sliced packet is known to have: a version 4 header, all there, and its stated length.
pub record IsSliced (p : List ℕ) : Type 0 where
  pub version : byte_at p 0 / 16 ≡ 4
  pub header_min : 20 ≤ header_length p
  pub header_all : header_length p ≤ length p
  pub stated : length p ≡ be16 p 2

slice_tests :
    (pkt p : List ℕ)
    → slice_ipv4 pkt ≡ some p
    → (p ≡ take (be16 pkt 2) pkt)
      × (byte_at pkt 0 / 16 ≡ 4)
      × (20 ≤ header_length pkt)
      × (header_length pkt ≤ be16 pkt 2)
      × (be16 pkt 2 ≤ length pkt)
unfolding slice_ipv4
slice_tests pkt p e = ground arith

-- `sliceIPv4` gives the front of the packet, with a sound header and of the length that it states.
pub slice_ipv4-IsSliced : (pkt p : List ℕ) → slice_ipv4 pkt ≡ some p → IsSliced p
slice_ipv4-IsSliced pkt p e =
    let n = be16 pkt 2 in
    let (same, version, least, whole, fits) = slice_tests pkt p e in
    let b0 : byte_at p 0 ≡ byte_at pkt 0 = rw same (get_or-take n pkt 0 0 (omega arith)) in
    let b2 : byte_at p 2 ≡ byte_at pkt 2 = rw same (get_or-take n pkt 2 0 (omega arith)) in
    let b3 : byte_at p 3 ≡ byte_at pkt 3 = rw same (get_or-take n pkt 3 0 (omega arith)) in
    let len : length p ≡ n = rw same (omega (arith, length-take n pkt)) in
    record {
      version = omega arith;
      header_min = omega arith;
      header_all = omega arith;
      stated = omega arith;
    }

-- A packet that was sliced is left as it is by slicing it again.
pub slice_ipv4-again : (p : List ℕ) → IsSliced p → slice_ipv4 p ≡ some p
unfolding slice_ipv4
slice_ipv4-again p v = ground (arith, take_all (be16 p 2) p (omega (arith, v.stated)))

-- What is known of a packet that has a flow key.
pub record HasKey (p : List ℕ) (k : FlowKey) : Type 0 where
  pub sliced : IsSliced p
  pub whole : is_fragmented_ipv4 p ≡ false
  pub read : k ≡ flow_key_at p (header_length p) (byte_at p 9)
  pub transport : (k.proto ≡ 17) ⊎ (k.proto ≡ 6)
  pub ports_inside : header_length p + 8 ≤ length p

extract_tests :
    (pkt p : List ℕ) (k : FlowKey)
    → slice_ipv4 pkt ≡ some p
    → extract_flow_key pkt ≡ some k
    → (is_fragmented_ipv4 p ≡ false)
      × (k ≡ flow_key_at p (header_length p) (byte_at p 9))
      × ((byte_at p 9 ≡ 17) ⊎ (byte_at p 9 ≡ 6))
      × (header_length p + 8 ≤ length p)
unfolding extract_flow_key
extract_tests pkt p k s e = ground arith

no_slice {ℓ} :
    {A : Type ℓ} (pkt : List ℕ) (k : FlowKey)
    → slice_ipv4 pkt ≡ none
    → extract_flow_key pkt ≡ some k
    → A
unfolding extract_flow_key
no_slice pkt k s e = cc

-- A flow key is read only from a packet with a sound header that is no fragment, is TCP or UDP, and
-- holds the ports that the key names.
pub extract_flow_key-HasKey :
    (pkt : List ℕ) (k : FlowKey)
    → extract_flow_key pkt ≡ some k
    → (p : List ℕ) × (slice_ipv4 pkt ≡ some p) × HasKey p k
extract_flow_key-HasKey pkt k e = elim (Option-cases (slice_ipv4 pkt)) [
  | inl s ↦ no_slice pkt k s e
  | inr (p, s) ↦
      let (whole, read, transport, inside) = extract_tests pkt p k s e in
      (
        p,
        s,
        record {
          sliced = slice_ipv4-IsSliced pkt p s;
          whole = whole;
          read = read;
          transport = rw read (unfold flow_key_at in transport);
          ports_inside = inside;
        },
      )
]

read_source :
    (p : List ℕ) (k : FlowKey)
    → k ≡ flow_key_at p (header_length p) (byte_at p 9)
    → k.src_ip ≡ be32 p 12
unfolding flow_key_at
read_source p k e = ap (λ j. j.src_ip) e

-- The key of a sliced packet names the packet's source.
pub key_source :
    (pkt p : List ℕ) (k : FlowKey)
    → slice_ipv4 pkt ≡ some p
    → extract_flow_key p ≡ some k
    → k.src_ip ≡ be32 p 12
key_source pkt p k s e =
    let (q, again, key) = extract_flow_key-HasKey p k e in
    let own = slice_ipv4-again p (slice_ipv4-IsSliced pkt p s) in
    let same : q ≡ p = cc in rw (← same) (read_source q k key.read)

-- What a sliced packet's key says of the packet.
pub sliced_key :
    (pkt p : List ℕ) (k : FlowKey)
    → slice_ipv4 pkt ≡ some p
    → extract_flow_key p ≡ some k
    → HasKey p k
sliced_key pkt p k s e =
    let (q, again, key) = extract_flow_key-HasKey p k e in
    let own = slice_ipv4-again p (slice_ipv4-IsSliced pkt p s) in
    let same : q ≡ p = cc in rw (← same) key

-- The parts of a key that was read from a packet.
pub record Parts (p : List ℕ) (k : FlowKey) : Type 0 where
  pub src_ip : k.src_ip ≡ be32 p 12
  pub dst_ip : k.dst_ip ≡ be32 p 16
  pub src_port : k.src_port ≡ be16 p (header_length p)
  pub dst_port : k.dst_port ≡ be16 p (header_length p + 2)
  pub proto : k.proto ≡ byte_at p 9

pub HasKey-Parts : (p : List ℕ) (k : FlowKey) → HasKey p k → Parts p k
unfolding flow_key_at
HasKey-Parts p k v = record {
  src_ip = ap (λ j. j.src_ip) v.read;
  dst_ip = ap (λ j. j.dst_ip) v.read;
  src_port = ap (λ j. j.src_port) v.read;
  dst_port = ap (λ j. j.dst_port) v.read;
  proto = ap (λ j. j.proto) v.read;
}

-- A packet with a key is no later fragment.
pub HasKey-first : (p : List ℕ) (k : FlowKey) → HasKey p k → be16 p 6 % 8192 ≡ 0
unfolding is_fragmented_ipv4
HasKey-first p k v =
    let whole = v.whole in
    let version = v.sliced.version in
    let least = v.sliced.header_min in let all = v.sliced.header_all in ground arith
