-- ===== src/L3/Packet.antt =====
-- tunnel/l3/flow.go, and `sliceIPv4` and `ipU32` of l3.go: reading and rewriting an IPv4 packet.
-- A packet is a list of bytes. The masks of the source are written as `/` and `%`: `b >> 4` is
-- `b / 16`, `b & 0x0f` is `b % 16`, `x & 0x1fff` is `x % 8192`, `x & 0x3fff` is `x % 16384`.
pub mod Keys
use openflux_zen_server.Prelude.{
  ℕ, ◌+◌, ◌-◌, ◌*◌, ◌/◌, ◌%◌, Bool, true, false, not, ◌&&◌, ◌||◌, List, [], ◌∷◌, ◌++◌, Option, none,
  some, ltb, leb, ◌==◌, if◌then◌else◌, is_some, length, take, drop, set, put16, byte_at, be16, be32,
}
use openflux_zen_server.L3.Checksum.{ones_complement_sum, transport_checksum, header_length}

-- `sliceIPv4`: the packet cut to its stated length, if its header is sound.
unfoldable pub slice_ipv4 : List ℕ → Option (List ℕ)
slice_ipv4 pkt =
    if ltb (length pkt) 20 || not (byte_at pkt 0 / 16 == 4)
    then none
    else if ltb (header_length pkt) 20 || ltb (length pkt) (header_length pkt)
    then none
    else if ltb (be16 pkt 2) (header_length pkt) || ltb (length pkt) (be16 pkt 2)
    then none
    else some (take (be16 pkt 2) pkt)

-- `isFragmentedIPv4`: the "more fragments" flag or a fragment offset.
unfoldable pub is_fragmented_ipv4 : List ℕ → Bool
is_fragmented_ipv4 pkt =
    if ltb (length pkt) 20 || not (byte_at pkt 0 / 16 == 4)
    then false
    else not (be16 pkt 6 % 16384 == 0)

pub record FlowKey : Type 0 where
  pub src_ip : ℕ
  pub dst_ip : ℕ
  pub src_port : ℕ
  pub dst_port : ℕ
  pub proto : ℕ

-- The test of the transport header in `extractFlowKey`: its least length, and the length it states.
unfoldable pub transport_fits : ℕ → List ℕ → ℕ → Bool
transport_fits proto pkt ihl =
    let left = length pkt - ihl in
    if proto == 17
    then leb (ihl + 8) (length pkt) && (leb 8 (be16 pkt (ihl + 4)) && leb (be16 pkt (ihl + 4)) left)
    else if proto == 6
    then leb (ihl + 20) (length pkt)
      && (leb 20 (byte_at pkt (ihl + 12) / 16 * 4) && leb (byte_at pkt (ihl + 12) / 16 * 4) left)
    else false

-- What `extractFlowKey` reads from a sliced packet.
unfoldable pub flow_key_at : List ℕ → ℕ → ℕ → FlowKey
flow_key_at pkt ihl proto = record {
  src_ip = be32 pkt 12;
  dst_ip = be32 pkt 16;
  src_port = be16 pkt ihl;
  dst_port = be16 pkt (ihl + 2);
  proto = proto;
}

abbrev flow_key_of : Option (List ℕ) → Option FlowKey
flow_key_of none = none
flow_key_of (some pkt) =
    if ltb (header_length pkt) 20 || is_fragmented_ipv4 pkt
    then none
    else if transport_fits (byte_at pkt 9) pkt (header_length pkt)
    then some (flow_key_at pkt (header_length pkt) (byte_at pkt 9))
    else none

unfoldable pub extract_flow_key : List ℕ → Option FlowKey
unfolding transport_fits
extract_flow_key pkt = flow_key_of (slice_ipv4 pkt)

unfoldable pub reverse_key : FlowKey → FlowKey
reverse_key k = record {
  src_ip = k.dst_ip;
  dst_ip = k.src_ip;
  src_port = k.dst_port;
  dst_port = k.src_port;
  proto = k.proto;
}

-- An address `[4]byte` is a list of four bytes; `ipU32` reads it as a number.
abbrev pub ip_u32 : List ℕ → ℕ
ip_u32 b = be32 b 0

-- `copy(pkt[i:i+4], a[:])`
abbrev pub copy4 : List ℕ → ℕ → List ℕ → List ℕ
copy4 pkt i a =
    set (set (set (set pkt i (byte_at a 0)) (i + 1) (byte_at a 1)) (i + 2) (byte_at a 2)) (i + 3)
      (byte_at a 3)

pub rewrite_snat : List ℕ → List ℕ → List ℕ
rewrite_snat pkt new_src = copy4 pkt 12 new_src

pub rewrite_dnat : List ℕ → List ℕ → List ℕ
rewrite_dnat pkt new_dst = copy4 pkt 16 new_dst

-- The FIN flag is bit 0 and the RST flag bit 2 of the flags byte.
pub is_tcp_closing : List ℕ → Bool
is_tcp_closing pkt =
    let flags = byte_at pkt (header_length pkt + 13) in
    if not (is_some (extract_flow_key pkt)) || not (byte_at pkt 9 == 6)
    then false
    else if ltb (length pkt) (header_length pkt + 14)
    then false
    else not (flags % 2 == 0) || not (flags / 4 % 2 == 0)

pub is_tcp_rst : List ℕ → Bool
is_tcp_rst pkt =
    if ltb (length pkt) 20 || (not (byte_at pkt 0 / 16 == 4) || not (byte_at pkt 9 == 6))
    then false
    else if ltb (length pkt) (header_length pkt + 14)
    then false
    else not (byte_at pkt (header_length pkt + 13) / 4 % 2 == 0)

-- The end of `fixChecksums`: the transport checksum at `offset` made anew. A UDP checksum of 0 would
-- mean none, so it is sent as 0xffff.
pub put_transport_checksum : List ℕ → ℕ → List ℕ → List ℕ → ℕ → List ℕ
put_transport_checksum segment offset src dst proto =
    let zeroed = set (set segment offset 0) (offset + 1) 0 in
    let sum = transport_checksum zeroed src dst proto in
    put16 zeroed offset (if proto == 17 && sum == 0 then 65535 else sum)

-- The UDP case of `fixChecksums`, on the bytes behind the IP header: only the stated length counts.
pub fix_udp : List ℕ → List ℕ → List ℕ → List ℕ
fix_udp src dst segment =
    let n = be16 segment 4 in
    let udp = take n segment in
    if ltb (length segment) 8 || (ltb n 8 || ltb (length segment) n)
    then segment
    else if byte_at udp 6 == 0 && byte_at udp 7 == 0
    then segment
    else put_transport_checksum udp 6 src dst 17 ++ drop n segment

-- The `switch` of `fixChecksums`.
pub fix_segment : ℕ → List ℕ → List ℕ → List ℕ → List ℕ
unfolding fix_udp
fix_segment proto src dst segment =
    if proto == 6
    then if ltb (length segment) 20
      then segment
      else put_transport_checksum segment 16 src dst proto
    else if proto == 17
    then fix_udp src dst segment
    else segment

-- The body of `fixChecksums` on the sliced packet.
pub fix_sliced : List ℕ → List ℕ
fix_sliced pkt =
    let ihl = header_length pkt in
    let zeroed = set (set pkt 10 0) 11 0 in
    let summed = put16 zeroed 10 (ones_complement_sum (take ihl zeroed)) in
    if is_fragmented_ipv4 pkt || (ltb ihl 20 || ltb (length pkt) ihl)
    then pkt
    else take ihl summed
      ++ fix_segment (byte_at summed 9) (take 4 (drop 12 summed)) (take 4 (drop 16 summed))
          (drop ihl summed)

-- `fixChecksums` works in place on the front of the packet; what stands behind it stays.
pub fix_checksums : List ℕ → List ℕ
fix_checksums pkt = elim (slice_ipv4 pkt) [
  | none ↦ pkt
  | some sliced ↦ fix_sliced sliced ++ drop (length sliced) pkt
]

-- `validUDPChecksums`; a UDP checksum of 0 was omitted by the sender.
pub valid_udp_checksums : List ℕ → Bool
valid_udp_checksums pkt =
    let ihl = header_length pkt in
    let udp = drop ihl pkt in
    if not (ones_complement_sum (take ihl pkt) == 0)
    then false
    else if be16 udp 6 == 0
    then true
    else transport_checksum (take (be16 udp 4) udp) (take 4 (drop 12 pkt)) (take 4 (drop 16 pkt)) 17
      == 0
