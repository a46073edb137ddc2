-- ===== src/L3/Icmp.antt =====
-- tunnel/l3/icmp.go: fragmenting a packet, and the ICMP errors that the exit makes and translates.
pub mod Fragments
use openflux_zen_server.Prelude.{
  ℕ, zero, suc, ◌-◌, ◌+◌, ◌*◌, ◌/◌, ◌%◌, ◌^◌, min, Bool, true, false, not, ◌&&◌, ◌||◌, List, [],
  ◌∷◌, ◌++◌, Option, none, some, ltb, leb, ◌==◌, if◌then◌else◌, length, take, drop, set, replicate,
  put16, put32, byte_at, be16, be32,
}
use openflux_zen_server.L3.Checksum.{
  header_length, ones_complement_sum, adjust_checksum, fix_ip_checksum,
}
use openflux_zen_server.L3.Packet.{FlowKey, reverse_key, is_fragmented_ipv4, copy4}

-- The identification of a fragmented packet that has none: the global 32-bit counter is raised until
-- its low 16 bits are not 0, which takes two steps at most.
pub next_fragment_id : ℕ → ℕ
next_fragment_id counter =
    let one = (counter + 1) % 2 ^ 32 in if one % 65536 == 0 then (one + 1) % 2 ^ 32 else one

-- One fragment: the first 20 bytes, and `size` bytes of the payload from `off` on.
pub fragment_at : List ℕ → ℕ → ℕ → ℕ → List ℕ
fragment_at p id off size =
    let f = put16 (take 20 p) 4 id ++ take size (drop off (drop 20 p)) in
    let more = if ltb (off + size) (length p - 20) then 8192 else 0 in
    fix_ip_checksum (put16 (put16 f 6 (off / 8 + more)) 2 (20 + size))

-- The loop over the offsets. Each round goes at least 48 bytes on, so the packet's length is enough
-- fuel.
pub fragments_from : ℕ → List ℕ → ℕ → ℕ → ℕ → List (List ℕ)
fragments_from zero p id chunk off = []
fragments_from (suc fuel) p id chunk off =
    let size = min chunk (length p - 20 - off) in
    let rest = fragments_from fuel p id chunk (off + chunk) in
    if ltb off (length p - 20) then fragment_at p id off size ∷ rest else []

-- `mtu - 20` rounded down to a multiple of eight
abbrev pub chunk_size : ℕ → ℕ
chunk_size mtu = (mtu - 20) / 8 * 8

pub cannot_fragment : List ℕ → ℕ → Bool
cannot_fragment p mtu =
    ltb (length p) 20
    || not (byte_at p 0 == 69)
    || (is_fragmented_ipv4 p
        || (not (byte_at p 6 / 64 % 2 == 0) || (ltb mtu 68 || leb (length p) mtu)))

-- `fragmentIPv4`: the fragments and the counter afterwards, or none for its error.
pub fragment_ipv4 : List ℕ → ℕ → ℕ → Option (List (List ℕ) × ℕ)
fragment_ipv4 p mtu counter =
    let id = be16 p 4 in
    let counter' = if id == 0 then next_fragment_id counter else counter in
    let id' = if id == 0 then counter' % 65536 else id in
    if cannot_fragment p mtu
    then none
    else some (fragments_from (length p) p id' (chunk_size mtu) 0, counter')

-- `makeTooBig`: the ICMP error that quotes the header and eight bytes of the packet, or none where
-- the source returns nil.
pub make_too_big : List ℕ → List ℕ → ℕ → Option (List ℕ)
make_too_big original source mtu =
    let ihl = header_length original in
    let size = 28 + ihl + 8 in
    let start = set (set (set (replicate 28 0) 0 69) 8 64) 9 1 in
    let addressed = copy4 (copy4 (put16 start 2 size) 12 source) 16 (take 4 (drop 12 original)) in
    let typed = set (set addressed 20 3) 21 4 in
    let sized = if leb 68 mtu && leb mtu 65535 then put16 typed 26 mtu else typed in
    let quoted = sized ++ take (ihl + 8) original in
    if ltb (length original) (ihl + 8)
      || (byte_at original 9 == 1
          || (leb 224 (byte_at original 16)
              || (leb 224 (byte_at original 12) || byte_at original 12 == 0)))
    then none
    else some (fix_ip_checksum (put16 quoted 22 (ones_complement_sum (drop 20 quoted))))

-- The first test of `translateICMP`: a whole, checksum-valid packet with room for a quote.
pub bad_icmp : List ℕ → Bool
bad_icmp p =
    let ihl = header_length p in
    is_fragmented_ipv4 p
    || (ltb (length p) (ihl + 8 + 28)
        || (not (ones_complement_sum (take ihl p) == 0)
            || not (ones_complement_sum (drop ihl p) == 0)))

-- Destination unreachable, time exceeded or parameter problem, with a known code.
pub is_icmp_error : ℕ → ℕ → Bool
is_icmp_error typ code =
    typ == 3 && leb code 15 || (typ == 11 && leb code 1 || typ == 12 && leb code 2)

-- The test of the quoted packet.
pub bad_quote : List ℕ → Bool
bad_quote q =
    let qh = header_length q in
    not (byte_at q 0 / 16 == 4)
    || (ltb qh 20
        || (ltb (length q) (qh + 8)
            || (ltb (be16 q 2) (qh + 8)
                || (not (be16 q 6 % 8192 == 0) || not (ones_complement_sum (take qh q) == 0)))))

-- The flow of the quoted packet.
pub quoted_key : List ℕ → FlowKey
quoted_key q =
    let qh = header_length q in
    record {
      src_ip = be32 q 12;
      dst_ip = be32 q 16;
      src_port = be16 q qh;
      dst_port = be16 q (qh + 2);
      proto = byte_at q 9;
    }

-- The quoted transport checksum after the source address and port are exchanged.
pub repaired_sum : ℕ → FlowKey → FlowKey → ℕ
repaired_sum sum k original =
    let high = adjust_checksum sum (k.src_ip / 65536) (original.src_ip / 65536) in
    let low = adjust_checksum high (k.src_ip % 65536) (original.src_ip % 65536) in
    let ported = adjust_checksum low k.src_port original.src_port in
    if k.proto == 17 && ported == 0 then 65535 else ported

pub repair_quote : List ℕ → FlowKey → FlowKey → List ℕ
repair_quote q k original =
    let qh = header_length q in
    let offset = qh + (if k.proto == 6 then 16 else 6) in
    let summed =
      if leb (offset + 2) (length q) && (not (k.proto == 17) || not (be16 q offset == 0))
      then put16 q offset (repaired_sum (be16 q offset) k original)
      else q in
    fix_ip_checksum (put16 (put32 summed 12 original.src_ip) qh original.src_port)

-- The end of `translateICMP`, once the flow `k` of the quote is known to be the client's `original`.
pub rewrite_icmp : List ℕ → FlowKey → FlowKey → List ℕ
rewrite_icmp p k original =
    let ihl = header_length p in
    let whole = take (ihl + 8) p ++ repair_quote (drop (ihl + 8) p) k original in
    let cleared = set (set (put32 whole 16 original.src_ip) (ihl + 2) 0) (ihl + 3) 0 in
    fix_ip_checksum (put16 cleared (ihl + 2) (ones_complement_sum (drop ihl cleared)))
