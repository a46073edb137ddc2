-- ===== src/Session/Admission.antt =====
-- transport/session.go: what a Session lets through, by the parameters that its peer announced.
pub mod Permits
use openflux_zen_server.Prelude.{
  ℕ, ◌+◌, ◌/◌, ◌%◌, Bool, true, false, not, ◌&&◌, ◌||◌, List, [], Option, none, some, ltb, leb,
  ◌==◌, if◌then◌else◌, length, byte_at,
}
use openflux_zen_server.Prelude.BitField.{test_bit}
use openflux_zen_server.L3.Checksum.{header_length}

-- `PeerParameters`: bit 0 of the capabilities is IPv4, bit 1 TCP, bit 2 UDP, bit 4 ICMP errors.
pub record PeerParameters : Type 0 where
  pub capabilities : ℕ
  pub max_packet_size : ℕ

pub data PacketError : Type 0 where
  incomplete too_long no_udp no_icmp_errors unsupported : PacketError

-- The `switch` of `permittedPacket`.
unfoldable pub permitted_protocol : ℕ → PeerParameters → Option PacketError
permitted_protocol proto limits =
    if proto == 6
    then none
    else if proto == 17
    then if test_bit limits.capabilities 2 then none else some no_udp
    else if proto == 1
    then if test_bit limits.capabilities 4 then none else some no_icmp_errors
    else some unsupported

-- `permittedPacket`: its error, if it has one.
unfoldable pub permitted_packet : List ℕ → PeerParameters → Option PacketError
unfolding permitted_protocol
permitted_packet p limits =
    if ltb (length p) 20
      || (not (byte_at p 0 / 16 == 4)
          || (ltb (header_length p) 20 || ltb (length p) (header_length p)))
    then some incomplete
    else if ltb limits.max_packet_size (length p)
    then some too_long
    else permitted_protocol (byte_at p 9) limits

abbrev pub max_negotiated_packet : ℕ
max_negotiated_packet = 65000

-- `validParameters`: no capability but the known ones (the bits 0, 1, 2 and 4), both of the first
-- two, and a packet size within the bounds.
unfoldable pub valid_parameters : PeerParameters → Bool
valid_parameters p =
    p.capabilities / 32 == 0
    && (p.capabilities / 8 % 2 == 0
        && (p.capabilities % 4 == 3
            && (leb 1280 p.max_packet_size && leb p.max_packet_size max_negotiated_packet)))
