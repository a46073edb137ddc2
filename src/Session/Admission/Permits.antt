-- ===== src/Session/Admission/Permits.antt =====
-- Which packets a Session lets through (transport/session.go).
use openflux_zen_server.Prelude.{
  inl, true, ℕ, ◌/◌, ◌≤◌, ◌≡◌, ◌⊎◌, ◌↔◌, List, none, arith, length, byte_at,
}
use openflux_zen_server.Prelude.BitField.{test_bit}
use openflux_zen_server.L3.Checksum.{header_length}
use openflux_zen_server.Session.Admission.{
  PeerParameters, permitted_protocol, permitted_packet, valid_parameters,
}

-- What a permitted packet is: IPv4 with its whole header, within the peer's limit, and TCP, or UDP or
-- ICMP with the peer's capability for it.
pub record IsPermitted (p : List ℕ) (limits : PeerParameters) : Type 0 where
  pub version : byte_at p 0 / 16 ≡ 4
  pub header_min : 20 ≤ header_length p
  pub header_all : header_length p ≤ length p
  pub short : length p ≤ limits.max_packet_size
  pub protocol :
      (byte_at p 9 ≡ 6)
      ⊎ ((byte_at p 9 ≡ 17) × (test_bit limits.capabilities 2 ≡ true))
      ⊎ ((byte_at p 9 ≡ 1) × (test_bit limits.capabilities 4 ≡ true))

permitted_packet-IsPermitted :
    (p : List ℕ) (limits : PeerParameters) → permitted_packet p limits ≡ none → IsPermitted p limits
unfolding permitted_packet permitted_protocol
permitted_packet-IsPermitted p limits h = record {
  version = ground arith;
  header_min = ground arith;
  header_all = ground arith;
  short = ground arith;
  protocol = ground arith;
}

permitted_packet-none :
    (p : List ℕ) (limits : PeerParameters) → IsPermitted p limits → permitted_packet p limits ≡ none
unfolding permitted_packet permitted_protocol
permitted_packet-none p limits v =
    let a = v.version in
    let b = v.header_min in
    let c = v.header_all in let d = v.short in let e = v.protocol in ground arith

-- `permittedPacket` finds no error in exactly the packets that are IPv4 with their whole header,
-- within the peer's size limit, and TCP, or UDP or ICMP with the peer's capability for it.
pub permitted_packet_iff :
    (p : List ℕ) (limits : PeerParameters)
    → (permitted_packet p limits ≡ none) ↔ IsPermitted p limits
permitted_packet_iff p limits =
    (permitted_packet-IsPermitted p limits, permitted_packet-none p limits)

-- A peer whose parameters a Session accepts takes every IPv4 packet of TCP with a whole header and of
-- at most 1280 bytes.
pub permitted_packet-valid_parameters :
    (p : List ℕ) (limits : PeerParameters)
    → valid_parameters limits ≡ true
    → byte_at p 0 / 16 ≡ 4
    → 20 ≤ header_length p
    → header_length p ≤ length p
    → length p ≤ 1280
    → byte_at p 9 ≡ 6
    → permitted_packet p limits ≡ none
unfolding valid_parameters
permitted_packet-valid_parameters p limits valid version least whole short tcp =
    permitted_packet-none p limits (record {
      version = version;
      header_min = least;
      header_all = whole;
      short = ground arith;
      protocol = inl tcp;
    })
