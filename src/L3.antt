-- ===== src/L3.antt =====
-- tunnel/l3: the packet-level exit. It takes IPv4 packets of the tunnel's client, rewrites their
-- source address, sends them to the network, and carries the replies of known flows back.
pub mod Checksum
pub mod Packet
pub mod Conntrack
pub mod UdpNat
pub mod Reassembly
pub mod Icmp
pub mod SentFlows
pub mod Exit
