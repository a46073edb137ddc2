-- ===== src/Tests/Samples.antt =====
-- The packets and flows of the tests.
use openflux_zen_server.Prelude.{ℕ, List, [], ◌∷◌, Option, none, some, true}
use openflux_zen_server.L3.Packet.{FlowKey}
use openflux_zen_server.L3.UdpNat.{SendError}
use openflux_zen_server.L3.Exit.{World}

abbrev pub dns_flow : FlowKey
dns_flow = record {
  src_ip = 168430082;
  dst_ip = 134744072;
  src_port = 5000;
  dst_port = 53;
  proto = 17;
}

abbrev pub web_flow : FlowKey
web_flow = record {
  src_ip = 168430082;
  dst_ip = 134744072;
  src_port = 5001;
  dst_port = 443;
  proto = 6;
}

abbrev pub dns_query : List ℕ
dns_query =
    69 ∷ 0 ∷ 0 ∷ 28 ∷ 0 ∷ 1 ∷ 0 ∷ 0 ∷ 64 ∷ 17 ∷ 86 ∷ 181 ∷ 10 ∷ 10 ∷ 10 ∷ 2 ∷ 8 ∷ 8 ∷ 8 ∷ 8 ∷ 19
    ∷ 136 ∷ 0 ∷ 53 ∷ 0 ∷ 8 ∷ 0 ∷ 0 ∷ []

-- The same query with another source address.
abbrev pub foreign_query : List ℕ
foreign_query =
    69 ∷ 0 ∷ 0 ∷ 28 ∷ 0 ∷ 1 ∷ 0 ∷ 0 ∷ 64 ∷ 17 ∷ 86 ∷ 180 ∷ 10 ∷ 10 ∷ 10 ∷ 3 ∷ 8 ∷ 8 ∷ 8 ∷ 8 ∷ 19
    ∷ 136 ∷ 0 ∷ 53 ∷ 0 ∷ 8 ∷ 0 ∷ 0 ∷ []

-- A datagram from the network that nobody asked for.
abbrev pub stray : List ℕ
stray =
    69 ∷ 0 ∷ 0 ∷ 28 ∷ 0 ∷ 1 ∷ 0 ∷ 0 ∷ 64 ∷ 17 ∷ 0 ∷ 0 ∷ 8 ∷ 8 ∷ 8 ∷ 8 ∷ 192 ∷ 0 ∷ 2 ∷ 1 ∷ 0 ∷ 53
    ∷ 156 ∷ 64 ∷ 0 ∷ 8 ∷ 0 ∷ 0 ∷ []

abbrev pub host : List ℕ
host = 192 ∷ 0 ∷ 2 ∷ 1 ∷ []

abbrev pub no_error : List ℕ → Option SendError
no_error p = none

-- A network and a client that take everything; the host reserves the port 40000.
abbrev pub calm : World
calm = record {
  backend = no_error;
  accepts = λ p. true;
  limit = some 1280;
  now = 1000;
  later = 1001;
  reserved = some 40000;
}
