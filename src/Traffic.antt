-- ===== src/Traffic.antt =====
-- transport/traffic.go: the meter of IPv4 traffic at the tunnel's boundary.
pub mod Metering
use openflux_zen_server.Prelude.{
  ℕ, ◌+◌, ◌/◌, ◌%◌, ◌^◌, Bool, true, false, not, ◌||◌, List, [], ◌∷◌, ltb, ◌==◌, if◌then◌else◌,
  length, byte_at, be16,
}
use openflux_zen_server.L3.Checksum.{header_length}

pub ipv4_traffic_size : List ℕ → ℕ
ipv4_traffic_size p =
    if ltb (length p) 20 || not (byte_at p 0 / 16 == 4)
    then 0
    else if ltb (header_length p) 20
        || (ltb (be16 p 2) (header_length p) || ltb (length p) (be16 p 2))
    then 0
    else be16 p 2

-- `TrafficMeter`, its two counters of a uint64.
pub record TrafficMeter : Type 0 where
  pub sent : ℕ
  pub received : ℕ

pub new_traffic_meter : TrafficMeter
new_traffic_meter = record { sent = 0; received = 0 }

-- `Send`, with what the inner transport answers: true for no error.
pub meter_send : TrafficMeter → List ℕ → Bool → TrafficMeter
meter_send m p true = record m { sent = (m.sent + ipv4_traffic_size p) % 2 ^ 64 }
meter_send m p false = m

-- The callback that `Receive` installs.
pub meter_receive : TrafficMeter → List ℕ → TrafficMeter
meter_receive m p = record m { received = (m.received + ipv4_traffic_size p) % 2 ^ 64 }

-- One packet, in either direction.
pub data Traffic : Type 0 where
  sends : List ℕ → Bool → Traffic
  receives : List ℕ → Traffic

pub metered : TrafficMeter → List Traffic → TrafficMeter
metered m [] = m
metered m (sends p accepted ∷ rest) = metered (meter_send m p accepted) rest
metered m (receives p ∷ rest) = metered (meter_receive m p) rest
