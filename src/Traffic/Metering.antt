-- ===== src/Traffic/Metering.antt =====
-- What the meter of transport/traffic.go counts.
use openflux_zen_server.Prelude.{
  ℕ, ◌+◌, ◌%◌, ◌^◌, ◌≡◌, ◌<◌, true, false, List, [], ◌∷◌, Option, none, some, arith, length,
  length-take, be16,
}
use openflux_zen_server.L3.Packet.{slice_ipv4}
use openflux_zen_server.Traffic.{
  ipv4_traffic_size, TrafficMeter, new_traffic_meter, meter_send, meter_receive, Traffic, sends,
  receives, metered,
}

abbrev pub sliced_length : Option (List ℕ) → ℕ
sliced_length none = 0
sliced_length (some p) = length p

-- The meter counts a packet at the length that the exit slices it to, and what the exit drops as no
-- IPv4 packet it counts as nothing.
pub ipv4_traffic_size-slice_ipv4 : (p : List ℕ) → ipv4_traffic_size p ≡ sliced_length (slice_ipv4 p)
unfolding ipv4_traffic_size slice_ipv4
ipv4_traffic_size-slice_ipv4 p = ground (arith, length-take (be16 p 2) p)

-- The bytes of the packets that went out with no error, and of those that came in.
abbrev pub sent_total : List Traffic → ℕ
sent_total [] = 0
sent_total (sends p true ∷ rest) = sliced_length (slice_ipv4 p) + sent_total rest
sent_total (sends p false ∷ rest) = sent_total rest
sent_total (receives p ∷ rest) = sent_total rest

abbrev pub received_total : List Traffic → ℕ
received_total [] = 0
received_total (sends p accepted ∷ rest) = received_total rest
received_total (receives p ∷ rest) = sliced_length (slice_ipv4 p) + received_total rest

metered_from :
    (m : TrafficMeter) (ts : List Traffic)
    → m.sent < 2 ^ 64
    → m.received < 2 ^ 64
    → ((metered m ts).sent ≡ (m.sent + sent_total ts) % 2 ^ 64)
      × ((metered m ts).received ≡ (m.received + received_total ts) % 2 ^ 64)
unfolding metered meter_send meter_receive
metered_from m [] hs hr = (omega arith, omega arith)
metered_from m (sends p true ∷ rest) hs hr =
    let h = metered_from (meter_send m p true) rest (omega arith) hr in
    let e = ipv4_traffic_size-slice_ipv4 p in (omega (arith, h.0, e), omega (arith, h.1))
metered_from m (sends p false ∷ rest) hs hr = metered_from m rest hs hr
metered_from m (receives p ∷ rest) hs hr =
    let h = metered_from (meter_receive m p) rest hs (omega arith) in
    let e = ipv4_traffic_size-slice_ipv4 p in (omega (arith, h.0), omega (arith, h.1, e))

-- After any packets in both directions the meter shows, modulo 2^64, the bytes of the IPv4 packets
-- that were sent with no error, and of those that came in.
pub metered_lem :
    (ts : List Traffic)
    → ((metered new_traffic_meter ts).sent ≡ sent_total ts % 2 ^ 64)
      × ((metered new_traffic_meter ts).received ≡ received_total ts % 2 ^ 64)
unfolding new_traffic_meter
metered_lem ts =
    let h = metered_from new_traffic_meter ts (omega arith) (omega arith) in
    (omega (arith, h.0), omega (arith, h.1))
