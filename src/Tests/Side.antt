-- ===== src/Tests/Side.antt =====
-- Runs over the side of the exit: checksums, meters, demultiplexers, links and the limiter.
use openflux_zen_server.Prelude.{
  ℕ, suc, ◌%◌, ◌≡◌, refl, ◌↔◌, true, false, List, [], ◌∷◌, none, some, arith, ◌==◌,
}
use openflux_zen_server.Prelude.Maps.{lookup, delete_if, nat_eq}
use openflux_zen_server.L3.Packet.{
  slice_ipv4, is_fragmented_ipv4, transport_fits, flow_key_at, extract_flow_key,
}
use openflux_zen_server.Traffic.{Traffic, sends, receives, new_traffic_meter, metered}
use openflux_zen_server.Traffic.Metering.{metered_lem}
use openflux_zen_server.Demux.{PortDemux, dispatch_port}
use openflux_zen_server.Demux.Ports.{dispatch_port_lem}
use openflux_zen_server.L3.SentFlows.{SentFlow}
use openflux_zen_server.Limiter.{Limiter, new_limiter, add_hit, count, gc, recent, skip_old}
use openflux_zen_server.Limiter.Windows.{count-add_hit, count_forgets}
use openflux_zen_server.Session.Links.{those, top_links}
use openflux_zen_server.Session.Links.Order.{top_links-those}
use openflux_zen_server.Session.Admission.{permitted_packet}
use openflux_zen_server.Session.Admission.Permits.{IsPermitted, permitted_packet_iff}
use openflux_zen_server.Tests.Samples.{dns_flow, dns_query}

abbrev traffic : List Traffic
traffic = sends dns_query true ∷ receives dns_query ∷ sends dns_query false ∷ []

metered_lem_example :
    ((metered new_traffic_meter traffic).sent ≡ 28)
    × ((metered new_traffic_meter traffic).received ≡ 28)
unfolding slice_ipv4
metered_lem_example = metered_lem traffic

abbrev demux : PortDemux
demux = record { lo = 50; hi = 60; main_callback = some 1; side_callback = some 2 }

dispatch_port_lem_example : dispatch_port demux dns_query ≡ some 1
unfolding extract_flow_key slice_ipv4 is_fragmented_ipv4 transport_fits flow_key_at
dispatch_port_lem_example = dispatch_port_lem demux dns_query dns_query dns_flow refl refl

abbrev web : SentFlow
web = record { src_port = 5001; dst_ip = 134744072; dst_port = 443 }

count-add_hit_example :
    (count (add_hit (new_limiter ℕ) 7 100 3) 7 60 50).1 ≡ suc ((count (new_limiter ℕ) 7 60 50).1)
unfolding new_limiter
count-add_hit_example =
    count-add_hit (new_limiter ℕ) 7 7 100 60 3 50 tt (omega arith) (omega arith) (omega arith)

-- The third trial of the day, and a failed login of another key half an hour later.
abbrev day : ℕ
day = 86400000000000

abbrev trials : Limiter ℕ
trials = record { hits = (7, 60000000000 ∷ []) ∷ []; last = 60000000000 }

count_forgets_example :
    (count (count trials 8 900000000000 1860000000000).0 7 day 1860000000001).1 ≡ 0
unfolding count gc recent skip_old delete_if lookup
count_forgets_example =
    count_forgets trials 7 8 900000000000 day 1860000000000 1860000000001 (refl, tt) (omega arith)
      refl

abbrev priority_of : ℕ → ℕ
priority_of n = n % 10

top_links-those_example :
    top_links priority_of (19 ∷ 9 ∷ 5 ∷ []) ≡ those (λ m. priority_of m == 9) (19 ∷ 9 ∷ 5 ∷ [])
top_links-those_example =
    top_links-those priority_of (19 ∷ 9 ∷ 5 ∷ [])
      ((omega arith, (omega arith, tt)), ((omega arith, tt), (tt, tt)))

permitted_packet_iff_example :
    (permitted_packet dns_query (record { capabilities = 7; max_packet_size = 1280 }) ≡ none)
    ↔ IsPermitted dns_query (record { capabilities = 7; max_packet_size = 1280 })
permitted_packet_iff_example =
    permitted_packet_iff dns_query (record { capabilities = 7; max_packet_size = 1280 })

abbrev web_request : List ℕ
web_request =
    69 ∷ 0 ∷ 0 ∷ 40 ∷ 0 ∷ 1 ∷ 0 ∷ 0 ∷ 64 ∷ 6 ∷ 0 ∷ 0 ∷ 10 ∷ 10 ∷ 10 ∷ 2 ∷ 8 ∷ 8 ∷ 8 ∷ 8 ∷ 19 ∷ 137
    ∷ 1 ∷ 187 ∷ 0 ∷ 0 ∷ 0 ∷ 0 ∷ 0 ∷ 0 ∷ 0 ∷ 0 ∷ 80 ∷ 2 ∷ 0 ∷ 0 ∷ 0 ∷ 0 ∷ 0 ∷ 0 ∷ []
