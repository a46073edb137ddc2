-- ===== src/Tests/Exit.antt =====
-- Runs over the exit: its tables, checksums and fragments, and both handlers.
use openflux_zen_server.Prelude.{
  ℕ, ◌↔◌, leb, ◌-◌, if◌then◌else◌, ◌+◌, ◌≡◌, refl, ◌≤◌, Bool, true, ◌&&◌, List, [], ◌∷◌, ◌++◌,
  arith, ltb, length, All, IsByte, take, replicate,
}
use openflux_zen_server.Prelude.Maps.{lookup, insert}
use openflux_zen_server.L3.Packet.Keys.{same_key}
use openflux_zen_server.L3.Checksum.{
  fold_carries, fold_rounds, complement16, adjust_checksum, ones_complement_sum, fix_ip_checksum,
}
use openflux_zen_server.L3.Checksum.Folding.{adjust_checksum_lem}
use openflux_zen_server.L3.Checksum.Words.{fix_ip_checksum_valid}
use openflux_zen_server.L3.Conntrack.{
  flow_key_eq, ct_max_entries, new_conntrack, flow_timeout, insert_flow, touch, exists_flow, sweep,
  Call, inserts, touches, step, run,
}
use openflux_zen_server.L3.Conntrack.Laws.{
  run-Inv, exists_flow-sweep, insert_flow_lem, renewed, HasRoom, was_accepted,
  exists_flow-was_accepted,
}
use openflux_zen_server.L3.Icmp.{fragment_ipv4}
use openflux_zen_server.L3.Icmp.Fragments.{IsFragmentation, fragment_ipv4_whole}
use openflux_zen_server.L3.Reassembly.{new_reassembler, add}
use openflux_zen_server.L3.Reassembly.Limits
use openflux_zen_server.Tests.Samples.{dns_flow, web_flow, dns_query}
use openflux_zen_server.L3.Reassembly.Limits.{add-Inv, new_reassembler-Inv}

abbrev calls : List (ℕ × Call)
calls = (1, inserts web_flow) ∷ (2, inserts dns_flow) ∷ (3, touches web_flow true) ∷ []

exists_flow-sweep_example :
    exists_flow (sweep (run new_conntrack calls) 20_000_000_000) web_flow 20_000_000_000
    ≡ exists_flow (run new_conntrack calls) web_flow 20_000_000_000
exists_flow-sweep_example =
    exists_flow-sweep (run new_conntrack calls) 20_000_000_000 20_000_000_000 web_flow
      (run-Inv calls) (omega arith)

run-Inv_example : length (run new_conntrack calls).entries ≤ ct_max_entries
run-Inv_example = (run-Inv calls).bounded

exists_flow-was_accepted_example : was_accepted new_conntrack web_flow calls ≡ true
unfolding run step new_conntrack insert_flow touch exists_flow flow_timeout lookup insert
exists_flow-was_accepted_example = exists_flow-was_accepted calls web_flow 9 refl

insert_flow_lem_example :
    let (c', fine) = insert_flow (run new_conntrack calls) web_flow 5 in
    ((fine ≡ true) ↔ HasRoom (run new_conntrack calls) web_flow)
    × (exists_flow c' web_flow 9 ≡ (
        if fine && same_key web_flow web_flow
        then leb
            (9 - 5)
            (flow_timeout web_flow (renewed (lookup web_flow (run new_conntrack calls).entries) 5))
        else exists_flow (run new_conntrack calls) web_flow 9))
insert_flow_lem_example = insert_flow_lem (run new_conntrack calls) web_flow web_flow 5 9

adjust_checksum_lem_example :
    adjust_checksum (complement16 (fold_carries fold_rounds (70000 + 2570))) 2570 49320
    ≡ complement16 (fold_carries fold_rounds (70000 + 49320))
adjust_checksum_lem_example =
    adjust_checksum_lem 70000 2570 49320 (omega arith) (omega arith) (omega arith) (omega arith)
      (omega arith)

abbrev all_bytes : List ℕ → Bool
all_bytes [] = true
all_bytes (x ∷ xs) = ltb x 256 && all_bytes xs

all_bytes-IsByte : (xs : List ℕ) → all_bytes xs ≡ true → All IsByte xs
all_bytes-IsByte [] h = tt
all_bytes-IsByte (x ∷ xs) h = (ground arith, all_bytes-IsByte xs (ground arith))

fix_ip_checksum_valid_example : ones_complement_sum (take 20 (fix_ip_checksum dns_query)) ≡ 0
fix_ip_checksum_valid_example =
    fix_ip_checksum_valid dns_query (all_bytes-IsByte dns_query refl) (omega arith) (omega arith)

fragment_ipv4_whole_example :
    IsFragmentation
      (take 20 dns_query ++ replicate 100 7)
      68
      (fragment_ipv4 (take 20 dns_query ++ replicate 100 7) 68 65535)
fragment_ipv4_whole_example = fragment_ipv4_whole (take 20 dns_query ++ replicate 100 7) 68 65535

add-Inv_example : Limits.Inv (add new_reassembler dns_query 5).0
add-Inv_example = add-Inv new_reassembler dns_query 5 new_reassembler-Inv
