-- ===== src/Network.antt =====
-- network/checksum.go: the checksums of the client's side. The sums are uint32 and are written modulo
-- 2^32; the word loop is the one of the exit's onesComplementSum.
pub mod Agreement
use openflux_zen_server.Prelude.{ℕ, ◌+◌, ◌/◌, ◌%◌, ◌^◌, List, [], ◌∷◌, ◌++◌, length, byte_at}
use openflux_zen_server.L3.Checksum.{sum_words, fold_carries, fold_rounds, complement16}

-- `TCPChecksum`; the addresses are four bytes each.
pub tcp_checksum : List ℕ → List ℕ → List ℕ → ℕ
tcp_checksum tcp_data src dst =
    let n = length tcp_data in
    let pseudo : List ℕ =
      byte_at src 0
      ∷ byte_at src 1
      ∷ byte_at src 2
      ∷ byte_at src 3
      ∷ byte_at dst 0
      ∷ byte_at dst 1
      ∷ byte_at dst 2
      ∷ byte_at dst 3
      ∷ 0
      ∷ 6
      ∷ n / 256 % 256
      ∷ n % 256
      ∷ [] in
    complement16 (fold_carries fold_rounds (sum_words 0 (pseudo ++ tcp_data)))

-- `IPChecksum`: the carries are added twice, with no loop.
pub ip_checksum : List ℕ → ℕ
ip_checksum b =
    let sum = sum_words 0 b in
    let once = (sum / 65536 + sum % 65536) % 2 ^ 32 in complement16 ((once + once / 65536) % 2 ^ 32)
