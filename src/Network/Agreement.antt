-- ===== src/Network/Agreement.antt =====
-- The checksums of network/checksum.go are those of tunnel/l3/flow.go.
use openflux_zen_server.Prelude.{
  ℕ, ◌+◌, ◌*◌, ◌/◌, ◌%◌, ◌^◌, ◌<◌, ◌≡◌, ap, List, [], ◌∷◌, arith, length,
}
use openflux_zen_server.L3.Checksum.{
  sum_words, fold_carries, fold_rounds, complement16, ones_complement_sum, pseudo_header,
  transport_checksum,
}
use openflux_zen_server.L3.Checksum.Folding.{fold_carries-residue}
use openflux_zen_server.Network.{tcp_checksum, ip_checksum}

sum_words_bounded : (sum : ℕ) (b : List ℕ) → sum < 2 ^ 32 → sum_words sum b < 2 ^ 32
unfolding sum_words
sum_words_bounded sum [] h = h
sum_words_bounded sum (x ∷ []) h = omega arith
sum_words_bounded sum (x ∷ y ∷ rest) h =
    sum_words_bounded ((sum + (x * 256 + y)) % 2 ^ 32) rest (omega arith)

folded_twice :
    (sum : ℕ)
    → sum < 2 ^ 32
    → let once = (sum / 65536 + sum % 65536) % 2 ^ 32 in
      complement16 ((once + once / 65536) % 2 ^ 32) ≡ complement16 (fold_carries fold_rounds sum)
folded_twice sum h = rw (fold_carries-residue sum h) (ground arith)

-- Adding the carries twice gives the checksum of the loop that adds them until there are none.
pub ip_checksum_lem : (b : List ℕ) → ip_checksum b ≡ ones_complement_sum b
unfolding ip_checksum ones_complement_sum
ip_checksum_lem b = folded_twice (sum_words 0 b) (sum_words_bounded 0 b (omega arith))

-- For data of less than 64 KiB between two addresses, `TCPChecksum`, which copies the pseudo header
-- in front of the data, is `transportChecksum` of protocol 6, which only adds it up.
pub tcp_checksum_lem :
    (tcp_data : List ℕ) (a b c d e f g h : ℕ)
    → length tcp_data < 65536
    → tcp_checksum tcp_data (a ∷ b ∷ c ∷ d ∷ []) (e ∷ f ∷ g ∷ h ∷ [])
      ≡ transport_checksum tcp_data (a ∷ b ∷ c ∷ d ∷ []) (e ∷ f ∷ g ∷ h ∷ []) 6
unfolding tcp_checksum transport_checksum pseudo_header sum_words
tcp_checksum_lem tcp_data a b c d e f g h small =
    ap (λ s. complement16 (fold_carries fold_rounds (sum_words s tcp_data))) (omega arith)
