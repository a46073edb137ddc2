-- ===== src/L3/Checksum.antt =====
-- tunnel/l3/flow.go and icmp.go: the Internet checksum. The sums are uint32 in the source and are
-- written here modulo 2^32; `^` on a uint16 is 65535 minus the number.
pub mod Folding
pub mod Words
use openflux_zen_server.Prelude.{
  ℕ, zero, suc, ◌+◌, ◌-◌, ◌*◌, ◌/◌, ◌%◌, ◌^◌, Bool, List, [], ◌∷◌, ◌++◌, ◌==◌, if◌then◌else◌,
  length, take, drop, set, put16, byte_at,
}

-- The word loop with its odd last byte, from the sum `sum` on.
unfoldable pub sum_words : ℕ → List ℕ → ℕ
sum_words sum [] = sum
sum_words sum (x ∷ []) = (sum + x * 256) % 2 ^ 32
sum_words sum (x ∷ y ∷ rest) = sum_words ((sum + (x * 256 + y)) % 2 ^ 32) rest

-- `for sum>>16 != 0 { sum = (sum & 0xffff) + (sum >> 16) }`
pub fold_carries : ℕ → ℕ → ℕ
fold_carries zero sum = sum
fold_carries (suc fuel) sum =
    let again = fold_carries fuel (sum % 65536 + sum / 65536) in
    if sum / 65536 == 0 then sum else again

-- Two rounds are enough for a uint32.
abbrev pub fold_rounds : ℕ
fold_rounds = 2

-- `uint16(^sum)` of a folded sum
abbrev pub complement16 : ℕ → ℕ
complement16 sum = 65535 - sum % 65536

unfoldable pub ones_complement_sum : List ℕ → ℕ
ones_complement_sum b = complement16 (fold_carries fold_rounds (sum_words 0 b))

-- The sum over the pseudo header: two words for each address, the protocol and the length.
unfoldable pub pseudo_header : List ℕ → List ℕ → ℕ → ℕ → ℕ
pseudo_header src dst proto len =
    (sum_words (sum_words 0 (take 4 src)) (take 4 dst) + proto + len % 2 ^ 32) % 2 ^ 32

-- `transportChecksum`; the addresses are four bytes each.
unfoldable pub transport_checksum : List ℕ → List ℕ → List ℕ → ℕ → ℕ
transport_checksum segment src dst proto =
    complement16
      (fold_carries fold_rounds (sum_words (pseudo_header src dst proto (length segment)) segment))

-- `adjustChecksum` (RFC 1624)
pub adjust_checksum : ℕ → ℕ → ℕ → ℕ
adjust_checksum sum old value =
    complement16 (fold_carries fold_rounds (65535 - sum + (65535 - old) + value))

-- The header length that the first byte of an IPv4 packet states.
abbrev pub header_length : List ℕ → ℕ
header_length p = byte_at p 0 % 16 * 4

-- `fixIPChecksum`
unfoldable pub fix_ip_checksum : List ℕ → List ℕ
fix_ip_checksum p =
    let zeroed = set (set p 10 0) 11 0 in
    put16 zeroed 10 (ones_complement_sum (take (header_length p) zeroed))
