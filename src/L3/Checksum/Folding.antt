-- ===== src/L3/Checksum/Folding.antt =====
-- Folding the carries of a sum: the result in closed form.
use openflux_zen_server.Prelude.{
  ℕ, zero, suc, ◌+◌, ◌-◌, ◌/◌, ◌%◌, ◌^◌, ◌<◌, ◌≡◌, refl, arith, ◌==◌, if◌then◌else◌,
}
use openflux_zen_server.L3.Checksum.{fold_carries, fold_rounds, complement16, adjust_checksum}

-- The representative of a sum modulo 65535 that is 0 for the sum 0 only.
abbrev pub residue : ℕ → ℕ
residue s = if s == 0 then 0 else (s - 1) % 65535 + 1

-- Two rounds fold every uint32 to a uint16: its residue modulo 65535.
pub fold_carries-residue : (s : ℕ) → s < 2 ^ 32 → fold_carries fold_rounds s ≡ residue s
unfolding fold_carries
fold_carries-residue s h = ground arith

fold_carries_small : (fuel s : ℕ) → s < 65536 → fold_carries fuel s ≡ s
unfolding fold_carries
fold_carries_small zero s h = refl
fold_carries_small (suc fuel) s h = ground arith

-- With two rounds or any greater number of them the loop has ended, with the residue of the sum:
-- more fuel changes nothing.
pub fold_carries_enough : (fuel s : ℕ) → s < 2 ^ 32 → fold_carries (suc (suc fuel)) s ≡ residue s
unfolding fold_carries
fold_carries_enough fuel s h =
    let s' = s % 65536 + s / 65536 in
    let s'' = s' % 65536 + s' / 65536 in ground (arith, fold_carries_small fuel s'')

-- `adjustChecksum` gives the checksum of the data with the word `old` replaced by `value`, where
-- `rest` is the sum of the other words: as if it were computed anew, unless all of the data is 0.
pub adjust_checksum_lem :
    (rest old value : ℕ)
    → rest + old < 2 ^ 32
    → rest + value < 2 ^ 32
    → old < 65536
    → value < 65536
    → 0 < rest + value
    → adjust_checksum (complement16 (fold_carries fold_rounds (rest + old))) old value
      ≡ complement16 (fold_carries fold_rounds (rest + value))
unfolding adjust_checksum
adjust_checksum_lem rest old value ho hv o v pos =
    let a = fold_carries-residue (rest + old) ho in
    let b = fold_carries-residue (rest + value) hv in
    let c =
      fold_carries-residue (65535 - (65535 - residue (rest + old) % 65536) + (65535 - old) + value)
        (omega arith) in
    rw (a, b, c) (ground arith)
