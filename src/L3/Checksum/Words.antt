-- ===== src/L3/Checksum/Words.antt =====
-- The word sum as a plain number, and checksums that were filled in.
use openflux_zen_server.Prelude.{
  ℕ, zero, suc, ◌+◌, ◌*◌, ◌/◌, ◌%◌, ◌^◌, ◌≤◌, ◌<◌, ◌≡◌, refl, ◌∙◌, arith, List, [], ◌∷◌, All,
  IsByte, length, take, set, byte_at, length-set, length-take, All-set, All-take, take-set,
  get_or-set_self, get_or-set_ne, get_or-take,
}
use openflux_zen_server.L3.Checksum.{
  sum_words, complement16, ones_complement_sum, header_length, fix_ip_checksum,
}
use openflux_zen_server.L3.Checksum.Folding.{residue, fold_carries-residue}

-- The sum of the big endian words, an odd last byte counted as the high one.
abbrev pub total : List ℕ → ℕ
total [] = 0
total (x ∷ []) = x * 256
total (x ∷ y ∷ rest) = x * 256 + y + total rest

pub sum_words-total :
    (sum : ℕ) (b : List ℕ) → sum < 2 ^ 32 → sum_words sum b ≡ (sum + total b) % 2 ^ 32
unfolding sum_words
sum_words-total sum [] h = omega arith
sum_words-total sum (x ∷ []) h = refl
sum_words-total sum (x ∷ y ∷ rest) h =
    omega (arith, sum_words-total ((sum + (x * 256 + y)) % 2 ^ 32) rest (omega arith))

pub total-le : (b : List ℕ) → All IsByte b → total b ≤ 65535 * length b
total-le [] h = omega arith
total-le (x ∷ []) h = omega arith
total-le (x ∷ y ∷ rest) h = omega (arith, total-le rest h.1.1)

-- An even place.
abbrev pub double : ℕ → ℕ
double zero = zero
double (suc k) = suc (suc (double k))

-- Writing a word at an even place exchanges it in the sum.
pub total-set :
    (b : List ℕ) (k hi lo : ℕ)
    → suc (double k) < length b
    → total (set (set b (double k) hi) (suc (double k)) lo)
        + (byte_at b (double k) * 256 + byte_at b (suc (double k)))
      ≡ total b + (hi * 256 + lo)
total-set [] k hi lo h = absurd (omega arith)
total-set (x ∷ []) k hi lo h = absurd (omega arith)
total-set (x ∷ y ∷ rest) zero hi lo h = omega arith
total-set (x ∷ y ∷ rest) (suc k) hi lo h = omega (arith, total-set rest k hi lo (omega arith))

-- The checksum of bytes whose sum is `t`.
pub ones_complement_sum-total :
    (b : List ℕ)
    → All IsByte b
    → length b ≤ 65535
    → ones_complement_sum b ≡ complement16 (residue (total b))
unfolding ones_complement_sum
ones_complement_sum-total b hb h =
    let small = total-le b hb in
    let plain : sum_words 0 b ≡ total b = omega (arith, sum_words-total 0 b (omega arith)) in
    rw (plain, fold_carries-residue (total b) (omega arith))

-- A word sum and the checksum made of it add up to a multiple of 65535 that is not 0.
pub filled : (t : ℕ) → complement16 (residue (t + complement16 (residue t))) ≡ 0
filled t = ground arith

-- Bytes whose checksum word, at an even place, was 0 and is filled in with the checksum have the
-- checksum 0, which is what the receiver tests.
pub ones_complement_sum_filled :
    (b : List ℕ) (k : ℕ)
    → All IsByte b
    → length b ≤ 65535
    → suc (double k) < length b
    → byte_at b (double k) ≡ 0
    → byte_at b (suc (double k)) ≡ 0
    → let c = ones_complement_sum b in
      ones_complement_sum (set (set b (double k) (c / 256 % 256)) (suc (double k)) (c % 256)) ≡ 0
ones_complement_sum_filled b k hb len inside z0 z1 =
    let c = complement16 (residue (total b)) in
    let e = ones_complement_sum-total b hb len in
    let one = set b (double k) (c / 256 % 256) in
    let two = set one (suc (double k)) (c % 256) in
    let bytes : All IsByte two =
      All-set IsByte one (suc (double k)) (c % 256)
        (All-set IsByte b (double k) (c / 256 % 256) hb (omega arith)) (omega arith) in
    let l1 = length-set b (double k) (c / 256 % 256) in
    let l2 = length-set one (suc (double k)) (c % 256) in
    let sum : total two ≡ total b + c =
      omega (arith, total-set b k (c / 256 % 256) (c % 256) inside) in
    rw e (ones_complement_sum-total two bytes (omega arith) ∙ rw sum (filled (total b)))

-- After `fixIPChecksum` the header, of the length that its first byte states, passes the receiver's
-- test; the packet holds bytes and its header has the checksum's place and is all there.
pub fix_ip_checksum_valid :
    (p : List ℕ)
    → All IsByte p
    → 12 ≤ header_length p
    → header_length p ≤ length p
    → ones_complement_sum (take (header_length p) (fix_ip_checksum p)) ≡ 0
unfolding fix_ip_checksum
fix_ip_checksum_valid p hb lo hi =
    let n = header_length p in
    let z1 = set p 10 0 in
    let z = set z1 11 0 in
    let b = take n z in
    let l1 = length-set p 10 0 in
    let l2 = length-set z1 11 0 in
    let len = length-take n z in
    let bytes : All IsByte b =
      All-take IsByte n z
        (All-set IsByte z1 11 0 (All-set IsByte p 10 0 hb (omega arith)) (omega arith)) in
    let at10 : byte_at b 10 ≡ 0 =
      get_or-take n z 10 0 (omega arith)
      ∙ get_or-set_ne z1 11 10 0 0 (omega arith)
      ∙ get_or-set_self p 10 0 0 (omega arith) in
    let at11 : byte_at b 11 ≡ 0 =
      get_or-take n z 11 0 (omega arith) ∙ get_or-set_self z1 11 0 0 (omega arith) in
    rw (take-set, take-set)
      (ones_complement_sum_filled b 5 bytes (omega arith) (omega arith) at10 at11)
