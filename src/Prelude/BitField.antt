-- ===== src/Prelude/BitField.antt =====
-- Single bits of a machine word, by recursion on the bit's place: `test_bit x k` is
-- `x & (1 << k) != 0`, `set_bit x k` is `x | 1 << k`, and `clear_bit x k` is `x &^ 1 << k`.
use Prim.Native.Nat.{ℕ, zero, suc, ◌+◌, ◌*◌, ◌/◌, ◌%◌, ◌≤◌, min}
use mathlib.Core.Path.{◌≡◌, refl}
use mathlib.Core.Bool.{Bool, true, false}
use native.Mathlib.Omega.{arith}
use openflux_zen_server.Prelude.Tests.{◌==◌, if◌then◌else◌}

unfoldable pub test_bit : ℕ → ℕ → Bool
test_bit x zero = x % 2 == 1
test_bit x (suc k) = test_bit (x / 2) k

unfoldable pub set_bit : ℕ → ℕ → ℕ
set_bit x zero = x / 2 * 2 + 1
set_bit x (suc k) = set_bit (x / 2) k * 2 + x % 2

unfoldable pub clear_bit : ℕ → ℕ → ℕ
clear_bit x zero = x / 2 * 2
clear_bit x (suc k) = clear_bit (x / 2) k * 2 + x % 2

pub test_bit-set_bit :
    (x k j : ℕ) → test_bit (set_bit x k) j ≡ (if k == j then true else test_bit x j)
unfolding test_bit set_bit
test_bit-set_bit x zero zero = ground arith
test_bit-set_bit x zero (suc j) =
    let e : (x / 2 * 2 + 1) / 2 ≡ x / 2 = omega arith in rw e (ground arith)
test_bit-set_bit x (suc k) zero = ground arith
test_bit-set_bit x (suc k) (suc j) =
    let e : (set_bit (x / 2) k * 2 + x % 2) / 2 ≡ set_bit (x / 2) k = omega arith in
    rw e (ground (arith, test_bit-set_bit (x / 2) k j))

pub test_bit-clear_bit :
    (x k j : ℕ) → test_bit (clear_bit x k) j ≡ (if k == j then false else test_bit x j)
unfolding test_bit clear_bit
test_bit-clear_bit x zero zero = ground arith
test_bit-clear_bit x zero (suc j) =
    let e : x / 2 * 2 / 2 ≡ x / 2 = omega arith in rw e (ground arith)
test_bit-clear_bit x (suc k) zero = ground arith
test_bit-clear_bit x (suc k) (suc j) =
    let e : (clear_bit (x / 2) k * 2 + x % 2) / 2 ≡ clear_bit (x / 2) k = omega arith in
    rw e (ground (arith, test_bit-clear_bit (x / 2) k j))

pub zero-test_bit : (k : ℕ) → test_bit 0 k ≡ false
unfolding test_bit
zero-test_bit zero = refl
zero-test_bit (suc k) = zero-test_bit k

-- `a & b` of two words of `width` bits.
unfoldable pub and_bits : ℕ → ℕ → ℕ → ℕ
and_bits zero a b = 0
and_bits (suc width) a b = and_bits width (a / 2) (b / 2) * 2 + min (a % 2) (b % 2)

pub and_bits_comm : (width a b : ℕ) → and_bits width a b ≡ and_bits width b a
unfolding and_bits
and_bits_comm zero a b = refl
and_bits_comm (suc width) a b = omega (arith, and_bits_comm width (a / 2) (b / 2))

pub and_bits_le : (width a b : ℕ) → and_bits width a b ≤ a
unfolding and_bits
and_bits_le zero a b = omega arith
and_bits_le (suc width) a b = omega (arith, and_bits_le width (a / 2) (b / 2))

pub and_bits_step :
    (width a b : ℕ)
    → and_bits (suc width) a b ≡ and_bits width (a / 2) (b / 2) * 2 + min (a % 2) (b % 2)
unfolding and_bits
and_bits_step width a b = refl
