-- ===== src/Prelude/Bytes.antt =====
-- A byte slice is a list of numbers. Reads and writes are by index, big endian, as the source's
-- `encoding/binary` calls; a read out of range, which panics in the source, gives 0 here, and the
-- code modelled tests the length before it reads.
use Prim.Native.Nat.{ℕ, ◌+◌, ◌*◌, ◌/◌, ◌%◌, ◌^◌, ◌<◌}
use mathlib.Core.Path.{◌≡◌, refl}
use mathlib.Core.Logic.{◌↔◌}
use mathlib.Core.Bool.{Bool, true, false, ◌&&◌}
use mathlib.Core.List.{List, ◌∷◌, [], ◌++◌}
use native.Mathlib.Omega.{arith}
use openflux_zen_server.Prelude.Tests.{◌==◌}
use openflux_zen_server.Prelude.Lists.{length, get_or, set, All, length-set, All-set}

abbrev pub IsByte : ℕ → Type 0
IsByte b = b < 256

-- p[i]
abbrev pub byte_at : List ℕ → ℕ → ℕ
byte_at p i = get_or p i 0

-- binary.BigEndian.Uint16(p[i:i+2])
abbrev pub be16 : List ℕ → ℕ → ℕ
be16 p i = byte_at p i * 256 + byte_at p (i + 1)

-- binary.BigEndian.Uint32(p[i:i+4])
abbrev pub be32 : List ℕ → ℕ → ℕ
be32 p i =
    byte_at p i * 16777216 + byte_at p (i + 1) * 65536 + byte_at p (i + 2) * 256 + byte_at p (i + 3)

-- binary.BigEndian.PutUint16(p[i:i+2], v), with the conversion of v to uint16
abbrev pub put16 : List ℕ → ℕ → ℕ → List ℕ
put16 p i v = set (set p i (v / 256 % 256)) (i + 1) (v % 256)

-- binary.BigEndian.PutUint32(p[i:i+4], v), with the conversion of v to uint32
abbrev pub put32 : List ℕ → ℕ → ℕ → List ℕ
put32 p i v =
    set (set (set (set p i (v / 16777216 % 256)) (i + 1) (v / 65536 % 256)) (i + 2) (v / 256 % 256))
      (i + 3) (v % 256)

-- The bytes of a uint16 and of a uint32.
abbrev pub bytes16 : ℕ → List ℕ
bytes16 v = v / 256 % 256 ∷ v % 256 ∷ []

abbrev pub bytes32 : ℕ → List ℕ
bytes32 v = v / 16777216 % 256 ∷ v / 65536 % 256 ∷ v / 256 % 256 ∷ v % 256 ∷ []

pub length-put16 : (p : List ℕ) (i v : ℕ) → length (put16 p i v) ≡ length p
length-put16 p i v =
    omega (
      arith,
      length-set p i (v / 256 % 256),
      length-set (set p i (v / 256 % 256)) (i + 1) (v % 256),
    )

pub put16-IsByte : (p : List ℕ) (i v : ℕ) → All IsByte p → All IsByte (put16 p i v)
put16-IsByte p i v h =
    All-set IsByte _ (i + 1) (v % 256) (All-set IsByte p i (v / 256 % 256) h (omega arith))
      (omega arith)

-- binary.BigEndian.Uint64(p[i:i+8]) and the bytes of a uint64
abbrev pub be64 : List ℕ → ℕ → ℕ
be64 p i = be32 p i * 4294967296 + be32 p (i + 4)

abbrev pub bytes64 : ℕ → List ℕ
bytes64 v = bytes32 (v / 4294967296) ++ bytes32 v

-- `bytes.Equal`, and `==` on byte arrays
abbrev pub same_bytes : List ℕ → List ℕ → Bool
same_bytes [] [] = true
same_bytes [] (y ∷ ys) = false
same_bytes (x ∷ xs) [] = false
same_bytes (x ∷ xs) (y ∷ ys) = x == y && same_bytes xs ys

pub same_bytes_iff : (xs ys : List ℕ) → (same_bytes xs ys ≡ true) ↔ (xs ≡ ys)
same_bytes_iff [] [] = (λ h. refl, λ h. refl)
same_bytes_iff [] (y ∷ ys) = (λ h. cc, λ h. cc)
same_bytes_iff (x ∷ xs) [] = (λ h. cc, λ h. cc)
same_bytes_iff (x ∷ xs) (y ∷ ys) = ground (arith, same_bytes_iff xs ys)

pub be32-bytes32 : (v : ℕ) (rest : List ℕ) → v < 2 ^ 32 → be32 (bytes32 v ++ rest) 0 ≡ v
be32-bytes32 v rest h = omega arith

pub same_bytes_comm : (xs ys : List ℕ) → same_bytes xs ys ≡ same_bytes ys xs
same_bytes_comm [] [] = refl
same_bytes_comm [] (y ∷ ys) = refl
same_bytes_comm (x ∷ xs) [] = refl
same_bytes_comm (x ∷ xs) (y ∷ ys) = ground (arith, same_bytes_comm xs ys)

pub same_bytes_self : (xs : List ℕ) → same_bytes xs xs ≡ true
same_bytes_self xs = (same_bytes_iff xs xs).1 refl
