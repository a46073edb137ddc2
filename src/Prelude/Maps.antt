-- ===== src/Prelude/Maps.antt =====
-- A Go map as an association list. Writing a key that is there replaces its value in place; deleting
-- a key and the sweeps that delete while they range over the map are filters.
use Prim.Native.Nat.{ℕ, ◌+◌, ◌≤◌}
use mathlib.Core.Path.{◌≡◌, refl}
use mathlib.Core.Logic.{◌↔◌}
use mathlib.Core.Bool.{Bool, true, false}
use mathlib.Core.Option.{Option, none, some}
use mathlib.Core.List.{List, [], ◌∷◌}
use native.Mathlib.Omega.{arith}
use openflux_zen_server.Prelude.Tests.{◌==◌, if◌then◌else◌, is_some}
use openflux_zen_server.Prelude.Lists.{length}

pub record Eq {ℓ} (A : Type ℓ) : Type ℓ where
  pub beq : A → A → Bool
  pub beq_iff : (a b : A) → (beq a b ≡ true) ↔ (a ≡ b)

module _ {ℓ κ} {K : Type ℓ} {V : Type κ} ⦃e : Eq K⦄ where
  unfoldable pub lookup : K → List (K × V) → Option V
  lookup k [] = none
  lookup k ((j, v) ∷ m) = if e.beq j k then some v else lookup k m

  unfoldable pub insert : K → V → List (K × V) → List (K × V)
  insert k v [] = (k, v) ∷ []
  insert k v ((j, w) ∷ m) = if e.beq j k then (j, v) ∷ m else (j, w) ∷ insert k v m

  -- `for k, v := range m { if test(k, v) { delete(m, k) } }`
  unfoldable pub delete_if : (K → V → Bool) → List (K × V) → List (K × V)
  delete_if test [] = []
  delete_if test ((j, v) ∷ m) = if test j v then delete_if test m else (j, v) ∷ delete_if test m

  unfoldable pub delete : K → List (K × V) → List (K × V)
  delete k [] = []
  delete k ((j, v) ∷ m) = if e.beq j k then delete k m else (j, v) ∷ delete k m

  -- No key twice.
  abbrev pub Keyed : List (K × V) → Type 0
  Keyed [] = Unit {0}
  Keyed ((j, v) ∷ m) = (is_some (lookup j m) ≡ false) × Keyed m

  pub lookup-insert :
      (k j : K) (v : V) (m : List (K × V))
      → lookup j (insert k v m) ≡ (if e.beq k j then some v else lookup j m)
  unfolding lookup insert
  lookup-insert k j v [] = refl
  lookup-insert k j v ((i, w) ∷ m) =
      ground (arith, e.beq_iff k j, e.beq_iff i k, e.beq_iff i j, lookup-insert k j v m)

  pub lookup-delete :
      (k j : K) (m : List (K × V))
      → lookup j (delete k m) ≡ (if e.beq k j then none else lookup j m)
  unfolding lookup delete
  lookup-delete k j [] = ground arith
  lookup-delete k j ((i, w) ∷ m) =
      ground (arith, e.beq_iff k j, e.beq_iff i k, e.beq_iff i j, lookup-delete k j m)

  pub lookup-delete_if-none :
      (test : K → V → Bool) (j : K) (m : List (K × V))
      → lookup j m ≡ none
      → lookup j (delete_if test m) ≡ none
  unfolding lookup delete_if
  lookup-delete_if-none test j [] h = refl
  lookup-delete_if-none test j ((i, w) ∷ m) h =
      ground (arith, e.beq_iff i j, lookup-delete_if-none test j m)

  pub lookup-delete_if :
      (test : K → V → Bool) (j : K) (v : V) (m : List (K × V))
      → Keyed m
      → lookup j m ≡ some v
      → lookup j (delete_if test m) ≡ (if test j v then none else some v)
  unfolding lookup delete_if
  lookup-delete_if test j v [] u h = ground arith
  lookup-delete_if test j v ((i, w) ∷ m) u h =
      ground (arith, e.beq_iff i j, lookup-delete_if-none test j m, lookup-delete_if test j v m u.1)

  pub length-insert :
      (k : K) (v : V) (m : List (K × V))
      → length (insert k v m) ≡ (if is_some (lookup k m) then length m else length m + 1)
  unfolding insert lookup
  length-insert k v [] = omega arith
  length-insert k v ((j, w) ∷ m) = ground (arith, length-insert k v m)

  pub length-delete : (k : K) (m : List (K × V)) → length (delete k m) ≤ length m
  unfolding delete
  length-delete k [] = omega arith
  length-delete k ((j, v) ∷ m) = ground (arith, length-delete k m)

  pub length-delete_if :
      (test : K → V → Bool) (m : List (K × V)) → length (delete_if test m) ≤ length m
  unfolding delete_if
  length-delete_if test [] = omega arith
  length-delete_if test ((j, v) ∷ m) = ground (arith, length-delete_if test m)

  pub insert-Keyed : (k : K) (v : V) (m : List (K × V)) → Keyed m → Keyed (insert k v m)
  unfolding insert lookup
  insert-Keyed k v [] u = (refl, tt)
  insert-Keyed k v ((j, w) ∷ m) u =
      ground (arith, lookup-insert k j v m, insert-Keyed k v m u.1, e.beq_iff j k, e.beq_iff k j)

  pub delete-Keyed : (k : K) (m : List (K × V)) → Keyed m → Keyed (delete k m)
  unfolding delete lookup
  delete-Keyed k [] u = tt
  delete-Keyed k ((j, w) ∷ m) u = ground (arith, lookup-delete k j m, delete-Keyed k m u.1)

  pub delete_if-Keyed :
      (test : K → V → Bool) (m : List (K × V)) → Keyed m → Keyed (delete_if test m)
  unfolding delete_if lookup
  delete_if-Keyed test [] u = tt
  delete_if-Keyed test ((j, w) ∷ m) u =
      ground (arith, lookup-delete_if-none test j m, delete_if-Keyed test m u.1)

pub nat_beq_iff : (a b : ℕ) → ((a == b) ≡ true) ↔ (a ≡ b)
nat_beq_iff a b = ground arith

instance abbrev pub nat_eq : Eq ℕ
nat_eq = record { beq = ◌==◌; beq_iff = nat_beq_iff }

-- Each entry of a list of entries is the one that a map has under its key.
abbrev pub Held {ℓ κ} : {K : Type ℓ} {V : Type κ} ⦃e : Eq K⦄ → List (K × V) → List (K × V) → Type κ
Held m [] = Unit
Held m ((j, v) ∷ rest) = (lookup j m ≡ some v) × Held m rest

module _ {ℓ κ} {K : Type ℓ} {V : Type κ} ⦃e : Eq K⦄ where
  Held-cons :
      (j : K) (v : V) (m rest : List (K × V))
      → is_some (lookup j rest) ≡ false
      → Held m rest
      → Held ((j, v) ∷ m) rest
  unfolding lookup
  Held-cons j v m [] u h = tt
  Held-cons j v m ((i, w) ∷ rest) u h =
      ground (arith, e.beq_iff i j, e.beq_iff j i, Held-cons j v m rest)

  pub Held-delete :
      (j : K) (m rest : List (K × V))
      → is_some (lookup j rest) ≡ false
      → Held m rest
      → Held (delete j m) rest
  unfolding lookup
  Held-delete j m [] u h = tt
  Held-delete j m ((i, w) ∷ rest) u h =
      ground (arith, e.beq_iff i j, e.beq_iff j i, lookup-delete j i m, Held-delete j m rest)

  pub Keyed-Held : (m : List (K × V)) → Keyed m → Held m m
  unfolding lookup
  Keyed-Held [] u = tt
  Keyed-Held ((j, v) ∷ m) u =
      ground (arith, e.beq_iff j j, Held-cons j v m m u.0 (Keyed-Held m u.1))
