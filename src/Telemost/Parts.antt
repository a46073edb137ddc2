-- ===== src/Telemost/Parts.antt =====
-- The parts of a frame of which some pieces have come (transport/yandex/fragment.go).
use openflux_zen_server.Prelude.{
  ℕ, zero, suc, ◌+◌, ◌-◌, ◌*◌, ◌≤◌, ◌<◌, ◌≡◌, refl, sym, ap, ◌∙◌, inl, inr, Bool, true, false, ◌||◌,
  List, [], ◌∷◌, ◌++◌, Option, none, some, min, arith, ◌==◌, if◌then◌else◌, length, drop, set,
  get_elem?, replicate, length-take, length-drop, drop-drop, drop_all, take-min-append-drop,
  Bool-cases,
}
use openflux_zen_server.Telemost.{piece, join}

abbrev pub among : List ℕ → ℕ → Bool
among [] n = false
among (x ∷ xs) n = x == n || among xs n

module _ (chunk : ℕ) (wire : List ℕ) where
  -- The parts from the place `i` on, when the pieces of `seen` have come.
  abbrev pub parts_from : List ℕ → ℕ → ℕ → List (Option (List ℕ))
  parts_from seen i zero = []
  parts_from seen i (suc k) =
      (if among seen i then some (piece chunk wire i) else none) ∷ parts_from seen (i + 1) k

  -- The pieces from the place `i` on, one after the other.
  abbrev pub pieces_from : ℕ → ℕ → List ℕ
  pieces_from i zero = []
  pieces_from i (suc k) = piece chunk wire i ++ pieces_from (i + 1) k

  pub parts_from-none : (i k : ℕ) → parts_from [] i k ≡ replicate k none
  parts_from-none i zero = refl
  parts_from-none i (suc k) = ap (◌∷◌ none) (parts_from-none (i + 1) k)

  pub get_elem?-parts_from :
      (seen : List ℕ) (i k j : ℕ)
      → j < k
      → get_elem? (parts_from seen i k) j
        ≡ some (if among seen (i + j) then some (piece chunk wire (i + j)) else none)
  get_elem?-parts_from seen i zero j h = absurd (omega arith)
  get_elem?-parts_from seen i (suc k) zero h =
      ap (λ n. some (if among seen n then some (piece chunk wire n) else none)) (omega arith)
  get_elem?-parts_from seen i (suc k) (suc j) h =
      get_elem?-parts_from seen (i + 1) k j (omega arith)
      ∙ ap (λ n. some (if among seen n then some (piece chunk wire n) else none)) (omega arith)

  -- A piece of another place changes nothing from here on.
  parts_from_past :
      (seen : List ℕ) (x i k : ℕ) → x < i → parts_from (x ∷ seen) i k ≡ parts_from seen i k
  parts_from_past seen x i zero h = refl
  parts_from_past seen x i (suc k) h =
      let other : (x == i) ≡ false = ground arith in
      rw (other, parts_from_past seen x (i + 1) k (omega arith)) refl

  parts_from_here :
      (seen : List ℕ) (n i k : ℕ)
      → n ≡ i
      → some (piece chunk wire n) ∷ parts_from seen (i + 1) k ≡ parts_from (n ∷ seen) i (suc k)
  parts_from_here seen n i k e =
      let same : (n == i) ≡ true = ground arith in
      rw (same, parts_from_past seen n (i + 1) k (omega arith))
        (ap (λ m. some (piece chunk wire m) ∷ parts_from seen (i + 1) k) e)

  pub set-parts_from :
      (seen : List ℕ) (i k j n : ℕ)
      → j < k
      → n ≡ i + j
      → set (parts_from seen i k) j (some (piece chunk wire n)) ≡ parts_from (n ∷ seen) i k
  set-parts_from seen i zero j n h e = absurd (omega arith)
  set-parts_from seen i (suc k) zero n h e = parts_from_here seen n i k (omega arith)
  set-parts_from seen i (suc k) (suc j) n h e =
      let other : (n == i) ≡ false = ground arith in
      rw (other, set-parts_from seen (i + 1) k j n (omega arith) (omega arith)) refl

  -- How many pieces have come.
  abbrev pub filled : List (Option (List ℕ)) → ℕ
  filled [] = 0
  filled (none ∷ parts) = filled parts
  filled (some p ∷ parts) = suc (filled parts)

  filled_le : (seen : List ℕ) (i k : ℕ) → filled (parts_from seen i k) ≤ k
  filled_le seen i zero = omega arith
  filled_le seen i (suc k) = elim (Bool-cases (among seen i)) [
    | inl e ↦ rw e (omega (arith, filled_le seen (i + 1) k))
    | inr e ↦ rw e (omega (arith, filled_le seen (i + 1) k))
  ]

  pub filled-set :
      (parts : List (Option (List ℕ))) (j : ℕ) (p : List ℕ)
      → get_elem? parts j ≡ some none
      → filled (set parts j (some p)) ≡ suc (filled parts)
  filled-set [] j p h = absurd cc
  filled-set (none ∷ parts) zero p h = refl
  filled-set (some q ∷ parts) zero p h = absurd cc
  filled-set (none ∷ parts) (suc j) p h = filled-set parts j p h
  filled-set (some q ∷ parts) (suc j) p h = ap suc (filled-set parts j p h)

  -- Once every piece has come, the parts join to the pieces.
  pub join-parts_from :
      (seen : List ℕ) (i k : ℕ)
      → filled (parts_from seen i k) ≡ k
      → join (parts_from seen i k) ≡ pieces_from i k
  unfolding join
  join-parts_from seen i zero h = refl
  join-parts_from seen i (suc k) h = elim (Bool-cases (among seen i)) [
    | inl e ↦
        let count : filled (parts_from seen i (suc k)) ≡ suc (filled (parts_from seen (i + 1) k)) =
          rw e refl in
        let rest : filled (parts_from seen (i + 1) k) ≡ k = omega (arith, count, h) in
        rw e (ap (λ xs. piece chunk wire i ++ xs) (join-parts_from seen (i + 1) k rest))
    | inr e ↦
        let count : filled (parts_from seen i (suc k)) ≡ filled (parts_from seen (i + 1) k) =
          rw e refl in
        absurd (omega (arith, count, h, filled_le seen (i + 1) k))
  ]

  pub length-piece :
      (i : ℕ) → length (piece chunk wire i) ≡ min (i * chunk + chunk) (length wire) - i * chunk
  unfolding piece
  length-piece i = omega (
    arith,
    length-take (min (i * chunk + chunk) (length wire) - i * chunk) (drop (i * chunk) wire),
    length-drop (i * chunk) wire,
  )

  piece-drop :
      (i : ℕ) → piece chunk wire i ++ drop chunk (drop (i * chunk) wire) ≡ drop (i * chunk) wire
  unfolding piece
  piece-drop i =
      take-min-append-drop chunk (min (i * chunk + chunk) (length wire) - i * chunk)
        (drop (i * chunk) wire) (omega (arith, length-drop (i * chunk) wire))

  pub pieces_from_lem :
      (i k : ℕ) → length wire ≤ (i + k) * chunk → pieces_from i k ≡ drop (i * chunk) wire
  pieces_from_lem i zero h =
      let below : (i + 0) * chunk ≡ i * chunk = ap (λ n. n * chunk) (omega arith) in
      sym (drop_all (i * chunk) wire (omega (arith, below, h)))
  pieces_from_lem i (suc k) h =
      let next : (i + suc k) * chunk ≡ (i + 1 + k) * chunk = ap (λ n. n * chunk) (omega arith) in
      let step : (i + 1) * chunk ≡ i * chunk + chunk = ground arith in
      let rest = pieces_from_lem (i + 1) k (omega (arith, next, h)) in
      let after = drop-drop (i * chunk) chunk ((i + 1) * chunk) wire step in
      ap (λ xs. piece chunk wire i ++ xs) (rest ∙ sym after) ∙ piece-drop i
