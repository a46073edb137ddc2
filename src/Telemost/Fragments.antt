-- ===== src/Telemost/Fragments.antt =====
-- A fragment of FragmentFrame as push reads it (transport/yandex/fragment.go).
use openflux_zen_server.Prelude.{
  ℕ, zero, suc, ◌+◌, ◌-◌, ◌*◌, ◌/◌, ◌%◌, ◌≤◌, ◌<◌, ◌≡◌, refl, sym, ap, ◌∙◌, inl, inr, false, List,
  arith, ltb, leb, ◌==◌, length, take, take_all, be32, Bool-cases,
}
use native.Mathlib.Omega.{div_any}
use native.Mathlib.Nat.{mod-lt, mul-le-mul_right, mul_comm}
use openflux_zen_server.Telemost.{
  max_frame_reassembly_bytes, fragment_count, piece, fragment_body, Slot, Fragment, push_fragment,
  push_cut, push_sized, push,
}
use openflux_zen_server.Telemost.Parts.{length-piece}

-- What push reads of the fragment `i`.
abbrev pub fragment_of : ℕ → ℕ → ℕ → List ℕ → ℕ → Fragment
fragment_of chunk n seq wire i = record {
  index = i;
  pieces = n;
  size = length wire;
  number = seq;
  bytes = piece chunk wire i;
}

module _ (chunk size : ℕ) (pos : 0 < chunk) where
  abbrev pieces : ℕ
  pieces = fragment_count chunk size

  abbrev quotient : ℕ
  quotient = (size + chunk - 1) / chunk

  quotient-bounds : (size ≤ chunk * quotient) × (chunk * quotient < size + chunk)
  quotient-bounds = omega (arith, div_any (size + chunk - 1) chunk, mod-lt (size + chunk - 1) pos)

  pub count_covers : size ≤ pieces * chunk
  unfolding fragment_count
  count_covers =
      let swap = mul_comm quotient chunk in
      elim (Bool-cases (ltb 0 quotient)) [
        | inl e ↦
            let same : pieces ≡ quotient = ground arith in
            omega (arith, ap (λ k. k * chunk) same, swap, quotient-bounds.0)
        | inr e ↦
            let none : quotient ≡ 0 = ground arith in
            let least : pieces ≡ 1 = ground arith in
            omega (arith, ap (λ k. k * chunk) least, ap (λ k. chunk * k) none, quotient-bounds.0)
      ]

  -- A fragment that is not the last one is full.
  count_full : (i : ℕ) → i + 1 < pieces → i * chunk + chunk ≤ size
  unfolding fragment_count
  count_full i h =
      let enough : i + 2 ≤ quotient = ground arith in
      let more : (i + 2) * chunk ≤ quotient * chunk = mul-le-mul_right chunk enough in
      let expand : (i + 2) * chunk ≡ i * chunk + chunk + chunk = ground arith in
      omega (arith, more, expand, mul_comm quotient chunk, quotient-bounds.1)

  count_starts : (i : ℕ) → i < pieces → i * chunk ≤ size
  count_starts zero h = omega arith
  count_starts (suc j) h =
      let step : suc j * chunk ≡ j * chunk + chunk = ground arith in
      omega (arith, step, count_full j (omega (arith, h)))

-- The payload of the last fragment is the rest, and all others are full.
module _ (chunk n : ℕ) (wire : List ℕ) (i : ℕ) (pos : 0 < chunk)
    (count : n ≡ fragment_count chunk (length wire)) (hi : i < n) where
  covers : length wire ≤ n * chunk
  covers = rw count (count_covers chunk (length wire) pos)

  full : i + 1 < n → i * chunk + chunk ≤ length wire
  full h = count_full chunk (length wire) pos i (omega (arith, count, h))

  length-piece_full : i + 1 < n → length (piece chunk wire i) ≡ chunk
  length-piece_full h = omega (arith, length-piece chunk wire i, full h)

  starts_within : i * chunk ≤ length wire
  starts_within = count_starts chunk (length wire) pos i (omega (arith, count, hi))

  length-piece_last : i + 1 ≡ n → length (piece chunk wire i) ≡ length wire - i * chunk
  length-piece_last h =
      let end : n * chunk ≡ i * chunk + chunk = ap (λ k. k * chunk) (sym h) ∙ ground arith in
      omega (arith, length-piece chunk wire i, covers, end)

pub push-fragment_body :
    (limit n seq : ℕ) (wire : List ℕ) (i now : ℕ) (slots : List Slot)
    → i < n
    → n ≤ 255
    → n ≡ fragment_count (limit - 8) (length wire)
    → 8 < limit
    → length wire ≤ max_frame_reassembly_bytes
    → push limit slots now (fragment_body (limit - 8) n seq wire i)
      ≡ push_fragment slots now (fragment_of (limit - 8) n seq wire i)
unfolding push push_sized push_cut fragment_body
push-fragment_body limit n seq wire i now slots hi hn count hl size =
    let chunk = limit - 8 in
    let body = fragment_body chunk n seq wire i in
    let pos : 0 < chunk = omega arith in
    let total : be32 body 3 ≡ length wire = omega arith in
    let index : i % 256 ≡ i = omega arith in
    let pieces : n % 256 ≡ n = omega arith in
    let long : ltb (length body) 8 ≡ false = ground arith in
    let roomy : ltb limit 8 ≡ false = ground arith in
    let some_piece : (n == 0) ≡ false = ground arith in
    let in_range : leb n i ≡ false = ground arith in
    let small : ltb max_frame_reassembly_bytes (length wire) ≡ false = ground arith in
    elim (Bool-cases (i == n - 1)) [
      | inl e ↦
          let last = length-piece_last chunk n wire i pos count hi (ground arith) in
          let starts : ltb (length wire) (i * chunk) ≡ false =
            ground (arith, starts_within chunk n wire i pos count hi) in
          let whole : ltb (length body - 8) (length wire - i * chunk) ≡ false =
            ground (arith, last) in
          let cut : take (length wire - i * chunk) (piece chunk wire i) ≡ piece chunk wire i =
            take_all (length wire - i * chunk) (piece chunk wire i) (omega (arith, last)) in
          rw (long, index, pieces, total, some_piece, in_range, small, roomy, e, starts, whole, cut)
            refl
      | inr e ↦
          let last = length-piece_full chunk n wire i pos count hi (ground arith) in
          let whole : ltb (length body - 8) chunk ≡ false = ground (arith, last) in
          let cut : take chunk (piece chunk wire i) ≡ piece chunk wire i =
            take_all chunk (piece chunk wire i) (omega (arith, last)) in
          rw (long, index, pieces, total, some_piece, in_range, small, roomy, e, whole, cut) refl
    ]
