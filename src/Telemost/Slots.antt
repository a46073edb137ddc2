-- ===== src/Telemost/Slots.antt =====
-- The slot of a frame while its fragments come (transport/yandex/fragment.go).
use openflux_zen_server.Prelude.{
  ℕ, zero, suc, ◌+◌, ◌*◌, ◌≤◌, ◌<◌, ◌≡◌, refl, sym, ap, ◌∙◌, true, false, List, [], ◌∷◌, none, some,
  arith, ltb, ◌==◌, if◌then◌else◌, length, drop, set, get_elem?, replicate,
}
use openflux_zen_server.Telemost.{
  reassemble_timeout, piece, Slot, empty_slot, new_reassembly, Pushed, sweep_slots, find_slot,
  first_free, claim_from, claim_slot, Fragment, join, finish_slot, fill_slot, place_fragment,
  push_fragment,
}
use openflux_zen_server.Telemost.Parts.{
  among, parts_from, parts_from-none, get_elem?-parts_from, set-parts_from, filled, filled-set,
  join-parts_from, pieces_from_lem,
}
use openflux_zen_server.Telemost.Fragments.{fragment_of}

module _ (chunk n seq : ℕ) (wire : List ℕ) (deadline : ℕ) where
  -- The slot of the frame when the pieces of `seen` have come.
  abbrev pub holding : List ℕ → Slot
  holding seen = record {
    active = true;
    seq = seq;
    total = length wire;
    count = n;
    received = length seen;
    parts = parts_from chunk wire seen 0 n;
    deadline = deadline;
  }

  abbrev pub state : Slot → List Slot
  state s = s ∷ replicate 23 empty_slot

  abbrev pub Counted : List ℕ → Type 0
  Counted seen = filled chunk wire (parts_from chunk wire seen 0 n) ≡ length seen

  module _ (seen : List ℕ) (i : ℕ) (hi : i < n) (new : among seen i ≡ false)
      (counted : Counted seen) where
    pub hole : get_elem? (parts_from chunk wire seen 0 n) i ≡ some none
    hole =
        let there = get_elem?-parts_from chunk wire seen 0 n i hi in
        let same : 0 + i ≡ i = omega arith in
        there
        ∙ ap (λ k. some (if among seen k then some (piece chunk wire k) else none)) same
        ∙ ap (λ b. some (if b then some (piece chunk wire i) else none)) new

    pub written :
        set (parts_from chunk wire seen 0 n) i (some (piece chunk wire i))
        ≡ parts_from chunk wire (i ∷ seen) 0 n
    written = set-parts_from chunk wire seen 0 n i i hi (omega arith)

    pub Counted-next : Counted (i ∷ seen)
    Counted-next =
        ap (filled chunk wire) (sym written)
        ∙ filled-set chunk wire (parts_from chunk wire seen 0 n) i (piece chunk wire i) hole
        ∙ ap suc counted

    pub filled_in :
        (s : Slot)
        → fill_slot
            (state s)
            0
            (holding seen)
            (fragment_of chunk n seq wire i)
            (get_elem? (parts_from chunk wire seen 0 n) i)
          ≡ finish_slot (state s) 0 (holding (i ∷ seen))
    unfolding fill_slot
    filled_in s =
        let next : length seen + 1 ≡ suc (length seen) = omega arith in
        rw (hole, written, next) refl

    pub incomplete_yet :
        (s : Slot)
        → suc (length seen) < n
        → finish_slot (state s) 0 (holding (i ∷ seen))
          ≡ (state (holding (i ∷ seen)), Pushed.incomplete)
    unfolding finish_slot
    incomplete_yet s more = let yes : ltb (suc (length seen)) n ≡ true = ground arith in rw yes refl

    pub complete_now :
        (s : Slot)
        → suc (length seen) ≡ n
        → length wire ≤ n * chunk
        → finish_slot (state s) 0 (holding (i ∷ seen)) ≡ (new_reassembly, Pushed.frame wire)
    unfolding finish_slot
    complete_now s all covers =
        let no : ltb (suc (length seen)) n ≡ false = ground arith in
        let start : 0 * chunk ≡ 0 = omega arith in
        let end : length wire ≤ (0 + n) * chunk =
          let shift : 0 + n ≡ n = omega arith in omega (arith, ap (λ k. k * chunk) shift, covers) in
        let joined : join (parts_from chunk wire (i ∷ seen) 0 n) ≡ wire =
          join-parts_from chunk wire (i ∷ seen) 0 n (Counted-next ∙ all)
          ∙ pieces_from_lem chunk wire 0 n end
          ∙ ap (λ k. drop k wire) start in
        let same : (length wire == length wire) ≡ true = ground arith in rw (no, joined, same) refl

  pub push_held :
      (seen : List ℕ) (f : Fragment) (now : ℕ)
      → now ≤ deadline
      → f.number ≡ seq
      → push_fragment (state (holding seen)) now f
        ≡ fill_slot
            (state (holding seen))
            0
            (holding seen)
            f
            (get_elem? (parts_from chunk wire seen 0 n) f.index)
  unfolding push_fragment sweep_slots find_slot place_fragment
  push_held seen f now h own =
      let early : ltb deadline now ≡ false = ground arith in
      let found : (seq == f.number) ≡ true = ground arith in rw (early, found) refl

  pub push_first :
      (i now : ℕ)
      → deadline ≡ now + reassemble_timeout
      → push_fragment new_reassembly now (fragment_of chunk n seq wire i)
        ≡ fill_slot new_reassembly 0
            (holding [])
            (fragment_of chunk n seq wire i)
            (get_elem? (parts_from chunk wire [] 0 n) i)
  unfolding push_fragment sweep_slots find_slot place_fragment claim_slot claim_from first_free
  push_first i now h = rw (h, parts_from-none chunk wire 0 n) refl

  pub filled-none : (k : ℕ) → filled chunk wire (replicate k none) ≡ 0
  filled-none zero = refl
  filled-none (suc k) = filled-none k

  pub Counted-none : Counted []
  Counted-none = ap (filled chunk wire) (parts_from-none chunk wire 0 n) ∙ filled-none n
