-- ===== src/Telemost/RoundTrip.antt =====
-- The fragments of a frame, in any order, give the frame back (transport/yandex/fragment.go).
use openflux_zen_server.Prelude.{
  ℕ, zero, suc, ◌+◌, ◌-◌, ◌*◌, ◌≤◌, ◌<◌, ◌≡◌, refl, sym, ap, ◌∙◌, inl, inr, false, List, [], ◌∷◌,
  none, some, arith, ltb, length, get_or, Bool-cases,
}
use openflux_zen_server.Telemost.{
  max_fragments_per_frame, max_frame_reassembly_bytes, reassemble_timeout, fragment_count,
  fragment_body, fragment_bodies, fragment_frame, Slot, empty_slot, new_reassembly, Pushed,
  finish_slot, push_fragment, push,
}
use openflux_zen_server.Telemost.Parts.{among}
use openflux_zen_server.Telemost.Fragments.{fragment_of, push-fragment_body, count_covers}
use openflux_zen_server.Telemost.Slots.{
  holding, state, Counted, Counted-next, filled_in, incomplete_yet, complete_now, push_held,
  push_first, Counted-none,
}

-- Which fragment comes when.
pub record Coming : Type 0 where
  pub now : ℕ
  pub index : ℕ

-- `push` of the fragments in the order in which they come.
unfoldable pub push_each : ℕ → List Slot → List (List ℕ) → List Coming → List Pushed
push_each limit slots fragments [] = []
push_each limit slots fragments (c ∷ coming) =
    let r = push limit slots c.now (get_or fragments c.index []) in
    r.1 ∷ push_each limit r.0 fragments coming

-- The last push gives the frame, and those before it nothing.
unfoldable pub last_completes : List ℕ → List Coming → List Pushed
last_completes wire [] = []
last_completes wire (c ∷ []) = Pushed.frame wire ∷ []
last_completes wire (c ∷ d ∷ coming) = Pushed.incomplete ∷ last_completes wire (d ∷ coming)

-- Fragments of a frame of `n`, none of them twice nor in `seen`, that come before the deadline.
abbrev pub InTime : ℕ → ℕ → List ℕ → List Coming → Type 0
InTime n deadline seen [] = Unit {0}
InTime n deadline seen (c ∷ coming) =
    (c.index < n)
    × (among seen c.index ≡ false)
    × (c.now ≤ deadline)
    × InTime n deadline (c.index ∷ seen) coming

get_or-fragment_bodies :
    (chunk n seq : ℕ) (wire : List ℕ) (i k j : ℕ)
    → j < k
    → get_or (fragment_bodies chunk n seq wire i k) j [] ≡ fragment_body chunk n seq wire (i + j)
unfolding fragment_bodies
get_or-fragment_bodies chunk n seq wire i zero j h = absurd (omega arith)
get_or-fragment_bodies chunk n seq wire i (suc k) zero h =
    ap (fragment_body chunk n seq wire) (omega arith)
get_or-fragment_bodies chunk n seq wire i (suc k) (suc j) h =
    get_or-fragment_bodies chunk n seq wire (i + 1) k j (omega arith)
    ∙ ap (fragment_body chunk n seq wire) (omega arith)

module _ (limit n seq : ℕ) (wire : List ℕ) (deadline : ℕ) (hn : n ≤ 255)
    (count : n ≡ fragment_count (limit - 8) (length wire)) (hl : 8 < limit)
    (size : length wire ≤ max_frame_reassembly_bytes) where
  abbrev room : ℕ
  room = limit - 8

  abbrev bodies : List (List ℕ)
  bodies = fragment_bodies room n seq wire 0 n

  abbrev held : List ℕ → List Slot
  held seen = state room n seq wire deadline (holding room n seq wire deadline seen)

  covered : length wire ≤ n * room
  covered = rw count (count_covers room (length wire) (omega arith))

  reads :
      (slots : List Slot) (now i : ℕ)
      → i < n
      → push limit slots now (get_or bodies i [])
        ≡ push_fragment slots now (fragment_of room n seq wire i)
  reads slots now i hi =
      ap (push limit slots now) (
        get_or-fragment_bodies room n seq wire 0 n i hi
        ∙ ap (fragment_body room n seq wire) (omega arith))
      ∙ push-fragment_body limit n seq wire i now slots hi hn count hl size

  module _ (seen : List ℕ) (c : Coming) (coming : List Coming)
      (counted : Counted room n seq wire deadline seen)
      (total : suc (length seen) + length coming ≡ n)
      (times : InTime n deadline seen (c ∷ coming)) where
    pushes :
        push limit (held seen) c.now (get_or bodies c.index [])
        ≡ finish_slot (held seen) 0 (holding room n seq wire deadline (c.index ∷ seen))
    pushes =
        reads (held seen) c.now c.index times.0
        ∙ push_held room n seq wire deadline seen (fragment_of room n seq wire c.index) c.now
            times.2 refl
        ∙ filled_in room n seq wire deadline seen c.index times.0 times.1 counted
            (holding room n seq wire deadline seen)

  rest_completes :
      (seen : List ℕ) (c : Coming) (coming : List Coming)
      → Counted room n seq wire deadline seen
      → suc (length seen) + length coming ≡ n
      → InTime n deadline seen (c ∷ coming)
      → push_each limit (held seen) bodies (c ∷ coming) ≡ last_completes wire (c ∷ coming)
  unfolding push_each last_completes
  rest_completes seen c [] counted total times =
      let step =
        pushes seen c [] counted total times
        ∙ complete_now room n seq wire deadline seen c.index times.0 times.1 counted
            (holding room n seq wire deadline seen) (omega (arith, total)) covered in
      rw step refl
  rest_completes seen c (d ∷ coming) counted total times =
      let step =
        pushes seen c (d ∷ coming) counted total times
        ∙ incomplete_yet room n seq wire deadline seen c.index times.0 times.1 counted
            (holding room n seq wire deadline seen) (omega (arith, total)) in
      let next = Counted-next room n seq wire deadline seen c.index times.0 times.1 counted in
      rw step (
        ap (◌∷◌ Pushed.incomplete)
          (rest_completes (c.index ∷ seen) d coming next (omega (arith, total)) times.3))

  first_pushes :
      (c : Coming)
      → c.index < n
      → deadline ≡ c.now + reassemble_timeout
      → push limit new_reassembly c.now (get_or bodies c.index [])
        ≡ finish_slot new_reassembly 0 (holding room n seq wire deadline (c.index ∷ []))
  first_pushes c hi due =
      reads new_reassembly c.now c.index hi
      ∙ push_first room n seq wire deadline c.index c.now due
      ∙ filled_in room n seq wire deadline [] c.index hi refl
          (Counted-none room n seq wire deadline) empty_slot

  all_complete :
      (c : Coming) (coming : List Coming)
      → deadline ≡ c.now + reassemble_timeout
      → suc (length coming) ≡ n
      → InTime n deadline [] (c ∷ coming)
      → push_each limit new_reassembly bodies (c ∷ coming) ≡ last_completes wire (c ∷ coming)
  unfolding push_each last_completes
  all_complete c [] due total times =
      let counted = Counted-none room n seq wire deadline in
      let step =
        first_pushes c times.0 due
        ∙ complete_now room n seq wire deadline [] c.index times.0 refl counted empty_slot
            (omega (arith, total)) covered in
      rw step refl
  all_complete c (d ∷ coming) due total times =
      let counted = Counted-none room n seq wire deadline in
      let step =
        first_pushes c times.0 due
        ∙ incomplete_yet room n seq wire deadline [] c.index times.0 refl counted empty_slot
            (omega (arith, total)) in
      let next = Counted-next room n seq wire deadline [] c.index times.0 refl counted in
      rw step (
        ap (◌∷◌ Pushed.incomplete)
          (rest_completes (c.index ∷ []) d coming next (omega (arith, total)) times.3))

length-fragment_bodies :
    (chunk n seq : ℕ) (wire : List ℕ) (i k : ℕ) → length (fragment_bodies chunk n seq wire i k) ≡ k
unfolding fragment_bodies
length-fragment_bodies chunk n seq wire i zero = refl
length-fragment_bodies chunk n seq wire i (suc k) =
    ap suc (length-fragment_bodies chunk n seq wire (i + 1) k)

none-some : (fragments : List (List ℕ)) → none ≡ some fragments → ⊥
none-some fragments h = cc

some_same : {xs ys : List (List ℕ)} → some xs ≡ some ys → xs ≡ ys
some_same h = cc

fragment_frame-some :
    (limit seq : ℕ) (wire : List ℕ) (fragments : List (List ℕ))
    → fragment_frame limit seq wire ≡ some fragments
    → (fragment_count (limit - 8) (length wire) ≤ 255)
      × (fragments
          ≡ fragment_bodies
              (limit - 8)
              (fragment_count (limit - 8) (length wire))
              seq
              wire
              0
              (fragment_count (limit - 8) (length wire)))
unfolding fragment_frame
fragment_frame-some limit seq wire fragments h =
    let n = fragment_count (limit - 8) (length wire) in
    elim (Bool-cases (ltb max_fragments_per_frame n)) [
      | inl e ↦
          let refused : fragment_frame limit seq wire ≡ none = rw e refl in
          absurd (none-some fragments (sym refused ∙ h))
      | inr e ↦
          let made : fragment_frame limit seq wire
              ≡ some (fragment_bodies (limit - 8) n seq wire 0 n) =
            rw e refl in
          (ground (arith, e), some_same (sym h ∙ made))
    ]

InTime-number :
    (m n deadline : ℕ) (seen : List ℕ) (coming : List Coming)
    → m ≡ n
    → InTime m deadline seen coming
    → InTime n deadline seen coming
InTime-number m n deadline seen coming e h = rw (← e) h

-- Reordering within a frame is harmless: when FragmentFrame cuts a frame of at most 2^20 bytes, with a
-- limit above the header's eight bytes, and each fragment comes to a new reassembler once, in any
-- order and within the timeout after the first, then the last push gives exactly the frame, and no
-- push before it gives anything.
pub push_each-fragment_frame :
    (limit seq : ℕ) (wire : List ℕ) (fragments : List (List ℕ)) (c : Coming) (coming : List Coming)
    → 8 < limit
    → length wire ≤ max_frame_reassembly_bytes
    → fragment_frame limit seq wire ≡ some fragments
    → suc (length coming) ≡ length fragments
    → InTime (length fragments) (c.now + reassemble_timeout) [] (c ∷ coming)
    → push_each limit new_reassembly fragments (c ∷ coming) ≡ last_completes wire (c ∷ coming)
push_each-fragment_frame limit seq wire fragments c coming hl size made total times =
    let (few, same) = fragment_frame-some limit seq wire fragments made in
    let n = fragment_count (limit - 8) (length wire) in
    let number : length fragments ≡ n =
      ap length same ∙ length-fragment_bodies (limit - 8) n seq wire 0 n in
    let times' : InTime n (c.now + reassemble_timeout) [] (c ∷ coming) =
      InTime-number (length fragments) n (c.now + reassemble_timeout) [] (c ∷ coming) number
        times in
    rw same (
      all_complete limit n seq wire (c.now + reassemble_timeout) few refl hl size c coming refl
        (total ∙ number) times')
