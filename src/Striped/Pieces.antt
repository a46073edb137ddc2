-- ===== src/Striped/Pieces.antt =====
-- The pieces of a frame give the frame back (transport/striped.go).
use openflux_zen_server.Prelude.{
  ℕ, zero, suc, ◌+◌, ◌≤◌, ◌<◌, ◌≡◌, refl, ap, ◌∙◌, inl, inr, Bool, true, false, List, [], ◌∷◌, ◌++◌,
  Option, none, some, arith, ltb, ◌==◌, if◌then◌else◌, length, take, drop, Bool-cases,
  take-append-drop, length-drop, take_all, drop_all, append_assoc,
}
use openflux_zen_server.Striped.{
  Cutter, piece_size, piece_flag, cut_piece, start_piece, next_from, next_piece, continue_piece,
  deliver_flagged, deliver_piece,
}

unfoldable pub opt_cons : Option (List ℕ) → List (List ℕ) → List (List ℕ)
opt_cons none rest = rest
opt_cons (some p) rest = p ∷ rest

-- The pieces that nextPiece gives until the frame is cut up. Each takes a byte at least, so the
-- frame's length is enough rounds.
unfoldable pub pieces_left : ℕ → ℕ → Cutter → List (List ℕ)
pieces_left zero most c = []
pieces_left (suc rounds) most c =
    let r = next_piece most c none in opt_cons r.1 (pieces_left rounds most r.0)

-- The pieces of a frame that dequeue gives.
unfoldable pub pieces_of : ℕ → List ℕ → List (List ℕ)
pieces_of most f =
    let r = next_piece most (record { cur = none; started = false }) (some f) in
    opt_cons r.1 (pieces_left (length f) most r.0)

unfoldable pub all_pieces : ℕ → List (List ℕ) → List (List ℕ)
all_pieces most [] = []
all_pieces most (f ∷ frames) = pieces_of most f ++ all_pieces most frames

-- `deliverPiece` of each piece, none of which comes behind a gap.
unfoldable pub deliver_each : Option (List ℕ) → List (List ℕ) → Option (List ℕ) × List (List ℕ)
deliver_each asm [] = (asm, [])
deliver_each asm (p ∷ pieces) =
    let r = deliver_piece asm p false in
    let rest = deliver_each r.0 pieces in (rest.0, opt_cons r.1 rest.1)

-- `deliverPiece` of each piece, of which the first comes behind a gap.
unfoldable pub deliver_behind_gap :
    Option (List ℕ) → List (List ℕ) → Option (List ℕ) × List (List ℕ)
deliver_behind_gap asm [] = (asm, [])
deliver_behind_gap asm (p ∷ pieces) =
    let r = deliver_piece asm p true in
    let rest = deliver_each r.0 pieces in (rest.0, opt_cons r.1 rest.1)

abbrev cutting : List ℕ → Bool → Cutter
cutting cur started = record { cur = some cur; started = started }

abbrev cut_up : Cutter
cut_up = record { cur = none; started = true }

flag_of : Bool → Bool → ℕ
flag_of started more = (if started then 1 else 0) + (if more then 2 else 0)

-- A cut that leaves something, and the last cut.
cut_more :
    (most : ℕ) (cur : List ℕ) (started : Bool)
    → 0 < most
    → most < length cur
    → cut_piece most cur started
      ≡ (cutting (drop most cur) true, some (flag_of started true ∷ take most cur))
unfolding cut_piece piece_size piece_flag flag_of
cut_more most cur started pos h =
    let long : ltb most (length cur) ≡ true = ground arith in
    let left : (length (drop most cur) == 0) ≡ false = ground (arith, length-drop most cur) in
    rw (long, long, left) refl

cut_last :
    (most : ℕ) (cur : List ℕ) (started : Bool)
    → length cur ≤ most
    → cut_piece most cur started ≡ (cut_up, some (flag_of started false ∷ cur))
unfolding cut_piece piece_size piece_flag flag_of
cut_last most cur started h =
    let short : ltb most (length cur) ≡ false = ground arith in
    let none_left : drop (length cur) cur ≡ [] = drop_all (length cur) cur (omega arith) in
    let all : take (length cur) cur ≡ cur = take_all (length cur) cur (omega arith) in
    let same : ltb (length cur) (length cur) ≡ false = ground arith in
    rw (short, none_left, all, same) refl

pieces_none : (rounds most : ℕ) → pieces_left rounds most cut_up ≡ []
unfolding pieces_left next_piece next_from start_piece opt_cons
pieces_none zero most = refl
pieces_none (suc rounds) most = pieces_none rounds most

module _ (most : ℕ) (pos : 0 < most) where
  left_more :
      (rounds : ℕ) (cur : List ℕ)
      → most < length cur
      → pieces_left (suc rounds) most (cutting cur true)
        ≡ (flag_of true true ∷ take most cur)
          ∷ pieces_left rounds most (cutting (drop most cur) true)
  unfolding pieces_left next_piece next_from opt_cons
  left_more rounds cur h = rw (cut_more most cur true pos h) refl

  left_last :
      (rounds : ℕ) (cur : List ℕ)
      → length cur ≤ most
      → pieces_left (suc rounds) most (cutting cur true) ≡ (flag_of true false ∷ cur) ∷ []
  unfolding pieces_left next_piece next_from opt_cons
  left_last rounds cur h =
      rw (cut_last most cur true h) (ap (◌∷◌ (flag_of true false ∷ cur)) (pieces_none rounds most))

  of_more :
      (f : List ℕ)
      → most < length f
      → pieces_of most f
        ≡ (flag_of false true ∷ take most f)
          ∷ pieces_left (length f) most (cutting (drop most f) true)
  unfolding pieces_of next_piece next_from start_piece opt_cons
  of_more f h = rw (cut_more most f false pos h) refl

  of_last : (f : List ℕ) → length f ≤ most → pieces_of most f ≡ (flag_of false false ∷ f) ∷ []
  unfolding pieces_of next_piece next_from start_piece opt_cons
  of_last f h =
      rw (cut_last most f false h)
        (ap (◌∷◌ (flag_of false false ∷ f)) (pieces_none (length f) most))

  -- The rest of a frame completes what is assembled of it.
  left_completes :
      (rounds : ℕ) (cur asm : List ℕ)
      → 0 < length cur
      → length cur ≤ rounds
      → deliver_each (some asm) (pieces_left rounds most (cutting cur true))
        ≡ (none, (asm ++ cur) ∷ [])
  unfolding deliver_each deliver_piece deliver_flagged continue_piece opt_cons flag_of
  left_completes zero cur asm some_left enough = absurd (omega arith)
  left_completes (suc rounds) cur asm some_left enough = elim (Bool-cases (ltb most (length cur))) [
    | inl e ↦
        let rest =
          left_completes rounds (drop most cur) (asm ++ take most cur)
            (ground (arith, length-drop most cur)) (ground (arith, length-drop most cur)) in
        rw (left_more rounds cur (ground arith)) (
          rest
          ∙ ap (λ xs. (none, xs ∷ []))
              (append_assoc asm (take most cur) (drop most cur)
                ∙ ap (λ xs. asm ++ xs) (take-append-drop most cur)))
    | inr e ↦ rw (left_last rounds cur (ground arith)) refl
  ]

  -- The rest of a frame whose start was lost gives nothing.
  left_lost :
      (rounds : ℕ) (cur : List ℕ)
      → deliver_each none (pieces_left rounds most (cutting cur true)) ≡ (none, [])
  unfolding deliver_each deliver_piece deliver_flagged continue_piece opt_cons flag_of pieces_left
  left_lost zero cur = refl
  left_lost (suc rounds) cur = elim (Bool-cases (ltb most (length cur))) [
    | inl e ↦ rw (left_more rounds cur (ground arith)) (left_lost rounds (drop most cur))
    | inr e ↦ rw (left_last rounds cur (ground arith)) refl
  ]

  whole_frame : (f : List ℕ) → deliver_each none (pieces_of most f) ≡ (none, f ∷ [])
  unfolding deliver_each deliver_piece deliver_flagged continue_piece opt_cons flag_of
  whole_frame f = elim (Bool-cases (ltb most (length f))) [
    | inl e ↦ rw (of_more f (ground arith)) (
        left_completes (length f) (drop most f) (take most f) (ground (arith, length-drop most f))
          (omega (arith, length-drop most f))
        ∙ ap (λ xs. (none, xs ∷ [])) (take-append-drop most f))
    | inr e ↦ rw (of_last f (ground arith)) refl
  ]

opt_cons-append :
    (o : Option (List ℕ)) (xs ys : List (List ℕ)) → opt_cons o (xs ++ ys) ≡ opt_cons o xs ++ ys
unfolding opt_cons
opt_cons-append none xs ys = refl
opt_cons-append (some p) xs ys = refl

deliver_each-append :
    (asm : Option (List ℕ)) (xs ys : List (List ℕ))
    → deliver_each asm (xs ++ ys) ≡ (
      (deliver_each (deliver_each asm xs).0 ys).0,
      (deliver_each asm xs).1 ++ (deliver_each (deliver_each asm xs).0 ys).1,
    )
unfolding deliver_each
deliver_each-append asm [] ys = refl
deliver_each-append asm (x ∷ xs) ys =
    let r = deliver_piece asm x false in
    rw (deliver_each-append r.0 xs ys) (
      ap (λ zs. ((deliver_each (deliver_each r.0 xs).0 ys).0, zs))
        (opt_cons-append r.1 (deliver_each r.0 xs).1 (deliver_each (deliver_each r.0 xs).0 ys).1))

-- What is cut is put together again: the pieces of any frames, each at most `most` bytes long, are
-- delivered as exactly those frames, in order, and nothing is left half assembled.
pub deliver_each-all_pieces :
    (most : ℕ) (frames : List (List ℕ))
    → 0 < most
    → deliver_each none (all_pieces most frames) ≡ (none, frames)
unfolding all_pieces deliver_each
deliver_each-all_pieces most [] pos = refl
deliver_each-all_pieces most (f ∷ frames) pos =
    deliver_each-append none (pieces_of most f) (all_pieces most frames)
    ∙ rw (whole_frame most pos f, deliver_each-all_pieces most frames pos) refl

behind_gap :
    (asm : Option (List ℕ)) (flag : ℕ) (p : List ℕ) (pieces : List (List ℕ))
    → deliver_behind_gap asm ((flag ∷ p) ∷ pieces) ≡ deliver_each none ((flag ∷ p) ∷ pieces)
unfolding deliver_behind_gap deliver_each deliver_piece
behind_gap asm flag p pieces = refl

left_behind_gap :
    (most : ℕ) (pos : 0 < most) (rounds : ℕ) (cur : List ℕ) (asm : Option (List ℕ))
    (rest : List (List ℕ))
    → deliver_behind_gap asm (pieces_left (suc rounds) most (cutting cur true) ++ rest)
      ≡ deliver_each none (pieces_left (suc rounds) most (cutting cur true) ++ rest)
left_behind_gap most pos rounds cur asm rest = elim (Bool-cases (ltb most (length cur))) [
  | inl e ↦ rw (left_more most pos rounds cur (ground arith)) (behind_gap asm _ _ _)
  | inr e ↦ rw (left_last most pos rounds cur (ground arith)) (behind_gap asm _ _ _)
]

-- Nothing is spliced across a loss: whatever was half assembled, when the pieces behind a gap are the
-- rest of a frame that was being cut and then those of whole frames, exactly the whole frames are
-- delivered, in order, and nothing of the one that lost its start.
pub deliver_behind_gap-all_pieces :
    (most rounds : ℕ) (cur : List ℕ) (asm : Option (List ℕ)) (frames : List (List ℕ))
    → 0 < most
    → deliver_behind_gap asm (
        pieces_left (suc rounds) most (record { cur = some cur; started = true })
        ++ all_pieces most frames)
      ≡ (none, frames)
deliver_behind_gap-all_pieces most rounds cur asm frames pos =
    left_behind_gap most pos rounds cur asm (all_pieces most frames)
    ∙ deliver_each-append none (pieces_left (suc rounds) most (cutting cur true))
        (all_pieces most frames)
    ∙ rw (left_lost most pos (suc rounds) cur, deliver_each-all_pieces most frames pos) refl
