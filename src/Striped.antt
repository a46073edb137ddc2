-- ===== src/Striped.antt =====
-- transport/striped.go: cutting frames into pieces on the sender's side, and putting the pieces back
-- together behind the reorder buffer. Of the sender's fields only the frame being cut is kept: what
-- dequeue takes off the queue is an argument, and so is the greatest size of a piece.
pub mod Pieces
use openflux_zen_server.Prelude.{
  ℕ, zero, suc, ◌+◌, ◌/◌, ◌%◌, Bool, true, false, List, [], ◌∷◌, ◌++◌, Option, none, some, ltb,
  ◌==◌, if◌then◌else◌, length, take, drop,
}

abbrev pub piece_cont : ℕ
piece_cont = 1

abbrev pub piece_more : ℕ
piece_more = 2

-- `cur` and `curStarted` of `sender`
pub record Cutter : Type 0 where
  pub cur : Option (List ℕ)
  pub started : Bool

-- `n` of nextPiece
unfoldable pub piece_size : ℕ → List ℕ → ℕ
piece_size most cur = if ltb most (length cur) then most else length cur

unfoldable pub piece_flag : ℕ → List ℕ → Bool → ℕ
piece_flag n cur started =
    (if started then piece_cont else 0) + (if ltb n (length cur) then piece_more else 0)

-- nextPiece, with the frame that is being cut.
unfoldable pub cut_piece : ℕ → List ℕ → Bool → Cutter × Option (List ℕ)
cut_piece most cur started =
    let n = piece_size most cur in
    (
      record { cur = if length (drop n cur) == 0 then none else some (drop n cur); started = true },
      some (piece_flag n cur started ∷ take n cur),
    )

-- nextPiece with the frame that dequeue gave, if there is one.
unfoldable pub start_piece : ℕ → Cutter → Option (List ℕ) → Cutter × Option (List ℕ)
start_piece most c none = (c, none)
start_piece most c (some f) = cut_piece most f false

unfoldable pub next_from : ℕ → Cutter → Option (List ℕ) → Option (List ℕ) → Cutter × Option (List ℕ)
next_from most c dequeued none = start_piece most c dequeued
next_from most c dequeued (some cur) = cut_piece most cur c.started

-- `nextPiece`
unfoldable pub next_piece : ℕ → Cutter → Option (List ℕ) → Cutter × Option (List ℕ)
next_piece most c dequeued = next_from most c dequeued c.cur

-- `deliverPiece` of a piece that continues one: `s.asm` and the frame that is delivered.
unfoldable pub continue_piece : ℕ → List ℕ → Option (List ℕ) → Option (List ℕ) × Option (List ℕ)
continue_piece flag p none = (none, none)
continue_piece flag p (some asm) =
    if flag / 2 % 2 == 0 then (none, some (asm ++ p)) else (some (asm ++ p), none)

unfoldable pub deliver_flagged : ℕ → List ℕ → Option (List ℕ) → Option (List ℕ) × Option (List ℕ)
deliver_flagged flag p asm =
    if flag % 2 == 0
    then if flag / 2 % 2 == 0 then (asm, some p) else (some p, none)
    else continue_piece flag p asm

-- `deliverPiece`
unfoldable pub deliver_piece : Option (List ℕ) → List ℕ → Bool → Option (List ℕ) × Option (List ℕ)
deliver_piece asm [] gap = (asm, none)
deliver_piece asm (flag ∷ p) gap = deliver_flagged flag p (if gap then none else asm)
