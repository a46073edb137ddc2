-- ===== src/Tests/Carriers.antt =====
-- Runs over what the carriers do with frames: fragments and their reassembly.
use openflux_zen_server.Prelude.{ℕ, ◌≡◌, refl, List, [], ◌∷◌, ◌++◌, some, none, true, arith}
use openflux_zen_server.Striped.Pieces.{
  deliver_each, all_pieces, deliver_each-all_pieces, deliver_behind_gap, pieces_left,
  deliver_behind_gap-all_pieces,
}
use openflux_zen_server.Telemost.{
  Slot, Pushed, piece, fragment_count, fragment_body, fragment_bodies, fragment_frame,
  new_reassembly, push, push_sized, push_cut, push_fragment, sweep_slots, find_slot, place_fragment,
  claim_slot, claim_from, first_free, fill_slot, finish_slot, join,
}
use openflux_zen_server.Telemost.RoundTrip.{
  Coming, push_each, last_completes, push_each-fragment_frame,
}

abbrev frame_bytes : List ℕ
frame_bytes = 11 ∷ 12 ∷ 13 ∷ 14 ∷ 15 ∷ []

-- With two bytes of room behind each header.
abbrev three_fragments : List (List ℕ)
three_fragments =
    (241 ∷ 0 ∷ 3 ∷ 0 ∷ 0 ∷ 0 ∷ 5 ∷ 7 ∷ 11 ∷ 12 ∷ [])
    ∷ (241 ∷ 1 ∷ 3 ∷ 0 ∷ 0 ∷ 0 ∷ 5 ∷ 7 ∷ 13 ∷ 14 ∷ [])
    ∷ (241 ∷ 2 ∷ 3 ∷ 0 ∷ 0 ∷ 0 ∷ 5 ∷ 7 ∷ 15 ∷ [])
    ∷ []

abbrev at : ℕ → ℕ → Coming
at now index = record { now = now; index = index }

push_each-fragment_frame_example :
    push_each 10 new_reassembly three_fragments (at 50 2 ∷ at 60 0 ∷ at 70 1 ∷ [])
    ≡ Pushed.incomplete ∷ Pushed.incomplete ∷ Pushed.frame frame_bytes ∷ []
unfolding fragment_frame fragment_count fragment_bodies fragment_body piece last_completes
push_each-fragment_frame_example =
    push_each-fragment_frame 10 7 frame_bytes three_fragments (at 50 2) (at 60 0 ∷ at 70 1 ∷ [])
      (omega arith) (omega arith) refl refl
      (
        omega arith,
        refl,
        omega arith,
        (omega arith, refl, omega arith, (omega arith, refl, omega arith, tt)),
      )

-- Two fragments of the same number that disagree on the number of pieces.
abbrev half_open : List Slot
half_open = (push 10 new_reassembly 50 (241 ∷ 0 ∷ 2 ∷ 0 ∷ 0 ∷ 0 ∷ 4 ∷ 7 ∷ 11 ∷ 12 ∷ [])).0

abbrev third_fragment : List ℕ
third_fragment = 241 ∷ 2 ∷ 3 ∷ 0 ∷ 0 ∷ 0 ∷ 5 ∷ 7 ∷ 15 ∷ []

-- A fragment that gives more pieces than its frame's first one.
third_fragment-panics : (push 10 half_open 60 third_fragment).1 ≡ Pushed.panics
unfolding push push_sized push_cut push_fragment sweep_slots find_slot place_fragment claim_slot
    claim_from first_free fill_slot finish_slot join
third_fragment-panics = refl

deliver_each-all_pieces_example :
    deliver_each none (all_pieces 2 (frame_bytes ∷ [] ∷ (1 ∷ []) ∷ []))
    ≡ (none, frame_bytes ∷ [] ∷ (1 ∷ []) ∷ [])
deliver_each-all_pieces_example =
    deliver_each-all_pieces 2 (frame_bytes ∷ [] ∷ (1 ∷ []) ∷ []) (omega arith)

deliver_behind_gap-all_pieces_example :
    deliver_behind_gap (some (9 ∷ 9 ∷ [])) (
      pieces_left 5 2 (record { cur = some frame_bytes; started = true })
      ++ all_pieces 2 (frame_bytes ∷ []))
    ≡ (none, frame_bytes ∷ [])
deliver_behind_gap-all_pieces_example =
    deliver_behind_gap-all_pieces 2 4 frame_bytes (some (9 ∷ 9 ∷ [])) (frame_bytes ∷ [])
      (omega arith)
