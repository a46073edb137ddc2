-- ===== src/Session/Replay.antt =====
-- transport/session.go, the replay window of a Session: each data packet carries a 64-bit sequence
-- number, and is accepted at most once and only within 4096 of the newest one. The window is a ring
-- of 4096 bits in 64 words. Sequence numbers are below 2^64, so nothing here wraps.
pub mod Ring
pub mod Refinement
use openflux_zen_server.Prelude.{
  ℕ, zero, suc, ◌+◌, ◌-◌, ◌/◌, ◌%◌, Bool, true, false, ◌||◌, List, [], ◌∷◌, ltb, leb, ◌==◌,
  if◌then◌else◌, get_or, set, replicate,
}
use openflux_zen_server.Prelude.BitField.{test_bit, set_bit, clear_bit}

abbrev pub replay_window_size : ℕ
replay_window_size = 4096

-- `replayWindow`: 64 words of 64 bits.
abbrev pub ReplayWindow : Type 0
ReplayWindow = List ℕ

unfoldable pub empty_window : ReplayWindow
empty_window = replicate 64 0

unfoldable pub has : ReplayWindow → ℕ → Bool
has w seq = let i = seq % replay_window_size in test_bit (get_or w (i / 64) 0) (i % 64)

unfoldable pub mark : ReplayWindow → ℕ → ReplayWindow
mark w seq =
    let i = seq % replay_window_size in set w (i / 64) (set_bit (get_or w (i / 64) 0) (i % 64))

unfoldable pub clear : ReplayWindow → ℕ → ReplayWindow
clear w seq =
    let i = seq % replay_window_size in set w (i / 64) (clear_bit (get_or w (i / 64) 0) (i % 64))

-- `for n := from; n < from + count; n++ { s.window.clear(n) }`
unfoldable pub clear_from : ReplayWindow → ℕ → ℕ → ReplayWindow
clear_from w from zero = w
clear_from w from (suc count) = clear_from (clear w from) (from + 1) count

-- The two fields of `Session` that `acceptSequenceLocked` works on.
pub record Sequences : Type 0 where
  pub highest : ℕ
  pub window : ReplayWindow

unfoldable pub fresh : Sequences
unfolding empty_window
fresh = record { highest = 0; window = empty_window }

-- `acceptSequenceLocked`
unfoldable pub accept_sequence : Sequences → ℕ → Sequences × Bool
accept_sequence s seq =
    if seq == 0
    then (s, false)
    else if ltb s.highest seq
    then (
      record {
        highest = seq;
        window =
            mark
              (clear
                (if leb replay_window_size (seq - s.highest)
                  then empty_window
                  else clear_from s.window (s.highest + 1) (seq - (s.highest + 1)))
                seq)
              seq;
      },
      true,
    )
    else if leb replay_window_size (s.highest - seq) || has s.window seq
    then (s, false)
    else (record s { window = mark s.window seq }, true)

-- A run over the sequence numbers that arrive: those that were accepted, in order of arrival.
pub accepted : Sequences → List ℕ → List ℕ
accepted s [] = []
accepted s (seq ∷ rest) =
    let (s', fine) = accept_sequence s seq in
    let later = accepted s' rest in if fine then seq ∷ later else later
