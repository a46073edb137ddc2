-- ===== src/Session/Replay/Ring.antt =====
-- The ring read through `has`: what marking and clearing change, and what they leave.
use openflux_zen_server.Prelude.{
  ℕ, zero, suc, ◌+◌, ◌/◌, ◌%◌, ◌≤◌, ◌<◌, ◌≡◌, refl, true, false, ◌==◌, if◌then◌else◌, arith, get_or,
  set, length, length-set, replicate, List, [], ◌∷◌,
}
use openflux_zen_server.Prelude.BitField.{
  test_bit-set_bit, test_bit-clear_bit, zero-test_bit, set_bit, clear_bit,
}
use openflux_zen_server.Session.Replay.{
  ReplayWindow, replay_window_size, empty_window, has, mark, clear, clear_from,
}

get_or-set :
    (w : List ℕ) (i j v : ℕ)
    → i < length w
    → get_or (set w i v) j 0 ≡ (if i == j then v else get_or w j 0)
get_or-set [] i j v h = absurd (omega arith)
get_or-set (x ∷ w) zero zero v h = ground arith
get_or-set (x ∷ w) zero (suc j) v h = ground arith
get_or-set (x ∷ w) (suc i) zero v h = ground arith
get_or-set (x ∷ w) (suc i) (suc j) v h = ground (arith, get_or-set w i j v (omega arith))

pub length-mark : (w : ReplayWindow) (s : ℕ) → length (mark w s) ≡ length w
unfolding mark
length-mark w s = length-set w _ _

pub length-clear : (w : ReplayWindow) (s : ℕ) → length (clear w s) ≡ length w
unfolding clear
length-clear w s = length-set w _ _

pub length-clear_from : (w : ReplayWindow) (a c : ℕ) → length (clear_from w a c) ≡ length w
unfolding clear_from
length-clear_from w a zero = refl
length-clear_from w a (suc c) =
    omega (arith, length-clear_from (clear w a) (a + 1) c, length-clear w a)

-- Marking a number sets its bit, and that of the numbers 4096 apart, and no other.
pub has-mark :
    (w : ReplayWindow) (s t : ℕ)
    → length w ≡ 64
    → has (mark w s) t
      ≡ (if s % replay_window_size == t % replay_window_size then true else has w t)
unfolding has mark
has-mark w s t h =
    let i = s % replay_window_size in
    let j = t % replay_window_size in
    ground (
      arith,
      get_or-set w (i / 64) (j / 64) (set_bit (get_or w (i / 64) 0) (i % 64)) (omega arith),
      test_bit-set_bit (get_or w (i / 64) 0) (i % 64) (j % 64),
    )

pub has-clear :
    (w : ReplayWindow) (s t : ℕ)
    → length w ≡ 64
    → has (clear w s) t
      ≡ (if s % replay_window_size == t % replay_window_size then false else has w t)
unfolding has clear
has-clear w s t h =
    let i = s % replay_window_size in
    let j = t % replay_window_size in
    ground (
      arith,
      get_or-set w (i / 64) (j / 64) (clear_bit (get_or w (i / 64) 0) (i % 64)) (omega arith),
      test_bit-clear_bit (get_or w (i / 64) 0) (i % 64) (j % 64),
    )

get_or-replicate : (n i : ℕ) → get_or {A = ℕ} (replicate n 0) i 0 ≡ 0
get_or-replicate zero i = refl
get_or-replicate (suc n) zero = refl
get_or-replicate (suc n) (suc i) = get_or-replicate n i

pub has-empty_window : (t : ℕ) → has empty_window t ≡ false
unfolding has empty_window
has-empty_window t =
    rw (get_or-replicate 64 (t % replay_window_size / 64))
      (zero-test_bit (t % replay_window_size % 64))

-- A cleared run of numbers stays clear.
pub has-clear_from-false :
    (w : ReplayWindow) (a c t : ℕ)
    → length w ≡ 64
    → has w t ≡ false
    → has (clear_from w a c) t ≡ false
unfolding clear_from
has-clear_from-false w a zero t h e = e
has-clear_from-false w a (suc c) t h e =
    has-clear_from-false (clear w a) (a + 1) c t (omega (arith, length-clear w a))
      (ground (arith, has-clear w a t h))

pub has-clear_from_in :
    (w : ReplayWindow) (a c t : ℕ)
    → length w ≡ 64
    → a ≤ t
    → t < a + c
    → has (clear_from w a c) t ≡ false
unfolding clear_from
has-clear_from_in w a zero t h lo hi = absurd (omega arith)
has-clear_from_in w a (suc c) t h lo hi =
    let len = length-clear w a in
    ground (
      arith,
      has-clear w a t h,
      has-clear_from-false (clear w a) (a + 1) c t (omega arith),
      has-clear_from_in (clear w a) (a + 1) c t (omega arith),
    )

-- A run of fewer than 4096 numbers above `t` leaves the bit of `t`.
pub has-clear_from_out :
    (w : ReplayWindow) (a c t : ℕ)
    → length w ≡ 64
    → t < a
    → a + c ≤ t + replay_window_size
    → has (clear_from w a c) t ≡ has w t
unfolding clear_from
has-clear_from_out w a zero t h lo hi = refl
has-clear_from_out w a (suc c) t h lo hi = ground (
  arith,
  has-clear_from_out (clear w a) (a + 1) c t (omega (arith, length-clear w a)) (omega arith)
      (omega arith),
  has-clear w a t h,
)
