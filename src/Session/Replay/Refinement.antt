-- ===== src/Session/Replay/Refinement.antt =====
-- The ring of bits against its specification: the list of the numbers accepted so far.
use openflux_zen_server.Prelude.{
  ℕ, ◌+◌, ◌-◌, ◌≤◌, ◌<◌, ◌≡◌, refl, Bool, true, false, not, ◌&&◌, ◌||◌, ltb, leb, ◌==◌,
  if◌then◌else◌, arith, length, List, [], ◌∷◌, max, Bool-cases, inl, inr,
}
use openflux_zen_server.Session.Replay.{
  replay_window_size, empty_window, has, mark, clear, clear_from, Sequences, fresh, accept_sequence,
  accepted,
}
use openflux_zen_server.Session.Replay.Ring.{
  length-mark, length-clear, length-clear_from, has-mark, has-clear, has-empty_window,
  has-clear_from_in, has-clear_from_out,
}

abbrev pub contains : List ℕ → ℕ → Bool
contains [] n = false
contains (x ∷ xs) n = x == n || contains xs n

abbrev pub maximum : List ℕ → ℕ
maximum [] = 0
maximum (x ∷ xs) = max x (maximum xs)

abbrev pub Distinct : List ℕ → Type 0
Distinct [] = Unit {0}
Distinct (x ∷ xs) = (contains xs x ≡ false) × Distinct xs

-- The specification: not 0, within 4096 of the greatest number accepted, and not accepted before.
unfoldable pub is_new : List ℕ → ℕ → Bool
is_new seen seq =
    not (seq == 0) && (ltb (maximum seen) (seq + replay_window_size) && not (contains seen seq))

unfoldable pub new_ones : List ℕ → List ℕ → List ℕ
new_ones seen [] = []
new_ones seen (seq ∷ rest) =
    let later = new_ones (if is_new seen seq then seq ∷ seen else seen) rest in
    if is_new seen seq then seq ∷ later else later

pub record Tracks (s : Sequences) (seen : List ℕ) : Type 0 where
  pub words : length s.window ≡ 64
  pub newest : s.highest ≡ maximum seen
  pub bits :
      (t : ℕ)
      → 0 < t
      → t ≤ s.highest
      → s.highest < t + replay_window_size
      → has s.window t ≡ contains seen t

contains_above : (seen : List ℕ) (n : ℕ) → maximum seen < n → contains seen n ≡ false
contains_above [] n h = refl
contains_above (x ∷ seen) n h = ground (arith, contains_above seen n (omega arith))

pub accept_sequence_answer :
    (s : Sequences) (seen : List ℕ) (seq : ℕ)
    → Tracks s seen
    → (accept_sequence s seq).1 ≡ is_new seen seq
unfolding accept_sequence is_new
accept_sequence_answer s seen seq v =
    ground (arith, v.words, v.newest, v.bits seq, contains_above seen seq)

-- The window after a number newer than all before, as `acceptSequenceLocked` computes it.
moved : Sequences → ℕ → List ℕ
moved s seq =
    mark
      (clear
        (if leb replay_window_size (seq - s.highest)
          then empty_window
          else clear_from s.window (s.highest + 1) (seq - (s.highest + 1)))
        seq)
      seq

module _ (s : Sequences) (seq : ℕ) (words : length s.window ≡ 64) (newer : s.highest < seq) where
  base : List ℕ
  base =
      if leb replay_window_size (seq - s.highest)
      then empty_window
      else clear_from s.window (s.highest + 1) (seq - (s.highest + 1))

  length-base : length base ≡ 64
  unfolding base empty_window
  length-base = ground (arith, length-clear_from s.window (s.highest + 1) (seq - (s.highest + 1)))

  length-moved : length (moved s seq) ≡ 64
  unfolding moved base
  length-moved = omega (arith, length-mark (clear base seq) seq, length-clear base seq, length-base)

  has-base_old :
      (t : ℕ) → 0 < t → t ≤ s.highest → seq < t + replay_window_size → has base t ≡ has s.window t
  unfolding base
  has-base_old t pos old near =
      ground (arith, has-clear_from_out s.window (s.highest + 1) (seq - (s.highest + 1)) t words)

  has-base_new : (t : ℕ) → s.highest < t → t < seq → has base t ≡ false
  unfolding base
  has-base_new t above below = ground (
    arith,
    has-clear_from_in s.window (s.highest + 1) (seq - (s.highest + 1)) t words,
    has-empty_window t,
  )

  -- Reading the ring after it moved on, anywhere in the new window.
  has-moved :
      (t : ℕ)
      → 0 < t
      → t ≤ seq
      → seq < t + replay_window_size
      → has (moved s seq) t
        ≡ (if t == seq then true else if leb t s.highest then has s.window t else false)
  unfolding moved base
  has-moved t pos le near = ground (
    arith,
    has-mark (clear base seq) seq t (omega (arith, length-clear base seq, length-base)),
    has-clear base seq t length-base,
    has-base_old t pos,
    has-base_new t,
  )

-- The three outcomes of `acceptSequenceLocked`.
accept_newer :
    (s : Sequences) (seq : ℕ)
    → s.highest < seq
    → accept_sequence s seq ≡ (record { highest = seq; window = moved s seq }, true)
unfolding accept_sequence moved
accept_newer s seq h = ground arith

pub accept_newer_answer :
    (s : Sequences) (seq : ℕ) → s.highest < seq → (accept_sequence s seq).1 ≡ true
accept_newer_answer s seq h = rw (accept_newer s seq h) refl

accept_within :
    (s : Sequences) (seq : ℕ)
    → 0 < seq
    → seq ≤ s.highest
    → (accept_sequence s seq).1 ≡ true
    → accept_sequence s seq ≡ (record s { window = mark s.window seq }, true)
unfolding accept_sequence
accept_within s seq pos le e = ground arith

accept_refused :
    (s : Sequences) (seq : ℕ) → (accept_sequence s seq).1 ≡ false → (accept_sequence s seq).0 ≡ s
unfolding accept_sequence
accept_refused s seq e = ground arith

Tracks-newer :
    (s : Sequences) (seen : List ℕ) (seq : ℕ)
    → Tracks s seen
    → s.highest < seq
    → Tracks (record { highest = seq; window = moved s seq }) (seq ∷ seen)
Tracks-newer s seen seq v h = record {
  words = length-moved s seq v.words h;
  newest = omega (arith, v.newest);
  bits = λ t pos le near. ground (
    arith,
    has-moved s seq v.words h t pos le near,
    v.bits t pos,
    contains_above seen t,
    v.newest,
  );
}

Tracks-within :
    (s : Sequences) (seen : List ℕ) (seq : ℕ)
    → Tracks s seen
    → 0 < seq
    → seq ≤ s.highest
    → s.highest < seq + replay_window_size
    → Tracks (record s { window = mark s.window seq }) (seq ∷ seen)
Tracks-within s seen seq v pos le near = record {
  words = omega (arith, length-mark s.window seq, v.words);
  newest = omega (arith, v.newest);
  bits = λ t p l n. ground (arith, has-mark s.window seq t v.words, v.bits t p l n);
}

accepted_within :
    (s : Sequences) (seq : ℕ)
    → (accept_sequence s seq).1 ≡ true
    → seq ≤ s.highest
    → (0 < seq) × (s.highest < seq + replay_window_size)
unfolding accept_sequence
accepted_within s seq e le = ground arith

-- Every call keeps the ring in step with the list of the numbers accepted so far.
pub accept_sequence-Tracks :
    (s : Sequences) (seen : List ℕ) (seq : ℕ)
    → Tracks s seen
    → Tracks (accept_sequence s seq).0 (if (accept_sequence s seq).1 then seq ∷ seen else seen)
accept_sequence-Tracks s seen seq v = elim (Bool-cases (accept_sequence s seq).1) [
  | inl e ↦ elim (Bool-cases (ltb s.highest seq)) [
    | inl newer ↦ rw (accept_newer s seq (ground arith)) (Tracks-newer s seen seq v (ground arith))
    | inr old ↦
        let le : seq ≤ s.highest = ground arith in
        let (pos, near) = accepted_within s seq e le in
        rw (accept_within s seq pos le e) (Tracks-within s seen seq v pos le near)
  ]
  | inr e ↦ rw (e, accept_refused s seq e) v
]

accepted-new_ones :
    (s : Sequences) (seen seqs : List ℕ) → Tracks s seen → accepted s seqs ≡ new_ones seen seqs
unfolding accepted new_ones
accepted-new_ones s seen [] v = refl
accepted-new_ones s seen (seq ∷ rest) v = rw (← accept_sequence_answer s seen seq v) (
    rw (
      accepted-new_ones (accept_sequence s seq).0
        (if (accept_sequence s seq).1 then seq ∷ seen else seen) rest
        (accept_sequence-Tracks s seen seq v)))

pub fresh-Tracks : Tracks fresh []
unfolding fresh empty_window
fresh-Tracks = record { words = refl; newest = refl; bits = λ t pos le near. absurd (omega arith) }

-- A Session's ring of bits accepts, of any sequence numbers in any order, exactly those that the
-- specification `new_ones` picks: not 0, not accepted before, and less than 4096 below the greatest
-- number accepted so far.
pub accepted_refines : (seqs : List ℕ) → accepted fresh seqs ≡ new_ones [] seqs
accepted_refines seqs = accepted-new_ones fresh [] seqs fresh-Tracks

new_ones_unseen :
    (seen seqs : List ℕ) (n : ℕ) → contains seen n ≡ true → contains (new_ones seen seqs) n ≡ false
unfolding new_ones is_new
new_ones_unseen seen [] n e = refl
new_ones_unseen seen (seq ∷ rest) n e =
    ground (arith, new_ones_unseen (seq ∷ seen) rest n, new_ones_unseen seen rest n e)

new_ones-Distinct : (seen seqs : List ℕ) → Distinct (new_ones seen seqs)
unfolding new_ones
new_ones-Distinct seen [] = tt
new_ones-Distinct seen (seq ∷ rest) = ground (
  arith,
  new_ones_unseen (seq ∷ seen) rest seq,
  new_ones-Distinct (seq ∷ seen) rest,
  new_ones-Distinct seen rest,
)

-- No replay: whatever sequence numbers arrive at a new Session, in whatever order and however
-- often, no number is accepted twice.
pub accepted-Distinct : (seqs : List ℕ) → Distinct (accepted fresh seqs)
accepted-Distinct seqs = rw accepted_refines (new_ones-Distinct [] seqs)
