-- ===== src/Framing/Reader.antt =====
-- The record loop of `decodeBatch` on any input, well formed or not.
use openflux_zen_server.Prelude.{
  ◌/◌, ◌%◌, All-append, ℕ, zero, suc, ◌+◌, ◌*◌, ◌≤◌, ◌<◌, ◌≡◌, ◌≢◌, ◌∙◌, refl, ap, List, [], ◌∷◌,
  ◌++◌, arith, append_assoc, append-nil, length, length-append, take, drop, length-drop,
  take-append-drop, length-take, be16, IsByte, All, All-drop,
}
use openflux_zen_server.Framing.{ok, err, out_of_fuel, max_frame_records, frame_batch, read_records}

-- Each packet fits its two-byte length.
abbrev pub IsShort : List ℕ → Type 0
IsShort p = length p < 65536

pub frame_batch-append :
    (ps qs : List (List ℕ)) → frame_batch (ps ++ qs) ≡ frame_batch ps ++ frame_batch qs
unfolding frame_batch
frame_batch-append [] qs = refl
frame_batch-append (p ∷ ps) qs = simp (frame_batch-append ps qs, append_assoc)

pub read_records-ne-fuel :
    (fuel : ℕ) (framed : List ℕ) (pkts : List (List ℕ))
    → length framed ≤ fuel
    → read_records fuel framed pkts ≢ err out_of_fuel
unfolding read_records
read_records-ne-fuel fuel [] pkts h = λ e. cc
read_records-ne-fuel zero (b ∷ bs) pkts h = absurd (omega arith)
read_records-ne-fuel (suc fuel) (b ∷ bs) pkts h =
    let n = be16 (b ∷ bs) 0 in
    let body = drop 1 bs in
    ground (
      arith,
      length-drop n body,
      length-drop 1 bs,
      read_records-ne-fuel fuel (drop n body) (pkts ++ (take n body ∷ [])),
    )

-- A record's two length bytes and its packet, put together again.
record_whole :
    (hi lo : ℕ) (body : List ℕ)
    → hi < 256
    → lo < 256
    → hi * 256 + lo ≤ length body
    → frame_batch (take (hi * 256 + lo) body ∷ []) ++ drop (hi * 256 + lo) body ≡ hi ∷ lo ∷ body
unfolding frame_batch
record_whole hi lo body hh hl h =
    let n = hi * 256 + lo in
    let len : length (take n body) ≡ n = omega (arith, length-take n body) in
    let top : n / 256 % 256 ≡ hi = omega arith in
    let low : n % 256 ≡ lo = omega arith in rw (append-nil, len, top, low, take-append-drop n body)

-- A round that went on: the tests that it passed, and the rest of the loop.
read_round :
    (fuel b c : ℕ) (body : List ℕ) (pkts out : List (List ℕ))
    → let n = b * 256 + c in
      read_records (suc fuel) (b ∷ c ∷ body) pkts ≡ ok out
      → (length pkts < max_frame_records)
        × (n ≤ length body)
        × (read_records fuel (drop n body) (pkts ++ (take n body ∷ [])) ≡ ok out)
unfolding read_records
read_round fuel b c body pkts out e = ground arith

-- What was read, written again, is the input; and the counts are within their limits.
pub read_records-ok :
    (fuel : ℕ) (framed : List ℕ) (pkts out : List (List ℕ))
    → All IsByte framed
    → read_records fuel framed pkts ≡ ok out
    → length pkts ≤ max_frame_records
    → All IsShort pkts
    → (frame_batch out ≡ frame_batch pkts ++ framed)
      × (length out ≤ max_frame_records)
      × All IsShort out
unfolding read_records
read_records-ok fuel [] pkts out hb e hc hs =
    let same : pkts ≡ out = cc in rw (← same) (rw append-nil, hc, hs)
read_records-ok zero (b ∷ bs) pkts out hb e hc hs = cc
read_records-ok (suc fuel) (b ∷ []) pkts out hb e hc hs = ground arith
read_records-ok (suc fuel) (b ∷ c ∷ body) pkts out hb e hc hs =
    let n = b * 256 + c in
    let p = take n body in
    let (few, enough, rest) = read_round fuel b c body pkts out e in
    let len : length p ≡ n = omega (arith, length-take n body) in
    let (whole, count, short) =
      read_records-ok fuel (drop n body) (pkts ++ (p ∷ [])) out (All-drop IsByte n body hb.1.1) rest
        (omega (arith, length-append pkts (p ∷ [])))
        (All-append IsShort pkts (p ∷ []) hs (omega arith, tt)) in
    (
      whole
          ∙ simp (frame_batch-append, append_assoc)
              (ap (◌++◌ (frame_batch pkts)) (record_whole b c body hb.0 hb.1.0 enough)),
      count,
      short,
    )
