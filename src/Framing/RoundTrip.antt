-- ===== src/Framing/RoundTrip.antt =====
-- A frame read back is the batch that was written.
use openflux_zen_server.Prelude.{
  byte_at, IsByte, All-drop, inl, inr, Option-cases, Bool-cases, ◌==◌, ◌≢◌, ℕ, zero, suc, ◌+◌, ◌≤◌,
  ◌<◌, ◌≡◌, refl, List, [], ◌∷◌, ◌++◌, arith, length, Option, some, All, bytes16, append-nil,
  append_assoc, take-length-append, drop-length-append, length-append, drop, ◌∙◌, ◌*◌, ◌/◌, ◌%◌, ap,
}
use openflux_zen_server.Framing.{
  ok, err, out_of_fuel, batch_flag_zstd, max_frame_bytes, max_frame_records, frame_batch,
  read_records, encode_batch, decode_batch, inflate,
}
use openflux_zen_server.Framing.Reader.{IsShort, read_records-ok, read_records-ne-fuel}

-- One round on a record and what follows it.
read_record :
    (fuel : ℕ) (p rest : List ℕ) (pkts : List (List ℕ))
    → IsShort p
    → length pkts < max_frame_records
    → read_records (suc fuel) (bytes16 (length p) ++ (p ++ rest)) pkts
      ≡ read_records fuel rest (pkts ++ (p ∷ []))
unfolding read_records
read_record fuel p rest pkts short few =
    let n : length p / 256 % 256 * 256 + length p % 256 ≡ length p = omega arith in
    rw (n, take-length-append p rest, drop-length-append p rest)
      (ground (arith, length-append p rest))

read_records-frame_batch :
    (fuel : ℕ) (ps pkts : List (List ℕ))
    → All IsShort ps
    → length pkts + length ps ≤ max_frame_records
    → length (frame_batch ps) ≤ fuel
    → read_records fuel (frame_batch ps) pkts ≡ ok (pkts ++ ps)
unfolding frame_batch
read_records-frame_batch fuel [] pkts short few h = rw append-nil (unfold read_records in refl)
read_records-frame_batch zero (p ∷ ps) pkts short few h = absurd (omega arith)
read_records-frame_batch (suc fuel) (p ∷ ps) pkts short few h =
    read_record fuel p (frame_batch ps) pkts short.0 (omega arith)
    ∙ read_records-frame_batch fuel ps (pkts ++ (p ∷ [])) short.1
        (omega (arith, length-append pkts (p ∷ [])))
        (omega (arith, length-append p (frame_batch ps)))
    ∙ ap ok (append_assoc pkts (p ∷ []) ps)

-- The zstd library restores what it compressed, for inputs within the frame's limit.
abbrev pub Restores : (List ℕ → List ℕ) → (List ℕ → Option (List ℕ)) → Type 0
Restores zstd_encode zstd_decode =
    (x : List ℕ) → length x ≤ max_frame_bytes → zstd_decode (zstd_encode x) ≡ some x

-- The zstd library returns bytes.
abbrev pub GivesBytes : (List ℕ → Option (List ℕ)) → Type 0
GivesBytes zstd_decode = (x y : List ℕ) → zstd_decode x ≡ some y → All IsByte y

inflate-IsByte :
    (zstd_decode : List ℕ → Option (List ℕ)) (flags : ℕ) (payload framed : List ℕ)
    → GivesBytes zstd_decode
    → All IsByte payload
    → inflate zstd_decode flags payload ≡ some framed
    → All IsByte framed
unfolding inflate
inflate-IsByte zstd_decode flags payload framed zb hb e =
    elim (Bool-cases (flags == batch_flag_zstd)) [
      | inl t ↦ zb payload framed (ground arith)
      | inr f ↦ let same : payload ≡ framed = ground arith in rw (← same) hb
    ]

-- If zstd restores what it compressed, a batch of at most 1024 packets of at most 65535 bytes each,
-- whose records take at most 2^20 bytes, is read back exactly from the frame that was written.
pub decode_batch-encode_batch :
    (zstd_encode : List ℕ → List ℕ) (zstd_decode : List ℕ → Option (List ℕ)) (ps : List (List ℕ))
    → Restores zstd_encode zstd_decode
    → All IsShort ps
    → length ps ≤ max_frame_records
    → length (frame_batch ps) ≤ max_frame_bytes
    → decode_batch zstd_decode (encode_batch zstd_encode ps) ≡ ok ps
unfolding decode_batch encode_batch
decode_batch-encode_batch zstd_encode zstd_decode ps zstd short few small = ground (
  arith,
  zstd (frame_batch ps),
  read_records-frame_batch (length (frame_batch ps)) ps [] short (omega arith) (omega arith),
)

decode_batch_reads :
    (zstd_decode : List ℕ → Option (List ℕ)) (raw : List ℕ) (out : List (List ℕ))
    → decode_batch zstd_decode raw ≡ ok out
    → (framed : List ℕ) × (inflate zstd_decode (byte_at raw 1) (drop 2 raw) ≡ some framed)
      × (length framed ≤ max_frame_bytes)
      × (read_records (length framed) framed [] ≡ ok out)
unfolding decode_batch
decode_batch_reads zstd_decode raw out e =
    elim (Option-cases (inflate zstd_decode (byte_at raw 1) (drop 2 raw))) [
      | inl p ↦ ground arith
      | inr (framed, p) ↦ (framed, p, ground arith, ground arith)
    ]

-- Whatever bytes arrive, a frame that is accepted holds exactly the records that it is read as: its
-- payload, inflated where the flag says so, is the batch written again, it is within 2^20 bytes, and
-- the batch has at most 1024 packets of at most 65535 bytes. zstd is supposed to return bytes.
pub decode_batch_exact :
    (zstd_decode : List ℕ → Option (List ℕ)) (raw : List ℕ) (out : List (List ℕ))
    → GivesBytes zstd_decode
    → All IsByte raw
    → decode_batch zstd_decode raw ≡ ok out
    → (inflate zstd_decode (byte_at raw 1) (drop 2 raw) ≡ some (frame_batch out))
      × (length (frame_batch out) ≤ max_frame_bytes)
      × (length out ≤ max_frame_records)
      × All IsShort out
unfolding frame_batch
decode_batch_exact zstd_decode raw out zb hb e =
    let (framed, payload, small, read) = decode_batch_reads zstd_decode raw out e in
    let fb : All IsByte framed =
      inflate-IsByte zstd_decode (byte_at raw 1) (drop 2 raw) framed zb (All-drop IsByte 2 raw hb)
        payload in
    let (same, few, short) =
      read_records-ok (length framed) framed [] out fb read (omega arith) tt in
    (rw same payload, rw same small, few, short)

-- The record loop is never cut short: every input is accepted, or refused with an error of the source.
pub decode_batch-ne-fuel :
    (zstd_decode : List ℕ → Option (List ℕ)) (raw : List ℕ)
    → decode_batch zstd_decode raw ≢ err out_of_fuel
unfolding decode_batch
decode_batch-ne-fuel zstd_decode raw =
    elim (Option-cases (inflate zstd_decode (byte_at raw 1) (drop 2 raw))) [
      | inl p ↦ ground arith
      | inr (framed, p) ↦
          ground (arith, read_records-ne-fuel (length framed) framed [] (omega arith))
    ]
