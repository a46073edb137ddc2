-- ===== src/Framing.antt =====
-- transport/framing.go: the batch frame (wire v2). A frame is two header bytes, the version and the
-- flags, and a payload of records, each a two-byte length and a packet; the payload may be
-- compressed as a whole. The zstd library is not part of the program: its two functions are the
-- parameters `zstd_encode` and `zstd_decode`.
pub mod RoundTrip
pub mod Reader
use openflux_zen_server.Prelude.{
  ℕ, zero, suc, ◌/◌, ◌+◌, ◌-◌, Bool, true, false, List, [], ◌∷◌, ◌++◌, Option, none, some, ltb, leb,
  ◌==◌, if◌then◌else◌, length, take, drop, be16, bytes16, byte_at,
}

abbrev pub batch_format_version : ℕ
batch_format_version = 2

abbrev pub batch_flag_zstd : ℕ
batch_flag_zstd = 1

abbrev pub max_frame_bytes : ℕ
max_frame_bytes = 1048576

abbrev pub max_frame_records : ℕ
max_frame_records = 1024

-- The errors of `decodeBatch`. `out_of_fuel` is none of the source's: see `read_records`.
pub data FrameError : Type 0 where
  frame_too_large frame_too_short bad_version bad_flags bad_zstd decoded_too_large : FrameError
  too_many_records truncated_prefix truncated_packet out_of_fuel : FrameError

pub data Decoded : Type 0 where
  ok : List (List ℕ) → Decoded
  err : FrameError → Decoded

-- The loop of `frameBatch`, without its buffer's capacity.
unfoldable pub frame_batch : List (List ℕ) → List ℕ
frame_batch [] = []
frame_batch (p ∷ ps) = bytes16 (length p) ++ (p ++ frame_batch ps)

-- The loop of `decodeBatch` over what is left of `framed`; `pkts` are the packets read so far. Each
-- round takes two bytes at least, so the length of `framed` is enough fuel.
unfoldable pub read_records : ℕ → List ℕ → List (List ℕ) → Decoded
read_records fuel [] pkts = ok pkts
read_records zero (b ∷ bs) pkts = err out_of_fuel
read_records (suc fuel) (b ∷ bs) pkts =
    let framed : List ℕ = b ∷ bs in
    let n = be16 framed 0 in
    let body = drop 2 framed in
    let rest = read_records fuel (drop n body) (pkts ++ (take n body ∷ [])) in
    if leb max_frame_records (length pkts)
    then err too_many_records
    else if ltb (length framed) 2
    then err truncated_prefix
    else if ltb (length body) n
    then err truncated_packet
    else rest

module _ (zstd_encode : List ℕ → List ℕ) where
  -- The batch is compressed only where that makes it shorter.
  unfoldable pub encode_batch : List (List ℕ) → List ℕ
  encode_batch pkts =
      let framed = frame_batch pkts in
      let compressed = zstd_encode framed in
      if ltb (length compressed) (length framed)
      then batch_format_version ∷ batch_flag_zstd ∷ compressed
      else batch_format_version ∷ 0 ∷ framed

module _ (zstd_decode : List ℕ → Option (List ℕ)) where
  -- What `decodeBatch` reads the records from: the payload, inflated if the flag says so.
  -- `flags & ^1 != 0` is `flags / 2 != 0`, and `flags & 1 != 0` is then `flags == 1`.
  unfoldable pub inflate : ℕ → List ℕ → Option (List ℕ)
  inflate flags payload = if flags == batch_flag_zstd then zstd_decode payload else some payload

  abbrev read_framed : Option (List ℕ) → Decoded
  read_framed none = err bad_zstd
  read_framed (some framed) =
      if ltb max_frame_bytes (length framed)
      then err decoded_too_large
      else read_records (length framed) framed []

  unfoldable pub decode_batch : List ℕ → Decoded
  unfolding inflate
  decode_batch data_in =
      if ltb (max_frame_bytes + 2) (length data_in)
      then err frame_too_large
      else if ltb (length data_in) 2
      then err frame_too_short
      else if byte_at data_in 0 == batch_format_version
      then if byte_at data_in 1 / 2 == 0
        then read_framed (inflate (byte_at data_in 1) (drop 2 data_in))
        else err bad_flags
      else err bad_version
