-- ===== src/Mux.antt =====
-- transport/phpbox/frame.go and the receive path of mux.go: the frames of the stream multiplexer,
-- and their reassembly from byte chunks of any size. A frame is a type byte, a four-byte stream
-- number, a four-byte length and the payload.
pub mod Frames
pub mod Stream
pub mod ReadBuffer
pub mod FlowControl
use openflux_zen_server.Prelude.{
  ℕ, zero, suc, ◌-◌, ◌+◌, ◌%◌, ◌^◌, List, [], ◌∷◌, ◌++◌, Option, none, some, ltb, if◌then◌else◌,
  length, take, drop, be32, bytes32, byte_at,
}

abbrev pub header_len : ℕ
header_len = 9

pub record Frame : Type 0 where
  pub frame_type : ℕ
  pub stream_id : ℕ
  pub payload : List ℕ

-- `Encode`; the conversions to a byte and to uint32 are written out.
unfoldable pub encode : List ℕ → Frame → List ℕ
encode dst f =
    dst ++ ((f.frame_type % 256 ∷ bytes32 f.stream_id ++ bytes32 (length f.payload)) ++ f.payload)

-- `TakeFrame`: the length and the end of the payload are uint32 and wrap.
unfoldable pub take_frame : List ℕ → Option (Frame × List ℕ)
take_frame buf =
    let n = be32 buf 5 in
    let end = (header_len + n) % 2 ^ 32 in
    if ltb (length buf) header_len
    then none
    else if ltb ((length buf - header_len) % 2 ^ 32) n
    then none
    else some (
      record {
        frame_type = byte_at buf 0;
        stream_id = be32 buf 1;
        payload = take (end - header_len) (drop header_len buf);
      },
      drop end buf,
    )

-- The loop of `onBytes`: the frames taken, and what stays in the buffer. A frame takes nine bytes
-- at least, so the length of the buffer is enough fuel.
pub take_frames : ℕ → List ℕ → List Frame × List ℕ
take_frames zero buf = ([], buf)
take_frames (suc fuel) buf = elim (take_frame buf) [
  | none ↦ ([], buf)
  | some (f, rest) ↦ let (fs, left) = take_frames fuel rest in (f ∷ fs, left)
]

-- `onBytes`: the frames handed to `dispatch`, in order, and the new `rxBuf`.
pub on_bytes : List ℕ → List ℕ → List Frame × List ℕ
on_bytes rx_buf b = let buf = rx_buf ++ b in take_frames (length buf) buf

-- A run of `onBytes` over the chunks that a carrier delivers.
pub on_chunks : List ℕ → List (List ℕ) → List Frame × List ℕ
on_chunks rx_buf [] = ([], rx_buf)
on_chunks rx_buf (b ∷ bs) =
    let (fs, left) = on_bytes rx_buf b in let (gs, end) = on_chunks left bs in (fs ++ gs, end)
