-- ===== src/Mux/Frames.antt =====
-- One frame: what `take_frame` answers on a frame, on more bytes, and on too few.
use openflux_zen_server.Prelude.{
  take-append_le, drop-append_le, ◌∙◌, ℕ, ◌+◌, ◌-◌, ◌*◌, ◌/◌, ◌%◌, ◌^◌, ◌<◌, ◌≤◌, ◌≡◌, List, [],
  ◌∷◌, ◌++◌, some, none, arith, length, length-append, length-drop, take, drop, take-length-append,
  drop-length-append, be32, suc,
}
use openflux_zen_server.Mux.{Frame, encode, take_frame, header_len}

-- The fields of a frame are a byte and a uint32.
pub record IsFrame (f : Frame) : Type 0 where
  pub type_byte : f.frame_type < 256
  pub id_word : f.stream_id < 2 ^ 32

word_back :
    (v : ℕ)
    → v < 2 ^ 32
    → v / 16777216 % 256 * 16777216 + v / 65536 % 256 * 65536 + v / 256 % 256 * 256 + v % 256 ≡ v
word_back v h = omega arith

-- On a whole frame both tests pass, and neither uint32 wraps.
take_frame_whole :
    (t a b c d e f g i : ℕ) (body : List ℕ)
    → let n = e * 16777216 + f * 65536 + g * 256 + i in
      n ≤ length body
      → length body + header_len < 2 ^ 32
      → take_frame (t ∷ a ∷ b ∷ c ∷ d ∷ e ∷ f ∷ g ∷ i ∷ body)
        ≡ some (
          record {
            frame_type = t;
            stream_id = a * 16777216 + b * 65536 + c * 256 + d;
            payload = take n body;
          },
          drop n body,
        )
unfolding take_frame
take_frame_whole t a b c d e f g i body h small =
    let n = e * 16777216 + f * 65536 + g * 256 + i in
    let end : (header_len + n) % 2 ^ 32 ≡ suc (suc (suc (suc (suc (suc (suc (suc (suc n)))))))) =
      omega arith in
    let less : suc (suc (suc (suc (suc (suc (suc (suc (suc n)))))))) - header_len ≡ n =
      omega arith in
    rw (end, less) (ground arith)

-- A frame that was encoded is taken off the front again, and what follows it is left, as long as
-- the buffer stays under 4 GiB.
pub take_frame-encode :
    (f : Frame) (rest : List ℕ)
    → IsFrame f
    → length (encode [] f ++ rest) < 2 ^ 32
    → take_frame (encode [] f ++ rest) ≡ some (f, rest)
unfolding encode
take_frame-encode f rest v h =
    let p = f.payload in
    let len = length-append p rest in
    let t : f.frame_type % 256 ≡ f.frame_type = omega arith in
    let whole =
      take_frame_whole (f.frame_type % 256) (f.stream_id / 16777216 % 256)
        (f.stream_id / 65536 % 256) (f.stream_id / 256 % 256) (f.stream_id % 256)
        (length p / 16777216 % 256) (length p / 65536 % 256) (length p / 256 % 256) (length p % 256)
        (p ++ rest) (omega arith) (omega arith) in
    whole
    ∙ rw (
      t,
      word_back f.stream_id v.id_word,
      word_back (length p) (omega arith),
      take-length-append p rest,
      drop-length-append p rest,
    )

-- What `take_frame` found: a header and a payload that is all there.
take_frame_found :
    (t a b c d e f g i : ℕ) (body rest : List ℕ) (fr : Frame)
    → let n = e * 16777216 + f * 65536 + g * 256 + i in
      take_frame (t ∷ a ∷ b ∷ c ∷ d ∷ e ∷ f ∷ g ∷ i ∷ body) ≡ some (fr, rest)
      → length body + header_len < 2 ^ 32
      → n ≤ length body
unfolding take_frame
take_frame_found t a b c d e f g i body rest fr q small = ground arith

take_frame_short : (buf : List ℕ) → length buf < header_len → take_frame buf ≡ none
unfolding take_frame
take_frame_short buf h = ground arith

-- More bytes behind a whole frame do not change it, below 4 GiB.
pub take_frame-append :
    (buf more rest : List ℕ) (f : Frame)
    → take_frame buf ≡ some (f, rest)
    → length (buf ++ more) < 2 ^ 32
    → take_frame (buf ++ more) ≡ some (f, rest ++ more)
take_frame-append (t ∷ a ∷ b ∷ c ∷ d ∷ e ∷ f ∷ g ∷ i ∷ body) more rest fr q h =
    let n = e * 16777216 + f * 65536 + g * 256 + i in
    let len = length-append body more in
    let fits : n ≤ length body = take_frame_found t a b c d e f g i body rest fr q (omega arith) in
    let old = take_frame_whole t a b c d e f g i body fits (omega arith) in
    let new = take_frame_whole t a b c d e f g i (body ++ more) (omega arith) (omega arith) in
    new ∙ rw (take-append_le n body more fits, drop-append_le n body more fits) (cc (old, q))
take_frame-append buf more rest f e h = cc (take_frame_short buf (omega arith))

-- What is left is at least nine bytes shorter.
pub take_frame_shorter :
    (buf rest : List ℕ) (f : Frame)
    → take_frame buf ≡ some (f, rest)
    → length buf < 2 ^ 32
    → length rest + header_len ≤ length buf
unfolding take_frame
take_frame_shorter buf rest f e h =
    ground (arith, length-drop ((header_len + be32 buf 5) % 2 ^ 32) buf)
