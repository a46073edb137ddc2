-- ===== src/Mux/Stream.antt =====
-- The byte stream as a whole: chunks of any size give the frames that were sent.
use openflux_zen_server.Prelude.{
  ℕ, ◌^◌, ◌<◌, ◌≤◌, ◌≡◌, refl, sym, ap, ◌∙◌, List, [], ◌∷◌, ◌++◌, some, none, arith, length,
  length-append, append_assoc, append-nil, zero, suc, inl, inr, Option-cases, All,
}
use openflux_zen_server.Mux.{Frame, encode, take_frame, take_frames, on_bytes, on_chunks}
use openflux_zen_server.Mux.Frames.{
  IsFrame, take_frame-encode, take_frame-append, take_frame_shorter,
}

-- The loop with enough fuel.
abbrev drain : List ℕ → List Frame × List ℕ
drain buf = take_frames (length buf) buf

take_frame_nil : take_frame [] ≡ none
unfolding take_frame
take_frame_nil = refl

take_frames-none : (k : ℕ) (buf : List ℕ) → take_frame buf ≡ none → take_frames k buf ≡ ([], buf)
unfolding take_frames
take_frames-none zero buf e = refl
take_frames-none (suc k) buf e = rw (e, take_frames)

take_frames-some :
    (k : ℕ) (buf rest : List ℕ) (f : Frame)
    → take_frame buf ≡ some (f, rest)
    → take_frames (suc k) buf ≡ (f ∷ (take_frames k rest).0, (take_frames k rest).1)
unfolding take_frames
take_frames-some k buf rest f e = rw (e, take_frames)

-- Any two amounts of fuel from the buffer's length on give the same.
take_frames_enough :
    (k m : ℕ) (buf : List ℕ)
    → length buf ≤ k
    → length buf ≤ m
    → length buf < 2 ^ 32
    → take_frames k buf ≡ take_frames m buf
take_frames_enough zero m [] hk hm small =
    take_frames-none zero [] take_frame_nil ∙ sym (take_frames-none m [] take_frame_nil)
take_frames_enough zero m (b ∷ bs) hk hm small = absurd (omega arith)
take_frames_enough (suc k) zero [] hk hm small =
    take_frames-none (suc k) [] take_frame_nil ∙ sym (take_frames-none zero [] take_frame_nil)
take_frames_enough (suc k) zero (b ∷ bs) hk hm small = absurd (omega arith)
take_frames_enough (suc k) (suc m) buf hk hm small = elim (Option-cases (take_frame buf)) [
  | inl e ↦ take_frames-none (suc k) buf e ∙ sym (take_frames-none (suc m) buf e)
  | inr ((f, rest), e) ↦
      let less = take_frame_shorter buf rest f e small in
      let same = take_frames_enough k m rest (omega arith) (omega arith) (omega arith) in
      take_frames-some k buf rest f e
      ∙ ap (λ (r : List Frame × List ℕ). (f ∷ r.0, r.1)) same
      ∙ sym (take_frames-some m buf rest f e)
]

drain-some :
    (buf rest : List ℕ) (f : Frame)
    → take_frame buf ≡ some (f, rest)
    → length buf < 2 ^ 32
    → drain buf ≡ (f ∷ (drain rest).0, (drain rest).1)
drain-some buf rest f e small =
    let less = take_frame_shorter buf rest f e small in
    take_frames_enough (length buf) (suc (length buf)) buf (omega arith) (omega arith) small
    ∙ take_frames-some (length buf) buf rest f e
    ∙ ap (λ (r : List Frame × List ℕ). (f ∷ r.0, r.1))
        (take_frames_enough (length buf) (length rest) rest (omega arith) (omega arith)
          (omega arith))

-- More bytes behind a buffer: first the frames of the buffer, then those of what is left with them.
drain-append :
    (k : ℕ) (buf more : List ℕ)
    → length buf ≤ k
    → length (buf ++ more) < 2 ^ 32
    → drain (buf ++ more)
      ≡ ((drain buf).0 ++ (drain ((drain buf).1 ++ more)).0, (drain ((drain buf).1 ++ more)).1)
drain-append zero [] more h small = rw (take_frames-none zero [] take_frame_nil)
drain-append zero (b ∷ bs) more h small = absurd (omega arith)
drain-append (suc k) buf more h small = elim (Option-cases (take_frame buf)) [
  | inl e ↦ rw (take_frames-none (length buf) buf e)
  | inr ((f, rest), e) ↦
      let len = length-append buf more in
      let len' = length-append rest more in
      let less = take_frame_shorter buf rest f e (omega arith) in
      let step =
        drain-some (buf ++ more) (rest ++ more) f (take_frame-append buf more rest f e small)
          small in
      rw (drain-some buf rest f e (omega arith))
        (step ∙ rw (drain-append k rest more (omega arith) (omega arith)))
]

-- What is left over holds no whole frame.
drain_left :
    (k : ℕ) (buf : List ℕ) → length buf ≤ k → length buf < 2 ^ 32 → take_frame (drain buf).1 ≡ none
drain_left zero [] h small = rw (take_frames-none zero [] take_frame_nil) take_frame_nil
drain_left zero (b ∷ bs) h small = absurd (omega arith)
drain_left (suc k) buf h small = elim (Option-cases (take_frame buf)) [
  | inl e ↦ rw (take_frames-none (length buf) buf e) e
  | inr ((f, rest), e) ↦
      let less = take_frame_shorter buf rest f e small in
      rw (drain-some buf rest f e small) (drain_left k rest (omega arith) (omega arith))
]

drain_shorter :
    (k : ℕ) (buf : List ℕ)
    → length buf ≤ k
    → length buf < 2 ^ 32
    → length (drain buf).1 ≤ length buf
drain_shorter zero [] h small = rw (take_frames-none zero [] take_frame_nil) (omega arith)
drain_shorter zero (b ∷ bs) h small = absurd (omega arith)
drain_shorter (suc k) buf h small = elim (Option-cases (take_frame buf)) [
  | inl e ↦ rw (take_frames-none (length buf) buf e) (omega arith)
  | inr ((f, rest), e) ↦
      let less = take_frame_shorter buf rest f e small in
      rw (drain-some buf rest f e small)
        (omega (arith, drain_shorter k rest (omega arith) (omega arith)))
]

-- The bytes of the chunks, and of the frames, one after the other.
abbrev pub joined : List (List ℕ) → List ℕ
joined [] = []
joined (b ∷ bs) = b ++ joined bs

abbrev pub encodings : List Frame → List ℕ
encodings [] = []
encodings (f ∷ fs) = encode [] f ++ encodings fs

-- However the carrier cuts the stream into chunks, `onBytes` hands on the same frames, and keeps the
-- same bytes, as when all of it came at once; the stream is under 4 GiB, and the buffer it starts
-- with holds no whole frame.
pub on_chunks-joined :
    (rx_buf : List ℕ) (chunks : List (List ℕ))
    → take_frame rx_buf ≡ none
    → length (rx_buf ++ joined chunks) < 2 ^ 32
    → on_chunks rx_buf chunks ≡ on_bytes rx_buf (joined chunks)
unfolding on_chunks on_bytes
on_chunks-joined rx_buf [] e small = rw append-nil (sym (take_frames-none (length rx_buf) rx_buf e))
on_chunks-joined rx_buf (b ∷ bs) e small =
    let buf = rx_buf ++ b in
    let assoc = append_assoc rx_buf b (joined bs) in
    let whole : length (buf ++ joined bs) < 2 ^ 32 = rw assoc small in
    let len = length-append buf (joined bs) in
    let left = (drain buf).1 in
    let less = drain_shorter (length buf) buf (omega arith) (omega arith) in
    let len' = length-append left (joined bs) in
    let kept = drain_left (length buf) buf (omega arith) (omega arith) in
    rw (on_chunks-joined left bs kept (omega arith))
      (rw (← assoc) (sym (drain-append (length buf) buf (joined bs) (omega arith) whole)))

drain-encodings :
    (fs : List Frame)
    → All IsFrame fs
    → length (encodings fs) < 2 ^ 32
    → drain (encodings fs) ≡ (fs, [])
drain-encodings [] v small = take_frames-none 0 [] take_frame_nil
drain-encodings (f ∷ fs) v small =
    let len = length-append (encode [] f) (encodings fs) in
    drain-some (encodings (f ∷ fs)) (encodings fs) f (take_frame-encode f (encodings fs) v.0 small)
      small
    ∙ rw (drain-encodings fs v.1 (omega arith))

-- Frames that were encoded one after the other, and cut into any chunks, come out of `onBytes`
-- exactly as they went in, and nothing stays in the buffer; a type is a byte, a stream number a
-- uint32, and the whole stream is under 4 GiB.
pub on_chunks-encode :
    (fs : List Frame) (chunks : List (List ℕ))
    → All IsFrame fs
    → joined chunks ≡ encodings fs
    → length (encodings fs) < 2 ^ 32
    → on_chunks [] chunks ≡ (fs, [])
on_chunks-encode fs chunks v e small =
    on_chunks-joined [] chunks take_frame_nil (rw e small)
    ∙ unfold on_bytes in rw e (drain-encodings fs v small)
