-- ===== src/Tests/Carrier.antt =====
-- Runs over the carrier's side: batch frames, the multiplexer's stream and the replay window.
use openflux_zen_server.Prelude.{
  ℕ, ◌≡◌, ◌≢◌, refl, ◌≤◌, ◌&&◌, List, [], ◌∷◌, ◌++◌, Option, none, some, arith, length, ◌==◌,
  if◌then◌else◌, All, take, drop,
}
use openflux_zen_server.Framing.{
  ok, err, out_of_fuel, inflate, frame_batch, encode_batch, decode_batch, read_records,
  max_frame_bytes, max_frame_records,
}
use openflux_zen_server.Framing.Reader.{IsShort}
use openflux_zen_server.Framing.RoundTrip.{
  Restores, GivesBytes, decode_batch-encode_batch, decode_batch_exact, decode_batch-ne-fuel,
}
use openflux_zen_server.Mux.{Frame, encode, take_frame, on_bytes, on_chunks}
use openflux_zen_server.Mux.Stream.{on_chunks-joined, on_chunks-encode}
use openflux_zen_server.Session.Replay.{accepted, fresh}
use openflux_zen_server.Session.Replay.Refinement.{is_new, new_ones, accepted_refines}

-- A toy compressor: it shortens what begins with a record of one byte.
abbrev pack : List ℕ → List ℕ
pack (a ∷ b ∷ rest) = if a == 0 && b == 1 then 255 ∷ rest else 0 ∷ a ∷ b ∷ rest
pack xs = 0 ∷ xs

abbrev unpack : List ℕ → Option (List ℕ)
unpack [] = none
unpack (b ∷ xs) = if b == 255 then some (0 ∷ 1 ∷ xs) else some xs

pack-Restores : Restores pack unpack
pack-Restores [] h = refl
pack-Restores (a ∷ []) h = refl
pack-Restores (a ∷ b ∷ rest) h = ground arith

abbrev one_byte : List (List ℕ)
one_byte = (7 ∷ []) ∷ []

decode_batch-encode_batch_example : decode_batch unpack (encode_batch pack one_byte) ≡ ok one_byte
unfolding frame_batch
decode_batch-encode_batch_example =
    decode_batch-encode_batch pack unpack one_byte pack-Restores (omega arith, tt) (omega arith)
      (omega arith)

plain-GivesBytes : GivesBytes (λ x. none)
plain-GivesBytes x y e = cc

abbrev raw_frame : List ℕ
raw_frame = 2 ∷ 0 ∷ 0 ∷ 1 ∷ 7 ∷ []

decode_batch_exact_example :
    (inflate (λ x. none) 0 (0 ∷ 1 ∷ 7 ∷ []) ≡ some (frame_batch one_byte))
    × (length (frame_batch one_byte) ≤ max_frame_bytes)
    × (length one_byte ≤ max_frame_records)
    × All IsShort one_byte
unfolding decode_batch inflate read_records
decode_batch_exact_example =
    decode_batch_exact (λ x. none) raw_frame one_byte plain-GivesBytes
      (omega arith, (omega arith, (omega arith, (omega arith, (omega arith, tt))))) refl

decode_batch-ne-fuel_example : decode_batch unpack raw_frame ≢ err out_of_fuel
decode_batch-ne-fuel_example = decode_batch-ne-fuel unpack raw_frame

abbrev two_frames : List Frame
two_frames =
    record { frame_type = 3; stream_id = 258; payload = 9 ∷ 8 ∷ [] }
    ∷ record { frame_type = 1; stream_id = 7; payload = [] }
    ∷ []

abbrev two_frames_bytes : List ℕ
two_frames_bytes =
    3 ∷ 0 ∷ 0 ∷ 1 ∷ 2 ∷ 0 ∷ 0 ∷ 0 ∷ 2 ∷ 9 ∷ 8 ∷ 1 ∷ 0 ∷ 0 ∷ 0 ∷ 7 ∷ 0 ∷ 0 ∷ 0 ∷ 0 ∷ []

on_chunks-encode_example :
    on_chunks [] (take 5 two_frames_bytes ∷ [] ∷ drop 5 two_frames_bytes ∷ []) ≡ (two_frames, [])
unfolding encode
on_chunks-encode_example =
    on_chunks-encode two_frames (take 5 two_frames_bytes ∷ [] ∷ drop 5 two_frames_bytes ∷ [])
      (
        record { type_byte = omega arith; id_word = omega arith },
        (record { type_byte = omega arith; id_word = omega arith }, tt),
      )
      refl (omega arith)

on_chunks-joined_example :
    on_chunks (3 ∷ []) (drop 1 two_frames_bytes ∷ (1 ∷ []) ∷ [])
    ≡ on_bytes (3 ∷ []) (drop 1 two_frames_bytes ++ (1 ∷ []))
unfolding take_frame
on_chunks-joined_example =
    on_chunks-joined (3 ∷ []) (drop 1 two_frames_bytes ∷ (1 ∷ []) ∷ []) refl (omega arith)

accepted_refines_example :
    accepted fresh (5 ∷ 3 ∷ 5 ∷ 0 ∷ 7000 ∷ 2905 ∷ 2904 ∷ []) ≡ (5 ∷ 3 ∷ 7000 ∷ 2905 ∷ [])
unfolding new_ones is_new
accepted_refines_example = accepted_refines (5 ∷ 3 ∷ 5 ∷ 0 ∷ 7000 ∷ 2905 ∷ 2904 ∷ [])
