-- ===== src/Tests/Frames.antt =====
-- frame_codec.cpp on short buffers.
use mini_middleware.Prelude.{◌≡◌, refl, inl, List, [], ◌∷◌, ◌++◌, map, Bytes, concat, arith}
use mini_middleware.Transport.FrameCodec.{write_uint32_be, read_uint32_be, encode, decode}
use mini_middleware.Transport.FrameCodec.Frames.{Fits}
use mini_middleware.Transport.FrameCodec.Streams.{decode-encode_all, decode_drops_corrupt}

abbrev payloads : List Bytes
payloads = (104 ∷ 105 ∷ []) ∷ [] ∷ (33 ∷ []) ∷ []

payloads-Fits : Fits payloads
payloads-Fits = (omega arith, (omega arith, (omega arith, tt)))

decode-encode_all_example :
    decode (concat (map encode payloads) ++ (0 ∷ 0 ∷ [])) ≡ (payloads, 0 ∷ 0 ∷ [])
decode-encode_all_example =
    decode-encode_all payloads (0 ∷ 0 ∷ []) payloads-Fits (inl (omega arith))

abbrev bad_frame : Bytes
bad_frame = 255 ∷ 255 ∷ 255 ∷ 255 ∷ 1 ∷ 2 ∷ []

bad_frame_length : read_uint32_be bad_frame ≡ 4294967295
unfolding read_uint32_be
bad_frame_length = refl

decode_drops_corrupt_example : decode (concat (map encode payloads) ++ bad_frame) ≡ (payloads, [])
decode_drops_corrupt_example =
    decode_drops_corrupt payloads bad_frame payloads-Fits (omega arith)
      (omega (arith, bad_frame_length))

-- The empty payload is a frame of its own.
encode_empty : encode [] ≡ 0 ∷ 0 ∷ 0 ∷ 0 ∷ []
unfolding encode write_uint32_be
encode_empty = refl
