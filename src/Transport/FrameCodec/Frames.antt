-- ===== src/Transport/FrameCodec/Frames.antt =====
-- frame_codec.cpp: `decode` against the stream that `encode` makes, whole or cut anywhere.
use mini_middleware.Prelude.{
  ℕ, zero, suc, ◌+◌, ◌≤◌, ◌<◌, ◌≡◌, refl, sym, ◌∙◌, ap, ◌⊎◌, List, [], ◌∷◌, ◌++◌, append_assoc, map,
  Bytes, length, take, drop, concat, All, arith, length-append, length-drop, take_append,
  drop_append, le→not-ltb,
}
use mini_middleware.Transport.FrameCodec.{
  max_payload_size, write_uint32_be, read_uint32_be, encode, decode_loop, decode,
}
use mini_middleware.Transport.FrameCodec.Header.{length-write_uint32_be, read-write}

-- The fuel of `decode` is enough: more gives the same.
decode_loop-fuel :
    (f g : ℕ) (b : Bytes) → length b ≤ f → length b ≤ g → decode_loop f b ≡ decode_loop g b
unfolding decode_loop
decode_loop-fuel zero zero b p q = refl
decode_loop-fuel zero (suc g) b p q = ground arith
decode_loop-fuel (suc f) zero b p q = ground arith
decode_loop-fuel (suc f) (suc g) b p q = ground (
  arith,
  length-drop (read_uint32_be b + 4) b,
  decode_loop-fuel f g (drop (read_uint32_be b + 4) b),
)

pub decode_loop_enough : (f : ℕ) (b : Bytes) → length b ≤ f → decode_loop f b ≡ decode b
unfolding decode
decode_loop_enough f b h = decode_loop-fuel f (length b) b h (omega arith)

pub encode_lem :
    (p : Bytes) → length p ≤ max_payload_size → encode p ≡ write_uint32_be (length p) ++ p
unfolding encode
encode_lem p h =
    rw (le→not-ltb max_payload_size (length p) h) (ap (λ n. write_uint32_be n ++ p) (omega arith))

pub length-encode : (p : Bytes) → length p ≤ max_payload_size → length (encode p) ≡ 4 + length p
length-encode p h =
    ap length (encode_lem p h)
    ∙ omega (arith, length-append (write_uint32_be (length p)) p, length-write_uint32_be (length p))

drop-encode :
    (p rest : Bytes) (n : ℕ)
    → length p ≤ max_payload_size
    → n ≡ 4 + length p
    → drop n (encode p ++ rest) ≡ rest
drop-encode p rest n h e =
    ap (λ k. drop k (encode p ++ rest)) (e ∙ sym (length-encode p h)) ∙ drop_append (encode p) rest

pub read-encode :
    (p rest : Bytes) → length p ≤ max_payload_size → read_uint32_be (encode p ++ rest) ≡ length p
read-encode p rest h =
    rw (encode_lem p h, append_assoc) (read-write (length p) (p ++ rest) (omega arith))

take-encode :
    (p rest : Bytes) → length p ≤ max_payload_size → take (length p) (drop 4 (encode p ++ rest)) ≡ p
unfolding write_uint32_be
take-encode p rest h = rw (encode_lem p h) (take_append p rest)

decode_loop_frame :
    (f : ℕ) (p rest : Bytes)
    → length p ≤ max_payload_size
    → decode_loop (suc f) (encode p ++ rest) ≡ (p ∷ (decode_loop f rest).0, (decode_loop f rest).1)
unfolding decode_loop
decode_loop_frame f p rest h = ground (
  arith,
  read-encode p rest h,
  take-encode p rest h,
  drop-encode p rest (length p + 4) h,
  length-append (encode p) rest,
  length-encode p h,
)

-- A whole frame at the front of the buffer is one message, and the rest is decoded as before.
pub decode_frame :
    (p rest : Bytes)
    → length p ≤ max_payload_size
    → decode (encode p ++ rest) ≡ (p ∷ (decode rest).0, (decode rest).1)
decode_frame p rest h =
    sym (decode_loop_enough (suc (length (encode p ++ rest))) (encode p ++ rest) (omega arith))
    ∙ decode_loop_frame (length (encode p ++ rest)) p rest h
    ∙ ap (λ (r : List Bytes × Bytes). (p ∷ r.0, r.1))
        (decode_loop_enough (length (encode p ++ rest)) rest
          (omega (arith, length-append (encode p) rest)))

-- A buffer that holds no whole frame, and no length over the limit.
abbrev pub IsPartial : Bytes → Type 0
IsPartial b =
    (length b < 4) ⊎ ((read_uint32_be b ≤ max_payload_size) × (length b < 4 + read_uint32_be b))

pub decode_partial : (b : Bytes) → IsPartial b → decode b ≡ ([], b)
unfolding decode_loop
decode_partial b h = sym (decode_loop_enough (suc (length b)) b (omega arith)) ∙ ground arith

-- A length over the limit: the whole buffer is dropped.
pub decode_corrupt :
    (b : Bytes) → 4 ≤ length b → max_payload_size < read_uint32_be b → decode b ≡ ([], [])
unfolding decode_loop
decode_corrupt b h k = sym (decode_loop_enough (suc (length b)) b (omega arith)) ∙ ground arith

abbrev pub stream : List Bytes → Bytes
stream ps = concat (map encode ps)

abbrev pub Fits : List Bytes → Type 0
Fits = All (λ p. length p ≤ max_payload_size)
