-- ===== src/Transport/FrameCodec/Streams.antt =====
-- frame_codec.cpp: a buffer that is cut from the front of a stream of frames.
use native.Mathlib.Decide.{dec_lt}
use mini_middleware.Prelude.{
  ℕ, zero, suc, ◌≤◌, ◌<◌, ◌≡◌, refl, sym, ◌∙◌, ap, inl, inr, List, [], ◌∷◌, ◌++◌, append_assoc, map,
  Bytes, length, take, drop, concat, arith, length-append, take_append, drop_append,
  take-append-drop, take-append_le, drop-append_le,
}
use mini_middleware.Transport.FrameCodec.{max_payload_size, read_uint32_be, encode, decode}
use mini_middleware.Transport.FrameCodec.Header.{read-append}
use mini_middleware.Transport.FrameCodec.Frames.{
  length-encode, read-encode, decode_frame, IsPartial, decode_partial, decode_corrupt, stream, Fits,
}

-- What `decode` makes of a buffer `b`, when `b` and the bytes `later` that are still to come make up
-- the stream of `ps`: the first `count` messages, with the rest of the stream kept.
pub record Decoded (ps : List Bytes) (b later : Bytes) : Type 0 where
  pub count : ℕ
  pub left : Bytes
  pub result : decode b ≡ (take count ps, left)
  pub kept : left ++ later ≡ stream (drop count ps)
  pub is_partial : IsPartial left

nil_of_append : (b later : Bytes) → b ++ later ≡ [] → b ≡ []
nil_of_append [] later e = refl
nil_of_append (x ∷ b) later e = cc

-- A longer front of the same bytes begins with the shorter one.
front_splits :
    (b later f s : Bytes) → b ++ later ≡ f ++ s → length f ≤ length b → b ≡ f ++ drop (length f) b
front_splits b later f s e h =
    sym (take-append-drop (length f) b)
    ∙ ap (λ t. t ++ drop (length f) b)
        (sym (take-append_le (length f) b later h) ∙ ap (take (length f)) e ∙ take_append f s)

back_splits :
    (b later f s : Bytes)
    → b ++ later ≡ f ++ s
    → length f ≤ length b
    → drop (length f) b ++ later ≡ s
back_splits b later f s e h =
    sym (drop-append_le (length f) b later h) ∙ ap (drop (length f)) e ∙ drop_append f s

-- A proper front of one frame is partial.
front-IsPartial :
    (p b later s : Bytes)
    → length p ≤ max_payload_size
    → b ++ later ≡ encode p ++ s
    → length b < length (encode p)
    → IsPartial b
front-IsPartial p b later s h e lt = elim (dec_lt (length b) 4) [
  | yes short ↦ inl short
  | no long ↦
      let same : read_uint32_be b ≡ length p =
        sym (read-append b later (omega arith)) ∙ ap read_uint32_be e ∙ read-encode p s h in
      inr (omega arith, omega (arith, length-encode p h))
]

pub decode_front :
    (ps : List Bytes) (b later : Bytes) → Fits ps → b ++ later ≡ stream ps → Decoded ps b later
decode_front [] b later fits e = record {
  count = 0;
  left = [];
  result = rw (nil_of_append b later e) (decode_partial [] (inl (omega arith)));
  kept = ap (λ c. c ++ later) (sym (nil_of_append b later e)) ∙ e;
  is_partial = inl (omega arith);
}
decode_front (p ∷ ps) b later fits e = elim (dec_lt (length b) (length (encode p))) [
  | yes lt ↦
      let part : IsPartial b = front-IsPartial p b later (stream ps) fits.0 e lt in
      record { count = 0; left = b; result = decode_partial b part; kept = e; is_partial = part }
  | no ge ↦
      let rest : Decoded ps (drop (length (encode p)) b) later =
        decode_front ps (drop (length (encode p)) b) later fits.1
          (back_splits b later (encode p) (stream ps) e (omega arith)) in
      record {
        count = suc rest.count;
        left = rest.left;
        result =
            ap decode (front_splits b later (encode p) (stream ps) e (omega arith))
            ∙ decode_frame p (drop (length (encode p)) b) fits.0
            ∙ ap (λ (r : List Bytes × Bytes). (p ∷ r.0, r.1)) rest.result;
        kept = rest.kept;
        is_partial = rest.is_partial;
      }
]

-- A partial buffer is no stream of one frame or more.
stream-not-IsPartial : (ps : List Bytes) → Fits ps → IsPartial (stream ps) → ps ≡ []
stream-not-IsPartial [] fits part = refl
stream-not-IsPartial (p ∷ ps) fits part = absurd (
    omega (
      arith,
      read-encode p (stream ps) fits.0,
      length-append (encode p) (stream ps),
      length-encode p fits.0,
    ))

-- With nothing more to come, a partial rest means that every message was decoded.
pub drained : (ps : List Bytes) (k : ℕ) → Fits ps → IsPartial (stream (drop k ps)) → take k ps ≡ ps
drained ps zero fits part = sym (stream-not-IsPartial ps fits part)
drained [] (suc k) fits part = refl
drained (p ∷ ps) (suc k) fits part = ap (◌∷◌ p) (drained ps k fits.1 part)

-- Decoding the frames of any messages within the limit, followed by a buffer that holds no whole
-- frame, gives back exactly those messages in order, and leaves that buffer.
pub decode-encode_all :
    (ps : List Bytes) (rest : Bytes)
    → Fits ps
    → IsPartial rest
    → decode (concat (map encode ps) ++ rest) ≡ (ps, rest)
decode-encode_all [] rest fits part = decode_partial rest part
decode-encode_all (p ∷ ps) rest fits part =
    ap decode (append_assoc (encode p) (stream ps) rest)
    ∙ decode_frame p (stream ps ++ rest) fits.0
    ∙ ap (λ (r : List Bytes × Bytes). (p ∷ r.0, r.1)) (decode-encode_all ps rest fits.1 part)

-- A length field over 16 MiB after any whole frames: the frames before it are returned, and all
-- that stands from it on is dropped from the buffer, whatever it is.
pub decode_drops_corrupt :
    (ps : List Bytes) (bad : Bytes)
    → Fits ps
    → 4 ≤ length bad
    → max_payload_size < read_uint32_be bad
    → decode (concat (map encode ps) ++ bad) ≡ (ps, [])
decode_drops_corrupt [] bad fits h k = decode_corrupt bad h k
decode_drops_corrupt (p ∷ ps) bad fits h k =
    ap decode (append_assoc (encode p) (stream ps) bad)
    ∙ decode_frame p (stream ps ++ bad) fits.0
    ∙ ap (λ (r : List Bytes × Bytes). (p ∷ r.0, r.1)) (decode_drops_corrupt ps bad fits.1 h k)
