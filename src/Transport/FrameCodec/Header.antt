-- ===== src/Transport/FrameCodec/Header.antt =====
-- The big-endian length of frame_codec.cpp: what is written is read back.
use mini_middleware.Prelude.{
  ℕ, ◌+◌, ◌*◌, ◌/◌, ◌%◌, ◌^◌, ◌≤◌, ◌<◌, ◌≡◌, refl, ◌∙◌, bit_or, [], ◌∷◌, ◌++◌, Bytes, length, arith,
  bit_or_disjoint, bit_and_low,
}
use mini_middleware.Transport.FrameCodec.{byte_at, write_uint32_be, read_uint32_be}

or_first : (a : ℕ) → a < 256 → bit_or 0 (a % 256 * 2 ^ 24) ≡ a * 2 ^ 24
or_first a h = bit_or_disjoint 32 0 (a % 256 * 2 ^ 24) (omega arith) ∙ omega arith

or_second : (a b : ℕ) → b < 256 → bit_or (a * 2 ^ 24) (b % 256 * 2 ^ 16) ≡ (a * 256 + b) * 2 ^ 16
or_second a b h = bit_or_disjoint 24 a (b % 256 * 2 ^ 16) (omega arith) ∙ omega arith

or_third : (v c : ℕ) → c < 256 → bit_or (v * 2 ^ 16) (c % 256 * 2 ^ 8) ≡ (v * 256 + c) * 2 ^ 8
or_third v c h = bit_or_disjoint 16 v (c % 256 * 2 ^ 8) (omega arith) ∙ omega arith

or_fourth : (v d : ℕ) → d < 256 → bit_or (v * 2 ^ 8) (d % 256 * 2 ^ 0) ≡ v * 256 + d
or_fourth v d h = bit_or_disjoint 8 v (d % 256 * 2 ^ 0) (omega arith) ∙ omega arith

-- The four bytes are the digits of the number to base 256.
read_digits :
    (a b c d : ℕ) (rest : Bytes)
    → a < 256
    → b < 256
    → c < 256
    → d < 256
    → read_uint32_be (a ∷ b ∷ c ∷ d ∷ rest) ≡ ((a * 256 + b) * 256 + c) * 256 + d
unfolding read_uint32_be
read_digits a b c d rest ha hb hc hd =
    rw (or_first a ha, or_second a b hb, or_third (a * 256 + b) c hc)
      (or_fourth ((a * 256 + b) * 256 + c) d hd)

byte_at-lt : (v k : ℕ) → byte_at v k < 256
unfolding byte_at
byte_at-lt v k = omega (arith, bit_and_low 8 (v / 2 ^ k))

byte_at_lem : (v k : ℕ) → byte_at v k ≡ v / 2 ^ k % 256
unfolding byte_at
byte_at_lem v k = bit_and_low 8 (v / 2 ^ k)

pub length-write_uint32_be : (v : ℕ) → length (write_uint32_be v) ≡ 4
unfolding write_uint32_be
length-write_uint32_be v = refl

-- A length that fits 32 bits is read back from the four bytes written for it, whatever follows.
pub read-write :
    (v : ℕ) (rest : Bytes) → v < 2 ^ 32 → read_uint32_be (write_uint32_be v ++ rest) ≡ v
unfolding write_uint32_be
read-write v rest h =
    read_digits (byte_at v 24) (byte_at v 16) (byte_at v 8) (byte_at v 0) rest (byte_at-lt v 24)
      (byte_at-lt v 16) (byte_at-lt v 8) (byte_at-lt v 0)
    ∙ omega (arith, byte_at_lem v 24, byte_at_lem v 16, byte_at_lem v 8, byte_at_lem v 0)

-- Only the first four bytes are read.
pub read-append : (xs ys : Bytes) → 4 ≤ length xs → read_uint32_be (xs ++ ys) ≡ read_uint32_be xs
unfolding read_uint32_be
read-append (a ∷ b ∷ c ∷ d ∷ xs) ys h = refl
read-append (a ∷ b ∷ c ∷ []) ys h = absurd (omega arith)
read-append (a ∷ b ∷ []) ys h = absurd (omega arith)
read-append (a ∷ []) ys h = absurd (omega arith)
read-append [] ys h = absurd (omega arith)
