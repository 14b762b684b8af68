-- ===== src/Transport/FrameCodec.antt =====
-- transport/include/transport/frame_codec.h and transport/src/frame_codec.cpp: frames of a 4-byte
-- big-endian length and a payload. A buffer is a list of bytes; `decode` returns the messages and
-- what it leaves in the buffer.
pub mod Header
pub mod Frames
pub mod Streams
use mini_middleware.Prelude.{
  ℕ, zero, suc, ◌+◌, ◌*◌, ◌/◌, ◌%◌, ◌^◌, bit_and, bit_or, List, [], ◌∷◌, ◌++◌, Bytes, length, take,
  drop, ltb, leb, if◌then◌else◌,
}

abbrev pub header_size : ℕ
header_size = 4

abbrev pub max_payload_size : ℕ
max_payload_size = 16 * 1024 * 1024

-- `(value >> k) & 0xFF`
byte_at : ℕ → ℕ → ℕ
byte_at value k = bit_and (value / 2 ^ k) 0xff

unfoldable pub write_uint32_be : ℕ → Bytes
unfolding byte_at
write_uint32_be value = byte_at value 24 ∷ byte_at value 16 ∷ byte_at value 8 ∷ byte_at value 0 ∷ []

-- The loop over `i < 4`; `k` is `3 - i`. It never meets the end of the buffer: its callers check
-- that there are 4 bytes.
read_bytes : ℕ → Bytes → ℕ → ℕ
read_bytes k [] value = value
read_bytes zero (b ∷ bs) value = bit_or value (b % 256 * 2 ^ 0)
read_bytes (suc k) (b ∷ bs) value = read_bytes k bs (bit_or value (b % 256 * 2 ^ (8 * suc k)))

unfoldable pub read_uint32_be : Bytes → ℕ
unfolding read_bytes
read_uint32_be src = read_bytes 3 src 0

-- A payload over the limit gives the empty frame.
unfoldable pub encode : Bytes → Bytes
encode payload =
    if ltb max_payload_size (length payload)
    then []
    else write_uint32_be (length payload % 2 ^ 32) ++ payload

-- The `while` loop of `decode`. Each round that goes on takes 4 bytes at least.
unfoldable pub decode_loop : ℕ → Bytes → List Bytes × Bytes
decode_loop zero buffer = ([], buffer)
decode_loop (suc fuel) buffer =
    let len = read_uint32_be buffer in
    let rest = decode_loop fuel (drop (len + header_size) buffer) in
    if ltb (length buffer) header_size
    then ([], buffer)
    else if ltb max_payload_size len
    then ([], [])
    else if ltb (length buffer) (header_size + len)
    then ([], buffer)
    else (take len (drop header_size buffer) ∷ rest.0, rest.1)

unfoldable pub decode : Bytes → List Bytes × Bytes
decode buffer = decode_loop (length buffer) buffer
