-- ===== src/Bench/Codec.antt =====
-- bench/include/bench/message_codec.h and bench/src/message_codec.cpp: a benchmark message as text.
-- A std::size_t and a std::uint64_t have 64 bits.
pub mod RoundTrip
pub mod Sizes
use mini_middleware.Prelude.{
  ℕ, ◌-◌, ◌^◌, max, [], ◌∷◌, ◌++◌, Option, none, some, Bytes, to_string, length, replicate,
  split_at, from_chars,
}

pub record BenchmarkMessageMetadata : Type 0 where
  pub run_id : Bytes
  pub sequence : ℕ
  pub send_ns : ℕ

-- `3 * (std::numeric_limits<std::uint64_t>::digits10 + 1) + 2`, and digits10 is 19.
abbrev pub max_benchmark_run_id_bytes : ℕ
max_benchmark_run_id_bytes = 62

unfoldable pub parse_unsigned : Bytes → Option ℕ
parse_unsigned text = whole (from_chars text)
  where
    whole : Option (ℕ × Bytes) → Option ℕ
    whole none = none
    whole (some (n, [])) = some n
    whole (some (n, c ∷ rest)) = none

abbrev pub metadata_text : Bytes → ℕ → ℕ → Bytes
metadata_text run_id sequence send_ns =
    run_id ++ (b'|' ∷ (to_string sequence ++ (b'|' ∷ (to_string send_ns ++ (b'|' ∷ [])))))

-- Filled up with 'x' to the size asked for.
unfoldable pub make_benchmark_payload : Bytes → ℕ → ℕ → ℕ → Bytes
make_benchmark_payload run_id sequence send_ns payload_bytes =
    let payload = metadata_text run_id sequence send_ns in
    payload ++ replicate (payload_bytes - length payload) b'x'

with_numbers : Bytes → Option ℕ → Option ℕ → Option BenchmarkMessageMetadata
with_numbers run_id (some sequence) (some send_ns) =
    some (record { run_id = run_id; sequence = sequence; send_ns = send_ns })
with_numbers run_id (some sequence) none = none
with_numbers run_id none send_ns = none

third_field : Bytes → Bytes → Option (Bytes × Bytes) → Option BenchmarkMessageMetadata
unfolding with_numbers
third_field run_id sequence_text none = none
third_field run_id sequence_text (some (timestamp_text, filling)) =
    with_numbers run_id (parse_unsigned sequence_text) (parse_unsigned timestamp_text)

second_field : Bytes → Option (Bytes × Bytes) → Option BenchmarkMessageMetadata
unfolding third_field
second_field run_id none = none
second_field run_id (some (sequence_text, rest)) =
    third_field run_id sequence_text (split_at b'|' rest)

-- An empty run id is refused.
first_field : Option (Bytes × Bytes) → Option BenchmarkMessageMetadata
unfolding second_field
first_field none = none
first_field (some ([], rest)) = none
first_field (some (c ∷ run_id, rest)) = second_field (c ∷ run_id) (split_at b'|' rest)

unfoldable pub parse_benchmark_payload : Bytes → Option BenchmarkMessageMetadata
unfolding first_field
parse_benchmark_payload payload = first_field (split_at b'|' payload)

unfoldable pub minimum_benchmark_payload_bytes : Bytes → ℕ → ℕ
minimum_benchmark_payload_bytes run_id count =
    length (make_benchmark_payload run_id (count - 1) (2 ^ 64 - 1) 0)

unfoldable pub effective_benchmark_payload_bytes : ℕ → ℕ → ℕ
effective_benchmark_payload_bytes requested_payload_bytes count =
    max requested_payload_bytes
      (minimum_benchmark_payload_bytes (replicate max_benchmark_run_id_bytes b'0') count)
