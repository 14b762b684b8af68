-- ===== src/Bench/Codec/Sizes.antt =====
-- message_codec.cpp: the sizes of the messages of a run.
use mini_middleware.Prelude.{
  ℕ, ◌+◌, ◌-◌, ◌^◌, ◌≤◌, ◌<◌, ◌≡◌, max, [], ◌∷◌, ◌++◌, Bytes, to_string, length, length-append,
  length-replicate, replicate, length-to_string, arith,
}
use mini_middleware.Bench.Codec.{
  max_benchmark_run_id_bytes, metadata_text, make_benchmark_payload,
  minimum_benchmark_payload_bytes, effective_benchmark_payload_bytes,
}

length-metadata_text :
    (run_id : Bytes) (sequence send_ns : ℕ)
    → length (metadata_text run_id sequence send_ns)
      ≡ length run_id + length (to_string sequence) + length (to_string send_ns) + 3
length-metadata_text run_id sequence send_ns = omega (
  arith,
  length-append run_id (b'|' ∷ (to_string sequence ++ (b'|' ∷ (to_string send_ns ++ (b'|' ∷ []))))),
  length-append (to_string sequence) (b'|' ∷ (to_string send_ns ++ (b'|' ∷ []))),
  length-append (to_string send_ns) (b'|' ∷ []),
)

length-make :
    (run_id : Bytes) (sequence send_ns payload_bytes : ℕ)
    → length (make_benchmark_payload run_id sequence send_ns payload_bytes)
      ≡ max payload_bytes (length (metadata_text run_id sequence send_ns))
unfolding make_benchmark_payload
length-make run_id sequence send_ns payload_bytes =
    let text = metadata_text run_id sequence send_ns in
    let missing = payload_bytes - length text in
    omega
      (arith, length-append text (replicate missing b'x'), length-replicate {A = ℕ} missing b'x')

-- With a run id of at most 62 bytes, every payload of a run of `count` messages that is made with the
-- run's effective size has exactly this size, whatever its sequence number below `count` and its
-- 64-bit time; the size is not below the one requested.
pub effective_size_is_exact :
    (run_id : Bytes) (sequence send_ns requested count : ℕ)
    → length run_id ≤ max_benchmark_run_id_bytes
    → sequence < count
    → send_ns < 2 ^ 64
    → (length (
          make_benchmark_payload run_id sequence send_ns
            (effective_benchmark_payload_bytes requested count))
        ≡ effective_benchmark_payload_bytes requested count)
      × (requested ≤ effective_benchmark_payload_bytes requested count)
unfolding effective_benchmark_payload_bytes minimum_benchmark_payload_bytes
effective_size_is_exact run_id sequence send_ns requested count short lt early =
    let zeros : Bytes = replicate max_benchmark_run_id_bytes b'0' in
    let size = effective_benchmark_payload_bytes requested count in
    (
      omega (
        arith,
        length-make run_id sequence send_ns size,
        length-make zeros (count - 1) (2 ^ 64 - 1) 0,
        length-metadata_text run_id sequence send_ns,
        length-metadata_text zeros (count - 1) (2 ^ 64 - 1),
        length-replicate {A = ℕ} max_benchmark_run_id_bytes b'0',
        length-to_string sequence (count - 1) (omega (arith, lt)),
        length-to_string send_ns (2 ^ 64 - 1) (omega (arith, early)),
        short,
      ),
      omega arith,
    )
