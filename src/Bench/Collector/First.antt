-- ===== src/Bench/Collector/First.antt =====
-- message_codec.cpp: the collector against a description that has no state.
use mini_middleware.Prelude.{
  ℕ, List, [], ◌∷◌, false, ◌&&◌, Option, none, some, Bytes, bytes_eq, get_or, ◌==◌, if◌then◌else◌,
}
use mini_middleware.Bench.Codec.{BenchmarkMessageMetadata, parse_benchmark_payload}
use mini_middleware.Bench.Collector.{Collector, latency_us}

-- What the collector holds for a sequence number.
abbrev pub sample_of : Collector → ℕ → Option ℕ
sample_of c i = if get_or c.seen i false then some (get_or c.samples_by_sequence i 0) else none

-- The latency of a message, when it is the run's message with that number.
abbrev pub latency_for : Bytes → ℕ → Option BenchmarkMessageMetadata → ℕ → Option ℕ
latency_for run_id i none receive_ns = none
latency_for run_id i (some m) receive_ns =
    if bytes_eq m.run_id run_id && (m.sequence == i)
    then some (latency_us m.send_ns receive_ns)
    else none

abbrev pub or_else : Option ℕ → Option ℕ → Option ℕ
or_else none b = b
or_else (some a) b = some a

-- The latency of the first of the messages that is the run's message with that number.
abbrev pub first_latency : Bytes → ℕ → List (Bytes × ℕ) → Option ℕ
first_latency run_id i [] = none
first_latency run_id i ((payload, receive_ns) ∷ messages) =
    or_else (latency_for run_id i (parse_benchmark_payload payload) receive_ns)
      (first_latency run_id i messages)
