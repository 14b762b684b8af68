-- ===== src/Bench/Collector.antt =====
-- message_codec.h and message_codec.cpp: BenchmarkSampleCollector, which keeps one latency for each
-- sequence number. Times are 64-bit nanoseconds; a latency is in microseconds.
pub mod Counts
pub mod First
pub mod Marks
use mini_middleware.Prelude.{
  ℕ, ◌+◌, ◌-◌, ◌/◌, List, [], ◌∷◌, Bool, true, false, ◌||◌, not, Option, none, some, Bytes,
  bytes_eq, ltb, leb, if◌then◌else◌, length, get_or, set, replicate,
}
use mini_middleware.Bench.Codec.{BenchmarkMessageMetadata, parse_benchmark_payload}

pub record Collector : Type 0 where
  pub run_id : Bytes
  pub samples_by_sequence : List ℕ
  pub seen : List Bool
  pub received_count : ℕ

unfoldable pub new_collector : Bytes → ℕ → Collector
new_collector run_id expected_count = record {
  run_id = run_id;
  samples_by_sequence = replicate expected_count 0;
  seen = replicate expected_count false;
  received_count = 0;
}

-- Another run's message, a number out of range, and a number seen before are refused.
abbrev pub is_refused : Collector → BenchmarkMessageMetadata → Bool
is_refused c m =
    not (bytes_eq m.run_id c.run_id)
    || leb (length c.seen) m.sequence
    || get_or c.seen m.sequence false

-- A message that arrives before its sending time counts as 0.
abbrev pub latency_us : ℕ → ℕ → ℕ
latency_us send_ns receive_ns = if leb send_ns receive_ns then (receive_ns - send_ns) / 1000 else 0

record_metadata : Collector → Option BenchmarkMessageMetadata → ℕ → Bool × Collector
record_metadata c none receive_ns = (false, c)
record_metadata c (some m) receive_ns = if is_refused c m then (false, c) else (
  true,
  record c {
    samples_by_sequence = set c.samples_by_sequence m.sequence (latency_us m.send_ns receive_ns);
    seen = set c.seen m.sequence true;
    received_count = c.received_count + 1;
  },
)

-- The method `record`.
unfoldable pub record_sample : Collector → Bytes → ℕ → Bool × Collector
unfolding record_metadata
record_sample c payload receive_ns = record_metadata c (parse_benchmark_payload payload) receive_ns

-- The samples of the numbers seen, in order.
abbrev pub seen_samples : List Bool → List ℕ → List ℕ
seen_samples [] samples = []
seen_samples (s ∷ seen) [] = []
seen_samples (true ∷ seen) (x ∷ samples) = x ∷ seen_samples seen samples
seen_samples (false ∷ seen) (x ∷ samples) = seen_samples seen samples

unfoldable pub samples : Collector → List ℕ
samples c = seen_samples c.seen c.samples_by_sequence

-- The messages of a run, each with the time it is received at.
unfoldable pub record_all : Collector → List (Bytes × ℕ) → Collector
record_all c [] = c
record_all c ((payload, receive_ns) ∷ messages) =
    record_all (record_sample c payload receive_ns).1 messages
