-- ===== src/Bench/Collector/Counts.antt =====
-- message_codec.cpp: what the collector counts.
use mini_middleware.Prelude.{
  inl, inr, ℕ, zero, suc, ◌+◌, ◌≤◌, ◌<◌, ◌≡◌, refl, ap, ◌∙◌, List, [], ◌∷◌, Bool, true, false,
  Option, none, some, Bytes, arith, Bool-cases, length, length-replicate, get_or, set, replicate,
  length-set,
}
use mini_middleware.Bench.Codec.{BenchmarkMessageMetadata, parse_benchmark_payload}
use mini_middleware.Bench.Collector.{
  Collector, new_collector, is_refused, record_metadata, record_sample, latency_us, seen_samples,
  samples, record_all,
}

-- One slot for each expected message, and as many samples as were received.
pub record IsCounted (expected_count : ℕ) (c : Collector) : Type 0 where
  pub slots : length c.samples_by_sequence ≡ expected_count
  pub marks : length c.seen ≡ expected_count
  pub counted : length (samples c) ≡ c.received_count

seen_samples-none : (n : ℕ) → seen_samples (replicate n false) (replicate n 0) ≡ []
seen_samples-none zero = refl
seen_samples-none (suc n) = seen_samples-none n

pub new_collector-IsCounted : (run_id : Bytes) (n : ℕ) → IsCounted n (new_collector run_id n)
unfolding new_collector samples
new_collector-IsCounted run_id n = record {
  slots = length-replicate {A = ℕ} n 0;
  marks = length-replicate n false;
  counted = ap length (seen_samples-none n);
}

-- A new mark is a new sample.
seen_samples-set :
    (seen : List Bool) (xs : List ℕ) (i v : ℕ)
    → i < length seen
    → length xs ≡ length seen
    → get_or seen i false ≡ false
    → length (seen_samples (set seen i true) (set xs i v)) ≡ length (seen_samples seen xs) + 1
seen_samples-set [] xs i v lt e h = ground (arith, lt)
seen_samples-set (s ∷ seen) [] i v lt e h = ground (arith, e)
seen_samples-set (true ∷ seen) (x ∷ xs) zero v lt e h = cc
seen_samples-set (false ∷ seen) (x ∷ xs) zero v lt e h = omega arith
seen_samples-set (true ∷ seen) (x ∷ xs) (suc i) v lt e h =
    omega (arith, seen_samples-set seen xs i v (omega (arith, lt)) (omega (arith, e)) h)
seen_samples-set (false ∷ seen) (x ∷ xs) (suc i) v lt e h =
    seen_samples-set seen xs i v (omega (arith, lt)) (omega (arith, e)) h

pub seen_samples-le : (seen : List Bool) (xs : List ℕ) → length (seen_samples seen xs) ≤ length seen
seen_samples-le [] xs = omega arith
seen_samples-le (s ∷ seen) [] = omega arith
seen_samples-le (true ∷ seen) (x ∷ xs) = omega (arith, seen_samples-le seen xs)
seen_samples-le (false ∷ seen) (x ∷ xs) = omega (arith, seen_samples-le seen xs)

pub record_sample-IsCounted :
    (n : ℕ) (c : Collector) (payload : Bytes) (receive_ns : ℕ)
    → IsCounted n c
    → IsCounted n (record_sample c payload receive_ns).1
unfolding record_sample samples
record_sample-IsCounted n c payload receive_ns v = go (parse_benchmark_payload payload)
  where
    go : (m : Option BenchmarkMessageMetadata) → IsCounted n (record_metadata c m receive_ns).1
    go none = v
    go (some m) = elim (Bool-cases (is_refused c m)) [
      | inl bad ↦ rw bad v
      | inr good ↦ rw good (record {
        slots =
            length-set c.samples_by_sequence m.sequence (latency_us m.send_ns receive_ns) ∙ v.slots;
        marks = length-set c.seen m.sequence true ∙ v.marks;
        counted =
            seen_samples-set c.seen c.samples_by_sequence m.sequence
              (latency_us m.send_ns receive_ns) (ground (arith, good))
              (omega (arith, v.slots, v.marks)) (ground (arith, good))
            ∙ ap (λ k. k + 1) v.counted;
      })
    ]

record_all-keeps :
    (n : ℕ) (c : Collector) (messages : List (Bytes × ℕ))
    → IsCounted n c
    → IsCounted n (record_all c messages)
unfolding record_all
record_all-keeps n c [] v = v
record_all-keeps n c ((payload, receive_ns) ∷ messages) v =
    record_all-keeps n (record_sample c payload receive_ns).1 messages
      (record_sample-IsCounted n c payload receive_ns v)

-- After any messages, a collector for `n` messages has `n` slots and `n` marks, its count is the
-- number of its samples, and it is at most `n`.
pub record_all-IsCounted :
    (run_id : Bytes) (n : ℕ) (messages : List (Bytes × ℕ))
    → IsCounted n (record_all (new_collector run_id n) messages)
      × ((record_all (new_collector run_id n) messages).received_count ≤ n)
unfolding samples
record_all-IsCounted run_id n messages =
    let c = record_all (new_collector run_id n) messages in
    let v =
      record_all-keeps n (new_collector run_id n) messages (new_collector-IsCounted run_id n) in
    (v, omega (arith, v.marks, v.counted, seen_samples-le c.seen c.samples_by_sequence))
