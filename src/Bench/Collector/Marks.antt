-- ===== src/Bench/Collector/Marks.antt =====
-- message_codec.cpp: what one message changes in the collector.
use mini_middleware.Prelude.{
  inl, inr, ◌⊎◌, ℕ, zero, suc, ◌≤◌, ◌<◌, ◌≡◌, refl, ◌∙◌, List, [], ◌∷◌, Bool, true, false, not,
  Empty, Option, none, some, Bytes, bytes_eq, length, get_or, get_or-set_ne, arith, Bool-cases,
}
use mini_middleware.Bench.Codec.{BenchmarkMessageMetadata, parse_benchmark_payload}
use mini_middleware.Bench.Collector.Counts.{seen_samples-le}
use mini_middleware.Bench.Collector.{
  Collector, record_sample, record_metadata, is_refused, seen_samples,
}

-- A message of the run, with a number below `published`.
abbrev pub IsOwn : Bytes → ℕ → Option BenchmarkMessageMetadata → Type 0
IsOwn run_id published none = Empty
IsOwn run_id published (some m) = (m.run_id ≡ run_id) × (m.sequence < published)

-- A message that is not of the run.
abbrev pub is_foreign : Bytes → Option BenchmarkMessageMetadata → Bool
is_foreign run_id none = true
is_foreign run_id (some m) = not (bytes_eq m.run_id run_id)

-- Marks for numbers below `published` only.
abbrev pub MarksBelow : ℕ → List Bool → Type 0
MarksBelow published seen = (j : ℕ) → published ≤ j → get_or seen j false ≡ false

-- What a message of the run, or of another one, keeps and lets grow.
pub record Goes (published : ℕ) (c d : Collector) : Type 0 where
  pub same_run : d.run_id ≡ c.run_id
  pub grows : c.received_count ≤ d.received_count
  pub keeps : MarksBelow published c.seen → MarksBelow published d.seen

Goes-refl : (published : ℕ) (c : Collector) → Goes published c c
Goes-refl published c = record { same_run = refl; grows = omega arith; keeps = λ b. b }

record_metadata-Goes :
    (published : ℕ) (c : Collector) (m : Option BenchmarkMessageMetadata) (receive_ns : ℕ)
    → IsOwn c.run_id published m ⊎ (is_foreign c.run_id m ≡ true)
    → Goes published c (record_metadata c m receive_ns).1
unfolding record_metadata
record_metadata-Goes published c none receive_ns h = Goes-refl published c
record_metadata-Goes published c (some m) receive_ns h = elim (Bool-cases (is_refused c m)) [
  | inl bad ↦ rw bad (Goes-refl published c)
  | inr good ↦
      let lt : m.sequence < published = elim h [
        | inl own ↦ own.1
        | inr foreign ↦ ground (arith, foreign, good)
      ] in
      rw good (record {
        same_run = refl;
        grows = omega arith;
        keeps =
            λ b j ge. get_or-set_ne c.seen m.sequence j true false (omega (arith, lt, ge)) ∙ b j ge;
      })
]

pub record_sample-Goes :
    (published : ℕ) (c : Collector) (payload : Bytes) (receive_ns : ℕ)
    → IsOwn c.run_id published (parse_benchmark_payload payload)
      ⊎ (is_foreign c.run_id (parse_benchmark_payload payload) ≡ true)
    → Goes published c (record_sample c payload receive_ns).1
unfolding record_sample
record_sample-Goes published c payload receive_ns h =
    record_metadata-Goes published c (parse_benchmark_payload payload) receive_ns h

-- No more samples than the numbers that have marks.
pub seen_samples-below :
    (published : ℕ) (seen : List Bool) (xs : List ℕ)
    → MarksBelow published seen
    → length (seen_samples seen xs) ≤ published
seen_samples-below published [] xs b = omega arith
seen_samples-below published (s ∷ seen) [] b = omega arith
seen_samples-below zero (true ∷ seen) (x ∷ xs) b = let no_mark = b 0 (omega arith) in cc
seen_samples-below zero (false ∷ seen) (x ∷ xs) b =
    seen_samples-below zero seen xs (λ j ge. b (suc j) (omega arith))
seen_samples-below (suc k) (true ∷ seen) (x ∷ xs) b =
    omega (arith, seen_samples-below k seen xs (λ j ge. b (suc j) (omega (arith, ge))))
seen_samples-below (suc k) (false ∷ seen) (x ∷ xs) b =
    omega (arith, seen_samples-below k seen xs (λ j ge. b (suc j) (omega (arith, ge))))

-- As many samples as slots: every slot has its mark.
pub seen_samples-full :
    (seen : List Bool) (xs : List ℕ) (i : ℕ)
    → length (seen_samples seen xs) ≡ length seen
    → i < length seen
    → get_or seen i false ≡ true
seen_samples-full [] xs i e lt = ground (arith, lt)
seen_samples-full (s ∷ seen) [] i e lt = ground (arith, e)
seen_samples-full (false ∷ seen) (x ∷ xs) i e lt = ground (arith, e, seen_samples-le seen xs)
seen_samples-full (true ∷ seen) (x ∷ xs) zero e lt = refl
seen_samples-full (true ∷ seen) (x ∷ xs) (suc i) e lt =
    seen_samples-full seen xs i (omega (arith, e)) (omega (arith, lt))
