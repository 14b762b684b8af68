-- ===== src/Bench/Stats.antt =====
-- bench/include/bench/stats.h and bench/src/stats.cpp: the percentiles of the latencies. The means and
-- the throughput are floating-point numbers, which are not modelled. A std::size_t has 64 bits.
pub mod Sorted
pub mod Percentile
use mini_middleware.Prelude.{
  ℕ, ◌+◌, ◌-◌, ◌*◌, ◌/◌, ◌%◌, ◌^◌, List, [], ◌∷◌, Bool, true, false, leb, if◌then◌else◌, length,
  get_or,
}

pub record LatencyStats : Type 0 where
  pub count : ℕ
  pub p50_us : ℕ
  pub p95_us : ℕ
  pub p99_us : ℕ

unfoldable pub insert : ℕ → List ℕ → List ℕ
insert x [] = x ∷ []
insert x (y ∷ ys) = let rest = insert x ys in if leb x y then x ∷ y ∷ ys else y ∷ rest

-- std::sort, whose result for numbers is the one ordered rearrangement.
unfoldable pub sort : List ℕ → List ℕ
sort [] = []
sort (x ∷ xs) = insert x (sort xs)

unfoldable pub nearest_rank_percentile : List ℕ → ℕ → ℕ
nearest_rank_percentile sorted_samples percentile =
    let rank = (length sorted_samples * percentile % 2 ^ 64 + 99) % 2 ^ 64 / 100 in
    get_or sorted_samples (rank - 1) 0

unfoldable pub compute_latency_stats : List ℕ → LatencyStats
compute_latency_stats [] = record { count = 0; p50_us = 0; p95_us = 0; p99_us = 0 }
compute_latency_stats (x ∷ samples_us) =
    let sorted = sort (x ∷ samples_us) in
    record {
      count = length (x ∷ samples_us);
      p50_us = nearest_rank_percentile sorted 50;
      p95_us = nearest_rank_percentile sorted 95;
      p99_us = nearest_rank_percentile sorted 99;
    }
