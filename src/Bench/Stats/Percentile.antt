-- ===== src/Bench/Stats/Percentile.antt =====
-- stats.cpp: the percentiles of nearest rank.
use mini_middleware.Prelude.{
  ℕ, ◌+◌, ◌-◌, ◌*◌, ◌/◌, ◌%◌, ◌^◌, ap, sym, subst, ◌∙◌, ◌≤◌, ◌<◌, ◌≡◌, refl, List, [], ◌∷◌, arith,
  length, get_or,
}
use native.Mathlib.Nat.{mul-le-mul_left}
use mini_middleware.Bench.Stats.{sort, nearest_rank_percentile, compute_latency_stats}
use mini_middleware.Bench.Stats.Sorted.{
  at_most, below, at_most-sort, below-sort, length-sort, sort-IsSorted, at_most-nth, below-nth,
}

-- `v` is the percentile of nearest rank: at least `percentile` in a hundred of the samples are at most
-- `v`, and fewer are below it.
pub record IsPercentile (percentile v : ℕ) (samples : List ℕ) : Type 0 where
  pub enough : length samples * percentile ≤ at_most v samples * 100
  pub least : below v samples * 100 < length samples * percentile

rank_in_range :
    (n percentile : ℕ)
    → 1 ≤ n
    → 1 ≤ percentile
    → percentile ≤ 100
    → n * 100 + 99 < 2 ^ 64
    → (1 ≤ n * percentile)
      × (n * percentile ≤ n * 100)
      × ((n * percentile % 2 ^ 64 + 99) % 2 ^ 64 / 100 ≡ (n * percentile + 99) / 100)
rank_in_range n percentile some_ low high fits =
    let most : n * percentile ≤ n * 100 = mul-le-mul_left n high in
    let least : n * 1 ≤ n * percentile = mul-le-mul_left n low in
    (omega (arith, least, some_), most, omega (arith, most, fits))

nearest_rank_percentile-IsPercentile :
    (percentile : ℕ) (samples : List ℕ)
    → 1 ≤ length samples
    → 1 ≤ percentile
    → percentile ≤ 100
    → length samples * 100 + 99 < 2 ^ 64
    → IsPercentile percentile (nearest_rank_percentile (sort samples) percentile) samples
unfolding nearest_rank_percentile
nearest_rank_percentile-IsPercentile percentile samples some_ low high fits =
    let n = length samples in
    let sorted = sort samples in
    let (positive, most, exact) = rank_in_range n percentile some_ low high fits in
    let place : ℕ = (n * percentile + 99) / 100 - 1 in
    let inside : place < length sorted = omega (arith, length-sort samples, most, some_) in
    let v = get_or sorted place 0 in
    let same : nearest_rank_percentile sorted percentile ≡ v =
      ap (λ l. get_or sorted ((l * percentile % 2 ^ 64 + 99) % 2 ^ 64 / 100 - 1) 0)
        (length-sort samples)
      ∙ ap (λ r. get_or sorted (r - 1) 0) exact in
    let upper = at_most-nth sorted place (sort-IsSorted samples) inside in
    let lower = below-nth sorted place (sort-IsSorted samples) inside in
    subst (λ w. IsPercentile percentile w samples) (sym same)
      (record {
        enough = omega (arith, upper, at_most-sort v samples, positive);
        least = omega (arith, lower, below-sort v samples, positive);
      })

-- Of one sample or more (no more than `count * 100 + 99` fits in 64 bits for), the three percentiles
-- reported are the 50th, the 95th and the 99th of nearest rank, and the count is the samples'.
pub percentiles_are_nearest_rank :
    (samples : List ℕ)
    → 1 ≤ length samples
    → length samples * 100 + 99 < 2 ^ 64
    → let stats = compute_latency_stats samples in
      (stats.count ≡ length samples)
      × IsPercentile 50 stats.p50_us samples
      × IsPercentile 95 stats.p95_us samples
      × IsPercentile 99 stats.p99_us samples
unfolding compute_latency_stats
percentiles_are_nearest_rank [] some_ fits = ground (arith, some_)
percentiles_are_nearest_rank (x ∷ xs) some_ fits = (
  refl,
  rank 50 (omega arith) (omega arith),
  rank 95 (omega arith) (omega arith),
  rank 99 (omega arith) (omega arith),
)
  where
    rank :
        (p : ℕ)
        → 1 ≤ p
        → p ≤ 100
        → IsPercentile p (nearest_rank_percentile (sort (x ∷ xs)) p) (x ∷ xs)
    rank p low high = nearest_rank_percentile-IsPercentile p (x ∷ xs) some_ low high fits
