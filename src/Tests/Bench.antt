-- ===== src/Tests/Bench.antt =====
-- bench/ on a run of two messages.
use mini_middleware.Prelude.{
  ℕ, ◌+◌, ◌≤◌, ◌≡◌, ◌≢◌, refl, List, [], ◌∷◌, Has, inl, true, false, some, Bytes, codes, length,
  arith, bytes_eq, strto, skip_spaces, read_sign, read_digits, to_string, split_at, from_chars,
}
use mini_middleware.Bench.Codec.{
  parse_unsigned, make_benchmark_payload, parse_benchmark_payload,
  effective_benchmark_payload_bytes, minimum_benchmark_payload_bytes,
}
use mini_middleware.Bench.Codec.RoundTrip.{parse-make}
use mini_middleware.Bench.Collector.{new_collector, record_sample, samples}
use mini_middleware.Bench.Stats.{compute_latency_stats}
use mini_middleware.Bench.Stats.Percentile.{IsPercentile, percentiles_are_nearest_rank}
use mini_middleware.Bench.Args.{
  parse_bench_args, parse_options, apply_option, set_count, parse_positive_size, as_size,
  check_sizes,
}
use mini_middleware.Bench.Args.Limits.{Fits, accepted_messages_fit}
use mini_middleware.Bench.Flow.{
  Run, begin, publish_next, on_message, may_publish, publish, receive, Reach, here, later,
  flow_control_target, exit_code,
}
use mini_middleware.Bench.Flow.Window.{flow_is_bounded}

abbrev run_id : Bytes
run_id = codes "7-1-2"

run_id-is_nonempty : run_id ≢ []
run_id-is_nonempty h = cc

parse-make_example :
    parse_benchmark_payload (make_benchmark_payload run_id 3 900 40)
    ≡ some (record { run_id = run_id; sequence = 3; send_ns = 900 })
parse-make_example = parse-make run_id 3 900 40 run_id-is_nonempty refl (omega arith) (omega arith)

-- The first message arrives twice, and one of another run between.
abbrev messages : List (Bytes × ℕ)
messages =
    (make_benchmark_payload run_id 1 2000 0, 9000)
    ∷ (make_benchmark_payload (codes "8-1-2") 0 2000 0, 9500)
    ∷ (make_benchmark_payload run_id 1 2000 0, 99000)
    ∷ []

abbrev latencies : List ℕ
latencies = 30 ∷ 10 ∷ 20 ∷ []

percentiles_are_nearest_rank_example :
    let stats = compute_latency_stats latencies in
    (stats.count ≡ length latencies)
    × IsPercentile 50 stats.p50_us latencies
    × IsPercentile 95 stats.p95_us latencies
    × IsPercentile 99 stats.p99_us latencies
percentiles_are_nearest_rank_example =
    percentiles_are_nearest_rank latencies (omega arith) (omega arith)

-- Serialized, a string takes 5 bytes more, and the frame its topic and 10 more.
abbrev string_size : ℕ → ℕ
string_size n = n + 5

abbrev frame_size : Bytes → ℕ → ℕ
frame_size topic n = length topic + n + 10

abbrev two_messages : List Bytes
two_messages = codes "--count" ∷ codes "2" ∷ []

two_messages-result :
    let r = parse_bench_args string_size frame_size two_messages in
    (r.ok ≡ true) × (r.help ≡ false) × (r.options.count ≡ 2)
unfolding parse_bench_args parse_options apply_option set_count parse_positive_size as_size strto
    skip_spaces read_sign read_digits check_sizes effective_benchmark_payload_bytes
    minimum_benchmark_payload_bytes make_benchmark_payload to_string bytes_eq
two_messages-result = (refl, refl, refl)

accepted_messages_fit_example :
    let r = parse_bench_args string_size frame_size two_messages in
    let payload = make_benchmark_payload run_id 1 900 r.options.payload_bytes in
    (length payload ≡ r.options.payload_bytes)
    × Fits string_size frame_size
        (record (r.options) { payload_bytes = length payload })
        r.options.mode
accepted_messages_fit_example =
    accepted_messages_fit string_size frame_size two_messages run_id 1 900 two_messages-result.0
      two_messages-result.1 (omega arith) (omega (arith, two_messages-result.2)) (omega arith)

-- One message is published, received, and the run ends.
abbrev one_published : Run
one_published = publish_next (begin run_id 1 0) 2000

abbrev one_payload : Bytes
one_payload = make_benchmark_payload run_id 0 2000 0

abbrev one_received : Run
one_received = on_message one_published one_payload 9000

begin-may_publish : may_publish (begin run_id 1 0) ≡ true
unfolding may_publish begin flow_control_target new_collector
begin-may_publish = refl

one_published-Has_payload : Has one_payload one_published.sent
unfolding publish_next begin
one_published-Has_payload = inl refl

one_received-Reach : Reach (begin run_id 1 0) one_received
one_received-Reach =
    later (later here (publish 2000 (omega arith) begin-may_publish))
      (receive one_payload 9000 (inl one_published-Has_payload))

flow_is_bounded_example :
    (one_received.collector.received_count ≤ one_received.published)
    × (one_received.published ≤ one_received.collector.received_count + 17)
    × (one_received.published ≤ one_received.count)
flow_is_bounded_example =
    flow_is_bounded run_id 1 0 run_id-is_nonempty refl (omega arith) one_received-Reach

one_received-ends_well : exit_code one_received ≡ 0
unfolding exit_code on_message publish_next begin record_sample samples parse_benchmark_payload
    make_benchmark_payload split_at to_string new_collector parse_unsigned from_chars read_digits
    bytes_eq
one_received-ends_well = refl
