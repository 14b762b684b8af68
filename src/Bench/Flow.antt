-- ===== src/Bench/Flow.antt =====
-- bench/src/main.cpp and flow_control_target of message_codec.h: a run of the benchmark, as steps of
-- the publishing loop and of the subscriber's callback. The middleware between them, and the clock,
-- choose which step comes next and when it happens.
pub mod Window
use mini_middleware.Prelude.{
  ℕ, ◌+◌, ◌-◌, ◌^◌, ◌<◌, ◌≡◌, ◌⊎◌, List, [], ◌∷◌, Has, Bool, true, false, ◌&&◌, ◌||◌, not, Option,
  none, some, Bytes, bytes_eq, ltb, leb, ◌==◌, if◌then◌else◌, length,
}
use mini_middleware.Bench.Codec.{
  BenchmarkMessageMetadata, make_benchmark_payload, parse_benchmark_payload,
}
use mini_middleware.Bench.Collector.Marks.{is_foreign}
use mini_middleware.Bench.Collector.{Collector, new_collector, record_sample, samples}

abbrev pub benchmark_in_flight_window : ℕ
benchmark_in_flight_window = 16

unfoldable pub flow_control_target : ℕ → ℕ
flow_control_target published_count =
    if ltb benchmark_in_flight_window published_count
    then published_count - benchmark_in_flight_window
    else 0

-- The locals of `main` and the callback's state. `published` is the loop's index, `sent` what it
-- published.
pub record Run : Type 0 where
  pub count : ℕ
  pub run_id : Bytes
  pub payload_bytes : ℕ
  pub published : ℕ
  pub sent : List Bytes
  pub publish_failed : Bool
  pub accepting : Bool
  pub collector : Collector

unfoldable pub begin : Bytes → ℕ → ℕ → Run
begin run_id count payload_bytes = record {
  count = count;
  run_id = run_id;
  payload_bytes = payload_bytes;
  published = 0;
  sent = [];
  publish_failed = false;
  accepting = true;
  collector = new_collector run_id count;
}

-- The loop goes on, and the wait of the iteration before has ended.
unfoldable pub may_publish : Run → Bool
may_publish s =
    s.accepting
    && not s.publish_failed
    && ltb s.published s.count
    && leb (flow_control_target s.published) s.collector.received_count

unfoldable pub publish_next : Run → ℕ → Run
publish_next s send_ns = record s {
  sent = make_benchmark_payload s.run_id s.published send_ns s.payload_bytes ∷ s.sent;
  published = s.published + 1;
}

-- The subscriber's callback.
unfoldable pub on_message : Run → Bytes → ℕ → Run
on_message s payload now_ns =
    if s.accepting then record s { collector = (record_sample s.collector payload now_ns).1 } else s

-- The deadline, a refused `publish` and the end of a wait without enough messages all give up. A
-- message can come late, more than once or not at all, and other runs can share the topic.
pub data Step (s : Run) : Run → Type 0 where
  publish :
      (send_ns : ℕ) → send_ns < 2 ^ 64 → may_publish s ≡ true → Step s (publish_next s send_ns)
  give_up : Step s (record s { publish_failed = true })
  receive :
      (payload : Bytes) (now_ns : ℕ)
      → Has payload s.sent ⊎ (is_foreign s.run_id (parse_benchmark_payload payload) ≡ true)
      → Step s (on_message s payload now_ns)
  finish : Step s (record s { accepting = false })

pub data Reach (s : Run) : Run → Type 0 where
  here : Reach s s
  later : {t u : Run} → Reach s t → Step t u → Reach s u

unfoldable pub exit_code : Run → ℕ
exit_code s = if s.publish_failed || not (length (samples s.collector) == s.count) then 1 else 0
