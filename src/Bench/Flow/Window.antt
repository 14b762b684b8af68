-- ===== src/Bench/Flow/Window.antt =====
-- main.cpp: what flow control and the collector guarantee of a run.
use mini_middleware.Prelude.{
  inl, inr, ◌⊎◌, ℕ, zero, suc, ◌+◌, ◌^◌, ◌≤◌, ◌<◌, ◌≡◌, ◌≢◌, refl, sym, subst, ◌∙◌, [], Has, Bool,
  true, false, Option, none, some, Bytes, if◌then◌else◌, length, get_or, replicate, lacks, All,
  All-map, All-member, arith, Bool-cases,
}
use mini_middleware.Bench.Codec.{BenchmarkMessageMetadata, parse_benchmark_payload}
use mini_middleware.Bench.Codec.RoundTrip.{parse-make}
use mini_middleware.Bench.Collector.{new_collector, samples, seen_samples}
use mini_middleware.Bench.Collector.Counts.{
  IsCounted, record_sample-IsCounted, new_collector-IsCounted,
}
use mini_middleware.Bench.Collector.First.{sample_of}
use mini_middleware.Bench.Collector.Marks.{
  IsOwn, is_foreign, MarksBelow, record_sample-Goes, seen_samples-below, seen_samples-full,
}
use mini_middleware.Bench.Flow.{
  Run, begin, may_publish, publish_next, on_message, flow_control_target, Step, publish, give_up,
  receive, finish, Reach, here, later, exit_code,
}

record Inv (s : Run) : Type 0 where
  counted : IsCounted s.count s.collector
  own : s.collector.run_id ≡ s.run_id
  below : MarksBelow s.published s.collector.seen
  sent_own : All (λ p. IsOwn s.run_id s.published (parse_benchmark_payload p)) s.sent
  window : s.published ≤ s.collector.received_count + 17
  bounded : s.published ≤ s.count
  nonempty : s.run_id ≢ []
  plain : lacks b'|' s.run_id ≡ true
  few : s.count < 2 ^ 64

marks_new : (n j : ℕ) → get_or (replicate n false) j false ≡ false
marks_new zero j = refl
marks_new (suc n) zero = refl
marks_new (suc n) (suc j) = marks_new n j

begin-Inv :
    (run_id : Bytes) (count payload_bytes : ℕ)
    → run_id ≢ []
    → lacks b'|' run_id ≡ true
    → count < 2 ^ 64
    → Inv (begin run_id count payload_bytes)
unfolding begin new_collector
begin-Inv run_id count payload_bytes nonempty plain few = record {
  counted = new_collector-IsCounted run_id count;
  own = refl;
  below = λ j _. marks_new count j;
  sent_own = tt;
  window = omega arith;
  bounded = omega arith;
  nonempty = nonempty;
  plain = plain;
  few = few;
}

IsOwn-suc :
    (run_id : Bytes) (published : ℕ) (m : Option BenchmarkMessageMetadata)
    → IsOwn run_id published m
    → IsOwn run_id (published + 1) m
IsOwn-suc run_id published none h = h
IsOwn-suc run_id published (some m) (e, lt) = (e, omega (arith, lt))

publish-Inv :
    (s : Run) (send_ns : ℕ)
    → send_ns < 2 ^ 64
    → may_publish s ≡ true
    → Inv s
    → Inv (publish_next s send_ns)
unfolding publish_next may_publish flow_control_target
publish-Inv s send_ns early may v =
    let inside : s.published < s.count = ground (arith, may) in
    let ahead : s.published ≤ s.collector.received_count + 16 = ground (arith, may) in
    record {
      counted = v.counted;
      own = v.own;
      below = λ j ge. v.below j (omega (arith, ge));
      sent_own = (
        subst (IsOwn s.run_id (s.published + 1))
            (sym (
              parse-make s.run_id s.published send_ns s.payload_bytes v.nonempty v.plain
                (omega (arith, inside, v.few)) early))
            (refl, omega arith),
        All-map _ _ s.sent (λ p h. IsOwn-suc s.run_id s.published (parse_benchmark_payload p) h)
            v.sent_own,
      );
      window = omega (arith, ahead);
      bounded = omega (arith, inside);
      nonempty = v.nonempty;
      plain = v.plain;
      few = v.few;
    }

receive-Inv :
    (s : Run) (payload : Bytes) (now_ns : ℕ)
    → Has payload s.sent ⊎ (is_foreign s.run_id (parse_benchmark_payload payload) ≡ true)
    → Inv s
    → Inv (on_message s payload now_ns)
unfolding on_message
receive-Inv s payload now_ns from v = elim (Bool-cases s.accepting) [
  | inr closed ↦ simp closed v
  | inl ready ↦
      let m = parse_benchmark_payload payload in
      let known : IsOwn s.collector.run_id s.published m
          ⊎ (is_foreign s.collector.run_id m ≡ true) =
        subst (λ r. IsOwn r s.published m ⊎ (is_foreign r m ≡ true)) (sym v.own)
          (elim from [
            | inl sent ↦ inl (
                All-member (λ p. IsOwn s.run_id s.published (parse_benchmark_payload p)) s.sent
                  payload v.sent_own sent)
            | inr foreign ↦ inr foreign
          ]) in
      let goes = record_sample-Goes s.published s.collector payload now_ns known in
      simp ready (record {
        counted = record_sample-IsCounted s.count s.collector payload now_ns v.counted;
        own = goes.same_run ∙ v.own;
        below = goes.keeps v.below;
        sent_own = v.sent_own;
        window = omega (arith, v.window, goes.grows);
        bounded = v.bounded;
        nonempty = v.nonempty;
        plain = v.plain;
        few = v.few;
      })
]

Step-Inv : {s t : Run} → Step s t → Inv s → Inv t
Step-Inv {s} (publish send_ns early may) v = publish-Inv s send_ns early may v
Step-Inv {s} (receive payload now_ns from) v = receive-Inv s payload now_ns from v
Step-Inv give_up v = record {
  counted = v.counted;
  own = v.own;
  below = v.below;
  sent_own = v.sent_own;
  window = v.window;
  bounded = v.bounded;
  nonempty = v.nonempty;
  plain = v.plain;
  few = v.few;
}
Step-Inv finish v = record {
  counted = v.counted;
  own = v.own;
  below = v.below;
  sent_own = v.sent_own;
  window = v.window;
  bounded = v.bounded;
  nonempty = v.nonempty;
  plain = v.plain;
  few = v.few;
}

Reach-Inv : {s t : Run} → Inv s → Reach s t → Inv t
Reach-Inv v here = v
Reach-Inv v (later r step) = Step-Inv step (Reach-Inv v r)

-- In every state that a run can reach, for a nonempty run id without '|' and fewer than 2 ^ 64 messages:
-- no more messages are counted as received than were published, at most 17 published ones are not yet
-- received, and no more are published than asked for.
pub flow_is_bounded :
    (run_id : Bytes) (count payload_bytes : ℕ) {s : Run}
    → run_id ≢ []
    → lacks b'|' run_id ≡ true
    → count < 2 ^ 64
    → Reach (begin run_id count payload_bytes) s
    → (s.collector.received_count ≤ s.published)
      × (s.published ≤ s.collector.received_count + 17)
      × (s.published ≤ s.count)
unfolding samples
flow_is_bounded run_id count payload_bytes {s} nonempty plain few reach =
    let v = Reach-Inv (begin-Inv run_id count payload_bytes nonempty plain few) reach in
    let c = s.collector in
    (
      omega (
        arith,
        v.counted.counted,
        seen_samples-below s.published c.seen c.samples_by_sequence v.below,
      ),
      v.window,
      v.bounded,
    )

shown : (b : Bool) (x : ℕ) → b ≡ true → (if b then some x else none) ≢ none
shown true x e h = cc
shown false x e h = cc

-- A run that can end with exit code 0 has published all its messages and holds a sample for each of
-- their numbers.
pub success_has_all_samples :
    (run_id : Bytes) (count payload_bytes : ℕ) {s : Run}
    → run_id ≢ []
    → lacks b'|' run_id ≡ true
    → count < 2 ^ 64
    → Reach (begin run_id count payload_bytes) s
    → exit_code s ≡ 0
    → (s.published ≡ s.count) × ((i : ℕ) → i < s.count → sample_of s.collector i ≢ none)
unfolding exit_code samples
success_has_all_samples run_id count payload_bytes {s} nonempty plain few reach ok =
    let v = Reach-Inv (begin-Inv run_id count payload_bytes nonempty plain few) reach in
    let c = s.collector in
    let all : length (seen_samples c.seen c.samples_by_sequence) ≡ s.count = ground (arith, ok) in
    let marked = λ (i : ℕ) (lt : i < s.count).
      seen_samples-full c.seen c.samples_by_sequence i (omega (arith, all, v.counted.marks))
        (omega (arith, lt, v.counted.marks)) in
    (
      omega (
        arith,
        all,
        v.bounded,
        seen_samples-below s.published c.seen c.samples_by_sequence v.below,
      ),
      λ i lt. shown (get_or c.seen i false) (get_or c.samples_by_sequence i 0) (marked i lt),
    )
