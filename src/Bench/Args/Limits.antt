-- ===== src/Bench/Args/Limits.antt =====
-- bench_args.cpp: what every result of `parse_bench_args` satisfies.
use mini_middleware.Prelude.{
  inl, inr, ◌⊎◌, ℕ, ◌^◌, ◌≤◌, ◌<◌, ◌≡◌, refl, sym, subst, List, [], ◌∷◌, Bool, true, false, Option,
  none, some, Bytes, ltb, ◌==◌, arith, Bool-cases, either_branch, strto, length,
}
use mini_middleware.Transport.FrameCodec.{max_payload_size}
use mini_middleware.Bench.Codec.{
  effective_benchmark_payload_bytes, max_benchmark_run_id_bytes, make_benchmark_payload,
}
use mini_middleware.Bench.Codec.Sizes.{effective_size_is_exact}
use mini_middleware.Bench.Args.{
  BenchMode, shm, tcp, BenchOptions, ParseResult, max_benchmark_count, shm_slot_capacity,
  default_options, error_result, as_size, parse_positive_size, Parsed, proceed, stop, set_count,
  set_payload_bytes, apply_option, other_argument, and_then, parse_options, check_sizes,
  with_effective_size, parse_bench_args, finish, fail,
}

-- The message sizes that the mode allows.
abbrev pub Fits : (ℕ → ℕ) → (Bytes → ℕ → ℕ) → BenchOptions → BenchMode → Type 0
Fits size frame_size o shm =
    (o.payload_bytes ≤ shm_slot_capacity) × (size o.payload_bytes ≤ shm_slot_capacity)
Fits size frame_size o tcp =
    (o.payload_bytes ≤ max_payload_size) × (frame_size o.topic o.payload_bytes ≤ max_payload_size)

pub record IsRunnable (size : ℕ → ℕ) (frame_size : Bytes → ℕ → ℕ) (o : BenchOptions) : Type 0 where
  pub some_ : 1 ≤ o.count
  pub bounded : o.count ≤ max_benchmark_count
  pub requested : 1 ≤ o.requested_payload_bytes
  pub effective :
      o.payload_bytes ≡ effective_benchmark_payload_bytes o.requested_payload_bytes o.count
  pub fits : Fits size frame_size o o.mode

-- Options to run with, the usage, or an error, by what the flags and the exit code say.
abbrev pub IsOutcome : (ℕ → ℕ) → (Bytes → ℕ → ℕ) → ParseResult → Type 0
IsOutcome size frame_size r =
    ((r.ok ≡ true) × (r.help ≡ false) × (r.exit_code ≡ 0) × IsRunnable size frame_size r.options)
    ⊎ ((r.ok ≡ true) × (r.help ≡ true) × (r.exit_code ≡ 0))
    ⊎ ((r.ok ≡ false) × (r.help ≡ false) × (r.exit_code ≡ 2))

-- What the options satisfy before the sizes are tested.
record IsCounted (o : BenchOptions) : Type 0 where
  some_ : 1 ≤ o.count
  bounded : o.count ≤ max_benchmark_count
  sized : 1 ≤ o.payload_bytes

record IsEnd (r : ParseResult) : Type 0 where
  flags :
      ((r.ok ≡ true) × (r.help ≡ true) × (r.exit_code ≡ 0))
      ⊎ ((r.ok ≡ false) × (r.help ≡ false) × (r.exit_code ≡ 2))

failed : (r : ParseResult) → r.ok ≡ false → r.help ≡ false → r.exit_code ≡ 2 → IsEnd r
failed r ok help exit = record { flags = inr (ok, help, exit) }

data Outcome : Parsed → Type 0 where
  goes_on : {o : BenchOptions} → IsCounted o → Outcome (proceed o)
  ends : {r : ParseResult} → IsEnd r → Outcome (stop r)

error-Outcome : (m : Bytes) → Outcome (fail m)
error-Outcome m = ends (failed (error_result m) refl refl refl)

as_size-positive : (t : Option (Bool × ℕ × Bytes)) (n : ℕ) → as_size t ≡ some n → 1 ≤ n
unfolding as_size
as_size-positive none n e = cc
as_size-positive (some (minus, size, c ∷ rest)) n e = cc
as_size-positive (some (true, size, [])) n e = ground (arith, e)
as_size-positive (some (false, size, [])) n e = ground (arith, e)

parse_positive_size-positive : (text : Bytes) (n : ℕ) → parse_positive_size text ≡ some n → 1 ≤ n
unfolding parse_positive_size
parse_positive_size-positive [] n e = cc
parse_positive_size-positive (c ∷ text) n e = elim (Bool-cases (c == b'-')) [
  | inl minus ↦ let no_size = rw minus at e in cc
  | inr other ↦ as_size-positive (strto (c ∷ text)) n (rw other at e)
]

default-IsCounted : IsCounted default_options
default-IsCounted = record { some_ = omega arith; bounded = omega arith; sized = omega arith }

set_count-Outcome :
    (o : BenchOptions) (n : Option ℕ)
    → ((m : ℕ) → n ≡ some m → 1 ≤ m)
    → IsCounted o
    → Outcome (set_count o n)
unfolding set_count
set_count-Outcome o none positive v = ends (failed _ refl refl refl)
set_count-Outcome o (some n) positive v = elim (Bool-cases (ltb max_benchmark_count n)) [
  | inl over ↦ rw over (ends (failed _ refl refl refl))
  | inr within ↦ rw within (
      goes_on
        (record { some_ = positive n refl; bounded = ground (arith, within); sized = v.sized }))
]

set_payload_bytes-Outcome :
    (o : BenchOptions) (n : Option ℕ)
    → ((m : ℕ) → n ≡ some m → 1 ≤ m)
    → IsCounted o
    → Outcome (set_payload_bytes o n)
unfolding set_payload_bytes
set_payload_bytes-Outcome o none positive v = ends (failed _ refl refl refl)
set_payload_bytes-Outcome o (some n) positive v =
    goes_on (record { some_ = v.some_; bounded = v.bounded; sized = positive n refl })

apply_option-Outcome :
    (o : BenchOptions) (arg value : Bytes) → IsCounted o → Outcome (apply_option o arg value)
unfolding apply_option
apply_option-Outcome o arg value v =
    either_branch Outcome _
      (either_branch Outcome _ (goes_on shm_kept)
        (either_branch Outcome _ (goes_on tcp_kept) (ends (failed _ refl refl refl))))
      (either_branch Outcome _
        (set_count-Outcome o (parse_positive_size value) (parse_positive_size-positive value) v)
        (either_branch Outcome _
          (set_payload_bytes-Outcome o (parse_positive_size value)
            (parse_positive_size-positive value) v)
          (goes_on topic_kept)))
  where
    shm_kept : IsCounted (record o { mode = shm })
    shm_kept = record { some_ = v.some_; bounded = v.bounded; sized = v.sized }

    tcp_kept : IsCounted (record o { mode = tcp })
    tcp_kept = record { some_ = v.some_; bounded = v.bounded; sized = v.sized }

    topic_kept : IsCounted (record o { topic = value })
    topic_kept = record { some_ = v.some_; bounded = v.bounded; sized = v.sized }

other_argument-IsEnd : (arg : Bytes) → IsEnd (other_argument arg)
other_argument-IsEnd arg =
    either_branch IsEnd _ (record { flags = inl (refl, refl, refl) })
      (either_branch IsEnd _ (failed _ refl refl refl) (failed _ refl refl refl))

parse_options-Outcome :
    (args : List Bytes) (o : BenchOptions) → IsCounted o → Outcome (parse_options args o)
unfolding parse_options
parse_options-Outcome [] o v = goes_on v
parse_options-Outcome (arg ∷ []) o v =
    either_branch Outcome _ (ends (failed _ refl refl refl)) (ends (other_argument-IsEnd arg))
parse_options-Outcome (arg ∷ value ∷ rest) o v =
    either_branch Outcome _
      (either_branch Outcome _ (ends (failed _ refl refl refl)) (
        go (apply_option o arg value) (apply_option-Outcome o arg value v)
          (λ p. parse_options-Outcome rest p)))
      (ends (other_argument-IsEnd arg))
  where
    go :
        (p : Parsed)
        → Outcome p
        → ((q : BenchOptions) → IsCounted q → Outcome (parse_options rest q))
        → Outcome (and_then p (λ q. parse_options rest q))
    go (stop r) (ends e) next = ends e
    go (proceed q) (goes_on e) next = next q e

module _ (size : ℕ → ℕ) (frame_size : Bytes → ℕ → ℕ) where
  runnable :
      (o : BenchOptions)
      → IsCounted o
      → Fits size frame_size (with_effective_size size frame_size o) o.mode
      → IsRunnable size frame_size (with_effective_size size frame_size o)
  runnable o v fits = record {
    some_ = v.some_;
    bounded = v.bounded;
    requested = v.sized;
    effective = refl;
    fits = fits;
  }

  IsEnd-IsOutcome : (r : ParseResult) → IsEnd r → IsOutcome size frame_size r
  IsEnd-IsOutcome r e = inr e.flags

  check_sizes-IsOutcome :
      (o : BenchOptions) (mode : BenchMode)
      → (Fits size frame_size o mode → IsRunnable size frame_size o)
      → IsOutcome size frame_size (check_sizes size frame_size o mode)
  unfolding check_sizes
  check_sizes-IsOutcome o shm run = elim (Bool-cases (ltb shm_slot_capacity o.payload_bytes)) [
    | inl over ↦ rw over (inr (inr (refl, refl, refl)))
    | inr within ↦ rw within (elim (Bool-cases (ltb shm_slot_capacity (size o.payload_bytes))) [
      | inl over ↦ rw over (inr (inr (refl, refl, refl)))
      | inr fits ↦
          rw fits (inl (refl, refl, refl, run (ground (arith, within), ground (arith, fits))))
    ])
  ]
  check_sizes-IsOutcome o tcp run = elim (Bool-cases (ltb max_payload_size o.payload_bytes)) [
    | inl over ↦ rw over (inr (inr (refl, refl, refl)))
    | inr within ↦
        rw within (elim (Bool-cases (ltb max_payload_size (frame_size o.topic o.payload_bytes))) [
          | inl over ↦ rw over (inr (inr (refl, refl, refl)))
          | inr fits ↦
              rw fits (inl (refl, refl, refl, run (ground (arith, within), ground (arith, fits))))
        ])
  ]

  finish-IsOutcome : (p : Parsed) → Outcome p → IsOutcome size frame_size (finish size frame_size p)
  unfolding finish
  finish-IsOutcome (stop r) (ends e) = inr e.flags
  finish-IsOutcome (proceed o) (goes_on v) =
      check_sizes-IsOutcome (with_effective_size size frame_size o) o.mode (runnable o v)

  -- Whatever the arguments, the result is one of three: options to run with and exit code 0, which ask
  -- for 1 to 100000 messages of a size that is the effective one for the size requested and that the
  -- mode's limit allows, serialized too; the usage and exit code 0; or an error and exit code 2.
  pub parse_bench_args-IsOutcome :
      (args : List Bytes) → IsOutcome size frame_size (parse_bench_args size frame_size args)
  unfolding parse_bench_args
  parse_bench_args-IsOutcome args =
      finish-IsOutcome (parse_options args default_options)
        (parse_options-Outcome args default_options default-IsCounted)

  run_message-Fits :
      (o : BenchOptions) (run_id : Bytes) (sequence send_ns : ℕ)
      → IsRunnable size frame_size o
      → length run_id ≤ max_benchmark_run_id_bytes
      → sequence < o.count
      → send_ns < 2 ^ 64
      → let payload = make_benchmark_payload run_id sequence send_ns o.payload_bytes in
        (length payload ≡ o.payload_bytes)
        × Fits size frame_size (record o { payload_bytes = length payload }) o.mode
  run_message-Fits o run_id sequence send_ns run short lt early =
      let same : length (make_benchmark_payload run_id sequence send_ns o.payload_bytes)
          ≡ o.payload_bytes =
        subst (λ n. length (make_benchmark_payload run_id sequence send_ns n) ≡ n)
          (sym run.effective)
          (effective_size_is_exact run_id sequence send_ns o.requested_payload_bytes o.count short
            lt early).0 in
      (
        same,
        subst (λ n. Fits size frame_size (record o { payload_bytes = n }) o.mode) (sym same)
            run.fits,
      )

  -- When the arguments ask for a run, every message of it fits: with a run id of at most 62 bytes, a
  -- number below the count and a time of 64 bits, the payload has the size that the result gives, and
  -- in shared memory its serialized message fits a slot, over TCP its frame is within the limit.
  pub accepted_messages_fit :
      (args : List Bytes) (run_id : Bytes) (sequence send_ns : ℕ)
      → let r = parse_bench_args size frame_size args in
        r.ok ≡ true
        → r.help ≡ false
        → length run_id ≤ max_benchmark_run_id_bytes
        → sequence < r.options.count
        → send_ns < 2 ^ 64
        → let payload = make_benchmark_payload run_id sequence send_ns r.options.payload_bytes in
          (length payload ≡ r.options.payload_bytes)
          × Fits size frame_size
              (record (r.options) { payload_bytes = length payload })
              r.options.mode
  accepted_messages_fit args run_id sequence send_ns ok help short lt early =
      elim (parse_bench_args-IsOutcome args) [
        | inr (inl (_, h, _)) ↦ cc
        | inr (inr (refused, _, _)) ↦ cc
        | inl (_, _, _, run) ↦
            run_message-Fits (parse_bench_args size frame_size args).options run_id sequence send_ns
              run short lt early
      ]
