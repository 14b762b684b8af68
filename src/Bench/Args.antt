-- ===== src/Bench/Args.antt =====
-- bench/include/bench/bench_args.h and bench/src/bench_args.cpp: the arguments of `mm_bench`. The sizes
-- of serialized messages come from protobuf, and are parameters. A std::size_t has 64 bits.
pub mod Limits
use mini_middleware.Prelude.{
  ℕ, ◌+◌, ◌-◌, ◌^◌, List, [], ◌∷◌, ◌++◌, Bool, true, false, ◌&&◌, ◌||◌, Option, none, some, Bytes,
  bytes_eq, codes, to_string, ltb, ◌==◌, if◌then◌else◌, String, strto,
}
use mini_middleware.Transport.FrameCodec.{max_payload_size}
use mini_middleware.Bench.Codec.{effective_benchmark_payload_bytes}

pub data BenchMode : Type 0 where
  shm : BenchMode
  tcp : BenchMode

pub record BenchOptions : Type 0 where
  pub mode : BenchMode
  pub count : ℕ
  pub requested_payload_bytes : ℕ
  pub payload_bytes : ℕ
  pub topic : Bytes

pub record ParseResult : Type 0 where
  pub ok : Bool
  pub help : Bool
  pub exit_code : ℕ
  pub message : Bytes
  pub options : BenchOptions

abbrev pub max_benchmark_count : ℕ
max_benchmark_count = 100000

-- core/include/core/shm_limits.h
abbrev pub shm_slot_capacity : ℕ
shm_slot_capacity = 262144

abbrev pub default_options : BenchOptions
default_options = record {
  mode = shm;
  count = 10000;
  requested_payload_bytes = 256;
  payload_bytes = 256;
  topic = codes "/bench";
}

abbrev is_text : Bytes → String → Bool
is_text text s = bytes_eq text (codes s)

abbrev is_option_token : Bytes → Bool
is_option_token [] = false
is_option_token (a ∷ []) = false
is_option_token (a ∷ b ∷ text) = a == b'-' && b == b'-'

unfoldable pub bench_usage : Bytes
bench_usage =
    codes "Usage:\n"
    ++ codes "  mm_bench [--mode shm|tcp] [--count N] [--payload-bytes N] [--topic NAME]\n"
    ++ codes "  mm_bench --help\n"
    ++ codes "\n"
    ++ codes "--count N must be between 1 and "
    ++ to_string max_benchmark_count
    ++ codes ".\n"

abbrev pub help_result : ParseResult
help_result = record {
  ok = true;
  help = true;
  exit_code = 0;
  message = bench_usage;
  options = default_options;
}

abbrev pub error_result : Bytes → ParseResult
error_result message = record {
  ok = false;
  help = false;
  exit_code = 2;
  message = message ++ codes "\n\n" ++ bench_usage;
  options = default_options;
}

-- What strtoull gives of its sign and number: the number modulo 2 ^ 64, if it is in range.
unfoldable pub as_size : Option (Bool × ℕ × Bytes) → Option ℕ
as_size none = none
as_size (some (minus, size, c ∷ rest)) = none
as_size (some (true, size, [])) =
    if size == 0 || ltb (2 ^ 64 - 1) size then none else some (2 ^ 64 - size)
as_size (some (false, size, [])) = if size == 0 || ltb (2 ^ 64 - 1) size then none else some size

unfoldable pub parse_positive_size : Bytes → Option ℕ
parse_positive_size [] = none
parse_positive_size (c ∷ text) = if c == b'-' then none else as_size (strto (c ∷ text))

-- The options so far, or the result to return.
pub data Parsed : Type 0 where
  proceed : BenchOptions → Parsed
  stop : ParseResult → Parsed

abbrev fail : Bytes → Parsed
fail message = stop (error_result message)

unfoldable pub set_count : BenchOptions → Option ℕ → Parsed
set_count options none = fail (codes "--count must be positive")
set_count options (some n) =
    if ltb max_benchmark_count n
    then fail (
        codes "--count must not exceed "
        ++ to_string max_benchmark_count
        ++ codes " for this demo benchmark")
    else proceed (record options { count = n })

unfoldable pub set_payload_bytes : BenchOptions → Option ℕ → Parsed
set_payload_bytes options none = fail (codes "--payload-bytes must be a positive integer")
set_payload_bytes options (some n) = proceed (record options { payload_bytes = n })

abbrev takes_value : Bytes → Bool
takes_value arg =
    is_text arg "--mode"
    || is_text arg "--count"
    || is_text arg "--payload-bytes"
    || is_text arg "--topic"

-- One option with its value.
unfoldable pub apply_option : BenchOptions → Bytes → Bytes → Parsed
apply_option options arg value =
    if is_text arg "--mode"
    then if is_text value "shm"
      then proceed (record options { mode = shm })
      else if is_text value "tcp"
      then proceed (record options { mode = tcp })
      else fail (codes "unsupported mode: " ++ value)
    else if is_text arg "--count"
    then set_count options (parse_positive_size value)
    else if is_text arg "--payload-bytes"
    then set_payload_bytes options (parse_positive_size value)
    else proceed (record options { topic = value })

-- An argument that is no option with a value.
abbrev pub other_argument : Bytes → ParseResult
other_argument arg =
    if is_text arg "--help"
    then help_result
    else if is_option_token arg
    then error_result (codes "unknown option: " ++ arg)
    else error_result (codes "unexpected argument: " ++ arg)

abbrev pub and_then : Parsed → (BenchOptions → Parsed) → Parsed
and_then (proceed options) next = next options
and_then (stop result) next = stop result

-- The loop over the arguments, with `read_option_value` in its place.
unfoldable pub parse_options : List Bytes → BenchOptions → Parsed
parse_options [] options = proceed options
parse_options (arg ∷ []) options =
    if takes_value arg then fail (arg ++ codes " requires a value") else stop (other_argument arg)
parse_options (arg ∷ value ∷ rest) options =
    if takes_value arg
    then if is_option_token value
      then fail (arg ++ codes " requires a value")
      else and_then (apply_option options arg value) (λ o. parse_options rest o)
    else stop (other_argument arg)

-- `size` and `frame_size` are `serialized_string_message_size` and `tcp_frame_payload_size`.
module _ (size : ℕ → ℕ) (frame_size : Bytes → ℕ → ℕ) where
  abbrev pub accept : BenchOptions → ParseResult
  accept options = record {
    ok = true;
    help = false;
    exit_code = 0;
    message = [];
    options = options;
  }

  -- The tests of the sizes, once the effective size is known.
  unfoldable pub check_sizes : BenchOptions → BenchMode → ParseResult
  check_sizes options shm =
      if ltb shm_slot_capacity options.payload_bytes
      then error_result (
          codes "SHM payload alone exceeds the "
          ++ to_string shm_slot_capacity
          ++ codes "-byte slot; use --mode tcp for larger payloads")
      else if ltb shm_slot_capacity (size options.payload_bytes)
      then error_result (
          codes "serialized benchmark message is "
          ++ to_string (size options.payload_bytes)
          ++ codes " bytes and exceeds the "
          ++ to_string shm_slot_capacity
          ++ codes "-byte SHM slot; use --mode tcp for larger payloads")
      else accept options
  check_sizes options tcp =
      if ltb max_payload_size options.payload_bytes
      then error_result (
          codes "TCP frame payload exceeds the "
          ++ to_string max_payload_size
          ++ codes "-byte FrameCodec limit")
      else if ltb max_payload_size (frame_size options.topic options.payload_bytes)
      then error_result (
          codes "TCP frame payload is "
          ++ to_string (frame_size options.topic options.payload_bytes)
          ++ codes " bytes and exceeds the "
          ++ to_string max_payload_size
          ++ codes "-byte FrameCodec limit")
      else accept options

  -- With the size requested kept beside the effective one.
  abbrev pub with_effective_size : BenchOptions → BenchOptions
  with_effective_size options = record options {
    requested_payload_bytes = options.payload_bytes;
    payload_bytes = effective_benchmark_payload_bytes options.payload_bytes options.count;
  }

  finish : Parsed → ParseResult
  unfolding check_sizes
  finish (stop result) = result
  finish (proceed options) = check_sizes (with_effective_size options) options.mode

  -- The arguments after the program's name.
  unfoldable pub parse_bench_args : List Bytes → ParseResult
  unfolding finish
  parse_bench_args args = finish (parse_options args default_options)
