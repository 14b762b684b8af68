-- ===== src/Cli/Args.antt =====
-- cli/include/cli/args.h and cli/src/args.cpp: the arguments of `mm`. `argv` is a list of texts,
-- the program's name first.
pub mod Filled
pub mod Options
pub mod Sound
pub mod Numbers
pub mod Printed
use mini_middleware.Prelude.{
  ℕ, suc, ◌^◌, List, [], ◌∷◌, ◌++◌, Bool, true, false, ◌&&◌, ◌||◌, not, Option, none, some, Bytes,
  bytes_eq, codes, ltb, ◌==◌, if◌then◌else◌, String, strto, ℤ, pos, negsuc, long_to_int,
}

pub data CliCommandKind : Type 0 where
  help : CliCommandKind
  error : CliCommandKind
  topic_list : CliCommandKind
  topic_echo : CliCommandKind
  topic_hz : CliCommandKind

pub record CliCommand : Type 0 where
  pub kind : CliCommandKind
  pub exit_code : ℕ
  pub message : Bytes
  pub config_path : Bytes
  pub topic : Bytes
  pub type_name : Bytes
  pub wait_ms : ℤ
  pub count : ℤ
  pub window : ℤ

abbrev pub default_command : CliCommand
default_command = record {
  kind = help;
  exit_code = 0;
  message = [];
  config_path = [];
  topic = [];
  type_name = [];
  wait_ms = pos 1500;
  count = pos 0;
  window = pos 10;
}

abbrev is_text : Bytes → String → Bool
is_text text s = bytes_eq text (codes s)

unfoldable pub cli_usage : Bytes
cli_usage =
    codes "Usage:\n"
    ++ codes "  mm --help\n"
    ++ codes "  mm topic --help\n"
    ++ codes "  mm topic list [--config PATH] [--wait-ms MS]\n"
    ++ codes "  mm topic echo TOPIC --type TYPE [--config PATH] [--count N]\n"
    ++ codes "  mm topic hz TOPIC --type TYPE [--config PATH] [--window N] [--count N]\n"

abbrev pub help_command : CliCommand
help_command = record default_command { message = cli_usage }

abbrev pub error_command : Bytes → CliCommand
error_command message = record default_command {
  kind = error;
  exit_code = 2;
  message = message ++ codes "\n\n" ++ cli_usage;
}

-- The tests on what strtol read: a range of 64 bits, the whole text, and no more than INT_MAX.
unfoldable pub as_int : Option (Bool × ℕ × Bytes) → Option ℤ
as_int none = none
as_int (some (minus, size, c ∷ rest)) = none
as_int (some (true, size, [])) = if ltb (2 ^ 63) size then none else some (long_to_int true size)
as_int (some (false, size, [])) =
    if ltb 2147483647 size then none else some (long_to_int false size)

unfoldable pub parse_non_negative_int : Bytes → Option ℤ
parse_non_negative_int [] = none
parse_non_negative_int (c ∷ text) = if c == b'-' then none else as_int (strto (c ∷ text))

-- `text.rfind("--", 0) == 0`
abbrev pub is_option_token : Bytes → Bool
is_option_token [] = false
is_option_token (a ∷ []) = false
is_option_token (a ∷ b ∷ text) = a == b'-' && b == b'-'

unfoldable pub is_option_allowed : CliCommandKind → Bytes → Bool
is_option_allowed help name = false
is_option_allowed error name = false
is_option_allowed topic_list name = is_text name "--config" || is_text name "--wait-ms"
is_option_allowed topic_echo name =
    is_text name "--config" || is_text name "--type" || is_text name "--count"
is_option_allowed topic_hz name =
    is_text name "--config"
    || is_text name "--type"
    || is_text name "--window"
    || is_text name "--count"

-- The command so far, or the one that reports an error in its place.
pub data Parsed : Type 0 where
  proceed : CliCommand → Parsed
  stop : CliCommand → Parsed

abbrev pub fail : Bytes → Parsed
fail message = stop (error_command message)

unfoldable pub set_wait_ms : CliCommand → Option ℤ → Parsed
set_wait_ms cmd none = fail (codes "--wait-ms must be a non-negative integer")
set_wait_ms cmd (some n) = proceed (record cmd { wait_ms = n })

unfoldable pub set_count : CliCommand → Option ℤ → Parsed
set_count cmd none = fail (codes "--count must be a non-negative integer")
set_count cmd (some n) = proceed (record cmd { count = n })

unfoldable pub set_window : CliCommand → Option ℤ → Parsed
set_window cmd none = fail (codes "--window must be an integer >= 2")
set_window cmd (some (negsuc n)) = fail (codes "--window must be an integer >= 2")
set_window cmd (some (pos n)) =
    if ltb n 2
    then fail (codes "--window must be an integer >= 2")
    else proceed (record cmd { window = pos n })

-- With `read_string_option` in its place, for the two options of a text.
unfoldable pub apply_option : CliCommand → Bytes → Bytes → Parsed
apply_option cmd name value =
    if not (is_option_allowed cmd.kind name)
    then fail (codes "option not allowed for command: " ++ name)
    else if is_text name "--config"
    then if is_option_token value
      then fail (name ++ codes " requires a value")
      else proceed (record cmd { config_path = value })
    else if is_text name "--type"
    then if is_option_token value
      then fail (name ++ codes " requires a value")
      else proceed (record cmd { type_name = value })
    else if is_text name "--wait-ms"
    then set_wait_ms cmd (parse_non_negative_int value)
    else if is_text name "--count"
    then set_count cmd (parse_non_negative_int value)
    else if is_text name "--window"
    then set_window cmd (parse_non_negative_int value)
    else fail (codes "unknown option: " ++ name)

abbrev pub and_then : Parsed → (CliCommand → Parsed) → Parsed
and_then (proceed cmd) next = next cmd
and_then (stop cmd) next = stop cmd

-- The loop over the options and their values, with `read_option_value` in its place.
unfoldable pub parse_options : List Bytes → CliCommand → Parsed
parse_options [] cmd = proceed cmd
parse_options (name ∷ []) cmd =
    if not (is_option_token name)
    then fail (codes "unexpected argument: " ++ name)
    else fail (name ++ codes " requires a value")
parse_options (name ∷ value ∷ rest) cmd =
    if not (is_option_token name)
    then fail (codes "unexpected argument: " ++ name)
    else and_then (apply_option cmd name value) (λ c. parse_options rest c)

abbrev pub is_empty : Bytes → Bool
is_empty [] = true
is_empty (c ∷ text) = false

-- What `parse_options` leaves in `cmd`.
abbrev pub left : Parsed → CliCommand
left (proceed cmd) = cmd
left (stop cmd) = cmd

abbrev pub with_type : Bytes → Parsed → CliCommand
with_type subcommand (stop cmd) = cmd
with_type subcommand (proceed cmd) =
    if is_empty cmd.type_name then error_command (subcommand ++ codes " requires --type") else cmd

-- `echo` and `hz`, from their topic on.
unfoldable pub parse_topic : CliCommandKind → Bytes → List Bytes → CliCommand
parse_topic kind subcommand [] = error_command (subcommand ++ codes " requires a topic")
parse_topic kind subcommand (topic ∷ rest) =
    if is_option_token topic
    then error_command (subcommand ++ codes " requires a topic")
    else with_type subcommand
        (parse_options rest (record default_command { kind = kind; topic = topic }))

abbrev is_last : List Bytes → Bool
is_last [] = true
is_last (a ∷ rest) = false

-- The arguments after `mm topic`.
unfoldable pub parse_subcommand : List Bytes → CliCommand
parse_subcommand [] = error_command (codes "missing topic command")
parse_subcommand (subcommand ∷ rest) =
    if is_last rest && is_text subcommand "--help"
    then help_command
    else if is_text subcommand "list"
    then left (parse_options rest (record default_command { kind = topic_list }))
    else if is_text subcommand "echo"
    then parse_topic topic_echo subcommand rest
    else if is_text subcommand "hz"
    then parse_topic topic_hz subcommand rest
    else error_command (codes "unknown topic command: " ++ subcommand)

unfoldable pub parse_cli_args : List Bytes → CliCommand
parse_cli_args [] = help_command
parse_cli_args (program ∷ []) = help_command
parse_cli_args (program ∷ command ∷ rest) =
    if is_text command "--help"
    then help_command
    else if not (is_text command "topic")
    then error_command (codes "unknown command: " ++ command)
    else parse_subcommand rest
