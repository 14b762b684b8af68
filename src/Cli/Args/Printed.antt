-- ===== src/Cli/Args/Printed.antt =====
-- args.cpp: a request written out as arguments is parsed to the command it stands for.
use mini_middleware.Prelude.{
  ℕ, ◌≤◌, ◌≡◌, refl, List, [], ◌∷◌, false, Bytes, bytes_eq, codes, to_string, arith, ltb, pos,
}
use mini_middleware.Cli.Args.{
  CliCommand, topic_list, topic_echo, topic_hz, default_command, is_option_token, is_option_allowed,
  is_empty, apply_option, set_wait_ms, set_count, set_window, parse_options, parse_topic,
  parse_subcommand, parse_cli_args,
}
use mini_middleware.Cli.Args.Numbers.{parse_non_negative_int-to_string}

-- What a user can ask for, with every option given.
pub data Request : Type 0 where
  list_topics : Bytes → ℕ → Request
  echo_topic : Bytes → Bytes → Bytes → ℕ → Request
  measure_topic : Bytes → Bytes → Bytes → ℕ → ℕ → Request

abbrev pub print : Request → List Bytes
print (list_topics path wait) =
    codes "topic" ∷ codes "list" ∷ codes "--config" ∷ path ∷ codes "--wait-ms" ∷ to_string wait ∷ []
print (echo_topic topic type path count) =
    codes "topic"
    ∷ codes "echo"
    ∷ topic
    ∷ codes "--type"
    ∷ type
    ∷ codes "--config"
    ∷ path
    ∷ codes "--count"
    ∷ to_string count
    ∷ []
print (measure_topic topic type path window count) =
    codes "topic"
    ∷ codes "hz"
    ∷ topic
    ∷ codes "--type"
    ∷ type
    ∷ codes "--config"
    ∷ path
    ∷ codes "--window"
    ∷ to_string window
    ∷ codes "--count"
    ∷ to_string count
    ∷ []

abbrev pub command_of : Request → CliCommand
command_of (list_topics path wait) = record default_command {
  kind = topic_list;
  config_path = path;
  wait_ms = pos wait;
}
command_of (echo_topic topic type path count) = record default_command {
  kind = topic_echo;
  topic = topic;
  type_name = type;
  config_path = path;
  count = pos count;
}
command_of (measure_topic topic type path window count) = record default_command {
  kind = topic_hz;
  topic = topic;
  type_name = type;
  config_path = path;
  window = pos window;
  count = pos count;
}

-- A topic, a type and a path that are no options, the type not empty, and numbers in range.
abbrev pub IsTexts : Bytes → Bytes → Bytes → Type 0
IsTexts topic type path =
    (is_option_token topic ≡ false)
    × (is_option_token type ≡ false)
    × (is_empty type ≡ false)
    × (is_option_token path ≡ false)

abbrev pub IsRequest : Request → Type 0
IsRequest (list_topics path wait) = (is_option_token path ≡ false) × (wait ≤ 2147483647)
IsRequest (echo_topic topic type path count) = IsTexts topic type path × (count ≤ 2147483647)
IsRequest (measure_topic topic type path window count) =
    IsTexts topic type path × (2 ≤ window) × (window ≤ 2147483647) × (count ≤ 2147483647)

-- A request whose texts do not start with "--", with a nonempty type, a window of 2 or more and
-- numbers of at most 2147483647, written out as arguments, is parsed to the command with those
-- values.
pub parse_cli_args-print :
    (program : Bytes) (r : Request)
    → IsRequest r
    → parse_cli_args (program ∷ print r) ≡ command_of r
unfolding parse_cli_args parse_subcommand parse_topic parse_options apply_option is_option_allowed
    set_wait_ms set_count set_window bytes_eq
parse_cli_args-print program (list_topics path wait) (plain, up) =
    rw (plain, parse_non_negative_int-to_string wait up) refl
parse_cli_args-print program (echo_topic topic type path count) ((t, ty, full, plain), up) =
    rw (t, ty, plain, parse_non_negative_int-to_string count up, full) refl
parse_cli_args-print program (measure_topic topic type path window count)
      ((t, ty, full, plain), two, fits, up) =
    let big : ltb window 2 ≡ false = ground (arith, two) in
    rw
      (
        t,
        ty,
        plain,
        parse_non_negative_int-to_string window fits,
        big,
        parse_non_negative_int-to_string count up,
        full,
      )
      refl
