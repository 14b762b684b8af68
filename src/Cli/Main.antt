-- ===== src/Cli/Main.antt =====
-- cli/src/main.cpp. What `main` does with its arguments: it exits, or makes a node and runs a command
-- on it. `files` is what the file of a path holds, if it can be opened.
pub mod Ready
use mini_middleware.Prelude.{
  ℕ, List, [], ◌∷◌, ◌++◌, Bool, true, false, ◌&&◌, not, Option, Bytes, codes, if◌then◌else◌, ℤ,
}
use mini_middleware.Config.{MiddlewareConfig, ConfigParseResult, default_config, load_config_file}
use mini_middleware.Core.Node.{NodeOptions}
use mini_middleware.Cli.Args.{
  CliCommandKind, help, error, topic_list, topic_echo, topic_hz, CliCommand, parse_cli_args,
}
use mini_middleware.Cli.Format.{is_supported_message_type}
use mini_middleware.Cli.Topics.{print_supported_types}

-- An exit with a code, and what is printed to the standard output and to the standard error; or a
-- command on a node of a name and options.
pub data Plan : Type 0 where
  exits : ℕ → Bytes → Bytes → Plan
  lists : Bytes → NodeOptions → ℤ → Plan
  echoes : Bytes → NodeOptions → Bytes → Bytes → ℤ → Plan
  rates : Bytes → NodeOptions → Bytes → Bytes → ℤ → ℤ → Plan

abbrev pub options_of : MiddlewareConfig → NodeOptions
options_of cfg = record {
  enable_shm = cfg.enable_shm;
  discovery_group = cfg.group;
  discovery_port = cfg.port;
}

-- The switch at the end.
unfoldable pub run_command : CliCommand → MiddlewareConfig → CliCommandKind → Plan
run_command cmd cfg topic_list = lists cfg.node_name (options_of cfg) cmd.wait_ms
run_command cmd cfg topic_echo =
    echoes cfg.node_name (options_of cfg) cmd.topic cmd.type_name cmd.count
run_command cmd cfg topic_hz =
    rates cfg.node_name (options_of cfg) cmd.topic cmd.type_name cmd.window cmd.count
run_command cmd cfg help = exits 2 [] []
run_command cmd cfg error = exits 2 [] []

abbrev is_empty : Bytes → Bool
is_empty [] = true
is_empty (b ∷ bs) = false

-- From the configuration on.
unfoldable pub configure : (Bytes → Option Bytes) → CliCommand → Plan
configure files cmd =
    let result = load_config_file cmd.config_path (files cmd.config_path) in
    if is_empty cmd.config_path
    then run_command cmd default_config cmd.kind
    else if not result.ok
    then exits 2 [] (result.error ++ codes "\n")
    else run_command cmd result.config cmd.kind

unfoldable pub check_type : (Bytes → Option Bytes) → CliCommand → Plan
check_type files cmd =
    if not (is_supported_message_type cmd.type_name)
    then exits 2 [] (
        codes "unsupported message type: "
        ++ (cmd.type_name ++ (codes "\n" ++ print_supported_types)))
    else configure files cmd

unfoldable pub start : (Bytes → Option Bytes) → CliCommand → CliCommandKind → Plan
start files cmd help = exits 0 cmd.message []
start files cmd error = exits cmd.exit_code [] cmd.message
start files cmd topic_list = configure files cmd
start files cmd topic_echo = check_type files cmd
start files cmd topic_hz = check_type files cmd

unfoldable pub run_main : (Bytes → Option Bytes) → List Bytes → Plan
run_main files argv = let cmd = parse_cli_args argv in start files cmd cmd.kind
