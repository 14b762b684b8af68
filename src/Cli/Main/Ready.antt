-- ===== src/Cli/Main/Ready.antt =====
-- main.cpp: what its commands can rely on.
use mini_middleware.Prelude.{
  inl, inr, ℕ, ◌≤◌, ◌≡◌, refl, ◌∙◌, sym, ap, subst, List, [], true, not, Option, Bytes,
  bytes_eq_iff, ℤ, pos, arith, Bool-cases, either_branch,
}
use mini_middleware.Config.{MiddlewareConfig, default_config, load_config_file}
use mini_middleware.Cli.Args.{
  CliCommandKind, help, error, topic_list, topic_echo, topic_hz, CliCommand, parse_cli_args,
}
use mini_middleware.Cli.Args.Filled.{IsSound, exit_code_of, takes_type}
use mini_middleware.Cli.Args.Sound.{parse_cli_args-IsSound}
use mini_middleware.Cli.Format.{
  is_supported_message_type, is_among, supported_message_types, string_type, point_type, cloud_type,
}
use mini_middleware.Cli.Topics.{subscribes_as, dispatch}
use mini_middleware.Core.Node.{NodeOptions}
use mini_middleware.Cli.Main.{
  Plan, exits, lists, echoes, rates, run_command, configure, check_type, start, run_main, is_empty,
  options_of,
}

-- An exit is a success with nothing on the standard error, or a 2 with nothing on the standard
-- output; `echo` and `hz` run with a type that they know, `hz` with a window of 2 or more.
pub data IsReady : Plan → Type 0 where
  succeeds : {out : Bytes} → IsReady (exits 0 out [])
  fails : {err : Bytes} → IsReady (exits 2 [] err)
  lists_any : {name : Bytes} {o : NodeOptions} {wait_ms : ℤ} → IsReady (lists name o wait_ms)
  echoes_known :
      {name : Bytes} {o : NodeOptions} {topic type_name : Bytes} {count : ℤ}
      → dispatch type_name ≡ subscribes_as type_name
      → IsReady (echoes name o topic type_name count)
  rates_known :
      {name : Bytes} {o : NodeOptions} {topic type_name : Bytes} {w : ℕ} {count : ℤ}
      → dispatch type_name ≡ subscribes_as type_name
      → 2 ≤ w
      → IsReady (rates name o topic type_name (pos w) count)

-- A supported type is one that the commands dispatch on.
supported_is_known :
    (type_name : Bytes)
    → is_supported_message_type type_name ≡ true
    → dispatch type_name ≡ subscribes_as type_name
unfolding is_supported_message_type is_among supported_message_types dispatch
supported_is_known type_name h = ground (
  arith,
  h,
  bytes_eq_iff type_name string_type,
  bytes_eq_iff type_name point_type,
  bytes_eq_iff type_name cloud_type,
  ap subscribes_as {x = type_name} {y = string_type},
  ap subscribes_as {x = type_name} {y = point_type},
  ap subscribes_as {x = type_name} {y = cloud_type},
)

module _ (cmd : CliCommand) (sound : IsSound cmd) where
  -- What a command that takes a type needs.
  abbrev Known : CliCommandKind → Type 0
  Known kind = takes_type kind ≡ true → dispatch cmd.type_name ≡ subscribes_as cmd.type_name

  run_command-IsReady :
      (cfg : MiddlewareConfig) (kind : CliCommandKind)
      → Known kind
      → IsReady (run_command cmd cfg kind)
  unfolding run_command
  run_command-IsReady cfg help known = fails
  run_command-IsReady cfg error known = fails
  run_command-IsReady cfg topic_list known = lists_any
  run_command-IsReady cfg topic_echo known = echoes_known (known refl)
  run_command-IsReady cfg topic_hz known =
      subst
        (λ (w : ℤ).
          IsReady (rates cfg.node_name (options_of cfg) cmd.topic cmd.type_name w cmd.count))
        (sym sound.filled.has_window) (rates_known (known refl) sound.filled.two)

  configure-IsReady :
      (files : Bytes → Option Bytes) → Known cmd.kind → IsReady (configure files cmd)
  unfolding configure
  configure-IsReady files known =
      let result = load_config_file cmd.config_path (files cmd.config_path) in
      either_branch IsReady (is_empty cmd.config_path)
        (run_command-IsReady default_config cmd.kind known)
        (either_branch IsReady (not result.ok) fails
          (run_command-IsReady result.config cmd.kind known))

  check_type-IsReady : (files : Bytes → Option Bytes) → IsReady (check_type files cmd)
  unfolding check_type
  check_type-IsReady files = elim (Bool-cases (is_supported_message_type cmd.type_name)) [
    | inl e ↦ rw e (configure-IsReady files (λ _. supported_is_known cmd.type_name e))
    | inr e ↦ rw e fails
  ]

  start-IsReady :
      (files : Bytes → Option Bytes) (kind : CliCommandKind)
      → cmd.kind ≡ kind
      → IsReady (start files cmd kind)
  unfolding start
  start-IsReady files help e = succeeds
  start-IsReady files error e =
      subst (λ (code : ℕ). IsReady (exits code [] cmd.message))
        (sym (sound.filled.exits ∙ ap exit_code_of e)) fails
  start-IsReady files topic_list e =
      configure-IsReady files (λ h. ground (arith, ap takes_type e, h))
  start-IsReady files topic_echo e = check_type-IsReady files
  start-IsReady files topic_hz e = check_type-IsReady files

-- For any arguments and files, `main` either exits, with 0 and nothing on the standard error or with
-- 2 and nothing on the standard output, or runs `list`, or runs `echo` or `hz` with a type on which
-- these dispatch to themselves, so that they never print the supported types; and `hz` gets a
-- window of 2 or more.
pub run_main-IsReady :
    (files : Bytes → Option Bytes) (argv : List Bytes) → IsReady (run_main files argv)
unfolding run_main
run_main-IsReady files argv =
    let cmd = parse_cli_args argv in
    start-IsReady cmd (parse_cli_args-IsSound argv) files cmd.kind refl
