-- ===== src/Cli/Args/Sound.antt =====
-- args.cpp: what every command that `parse_cli_args` returns satisfies.
use mini_middleware.Prelude.{
  inl, inr, ◌≡◌, refl, sym, subst, ap, List, [], ◌∷◌, ◌++◌, false, Bytes, codes, arith, Bool-cases,
  either_branch, ◌∙◌, if◌then◌else◌, ◌++◌,
}
use mini_middleware.Cli.Args.{
  CliCommandKind, help, error, topic_list, topic_echo, topic_hz, CliCommand, default_command,
  cli_usage, help_command, error_command, is_option_token, Parsed, proceed, stop, left, with_type,
  is_empty, parse_topic, parse_subcommand, parse_cli_args,
}
use mini_middleware.Cli.Args.Filled.{
  exit_code_of, takes_type, IsSound, IsError, Outcome, start-IsFilled,
}
use mini_middleware.Cli.Args.Options.{parse_options-Outcome}

message_only-IsSound :
    (kind : CliCommandKind) (m : Bytes)
    → takes_type kind ≡ false
    → IsSound (record default_command { kind = kind; exit_code = exit_code_of kind; message = m })
message_only-IsSound kind m t = record {
  filled = record {
    exits = refl;
    window_size = 10;
    has_window = refl;
    two = omega arith;
    no_option_type = refl;
    no_option_path = refl;
    untyped = λ _. (refl, refl, refl);
    no_wait = λ _. refl;
  };
  typed = λ h. ground (arith, t, h);
}

IsError-IsSound : (c : CliCommand) → IsError c → IsSound c
IsError-IsSound c e = subst IsSound (sym e) (message_only-IsSound error c.message refl)

help_command-IsSound : IsSound help_command
help_command-IsSound = message_only-IsSound help cli_usage refl

left-IsSound :
    (p : Parsed) (kind : CliCommandKind) (topic : Bytes)
    → takes_type kind ≡ false
    → Outcome kind topic p
    → IsSound (left p)
left-IsSound (stop c) kind topic t e = IsError-IsSound c e
left-IsSound (proceed c) kind topic t (f, k, _) = record {
  filled = f;
  typed = λ h. ground (arith, ap takes_type k, t, h);
}

with_type-IsSound :
    (subcommand : Bytes) (p : Parsed) (kind : CliCommandKind) (topic : Bytes)
    → is_option_token topic ≡ false
    → Outcome kind topic p
    → IsSound (with_type subcommand p)
with_type-IsSound subcommand (stop c) kind topic plain e = IsError-IsSound c e
with_type-IsSound subcommand (proceed c) kind topic plain (f, _, t) =
    let topic_plain : is_option_token c.topic ≡ false = ap is_option_token t ∙ plain in
    go c.type_name refl topic_plain
  where
    go :
        (name : Bytes)
        → c.type_name ≡ name
        → is_option_token c.topic ≡ false
        → IsSound (
            if is_empty c.type_name
            then error_command (subcommand ++ codes " requires --type")
            else c)
    go [] e topic_plain =
        subst
          (λ n.
            IsSound
              (if is_empty n then error_command (subcommand ++ codes " requires --type") else c))
          (sym e) (IsError-IsSound _ refl)
    go (a ∷ name) e topic_plain =
        subst
          (λ n.
            IsSound
              (if is_empty n then error_command (subcommand ++ codes " requires --type") else c))
          (sym e) (record { filled = f; typed = λ _. ((λ h. cc), topic_plain) })

parse_topic-IsSound :
    (kind : CliCommandKind) (subcommand : Bytes) (args : List Bytes)
    → exit_code_of kind ≡ 0
    → IsSound (parse_topic kind subcommand args)
unfolding parse_topic
parse_topic-IsSound kind subcommand [] e = IsError-IsSound _ refl
parse_topic-IsSound kind subcommand (topic ∷ rest) e = elim (Bool-cases (is_option_token topic)) [
  | inl option ↦ rw option (IsError-IsSound _ refl)
  | inr plain ↦ rw plain (
      with_type-IsSound subcommand _ kind topic plain (
        parse_options-Outcome rest (record default_command { kind = kind; topic = topic })
          (start-IsFilled kind topic e)))
]

parse_subcommand-IsSound : (args : List Bytes) → IsSound (parse_subcommand args)
unfolding parse_subcommand
parse_subcommand-IsSound [] = IsError-IsSound _ refl
parse_subcommand-IsSound (subcommand ∷ rest) = either_branch IsSound _ help_command-IsSound (
    either_branch IsSound _
      (left-IsSound _ topic_list [] refl (
        parse_options-Outcome rest (record default_command { kind = topic_list })
          (start-IsFilled topic_list [] refl)))
      (either_branch IsSound _ (parse_topic-IsSound topic_echo subcommand rest refl) (
        either_branch IsSound _ (parse_topic-IsSound topic_hz subcommand rest refl)
          (IsError-IsSound _ refl))))

-- Whatever the arguments, the command that `parse_cli_args` returns exits with 2 when it is an error
-- and with 0 otherwise; its window is 2 or more; neither its type nor its configuration path starts
-- with "--"; `list` keeps the default count and window and no type, `echo` and `hz` keep the default
-- wait and have a nonempty type and a topic that does not start with "--".
pub parse_cli_args-IsSound : (argv : List Bytes) → IsSound (parse_cli_args argv)
unfolding parse_cli_args
parse_cli_args-IsSound [] = help_command-IsSound
parse_cli_args-IsSound (program ∷ []) = help_command-IsSound
parse_cli_args-IsSound (program ∷ command ∷ rest) =
    either_branch IsSound _ help_command-IsSound
      (either_branch IsSound _ (IsError-IsSound _ refl) (parse_subcommand-IsSound rest))
