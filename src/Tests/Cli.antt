-- ===== src/Tests/Cli.antt =====
-- args.cpp of the command line, on short arguments.
use mini_middleware.Prelude.{◌≡◌, refl, List, [], ◌∷◌, Bytes, codes, arith}
use mini_middleware.Cli.Args.{parse_cli_args}
use mini_middleware.Cli.Args.Filled.{IsSound}
use mini_middleware.Cli.Args.Sound.{parse_cli_args-IsSound}
use mini_middleware.Cli.Args.Printed.{
  Request, measure_topic, print, command_of, parse_cli_args-print,
}

abbrev hz_arguments : List Bytes
hz_arguments =
    codes "mm"
    ∷ codes "topic"
    ∷ codes "hz"
    ∷ codes "/chat"
    ∷ codes "--type"
    ∷ codes "StringMsg"
    ∷ codes "--window"
    ∷ codes "5"
    ∷ []

parse_cli_args-IsSound_example : IsSound (parse_cli_args hz_arguments)
parse_cli_args-IsSound_example = parse_cli_args-IsSound hz_arguments

abbrev hz_request : Request
hz_request = measure_topic (codes "/chat") (codes "StringMsg") (codes "mm.conf") 5 100

parse_cli_args-print_example :
    parse_cli_args (codes "mm" ∷ print hz_request) ≡ command_of hz_request
parse_cli_args-print_example =
    parse_cli_args-print (codes "mm") hz_request
      ((refl, refl, refl, refl), omega arith, omega arith, omega arith)
