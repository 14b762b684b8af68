-- ===== src/Tests/Commands.antt =====
-- topic_commands.cpp and main.cpp: commands that print, and that do not start.
use mini_middleware.Prelude.{ℕ, [], ◌∷◌, ◌++◌, Option, none, some, Bytes, codes, to_string}
use mini_middleware.Cli.Format.{Protobuf}
use mini_middleware.Cli.Main.{run_main}
use mini_middleware.Cli.Main.Ready.{IsReady, run_main-IsReady}

-- The bytes of a StringMsg are its text; nothing parses as the others.
abbrev plain_text : Protobuf
plain_text = record {
  parse_string = λ bytes. some bytes;
  parse_point = λ bytes. none;
  parse_cloud = λ bytes. none;
}

abbrev print_rate : Option (ℕ × ℕ) → Bytes
print_rate none = codes "0"
print_rate (some (n, t)) = to_string n ++ (codes "/" ++ to_string t)

abbrev no_files : Bytes → Option Bytes
no_files path = none

run_main-IsReady_example :
    IsReady (run_main no_files (codes "mm" ∷ codes "topic" ∷ codes "list" ∷ []))
run_main-IsReady_example =
    run_main-IsReady no_files (codes "mm" ∷ codes "topic" ∷ codes "list" ∷ [])
