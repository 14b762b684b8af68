-- ===== src/Cli/Topics/Counted.antt =====
-- topic_commands.cpp: what `echo` prints and when it returns.
use mini_middleware.Prelude.{ℕ, ◌+◌, List, ◌++◌, map, Bytes, concat, ltb, leb, ◌&&◌}
use mini_middleware.Cli.Format.{Protobuf, format_message}
use mini_middleware.Cli.Topics.{EchoState, echo_text}

module _ (pb : Protobuf) (type_name : Bytes) where
  -- What is printed for some messages.
  abbrev pub echoed : List Bytes → Bytes
  echoed messages = concat (map (λ (b : Bytes). echo_text (format_message pb type_name b)) messages)

  -- The state after one more message.
  abbrev more : ℕ → EchoState → Bytes → EchoState
  more count s b = record {
    received = s.received + 1;
    done = ltb 0 count && leb count (s.received + 1);
    out = s.out ++ echo_text (format_message pb type_name b);
  }
