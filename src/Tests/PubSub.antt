-- ===== src/Tests/PubSub.antt =====
-- subscriber.h: three payloads, the empty one of which does not parse.
use mini_middleware.Prelude.{ℕ, List, [], ◌∷◌, Option, none, some, Bytes}
use mini_middleware.Common.Qos.{Qos, best_effort, keep_all}
use mini_middleware.Core.PubSub.Shutdown.{Op, enqueues, works}

-- A message is a byte.
abbrev parse_byte : Bytes → Option ℕ
parse_byte [] = none
parse_byte (b ∷ bytes) = some b

abbrev all_history : Qos
all_history = record { reliability = best_effort; history = keep_all; depth = 1 }

abbrev calls : List Op
calls = enqueues (7 ∷ []) ∷ works ∷ enqueues [] ∷ enqueues (8 ∷ []) ∷ []
