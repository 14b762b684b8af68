-- ===== src/Common/Qos.antt =====
-- common/include/common/qos.h.
use mini_middleware.Prelude.{ℕ, Bool, leb}

pub data Reliability : Type 0 where
  best_effort reliable : Reliability

pub data History : Type 0 where
  keep_last keep_all : History

-- The enumerators' values.
abbrev pub level : Reliability → ℕ
level best_effort = 0
level reliable = 1

pub record Qos : Type 0 where
  pub reliability : Reliability
  pub history : History
  pub depth : ℕ

abbrev pub default_qos : Qos
default_qos = record { reliability = best_effort; history = keep_last; depth = 16 }

-- A writer serves a reader if it offers at least what the reader requests.
unfoldable pub compatible : Reliability → Reliability → Bool
compatible offered_writer requested_reader = leb (level requested_reader) (level offered_writer)
