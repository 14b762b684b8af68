-- ===== src/Core/RemoteSink.antt =====
-- core/include/core/remote_sink.h. Protobuf is a parameter: `serialize` and `parse` of a
-- DataMessage, which is a topic with a payload.
use mini_middleware.Prelude.{ℕ, ◌≡◌, List, [], ◌∷◌, ◌++◌, Bool, Option, some, Bytes}
use mini_middleware.Core.LocalBus.{Delivery}
use mini_middleware.Core.DataPlane.{DataPlane, on_inbound}

module _ (serialize : Bytes × Bytes → Option Bytes) where
  -- What `enqueue` hands to the connection's `send`.
  unfoldable pub enqueue : Bytes → Bytes → Option Bytes
  enqueue topic bytes = serialize (topic, bytes)

-- The data plane of the peer, for what arrives at its server.
module _ (parse : Bytes → Option (Bytes × Bytes)) (alive : ℕ → Bool) where
  unfoldable pub inbound_all : DataPlane → List Bytes → DataPlane × List Delivery
  inbound_all p [] = (p, [])
  inbound_all p (frame ∷ frames) =
      let (q, out) = on_inbound alive p (parse frame) in
      let (r, rest) = inbound_all q frames in (r, out ++ rest)

-- The frames are those that a sink of the topic sends for the payloads.
abbrev pub Sends : (Bytes × Bytes → Option Bytes) → Bytes → List Bytes → List Bytes → Type 0
Sends serialize topic [] [] = Unit
Sends serialize topic (bytes ∷ payloads) (frame ∷ frames) =
    (enqueue serialize topic bytes ≡ some frame) × Sends serialize topic payloads frames
Sends serialize topic _ _ = ⊥
