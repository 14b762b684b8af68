-- ===== src/Core/PubSub.antt =====
-- core/include/core/publisher.h and subscriber.h. Protobuf is a parameter: `serialize` and `parse` of a
-- message type. `called` are the messages that the callback was called with, in order; one round of
-- the worker is one turn of the loop of `run`.
pub mod Shutdown
use mini_middleware.Prelude.{
  ℕ, zero, suc, List, [], ◌∷◌, ◌++◌, Bool, true, false, Option, none, some, Bytes, if◌then◌else◌,
}
use mini_middleware.Common.Qos.{Qos, History, keep_last, keep_all}
use mini_middleware.Common.BlockingQueue.{
  BlockingQueue, PopResult, item, ended, waits, create, push, pop, close,
}
use mini_middleware.Core.LocalBus.{Bus, Delivery}
use mini_middleware.Core.LocalBus

pub record Publisher : Type 0 where
  pub topic : Bytes
  pub type_name : Bytes
  pub qos : Qos

unfoldable pub create_publisher : Bus → Bytes → Bytes → Qos → Publisher × Bus
create_publisher bus topic type_name qos = (
  record { topic = topic; type_name = type_name; qos = qos },
  LocalBus.register_publisher bus topic type_name,
)

publish_bytes : (ℕ → Bool) → Publisher → Bus → Option Bytes → Bool × Bus × List Delivery
publish_bytes alive p bus none = (false, bus, [])
publish_bytes alive p bus (some bytes) =
    let (bus', sent) = LocalBus.publish alive bus p.topic p.type_name bytes in (true, bus', sent)

module _ {M : Type 0} where
  -- `Publisher::publish`
  unfoldable pub publish :
      (M → Option Bytes) → (ℕ → Bool) → Publisher → Bus → M → Bool × Bus × List Delivery
  unfolding publish_bytes
  publish serialize alive p bus msg = publish_bytes alive p bus (serialize msg)

pub record Subscriber (M : Type 0) : Type 0 where
  pub queue : BlockingQueue Bytes
  pub called : List M
  pub finished : Bool

abbrev pub capacity_of : History → ℕ → ℕ
capacity_of keep_last depth = depth
capacity_of keep_all depth = 0

module _ {M : Type 0} where
  unfoldable pub create_subscriber : Qos → Subscriber M
  create_subscriber qos = record {
    queue = create (capacity_of qos.history qos.depth);
    called = [];
    finished = false;
  }

  unfoldable pub enqueue : Subscriber M → Bytes → Subscriber M
  enqueue s bytes = record s { queue = (push s.queue bytes).0 }

  -- The destructor, up to its wait for the worker.
  unfoldable pub shut_down : Subscriber M → Subscriber M
  shut_down s = record s { queue = close s.queue }

  abbrev pub parsed : Option M → List M
  parsed none = []
  parsed (some msg) = msg ∷ []

  -- What the worker does with what `pop` gives it.
  after_pop :
      (Bytes → Option M) → Subscriber M → BlockingQueue Bytes × PopResult Bytes → Subscriber M
  after_pop parse s (q, item bytes) = record s {
    queue = q;
    called = s.called ++ parsed (parse bytes);
  }
  after_pop parse s (q, ended) = record s { queue = q; finished = true }
  after_pop parse s (q, waits) = s

  unfoldable pub worker_round : (Bytes → Option M) → Subscriber M → Subscriber M
  unfolding after_pop
  worker_round parse s = if s.finished then s else after_pop parse s (pop s.queue)
