-- ===== src/Core/PubSub/Shutdown.antt =====
-- subscriber.h: the worker hands over what is queued, and ends.
use mini_middleware.Prelude.{ℕ, zero, suc, ◌≡◌, List, [], ◌∷◌, ◌++◌, false, Option, Bytes}
use mini_middleware.Common.Qos.{Qos}
use mini_middleware.Core.PubSub.{Subscriber, enqueue, parsed, worker_round}

-- What other threads and the worker do.
pub data Op : Type 0 where
  enqueues : Bytes → Op
  works : Op

-- The payloads enqueued, in order.
abbrev pub enqueued : List Op → List Bytes
enqueued [] = []
enqueued (enqueues bytes ∷ ops) = bytes ∷ enqueued ops
enqueued (works ∷ ops) = enqueued ops

module _ {M : Type 0} (parse : Bytes → Option M) where
  abbrev pub run : Subscriber M → List Op → Subscriber M
  run s [] = s
  run s (enqueues bytes ∷ ops) = run (enqueue s bytes) ops
  run s (works ∷ ops) = run (worker_round parse s) ops

  abbrev pub rounds : ℕ → Subscriber M → Subscriber M
  rounds zero s = s
  rounds (suc n) s = rounds n (worker_round parse s)

  -- The messages that the payloads parse to.
  abbrev pub parsed_all : List Bytes → List M
  parsed_all [] = []
  parsed_all (bytes ∷ rest) = parsed (parse bytes) ++ parsed_all rest

  -- Handed over or still queued.
  abbrev due : Subscriber M → List M
  due s = s.called ++ parsed_all s.queue.queue

  -- Open, unbounded, and its worker running.
  record IsRunning (s : Subscriber M) : Type 0 where
    opened : s.queue.closed ≡ false
    unbounded : s.queue.capacity ≡ 0
    works_on : s.finished ≡ false
