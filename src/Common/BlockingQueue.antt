-- ===== src/Common/BlockingQueue.antt =====
-- common/include/common/blocking_queue.h: a queue behind a mutex, each call one step. The list is
-- the std::queue, its front first. `pop` on an empty open queue waits, and `try_pop` after its
-- timeout gives up.
pub mod KeepLast
pub mod History
pub mod Calls
use mini_middleware.Prelude.{
  ℕ, suc, ◌+◌, ◌%◌, ◌^◌, List, [], ◌∷◌, ◌++◌, Bool, true, false, ◌&&◌, Option, none, some, length,
  drop, ltb, leb, if◌then◌else◌,
}

pub record BlockingQueue {ℓ} (A : Type ℓ) : Type ℓ where
  pub queue : List A
  pub capacity : ℕ
  pub dropped : ℕ
  pub closed : Bool

pub data PopResult {ℓ} (A : Type ℓ) : Type ℓ where
  item : A → PopResult A
  ended : PopResult A
  waits : PopResult A

module _ {ℓ} {A : Type ℓ} where
  unfoldable pub create : ℕ → BlockingQueue A
  create capacity = record { queue = []; capacity = capacity; dropped = 0; closed = false }

  abbrev pub is_full : BlockingQueue A → Bool
  is_full q = ltb 0 q.capacity && leb q.capacity (length q.queue)

  make_room : BlockingQueue A → BlockingQueue A
  make_room q =
      if is_full q
      then record q { queue = drop 1 q.queue; dropped = (q.dropped + 1) % 2 ^ 64 }
      else q

  unfoldable pub push : BlockingQueue A → A → BlockingQueue A × Bool
  unfolding make_room
  push q x =
      if q.closed
      then (q, false)
      else (record (make_room q) { queue = (make_room q).queue ++ (x ∷ []) }, true)

  pop_from : BlockingQueue A → List A → BlockingQueue A × PopResult A
  pop_from q [] = if q.closed then (q, ended) else (q, waits)
  pop_from q (x ∷ xs) = (record q { queue = xs }, item x)

  unfoldable pub pop : BlockingQueue A → BlockingQueue A × PopResult A
  unfolding pop_from
  pop q = pop_from q q.queue

  try_pop_from : BlockingQueue A → List A → BlockingQueue A × Option A
  try_pop_from q [] = (q, none)
  try_pop_from q (x ∷ xs) = (record q { queue = xs }, some x)

  unfoldable pub try_pop : BlockingQueue A → BlockingQueue A × Option A
  unfolding try_pop_from
  try_pop q = try_pop_from q q.queue

  unfoldable pub close : BlockingQueue A → BlockingQueue A
  close q = record q { closed = true }

  unfoldable pub size : BlockingQueue A → ℕ
  size q = length q.queue
