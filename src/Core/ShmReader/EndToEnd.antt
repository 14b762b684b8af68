-- ===== src/Core/ShmReader/EndToEnd.antt =====
-- shm_reader.cpp on the ring of shm_ring.h: all that the polls of a reader hand on.
use mini_middleware.Prelude.{
  ℕ, zero, suc, ◌≡◌, List, [], ◌∷◌, ◌++◌, Bool, true, Option, some, Bytes, bytes_key,
}
use mini_middleware.Core.LocalBus.{Bus, Delivery}
use mini_middleware.Core.LocalBus.Delivery.{to_listeners}
use mini_middleware.Core.ShmReader.{Manager, poll_once}
use mini_middleware.Core.ShmReader.OnRing.{Attached, call, payloads}
use mini_middleware.Transport.ShmRing.{System, Reach}

-- The manager after so many polls, and all that they handed on.
unfoldable pub poll_times :
    (ℕ → Bool)
    → (Bytes → Option Attached)
    → ℕ
    → Bus
    → Manager Attached
    → Manager Attached × List Delivery
poll_times alive open_segment zero bus m = (m, [])
poll_times alive open_segment (suc k) bus m =
    let p = poll_once call alive open_segment bus m in
    let (end, rest) = poll_times alive open_segment k p.bus (record m { readers = p.readers }) in
    (end, p.sent ++ rest)

-- A manager with one reader, which is open.
abbrev pub one_reader : Bytes → Bytes → Bytes → Attached → Manager Attached
one_reader key topic seg_name r = record {
  readers = (key, record { topic = topic; seg_name = seg_name; reader = some r }) ∷ [];
  running = true;
}

-- What polls leave and hand on, for the entries that they added.
pub record PolledFrom (alive : ℕ → Bool) (bus : Bus) (key topic seg_name : Bytes) (r : Attached)
    (s : System) (out : Manager Attached × List Delivery) : Type 0 where
  pub end : Attached
  pub new : List (ℕ × Bytes)
  pub table : out.0 ≡ one_reader key topic seg_name end
  pub sent : out.1 ≡ to_listeners alive bus topic (payloads new)
  pub delivered : end.system.delivered ≡ new ++ r.system.delivered
  pub reached : Reach s end.system
