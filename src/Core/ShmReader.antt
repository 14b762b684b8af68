-- ===== src/Core/ShmReader.antt =====
-- core/include/core/shm_reader.h and core/src/shm_reader.cpp. The ring and its reader stand for
-- themselves: `R` is what a reader holds, `read` one call of it, which moves the
-- reader also where it gives nothing to read,
-- and `open_segment` what `ShmSegment::open` and `make_reader` give, none while the writer has not
-- made the segment. The readers stand in the order in which the map lists them. Times are in
-- microseconds; one turn of the loop of `run` is `turn`.
pub mod Backoff
pub mod OnRing
pub mod EndToEnd
use mini_middleware.Prelude.{
  ℕ, zero, suc, ◌*◌, List, [], ◌∷◌, ◌++◌, Bool, true, false, ◌||◌, Option, none, some, Bytes, ltb,
  if◌then◌else◌, bytes_key,
}
use mini_middleware.Prelude.Dict.{Dict, find, insert, erase}
use mini_middleware.Core.LocalBus.{Bus, Delivery, deliver_inbound}

abbrev pub max_drain_per_reader : ℕ
max_drain_per_reader = 256

abbrev pub min_sleep : ℕ
min_sleep = 50

abbrev pub max_sleep : ℕ
max_sleep = 1000

-- The segment and its reader are there together, or neither is.
pub record Entry (R : Type 0) : Type 0 where
  pub topic : Bytes
  pub seg_name : Bytes
  pub reader : Option R

-- What one reader's loop leaves.
pub record Drained (R : Type 0) : Type 0 where
  pub bus : Bus
  pub reader : R
  pub sent : List Delivery
  pub did_work : Bool

pub record Manager (R : Type 0) : Type 0 where
  pub readers : Dict Bytes (Entry R)
  pub running : Bool

pub record Polled (R : Type 0) : Type 0 where
  pub bus : Bus
  pub readers : Dict Bytes (Entry R)
  pub sent : List Delivery
  pub did_work : Bool

module _ {R : Type 0} where
  unfoldable pub create_manager : Manager R
  create_manager = record { readers = []; running = true }

  -- `running_.exchange(false)`, and the wait for the thread.
  unfoldable pub stop : Manager R → Manager R
  stop m = if m.running then record { readers = []; running = false } else m

  add_new : Manager R → Bytes → Bytes → Bytes → Option (Entry R) → Manager R
  add_new m key topic seg_name (some e) = m
  add_new m key topic seg_name none = record m {
    readers = insert key (record { topic = topic; seg_name = seg_name; reader = none }) m.readers;
  }

  unfoldable pub add_reader : Manager R → Bytes → Bytes → Bytes → Manager R
  unfolding add_new
  add_reader m key topic seg_name = add_new m key topic seg_name (find key m.readers)

  unfoldable pub remove_reader : Manager R → Bytes → Manager R
  remove_reader m key = record m { readers = erase key m.readers }

  module _ (read : R → R × Option Bytes) (alive : ℕ → Bool) where
    -- A read that gives nothing ends the loop; the reader keeps what the read did to it.
    abbrev after_read : (Bytes → R → Drained R) → Bus → R × Option Bytes → Drained R
    after_read next bus (r, none) = record { bus = bus; reader = r; sent = []; did_work = false }
    after_read next bus (r, some bytes) = next bytes r

    -- At most so many more reads of one reader.
    unfoldable pub drain : ℕ → Bus → Bytes → R → Drained R
    drain zero bus topic r = record { bus = bus; reader = r; sent = []; did_work = false }
    drain (suc n) bus topic r =
        after_read
          (λ (bytes : Bytes) (r' : R).
            let (bus', out) = deliver_inbound alive bus topic bytes in
            let rest = drain n bus' topic r' in
            record rest { sent = out ++ rest.sent; did_work = true })
          bus (read r)

    unfoldable pub or_else : Option R → Option R → Option R
    or_else (some r) o = some r
    or_else none o = o

    -- The segment is opened if it is not open yet.
    unfoldable pub reader_of : (Bytes → Option R) → Entry R → Option R
    unfolding or_else
    reader_of open_segment e = or_else e.reader (open_segment e.seg_name)

    unfoldable pub poll_entry : Bus → Entry R → Option R → Bus × Entry R × List Delivery × Bool
    poll_entry bus e none = (bus, e, [], false)
    poll_entry bus e (some r) =
        let d = drain max_drain_per_reader bus e.topic r in
        (d.bus, record e { reader = some d.reader }, d.sent, d.did_work)

    unfoldable pub poll_each : (Bytes → Option R) → Bus → Dict Bytes (Entry R) → Polled R
    unfolding poll_entry reader_of
    poll_each open_segment bus [] = record { bus = bus; readers = []; sent = []; did_work = false }
    poll_each open_segment bus ((key, e) ∷ rs) =
        let (bus', e', sent, did_work) = poll_entry bus e (reader_of open_segment e) in
        let rest = poll_each open_segment bus' rs in
        record rest {
          readers = (key, e') ∷ rest.readers;
          sent = sent ++ rest.sent;
          did_work = did_work || rest.did_work;
        }

    unfoldable pub poll_once : (Bytes → Option R) → Bus → Manager R → Polled R
    poll_once open_segment bus m = poll_each open_segment bus m.readers

-- How long the loop of `run` sleeps after the next turn that finds nothing.
unfoldable pub next_sleep : ℕ → Bool → ℕ
next_sleep sleep did_work =
    if did_work then min_sleep else if ltb sleep max_sleep then sleep * 2 else sleep

-- The sleeps of `run`, for what its polls return.
unfoldable pub sleeps : ℕ → List Bool → List ℕ
unfolding next_sleep
sleeps sleep [] = []
sleeps sleep (did_work ∷ polls) =
    let rest = sleeps (next_sleep sleep did_work) polls in if did_work then rest else sleep ∷ rest
