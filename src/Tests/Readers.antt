-- ===== src/Tests/Readers.antt =====
-- shm_reader.cpp and remote_sink.h: the sleeps of the loop, and a subscriber that gets what a sink
-- sends.
use mini_middleware.Prelude.{
  ℕ, ◌≡◌, refl, [], ◌∷◌, Bool, true, false, Option, none, some, Bytes, codes, replicate,
}
use mini_middleware.Core.LocalBus.{Bus}
use mini_middleware.Core.ShmReader.{min_sleep, sleeps}
use mini_middleware.Prelude.{◌++◌, List, bytes_key, bytes_eq}
use mini_middleware.Prelude.Dict.{find, insert}
use mini_middleware.Core.LocalBus.{deliver_inbound, inbound_entry, collect}
use mini_middleware.Core.ShmReader.{poll_once, poll_each, poll_entry, reader_of, or_else, drain}
use mini_middleware.Core.ShmReader.OnRing.{Attached, finish}
use mini_middleware.Core.ShmReader.EndToEnd.{poll_times, one_reader}
use mini_middleware.Transport.ShmRing.{
  start, make_reader, init, reader_step, writer_step, reader_move, writer_move, slot_index,
}
use mini_middleware.Core.ShmReader.Backoff.{sleeps_back_off}

abbrev everyone : ℕ → Bool
everyone sink = true

abbrev one_listener : Bus
one_listener =
    (codes "t", record { type_name = codes "S"; sinks = 5 ∷ []; remote_sinks = 6 ∷ [] }) ∷ []

sleeps_back_off_example :
    sleeps min_sleep (false ∷ true ∷ replicate 6 false)
    ≡ 50 ∷ 50 ∷ 100 ∷ 200 ∷ 400 ∷ 800 ∷ 1600 ∷ []
unfolding sleeps
sleeps_back_off_example = sleeps_back_off min_sleep (false ∷ []) 6

-- A message type of topics of one byte.
abbrev write_message : Bytes × Bytes → Option Bytes
write_message ([], payload) = none
write_message (c ∷ [], payload) = some (c ∷ payload)
write_message (c ∷ d ∷ topic, payload) = none

abbrev read_message : Bytes → Option (Bytes × Bytes)
read_message [] = none
read_message (c ∷ payload) = some (c ∷ [], payload)

-- The writer puts a byte into a ring of two slots and the poller takes it; then there is nothing.
abbrev write_then_read : List (Option Bytes)
write_then_read = replicate 5 (some (42 ∷ [])) ++ replicate 7 none

abbrev seg_name : Bytes
seg_name = codes "/mm.2._t"

abbrev no_segment : Bytes → Option Attached
no_segment name = none

abbrev attached : Attached
attached = record { system = make_reader (start 2 8); moves = write_then_read }

-- The poll of that reader hands the byte to the subscriber.
byte_arrives :
    (poll_times everyone no_segment 1 one_listener
      (one_reader seg_name (codes "t") seg_name attached)).1
    ≡ (5, 42 ∷ []) ∷ []
unfolding poll_times poll_once poll_each poll_entry reader_of or_else drain make_reader start init
    finish reader_step writer_step reader_move writer_move slot_index deliver_inbound inbound_entry
    collect find insert bytes_eq
byte_arrives = refl
