-- ===== src/Tests/Ring.antt =====
-- shm_ring.h: one message through a ring of two slots.
use mini_middleware.Prelude.{
  ℕ, zero, suc, ◌+◌, ◌^◌, ◌<◌, ◌≤◌, ◌≡◌, refl, [], ◌∷◌, Bytes, All, length,
}
use mini_middleware.Transport.ShmRing.{
  slot_index, System, start, writer_step, reader_step, Reach, here, later, write, read, make_reader,
}
use mini_middleware.Transport.ShmRing.Content.{published}
use mini_middleware.Transport.ShmRing.Reading.{Falls}
use mini_middleware.Transport.ShmRing.Joining.{late_reader_reads}
use mini_middleware.Transport.ShmRing.Progress

abbrev writes : ℕ → Bytes → System → System
writes zero msg s = s
writes (suc n) msg s = writer_step (writes n msg s) msg

abbrev reads : ℕ → System → System
reads zero s = s
reads (suc n) s = reader_step (reads n s)

writes-Reach : (n : ℕ) (msg : Bytes) (s t : System) → Reach s t → Reach s (writes n msg t)
writes-Reach zero msg s t r = r
writes-Reach (suc n) msg s t r = later (writes-Reach n msg s t r) (write msg)

reads-Reach : (n : ℕ) (s t : System) → Reach s t → Reach s (reads n t)
reads-Reach zero s t r = r
reads-Reach (suc n) s t r = later (reads-Reach n s t r) read

-- The writer's call takes five steps for a byte, the reader's seven.
abbrev one_read : System
one_read = reads 7 (writes 5 (42 ∷ []) (start 2 8))

one_read-Reach : Reach (start 2 8) one_read
one_read-Reach =
    reads-Reach 7 (start 2 8) (writes 5 (42 ∷ []) (start 2 8))
      (writes-Reach 5 (42 ∷ []) (start 2 8) (start 2 8) here)

one_read_delivered : one_read.delivered ≡ (0, 42 ∷ []) ∷ []
unfolding start writer_step reader_step slot_index
one_read_delivered = refl

abbrev one_written : System
one_written = writes 5 (42 ∷ []) (start (2 ^ 1) 8)

-- A reader that is made when the first message is written, and reads the second.
abbrev late_read : System
late_read = reads 7 (writes 5 (43 ∷ []) (make_reader one_read))

late_read-Reach : Reach (make_reader one_read) late_read
late_read-Reach =
    reads-Reach 7 (make_reader one_read) (writes 5 (43 ∷ []) (make_reader one_read))
      (writes-Reach 5 (43 ∷ []) (make_reader one_read) (make_reader one_read) here)

late_read_delivered : late_read.delivered ≡ (1, 43 ∷ []) ∷ []
unfolding start writer_step reader_step slot_index make_reader
late_read_delivered = refl

late_reader_reads_example :
    All
      (λ (d : ℕ × Bytes).
        (one_read.ring.write_seq ≤ d.0) × ((d.0 < published late_read) × (d.1 ≡ late_read.log d.0)))
      late_read.delivered
    × Falls late_read.next late_read.delivered
    × (length late_read.delivered + late_read.dropped + one_read.ring.write_seq ≡ late_read.next)
late_reader_reads_example = late_reader_reads 2 8 one_read-Reach late_read-Reach
