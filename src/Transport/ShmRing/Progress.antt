-- ===== src/Transport/ShmRing/Progress.antt =====
-- shm_ring.h: a reader that is left alone returns the next entry, in a bounded number of steps.
use mini_middleware.Prelude.{ℕ, zero, suc}
use mini_middleware.Transport.ShmRing.{System, reader_step}

-- `n` steps of the reader, with none of the writer between them.
abbrev pub reads : ℕ → System → System
reads zero s = s
reads (suc n) s = reads n (reader_step s)
