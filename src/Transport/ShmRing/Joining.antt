-- ===== src/Transport/ShmRing/Joining.antt =====
-- shm_ring.h: a reader that is made while the ring is in use.
use mini_middleware.Prelude.{
  ℕ, ◌+◌, ◌-◌, ◌≤◌, ◌<◌, ◌≡◌, refl, ap, subst, List, [], ◌∷◌, Bytes, arith, length, All,
}
use mini_middleware.Transport.ShmRing.{
  System, WriterPc, resting, claimed, marked, copying, ReaderPc, outside, looping, checking,
  measuring, fetching, verifying, writer_step, writer_move, reader_step, reader_move, fast_forward,
  Step, write, read, Reach, here, later, start, make_reader,
}
use mini_middleware.Transport.ShmRing.Content.{published}
use mini_middleware.Transport.ShmRing.Reading.{Falls, ReaderInv}
use mini_middleware.Transport.ShmRing.Safety.{Step-ReaderInv, start-ReaderInv, Reach-ReaderInv}

-- The positions before the reader's first count as passed.
abbrev Counting : ℕ → System → System
Counting k s = record s { dropped = s.dropped + k }

writer_move-Counting :
    (k : ℕ) (s : System) (msg : Bytes) (pc : WriterPc)
    → writer_move (Counting k s) msg pc ≡ Counting k (writer_move s msg pc)
unfolding writer_move
writer_move-Counting k s msg resting = ground arith
writer_move-Counting k s msg (claimed pos m) = refl
writer_move-Counting k s msg (marked pos m) = refl
writer_move-Counting k s msg (copying pos m i) = ground arith

-- What gives up positions counts the same.
same_count :
    (k d e : ℕ) (s : System)
    → (pc : ReaderPc) (next' : ℕ)
    → record s { reader = pc; next = next'; dropped = d + k + e }
      ≡ record s { reader = pc; next = next'; dropped = d + e + k }
same_count k d e s pc next' =
    ap (λ (x : ℕ). record s { reader = pc; next = next'; dropped = x }) {x = d + k + e}
      {y = d + e + k} (omega arith)

reader_move-Counting :
    (k : ℕ) (s : System) (pc : ReaderPc)
    → reader_move (Counting k s) pc ≡ Counting k (reader_move s pc)
unfolding reader_move
reader_move-Counting k s outside = refl
reader_move-Counting k s looping =
    let target = fast_forward s.ring.slot_count s.ring.write_seq s.next in
    ground (arith, same_count k s.dropped (target - s.next) s checking target)
reader_move-Counting k s checking = ground (arith, same_count k s.dropped 1 s looping (s.next + 1))
reader_move-Counting k s measuring = ground (arith, same_count k s.dropped 1 s looping (s.next + 1))
reader_move-Counting k s (fetching len out) = ground arith
reader_move-Counting k s (verifying out) =
    ground (arith, same_count k s.dropped 1 s looping (s.next + 1))

-- The reader has nothing from before a position.
abbrev pub IsSince : ℕ → System → Type 0
IsSince k s = (k ≤ s.next) × All (λ (d : ℕ × Bytes). k ≤ d.0) s.delivered

writer_move-IsSince :
    (k : ℕ) (s : System) (msg : Bytes) (pc : WriterPc)
    → IsSince k s
    → IsSince k (writer_move s msg pc)
unfolding writer_move
writer_move-IsSince k s msg resting h = ground arith
writer_move-IsSince k s msg (claimed pos m) h = h
writer_move-IsSince k s msg (marked pos m) h = h
writer_move-IsSince k s msg (copying pos m i) h = ground arith

reader_move-IsSince :
    (k : ℕ) (s : System) (pc : ReaderPc) → IsSince k s → IsSince k (reader_move s pc)
unfolding reader_move
reader_move-IsSince k s outside h = h
reader_move-IsSince k s looping h = ground arith
reader_move-IsSince k s checking h = ground arith
reader_move-IsSince k s measuring h = ground arith
reader_move-IsSince k s (fetching len out) h = ground arith
reader_move-IsSince k s (verifying out) h = ground arith

-- What holds while a reader that was made at position `k` reads.
abbrev Joined : ℕ → System → Type 0
Joined k t = ReaderInv (Counting k t) × IsSince k t

Step-Joined : (k : ℕ) {s t : System} → Step s t → Joined k s → Joined k t
unfolding writer_step reader_step
Step-Joined k {s} (write msg) v = (
  subst ReaderInv (writer_move-Counting k s msg s.writer) (Step-ReaderInv (write msg) v.0),
  writer_move-IsSince k s msg s.writer v.1,
)
Step-Joined k {s} read v = (
  subst ReaderInv (reader_move-Counting k s s.reader) (Step-ReaderInv read v.0),
  reader_move-IsSince k s s.reader v.1,
)

Reach-Joined : (k : ℕ) {s t : System} → Joined k s → Reach s t → Joined k t
Reach-Joined k v here = v
Reach-Joined k v (later r st) = Step-Joined k st (Reach-Joined k v r)

make_reader-Joined : (s : System) → ReaderInv s → Joined s.ring.write_seq (make_reader s)
unfolding make_reader
make_reader-Joined s v = (
  record {
    shared = record { slots_ok = v.shared.slots_ok; writer_holds = v.shared.writer_holds };
    reads = tt;
    genuine = tt;
    falls = tt;
    counted = omega arith;
  },
  (omega arith, tt),
)

All-both :
    (P Q : ℕ × Bytes → Type 0) (ds : List (ℕ × Bytes))
    → All P ds
    → All Q ds
    → All (λ d. P d × Q d) ds
All-both P Q [] p q = tt
All-both P Q (d ∷ ds) p q = ((p.0, q.0), All-both P Q ds p.1 q.1)

-- A reader that is made for a ring in use, whatever was written and read before and even amid a
-- write: however the steps go on, it only returns messages that were written from then on, each the
-- one of its position, byte for byte, no position twice and none before an earlier one; and it
-- counts as dropped exactly the positions from then on that it passed without returning them.
pub late_reader_reads :
    (slot_count slot_size : ℕ) {s t : System}
    → Reach (start slot_count slot_size) s
    → Reach (make_reader s) t
    → All
        (λ (d : ℕ × Bytes). (s.ring.write_seq ≤ d.0) × ((d.0 < published t) × (d.1 ≡ t.log d.0)))
        t.delivered
      × Falls t.next t.delivered
      × (length t.delivered + t.dropped + s.ring.write_seq ≡ t.next)
late_reader_reads slot_count slot_size {s} {t} before after =
    let k = s.ring.write_seq in
    let v =
      Reach-Joined k
        (make_reader-Joined s (Reach-ReaderInv (start-ReaderInv slot_count slot_size) before))
        after in
    (
      All-both (λ (d : ℕ × Bytes). k ≤ d.0)
          (λ (d : ℕ × Bytes). (d.0 < published t) × (d.1 ≡ t.log d.0)) t.delivered v.1.1
          v.0.genuine,
      v.0.falls,
      omega (arith, v.0.counted),
    )
