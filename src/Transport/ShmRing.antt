-- ===== src/Transport/ShmRing.antt =====
-- transport/include/transport/shm_ring.h: the single-writer ring in shared memory, as interleaved
-- steps of the writer and of one reader. Each access to shared memory is a step of its own, down to
-- the bytes that `memcpy` and `assign` copy; the order of the steps is the program's, so memory is
-- sequentially consistent here. Another reader has its own cursor and writes nothing shared.
-- Positions are below 2 ^ 63, so the writing bit and the position of a slot's `seq` are two fields.
pub mod Layout
pub mod Content
pub mod Writing
pub mod Reading
pub mod Safety
pub mod Joining
pub mod Window
pub mod Retained
pub mod Progress
use mini_middleware.Prelude.{
  ℕ, zero, suc, ◌+◌, ◌-◌, ◌%◌, ◌^◌, List, [], ◌∷◌, ◌++◌, Bool, true, false, not, ◌||◌, Bytes,
  length, get_or, ltb, leb, ◌==◌, if◌then◌else◌, bit_and,
}

pub record Slot : Type 0 where
  pub writing : Bool
  pub pos : ℕ
  pub len : ℕ
  pub cells : ℕ → ℕ

pub record Ring : Type 0 where
  pub slot_count : ℕ
  pub slot_size : ℕ
  pub write_seq : ℕ
  pub slots : ℕ → Slot

abbrev pub update {ℓ} : {A : Type ℓ} → (ℕ → A) → ℕ → A → ℕ → A
update f i a j = if i == j then a else f j

-- `static_cast<uint32_t>(pos) & (slot_count_ - 1)`
unfoldable pub slot_index : ℕ → ℕ → ℕ
slot_index slot_count pos = bit_and (pos % 2 ^ 32) (slot_count - 1)

abbrev pub slot : Ring → ℕ → Slot
slot r pos = r.slots (slot_index r.slot_count pos)

abbrev pub set_slot : Ring → ℕ → Slot → Ring
set_slot r pos s = record r { slots = update r.slots (slot_index r.slot_count pos) s }

-- Every slot starts with the sentinel: the writing bit, and no position.
unfoldable pub init : ℕ → ℕ → Ring
init slot_count slot_size = record {
  slot_count = slot_count;
  slot_size = slot_size;
  write_seq = 0;
  slots = λ i. record { writing = true; pos = 0; len = 0; cells = λ j. 0 };
}

-- Where `write` stands, with the message that it writes and its position.
pub data WriterPc : Type 0 where
  resting : WriterPc
  claimed : ℕ → Bytes → WriterPc
  marked : ℕ → Bytes → WriterPc
  copying : ℕ → Bytes → ℕ → WriterPc

-- Where `read` stands, with its locals: the length and the bytes copied so far, or the whole copy.
pub data ReaderPc : Type 0 where
  outside : ReaderPc
  looping : ReaderPc
  checking : ReaderPc
  measuring : ReaderPc
  fetching : ℕ → Bytes → ReaderPc
  verifying : Bytes → ReaderPc

-- `delivered` are the messages that `read` returned with the positions they were read at, the
-- latest first; `log` are the messages that `write` was given, by position.
pub record System : Type 0 where
  pub ring : Ring
  pub writer : WriterPc
  pub log : ℕ → Bytes
  pub reader : ReaderPc
  pub next : ℕ
  pub dropped : ℕ
  pub delivered : List (ℕ × Bytes)

-- One step of `write`; from `resting` it is called with `msg`. A message over the slot size is
-- refused and changes nothing.
unfoldable pub writer_move : System → Bytes → WriterPc → System
writer_move s msg resting = if ltb s.ring.slot_size (length msg) then s else record s {
  ring = record (s.ring) { write_seq = s.ring.write_seq + 1 };
  writer = claimed s.ring.write_seq msg;
  log = update s.log s.ring.write_seq msg;
}
writer_move s msg (claimed pos m) = record s {
  ring = set_slot s.ring pos (record (slot s.ring pos) { writing = true; pos = pos });
  writer = marked pos m;
}
writer_move s msg (marked pos m) = record s {
  ring = set_slot s.ring pos (record (slot s.ring pos) { len = length m });
  writer = copying pos m 0;
}
writer_move s msg (copying pos m i) =
    if ltb i (length m)
    then record s {
      ring =
          set_slot s.ring pos
            (record (slot s.ring pos) { cells = update (slot s.ring pos).cells i (get_or m i 0) });
      writer = copying pos m (i + 1);
    }
    else record s {
      ring = set_slot s.ring pos (record (slot s.ring pos) { writing = false; pos = pos });
      writer = resting;
    }

unfoldable pub writer_step : System → Bytes → System
unfolding writer_move
writer_step s msg = writer_move s msg s.writer

-- The entry at `next` is given up.
abbrev skip_one : System → System
skip_one s = record s { reader = looping; next = s.next + 1; dropped = s.dropped + 1 }

-- The position that a reader further behind than the ring is long moves on to.
abbrev pub fast_forward : ℕ → ℕ → ℕ → ℕ
fast_forward n w next = if ltb n (w - next) then w - n + 1 else next

-- One step of `read`; from `outside` it is called.
unfoldable pub reader_move : System → ReaderPc → System
reader_move s outside = record s { reader = looping }
reader_move s looping =
    let w = s.ring.write_seq in
    let target = fast_forward s.ring.slot_count w s.next in
    if leb w s.next
    then record s { reader = outside }
    else record s { reader = checking; next = target; dropped = s.dropped + (target - s.next) }
reader_move s checking =
    if not ((slot s.ring s.next).pos == s.next)
    then skip_one s
    else if (slot s.ring s.next).writing
    then record s { reader = outside }
    else record s { reader = measuring }
reader_move s measuring =
    let len = (slot s.ring s.next).len in
    if ltb s.ring.slot_size len then skip_one s else record s { reader = fetching len [] }
reader_move s (fetching len out) =
    if ltb (length out) len
    then record s { reader = fetching len (out ++ ((slot s.ring s.next).cells (length out) ∷ [])) }
    else record s { reader = verifying out }
reader_move s (verifying out) =
    if (slot s.ring s.next).writing || not ((slot s.ring s.next).pos == s.next)
    then skip_one s
    else record s { reader = outside; next = s.next + 1; delivered = (s.next, out) ∷ s.delivered }

unfoldable pub reader_step : System → System
unfolding reader_move
reader_step s = reader_move s s.reader

pub data Step (s : System) : System → Type 0 where
  write : (msg : Bytes) → Step s (writer_step s msg)
  read : Step s (reader_step s)

pub data Reach (s : System) : System → Type 0 where
  here : Reach s s
  later : {t u : System} → Reach s t → Step t u → Reach s u

-- A ring that was just initialised, and a reader that `make_reader` gives for it.
unfoldable pub start : ℕ → ℕ → System
unfolding init
start slot_count slot_size = record {
  ring = init slot_count slot_size;
  writer = resting;
  log = λ p. [];
  reader = outside;
  next = 0;
  dropped = 0;
  delivered = [];
}

-- A reader that `make_reader` gives for a ring in use: it begins at the position that is written
-- next, with nothing read yet. The steps of `read` are its from then on.
unfoldable pub make_reader : System → System
make_reader s = record s { reader = outside; next = s.ring.write_seq; dropped = 0; delivered = [] }
